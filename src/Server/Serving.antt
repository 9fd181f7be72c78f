-- ===== src/Server/Serving.antt =====
-- The gRPC server of pkg/vcloud/server.go and `Run` of pkg/vcloud/vcloud.go. The packages net and
-- google.golang.org/grpc are the parameter `Net`, over the state `W` of the node. `logGRPC` only
-- logs, so it is left out.
use csi_driver_bs.Base.{
  ℕ, suc, ◌-◌, Bool, Option, none, some, List, [], ◌∷◌, ◌++◌, Result, ok, err, ◌==◌, if◌then◌else◌,
}
use csi_driver_bs.Text.{Text, text_eq, str}
use csi_driver_bs.Os.{OsError, Os}
use csi_driver_bs.Driver.{Driver}
use csi_driver_bs.Server.{parse_endpoint}

pub data Service : Type 0 where
  identity_service controller_service node_service : Service

-- `net.Listen`, and `Serve` of a server with the services that are registered, on the listener: it
-- returns when the server is stopped, or with an error.
pub record Net (W : Type 0) : Type 0 where
  pub listen : Text → Text → W → Result OsError (Unit {0}) × W
  pub serve : Text → Text → List Service → W → Option OsError × W
  pub graceful_stop : W → W
  pub stop : W → W

-- The wait group's counter, and the services of the gRPC server if there is one.
pub record NonBlockingServer : Type 0 where
  pub waiting : ℕ
  pub server : Option (List Service)

abbrev pub new_non_blocking_server : NonBlockingServer
new_non_blocking_server = record { waiting = 0; server = none }

-- How a call ends that may end the process: with `klog.Fatalf`, or by returning.
pub data Ended : Type 0 where
  fatal : Text → Ended
  returned : NonBlockingServer → Ended

-- The servers that are not nil.
abbrev pub registered : Bool → Bool → Bool → List Service
registered ids cs ns =
    (if ids then identity_service ∷ [] else [])
    ++ ((if cs then controller_service ∷ [] else []) ++ (if ns then node_service ∷ [] else []))

-- `s.wg.Done()`
abbrev done : NonBlockingServer → NonBlockingServer
done s = record s { waiting = s.waiting - 1 }

abbrev pub cannot_remove : Text → OsError → Text
cannot_remove addr e =
    str "Failed to remove existing socket file " ++ (addr ++ (str ": " ++ e.message))

abbrev pub cannot_listen : Text → Text → OsError → Text
cannot_listen proto addr e =
    str "Failed to listen on " ++ (proto ++ (str "://" ++ (addr ++ (str ": " ++ e.message))))

module _ {W : Type 0} (os : Os W) (net : Net W) where
  -- "For unix sockets, remove existing socket file": the error that counts.
  unfoldable pub remove_socket : Text → Text → W → Option OsError × W
  remove_socket proto addr w =
      if proto == str "unix"
      then (let (r, w') = os.remove addr w in
          elim r [ none ↦ (none, w') | some e ↦ (if e.not_exist then none else some e, w') ])
      else (none, w)

  -- `Serve` and what follows it.
  unfoldable pub serve_on : Text → Text → NonBlockingServer → List Service → W → Ended × W
  serve_on proto addr s services w =
      let (r, w') = net.serve proto addr services w in
      elim r [
        | some e ↦ (fatal (str "Failed to serve: " ++ e.message), w')
        | none ↦ (returned (done (record s { server = some services })), w')
      ]

  -- From "Create listener" on.
  unfoldable pub listen_and_serve : Text → Text → NonBlockingServer → List Service → W → Ended × W
  listen_and_serve proto addr s services w =
      let (r, w') = net.listen proto addr w in
      elim r [
        | err e ↦ (fatal (cannot_listen proto addr e), w')
        | ok _ ↦ serve_on proto addr s services w'
      ]

  -- `parseEndpoint` never returns an error.
  unfoldable pub serve : Text → Bool → Bool → Bool → NonBlockingServer → W → Ended × W
  serve endpoint ids cs ns s w =
      let (proto, addr) = parse_endpoint endpoint in
      let (r, w') = remove_socket proto addr w in
      elim r [
        | some e ↦ (fatal (cannot_remove addr e), w')
        | none ↦ listen_and_serve proto addr s (registered ids cs ns) w'
      ]

  -- `Start` and then `Wait`, which returns when the goroutine of `serve` has ended.
  unfoldable pub start_and_wait : Text → Bool → Bool → Bool → NonBlockingServer → W → Ended × W
  start_and_wait endpoint ids cs ns s w =
      serve endpoint ids cs ns (record s { waiting = suc s.waiting }) w

  unfoldable pub run : Driver → W → Ended × W
  run d w = start_and_wait d.endpoint d.ids d.cs d.ns new_non_blocking_server w

  unfoldable pub stop : NonBlockingServer → W → W
  stop s w = elim s.server [ none ↦ w | some _ ↦ net.graceful_stop w ]

  unfoldable pub force_stop : NonBlockingServer → W → W
  force_stop s w = elim s.server [ none ↦ w | some _ ↦ net.stop w ]
