-- ===== src/Plugin/Process.antt =====
-- The whole of `main` of cmd/vcloud-csi-plugin/main.go: the start, and then the gRPC server.
use csi_driver_bs.Base.{
  true, false, ◌≡◌, ◌≢◌, refl, arith, Option, none, some, Option-cases, inl, inr, List, [], ◌∷◌,
  ◌++◌, ok,
}
use csi_driver_bs.Text.{Text, str}
use csi_driver_bs.Os.{OsError, Os}
use csi_driver_bs.Driver.{Driver}
use csi_driver_bs.Server.{parse_endpoint}
use csi_driver_bs.Server.Serving.{
  Service, identity_service, controller_service, node_service, Net, NonBlockingServer, Ended, fatal,
  returned, registered, remove_socket, serve_on, listen_and_serve, serve, start_and_wait, run,
}
use csi_driver_bs.Plugin.{Flags, Started, version_printed, panicked, fatal, running, start}
use csi_driver_bs.Plugin.Modes.{endpoint_of, start-endpoint}

-- How the process ends: with status 0 after the version, by a panic, by `klog.Fatalf`, or at the end
-- of `main`.
pub data Exit : Type 0 where
  exit_zero exit_panic main_returns : Exit
  exit_fatal : Text → Exit

-- `Run` returns no error.
abbrev pub exit_of : {W : Type 0} → Ended × W → Exit × W
exit_of (fatal message, w) = (exit_fatal message, w)
exit_of (returned s, w) = (main_returns, w)

-- How `main` ends after `Serve`: it returns where that has returned no error.
abbrev pub after_serving : {W : Type 0} → Option OsError × W → Exit × W
after_serving (none, w) = (main_returns, w)
after_serving (some e, w) = (exit_fatal (str "Failed to serve: " ++ e.message), w)

-- No socket is in the way of a listener: that of a unix endpoint is removed or was not there.
pub data SocketGone {W : Type 0} (os : Os W) (proto addr : Text) (w : W) : W → Type 0 where
  removed :
      {w' : W} → proto ≡ str "unix" → os.remove addr w ≡ (none, w') → SocketGone os proto addr w w'
  missing :
      {w' : W}
      → proto ≡ str "unix"
      → (e : OsError) → os.remove addr w ≡ (some e, w')
      → e.not_exist ≡ true
      → SocketGone os proto addr w w'
  no_socket : proto ≢ str "unix" → SocketGone os proto addr w w

module _ {W : Type 0} (os : Os W) (net : Net W) where
  abbrev go_on : Started × W → Exit × W
  go_on (version_printed, w) = (exit_zero, w)
  go_on (panicked, w) = (exit_panic, w)
  go_on (fatal message, w) = (exit_fatal message, w)
  go_on (running d, w) = exit_of (run os net d w)

  unfoldable pub main : Text → Text → Flags → W → Exit × W
  main version env_node_id flags w = go_on (start os version env_node_id flags w)

  Running-cases :
      (s : Started) (endpoint : Text)
      → endpoint_of s ≡ some endpoint
      → (d : Driver) × (s ≡ running d)
        × (d.endpoint ≡ endpoint)
        × (registered d.ids d.cs d.ns ≡ identity_service ∷ controller_service ∷ node_service ∷ [])
  Running-cases (running d) endpoint e = (d, refl, ground arith, ground arith)
  Running-cases version_printed endpoint e = absurd (ground arith)
  Running-cases panicked endpoint e = absurd (ground arith)
  Running-cases (fatal message) endpoint e = absurd (ground arith)

  socket-gone :
      (proto addr : Text) (w w' : W)
      → SocketGone os proto addr w w'
      → remove_socket os net proto addr w ≡ (none, w')
  unfolding remove_socket
  socket-gone proto addr w w' (removed unix e) = ground arith
  socket-gone proto addr w w' (missing unix x e absent) = ground arith
  socket-gone proto addr w w' (no_socket other) = ground arith

  serve_on-served :
      (proto addr : Text) (s : NonBlockingServer) (services : List Service) (w : W)
      → exit_of (serve_on os net proto addr s services w)
        ≡ after_serving (net.serve proto addr services w)
  unfolding serve_on
  serve_on-served proto addr s services w =
      elim (Option-cases (net.serve proto addr services w).0) [
        | inl e ↦ ground arith
        | inr (x, e) ↦ ground arith
      ]

  run-serves :
      (d : Driver) (services : List Service) (proto addr : Text) (w w' w'' : W)
      → registered d.ids d.cs d.ns ≡ services
      → parse_endpoint d.endpoint ≡ (proto, addr)
      → remove_socket os net proto addr w ≡ (none, w')
      → net.listen proto addr w' ≡ (ok tt, w'')
      → run os net d w
        ≡ serve_on os net proto addr (record { waiting = 1; server = none }) services w''
  unfolding run start_and_wait serve listen_and_serve
  run-serves d services proto addr w w' w'' servers parsed gone listens = ground arith

  -- Where the version is not asked for and there is an endpoint, `main` serves the identity, the
  -- controller and the node service on a listener at the endpoint's address, and ends as that serving
  -- ends: by returning, or with a fatal error. This holds whatever the configuration file is and
  -- whatever the host answers about it, so `main` neither panics nor gives up before. The old socket of
  -- a unix endpoint is removed or not there, and the address can be listened on.
  pub main-serves :
      (version env_node_id : Text) (flags : Flags) (proto addr : Text) (w w' w'' : W)
      → flags.show_version ≡ false
      → flags.endpoint ≢ []
      → parse_endpoint flags.endpoint ≡ (proto, addr)
      → SocketGone os proto addr (start os version env_node_id flags w).1 w'
      → net.listen proto addr w' ≡ (ok tt, w'')
      → main version env_node_id flags w
        ≡ after_serving
            (net.serve proto addr (identity_service ∷ controller_service ∷ node_service ∷ []) w'')
  unfolding main
  main-serves version env_node_id flags proto addr w w' w'' h k parsed socket listens =
      let started = start os version env_node_id flags w in
      let services = identity_service ∷ controller_service ∷ node_service ∷ [] in
      let (d, e, f, servers) =
        Running-cases started.0 flags.endpoint
          (start-endpoint os version env_node_id flags w h k) in
      ground (
        arith,
        run-serves d services proto addr started.1 w' w'' servers,
        socket-gone proto addr started.1 w' socket,
        serve_on-served proto addr (record { waiting = 1; server = none }) services w'',
      )
