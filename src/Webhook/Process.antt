-- ===== src/Webhook/Process.antt =====
-- `main` of cmd/pvc-expand-webhook/main.go, from the parsed flags on. client-go, crypto/tls and
-- net/http are parameters. The wait for a signal and the shutdown after it are left out.
use csi_driver_bs.Base.{ℕ, ◌++◌, Option, none, some, Result, ◌==◌, if◌then◌else◌}
use csi_driver_bs.Text.{Text, text_eq, str}
use csi_driver_bs.Text.Decimal.{decimal}
use csi_driver_bs.Webhook.{Cluster}
use csi_driver_bs.Webhook.Handler.{ReviewCodec, Written, handle_validate}

-- `port` is not negative.
pub record WebhookFlags : Type 0 where
  pub tls_cert : Text
  pub tls_key : Text
  pub port : ℕ

abbrev pub default_webhook_flags : WebhookFlags
default_webhook_flags = record {
  tls_cert = str "/etc/webhook/certs/tls.crt";
  tls_key = str "/etc/webhook/certs/tls.key";
  port = 8443;
}

-- What the two handlers of the mux answer: that of `/validate`, or 200 with a body.
pub data Answer : Type 0 where
  validated : Written → Answer
  healthy : Text → Answer
  no_route : Answer

-- `rest.InClusterConfig`, `kubernetes.NewForConfig` and `tls.LoadX509KeyPair`, as their errors.
pub record Setup (W : Type 0) : Type 0 where
  pub in_cluster_config : W → Option Text × W
  pub new_for_config : W → Option Text × W
  pub load_x509_key_pair : Text → Text → W → Option Text × W

pub data WebhookStarted : Type 0 where
  fatal : Text → WebhookStarted
  listening : Text → WebhookStarted

module _ {W : Type 0} (setup : Setup W) where
  -- "Load TLS certificates", and the server's address.
  abbrev with_certificate : WebhookFlags → W → WebhookStarted × W
  with_certificate flags w =
      let (r, w') = setup.load_x509_key_pair flags.tls_cert flags.tls_key w in
      elim r [
        | some e ↦ (fatal (str "Failed to load TLS certificates: " ++ e), w')
        | none ↦ (listening (str ":" ++ decimal flags.port), w')
      ]

  abbrev with_client : WebhookFlags → W → WebhookStarted × W
  with_client flags w =
      let (r, w') = setup.new_for_config w in
      elim r [
        | some e ↦ (fatal (str "Failed to create Kubernetes client: " ++ e), w')
        | none ↦ with_certificate flags w'
      ]

  unfoldable pub start_webhook : WebhookFlags → W → WebhookStarted × W
  start_webhook flags w =
      let (r, w') = setup.in_cluster_config w in
      elim r [
        | some e ↦ (fatal (str "Failed to get in-cluster config: " ++ e), w')
        | none ↦ with_client flags w'
      ]

module _ {Q W : Type 0} (cl : Cluster Q W) (codec : ReviewCodec) where
  abbrev of_validate : Written × W → Answer × W
  of_validate (answer, w) = (validated answer, w)

  -- The mux, on the path of a request.
  unfoldable pub route : Text → Result Text Text → W → Answer × W
  route path body w =
      if path == str "/validate"
      then of_validate (handle_validate cl codec body w)
      else if path == str "/healthz"
      then (healthy (str "ok"), w)
      else (no_route, w)
