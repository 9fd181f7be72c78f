-- ===== src/Client/Request.antt =====
-- `Client` and `doRequest` of pkg/vcloud/client/client.go. What encoding/json and net/http do is the
-- parameter `Transport`, over the state `W` of all that is outside the driver.
pub mod Laws
use csi_driver_bs.Base.{
  ℕ, ◌*◌, ◌≡◌, Bool, true, false, Option, none, some, List, [], ◌++◌, Result, ok, err, nat_eq, ◌==◌,
  if◌then◌else◌,
}
use csi_driver_bs.Text.{Text, str, is_empty}
use csi_driver_bs.Text.Decimal.{decimal}
use csi_driver_bs.Client.Json.{Fields, end}

-- The timeout is in nanoseconds.
pub record Client : Type 0 where
  pub timeout : ℕ
  pub base_url : Text
  pub provider_token : Text

abbrev pub default_timeout : ℕ
default_timeout = 30 * 1000000000

unfoldable pub new_client_with_timeout : Text → Text → ℕ → Client
new_client_with_timeout base_url provider_token timeout = record {
  timeout = timeout;
  base_url = base_url;
  provider_token = provider_token;
}

unfoldable pub new_client : Text → Text → Client
new_client base_url provider_token = record {
  timeout = default_timeout;
  base_url = base_url;
  provider_token = provider_token;
}

-- With the timeout of the client that sends it.
pub record HttpRequest : Type 0 where
  pub timeout : ℕ
  pub method : Text
  pub url : Text
  pub content_type : Text
  pub provider_token : Text
  pub body : Option Text

-- `body` is what `io.ReadAll` makes of the body.
pub record HttpResponse : Type 0 where
  pub status_code : ℕ
  pub body : Result Text Text

-- An error is the text of its `Error()`. `new_request` is the check of `http.NewRequestWithContext`
-- on the method and the URL, and `send` is `httpClient.Do`.
pub record Transport (W : Type 0) : Type 0 where
  pub marshal : Fields → Result Text Text
  pub unmarshal : Text → Result Text Fields
  pub new_request : Text → Text → Result Text (Unit {0})
  pub send : HttpRequest → W → Result Text HttpResponse × W

-- `fmt.Errorf("…: %w", err)`
abbrev pub wrap {ℓ} : {A : Type ℓ} → Text → Result Text A → Result Text A
wrap message (ok a) = ok a
wrap message (err e) = err (message ++ e)

abbrev pub status_ok : ℕ
status_ok = 200

unfoldable pub status_error : ℕ → Text → Text
status_error code body =
    str "request failed, status code: " ++ (decimal code ++ (str ", response: " ++ body))

unfoldable pub http_request : Client → Text → Text → Option Text → HttpRequest
http_request c method endpoint body = record {
  timeout = c.timeout;
  method = method;
  url = c.base_url ++ endpoint;
  content_type = str "application/json";
  provider_token = c.provider_token;
  body = body;
}

module _ {W : Type 0} (t : Transport W) where
  unfoldable pub decode_body : Text → Result Text Fields
  decode_body body =
      if is_empty body then ok end else wrap (str "failed to decode response: ") (t.unmarshal body)

  -- From `httpClient.Do` on.
  unfoldable pub read_response : Result Text HttpResponse → Result Text Fields
  unfolding decode_body
  read_response (err e) = err (str "request failed: " ++ e)
  read_response (ok resp) = elim resp.body [
    | err e ↦ err (str "failed to read response: " ++ e)
    | ok body ↦
        if resp.status_code == status_ok
        then decode_body body
        else err (status_error resp.status_code body)
  ]

  -- `reqBody`, the nil reader for a nil payload.
  unfoldable pub encode_payload : Option Fields → Result Text (Option Text)
  encode_payload none = ok none
  encode_payload (some payload) = elim (t.marshal payload) [
    | err e ↦ err (str "failed to marshal request: " ++ e)
    | ok json ↦ ok (some json)
  ]

  unfoldable pub do_request : Client → Text → Text → Option Fields → W → Result Text Fields × W
  unfolding encode_payload
  do_request c method endpoint payload w = elim (encode_payload payload) [
    | err e ↦ (err e, w)
    | ok body ↦ elim (t.new_request method (c.base_url ++ endpoint)) [
      | err e ↦ (err (str "failed to create request: " ++ e), w)
      | ok _ ↦
          let (resp, w') = t.send (http_request c method endpoint body) w in
          (read_response resp, w')
    ]
  ]

  -- The call that every operation makes.
  abbrev pub post : Client → Fields → W → Result Text Fields × W
  post c payload = do_request c (str "POST") (str "/volumes") (some payload)
