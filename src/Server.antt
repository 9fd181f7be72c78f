-- ===== src/Server.antt =====
-- `parseEndpoint` of pkg/vcloud/server.go.
pub mod Serving
use csi_driver_bs.Base.{
  ltb, ◌&&◌, ◌≡◌, ◌≢◌, arith, [], ◌∷◌, ◌++◌, length, take, drop, ◌==◌, if◌then◌else◌,
}
use native.Mathlib.Decide.{ℕ_discrete}
use csi_driver_bs.Text.{Text, text_eq, text_dec, str}

-- The protocol and the address.
unfoldable pub parse_endpoint : Text → Text × Text
parse_endpoint endpoint =
    if ltb 7 (length endpoint) && take 7 endpoint == str "unix://"
    then (str "unix", drop 7 endpoint)
    else if ltb 5 (length endpoint) && take 5 endpoint == str "unix:"
    then (str "unix", drop 5 endpoint)
    else if ltb 6 (length endpoint) && take 6 endpoint == str "tcp://"
    then (str "tcp", drop 6 endpoint)
    else (str "unix", endpoint)

-- An endpoint with the prefix `unix://`, `tcp://` or `unix:` is taken apart into the protocol and the
-- address. The address is not empty and does not begin with two slashes.
pub parse_endpoint-parts :
    (address : Text)
    → address ≢ []
    → take 2 address ≢ str "//"
    → (parse_endpoint (str "unix://" ++ address) ≡ (str "unix", address))
      × ((parse_endpoint (str "tcp://" ++ address) ≡ (str "tcp", address))
          × (parse_endpoint (str "unix:" ++ address) ≡ (str "unix", address)))
unfolding parse_endpoint str text_dec ℕ_discrete
parse_endpoint-parts [] h k = ground arith
parse_endpoint-parts (a ∷ []) h k = ground arith
parse_endpoint-parts (a ∷ (b ∷ s)) h k = (ground arith, (ground arith, ground arith))
