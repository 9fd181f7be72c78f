-- ===== src/Client/Request/Laws.antt =====
-- Which errors `doRequest` makes of the server's answers, and how they are classified.
use csi_driver_bs.Base.{ℕ, ◌≡◌, ◌≢◌, refl, true, some, ◌++◌, ok, err, arith, nat_eq}
use mathlib.Core.List.{append_assoc}
use csi_driver_bs.Text.{Text, str}
use csi_driver_bs.Text.Decimal.{decimal}
use csi_driver_bs.Text.Contains.{contains, contains_iff}
use csi_driver_bs.Client.Json.{Fields}
use csi_driver_bs.Client.Errors.{is_not_found_error, is_already_exists_error}
use csi_driver_bs.Client.Request.{
  Client, Transport, HttpResponse, http_request, status_error, read_response, do_request, post,
}

-- In the state `w` the server answers this payload with a status and a body, in the state `w'`.
pub record Answers {W : Type 0} (t : Transport W) (c : Client) (payload : Fields) (w w' : W)
    (answer : HttpResponse) : Type 0 where
  pub json : Text
  pub encoded : t.marshal payload ≡ ok json
  pub accepted : t.new_request (str "POST") (c.base_url ++ str "/volumes") ≡ ok tt
  pub sent : t.send (http_request c (str "POST") (str "/volumes") (some json)) w ≡ (ok answer, w')

module _ {W : Type 0} (t : Transport W) (c : Client) (payload : Fields) (w w' : W) where
  pub post-Answers :
      (answer : HttpResponse)
      → Answers t c payload w w' answer
      → post t c payload w ≡ (read_response t (ok answer), w')
  unfolding do_request
  post-Answers answer a = ground (arith, a.encoded, a.accepted, a.sent)

contains_status :
    (before : Text) (code : ℕ) (body : Text)
    → contains (before ++ status_error code body) (decimal code) ≡ true
unfolding status_error
contains_status before code body =
    (contains_iff _ (decimal code)).1
      (before ++ str "request failed, status code: ", str ", response: " ++ body, simp append_assoc)

decimal_404 : decimal 404 ≡ str "404"
unfolding decimal str
decimal_404 = refl

decimal_409 : decimal 409 ≡ str "409"
unfolding decimal str
decimal_409 = refl

-- The error of a 404 answer counts as "not found", whatever text was put in front of it.
pub is_not_found-status_error :
    (before body : Text) → is_not_found_error (before ++ status_error 404 body) ≡ true
unfolding is_not_found_error
is_not_found-status_error before body =
    let found : contains (before ++ status_error 404 body) (str "404") ≡ true =
      rw (← decimal_404) (contains_status before 404 body) in
    ground (arith, found)

pub is_already_exists-status_error :
    (before body : Text) → is_already_exists_error (before ++ status_error 409 body) ≡ true
unfolding is_already_exists_error
is_already_exists-status_error before body =
    let found : contains (before ++ status_error 409 body) (str "409") ≡ true =
      rw (← decimal_409) (contains_status before 409 body) in
    ground (arith, found)

pub read_response_refused :
    {W : Type 0} (t : Transport W) (code : ℕ) (body : Text)
    → code ≢ 200
    → read_response t (ok (record { status_code = code; body = ok body }))
      ≡ err (status_error code body)
unfolding read_response
read_response_refused t code body h = ground arith

-- So does the error of any other refusal whose body holds that text.
pub is_not_found_body :
    (before : Text) (code : ℕ) (body : Text)
    → contains body (str "404") ≡ true
    → is_not_found_error (before ++ status_error code body) ≡ true
unfolding is_not_found_error status_error
is_not_found_body before code body h =
    let (x, y, e) = (contains_iff body (str "404")).0 h in
    let found : contains (before ++ status_error code body) (str "404") ≡ true =
      (contains_iff _ (str "404")).1 (
        before
            ++ (str "request failed, status code: " ++ (decimal code ++ (str ", response: " ++ x))),
        y,
        rw e (simp append_assoc),
      ) in
    ground (arith, found)
