-- ===== src/Server/Captcha/Verdict.antt =====
-- When the verifier passes a token.
use sponsor.Common.{ℕ, ◌≡◌, ◌↔◌, Bool, List, [], ◌∷◌, ◌++◌, Option, none, some, ◌<◌, arith, ◌⊎◌}
use sponsor.Common.Result.{ok, ◌>>=◌, bind-eq-ok}
use sponsor.Common.Text.{Text, lit}
use sponsor.Server.Captcha.{
  SiteAnswer, Turnstile, error_for_status, json_success, remote_field, verify,
}

-- The form that is posted.
abbrev pub form_of : Turnstile → Text → Option Text → List (Text × Text)
form_of t token remote_ip =
    ((lit "secret", t.secret) ∷ (lit "response", token) ∷ []) ++ remote_field remote_ip

-- An answer that is no HTTP error, and whose body has the verdict `b`.
abbrev pub Says : Bool → SiteAnswer → Type 0
Says b a = ((a.status < 400) ⊎ (599 < a.status)) × (a.success ≡ some b)

judged_of_fields :
    (b : Bool) (status : ℕ) (success : Option Bool)
    → (let a : SiteAnswer = record { status = status; success = success } in
        ((error_for_status a >>= λ resp. json_success resp) ≡ ok b) ↔ Says b a)
unfolding error_for_status
judged_of_fields b status (some x) = ground arith
judged_of_fields b status none = ground arith

judged :
    (b : Bool) (a : SiteAnswer)
    → ((error_for_status a >>= λ resp. json_success resp) ≡ ok b) ↔ Says b a
judged b a = judged_of_fields b a.status a.success

-- The verifier gives a verdict exactly when the form with the secret, the token and perhaps the
-- remote address was answered by no HTTP error and with this verdict as `success`.
pub verify-ok_iff :
    (t : Turnstile) (token : Text) (remote_ip : Option Text) (b : Bool)
    → (verify t token remote_ip ≡ ok b)
      ↔ ((a : SiteAnswer) × (t.http t.endpoint (form_of t token remote_ip) ≡ ok a) × Says b a)
unfolding verify
verify-ok_iff t token remote_ip b = (
  λ h.
      let (a, sent, later) = bind-eq-ok (t.http t.endpoint (form_of t token remote_ip)) _ h in
      (a, sent, (judged b a).0 later),
  λ (a, sent, says). rw (sent) ((judged b a).1 says),
)
