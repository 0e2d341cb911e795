-- ===== src/Access/Verify.antt =====
-- internal/domain/auth/service.go: what a VerifyPIN that succeeds has passed.
use bca_mobile_api.Common.{
  ℕ, ◌≡◌, ◌∙◌, ap, String, false, true, not, some, ok, ◌==◌, invalid_pin, account_locked,
}
use bca_mobile_api.Access.RateLimit.{pin_verify}
use bca_mobile_api.Access.Store.{exists_marker}
use bca_mobile_api.Access.Step.{AuthWorld}
use bca_mobile_api.Common.State.{refuse, need, >>=-IsBound, refuse_passed, need_passed}
use bca_mobile_api.Access.Lockout.{is_locked, is_fresh, find_by_device_id}
use bca_mobile_api.Access.Login.{
  check_verify, find_user_call, is_locked_call, Payload, LoginEnv, has_skew, call, check_attempts,
  open_payload, verify_pin,
}
use bca_mobile_api.Access.Guess.{call_passed, check_attempts_passed, open_payload_passed}

-- A payload that may be opened, and was not seen before.
pub record IsNew (env : LoginEnv) (now : ℕ) (text : String) (p : Payload) (w : AuthWorld)
    : Type 0 where
  pub opened : env.decrypt text ≡ some p
  pub timely : has_skew now p ≡ false
  pub fresh : is_fresh now p.nonce w ≡ true

is_fresh-same :
    (now nonce : ℕ) (x w : AuthWorld)
    → x.nonces ≡ w.nonces
    → is_fresh now nonce x ≡ is_fresh now nonce w
unfolding is_fresh
is_fresh-same now nonce x w h = ap (λ ms. not (exists_marker now nonce ms)) h

pub verify_pin-IsNew :
    (env : LoginEnv) (now user device : ℕ) (text : String) (w : AuthWorld) {t : Unit {0}}
    {v : AuthWorld}
    → verify_pin env now user device text w ≡ (ok t, v)
    → (p : Payload) × IsNew env now text p w
unfolding verify_pin
verify_pin-IsNew env now user device text w h =
    let b₁ = >>=-IsBound (check_attempts env check_verify now (pin_verify user)) _ w h in
    let (a₁, e₁) = check_attempts_passed env check_verify now (pin_verify user) w b₁.outcome in
    let b₂ = >>=-IsBound (call env find_user_call "find user: ") _ b₁.middle b₁.rest in
    let e₂ = call_passed env find_user_call "find user: " b₂.outcome in
    let b₃ =
      >>=-IsBound (need (find_by_device_id device b₂.middle) invalid_pin) _ b₂.middle b₂.rest in
    let (a₃, e₃) = need_passed (find_by_device_id device b₂.middle) invalid_pin b₃.outcome in
    let u = b₃.value in
    let b₄ = >>=-IsBound (refuse (not (u.id == user)) invalid_pin) _ b₃.middle b₃.rest in
    let (a₄, e₄) = refuse_passed _ invalid_pin b₄.outcome in
    let b₅ = >>=-IsBound (call env is_locked_call "check lockout: ") _ b₄.middle b₄.rest in
    let e₅ = call_passed env is_locked_call "check lockout: " b₅.outcome in
    let b₆ =
      >>=-IsBound (refuse (is_locked now u.id b₅.middle) account_locked) _ b₅.middle b₅.rest in
    let (a₆, e₆) = refuse_passed _ account_locked b₆.outcome in
    let b₇ = >>=-IsBound (open_payload env now text) _ b₆.middle b₆.rest in
    let o = open_payload_passed env now text b₇.outcome in
    let nonces : w.nonces ≡ b₆.middle.nonces =
      ap (λ y. y.nonces) e₁ ∙ ap (λ y. y.nonces) (e₂ ∙ e₃ ∙ e₄ ∙ e₅ ∙ e₆) in
    (
      b₇.value,
      record {
        opened = o.decrypted;
        timely = o.timely;
        fresh = is_fresh-same now b₇.value.nonce w b₆.middle nonces ∙ o.fresh;
      },
    )
