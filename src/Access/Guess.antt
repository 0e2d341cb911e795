-- ===== src/Access/Guess.antt =====
-- internal/domain/auth/service.go: what the steps of a login that succeeds have passed.
use bca_mobile_api.Common.{
  ℕ, ◌+◌, ◌<◌, ◌≡◌, ◌≢◌, refl, sym, ap, ◌∙◌, String, Bool, true, false, not, Option, none, some,
  List, ◌==◌, leb, ltb, if◌then◌else◌, arith, Bool-cases, Option-cases, inl, inr, Result, ok, err,
  Error, no_rows, failed, wrapped, invalid_pin, account_locked, internal_error, rate_limit_exceeded,
}
use bca_mobile_api.Access.RateLimit.{Key, login_device, check_rate, reset_rate}
use bca_mobile_api.Access.Store.{Marker, exists_marker, set_marker, mark_active}
use bca_mobile_api.Access.Sessions.{TokenPair}
use bca_mobile_api.Access.Step.{User, AuthWorld, AuthStep}
use bca_mobile_api.Common.State.{
  bind, ◌>>=◌, give, fail, refuse, need, >>=-IsBound, same_step, refuse_passed, need_passed,
}
use bca_mobile_api.Access.Lockout.{
  is_locked, is_fresh, mark_nonce, find_device, find_user, change_user, increment, nonce_ttl,
}
use bca_mobile_api.Access.Login.{
  Call, is_locked_call, check_nonce, increment_call, reset_call, find_device_call, create_session,
  mark_session, reset_limit, Payload, LoginEnv, LoginRequest, has_skew, call, best_effort,
  check_attempts, is_after, open_payload, handle_failed_pin, handle_successful_login,
  lock_user_account, lock_row, login_credential, login_user,
}

pub call_passed :
    (env : LoginEnv) (c : Call) (prefix : String) {u : Unit {0}} {w v : AuthWorld}
    → call env c prefix w ≡ (ok u, v)
    → w ≡ v
call_passed env c prefix {u} {w} h = elim (Option-cases (env.failure c)) [
  | inl a ↦ (same_step (rw (a, call) at h)).1
  | inr (x, a) ↦
      let bad : err (wrapped prefix x) ≡ ok u =
        ap (λ (r : Result (Unit {0}) × AuthWorld). r.0) (rw (a, call) at h) in
      cc
]

pub check_attempts_passed :
    (env : LoginEnv) (c : Call) (now : ℕ) (k : Key) (w : AuthWorld) {u : Unit {0}} {v : AuthWorld}
    → check_attempts env c now k w ≡ (ok u, v)
    → ((check_rate now k w.buckets).0.allowed ≡ true)
      × (record w { buckets = (check_rate now k w.buckets).1 } ≡ v)
unfolding check_attempts
check_attempts_passed env c now k w {u} h = elim (Option-cases (env.failure c)) [
  | inr (x, a) ↦
      let bad : err internal_error ≡ ok u =
        ap (λ (r : Result (Unit {0}) × AuthWorld). r.0) (rw (a, check_attempts) at h) in
      cc
  | inl a ↦
      let g = rw (a, check_attempts) at h in
      elim (Bool-cases (check_rate now k w.buckets).0.allowed) [
        | inl b ↦ (b, (same_step (rw b at g)).1)
        | inr b ↦
            let bad : err rate_limit_exceeded ≡ ok u =
              ap (λ (r : Result (Unit {0}) × AuthWorld). r.0) (rw b at g) in
            cc
      ]
]

-- A payload that was opened.
pub record IsOpened (env : LoginEnv) (now : ℕ) (text : String) (p : Payload) (w v : AuthWorld)
    : Type 0 where
  pub decrypted : env.decrypt text ≡ some p
  pub timely : has_skew now p ≡ false
  pub fresh : is_fresh now p.nonce w ≡ true
  pub spent : mark_nonce now p.nonce w ≡ v

is_true : (b : Bool) → not b ≡ false → b ≡ true
is_true true h = refl
is_true false h = cc

pub open_payload_passed :
    (env : LoginEnv) (now : ℕ) (text : String) {p : Payload} {w v : AuthWorld}
    → open_payload env now text w ≡ (ok p, v)
    → IsOpened env now text p w v
unfolding open_payload
open_payload_passed env now text {p} {w} {v} h =
    let b₁ = >>=-IsBound (need (env.decrypt text) invalid_pin) _ w h in
    let q = b₁.value in
    let (a₁, e₁) = need_passed (env.decrypt text) invalid_pin b₁.outcome in
    let b₂ = >>=-IsBound (refuse (has_skew now q) invalid_pin) _ b₁.middle b₁.rest in
    let (a₂, e₂) = refuse_passed (has_skew now q) invalid_pin b₂.outcome in
    let b₃ = >>=-IsBound (call env check_nonce "nonce check: ") _ b₂.middle b₂.rest in
    let e₃ = call_passed env check_nonce "nonce check: " b₃.outcome in
    let at_start : w ≡ b₃.middle = e₁ ∙ e₂ ∙ e₃ in
    let u = b₃.middle in
    let b₄ =
      >>=-IsBound (refuse (not (is_fresh now q.nonce u)) invalid_pin) _ (mark_nonce now q.nonce u)
        b₃.rest in
    let (a₄, e₄) = refuse_passed (not (is_fresh now q.nonce u)) invalid_pin b₄.outcome in
    let (same, e₅) = same_step b₄.rest in
    rw (← same, ← e₅, ← e₄)
      (record {
        decrypted = a₁;
        timely = a₂;
        fresh = rw at_start (is_true _ a₄);
        spent = ap (λ x. mark_nonce now q.nonce x) at_start;
      })

-- A step that leaves the nonces alone.
abbrev KeepsNonces : {R : Type 0} → AuthStep R → Type 0
KeepsNonces m = (w : AuthWorld) → (m w).1.nonces ≡ w.nonces

bind-KeepsNonces :
    {R S : Type 0} (m : AuthStep R) (next : R → AuthStep S)
    → KeepsNonces m
    → ((r : R) → KeepsNonces (next r))
    → KeepsNonces (m >>= next)
bind-KeepsNonces {R} {S} m next k l w = split (m w) (k w)
  where
    split : (p : Result R × AuthWorld) → p.1.nonces ≡ w.nonces → (bind p next).1.nonces ≡ w.nonces
    split (err e, u) q = q
    split (ok r, u) q = l r u ∙ q

call-KeepsNonces : (env : LoginEnv) (c : Call) (prefix : String) → KeepsNonces (call env c prefix)
call-KeepsNonces env c prefix w = elim (Option-cases (env.failure c)) [
  | inl a ↦ rw (a, call) refl
  | inr (x, a) ↦ rw (a, call) refl
]

need-KeepsNonces : {R : Type 0} (o : Option R) (e : Error) → KeepsNonces (need o e)
need-KeepsNonces none e w = refl
need-KeepsNonces (some r) e w = refl

works-KeepsNonces :
    (env : LoginEnv) (c : Call) (f : AuthWorld → AuthWorld)
    → ((w : AuthWorld) → (f w).nonces ≡ w.nonces)
    → KeepsNonces (best_effort env c f)
works-KeepsNonces env c f k w = elim (Option-cases (env.failure c)) [
  | inl a ↦ rw (a, best_effort) (k w)
  | inr (x, a) ↦ rw (a, best_effort) refl
]

handle_successful_login-KeepsNonces :
    (env : LoginEnv) (now session_id : ℕ) (u : User) (q : LoginRequest)
    → KeepsNonces (handle_successful_login env now session_id u q)
unfolding handle_successful_login
handle_successful_login-KeepsNonces env now session_id u q =
    bind-KeepsNonces (call env reset_call "reset failed attempts: ") _ (call-KeepsNonces env _ _)
      λ _ w.
        bind-KeepsNonces (call env find_device_call "find device: ") _ (call-KeepsNonces env _ _)
          (λ _ w.
            bind-KeepsNonces
              (need (find_device q.device_id w.devices) (wrapped "find device: " failed)) _
              (need-KeepsNonces _ _)
              (λ d.
                bind-KeepsNonces
                  (need (env.generate now u.id session_id q.device_id)
                    (wrapped "generate tokens: " failed))
                  _ (need-KeepsNonces _ _)
                  (λ pair.
                    bind-KeepsNonces (call env create_session "create session: ") _
                      (call-KeepsNonces env _ _)
                      (λ _ w.
                        bind-KeepsNonces
                          (best_effort env mark_session (λ v. record v {
                            store = mark_active now u.id session_id env.refresh_ttl v.store;
                          }))
                          _ (works-KeepsNonces env _ _ (λ v. refl))
                          (λ _.
                            bind-KeepsNonces
                              (best_effort env reset_limit (λ v. record v {
                                buckets = reset_rate (login_device q.device_id) v.buckets;
                              }))
                              (λ _. give pair) (works-KeepsNonces env _ _ (λ v. refl))
                              (λ _ v. refl))
                          _)))
              w)
          _

-- A step that never succeeds.
abbrev IsFailing : {R : Type 0} → AuthStep R → Type 0
IsFailing {R} m = (w : AuthWorld) (r : R) (v : AuthWorld) → m w ≢ (ok r, v)

bind-IsFailing :
    {R S : Type 0} (m : AuthStep R) (next : R → AuthStep S)
    → ((r : R) → IsFailing (next r))
    → IsFailing (m >>= next)
bind-IsFailing m next k w s v h = let b = >>=-IsBound m next w h in k b.value b.middle s v b.rest

fail-IsFailing : {R : Type 0} (e : Error) → IsFailing {R = R} (fail e)
fail-IsFailing {R} e w r v h =
    let bad : err e ≡ ok r = ap (λ (x : Result R × AuthWorld). x.0) h in cc

handle_failed_pin-IsFailing :
    {R : Type 0} (env : LoginEnv) (now : ℕ) (u : User)
    → IsFailing {R = R} (handle_failed_pin env now u)
unfolding handle_failed_pin
handle_failed_pin-IsFailing env now u =
    bind-IsFailing (call env increment_call "increment failed attempts: ") _ λ _ w.
      bind-IsFailing
        (need (find_user u.id (change_user increment u.id w.users))
          (wrapped "increment failed attempts: " no_rows))
        _
        (λ row.
          bind-IsFailing (refuse (not (leb u.max_pin_attempts row.failed_pin_attempts)) invalid_pin)
            _
            (λ _ x.
              bind-IsFailing (lock_user_account env now u.id) _
                (λ until y.
                  bind-IsFailing (lock_row env u.id until) _ (λ _. fail-IsFailing account_locked) y)
                x))
        (record w { users = change_user increment u.id w.users })

-- The nonce of a payload that was opened is marked for two minutes.
pub set_marker-exists :
    (now later name ttl : ℕ) (ms : List Marker)
    → later < now + ttl
    → exists_marker later name (set_marker now name ttl ms) ≡ true
unfolding exists_marker set_marker
set_marker-exists now later name ttl ms l =
    let live : ltb later (now + ttl) ≡ true = ground arith in
    let same : (name == name) ≡ true = ground arith in rw same (rw live refl)

pub mark_nonce-exists :
    (now later nonce : ℕ) (w : AuthWorld)
    → is_fresh now nonce w ≡ true
    → later < now + nonce_ttl
    → exists_marker later nonce (mark_nonce now nonce w).nonces ≡ true
unfolding mark_nonce
mark_nonce-exists now later nonce w f l =
    rw (f, mark_nonce) (set_marker-exists now later nonce nonce_ttl w.nonces l)

matched_passed :
    (env : LoginEnv) (now session_id : ℕ) (q : LoginRequest) (u : User) (match : Bool)
    (w : AuthWorld) {pair : TokenPair} {v : AuthWorld}
    → (if match
          then handle_successful_login env now session_id u q
          else handle_failed_pin env now u)
        w
      ≡ (ok pair, v)
    → (match ≡ true) × (v.nonces ≡ w.nonces)
matched_passed env now session_id q u true w h = (
  refl,
  ap (λ (x : Result TokenPair × AuthWorld). x.1.nonces) (sym h)
      ∙ handle_successful_login-KeepsNonces env now session_id u q w,
)
matched_passed env now session_id q u false w {pair} {v} h =
    absurd (handle_failed_pin-IsFailing env now u w pair v h)

-- What the second part of a login has passed.
pub record IsAdmitted (env : LoginEnv) (now : ℕ) (q : LoginRequest) (u : User) (p : Payload)
    (w v : AuthWorld) : Type 0 where
  pub unlocked : is_locked now u.id w ≡ false
  pub past_lock : is_after u.locked_until now ≡ false
  pub opened : env.decrypt q.pin_encrypted ≡ some p
  pub timely : has_skew now p ≡ false
  pub fresh : is_fresh now p.nonce w ≡ true
  pub matched : env.verify_password p.pin (login_credential u) ≡ some true
  pub marked : v.nonces ≡ (mark_nonce now p.nonce w).nonces

pub login_user_ok :
    (env : LoginEnv) (now session_id : ℕ) (q : LoginRequest) (u : User) (w : AuthWorld)
    {pair : TokenPair} {v : AuthWorld}
    → login_user env now session_id q u w ≡ (ok pair, v)
    → (p : Payload) × IsAdmitted env now q u p w v
unfolding login_user
login_user_ok env now session_id q u w {pair} {v} h =
    let b₁ = >>=-IsBound (call env is_locked_call "check lockout: ") _ w h in
    let e₁ = call_passed env is_locked_call "check lockout: " b₁.outcome in
    let b₂ =
      >>=-IsBound (refuse (is_locked now u.id b₁.middle) account_locked) _ b₁.middle b₁.rest in
    let (a₂, e₂) = refuse_passed _ account_locked b₂.outcome in
    let b₃ =
      >>=-IsBound (refuse (is_after u.locked_until now) account_locked) _ b₂.middle b₂.rest in
    let (a₃, e₃) = refuse_passed _ account_locked b₃.outcome in
    let b₄ = >>=-IsBound (open_payload env now q.pin_encrypted) _ b₃.middle b₃.rest in
    let o = open_payload_passed env now q.pin_encrypted b₄.outcome in
    let p = b₄.value in
    let b₅ =
      >>=-IsBound
        (need (env.verify_password p.pin (login_credential u)) (wrapped "verify pin: " failed)) _
        b₄.middle b₄.rest in
    let (a₅, e₅) =
      need_passed (env.verify_password p.pin (login_credential u)) (wrapped "verify pin: " failed)
        b₅.outcome in
    let (m, n) = matched_passed env now session_id q u b₅.value b₅.middle b₅.rest in
    let start : b₃.middle ≡ w = sym (e₁ ∙ e₂ ∙ e₃) in
    (
      p,
      record {
        unlocked = ap (λ x. is_locked now u.id x) e₁ ∙ a₂;
        past_lock = a₃;
        opened = o.decrypted;
        timely = o.timely;
        fresh = ap (λ x. is_fresh now p.nonce x) (sym start) ∙ o.fresh;
        matched = a₅ ∙ ap (λ x. some x) m;
        marked =
            n
            ∙ ap (λ x. x.nonces) (sym e₅ ∙ sym o.spent)
            ∙ ap (λ x. (mark_nonce now p.nonce x).nonces) start;
      },
    )
