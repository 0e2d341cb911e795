-- ===== src/Access/Replay.antt =====
-- internal/domain/auth/service.go: logins that succeed, replayed and locked out.
use bca_mobile_api.Common.{
  ℕ, ◌+◌, ◌-◌, ◌*◌, ◌≤◌, ◌≡◌, ◌≢◌, sym, ap, ◌∙◌, String, true, false, not, some, ltb, arith,
  Bool-cases, inl, inr, ok, device_not_recognized, pin_key_unknown,
}
use bca_mobile_api.Access.RateLimit.{login_device, login_ip, check_rate, second}
use bca_mobile_api.Access.Store.{exists_marker}
use bca_mobile_api.Access.Sessions.{TokenPair}
use bca_mobile_api.Access.Step.{User, AuthWorld}
use bca_mobile_api.Common.State.{refuse, need, >>=-IsBound, refuse_passed, need_passed}
use bca_mobile_api.Access.Lockout.{
  ttl_of, is_locked, is_fresh, find_device, find_by_device_id, user_of, nonce_ttl,
}
use bca_mobile_api.Access.Login.{
  check_device, check_ip, find_user_call, Payload, LoginEnv, LoginRequest, max_pin_timestamp_skew,
  has_skew, call, check_attempts, is_after, login_credential, login_by_pin, verify_pin,
}
use bca_mobile_api.Access.Guess.{
  call_passed, check_attempts_passed, IsAdmitted, login_user_ok, mark_nonce-exists,
}
use bca_mobile_api.Access.Verify.{IsNew, verify_pin-IsNew}

-- What a login that succeeded has passed.
pub record IsAuthorised (env : LoginEnv) (now : ℕ) (q : LoginRequest) (w : AuthWorld) (u : User)
    (p : Payload) : Type 0 where
  pub allowed : (check_rate now (login_device q.device_id) w.buckets).0.allowed ≡ true
  pub recognised : find_by_device_id q.device_id w ≡ some u
  pub unlocked : is_locked now u.id w ≡ false
  pub past_lock : is_after u.locked_until now ≡ false
  pub opened : env.decrypt q.pin_encrypted ≡ some p
  pub timely : has_skew now p ≡ false
  pub fresh : is_fresh now p.nonce w ≡ true
  pub matched : env.verify_password p.pin (login_credential u) ≡ some true

-- Two worlds that differ in their limits only.
record IsSame (x w : AuthWorld) : Type 0 where
  locks : x.locks ≡ w.locks
  nonces : x.nonces ≡ w.nonces

IsAdmitted-IsAuthorised :
    (env : LoginEnv) (now : ℕ) (q : LoginRequest) (u : User) (p : Payload) (x w v : AuthWorld)
    → IsSame x w
    → (check_rate now (login_device q.device_id) w.buckets).0.allowed ≡ true
    → find_by_device_id q.device_id w ≡ some u
    → IsAdmitted env now q u p x v
    → IsAuthorised env now q w u p
unfolding is_locked is_fresh
IsAdmitted-IsAuthorised env now q u p x w v s a f i = record {
  allowed = a;
  recognised = f;
  unlocked = ap (λ ms. ltb 0 (ttl_of now u.id ms)) (sym s.locks) ∙ i.unlocked;
  past_lock = i.past_lock;
  opened = i.opened;
  timely = i.timely;
  fresh = ap (λ ms. not (exists_marker now p.nonce ms)) (sym s.nonces) ∙ i.fresh;
  matched = i.matched;
}

find_by_device_id-same :
    (id : ℕ) (x w : AuthWorld)
    → x.devices ≡ w.devices
    → x.users ≡ w.users
    → find_by_device_id id x ≡ find_by_device_id id w
unfolding find_by_device_id
find_by_device_id-same id x w d u =
    ap (λ ds. user_of (find_device id ds) x.users) d
    ∙ ap (λ us. user_of (find_device id w.devices) us) u

login_by_pin_ok :
    (env : LoginEnv) (now session_id ip : ℕ) (q : LoginRequest) (w : AuthWorld) {pair : TokenPair}
    {v : AuthWorld}
    → login_by_pin env now session_id ip q w ≡ (ok pair, v)
    → (u : User) × (p : Payload) × (x : AuthWorld) × IsAuthorised env now q w u p
      × IsAdmitted env now q u p x v
unfolding login_by_pin
login_by_pin_ok env now session_id ip q w {pair} {v} h =
    let b₁ =
      >>=-IsBound (refuse (not (env.accepts_key_id q.encryption_key_id)) pin_key_unknown) _ w h in
    let (a₁, e₁) = refuse_passed _ pin_key_unknown b₁.outcome in
    let b₂ =
      >>=-IsBound (check_attempts env check_device now (login_device q.device_id)) _ b₁.middle
        b₁.rest in
    let (a₂, e₂) =
      check_attempts_passed env check_device now (login_device q.device_id) b₁.middle b₂.outcome in
    let b₃ = >>=-IsBound (check_attempts env check_ip now (login_ip ip)) _ b₂.middle b₂.rest in
    let (a₃, e₃) = check_attempts_passed env check_ip now (login_ip ip) b₂.middle b₃.outcome in
    let b₄ = >>=-IsBound (call env find_user_call "find user by device: ") _ b₃.middle b₃.rest in
    let e₄ = call_passed env find_user_call "find user by device: " b₄.outcome in
    let b₅ =
      >>=-IsBound (need (find_by_device_id q.device_id b₄.middle) device_not_recognized) _ b₄.middle
        b₄.rest in
    let (a₅, e₅) =
      need_passed (find_by_device_id q.device_id b₄.middle) device_not_recognized b₅.outcome in
    let x = b₅.middle in
    let devices : x.devices ≡ w.devices = sym (
      ap (λ y. y.devices) e₁
      ∙ ap (λ y. y.devices) e₂
      ∙ ap (λ y. y.devices) e₃
      ∙ ap (λ y. y.devices) (e₄ ∙ e₅)) in
    let users : x.users ≡ w.users = sym (
      ap (λ y. y.users) e₁
      ∙ ap (λ y. y.users) e₂
      ∙ ap (λ y. y.users) e₃
      ∙ ap (λ y. y.users) (e₄ ∙ e₅)) in
    let locks : x.locks ≡ w.locks = sym (
      ap (λ y. y.locks) e₁
      ∙ ap (λ y. y.locks) e₂
      ∙ ap (λ y. y.locks) e₃
      ∙ ap (λ y. y.locks) (e₄ ∙ e₅)) in
    let nonces : x.nonces ≡ w.nonces = sym (
      ap (λ y. y.nonces) e₁
      ∙ ap (λ y. y.nonces) e₂
      ∙ ap (λ y. y.nonces) e₃
      ∙ ap (λ y. y.nonces) (e₄ ∙ e₅)) in
    let found : find_by_device_id q.device_id w ≡ some b₅.value =
      sym (find_by_device_id-same q.device_id x w devices users)
      ∙ ap (λ y. find_by_device_id q.device_id y) (sym e₅)
      ∙ a₅ in
    let (p, admitted) = login_user_ok env now session_id q b₅.value x b₅.rest in
    (
      b₅.value,
      p,
      x,
      IsAdmitted-IsAuthorised env now q b₅.value p x w v (record { locks = locks; nonces = nonces })
          (ap (λ y. (check_rate now (login_device q.device_id) y.buckets).0.allowed) e₁ ∙ a₂) found
          admitted,
      admitted,
    )

-- A login succeeds only for a device that is within its limit and belongs to a user who is locked neither
-- in Redis nor in PostgreSQL, with a payload of the last minute, whose nonce was never seen, and with
-- that user's own credential.
pub login_by_pin-IsAuthorised :
    (env : LoginEnv) (now session_id ip : ℕ) (q : LoginRequest) (w : AuthWorld) {pair : TokenPair}
    {v : AuthWorld}
    → login_by_pin env now session_id ip q w ≡ (ok pair, v)
    → (u : User) × (p : Payload) × IsAuthorised env now q w u p
login_by_pin-IsAuthorised env now session_id ip q w h =
    let (u, p, _, a, _) = login_by_pin_ok env now session_id ip q w h in (u, p, a)

remembered :
    (later : ℕ) (p : Payload) (v : AuthWorld)
    → exists_marker later p.nonce v.nonces ≡ true
    → is_fresh later p.nonce v ≢ true
unfolding is_fresh
remembered later p v seen unseen =
    let bad : false ≡ true = ap (λ b. not b) (sym seen) ∙ unseen in cc

near :
    (now : ℕ) (p : Payload)
    → has_skew now p ≡ false
    → now - p.ts * second + (p.ts * second - now) ≤ max_pin_timestamp_skew
near now p h = ground arith

too_old :
    (now later ts : ℕ)
    → now + nonce_ttl ≤ later
    → later ≢ now + nonce_ttl
    → now - ts * second + (ts * second - now) ≤ max_pin_timestamp_skew
    → later - ts * second + (ts * second - later) ≤ max_pin_timestamp_skew
    → ⊥
too_old now later ts l apart a b = apart (omega arith)

-- A payload that a login has marked is never again new, but for the instant at which its nonce expires.
spent :
    (env later_env : LoginEnv) (now later : ℕ) (q : LoginRequest) (text : String) (u : User)
    (p p' : Payload) (y v : AuthWorld)
    → later_env.decrypt text ≡ env.decrypt q.pin_encrypted
    → now ≤ later
    → later ≢ now + nonce_ttl
    → IsAdmitted env now q u p y v
    → ¬ IsNew later_env later text p' v
spent env later_env now later q text u p p' y v same l apart a b =
    let payload : p' ≡ p = some_payload (sym b.opened ∙ same ∙ a.opened) in
    let unseen : is_fresh later p.nonce v ≡ true =
      ap (λ o. is_fresh later o.nonce v) (sym payload) ∙ b.fresh in
    let inside : has_skew later p ≡ false = ap (λ o. has_skew later o) (sym payload) ∙ b.timely in
    elim (Bool-cases (ltb later (now + nonce_ttl))) [
      | inl e ↦
          remembered later p v
            (ap (λ ms. exists_marker later p.nonce ms) a.marked
              ∙ mark_nonce-exists now later p.nonce y a.fresh (ground arith))
            unseen
      | inr e ↦
          too_old now later p.ts (ground arith) apart (near now p a.timely) (near later p inside)
    ]
  where
    some_payload : {o o' : Payload} → some o ≡ some o' → o ≡ o'
    some_payload h = cc

-- A payload that logged someone in is of no use again: from the state that the login left, neither a
-- login nor a VerifyPIN with the same payload succeeds at any later time but the very instant at which
-- its nonce expires, for whatever user, device and address, and whatever fails then.
pub login_by_pin-replay :
    (env later_env : LoginEnv) (now later session_id next_id ip other_ip user device : ℕ)
    (q r : LoginRequest) (w v x : AuthWorld) (pair other : TokenPair)
    → later_env.decrypt r.pin_encrypted ≡ env.decrypt q.pin_encrypted
    → now ≤ later
    → later ≢ now + nonce_ttl
    → login_by_pin env now session_id ip q w ≡ (ok pair, v)
    → (login_by_pin later_env later next_id other_ip r v ≢ (ok other, x))
      × (verify_pin later_env later user device r.pin_encrypted v ≢ (ok tt, x))
login_by_pin-replay env later_env now later session_id next_id ip other_ip user device q r w v x
      pair other same l apart h =
    let (u, p, y, a, admitted) = login_by_pin_ok env now session_id ip q w h in
    let useless : (p' : Payload) → ¬ IsNew later_env later r.pin_encrypted p' v =
      λ p'. spent env later_env now later q r.pin_encrypted u p p' y v same l apart admitted in
    (
      λ again.
          let (u', p', b) = login_by_pin-IsAuthorised later_env later next_id other_ip r v again in
          useless p' (record { opened = b.opened; timely = b.timely; fresh = b.fresh }),
      λ again.
          let (p', b) = verify_pin-IsNew later_env later user device r.pin_encrypted v again in
          useless p' b,
    )
