-- ===== src/Access/Login.antt =====
-- internal/domain/auth/service.go: LoginByPIN, VerifyPIN and what they call. Decryption, Argon2 and the
-- making of tokens are parameters; audit records, details of errors and timing are left out.
use bca_mobile_api.Common.{
  ℕ, suc, ◌+◌, ◌-◌, ◌*◌, String, Bool, false, not, Option, none, some, ◌∷◌, ◌==◌, leb, ltb, str_eq,
  if◌then◌else◌, ok, err, Cause, no_rows, failed, wrapped, invalid_pin, device_not_recognized,
  account_locked, internal_error, rate_limit_exceeded, pin_key_unknown,
}
use bca_mobile_api.Access.RateLimit.{
  Key, login_device, login_ip, pin_verify, check_rate, reset_rate, second,
}
use bca_mobile_api.Access.Store.{Session, mark_active}
use bca_mobile_api.Access.Sessions.{TokenPair}
use bca_mobile_api.Access.Step.{User, AuthWorld, AuthStep}
use bca_mobile_api.Common.State.{◌>>=◌, ◌>>◌, give, fail, refuse, read, modify, need}
use bca_mobile_api.Access.Lockout.{
  is_locked, lockout_count, count_lockout, set_lock, duration_of, is_fresh, mark_nonce, find_device,
  find_by_device_id, find_user, change_user, increment, reset_attempts, lock_until,
}

pub data Call : Type 0 where
  check_device check_ip check_verify find_user_call is_locked_call check_nonce : Call
  increment_call count_call lock_call set_locked reset_call find_device_call create_session
        mark_session reset_limit :
      Call

pub record Payload : Type 0 where
  pub pin : String
  pub nonce : ℕ
  pub ts : ℕ

-- `none` of `verify_password` is its error.
pub record LoginEnv : Type 0 where
  pub accepts_key_id : String → Bool
  pub decrypt : String → Option Payload
  pub verify_password : String → String → Option Bool
  pub generate : ℕ → ℕ → ℕ → ℕ → Option TokenPair
  pub hash : String → ℕ
  pub refresh_ttl : ℕ
  pub failure : Call → Option Cause

pub record LoginRequest : Type 0 where
  pub device_id : ℕ
  pub pin_encrypted : String
  pub encryption_key_id : String

abbrev pub max_pin_timestamp_skew : ℕ
max_pin_timestamp_skew = 60 * second

-- ValidatePINTimestamp: the distance of the two times.
abbrev pub has_skew : ℕ → Payload → Bool
has_skew now p = let t = p.ts * second in ltb max_pin_timestamp_skew (now - t + (t - now))

abbrev pub call : LoginEnv → Call → String → AuthStep (Unit {0})
call env c prefix =
    λ w. elim (env.failure c) [ none ↦ (ok tt, w) | some e ↦ (err (wrapped prefix e), w) ]

abbrev pub best_effort : LoginEnv → Call → (AuthWorld → AuthWorld) → AuthStep (Unit {0})
best_effort env c f = λ w. elim (env.failure c) [ none ↦ (ok tt, f w) | some e ↦ (ok tt, w) ]

-- One limit; Redis failing is a refusal.
unfoldable pub check_attempts : LoginEnv → Call → ℕ → Key → AuthStep (Unit {0})
unfolding check_rate
check_attempts env c now k = λ w. elim (env.failure c) [
  | some e ↦ (err internal_error, w)
  | none ↦
      let p = check_rate now k w.buckets in
      let v : AuthWorld = record w { buckets = p.1 } in
      if p.0.allowed then (ok tt, v) else (err rate_limit_exceeded, v)
]

abbrev pub is_after : Option ℕ → ℕ → Bool
is_after none now = false
is_after (some t) now = ltb now t

-- DecryptPIN, ValidatePINTimestamp and CheckAndMark.
unfoldable pub open_payload : LoginEnv → ℕ → String → AuthStep Payload
unfolding is_fresh mark_nonce
open_payload env now text = do
  p ← need (env.decrypt text) invalid_pin
  refuse (has_skew now p) invalid_pin
  call env check_nonce "nonce check: "
  fresh ← read (λ w. is_fresh now p.nonce w)
  modify (λ w. mark_nonce now p.nonce w)
  refuse (not fresh) invalid_pin
  give p

-- LockAccount: until when the account is locked, or nothing where it failed.
unfoldable pub lock_user_account : LoginEnv → ℕ → ℕ → AuthStep (Option ℕ)
unfolding lockout_count count_lockout set_lock
lock_user_account env now user = λ w. elim (env.failure count_call) [
  | some e ↦ (ok none, w)
  | none ↦
      let count = suc (lockout_count now user w.lock_counts) in
      let counted = count_lockout now user count w in
      elim (env.failure lock_call) [
        | some e ↦ (ok none, counted)
        | none ↦ (ok (some (now + duration_of count)), set_lock now user count counted)
      ]
]

abbrev pub lock_row : LoginEnv → ℕ → Option ℕ → AuthStep (Unit {0})
lock_row env user none = give tt
lock_row env user (some until) =
    best_effort env set_locked
      (λ w. record w { users = change_user (lock_until until) user w.users })

-- handleFailedPIN, which always returns an error.
unfoldable pub handle_failed_pin : {R : Type 0} → LoginEnv → ℕ → User → AuthStep R
unfolding lock_user_account change_user find_user
handle_failed_pin env now u = do
  call env increment_call "increment failed attempts: "
  modify (λ w. record w { users = change_user increment u.id w.users })
  row ← read (λ w. find_user u.id w.users)
  counted ← need row (wrapped "increment failed attempts: " no_rows)
  refuse (not (leb u.max_pin_attempts counted.failed_pin_attempts)) invalid_pin
  until ← lock_user_account env now u.id
  lock_row env u.id until
  fail account_locked

unfoldable pub handle_successful_login : LoginEnv → ℕ → ℕ → User → LoginRequest → AuthStep TokenPair
unfolding change_user find_device mark_active reset_rate
handle_successful_login env now session_id u q = do
  call env reset_call "reset failed attempts: "
  modify (λ w. record w { users = change_user reset_attempts u.id w.users })
  call env find_device_call "find device: "
  found ← read (λ w. find_device q.device_id w.devices)
  device ← need found (wrapped "find device: " failed)
  pair ← need (env.generate now u.id session_id q.device_id) (wrapped "generate tokens: " failed)
  call env create_session "create session: "
  let session : Session = record {
    id = session_id;
    user_id = u.id;
    device_id = device.id;
    refresh_token_hash = env.hash pair.refresh_token;
    expires_at = now + env.refresh_ttl;
    revoked_at = none;
  }
  modify (λ w. record w { store = record w.store { sessions = session ∷ w.store.sessions } })
  best_effort env mark_session
      (λ w. record w { store = mark_active now u.id session_id env.refresh_ttl w.store })
  best_effort env reset_limit
      (λ w. record w { buckets = reset_rate (login_device q.device_id) w.buckets })
  give pair

abbrev pub login_credential : User → String
login_credential u = if str_eq u.access_code_hash "" then u.pin_hash else u.access_code_hash

-- LoginByPIN from its step 3 on, for the user that was found.
unfoldable pub login_user : LoginEnv → ℕ → ℕ → LoginRequest → User → AuthStep TokenPair
unfolding is_locked open_payload handle_failed_pin handle_successful_login
login_user env now session_id q u = do
  call env is_locked_call "check lockout: "
  locked ← read (λ w. is_locked now u.id w)
  refuse locked account_locked
  refuse (is_after u.locked_until now) account_locked
  p ← open_payload env now q.pin_encrypted
  match ← need (env.verify_password p.pin (login_credential u)) (wrapped "verify pin: " failed)
  if match then handle_successful_login env now session_id u q else handle_failed_pin env now u

unfoldable pub login_by_pin : LoginEnv → ℕ → ℕ → ℕ → LoginRequest → AuthStep TokenPair
unfolding check_attempts find_by_device_id login_user
login_by_pin env now session_id ip q = do
  refuse (not (env.accepts_key_id q.encryption_key_id)) pin_key_unknown
  check_attempts env check_device now (login_device q.device_id)
  check_attempts env check_ip now (login_ip ip)
  call env find_user_call "find user by device: "
  found ← read (λ w. find_by_device_id q.device_id w)
  u ← need found device_not_recognized
  login_user env now session_id q u

unfoldable pub verify_pin : LoginEnv → ℕ → ℕ → ℕ → String → AuthStep (Unit {0})
unfolding check_attempts is_locked find_by_device_id open_payload handle_failed_pin
verify_pin env now user device text = do
  check_attempts env check_verify now (pin_verify user)
  call env find_user_call "find user: "
  found ← read (λ w. find_by_device_id device w)
  u ← need found invalid_pin
  refuse (not (u.id == user)) invalid_pin
  call env is_locked_call "check lockout: "
  locked ← read (λ w. is_locked now u.id w)
  refuse locked account_locked
  p ← open_payload env now text
  match ← need (env.verify_password p.pin u.pin_hash) (wrapped "verify pin: " failed)
  if match then give tt else handle_failed_pin env now u
