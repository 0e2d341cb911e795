-- ===== src/Access/Sessions.antt =====
-- internal/domain/auth/session_service.go: the rotation of refresh tokens, logout, and the check that
-- the middleware makes on every request. The token library, the hash and the clock are parameters; both
-- caches are configured. The display cache of StoreSession, audit and notifications are left out.
use bca_mobile_api.Common.{
  ℕ, ◌+◌, ◌-◌, String, Bool, true, false, not, ◌&&◌, Option, none, some, ◌==◌, ltb, if◌then◌else◌,
  Result, ok, err, Cause, failed, token_invalid, token_expired, wrapped,
}
use bca_mobile_api.Access.Store.{
  Session, World, find_by_hash, find_active, update_refresh_token, any_open, revoke_by_id,
  revoke_by_user_id, exists_marker, mark_active, revoke_active, revoke_all_active, mark_inactive,
  mark_revoked,
}

-- The statements of PostgreSQL and the calls of Redis that can fail.
pub data Call : Type 0 where
  find_session find_active_session update_session revoke_session : Call
  is_revoked set_revoked is_active is_known_inactive set_active set_inactive clear_active : Call

pub record Claims : Type 0 where
  pub subject : ℕ
  pub session_id : ℕ
  pub device_id : String

pub record TokenPair : Type 0 where
  pub access_token : String
  pub refresh_token : String

-- `verify_refresh` is VerifyToken with the type "refresh" and the two uuid.Parse.
pub record Env : Type 0 where
  pub verify_refresh : ℕ → String → Option Claims
  pub generate : ℕ → Claims → Option TokenPair
  pub hash : String → ℕ
  pub refresh_ttl : ℕ
  pub failure : Call → Option Cause

abbrev pub works : Env → Call → World → World → World
works env c next w = elim (env.failure c) [ none ↦ next | some e ↦ w ]

unfoldable pub handle_suspicious_login : Env → ℕ → ℕ → World → World
unfolding revoke_by_user_id revoke_all_active
handle_suspicious_login env now user w =
    let closed : World = record w { sessions = revoke_by_user_id now user w.sessions } in
    let w₁ = works env revoke_session closed w in
    works env clear_active (revoke_all_active now user w₁) w₁

-- After the new token pair was made.
unfoldable pub rotate : Env → ℕ → Claims → Session → TokenPair → World → Result TokenPair × World
unfolding update_refresh_token any_open mark_revoked mark_active
rotate env now c s pair w = elim (env.failure update_session) [
  | some e ↦ (err (wrapped "update refresh token: " e), w)
  | none ↦
      if any_open c.session_id w.sessions
      then (let until = now + env.refresh_ttl in
          let w₁ : World = record w {
            sessions =
                update_refresh_token c.session_id (env.hash pair.refresh_token) until w.sessions;
          } in
          let w₂ =
            works env set_revoked (mark_revoked now s.refresh_token_hash (s.expires_at - now) w₁)
              w₁ in
          let w₃ =
            works env set_active (mark_active now c.subject c.session_id env.refresh_ttl w₂) w₂ in
          (ok pair, w₃))
      else (err (wrapped "update refresh token: " failed), w)
]

unfoldable pub refresh_session :
    Env → ℕ → Claims → Option Session → World → Result TokenPair × World
unfolding rotate
refresh_session env now c none w = (err token_invalid, w)
refresh_session env now c (some s) w =
    if ltb s.expires_at now
    then (err token_expired, w)
    else if not (s.user_id == c.subject && s.id == c.session_id)
    then (err token_invalid, w)
    else elim (env.generate now c) [
      | none ↦ (err (wrapped "generate tokens: " failed), w)
      | some pair ↦ rotate env now c s pair w
    ]

unfoldable pub refresh_claims : Env → ℕ → Claims → ℕ → World → Result TokenPair × World
unfolding handle_suspicious_login exists_marker refresh_session find_by_hash
refresh_claims env now c old_hash w = elim (env.failure is_revoked) [
  | some e ↦ (err token_invalid, w)
  | none ↦
      if exists_marker now old_hash w.revoked
      then (err token_invalid, handle_suspicious_login env now c.subject w)
      else elim (env.failure find_session) [
        | some e ↦ (err (wrapped "find session: " e), w)
        | none ↦ refresh_session env now c (find_by_hash old_hash w.sessions) w
      ]
]

unfoldable pub refresh_token : Env → ℕ → String → World → Result TokenPair × World
unfolding refresh_claims
refresh_token env now raw w = elim (env.verify_refresh now raw) [
  | none ↦ (err token_invalid, w)
  | some c ↦ refresh_claims env now c (env.hash raw) w
]

unfoldable pub logout : Env → ℕ → ℕ → ℕ → World → Result (Unit {0}) × World
unfolding revoke_by_id revoke_active
logout env now id user w = elim (env.failure revoke_session) [
  | some e ↦ (err (wrapped "revoke session: " e), w)
  | none ↦
      let w₁ : World = record w { sessions = revoke_by_id now id w.sessions } in
      (ok tt, works env clear_active (revoke_active user id w₁) w₁)
]

unfoldable pub logout_all : Env → ℕ → ℕ → World → Result (Unit {0}) × World
unfolding revoke_by_user_id revoke_all_active
logout_all env now user w = elim (env.failure revoke_session) [
  | some e ↦ (err (wrapped "revoke all sessions: " e), w)
  | none ↦
      let w₁ : World = record w { sessions = revoke_by_user_id now user w.sessions } in
      (ok tt, works env clear_active (revoke_all_active now user w₁) w₁)
]

-- The answer of PostgreSQL, remembered in Redis.
unfoldable pub ask_database : Env → ℕ → ℕ → Option Session → World → Bool × World
unfolding mark_inactive mark_active
ask_database env now id none w = (false, works env set_inactive (mark_inactive now id w) w)
ask_database env now id (some s) w = (
  true,
  works env set_active
      (if ltb now s.expires_at then mark_active now s.user_id s.id (s.expires_at - now) w else w) w,
)

abbrev pub says : Env → Call → Bool → Bool
says env c b = elim (env.failure c) [ none ↦ b | some e ↦ false ]

unfoldable pub is_session_active : Env → ℕ → ℕ → World → Result Bool × World
unfolding exists_marker find_active ask_database
is_session_active env now id w =
    if says env is_active (exists_marker now id w.active)
    then (ok true, w)
    else if says env is_known_inactive (exists_marker now id w.inactive)
    then (ok false, w)
    else elim (env.failure find_active_session) [
      | some e ↦ (err (wrapped "find active session: " e), w)
      | none ↦
          let answer = ask_database env now id (find_active now id w.sessions) w in
          (ok answer.0, answer.1)
    ]
