-- ===== src/Access/Rotation.antt =====
-- internal/domain/auth/session_service.go, RefreshToken: a refresh token is used once, and not at all
-- after logout.
use bca_mobile_api.Common.{
  ℕ, ◌+◌, ◌-◌, ◌≤◌, ◌≡◌, ◌≢◌, refl, sym, ap, ◌∙◌, String, true, false, not, ◌&&◌, Option, none,
  some, ◌==◌, ltb, contains, arith, Bool-cases, Option-cases, inl, inr, Result, ok, err, Error,
  token_invalid,
}
use bca_mobile_api.Access.Store.{
  Session, World, find_by_hash, update_refresh_token, any_open, exists_marker, members_at,
  mark_active, mark_revoked,
}
use bca_mobile_api.Access.Sessions.{
  find_session, update_session, revoke_session, is_revoked, set_revoked, set_active, clear_active,
  Claims, TokenPair, Env, works, rotate, refresh_session, refresh_claims, refresh_token, logout,
  logout_all, is_session_active,
}
use bca_mobile_api.Access.Revocation.{
  AllUserClosed, IsOwned, IsEnded, AllClosed-any_open, logout-IsEnded, suspicious_closed,
  logout_all-IsEnded, IsEnded-is_session_active, not_let_through,
}

-- What a refresh that gives a pair has done: the session found under the hash of the token.
pub record IsRotation (env : Env) (now : ℕ) (c : Claims) (hash : ℕ) (pair : TokenPair) (w v : World)
    : Type 0 where
  pub session : Session
  unrevoked : exists_marker now hash w.revoked ≡ false
  pub found : find_by_hash hash w.sessions ≡ some session
  owned : session.user_id ≡ c.subject
  alive : now ≤ session.expires_at
  pub named : session.id ≡ c.session_id
  pub rotated : rotate env now c session pair w ≡ (ok pair, v)

result_of :
    {r q : Result TokenPair} {w v : World}
    → ◌≡◌ {A = Result TokenPair × World} (r, w) (q, v)
    → (r ≡ q) × (w ≡ v)
result_of h = (cc, cc)

refused :
    {e : Error} {w v : World} {pair : TokenPair}
    → ◌≡◌ {A = Result TokenPair × World} (err e, w) (ok pair, v)
    → ⊥
refused h = let r = (result_of h).0 in cc

-- The world after a rotation.
unfoldable pub after : Env → ℕ → Claims → Session → TokenPair → World → World
unfolding rotate
after env now c s pair w =
    let until = now + env.refresh_ttl in
    let w₁ : World = record w {
      sessions = update_refresh_token c.session_id (env.hash pair.refresh_token) until w.sessions;
    } in
    let w₂ =
      works env set_revoked (mark_revoked now s.refresh_token_hash (s.expires_at - now) w₁) w₁ in
    works env set_active (mark_active now c.subject c.session_id env.refresh_ttl w₂) w₂

pub rotate_ok :
    (env : Env) (now : ℕ) (c : Claims) (s : Session) (made : TokenPair) (w : World) {v : World}
    {pair : TokenPair}
    → rotate env now c s made w ≡ (ok pair, v)
    → (made ≡ pair) × (any_open c.session_id w.sessions ≡ true) × (after env now c s made w ≡ v)
unfolding rotate after
rotate_ok env now c s made w {v} {pair} h = elim (Option-cases (env.failure update_session)) [
  | inr (x, a) ↦ absurd (refused (rw (a, rotate) at h))
  | inl a ↦ elim (Bool-cases (any_open c.session_id w.sessions)) [
    | inl b ↦ let r = result_of (rw b at (rw (a, rotate) at h)) in (let e = r.0 in cc, b, r.1)
    | inr b ↦ absurd (refused (rw b at (rw (a, rotate) at h)))
  ]
]

refresh_session_ok :
    (env : Env) (now : ℕ) (c : Claims) (o : Option Session) (w : World) {v : World}
    {pair : TokenPair}
    → refresh_session env now c o w ≡ (ok pair, v)
    → (s : Session) × (o ≡ some s)
      × (now ≤ s.expires_at)
      × (s.id ≡ c.session_id)
      × (s.user_id ≡ c.subject)
      × (rotate env now c s pair w ≡ (ok pair, v))
unfolding refresh_session
refresh_session_ok env now c none w h = absurd (refused h)
refresh_session_ok env now c (some s) w {v} {pair} h = elim (Bool-cases (ltb s.expires_at now)) [
  | inl a ↦ absurd (refused (rw a at h))
  | inr a ↦ elim (Bool-cases (not (s.user_id == c.subject && s.id == c.session_id))) [
    | inl b ↦ absurd (refused (rw b at (rw a at h)))
    | inr b ↦ elim (Option-cases (env.generate now c)) [
      | inl g ↦ absurd (refused (rw g at (rw b at (rw a at h))))
      | inr (made, g) ↦
          let h' : rotate env now c s made w ≡ (ok pair, v) = rw g at (rw b at (rw a at h)) in
          let same = (rotate_ok env now c s made w h').0 in
          (s, refl, ground arith, ground arith, ground arith, rw same at h')
    ]
  ]
]

refresh_claims_ok :
    (env : Env) (now : ℕ) (c : Claims) (hash : ℕ) (w : World) {v : World} {pair : TokenPair}
    → refresh_claims env now c hash w ≡ (ok pair, v)
    → IsRotation env now c hash pair w v
unfolding refresh_claims
refresh_claims_ok env now c hash w h = elim (Option-cases (env.failure is_revoked)) [
  | inr (x, a) ↦ absurd (refused (rw (a, refresh_claims) at h))
  | inl a ↦ elim (Bool-cases (exists_marker now hash w.revoked)) [
    | inl b ↦ absurd (refused (rw b at (rw (a, refresh_claims) at h)))
    | inr b ↦ elim (Option-cases (env.failure find_session)) [
      | inr (x, f) ↦ absurd (refused (rw f at (rw b at (rw (a, refresh_claims) at h))))
      | inl f ↦
          let (s, found, alive, named, owner, rotated) =
            refresh_session_ok env now c (find_by_hash hash w.sessions) w
              (rw f at (rw b at (rw (a, refresh_claims) at h))) in
          record {
            session = s;
            unrevoked = b;
            found = found;
            owned = owner;
            alive = alive;
            named = named;
            rotated = rotated;
          }
    ]
  ]
]

pub refresh_token_ok :
    (env : Env) (now : ℕ) (raw : String) (w : World) {v : World} {pair : TokenPair}
    → refresh_token env now raw w ≡ (ok pair, v)
    → (c : Claims) × (env.verify_refresh now raw ≡ some c)
      × IsRotation env now c (env.hash raw) pair w v
unfolding refresh_token
refresh_token_ok env now raw w h = elim (Option-cases (env.verify_refresh now raw)) [
  | inl a ↦ absurd (refused (rw (a, refresh_token) at h))
  | inr (c, a) ↦ (c, a, refresh_claims_ok env now c (env.hash raw) w (rw (a, refresh_token) at h))
]

IsEnded-refresh_token :
    (env : Env) (now id : ℕ) (raw : String) (c : Claims) (w : World) (pair : TokenPair) (v : World)
    → IsEnded id w
    → env.verify_refresh now raw ≡ some c
    → c.session_id ≡ id
    → refresh_token env now raw w ≢ (ok pair, v)
IsEnded-refresh_token env now id raw c w pair v e a same h =
    let (d, b, r) = refresh_token_ok env now raw w h in
    let claims : c ≡ d = some_same (sym a ∙ b) in
    let opened = (rotate_ok env now d r.session pair w r.rotated).1 in
    let shut = AllClosed-any_open id w.sessions e.closed in
    let which : d.session_id ≡ id = ap (λ x. x.session_id) (sym claims) ∙ same in
    let bad : true ≡ false = sym opened ∙ ap (λ i. any_open i w.sessions) which ∙ shut in cc
  where
    some_same : {x y : Claims} → some x ≡ some y → x ≡ y
    some_same h = cc

-- After a logout that reached PostgreSQL and Redis, at any later time and whatever fails then, no request
-- of the session is let through and no refresh token of the session is exchanged.
pub logout-is_session_active :
    (env later_env : Env) (now later id user : ℕ) (raw : String) (c : Claims) (w : World)
    (pair : TokenPair) (v : World)
    → env.failure revoke_session ≡ none
    → env.failure clear_active ≡ none
    → later_env.verify_refresh later raw ≡ some c
    → c.session_id ≡ id
    → ((is_session_active later_env later id (logout env now id user w).1).0 ≢ ok true)
      × (refresh_token later_env later raw (logout env now id user w).1 ≢ (ok pair, v))
logout-is_session_active env later_env now later id user raw c w pair v a b verified same =
    let ended = logout-IsEnded env now id user w a b in
    (
      not_let_through (IsEnded-is_session_active later_env later id _ ended),
      IsEnded-refresh_token later_env later id raw c _ pair v ended verified same,
    )

-- Logout from all devices ends every session of the user that Redis lists for the user, in the same sense.
pub logout_all-is_session_active :
    (env later_env : Env) (now later id user : ℕ) (raw : String) (c : Claims) (w : World)
    (pair : TokenPair) (v : World)
    → env.failure revoke_session ≡ none
    → env.failure clear_active ≡ none
    → IsOwned id user w.sessions
    → contains id (members_at now user w.sets) ≡ true
    → later_env.verify_refresh later raw ≡ some c
    → c.session_id ≡ id
    → ((is_session_active later_env later id (logout_all env now user w).1).0 ≢ ok true)
      × (refresh_token later_env later raw (logout_all env now user w).1 ≢ (ok pair, v))
logout_all-is_session_active env later_env now later id user raw c w pair v a b own listed verified
      same =
    let ended = logout_all-IsEnded env now id user w a b own listed in
    (
      not_let_through (IsEnded-is_session_active later_env later id _ ended),
      IsEnded-refresh_token later_env later id raw c _ pair v ended verified same,
    )

-- A refresh token that is marked as rotated out is refused, and every session of its user is closed.
pub refresh_token-AllUserClosed :
    (env : Env) (now : ℕ) (raw : String) (c : Claims) (w : World)
    → env.verify_refresh now raw ≡ some c
    → env.failure is_revoked ≡ none
    → env.failure revoke_session ≡ none
    → exists_marker now (env.hash raw) w.revoked ≡ true
    → ((refresh_token env now raw w).0 ≡ err token_invalid)
      × AllUserClosed c.subject (refresh_token env now raw w).1.sessions
unfolding refresh_token refresh_claims
refresh_token-AllUserClosed env now raw c w verified a b marked =
    rw (verified, refresh_token)
      (rw (a, refresh_claims) (rw marked (refl, suspicious_closed env now c.subject w b)))
