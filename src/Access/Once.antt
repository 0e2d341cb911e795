-- ===== src/Access/Once.antt =====
-- internal/domain/auth/session_service.go, RefreshToken: a refresh token is used once.
use bca_mobile_api.Common.{
  ℕ, ◌+◌, ◌-◌, ◌≡◌, ◌≢◌, refl, sym, ap, ◌∙◌, String, Bool, true, false, ◌&&◌, none, some, List, [],
  ◌∷◌, ◌==◌, ltb, arith, Bool-cases, inl, inr, ok,
}
use bca_mobile_api.Access.Store.{
  Session, World, is_open, find_by_hash, with_hash, update_refresh_token, mark_active, mark_revoked,
}
use bca_mobile_api.Access.Sessions.{
  set_revoked, set_active, Claims, TokenPair, Env, works, refresh_token,
}
use bca_mobile_api.Access.Revocation.{works_sessions}
use bca_mobile_api.Access.Rotation.{IsRotation, after, rotate_ok, refresh_token_ok}

mark_revoked-sessions :
    (now hash ttl : ℕ) (w : World) → (mark_revoked now hash ttl w).sessions ≡ w.sessions
unfolding mark_revoked
mark_revoked-sessions now hash ttl w = elim (Bool-cases (ltb 0 ttl)) [
  | inl a ↦ rw a refl
  | inr a ↦ rw a refl
]

-- No row has the hash, and no two rows have one (the column is UNIQUE).
abbrev pub IsFresh : ℕ → List Session → Type 0
IsFresh h [] = Unit
IsFresh h (s ∷ ss) = (s.refresh_token_hash ≢ h) × IsFresh h ss

abbrev pub IsUnique : List Session → Type 0
IsUnique [] = Unit
IsUnique (s ∷ ss) = IsFresh s.refresh_token_hash ss × IsUnique ss

differs : {a b : ℕ} → a ≢ b → (a == b) ≡ false
differs {a} {b} h = elim (Bool-cases (a == b)) [ inl e ↦ absurd (h (ground arith)) | inr e ↦ e ]

-- A row after the update is found under the old hash only where it was kept.
with_hash-fresh :
    (id old hash until : ℕ) (s : Session)
    → hash ≢ old
    → (s.refresh_token_hash == old && is_open s) ≡ false
    → ((with_hash id hash until s).refresh_token_hash == old && is_open (with_hash id hash until s))
      ≡ false
with_hash-fresh id old hash until s new h = elim (Bool-cases (s.id == id && is_open s)) [
  | inl e ↦ rw e (rw (differs new) refl)
  | inr e ↦ rw e h
]

find_by_hash-fresh :
    (id old hash until : ℕ) (ss : List Session)
    → hash ≢ old
    → IsFresh old ss
    → find_by_hash old (update_refresh_token id hash until ss) ≡ none
unfolding find_by_hash update_refresh_token
find_by_hash-fresh id old hash until [] new f = refl
find_by_hash-fresh id old hash until (s ∷ ss) new (f, fs) =
    let e = with_hash-fresh id old hash until s new (rw (differs f) refl) in
    rw e (find_by_hash-fresh id old hash until ss new fs)

some_row : {x y : Session} → some x ≡ some y → x ≡ y
some_row h = cc

and_true : (a b : Bool) → (a && b) ≡ true → (a ≡ true) × (b ≡ true)
and_true true b h = (refl, h)
and_true false b h = cc

equal_of : (a b : ℕ) → (a == b) ≡ true → a ≡ b
equal_of a b h = ground arith

find_by_hash-update :
    (old hash until : ℕ) (ss : List Session) (s : Session)
    → IsUnique ss
    → hash ≢ old
    → find_by_hash old ss ≡ some s
    → find_by_hash old (update_refresh_token s.id hash until ss) ≡ none
unfolding find_by_hash update_refresh_token
find_by_hash-update old hash until [] s u new h = refl
find_by_hash-update old hash until (x ∷ xs) s (u, us) new h =
    elim (Bool-cases (x.refresh_token_hash == old && is_open x)) [
      | inl e ↦
          let same : x ≡ s = some_row (rw e at h) in
          let open_row : is_open x ≡ true = (and_true _ _ e).1 in
          let id : (x.id == s.id && is_open x) ≡ true = rw open_row (rw same (ground arith)) in
          let hash_old : x.refresh_token_hash ≡ old = equal_of _ _ (and_true _ _ e).0 in
          let rest : IsFresh old xs = rw hash_old at u in
          let now_new : ((with_hash s.id hash until x).refresh_token_hash == old
                && is_open (with_hash s.id hash until x))
              ≡ false =
            rw id (rw (differs new) refl) in
          rw now_new (find_by_hash-fresh s.id old hash until xs new rest)
      | inr e ↦
          let kept = with_hash-fresh s.id old hash until x new e in
          rw kept (find_by_hash-update old hash until xs s us new (rw e at h))
    ]

after-sessions :
    (env : Env) (now : ℕ) (c : Claims) (s : Session) (pair : TokenPair) (w : World)
    → (after env now c s pair w).sessions
      ≡ update_refresh_token c.session_id
          (env.hash pair.refresh_token)
          (now + env.refresh_ttl)
          w.sessions
unfolding after mark_active mark_revoked
after-sessions env now c s pair w =
    let until = now + env.refresh_ttl in
    let w₁ : World = record w {
      sessions = update_refresh_token c.session_id (env.hash pair.refresh_token) until w.sessions;
    } in
    let w₂ =
      works env set_revoked (mark_revoked now s.refresh_token_hash (s.expires_at - now) w₁) w₁ in
    works_sessions env set_active (mark_active now c.subject c.session_id env.refresh_ttl w₂) w₂
      refl
    ∙ works_sessions env set_revoked _ w₁
        (mark_revoked-sessions now s.refresh_token_hash (s.expires_at - now) w₁)

IsRotation-spent :
    (env : Env) (now : ℕ) (c : Claims) (old : ℕ) (pair : TokenPair) (w v : World)
    → IsUnique w.sessions
    → env.hash pair.refresh_token ≢ old
    → IsRotation env now c old pair w v
    → find_by_hash old v.sessions ≡ none
IsRotation-spent env now c old pair w v unique new r =
    let made = (rotate_ok env now c r.session pair w r.rotated).2 in
    let gone =
      find_by_hash-update old (env.hash pair.refresh_token) (now + env.refresh_ttl) w.sessions
        r.session unique new r.found in
    ap (λ u. find_by_hash old u.sessions) (sym made)
    ∙ ap (λ ss. find_by_hash old ss) (after-sessions env now c r.session pair w)
    ∙ ap
        (λ i.
          find_by_hash old (
            update_refresh_token i (env.hash pair.refresh_token) (now + env.refresh_ttl)
              w.sessions))
        (sym r.named)
    ∙ gone

-- A refresh token gives a new pair once at most: after it did, it gives no other, at any later time,
-- whether or not Redis recorded it as rotated out and whatever fails then.
pub refresh_token-once :
    (env later_env : Env) (now later : ℕ) (raw : String) (w v u : World) (pair other : TokenPair)
    → IsUnique w.sessions
    → env.hash pair.refresh_token ≢ env.hash raw
    → later_env.hash raw ≡ env.hash raw
    → refresh_token env now raw w ≡ (ok pair, v)
    → refresh_token later_env later raw v ≢ (ok other, u)
refresh_token-once env later_env now later raw w v u pair other unique new same h again =
    let (c, verified, r) = refresh_token_ok env now raw w h in
    let (d, verified', q) = refresh_token_ok later_env later raw v again in
    let spent = IsRotation-spent env now c (env.hash raw) pair w v unique new r in
    let bad : none ≡ some q.session =
      sym spent ∙ ap (λ i. find_by_hash i v.sessions) (sym same) ∙ q.found in
    cc
