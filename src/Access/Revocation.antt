-- ===== src/Access/Revocation.antt =====
-- internal/domain/auth/session_service.go: what ends a session, and that a refresh token is used once.
use bca_mobile_api.Common.{
  ℕ, ◌≡◌, ◌≢◌, ◌⊎◌, refl, sym, ap, ◌∙◌, Bool, true, false, none, List, [], ◌∷◌, ◌==◌, contains,
  arith, Bool-cases, Option-cases, inl, inr, Result, ok, err, Error, wrapped,
}
use bca_mobile_api.Access.Store.{
  Session, Marker, World, is_open, find_active, any_open, close, revoke_by_id, revoke_by_user_id,
  exists_marker, delete_markers, members_at, revoke_active, revoke_all_active,
}
use bca_mobile_api.Access.Sessions.{
  Call, find_active_session, revoke_session, is_active, is_known_inactive, clear_active, Env, works,
  handle_suspicious_login, logout, logout_all, ask_database, says, is_session_active,
}

exists_marker-delete_markers :
    (now name : ℕ) (names : List ℕ) (ms : List Marker)
    → contains name names ≡ true
    → exists_marker now name (delete_markers names ms) ≡ false
unfolding exists_marker delete_markers
exists_marker-delete_markers now name names [] h = refl
exists_marker-delete_markers now name names (m ∷ ms) h =
    let later = exists_marker-delete_markers now name names ms h in
    elim (Bool-cases (contains m.name names)) [
      | inl e ↦ rw e later
      | inr e ↦ elim (Bool-cases (m.name == name)) [
        | inl f ↦
            let same : m.name ≡ name = ground arith in
            let bad : true ≡ false = sym h ∙ ap (λ n. contains n names) (sym same) ∙ e in cc
        | inr f ↦ rw e (rw f later)
      ]
    ]

-- No row of the id is open.
abbrev pub AllClosed : ℕ → List Session → Type 0
AllClosed id [] = Unit
AllClosed id (s ∷ ss) = (s.id ≡ id → is_open s ≡ false) × AllClosed id ss

-- No row of the user is open.
abbrev pub AllUserClosed : ℕ → List Session → Type 0
AllUserClosed user [] = Unit
AllUserClosed user (s ∷ ss) = (s.user_id ≡ user → is_open s ≡ false) × AllUserClosed user ss

-- The rows of the id are the user's.
abbrev pub IsOwned : ℕ → ℕ → List Session → Type 0
IsOwned id user [] = Unit
IsOwned id user (s ∷ ss) = (s.id ≡ id → s.user_id ≡ user) × IsOwned id user ss

close-is_open : (now : ℕ) (s : Session) → is_open (close now s) ≡ false
close-is_open now s = elim (Bool-cases (is_open s)) [ inl e ↦ rw e refl | inr e ↦ rw e e ]

revoke_by_id-AllClosed : (now id : ℕ) (ss : List Session) → AllClosed id (revoke_by_id now id ss)
unfolding revoke_by_id
revoke_by_id-AllClosed now id [] = tt
revoke_by_id-AllClosed now id (s ∷ ss) = elim (Bool-cases (s.id == id)) [
  | inl e ↦ rw e ((λ same. close-is_open now s), revoke_by_id-AllClosed now id ss)
  | inr e ↦
      rw e ((λ same. let bad : ⊥ = ground arith in absurd bad), revoke_by_id-AllClosed now id ss)
]

pub revoke_by_user_id-AllUserClosed :
    (now user : ℕ) (ss : List Session) → AllUserClosed user (revoke_by_user_id now user ss)
unfolding revoke_by_user_id
revoke_by_user_id-AllUserClosed now user [] = tt
revoke_by_user_id-AllUserClosed now user (s ∷ ss) = elim (Bool-cases (s.user_id == user)) [
  | inl e ↦ rw e ((λ same. close-is_open now s), revoke_by_user_id-AllUserClosed now user ss)
  | inr e ↦ rw e (
    (λ same. let bad : ⊥ = ground arith in absurd bad),
    revoke_by_user_id-AllUserClosed now user ss,
  )
]

revoke_by_user_id-AllClosed :
    (now user id : ℕ) (ss : List Session)
    → IsOwned id user ss
    → AllClosed id (revoke_by_user_id now user ss)
unfolding revoke_by_user_id
revoke_by_user_id-AllClosed now user id [] own = tt
revoke_by_user_id-AllClosed now user id (s ∷ ss) (own, rest) =
    let later = revoke_by_user_id-AllClosed now user id ss rest in
    elim (Bool-cases (s.user_id == user)) [
      | inl e ↦ rw e ((λ same. close-is_open now s), later)
      | inr e ↦
          rw e ((λ same. let own' = own same in let bad : ⊥ = ground arith in absurd bad), later)
    ]

AllClosed-find_active :
    (now id : ℕ) (ss : List Session) → AllClosed id ss → find_active now id ss ≡ none
unfolding find_active
AllClosed-find_active now id [] all = refl
AllClosed-find_active now id (s ∷ ss) (c, all) =
    let later = AllClosed-find_active now id ss all in
    elim (Bool-cases (s.id == id)) [
      | inl e ↦ let shut = c (ground arith) in rw e (rw shut later)
      | inr e ↦ rw e later
    ]

pub AllClosed-any_open : (id : ℕ) (ss : List Session) → AllClosed id ss → any_open id ss ≡ false
unfolding any_open
AllClosed-any_open id [] all = refl
AllClosed-any_open id (s ∷ ss) (c, all) =
    let later = AllClosed-any_open id ss all in
    elim (Bool-cases (s.id == id)) [
      | inl e ↦ let shut = c (ground arith) in rw e (rw shut later)
      | inr e ↦ rw e later
    ]

-- A session without a marker and without an open row.
pub record IsEnded (id : ℕ) (w : World) : Type 0 where
  pub unmarked : (now : ℕ) → exists_marker now id w.active ≡ false
  pub closed : AllClosed id w.sessions

says-false : (env : Env) (c : Call) {b : Bool} → b ≡ false → says env c b ≡ false
says-false env c h = elim (Option-cases (env.failure c)) [
  | inl a ↦ rw (a, says) h
  | inr (x, a) ↦ rw (a, says) refl
]

-- A request of a session that ended is not let through, whatever the inactive markers and failures.
pub IsEnded-is_session_active :
    (env : Env) (now id : ℕ) (w : World)
    → IsEnded id w
    → ((is_session_active env now id w).0 ≡ ok false)
      ⊎ ((e : Error) × ((is_session_active env now id w).0 ≡ err e))
unfolding is_session_active ask_database
IsEnded-is_session_active env now id w e =
    let first = says-false env is_active (e.unmarked now) in
    let none_found = AllClosed-find_active now id w.sessions e.closed in
    elim (Bool-cases (says env is_known_inactive (exists_marker now id w.inactive))) [
      | inl k ↦ rw first (rw k (inl refl))
      | inr k ↦ elim (Option-cases (env.failure find_active_session)) [
        | inl a ↦ rw first (rw k (rw a (rw none_found (inl refl))))
        | inr (x, a) ↦ rw first (rw k (rw a (inr (wrapped "find active session: " x, refl))))
      ]
    ]

pub not_let_through : {r : Result Bool} → (r ≡ ok false) ⊎ ((e : Error) × (r ≡ err e)) → r ≢ ok true
not_let_through (inl a) h = cc
not_let_through (inr (e, a)) h = cc

contains_self : (a : ℕ) (xs : List ℕ) → contains a (a ∷ xs) ≡ true
contains_self a xs = ground arith

pub logout-IsEnded :
    (env : Env) (now id user : ℕ) (w : World)
    → env.failure revoke_session ≡ none
    → env.failure clear_active ≡ none
    → IsEnded id (logout env now id user w).1
unfolding logout revoke_active
logout-IsEnded env now id user w a b =
    let gone : IsEnded id
        (revoke_active user id (record w { sessions = revoke_by_id now id w.sessions })) =
      record {
        unmarked =
            λ later. exists_marker-delete_markers later id (id ∷ []) w.active (contains_self id []);
        closed = revoke_by_id-AllClosed now id w.sessions;
      } in
    rw (a, logout) (rw (b, works) gone)

pub logout_all-IsEnded :
    (env : Env) (now id user : ℕ) (w : World)
    → env.failure revoke_session ≡ none
    → env.failure clear_active ≡ none
    → IsOwned id user w.sessions
    → contains id (members_at now user w.sets) ≡ true
    → IsEnded id (logout_all env now user w).1
unfolding logout_all revoke_all_active
logout_all-IsEnded env now id user w a b own listed =
    let gone : IsEnded id (
        revoke_all_active now user
          (record w { sessions = revoke_by_user_id now user w.sessions })) =
      record {
        unmarked = λ later.
            exists_marker-delete_markers later id (members_at now user w.sets) w.active listed;
        closed = revoke_by_user_id-AllClosed now user id w.sessions own;
      } in
    rw (a, logout_all) (rw (b, works) gone)

pub works_ok : (env : Env) (c : Call) (n w : World) → env.failure c ≡ none → works env c n w ≡ n
works_ok env c n w a = rw (a, works) refl

pub works_sessions :
    (env : Env) (c : Call) (n w : World)
    → n.sessions ≡ w.sessions
    → (works env c n w).sessions ≡ w.sessions
works_sessions env c n w h = elim (Option-cases (env.failure c)) [
  | inl a ↦ rw (a, works) h
  | inr (x, a) ↦ rw (a, works) refl
]

pub suspicious_closed :
    (env : Env) (now user : ℕ) (w : World)
    → env.failure revoke_session ≡ none
    → AllUserClosed user (handle_suspicious_login env now user w).sessions
unfolding handle_suspicious_login revoke_all_active
suspicious_closed env now user w a =
    let closed : World = record w { sessions = revoke_by_user_id now user w.sessions } in
    let w₁ = works env revoke_session closed w in
    let rows =
      works_sessions env clear_active (revoke_all_active now user w₁) w₁ refl
      ∙ ap (λ v. v.sessions) (works_ok env revoke_session closed w a) in
    rw rows (revoke_by_user_id-AllUserClosed now user w.sessions)
