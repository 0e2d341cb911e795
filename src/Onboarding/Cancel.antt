-- ===== src/Onboarding/Cancel.antt =====
-- internal/domain/onboarding/session_service.go, CancelSession: what is left of a cancelled session.
use bca_mobile_api.Common.{
  ℕ, String, false, not, ◌≡◌, refl, ap, inl, inr, List, [], ◌∷◌, arith, Bool-cases, Option-cases,
  ok, err, Error, Result-cases, >>=-eq_ok, refuse, refuse-eq_ok, onboarding_invalid_step,
}
use bca_mobile_api.Onboarding.Steps.{Step, can_transition}
use bca_mobile_api.Onboarding.Session.{
  Session, Env, World, call, update_step, is_live, cache_get, cache_store, find_row, resolve_row,
  resolve_session, has_live, advance, transition_step, delete_rows, cache_delete, cancel_session,
  soft_delete,
}

delete_rows-has_live :
    (key : String) (now : ℕ) (ss : List Session) → has_live key (delete_rows key now ss) ≡ false
unfolding delete_rows has_live
delete_rows-has_live key now [] = refl
delete_rows-has_live key now (s ∷ ss) = elim (Bool-cases (is_live key s)) [
  | inl e ↦ rw e (ground (arith, delete_rows-has_live key now ss))
  | inr e ↦ rw e (rw e (delete_rows-has_live key now ss))
]

cache_store-rows : (env : Env) (s : Session) (w : World) → (cache_store env s w).rows ≡ w.rows
unfolding cache_store
cache_store-rows env s w = ground arith

resolve_session-rows :
    (env : Env) (key : String) (w : World) {s : Session} {w' : World}
    → resolve_session env key w ≡ ok (s, w')
    → w'.rows ≡ w.rows
unfolding resolve_session resolve_row
resolve_session-rows env key w {s} {w'} h = elim (Option-cases (cache_get env key w)) [
  | inr (t, e) ↦ ground arith
  | inl e ↦ elim (Option-cases (find_row key w.rows)) [
    | inl f ↦ let bad : ⊥ = ground arith in absurd bad
    | inr (t, f) ↦
        let world : w' ≡ cache_store env t w = ground arith in rw world (cache_store-rows env t w)
  ]
]

cache_delete-rows : (env : Env) (key : String) (w : World) → (cache_delete env key w).rows ≡ w.rows
unfolding cache_delete
cache_delete-rows env key w = ground arith

no_step :
    (env : Env) (key : String) (to : Step) (w : World) {v : World}
    → has_live key w.rows ≡ false
    → transition_step env key to w ≡ ok v
    → ⊥
unfolding transition_step advance
no_step env key to w gone h =
    let ((s, w₁), e, h₁) = >>=-eq_ok (resolve_session env key w) _ h in
    let (_, _, h₂) =
      >>=-eq_ok (refuse (not (can_transition s.current_step to)) onboarding_invalid_step) _ h₁ in
    let (_, _, h₃) = >>=-eq_ok (call env update_step "update step") _ h₂ in
    let (_, f, _) = >>=-eq_ok (refuse (not (has_live key w₁.rows)) _) _ h₃ in
    let live = refuse-eq_ok (not (has_live key w₁.rows)) _ f in
    let same = ap (λ r. has_live key r) (resolve_session-rows env key w e) in ground arith

-- Without a live row, an update of the step fails.
refused_step :
    (env : Env) (key : String) (to : Step) (w : World)
    → has_live key w.rows ≡ false
    → (e : Error) × (transition_step env key to w ≡ err e)
refused_step env key to w gone = elim (Result-cases (transition_step env key to w)) [
  | inr x ↦ x
  | inl (v, e) ↦ absurd (no_step env key to w gone e)
]

-- After a session was cancelled, no transition of it from the resulting tables and cache succeeds,
-- whatever the environment is.
pub transition_step-cancel_session :
    (env env' : Env) (key : String) (to : Step) (w : World) {w' : World}
    → cancel_session env key w ≡ ok w'
    → (e : Error) × (transition_step env' key to w' ≡ err e)
unfolding cancel_session
transition_step-cancel_session env env' key to w {w'} h =
    let ((s, w₁), _, h₁) = >>=-eq_ok (resolve_session env key w) _ h in
    let (_, _, h₂) = >>=-eq_ok (call env soft_delete "soft delete session") _ h₁ in
    let (_, _, h₃) = >>=-eq_ok (refuse (not (has_live key w₁.rows)) _) _ h₂ in
    let world : w' ≡ cache_delete env key (record w₁ { rows = delete_rows key env.now w₁.rows }) =
      same_ok h₃ in
    let gone : has_live key w'.rows ≡ false = rw world (
      rw (cache_delete-rows env key (record w₁ { rows = delete_rows key env.now w₁.rows }))
        (delete_rows-has_live key env.now w₁.rows)) in
    refused_step env' key to w' gone
  where
    same_ok : {a b : World} → ok a ≡ ok b → b ≡ a
    same_ok h = cc
