-- ===== src/Onboarding/Progress.antt =====
-- internal/domain/onboarding: no step of an account opening can be left out.
use bca_mobile_api.Common.{
  ℕ, ◌≤◌, String, true, not, ◌&&◌, ◌≡◌, refl, inl, inr, Option, some, List, [], ◌∷◌, leb, ltb,
  str_eq, arith, Bool-cases, Option-cases, ok, ◌<◌, >>=-eq_ok, ok_pair, refuse, refuse-eq_ok,
  validation_error, onboarding_product_unavailable, onboarding_session_limit,
  onboarding_invalid_step,
}
use bca_mobile_api.Onboarding.Steps.{
  Step, step_index, can_transition, StepsCompleted, complete, valid_product,
}
use bca_mobile_api.Onboarding.Session.{
  Session, Env, World, call, update_step, is_live, find_key, cache_get, cache_store, loaded,
  find_row, resolve_row, resolve_session, with_step, set_step, has_live, advance, transition_step,
  insert_session, count_sessions,
}
use bca_mobile_api.Onboarding.Create.{
  Services, CreateRequest, first_step, new_session, create_session, session_key,
  resolve_session_card, count_active, max_sessions_per_device,
}
use bca_mobile_api.Onboarding.Order.{IsProgress, can_transition-index, complete-IsProgress}

abbrev pub AllProgress : List Session → Type 0
AllProgress [] = Unit
AllProgress (s ∷ ss) = IsProgress s.current_step s.steps_completed × AllProgress ss

-- Every session of the table and of the cache.
abbrev pub WorldProgress : World → Type 0
WorldProgress w = AllProgress w.rows × AllProgress w.cache

abbrev pub SessionProgress : Session → Type 0
SessionProgress s = IsProgress s.current_step s.steps_completed

cache_store-Progress :
    (env : Env) (s : Session) (w : World)
    → SessionProgress s
    → WorldProgress w
    → WorldProgress (cache_store env s w)
unfolding cache_store
cache_store-Progress env s w p q =
    elim (Bool-cases (env.cache_writes && ltb env.now s.expires_at)) [
      | inl e ↦ rw e (q.0, (p, q.1))
      | inr e ↦ rw e q
    ]

find_key-Progress :
    (key : String) (ss : List Session) {s : Session}
    → AllProgress ss
    → find_key key ss ≡ some s
    → SessionProgress s
unfolding find_key
find_key-Progress key [] q h = cc
find_key-Progress key (t ∷ ts) {s} q h = elim (Bool-cases (str_eq t.session_id key)) [
  | inl e ↦ let same : t ≡ s = ground arith in rw (← same) q.0
  | inr e ↦ let h' : find_key key ts ≡ some s = ground arith in find_key-Progress key ts q.1 h'
]

find_row-Progress :
    (key : String) (ss : List Session) {s : Session}
    → AllProgress ss
    → find_row key ss ≡ some s
    → SessionProgress s
unfolding find_row
find_row-Progress key [] q h = cc
find_row-Progress key (t ∷ ts) {s} q h = elim (Bool-cases (is_live key t)) [
  | inl e ↦ let same : loaded t ≡ s = ground arith in rw (← same) (again t q.0)
  | inr e ↦ let h' : find_row key ts ≡ some s = ground arith in find_row-Progress key ts q.1 h'
]
  where
    again : (t : Session) → SessionProgress t → SessionProgress (loaded t)
    again t p = p

cache_get-some :
    (env : Env) (key : String) (w : World) {s : Session}
    → cache_get env key w ≡ some s
    → find_key key w.cache ≡ some s
unfolding cache_get
cache_get-some env key w {s} h = elim (Option-cases (find_key key w.cache)) [
  | inl e ↦ let bad : ⊥ = ground arith in absurd bad
  | inr (t, e) ↦ ground arith
]

resolve_row-Progress :
    (env : Env) (key : String) (w : World) {s : Session} {w' : World}
    → WorldProgress w
    → resolve_row env key w ≡ ok (s, w')
    → SessionProgress s × WorldProgress w'
unfolding resolve_row
resolve_row-Progress env key w {s} {w'} q h = elim (Option-cases (find_row key w.rows)) [
  | inl e ↦ let bad : ⊥ = ground arith in absurd bad
  | inr (t, e) ↦
      let same : s ≡ t = ground arith in
      let world : w' ≡ cache_store env t w = ground arith in
      let p = find_row-Progress key w.rows q.0 e in
      (rw same p, rw world (cache_store-Progress env t w p q))
]

pub resolve_session-Progress :
    (env : Env) (key : String) (w : World) {s : Session} {w' : World}
    → WorldProgress w
    → resolve_session env key w ≡ ok (s, w')
    → SessionProgress s × WorldProgress w'
unfolding resolve_session
resolve_session-Progress env key w {s} {w'} q h = elim (Option-cases (cache_get env key w)) [
  | inl e ↦
      let h' : resolve_row env key w ≡ ok (s, w') = ground arith in
      resolve_row-Progress env key w q h'
  | inr (t, e) ↦
      let same : s ≡ t = ground arith in
      let world : w' ≡ w = ground arith in
      (rw same (find_key-Progress key w.cache q.1 (cache_get-some env key w e)), rw world q)
]

set_step-Progress :
    (key : String) (to : Step) (c : StepsCompleted) (now : ℕ) (ss : List Session)
    → IsProgress to c
    → AllProgress ss
    → AllProgress (set_step key to c now ss)
unfolding set_step
set_step-Progress key to c now [] p q = tt
set_step-Progress key to c now (s ∷ ss) p q = elim (Bool-cases (is_live key s)) [
  | inl e ↦ rw e (p, set_step-Progress key to c now ss p q.1)
  | inr e ↦ rw e (q.0, set_step-Progress key to c now ss p q.1)
]

pub advance-Progress :
    (env : Env) (key : String) (to : Step) (s : Session) (w : World) {w' : World}
    → SessionProgress s
    → WorldProgress w
    → advance env key to s w ≡ ok w'
    → WorldProgress w'
unfolding advance
advance-Progress env key to s w {w'} p q h =
    let (_, e, h₁) =
      >>=-eq_ok (refuse (not (can_transition s.current_step to)) onboarding_invalid_step) _ h in
    let (_, _, h₂) = >>=-eq_ok (call env update_step "update step") _ h₁ in
    let (_, _, h₃) = >>=-eq_ok (refuse (not (has_live key w.rows)) _) _ h₂ in
    let c = complete to s.steps_completed in
    let allowed = can_transition-index s.current_step to (ground arith) in
    let p' = complete-IsProgress s.current_step to s.steps_completed allowed p in
    let world : w'
        ≡ cache_store env (with_step to c s)
            (record w { rows = set_step key to c env.now w.rows }) =
      same_ok h₃ in
    rw world (
      cache_store-Progress env (with_step to c s) _ p'
        (set_step-Progress key to c env.now w.rows p' q.0, q.1))
  where
    same_ok : {a b : World} → ok a ≡ ok b → b ≡ a
    same_ok h = cc

-- If every session of the table and of the cache has done the steps that it has left behind, so it
-- is after a transition that succeeded, whichever of the two the session was read from and whether
-- or not the cache takes the new state.
pub transition_step-WorldProgress :
    (env : Env) (key : String) (to : Step) (w : World) {w' : World}
    → WorldProgress w
    → transition_step env key to w ≡ ok w'
    → WorldProgress w'
unfolding transition_step
transition_step-WorldProgress env key to w q h =
    let ((s, w₁), e, h₁) = >>=-eq_ok (resolve_session env key w) _ h in
    let (p, q₁) = resolve_session-Progress env key w q e in advance-Progress env key to s w₁ p q₁ h₁

first_step-IsProgress :
    (v : Services) (req : CreateRequest) (card : Option String) (c : StepsCompleted)
    → c.tnc_accepted ≡ true
    → IsProgress (first_step v req card) c
unfolding first_step
first_step-IsProgress v req card c h =
    let low : step_index (first_step v req card) ≤ 2 = elim (Option-cases card) [
      | inl e ↦ ground arith
      | inr (x, e) ↦ ground arith
    ] in
    record {
      past_tnc = λ l. h;
      past_ocr = λ l. let bad : ⊥ = omega arith in absurd bad;
      past_personal = λ l. let bad : ⊥ = omega arith in absurd bad;
      past_otp = λ l. let bad : ⊥ = omega arith in absurd bad;
      past_biometric = λ l. let bad : ⊥ = omega arith in absurd bad;
      past_video = λ l. let bad : ⊥ = omega arith in absurd bad;
      past_credentials = λ l. let bad : ⊥ = omega arith in absurd bad;
      past_review = λ l. let bad : ⊥ = omega arith in absurd bad;
    }

new_session-Progress :
    (env : Env) (v : Services) (req : CreateRequest) (key : String) (card : Option String)
    → SessionProgress (new_session env v req key card)
unfolding new_session
new_session-Progress env v req key card = first_step-IsProgress v req card _ refl

-- A new session has done what it has left behind, as have all others, and its device had fewer than
-- three sessions of the last hour that were neither cancelled nor expired.
pub create_session-WorldProgress :
    (env : Env) (v : Services) (req : CreateRequest) (w : World) {s : Session} {w' : World}
    → WorldProgress w
    → create_session env v req w ≡ ok (s, w')
    → WorldProgress w'
      × SessionProgress s
      × (count_active req.device_id env.now w.rows < max_sessions_per_device)
unfolding create_session
create_session-WorldProgress env v req w {s} {w'} q h =
    let (_, _, h₁) =
      >>=-eq_ok (refuse (not (valid_product req.product_type)) onboarding_product_unavailable) _
        h in
    let (_, _, h₂) = >>=-eq_ok (refuse (str_eq req.device_id "") validation_error) _ h₁ in
    let (_, _, h₃) =
      >>=-eq_ok (refuse (str_eq req.accepted_tnc_version "") validation_error) _ h₂ in
    let (_, _, h₄) = >>=-eq_ok (v.validate_version req.accepted_tnc_version) _ h₃ in
    let (_, _, h₅) = >>=-eq_ok (call env count_sessions "count active sessions") _ h₄ in
    let (_, e, h₆) =
      >>=-eq_ok
        (refuse (leb max_sessions_per_device (count_active req.device_id env.now w.rows))
          onboarding_session_limit)
        _ h₅ in
    let (key, _, h₇) = >>=-eq_ok (session_key env) _ h₆ in
    let (card, _, h₈) = >>=-eq_ok (resolve_session_card v req) _ h₇ in
    let (_, _, h₉) = >>=-eq_ok (call env insert_session "create session") _ h₈ in
    let (made, world) = ok_pair h₉ in
    let few = refuse-eq_ok _ _ e in
    let ns = new_session env v req key card.0 in
    let p : SessionProgress ns = new_session-Progress env v req key card.0 in
    let q' = cache_store-Progress env ns (record w { rows = ns ∷ w.rows }) p ((p, q.0), q.1) in
    (rw world q', rw made p, ground arith)
