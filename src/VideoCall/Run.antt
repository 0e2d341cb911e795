-- ===== src/VideoCall/Run.antt =====
-- internal/domain/onboarding/video_call_service.go: the life of a call through any operations.
use bca_mobile_api.Common.{
  ℕ, suc, ◌≡◌, refl, String, Bool, true, false, not, ◌&&◌, Option, none, some, List, [], ◌∷◌,
  str_eq, Bool-cases, Option-cases, inl, inr, Result, ok, err, validation_error,
  onboarding_not_found, video_call_not_active, video_call_agent_mismatch, provider_not_configured,
}
use bca_mobile_api.Common.State.{
  Action, give, try, refuse-at, try-at, need-at, choose-at, try-Keeps,
}
use bca_mobile_api.Onboarding.Session.{Session, World, find_row}
use bca_mobile_api.VideoCall.Calls.{
  Member, CallResult, approved, rejected, need_review, VideoCall, CallWorld, is_active,
  is_completed, is_waiting, find_by_queue_id, find_by_session_id, change_call, complete_call,
}
use bca_mobile_api.VideoCall.Service.{
  Env, resolve, remove_queued, cancel_row, join_queue, agent_signaling_url, SubmitRequest, approve,
  advanced, move_on, raise, decide, record_result, answer, submit_result, release_call,
  release_waiting, cancel_for_session, is_review, update_result, find_call, create_escalation,
  find_session, list_queue,
}
use bca_mobile_api.VideoCall.Listing.{
  is_gone, QueuedCall, entry, after_member, keep_found, keep_member, list_members, list_queued,
}
use bca_mobile_api.VideoCall.Moves.{
  Moves, WorldMoves, Moves_refl, Moves_trans, complete_call-Moved, change_found-Moves, same,
}
use bca_mobile_api.VideoCall.Life.{
  Keeping, chain, resolve-Keeping, remove_queued-Keeping, cancel_and_remove-Keeping,
  join_queue-Keeping, agent_signaling_url-Keeping,
}
use bca_mobile_api.Onboarding.Steps.{Step, credentials, can_transition, video_call}
use bca_mobile_api.Onboarding.Session.{advance}

advanced-Keeping : (r : Result World) (w : CallWorld) → WorldMoves w (advanced r w).1
advanced-Keeping (err e) w = same w
advanced-Keeping (ok o) w = same w

move_on-Keeping : (env : Env) (key : String) (s : Session) → Keeping (move_on env key s)
unfolding move_on
move_on-Keeping env key s w =
    choose-at WorldMoves (can_transition s.current_step credentials)
      (advanced (advance env.session_env key credentials s w.onboarding) w) (ok s.current_step, w) w
      (advanced-Keeping (advance env.session_env key credentials s w.onboarding) w) (same w)

approve-Keeping : (env : Env) (key : String) → Keeping (approve env key)
unfolding approve
approve-Keeping env key =
    chain (resolve env key) (λ s. move_on env key s) (resolve-Keeping env key)
      (λ s. move_on-Keeping env key s)

raise-Keeping : (env : Env) (q : SubmitRequest) (agent : String) → Keeping (raise env q agent)
unfolding raise
raise-Keeping env q agent =
    chain (try (env.fault create_escalation) "create escalation: ") _
      (try-Keeps WorldMoves same _ _) (λ _ w. same w)

decide-Keeping :
    (env : Env) (q : SubmitRequest) (agent : String) (r : CallResult)
    → Keeping (decide env q agent r)
unfolding decide
decide-Keeping env q agent approved w = approve-Keeping env q.session_id w
decide-Keeping env q agent rejected w = same w
decide-Keeping env q agent need_review w =
    chain (raise env q agent) (λ _. give {R = Step} video_call) (raise-Keeping env q agent)
      (λ _ x. same x) w

is_true : (b : Bool) → not b ≡ false → b ≡ true
is_true true h = refl
is_true false h = cc

record_result-Keeping :
    (env : Env) (q : SubmitRequest) (agent : String) (c : VideoCall) (w : CallWorld)
    → find_by_queue_id q.queue_id w.calls ≡ some c
    → WorldMoves w (record_result env q agent c w).1
unfolding record_result
record_result-Keeping env q agent c w found =
    refuse-at WorldMoves (not (is_active c.status)) video_call_not_active _ w (same w) λ a.
      refuse-at WorldMoves
        (not (str_eq c.agent_employee_id "") && not (str_eq c.agent_employee_id agent))
        video_call_agent_mismatch _ w (same w)
        λ b. try-at WorldMoves (env.fault update_result) "update video call result: " _ w (same w) (
          Moves_trans
            (change_found-Moves (complete_call env.now q.result agent c.agent_name) q.queue_id
              w.calls c found
              (complete_call-Moved env.now q.result agent c.agent_name c (is_true _ a)))
            (chain (remove_queued env q.queue_id) (λ _. decide env q agent q.result)
              (remove_queued-Keeping env q.queue_id) (λ _. decide-Keeping env q agent q.result)
              (record w {
                calls =
                    change_call (complete_call env.now q.result agent c.agent_name) q.queue_id
                      w.calls;
              })))

answer-Moves :
    (env : Env) (q : SubmitRequest) (agent : String) (c : VideoCall) (w : CallWorld)
    → find_by_queue_id q.queue_id w.calls ≡ some c
    → WorldMoves w (answer env q agent c w).1
unfolding answer
answer-Moves env q agent c w found = elim (Bool-cases (is_completed c.status)) [
  | inl e ↦ rw e (
      chain (resolve env q.session_id) (λ s. give s.current_step) (resolve-Keeping env q.session_id)
        (λ s x. same x) w)
  | inr e ↦ rw e (record_result-Keeping env q agent c w found)
]

submit_result-Keeping :
    (env : Env) (q : SubmitRequest) (agent : String) → Keeping (submit_result env q agent)
unfolding submit_result
submit_result-Keeping env q agent w =
    try-at WorldMoves (env.fault find_call) "find video call: " _ w (same w) (
      need-at WorldMoves (find_by_queue_id q.queue_id w.calls) onboarding_not_found _ w (same w)
        λ c found.
          refuse-at WorldMoves (not (str_eq c.session_id q.session_id)) validation_error _ w
            (same w)
            λ _. refuse-at WorldMoves (str_eq agent "") validation_error _ w (same w) λ _.
              refuse-at WorldMoves (is_review q.result && not env.has_escalations)
                provider_not_configured _ w (same w)
                λ _.
                  refuse-at WorldMoves (not q.is_valid) validation_error _ w (same w)
                    λ _. answer-Moves env q agent c w found)

release_call-Keeping : (env : Env) (c : VideoCall) → Keeping (release_call env c)
unfolding release_call
release_call-Keeping env c w = elim (Option-cases (env.fault cancel_row)) [
  | inl e ↦ rw (e, release_call) (cancel_and_remove-Keeping env c.queue_id w)
  | inr (x, e) ↦ rw (e, release_call) (same w)
]

release_waiting-Keeping : (env : Env) (o : Option VideoCall) → Keeping (release_waiting env o)
unfolding release_waiting
release_waiting-Keeping env none w = same w
release_waiting-Keeping env (some c) w = elim (Bool-cases (is_waiting c.status)) [
  | inl e ↦ rw e (release_call-Keeping env c w)
  | inr e ↦ rw e (same w)
]

cancel_for_session-Keeping : (env : Env) (key : String) → Keeping (cancel_for_session env key)
unfolding cancel_for_session
cancel_for_session-Keeping env key =
    chain (try (env.fault find_call) "find video call by session: ") _
      (try-Keeps WorldMoves same _ _)
      (λ _ w. release_waiting-Keeping env (find_by_session_id key w.calls) w)

keep_found-Keeping : (env : Env) (id : ℕ) (o : Option VideoCall) → Keeping (keep_found env id o)
unfolding keep_found
keep_found-Keeping env id none w =
    chain (remove_queued env id) (λ _. give {R = Option VideoCall} none)
      (remove_queued-Keeping env id) (λ _ x. same x) w
keep_found-Keeping env id (some c) w = elim (Option-cases (env.fault find_session)) [
  | inr (x, e) ↦ rw (e, keep_found) (same w)
  | inl e ↦ elim (Bool-cases (is_gone env.session_env (find_row c.session_id w.onboarding.rows))) [
    | inl f ↦
        rw (e, keep_found)
          (rw f (
            chain (release_call env c) (λ _. give {R = Option VideoCall} none)
              (release_call-Keeping env c) (λ _ x. same x) w))
    | inr f ↦ rw (e, keep_found) (rw f (same w))
  ]
]

keep_member-Keeping : (env : Env) (id : ℕ) → Keeping (keep_member env id)
unfolding keep_member
keep_member-Keeping env id =
    chain (try (env.fault find_call) "find video call: ") _ (try-Keeps WorldMoves same _ _)
      (λ _ w. keep_found-Keeping env id (find_by_queue_id id w.calls) w)

after_member-Keeping :
    (env : Env) (n : ℕ) (dropped stays : Action CallWorld (List QueuedCall)) (o : Option VideoCall)
    → Keeping dropped
    → Keeping stays
    → Keeping (after_member env n dropped stays o)
after_member-Keeping env n dropped stays none k l w = k w
after_member-Keeping env n dropped stays (some c) k l w =
    chain stays (λ rest. give (entry env n c ∷ rest)) l (λ _ x. same x) w

list_members-Keeping : (env : Env) (n : ℕ) (ms : List Member) → Keeping (list_members env n ms)
unfolding list_members
list_members-Keeping env n [] w = same w
list_members-Keeping env n (m ∷ ms) w =
    chain (keep_member env m.member) _ (keep_member-Keeping env m.member)
      (λ kept.
        after_member-Keeping env (suc n) _ _ kept (list_members-Keeping env n ms)
          (list_members-Keeping env (suc n) ms))
      w

list_queued-Keeping : (env : Env) → Keeping (list_queued env)
unfolding list_queued
list_queued-Keeping env =
    chain (try (env.fault list_queue) "list queue: ") _ (try-Keeps WorldMoves same _ _)
      (λ _ w. list_members-Keeping env 0 w.queue w)

-- What the handlers can do, with what stands outside at the time.
pub data Operation : Type 0 where
  join : Env → String → Operation
  pick_up : Env → ℕ → String → String → Operation
  submit : Env → SubmitRequest → String → Operation
  cancel : Env → String → Operation
  list_calls : Env → Operation

unfoldable pub perform : Operation → CallWorld → CallWorld
unfolding join_queue agent_signaling_url submit_result cancel_for_session list_queued
perform (join env key) w = (join_queue env key w).1
perform (pick_up env id agent name) w = (agent_signaling_url env id agent name w).1
perform (submit env q agent) w = (submit_result env q agent w).1
perform (cancel env key) w = (cancel_for_session env key w).1
perform (list_calls env) w = (list_queued env w).1

unfoldable pub perform_all : List Operation → CallWorld → CallWorld
unfolding perform
perform_all [] w = w
perform_all (o ∷ os) w = perform_all os (perform o w)

perform-Moves : (o : Operation) (w : CallWorld) → WorldMoves w (perform o w)
unfolding perform
perform-Moves (join env key) w = join_queue-Keeping env key w
perform-Moves (pick_up env id agent name) w = agent_signaling_url-Keeping env id agent name w
perform-Moves (submit env q agent) w = submit_result-Keeping env q agent w
perform-Moves (cancel env key) w = cancel_for_session-Keeping env key w
perform-Moves (list_calls env) w = list_queued-Keeping env w

-- Through any sequence of operations by anyone, whatever fails in them, no call is lost or given to
-- another session; a call never goes back from ACTIVE to QUEUED; one that was QUEUED and is now ACTIVE or
-- COMPLETED has a time at which it was picked up, and keeps having one; and a call that is completed or
-- cancelled stays exactly as it is.
pub perform_all-Moves :
    (os : List Operation) (w : CallWorld) → Moves w.calls (perform_all os w).calls
unfolding perform_all
perform_all-Moves [] w = Moves_refl w.calls
perform_all-Moves (o ∷ os) w = Moves_trans (perform-Moves o w) (perform_all-Moves os (perform o w))
