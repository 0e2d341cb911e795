-- ===== src/VideoCall/Progress.antt =====
-- internal/domain/onboarding/video_call_service.go: a decision keeps the steps of the account opening in
-- order.
use bca_mobile_api.Common.{
  ◌≡◌, refl, String, not, ◌&&◌, str_eq, Bool-cases, inl, inr, Result, ok, err, validation_error,
  onboarding_not_found, video_call_not_active, video_call_agent_mismatch, provider_not_configured,
}
use bca_mobile_api.Common.State.{
  Action, bind, give, try, Keeps, bind-Keeps, refuse-at, try-at, need-at, choose-at, try-Keeps,
  try_change-Keeps,
}
use bca_mobile_api.Onboarding.Session.{Session, World, resolve_session}
use bca_mobile_api.VideoCall.Calls.{
  CallResult, approved, rejected, need_review, VideoCall, CallWorld, is_active, is_completed,
  find_by_queue_id, change_call, complete_call,
}
use bca_mobile_api.VideoCall.Service.{
  Env, lift, remove_queued, SubmitRequest, approve, advanced, move_on, raise, decide, record_result,
  answer, submit_result, is_review, queue_remove, update_result, find_call, create_escalation,
}
use bca_mobile_api.Onboarding.Steps.{Step, credentials, can_transition, video_call}
use bca_mobile_api.Onboarding.Session.{advance}
use bca_mobile_api.Onboarding.Progress.{
  WorldProgress, SessionProgress, resolve_session-Progress, advance-Progress,
}

abbrev Kept : CallWorld → CallWorld → Type 0
Kept w v = WorldProgress w.onboarding → WorldProgress v.onboarding

trans : (x y z : CallWorld) → Kept x y → Kept y z → Kept x z
trans x y z f g p = g (f p)

same : (w : CallWorld) → Kept w w
same w p = p

move_on-Kept :
    (env : Env) (key : String) (s : Session) (w : CallWorld)
    → SessionProgress s
    → Kept w (move_on env key s w).1
unfolding move_on
move_on-Kept env key s w p q =
    choose-at (λ x y. WorldProgress y.onboarding) (can_transition s.current_step credentials)
      (advanced (advance env.session_env key credentials s w.onboarding) w) (ok s.current_step, w) w
      (stepped (advance env.session_env key credentials s w.onboarding) refl) q
  where
    stepped :
        (r : Result World)
        → advance env.session_env key credentials s w.onboarding ≡ r
        → WorldProgress (advanced r w).1.onboarding
    stepped (err e) h = q
    stepped (ok o) h = advance-Progress env.session_env key credentials s w.onboarding p q h

resolved :
    (env : Env) (key : String) (w : CallWorld) (r : Result (Session × World)) {S : Type 0}
    (next : Session → Action CallWorld S)
    → resolve_session env.session_env key w.onboarding ≡ r
    → ((s : Session) (v : CallWorld) → SessionProgress s → Kept v (next s v).1)
    → Kept w (bind (lift r w) next).1
resolved env key w (err e) next h k p = p
resolved env key w (ok (s, o)) next h k p =
    let (a, b) = resolve_session-Progress env.session_env key w.onboarding p h in
    k s (record w { onboarding = o }) a b

approve-Kept : (env : Env) (key : String) → Keeps Kept (approve env key)
unfolding approve
approve-Kept env key w =
    resolved env key w _ (λ s. move_on env key s) refl (λ s v a. move_on-Kept env key s v a)

raise-Kept : (env : Env) (q : SubmitRequest) (agent : String) → Keeps Kept (raise env q agent)
unfolding raise
raise-Kept env q agent =
    bind-Keeps Kept (try (env.fault create_escalation) "create escalation: ") _ trans
      (try-Keeps Kept same _ _) (λ _ x. same x)

decide-Kept :
    (env : Env) (q : SubmitRequest) (agent : String) (r : CallResult)
    → Keeps Kept (decide env q agent r)
unfolding decide
decide-Kept env q agent approved w = approve-Kept env q.session_id w
decide-Kept env q agent rejected w = same w
decide-Kept env q agent need_review w =
    bind-Keeps Kept (raise env q agent) (λ _. give {R = Step} video_call) trans
      (raise-Kept env q agent) (λ _ x. same x) w

record_result-Kept :
    (env : Env) (q : SubmitRequest) (agent : String) (c : VideoCall)
    → Keeps Kept (record_result env q agent c)
unfolding record_result remove_queued
record_result-Kept env q agent c w =
    refuse-at Kept (not (is_active c.status)) video_call_not_active _ w (same w) λ _.
      refuse-at Kept (not (str_eq c.agent_employee_id "") && not (str_eq c.agent_employee_id agent))
        video_call_agent_mismatch _ w (same w)
        λ _. try-at Kept (env.fault update_result) "update video call result: " _ w (same w) (
          bind-Keeps Kept (remove_queued env q.queue_id) (λ _. decide env q agent q.result) trans
            (try_change-Keeps Kept same (env.fault queue_remove) _ (λ x. same x))
            (λ _. decide-Kept env q agent q.result)
            (record w {
              calls =
                  change_call (complete_call env.now q.result agent c.agent_name) q.queue_id
                    w.calls;
            }))

answer-Kept :
    (env : Env) (q : SubmitRequest) (agent : String) (c : VideoCall)
    → Keeps Kept (answer env q agent c)
unfolding answer
answer-Kept env q agent c w = elim (Bool-cases (is_completed c.status)) [
  | inl e ↦ rw e (resolved env q.session_id w _ (λ s. give s.current_step) refl (λ s v a. same v))
  | inr e ↦ rw e (record_result-Kept env q agent c w)
]

-- A decision of an agent, whatever it is and whatever fails while it is recorded, leaves every session of
-- the table and of the cache marked with all the steps that it has passed, if they were before.
pub submit_result-WorldProgress :
    (env : Env) (q : SubmitRequest) (agent : String) (w : CallWorld)
    → WorldProgress w.onboarding
    → WorldProgress (submit_result env q agent w).1.onboarding
unfolding submit_result
submit_result-WorldProgress env q agent w =
    try-at Kept (env.fault find_call) "find video call: " _ w (same w) (
      need-at Kept (find_by_queue_id q.queue_id w.calls) onboarding_not_found _ w (same w)
        λ c found.
          refuse-at Kept (not (str_eq c.session_id q.session_id)) validation_error _ w (same w) λ _.
            refuse-at Kept (str_eq agent "") validation_error _ w (same w) λ _.
              refuse-at Kept (is_review q.result && not env.has_escalations) provider_not_configured
                _ w (same w)
                λ _.
                  refuse-at Kept (not q.is_valid) validation_error _ w (same w)
                    λ _. answer-Kept env q agent c w)
