-- ===== src/VideoCall/Life.antt =====
-- internal/domain/onboarding/video_call_service.go: joining the queue and picking up a call move the calls on.
use bca_mobile_api.Common.{
  ℕ, String, Bool, true, false, not, ◌&&◌, ◌||◌, Option, none, some, is_some, ◌∷◌, ◌==◌, str_eq,
  if◌then◌else◌, Bool-cases, Option-cases, inl, inr, Result, ok, err, validation_error,
  onboarding_not_found, onboarding_invalid_step, video_call_not_active, video_call_already_taken,
  video_call_under_review, video_call_outside_hours,
}
use bca_mobile_api.Common.State.{
  Action, ◌>>=◌, ◌>>◌, give, refuse, read, need, try, Keeps, bind-Keeps, refuse-Keeps, need-Keeps,
  try-Keeps, try_change-Keeps,
}
use bca_mobile_api.Onboarding.Session.{Session, World, resolve_session}
use bca_mobile_api.VideoCall.Calls.{
  VideoCall, CallWorld, is_active, is_waiting, find_by_queue_id, find_by_session_id, change_call,
  take_call, cancel_call, waits, has_waiting, position, has_open_escalation,
}
use bca_mobile_api.VideoCall.Service.{
  Env, lift, resolve, remove_queued, cancel_row, cancel_row_of, release_stale, standing_call,
  new_ticket, old_ticket, ticket, join_queue, online, ticket_of, cancel_and_remove, put_back,
  check_pick_up, take_up, agent_signaling_url, is_stale, within_hours, is_video_call, count_day,
  insert_call, queue_add, queue_remove, mark_active, find_call, find_escalation, mint_token,
}
use bca_mobile_api.VideoCall.Moves.{
  added, WorldMoves, Moves_refl, Moves_trans, cancel_call-Moved, take_call-Moved, change_call-Moves,
  trans, same,
}

-- Every operation keeps `WorldMoves`, on errors too.
abbrev pub Keeping : {R : Type 0} → Action CallWorld R → Type 0
Keeping m = Keeps WorldMoves m

pub chain :
    {R S : Type 0} (m : Action CallWorld R) (next : R → Action CallWorld S)
    → Keeping m
    → ((r : R) → Keeping (next r))
    → Keeping (m >>= next)
chain m next k l = bind-Keeps WorldMoves m next trans k l

lift-Keeping : (r : Result (Session × World)) (w : CallWorld) → WorldMoves w (lift r w).1
lift-Keeping (err e) w = same w
lift-Keeping (ok (s, o)) w = same w

pub resolve-Keeping : (env : Env) (key : String) → Keeping (resolve env key)
resolve-Keeping env key w = lift-Keeping (resolve_session env.session_env key w.onboarding) w

pub remove_queued-Keeping : (env : Env) (id : ℕ) → Keeping (remove_queued env id)
unfolding remove_queued
remove_queued-Keeping env id =
    try_change-Keeps WorldMoves same (env.fault queue_remove) _ (λ w. same w)

cancel_row_of-Keeping : (env : Env) (id : ℕ) → Keeping (cancel_row_of env id)
unfolding cancel_row_of
cancel_row_of-Keeping env id w =
    change_call-Moves (cancel_call env.now) id w.calls (cancel_call-Moved env.now)

removed-Keeping :
    (env : Env) (id : ℕ) (b : Bool) → Keeping (if b then remove_queued env id else give tt)
removed-Keeping env id true w = remove_queued-Keeping env id w
removed-Keeping env id false w = same w

pub cancel_and_remove-Keeping : (env : Env) (id : ℕ) → Keeping (cancel_and_remove env id)
unfolding cancel_and_remove
cancel_and_remove-Keeping env id =
    chain (cancel_row_of env id) (λ b. if b then remove_queued env id else give tt)
      (cancel_row_of-Keeping env id) (λ b. removed-Keeping env id b)

release_stale-Keeping : (env : Env) (c : VideoCall) → Keeping (release_stale env c)
unfolding release_stale
release_stale-Keeping env c w = elim (Bool-cases (is_active c.status && is_stale env.now c)) [
  | inr e ↦ rw e (same w)
  | inl e ↦ rw e (
      chain (try (env.fault cancel_row) "release stale video call: ")
        (λ _. cancel_and_remove env c.queue_id >> give {R = Option VideoCall} none)
        (try-Keeps WorldMoves same _ _)
        (λ _.
          chain (cancel_and_remove env c.queue_id) (λ _. give {R = Option VideoCall} none)
            (cancel_and_remove-Keeping env c.queue_id) (λ _ x. same x))
        w)
]

standing_call-Keeping : (env : Env) (o : Option VideoCall) → Keeping (standing_call env o)
unfolding standing_call
standing_call-Keeping env none w = same w
standing_call-Keeping env (some c) w = release_stale-Keeping env c w

new_ticket-Keeping : (env : Env) (key : String) → Keeping (new_ticket env key)
unfolding new_ticket
new_ticket-Keeping env key =
    chain (try (env.fault count_day) "incr queue counter: ") _ (try-Keeps WorldMoves same _ _) λ _.
      chain (try (env.fault insert_call) "create video call: ") _ (try-Keeps WorldMoves same _ _)
        λ _ w.
          chain
            (refuse (has_waiting key w.calls || is_some (find_by_queue_id env.new_queue_id w.calls))
              _)
            _ (refuse-Keeps WorldMoves same _ _)
            (λ _ x. Moves_trans (added (Moves_refl x.calls)) (
              chain (try (env.fault queue_add) "add to queue: ") _ (try-Keeps WorldMoves same _ _)
                (λ _ y. same y) (record x { calls = ticket_of env key ∷ x.calls })))
            w

put_back-Keeping : (env : Env) (c : VideoCall) (b : Bool) → Keeping (put_back env c b)
unfolding put_back
put_back-Keeping env c true w =
    try_change-Keeps WorldMoves same (env.fault queue_add) _ (λ x. same x) w
put_back-Keeping env c false w = same w

old_ticket-Keeping : (env : Env) (c : VideoCall) → Keeping (old_ticket env c)
unfolding old_ticket
old_ticket-Keeping env c w =
    chain (put_back env c (position c.queue_id w.queue == 0 && not (is_active c.status)))
      (λ _.
        read (λ x. position c.queue_id x.queue) >>= λ again. give {R = ℕ × ℕ} (c.queue_id, again))
      (put_back-Keeping env c _) (λ _ x. same x) w

ticket-Keeping : (env : Env) (key : String) (o : Option VideoCall) → Keeping (ticket env key o)
unfolding ticket
ticket-Keeping env key none = new_ticket-Keeping env key
ticket-Keeping env key (some c) = elim (Bool-cases (is_waiting c.status)) [
  | inl e ↦ λ w. rw e (old_ticket-Keeping env c w)
  | inr e ↦ λ w. rw e (new_ticket-Keeping env key w)
]

pub join_queue-Keeping : (env : Env) (key : String) → Keeping (join_queue env key)
unfolding join_queue
join_queue-Keeping env key = chain (resolve env key) _ (resolve-Keeping env key) λ s.
    chain (refuse (not (is_video_call s.current_step)) onboarding_invalid_step) _
      (refuse-Keeps WorldMoves same _ _)
      λ _.
        chain (try (env.fault find_escalation) "check open escalation: ") _
          (try-Keeps WorldMoves same _ _)
          λ _ w.
            chain
              (refuse (env.has_escalations && has_open_escalation key w.escalations)
                video_call_under_review)
              _ (refuse-Keeps WorldMoves same _ _)
              (λ _.
                chain (refuse (not (within_hours env.jakarta_hour)) video_call_outside_hours) _
                  (refuse-Keeps WorldMoves same _ _)
                  λ _.
                    chain (try (env.fault find_call) "check existing queue: ") _
                      (try-Keeps WorldMoves same _ _)
                      λ _ x.
                        chain (standing_call env (find_by_session_id key x.calls))
                          (λ standing. ticket env key standing) (standing_call-Keeping env _)
                          (λ o. ticket-Keeping env key o) x)
              w

online-Keeping : (env : Env) (agent : String) → Keeping (online env agent)
online-Keeping env agent w = elim (Option-cases (env.terminal agent)) [
  | inl e ↦ rw (e, online) (same w)
  | inr (x, e) ↦ rw (e, online) (same w)
]

check_pick_up-Keeping : (env : Env) (id : ℕ) (agent : String) → Keeping (check_pick_up env id agent)
unfolding check_pick_up
check_pick_up-Keeping env id agent =
    chain (refuse (str_eq agent "") validation_error) _ (refuse-Keeps WorldMoves same _ _) λ _.
      chain (online env agent) _ (online-Keeping env agent) λ _.
        chain (try (env.fault find_call) "find video call: ") _ (try-Keeps WorldMoves same _ _)
          λ _ w.
            chain (need (find_by_queue_id id w.calls) onboarding_not_found) _
              (need-Keeps WorldMoves same _ _)
              (λ c.
                chain (refuse (not (is_waiting c.status)) video_call_not_active) _
                  (refuse-Keeps WorldMoves same _ _)
                  λ _.
                    chain (refuse _ video_call_already_taken) (λ _. give c)
                      (refuse-Keeps WorldMoves same _ _) (λ _ x. same x))
              w

take_up-Keeping : (env : Env) (id : ℕ) (agent name : String) → Keeping (take_up env id agent name)
unfolding take_up
take_up-Keeping env id agent name =
    chain (try (env.fault mark_active) "mark video call active: ") _ (try-Keeps WorldMoves same _ _)
      λ _ w.
        chain (refuse (not (waits (find_by_queue_id id w.calls))) _) _
          (refuse-Keeps WorldMoves same _ _)
          (λ _ x.
            Moves_trans
              (change_call-Moves (take_call env.now agent name) id x.calls
                (take_call-Moved env.now agent name))
              (chain (try (env.fault mint_token) "generate signaling token: ")
                (λ _. remove_queued env id) (try-Keeps WorldMoves same _ _)
                (λ _. remove_queued-Keeping env id)
                (record x { calls = change_call (take_call env.now agent name) id x.calls })))
          w

pub agent_signaling_url-Keeping :
    (env : Env) (id : ℕ) (agent name : String) → Keeping (agent_signaling_url env id agent name)
unfolding agent_signaling_url
agent_signaling_url-Keeping env id agent name =
    chain (check_pick_up env id agent) _ (check_pick_up-Keeping env id agent) λ c.
      chain (take_up env id agent name) (λ _. give c) (take_up-Keeping env id agent name)
        (λ _ w. same w)
