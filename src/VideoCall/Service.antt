-- ===== src/VideoCall/Service.antt =====
-- internal/domain/onboarding/video_call_service.go: JoinQueue, AgentSignalingURL, SubmitResult and
-- CancelForSession. `Env` is what stands outside: the clock, what fails, the random ids and the terminals.
-- Notifications, the tokens of a customer, audit records, notes and recordings are left out.
use bca_mobile_api.Common.{
  ℕ, ◌-◌, ◌*◌, String, Bool, true, false, not, ◌&&◌, ◌||◌, Option, none, some, is_some, ◌∷◌, ◌==◌,
  ltb, leb, str_eq, if◌then◌else◌, Error, Cause, failed, Result, ok, err, wrapped, validation_error,
  onboarding_not_found, onboarding_invalid_step, video_call_not_active, video_call_agent_mismatch,
  video_call_already_taken, video_call_under_review, video_call_outside_hours,
  provider_not_configured,
}
use bca_mobile_api.Common.State.{
  Action, ◌>>=◌, ◌>>◌, give, fail, refuse, read, modify, need, try, try_change,
}
use bca_mobile_api.Onboarding.Steps.{Step, video_call, credentials, can_transition}
use bca_mobile_api.Onboarding.Session.{Session, World, resolve_session, advance, Env as SessionEnv}
use bca_mobile_api.VideoCall.Calls.{
  queued, CallResult, approved, rejected, need_review, VideoCall, Escalation, CallWorld, is_active,
  is_completed, is_waiting, find_by_queue_id, find_by_session_id, change_call, take_call,
  cancel_call, complete_call, waits, has_waiting, remove_member, insert_member, position,
  has_open_escalation,
}

pub data Call : Type 0 where
  find_escalation find_call cancel_row count_day insert_call queue_add queue_remove mark_active
        update_result :
      Call
  create_escalation mint_token list_queue find_session : Call

pub record Env : Type 0 where
  pub now : ℕ
  pub jakarta_hour : Option ℕ
  pub fault : Call → Option Cause
  pub session_env : SessionEnv
  pub new_queue_id : ℕ
  pub has_escalations : Bool
  pub terminal : String → Option Error

abbrev pub active_call_max_age : ℕ
active_call_max_age = 15 * 60

abbrev pub or_joined : Option ℕ → ℕ → ℕ
or_joined none t = t
or_joined (some s) t = s

abbrev pub is_stale : ℕ → VideoCall → Bool
is_stale now c = ltb active_call_max_age (now - or_joined c.started_at c.joined_at)

-- WithinOperatingHours; a missing time zone allows.
abbrev pub within_hours : Option ℕ → Bool
within_hours none = true
within_hours (some h) = leb 6 h && ltb h 22

abbrev pub is_video_call : Step → Bool
is_video_call video_call = true
is_video_call _ = false

abbrev pub lift : Result (Session × World) → CallWorld → Result Session × CallWorld
lift (err e) w = (err e, w)
lift (ok (s, o)) w = (ok s, record w { onboarding = o })

abbrev pub resolve : Env → String → Action CallWorld Session
resolve env key = λ w. lift (resolve_session env.session_env key w.onboarding) w

unfoldable pub remove_queued : Env → ℕ → Action CallWorld (Unit {0})
unfolding remove_member
remove_queued env id =
    try_change (env.fault queue_remove) (λ w. record w { queue = remove_member id w.queue })

-- `Cancel` of the repository, which reports whether a row was cancelled.
unfoldable pub cancel_row_of : Env → ℕ → Action CallWorld Bool
unfolding find_by_queue_id change_call
cancel_row_of env id = do
  released ← read (λ w. waits (find_by_queue_id id w.calls))
  modify (λ w. record w { calls = change_call (cancel_call env.now) id w.calls })
  give released

-- The call and, where its row was cancelled, its member of the queue.
unfoldable pub cancel_and_remove : Env → ℕ → Action CallWorld (Unit {0})
unfolding cancel_row_of remove_queued
cancel_and_remove env id = do
  released ← cancel_row_of env id
  if released then remove_queued env id else give tt

-- The call that still stands in the way of a new ticket, once a stale one is released.
unfoldable pub release_stale : Env → VideoCall → Action CallWorld (Option VideoCall)
unfolding cancel_and_remove
release_stale env c =
    if is_active c.status && is_stale env.now c
    then (do
      try (env.fault cancel_row) "release stale video call: "
      cancel_and_remove env c.queue_id
      give none)
    else give (some c)

unfoldable pub standing_call : Env → Option VideoCall → Action CallWorld (Option VideoCall)
unfolding release_stale
standing_call env none = give none
standing_call env (some c) = release_stale env c

abbrev pub ticket_of : Env → String → VideoCall
ticket_of env key = record {
  queue_id = env.new_queue_id;
  session_id = key;
  status = queued;
  agent_employee_id = "";
  agent_name = "";
  result = none;
  joined_at = env.now;
  started_at = none;
  ended_at = none;
}

-- A new ticket; the unique index on waiting calls of a session refuses a second one.
unfoldable pub new_ticket : Env → String → Action CallWorld (ℕ × ℕ)
unfolding has_waiting insert_member position
new_ticket env key = do
  try (env.fault count_day) "incr queue counter: "
  try (env.fault insert_call) "create video call: "
  taken ← read (λ w. has_waiting key w.calls || is_some (find_by_queue_id env.new_queue_id w.calls))
  refuse taken (wrapped "create video call: " (Cause.pg_error "23505"))
  modify (λ w. record w { calls = ticket_of env key ∷ w.calls })
  try (env.fault queue_add) "add to queue: "
  modify (λ w. record w {
    queue = insert_member (record { member = env.new_queue_id; score = env.now }) w.queue;
  })
  place ← read (λ w. position env.new_queue_id w.queue)
  give (env.new_queue_id, place)

unfoldable pub put_back : Env → VideoCall → Bool → Action CallWorld (Unit {0})
unfolding insert_member
put_back env c false = give tt
put_back env c true = try_change (env.fault queue_add) (λ w. record w {
  queue = insert_member (record { member = c.queue_id; score = c.joined_at }) w.queue;
})

-- The ticket that the session has; a queued one that the sorted set lost is put back.
unfoldable pub old_ticket : Env → VideoCall → Action CallWorld (ℕ × ℕ)
unfolding put_back position
old_ticket env c = do
  place ← read (λ w. position c.queue_id w.queue)
  put_back env c (place == 0 && not (is_active c.status))
  again ← read (λ w. position c.queue_id w.queue)
  give (c.queue_id, again)

unfoldable pub ticket : Env → String → Option VideoCall → Action CallWorld (ℕ × ℕ)
unfolding new_ticket old_ticket
ticket env key none = new_ticket env key
ticket env key (some c) = if is_waiting c.status then old_ticket env c else new_ticket env key

unfoldable pub join_queue : Env → String → Action CallWorld (ℕ × ℕ)
unfolding has_open_escalation find_by_session_id standing_call ticket
join_queue env key = do
  s ← resolve env key
  refuse (not (is_video_call s.current_step)) onboarding_invalid_step
  try (env.fault find_escalation) "check open escalation: "
  reviewed ← read (λ w. has_open_escalation key w.escalations)
  refuse (env.has_escalations && reviewed) video_call_under_review
  refuse (not (within_hours env.jakarta_hour)) video_call_outside_hours
  try (env.fault find_call) "check existing queue: "
  found ← read (λ w. find_by_session_id key w.calls)
  standing ← standing_call env found
  ticket env key standing

abbrev pub online : Env → String → Action CallWorld (Unit {0})
online env agent = elim (env.terminal agent) [ none ↦ give tt | some e ↦ fail e ]

-- The checks of AgentSignalingURL on the call that was read.
unfoldable pub check_pick_up : Env → ℕ → String → Action CallWorld VideoCall
unfolding find_by_queue_id
check_pick_up env id agent = do
  refuse (str_eq agent "") validation_error
  online env agent
  try (env.fault find_call) "find video call: "
  found ← read (λ w. find_by_queue_id id w.calls)
  c ← need found onboarding_not_found
  refuse (not (is_waiting c.status)) video_call_not_active
  refuse
      (is_active c.status
        && (not (str_eq c.agent_employee_id "") && not (str_eq c.agent_employee_id agent)))
      video_call_already_taken
  give c

-- Its writes, and the token that it issues between them.
unfoldable pub take_up : Env → ℕ → String → String → Action CallWorld (Unit {0})
unfolding find_by_queue_id change_call remove_queued
take_up env id agent name = do
  try (env.fault mark_active) "mark video call active: "
  there ← read (λ w. waits (find_by_queue_id id w.calls))
  refuse (not there) (wrapped "mark video call active: " failed)
  modify (λ w. record w { calls = change_call (take_call env.now agent name) id w.calls })
  try (env.fault mint_token) "generate signaling token: "
  remove_queued env id

unfoldable pub agent_signaling_url : Env → ℕ → String → String → Action CallWorld VideoCall
unfolding check_pick_up take_up
agent_signaling_url env id agent name = do
  c ← check_pick_up env id agent
  take_up env id agent name
  give c

pub record SubmitRequest : Type 0 where
  pub queue_id : ℕ
  pub session_id : String
  pub result : CallResult
  pub is_valid : Bool

abbrev pub advanced : Result World → CallWorld → Result Step × CallWorld
advanced (err e) w = (err e, w)
advanced (ok o) w = (ok credentials, record w { onboarding = o })

unfoldable pub move_on : Env → String → Session → Action CallWorld Step
unfolding can_transition advance
move_on env key s = λ w.
    if can_transition s.current_step credentials
    then advanced (advance env.session_env key credentials s w.onboarding) w
    else (ok s.current_step, w)

-- The step after a decision: an approval moves the session on, where that is allowed.
unfoldable pub approve : Env → String → Action CallWorld Step
unfolding move_on
approve env key = do s ← resolve env key; move_on env key s

unfoldable pub raise : Env → SubmitRequest → String → Action CallWorld (Unit {0})
raise env q agent = do
  try (env.fault create_escalation) "create escalation: "
  let e : Escalation = record {
    session = q.session_id;
    queue = q.queue_id;
    raised_by = agent;
    is_pending = true;
  }
  modify (λ w. record w { escalations = e ∷ w.escalations })

unfoldable pub decide : Env → SubmitRequest → String → CallResult → Action CallWorld Step
unfolding approve raise
decide env q agent approved = approve env q.session_id
decide env q agent rejected = give video_call
decide env q agent need_review = do raise env q agent; give video_call

-- SubmitResult of a call that is not completed.
unfoldable pub record_result : Env → SubmitRequest → String → VideoCall → Action CallWorld Step
unfolding change_call remove_queued decide
record_result env q agent c = do
  refuse (not (is_active c.status)) video_call_not_active
  refuse (not (str_eq c.agent_employee_id "") && not (str_eq c.agent_employee_id agent))
      video_call_agent_mismatch
  try (env.fault update_result) "update video call result: "
  modify (λ w. record w {
    calls = change_call (complete_call env.now q.result agent c.agent_name) q.queue_id w.calls;
  })
  remove_queued env q.queue_id
  decide env q agent q.result

abbrev pub is_review : CallResult → Bool
is_review need_review = true
is_review _ = false

-- A completed call answers with what is stored.
unfoldable pub answer : Env → SubmitRequest → String → VideoCall → Action CallWorld Step
unfolding record_result
answer env q agent c =
    if is_completed c.status
    then resolve env q.session_id >>= (λ s. give s.current_step)
    else record_result env q agent c

-- `is_valid` stands for the checks of the reason of a rejection, of the notes and of the escalation queue.
unfoldable pub submit_result : Env → SubmitRequest → String → Action CallWorld Step
unfolding find_by_queue_id answer
submit_result env q agent = do
  try (env.fault find_call) "find video call: "
  found ← read (λ w. find_by_queue_id q.queue_id w.calls)
  c ← need found onboarding_not_found
  refuse (not (str_eq c.session_id q.session_id)) validation_error
  refuse (str_eq agent "") validation_error
  refuse (is_review q.result && not env.has_escalations) provider_not_configured
  refuse (not q.is_valid) validation_error
  answer env q agent c

-- releaseCall
unfoldable pub release_call : Env → VideoCall → Action CallWorld (Unit {0})
unfolding cancel_and_remove
release_call env c = elim (env.fault cancel_row) [
  | some e ↦ give tt
  | none ↦ cancel_and_remove env c.queue_id
]

unfoldable pub release_waiting : Env → Option VideoCall → Action CallWorld (Unit {0})
unfolding release_call
release_waiting env none = give tt
release_waiting env (some c) = if is_waiting c.status then release_call env c else give tt

unfoldable pub cancel_for_session : Env → String → Action CallWorld (Unit {0})
unfolding find_by_session_id release_waiting
cancel_for_session env key = do
  try (env.fault find_call) "find video call by session: "
  found ← read (λ w. find_by_session_id key w.calls)
  release_waiting env found
