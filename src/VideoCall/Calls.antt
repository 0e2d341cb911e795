-- ===== src/VideoCall/Calls.antt =====
-- The table onboarding_video_calls (internal/repository/postgres/onboarding_repo.go), the sorted set of
-- the queue (internal/repository/redis/onboarding_cache.go) and the open escalations. The id of a queue
-- entry is UNIQUE, so that a statement on it is about the first row that has it.
use bca_mobile_api.Common.{
  ℕ, ◌+◌, String, Bool, true, false, ◌&&◌, ◌||◌, Option, none, some, List, [], ◌∷◌, ◌==◌, ltb,
  str_eq, if◌then◌else◌,
}
use bca_mobile_api.Onboarding.Session.{World}

pub data Status : Type 0 where
  queued active completed cancelled : Status

pub data CallResult : Type 0 where
  approved rejected need_review : CallResult

pub record VideoCall : Type 0 where
  pub queue_id : ℕ
  pub session_id : String
  pub status : Status
  pub agent_employee_id : String
  pub agent_name : String
  pub result : Option CallResult
  pub joined_at : ℕ
  pub started_at : Option ℕ
  pub ended_at : Option ℕ

pub record Member : Type 0 where
  pub member : ℕ
  pub score : ℕ

pub record Escalation : Type 0 where
  pub session : String
  pub queue : ℕ
  pub raised_by : String
  pub is_pending : Bool

pub record CallWorld : Type 0 where
  pub calls : List VideoCall
  pub queue : List Member
  pub escalations : List Escalation
  pub onboarding : World

abbrev pub is_active : Status → Bool
is_active active = true
is_active _ = false

abbrev pub is_completed : Status → Bool
is_completed completed = true
is_completed _ = false

-- `status IN ('QUEUED', 'ACTIVE')`
abbrev pub is_waiting : Status → Bool
is_waiting queued = true
is_waiting active = true
is_waiting _ = false

unfoldable pub find_by_queue_id : ℕ → List VideoCall → Option VideoCall
find_by_queue_id id [] = none
find_by_queue_id id (c ∷ cs) =
    let later = find_by_queue_id id cs in if c.queue_id == id then some c else later

abbrev pub newer : VideoCall → Option VideoCall → Option VideoCall
newer c none = some c
newer c (some d) = if ltb c.joined_at d.joined_at then some d else some c

-- The newest call of the session.
unfoldable pub find_by_session_id : String → List VideoCall → Option VideoCall
find_by_session_id key [] = none
find_by_session_id key (c ∷ cs) =
    let later = find_by_session_id key cs in
    if str_eq c.session_id key then newer c later else later

unfoldable pub change_call : (VideoCall → VideoCall) → ℕ → List VideoCall → List VideoCall
change_call f id [] = []
change_call f id (c ∷ cs) =
    let later = change_call f id cs in if c.queue_id == id then f c ∷ cs else c ∷ later

abbrev pub or_old : String → String → String
or_old new old = if str_eq new "" then old else new

abbrev pub or_time : Option ℕ → ℕ → Option ℕ
or_time none t = some t
or_time (some s) t = some s

-- MarkActive
abbrev pub take_call : ℕ → String → String → VideoCall → VideoCall
take_call now agent name c =
    if is_waiting c.status
    then record c {
      status = active;
      agent_employee_id = or_old agent c.agent_employee_id;
      agent_name = or_old name c.agent_name;
      started_at = or_time c.started_at now;
    }
    else c

-- Cancel
abbrev pub cancel_call : ℕ → VideoCall → VideoCall
cancel_call now c =
    if is_waiting c.status
    then record c { status = cancelled; ended_at = or_time c.ended_at now }
    else c

-- UpdateResult
abbrev pub complete_call : ℕ → CallResult → String → String → VideoCall → VideoCall
complete_call now r agent name c = record c {
  status = completed;
  result = some r;
  agent_employee_id = or_old c.agent_employee_id agent;
  agent_name = or_old name c.agent_name;
  ended_at = some now;
}

-- `RowsAffected() > 0` of MarkActive and of Cancel.
abbrev pub waits : Option VideoCall → Bool
waits none = false
waits (some c) = is_waiting c.status

unfoldable pub has_waiting : String → List VideoCall → Bool
has_waiting key [] = false
has_waiting key (c ∷ cs) = str_eq c.session_id key && is_waiting c.status || has_waiting key cs

-- ZADD, ZREM and ZRANK, in the order of the scores.
unfoldable pub remove_member : ℕ → List Member → List Member
remove_member id [] = []
remove_member id (m ∷ ms) =
    let later = remove_member id ms in if m.member == id then later else m ∷ later

unfoldable pub insert_member : Member → List Member → List Member
insert_member m [] = m ∷ []
insert_member m (n ∷ ns) =
    let later = insert_member m ns in if ltb m.score n.score then m ∷ n ∷ ns else n ∷ later

abbrev pub next_position : ℕ → ℕ
next_position n = if n == 0 then 0 else n + 1

unfoldable pub position : ℕ → List Member → ℕ
position id [] = 0
position id (m ∷ ms) =
    let later = position id ms in if m.member == id then 1 else next_position later

unfoldable pub has_open_escalation : String → List Escalation → Bool
has_open_escalation key [] = false
has_open_escalation key (e ∷ es) =
    str_eq e.session key && e.is_pending || has_open_escalation key es
