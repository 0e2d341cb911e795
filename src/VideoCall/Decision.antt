-- ===== src/VideoCall/Decision.antt =====
-- internal/domain/onboarding/video_call_service.go: which agent has a call.
use bca_mobile_api.Common.{
  ℕ, ◌≡◌, ◌≢◌, refl, sym, ap, ◌∙◌, String, Bool, true, false, not, ◌&&◌, Option, none, eq_iff,
  Cause, failed, some, List, [], ◌∷◌, ◌==◌, str_eq, Bool-cases, Option-cases, inl, inr, Result, ok,
  err, wrapped, validation_error, onboarding_not_found, video_call_not_active,
  video_call_already_taken,
}
use bca_mobile_api.Common.State.{refuse, need, try}
use bca_mobile_api.VideoCall.Calls.{
  VideoCall, CallWorld, is_active, is_waiting, find_by_queue_id, change_call, take_call, waits,
}
use bca_mobile_api.VideoCall.Service.{
  Env, remove_queued, online, check_pick_up, take_up, agent_signaling_url, queue_remove,
  mark_active, find_call, mint_token,
}
use bca_mobile_api.Common.State.{>>=-IsBound, same_step, refuse_passed, need_passed, try_passed}

find_by_queue_id-change_call :
    (f : VideoCall → VideoCall) (id : ℕ) (cs : List VideoCall) (c : VideoCall)
    → (f c).queue_id ≡ c.queue_id
    → find_by_queue_id id cs ≡ some c
    → find_by_queue_id id (change_call f id cs) ≡ some (f c)
unfolding find_by_queue_id change_call
find_by_queue_id-change_call f id [] c k h = cc
find_by_queue_id-change_call f id (x ∷ xs) c k h = elim (Bool-cases (x.queue_id == id)) [
  | inl e ↦
      let here : x ≡ c = some_call (rw e at h) in
      let kept : ((f x).queue_id == id) ≡ true = rw here (rw k (rw here at e)) in
      rw e (rw kept (ap (λ y. some (f y)) here))
  | inr e ↦ rw e (rw e (find_by_queue_id-change_call f id xs c k (rw e at h)))
]
  where
    some_call : {y z : VideoCall} → some y ≡ some z → y ≡ z
    some_call h = cc

take_call-queue_id :
    (now : ℕ) (agent name : String) (c : VideoCall)
    → (take_call now agent name c).queue_id ≡ c.queue_id
take_call-queue_id now agent name c = elim (Bool-cases (is_waiting c.status)) [
  | inl e ↦ rw e refl
  | inr e ↦ rw e refl
]

-- `remove_queued` always succeeds and leaves the calls alone.
remove_queued_result :
    (env : Env) (id : ℕ) (w : CallWorld)
    → ((remove_queued env id w).0 ≡ ok tt) × ((remove_queued env id w).1.calls ≡ w.calls)
unfolding remove_queued
remove_queued_result env id w = elim (Option-cases (env.fault queue_remove)) [
  | inl e ↦ rw e (refl, refl)
  | inr (x, e) ↦ rw e (refl, refl)
]

take_up_result :
    (env : Env) (id : ℕ) (agent name : String) (c : VideoCall) (w : CallWorld)
    → env.fault mark_active ≡ none
    → env.fault mint_token ≡ none
    → find_by_queue_id id w.calls ≡ some c
    → is_waiting c.status ≡ true
    → ((take_up env id agent name w).0 ≡ ok tt)
      × (find_by_queue_id id (take_up env id agent name w).1.calls
          ≡ some (take_call env.now agent name c))
unfolding take_up
take_up_result env id agent name c w a b found waiting =
    let next : CallWorld = record w {
      calls = change_call (take_call env.now agent name) id w.calls;
    } in
    let (r, s) = remove_queued_result env id next in
    let there =
      find_by_queue_id-change_call (take_call env.now agent name) id w.calls c
        (take_call-queue_id env.now agent name c) found in
    rw (a, b, take_up)
      (rw found (rw waiting (r, rw waiting at (ap (λ cs. find_by_queue_id id cs) s ∙ there))))

try_fault :
    (o : Option Cause) (prefix : String) {u : Unit {0}} (w : CallWorld) {v : CallWorld}
    → try o prefix w ≡ (ok u, v)
    → o ≡ none
try_fault none prefix w h = refl
try_fault (some e) prefix {u} w h =
    let bad : err (wrapped prefix e) ≡ ok u = ap (λ (p : Result (Unit {0}) × CallWorld). p.0) h in
    cc

take_up_faults :
    (env : Env) (id : ℕ) (agent name : String) (w : CallWorld) {r : Unit {0}} {v : CallWorld}
    → take_up env id agent name w ≡ (ok r, v)
    → (env.fault mark_active ≡ none) × (env.fault mint_token ≡ none)
unfolding take_up
take_up_faults env id agent name w {r} h =
    let b₁ = >>=-IsBound (try (env.fault mark_active) "mark video call active: ") _ w h in
    let b₂ =
      >>=-IsBound
        (refuse (not (waits (find_by_queue_id id b₁.middle.calls)))
          (wrapped "mark video call active: " failed))
        _ b₁.middle b₁.rest in
    let b₃ =
      >>=-IsBound (try (env.fault mint_token) "generate signaling token: ") _
        (record b₂.middle { calls = change_call (take_call env.now agent name) id b₂.middle.calls })
        b₂.rest in
    (
      try_fault (env.fault mark_active) "mark video call active: " w b₁.outcome,
      try_fault (env.fault mint_token) "generate signaling token: " _ b₃.outcome,
    )

-- What a pick-up has checked.
record IsFree (id : ℕ) (agent : String) (c : VideoCall) (w : CallWorld) : Type 0 where
  named : str_eq agent "" ≡ false
  found : find_by_queue_id id w.calls ≡ some c
  waiting : is_waiting c.status ≡ true
  untaken :
      (is_active c.status
        && (not (str_eq c.agent_employee_id "") && not (str_eq c.agent_employee_id agent)))
      ≡ false

is_true : (b : Bool) → not b ≡ false → b ≡ true
is_true true h = refl
is_true false h = cc

online_passed :
    (env : Env) (agent : String) {u : Unit {0}} {w v : CallWorld}
    → online env agent w ≡ (ok u, v)
    → w ≡ v
online_passed env agent {u} h = elim (Option-cases (env.terminal agent)) [
  | inl e ↦ (same_step (rw (e, online) at h)).1
  | inr (x, e) ↦
      let bad : err x ≡ ok u =
        ap (λ (r : Result (Unit {0}) × CallWorld). r.0) (rw (e, online) at h) in
      cc
]

check_pick_up_passed :
    (env : Env) (id : ℕ) (agent : String) {c : VideoCall} (w : CallWorld) {v : CallWorld}
    → check_pick_up env id agent w ≡ (ok c, v)
    → IsFree id agent c w × (w ≡ v)
unfolding check_pick_up
check_pick_up_passed env id agent {c} w {v} h =
    let b₁ = >>=-IsBound (refuse (str_eq agent "") validation_error) _ w h in
    let (a₁, e₁) = refuse_passed (str_eq agent "") validation_error b₁.outcome in
    let b₂ = >>=-IsBound (online env agent) _ b₁.middle b₁.rest in
    let e₂ = online_passed env agent b₂.outcome in
    let b₃ = >>=-IsBound (try (env.fault find_call) "find video call: ") _ b₂.middle b₂.rest in
    let e₃ = try_passed (env.fault find_call) "find video call: " b₃.outcome in
    let b₄ =
      >>=-IsBound (need (find_by_queue_id id b₃.middle.calls) onboarding_not_found) _ b₃.middle
        b₃.rest in
    let (a₄, e₄) =
      need_passed (find_by_queue_id id b₃.middle.calls) onboarding_not_found b₄.outcome in
    let d = b₄.value in
    let b₅ =
      >>=-IsBound (refuse (not (is_waiting d.status)) video_call_not_active) _ b₄.middle b₄.rest in
    let (a₅, e₅) = refuse_passed (not (is_waiting d.status)) video_call_not_active b₅.outcome in
    let b₆ =
      >>=-IsBound
        (refuse
          (is_active d.status
            && (not (str_eq d.agent_employee_id "") && not (str_eq d.agent_employee_id agent)))
          video_call_already_taken)
        _ b₅.middle b₅.rest in
    let (a₆, e₆) =
      refuse_passed
        (is_active d.status
          && (not (str_eq d.agent_employee_id "") && not (str_eq d.agent_employee_id agent)))
        video_call_already_taken b₆.outcome in
    let (q, e₇) = same_step b₆.rest in
    let read_at : w ≡ b₃.middle = e₁ ∙ e₂ ∙ e₃ in
    let free : IsFree id agent d w = record {
      named = a₁;
      found = ap (λ x. find_by_queue_id id x.calls) read_at ∙ a₄;
      waiting = is_true _ a₅;
      untaken = a₆;
    } in
    (rw q at free, read_at ∙ e₄ ∙ e₅ ∙ e₆ ∙ e₇)

taken : VideoCall → String → Bool
taken c agent =
    is_active c.status
    && (not (str_eq c.agent_employee_id "") && not (str_eq c.agent_employee_id agent))

taken-take_call :
    (now : ℕ) (agent name other : String) (c : VideoCall)
    → is_waiting c.status ≡ true
    → str_eq agent "" ≡ false
    → str_eq agent other ≡ false
    → taken (take_call now agent name c) other ≡ true
unfolding taken
taken-take_call now agent name other c a b d = rw a (rw b (rw b (rw d refl)))

-- An agent who picks up a call has it alone: whoever else tries to pick it up afterwards, at any time and
-- under any name, fails.
pub agent_signaling_url-exclusive :
    (env later : Env) (id : ℕ) (agent name other alias : String) (c d : VideoCall)
    (w v u : CallWorld)
    → str_eq agent other ≡ false
    → agent_signaling_url env id agent name w ≡ (ok c, v)
    → agent_signaling_url later id other alias v ≢ (ok d, u)
unfolding agent_signaling_url taken
agent_signaling_url-exclusive env later id agent name other alias c d w v u apart h again =
    let b₁ = >>=-IsBound (check_pick_up env id agent) _ w h in
    let (free, e₁) = check_pick_up_passed env id agent w b₁.outcome in
    let b₂ = >>=-IsBound (take_up env id agent name) _ b₁.middle b₁.rest in
    let (marks, mints) = take_up_faults env id agent name b₁.middle b₂.outcome in
    let (r, there) =
      take_up_result env id agent name b₁.value w marks mints free.found free.waiting in
    let left : (take_up env id agent name w).1 ≡ v =
      ap (λ x. (take_up env id agent name x).1) e₁
      ∙ ap (λ (x : Result (Unit {0}) × CallWorld). x.1) b₂.outcome
      ∙ (same_step b₂.rest).1 in
    let b₃ = >>=-IsBound (check_pick_up later id other) _ v again in
    let (next, e₃) = check_pick_up_passed later id other v b₃.outcome in
    let which : take_call env.now agent name b₁.value ≡ b₃.value =
      some_call (sym there ∙ ap (λ x. find_by_queue_id id x.calls) left ∙ next.found) in
    let full = taken-take_call env.now agent name other b₁.value free.waiting free.named apart in
    let bad : true ≡ false = sym full ∙ ap (λ x. taken x other) which ∙ next.untaken in cc
  where
    some_call : {y z : VideoCall} → some y ≡ some z → y ≡ z
    some_call h = cc

take_call-agent :
    (now : ℕ) (agent name : String) (c : VideoCall)
    → is_waiting c.status ≡ true
    → str_eq agent "" ≡ false
    → ((take_call now agent name c).agent_employee_id ≡ agent)
      × (is_active (take_call now agent name c).status ≡ true)
take_call-agent now agent name c waiting named = rw waiting (rw named (refl, refl))

-- What two agents who both took a call were told, and who has it.
pub record IsTakenTwice (env later : Env) (id : ℕ) (agent name other alias : String) (w : CallWorld)
    : Type 0 where
  pub first_ok : (take_up env id agent name w).0 ≡ ok tt
  pub second_ok : (take_up later id other alias (take_up env id agent name w).1).0 ≡ ok tt
  pub call : VideoCall
  pub stored :
      find_by_queue_id id (take_up later id other alias (take_up env id agent name w).1).1.calls
      ≡ some call
  pub in_progress : is_active call.status ≡ true
  pub has_second : call.agent_employee_id ≡ other
  pub lost : call.agent_employee_id ≢ agent

-- The checks and the writes of AgentSignalingURL are not one step: if two different agents both pass the
-- checks on a call before either of them writes, and no write or token fails, then both are told that
-- the call is theirs, and the call is an active one that has the second agent and not the first.
pub take_up-take_up :
    (env later : Env) (id : ℕ) (agent name other alias : String) (c d : VideoCall)
    (w v u : CallWorld)
    → str_eq agent other ≡ false
    → check_pick_up env id agent w ≡ (ok c, v)
    → check_pick_up later id other w ≡ (ok d, u)
    → env.fault mark_active ≡ none
    → env.fault mint_token ≡ none
    → later.fault mark_active ≡ none
    → later.fault mint_token ≡ none
    → IsTakenTwice env later id agent name other alias w
take_up-take_up env later id agent name other alias c d w v u apart checked checked_too a b a' b' =
    let (free, _) = check_pick_up_passed env id agent w checked in
    let (too, _) = check_pick_up_passed later id other w checked_too in
    let (r, there) = take_up_result env id agent name c w a b free.found free.waiting in
    let once = take_call env.now agent name c in
    let still : is_waiting once.status ≡ true = rw free.waiting refl in
    let (s, at_last) = take_up_result later id other alias once _ a' b' there still in
    let (whose, live) = take_call-agent later.now other alias once still too.named in
    record {
      first_ok = r;
      second_ok = s;
      call = take_call later.now other alias once;
      stored = at_last;
      in_progress = live;
      has_second = whose;
      lost = λ e.
          let same : str_eq agent other ≡ true =
            ap (λ x. str_eq agent x) (sym whose ∙ e) ∙ (eq_iff agent agent).1 refl in
          let bad : false ≡ true = sym apart ∙ same in cc;
    }
