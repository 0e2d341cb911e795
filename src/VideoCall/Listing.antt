-- ===== src/VideoCall/Listing.antt =====
-- internal/domain/onboarding/video_call_service.go: ListQueued.
use bca_mobile_api.Common.{
  ℕ, ◌-◌, String, Bool, true, Option, none, some, List, [], ◌∷◌, suc, if◌then◌else◌, ok,
}
use bca_mobile_api.Common.State.{Action, ◌>>=◌, ◌>>◌, give, read, try}
use bca_mobile_api.Onboarding.Session.{Session, find_row, is_expired, Env as SessionEnv}
use bca_mobile_api.VideoCall.Calls.{Status, Member, VideoCall, CallWorld, find_by_queue_id}
use bca_mobile_api.VideoCall.Service.{
  Env, find_call, list_queue, find_session, remove_queued, release_call,
}

-- An entry of the list for the agents. Its priority follows from the time waited and is left out.
pub record QueuedCall : Type 0 where
  pub queue_id : ℕ
  pub session_id : String
  pub place : ℕ
  pub waited_seconds : ℕ
  pub status : Status

abbrev pub entry : Env → ℕ → VideoCall → QueuedCall
entry env n c = record {
  queue_id = c.queue_id;
  session_id = c.session_id;
  place = n;
  waited_seconds = env.now - c.joined_at;
  status = c.status;
}

-- The session of a call was cancelled, never was, or has expired.
abbrev pub is_gone : SessionEnv → Option Session → Bool
is_gone env none = true
is_gone env (some s) = is_expired env s

-- What becomes of a member of the queue: a call that stays, or nothing.
unfoldable pub keep_found : Env → ℕ → Option VideoCall → Action CallWorld (Option VideoCall)
unfolding remove_queued release_call find_row
keep_found env id none = remove_queued env id >> give none
keep_found env id (some c) = elim (env.fault find_session) [
  | some e ↦ give (some c)
  | none ↦ λ w.
      if is_gone env.session_env (find_row c.session_id w.onboarding.rows)
      then (release_call env c >> give none) w
      else (ok (some c), w)
]

unfoldable pub keep_member : Env → ℕ → Action CallWorld (Option VideoCall)
unfolding find_by_queue_id keep_found
keep_member env id = do
  try (env.fault find_call) "find video call: "
  found ← read (λ w. find_by_queue_id id w.calls)
  keep_found env id found

-- The rest of the list after a member that is dropped, or that stays at a place.
abbrev pub after_member :
    Env
    → ℕ
    → Action CallWorld (List QueuedCall)
    → Action CallWorld (List QueuedCall)
    → Option VideoCall
    → Action CallWorld (List QueuedCall)
after_member env n dropped stays none = dropped
after_member env n dropped stays (some c) = stays >>= λ rest. give (entry env n c ∷ rest)

-- The loop, after n calls that stay.
unfoldable pub list_members : Env → ℕ → List Member → Action CallWorld (List QueuedCall)
unfolding keep_member
list_members env n [] = give []
list_members env n (m ∷ ms) = keep_member env m.member >>= λ kept.
    after_member env (suc n) (list_members env n ms) (list_members env (suc n) ms) kept

unfoldable pub list_queued : Env → Action CallWorld (List QueuedCall)
unfolding list_members
list_queued env = do
  try (env.fault list_queue) "list queue: "
  members ← read (λ w. w.queue)
  list_members env 0 members
