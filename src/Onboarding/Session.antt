-- ===== src/Onboarding/Session.antt =====
-- internal/domain/onboarding/session_service.go over the table onboarding_sessions
-- (internal/repository/postgres/onboarding_repo.go) and the cache
-- (internal/repository/redis/onboarding_cache.go). Times are seconds. `Env` is what stands outside:
-- the clock, the statements that the database refuses, whether the cache answers, and the random ids.
-- The audit trail and the video calls are not modelled.
use bca_mobile_api.Common.{
  ℕ, String, Bool, false, not, ◌&&◌, ◌||◌, Option, none, some, is_some, List, [], ◌∷◌, ltb, str_eq,
  if◌then◌else◌, Cause, Result, ok, err, ◌>>=◌, ◌>>◌, refuse, wrapped, onboarding_session_expired,
  onboarding_not_found, onboarding_invalid_step, onboarding_device_mismatch,
}
use bca_mobile_api.Onboarding.Steps.{Step, can_transition, StepsCompleted, complete}

pub record Session : Type 0 where
  pub id : ℕ
  pub session_id : String
  pub device_id : String
  pub product_type : String
  pub current_step : Step
  pub tnc_version : String
  pub steps_completed : StepsCompleted
  pub created_at : ℕ
  pub updated_at : ℕ
  pub expires_at : ℕ
  pub deleted_at : Option ℕ
  pub card_type : String
  pub card_selected_at : Option ℕ
  pub card_catalog_version : String
  pub product_catalog_version : String
  pub min_initial_deposit_shown : ℕ

pub data Call : Type 0 where
  count_sessions insert_session find_session update_step soft_delete : Call

pub record Env : Type 0 where
  pub fault : Call → Option Cause
  pub now : ℕ
  pub cache_reads : Bool
  pub cache_writes : Bool
  pub new_id : ℕ
  pub short_id : Option String

-- The cache has the newest entry of a key first.
pub record World : Type 0 where
  pub rows : List Session
  pub cache : List Session

unfoldable pub call : Env → Call → String → Result (Unit {0})
call env c prefix = elim (env.fault c) [ none ↦ ok tt | some x ↦ err (wrapped prefix x) ]

abbrev pub is_live : String → Session → Bool
is_live key s = str_eq s.session_id key && not (is_some s.deleted_at)

unfoldable pub find_key : String → List Session → Option Session
find_key key [] = none
find_key key (s ∷ ss) = if str_eq s.session_id key then some s else find_key key ss

-- `Get`: an entry lives until its session expires.
unfoldable pub cache_get : Env → String → World → Option Session
unfolding find_key
cache_get env key w =
    if env.cache_reads
    then elim (find_key key w.cache) [
      | none ↦ none
      | some s ↦ if ltb env.now s.expires_at then some s else none
    ]
    else none

-- toCached: what the cache does not keep of a session.
abbrev pub cached : Session → Session
cached s = record s { product_catalog_version = ""; min_initial_deposit_shown = 0 }

unfoldable pub cache_store : Env → Session → World → World
cache_store env s w =
    if env.cache_writes && ltb env.now s.expires_at
    then record w { cache = cached s ∷ w.cache }
    else w

unfoldable pub drop_key : String → List Session → List Session
drop_key key [] = []
drop_key key (s ∷ ss) =
    let rest = drop_key key ss in if str_eq s.session_id key then rest else s ∷ rest

unfoldable pub cache_delete : Env → String → World → World
unfolding drop_key
cache_delete env key w = if env.cache_writes then record w { cache = drop_key key w.cache } else w

-- The columns that `FindBySessionID` does not read stay at their zero values.
abbrev pub loaded : Session → Session
loaded s = record s { product_catalog_version = ""; min_initial_deposit_shown = 0 }

unfoldable pub find_row : String → List Session → Option Session
find_row key [] = none
find_row key (s ∷ ss) = if is_live key s then some (loaded s) else find_row key ss

abbrev pub is_expired : Env → Session → Bool
is_expired env s = ltb s.expires_at env.now

unfoldable pub resolve_row : Env → String → World → Result (Session × World)
unfolding call find_row cache_store
resolve_row env key w = do
  call env find_session "find session"
  elim (find_row key w.rows) [
    | none ↦ err onboarding_not_found
    | some s ↦ do refuse (is_expired env s) onboarding_session_expired; ok (s, cache_store env s w)
  ]

-- `resolveOnboardingSession`: the cache first, then the table.
unfoldable pub resolve_session : Env → String → World → Result (Session × World)
unfolding cache_get resolve_row
resolve_session env key w = elim (cache_get env key w) [
  | some s ↦ do refuse (is_expired env s) onboarding_session_expired; ok (s, w)
  | none ↦ resolve_row env key w
]

unfoldable pub assert_session_device : Session → String → Result (Unit {0})
assert_session_device s device =
    if str_eq device "" || str_eq s.device_id ""
    then ok tt
    else refuse (not (str_eq device s.device_id)) onboarding_device_mismatch

abbrev pub with_step : Step → StepsCompleted → Session → Session
with_step to c s = record s { current_step = to; steps_completed = c }

-- `UPDATE onboarding_sessions SET current_step, steps_completed, updated_at`
unfoldable pub set_step : String → Step → StepsCompleted → ℕ → List Session → List Session
set_step key to c now [] = []
set_step key to c now (s ∷ ss) =
    (if is_live key s then record (with_step to c s) { updated_at = now } else s)
    ∷ set_step key to c now ss

unfoldable pub has_live : String → List Session → Bool
has_live key [] = false
has_live key (s ∷ ss) = is_live key s || has_live key ss

-- `TransitionStep` on the session that was resolved, with the world after the lookup.
unfoldable pub advance : Env → String → Step → Session → World → Result World
unfolding call can_transition complete set_step has_live cache_store
advance env key to s w = do
  refuse (not (can_transition s.current_step to)) onboarding_invalid_step
  let c = complete to s.steps_completed
  call env update_step "update step"
  refuse (not (has_live key w.rows)) (wrapped "update step" Cause.failed)
  ok (cache_store env (with_step to c s) (record w { rows = set_step key to c env.now w.rows }))

unfoldable pub transition_step : Env → String → Step → World → Result World
unfolding resolve_session advance
transition_step env key to w =
    resolve_session env key w >>= λ found. advance env key to found.0 found.1

unfoldable pub delete_rows : String → ℕ → List Session → List Session
delete_rows key now [] = []
delete_rows key now (s ∷ ss) =
    (if is_live key s then record s { deleted_at = some now; updated_at = now } else s)
    ∷ delete_rows key now ss

unfoldable pub cancel_session : Env → String → World → Result World
unfolding resolve_session call has_live delete_rows cache_delete
cancel_session env key w = do
  found ← resolve_session env key w
  call env soft_delete "soft delete session"
  refuse (not (has_live key found.1.rows)) (wrapped "soft delete session" Cause.failed)
  ok (cache_delete env key (record found.1 { rows = delete_rows key env.now found.1.rows }))
