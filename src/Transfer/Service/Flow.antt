-- ===== src/Transfer/Service/Flow.antt =====
-- internal/domain/transaction/service_execute.go, ExecuteTransfer, with internal/pkg/idempotency/idempotency.go
-- and internal/repository/redis/transaction_cache.go. The caches are lists of entries; one for a token has the time
-- at which Redis drops it, the others are there. The
-- user id of a token is the canonical text of a number. The account and balance caches, the favourites,
-- the notification and the marks in PostgreSQL that follow a commit are best effort and not modelled; a
-- stored response is always readable.
use bca_mobile_api.Common.{
  ℕ, ◌+◌, String, Bool, true, false, ◌&&◌, Option, none, some, List, [], ◌∷◌, ◌==◌, str_eq, ltb,
  if◌then◌else◌, Cause, Result, ok, err, wrapped, idempotency_conflict, verification_token_invalid,
  inquiry_expired,
}
use bca_mobile_api.Transfer.Data.{Inquiry, ExecuteParams, Transaction}
use bca_mobile_api.Transfer.Db.{Db}
use bca_mobile_api.Transfer.Executor.Resolve.{Attempt}
use bca_mobile_api.Transfer.Executor.{execute_transfer}
use bca_mobile_api.Transfer.Service.Request.{TransferRequest, RequestEnv, build_params}

-- What a response is made of.
pub record Response : Type 0 where
  pub transaction : Transaction
  pub params : ExecuteParams

pub data IdemState : Type 0 where
  processing : IdemState
  stored : Response → IdemState

pub record IdemEntry : Type 0 where
  pub user : ℕ
  pub key : String
  pub state : IdemState

pub record Token : Type 0 where
  pub hash : String
  pub user : ℕ
  pub purpose : String
  pub expires_at : ℕ

pub record World : Type 0 where
  pub db : Db
  pub idem : List IdemEntry
  pub tokens : List Token
  pub inquiries : List Inquiry

-- The faults of the caches, the clock when the token is consumed and at the end, the hash of a token, the text of an inquiry's id, and
-- what the executor meets.
pub record Env : Type 0 where
  pub claim_fault : Option Cause
  pub token_fault : Option Cause
  pub inquiry_fault : Option Cause
  pub release_works : Bool
  pub restore_inquiry_works : Bool
  pub restore_token_works : Bool
  pub persist_works : Bool
  pub token_now : ℕ
  pub now : ℕ
  pub hash : String → String
  pub id_text : ℕ → String
  pub request : RequestEnv
  pub attempts : ℕ → Attempt
  pub waits : ℕ → Bool

abbrev pub is_entry : ℕ → String → IdemEntry → Bool
is_entry user key e = e.user == user && str_eq e.key key

unfoldable pub find_entry : ℕ → String → List IdemEntry → Option IdemState
find_entry user key [] = none
find_entry user key (e ∷ es) = if is_entry user key e then some e.state else find_entry user key es

unfoldable pub delete_entry : ℕ → String → List IdemEntry → List IdemEntry
delete_entry user key [] = []
delete_entry user key (e ∷ es) =
    let rest = delete_entry user key es in if is_entry user key e then rest else e ∷ rest

unfoldable pub find_token : String → List Token → Option Token
find_token hash [] = none
find_token hash (t ∷ ts) = if str_eq t.hash hash then some t else find_token hash ts

abbrev pub verification_token_ttl : ℕ
verification_token_ttl = 120

abbrev pub unexpired : ℕ → Option Token → Option Token
unexpired now none = none
unexpired now (some t) = if ltb now t.expires_at then some t else none

-- What Redis still has under a hash.
unfoldable pub live_token : ℕ → String → List Token → Option Token
unfolding find_token
live_token now hash ts = unexpired now (find_token hash ts)

unfoldable pub delete_token : String → List Token → List Token
delete_token hash [] = []
delete_token hash (t ∷ ts) =
    let rest = delete_token hash ts in if str_eq t.hash hash then rest else t ∷ rest

unfoldable pub find_inquiry : (ℕ → String) → String → List Inquiry → Option Inquiry
find_inquiry text key [] = none
find_inquiry text key (q ∷ qs) = if str_eq (text q.id) key then some q else find_inquiry text key qs

unfoldable pub delete_inquiry : (ℕ → String) → String → List Inquiry → List Inquiry
delete_inquiry text key [] = []
delete_inquiry text key (q ∷ qs) =
    let rest = delete_inquiry text key qs in if str_eq (text q.id) key then rest else q ∷ rest

-- What a failure puts back.
pub record Pending : Type 0 where
  pub world : World
  pub token : Option String
  pub inquiry : Option Inquiry

-- Step 2: GETDEL, then the checks of the owner and the purpose.
unfoldable pub consume_token : Env → ℕ → String → World → Result (Unit {0}) × Pending
unfolding live_token delete_token
consume_token env user hash w = elim env.token_fault [
  | some c ↦ (err (wrapped "consume vtoken" c), record { world = w; token = none; inquiry = none })
  | none ↦
      let gone = record w { tokens = delete_token hash w.tokens } in
      elim (live_token env.token_now hash w.tokens) [
        | none ↦
            (err verification_token_invalid, record { world = gone; token = none; inquiry = none })
        | some t ↦
            if t.user == user && str_eq t.purpose "TRANSFER"
            then (ok tt, record { world = gone; token = some hash; inquiry = none })
            else (
              err verification_token_invalid,
              record { world = gone; token = none; inquiry = none },
            )
      ]
]

-- Step 3: GETDEL, then the check of the owner.
unfoldable pub consume_inquiry : Env → ℕ → String → Pending → Result Inquiry × Pending
unfolding find_inquiry delete_inquiry
consume_inquiry env user key u = elim env.inquiry_fault [
  | some c ↦ (err (wrapped "consume inquiry" c), u)
  | none ↦
      let w = u.world in
      let gone = record u {
        world = record w { inquiries = delete_inquiry env.id_text key w.inquiries };
      } in
      elim (find_inquiry env.id_text key w.inquiries) [
        | none ↦ (err inquiry_expired, gone)
        | some q ↦
            if q.user_id == user
            then (ok q, record gone { inquiry = some q })
            else (err inquiry_expired, gone)
      ]
]

-- Steps 4 and 5, once the inquiry is consumed.
unfoldable pub with_inquiry :
    Env → ℕ → TransferRequest → String → Result Inquiry × Pending → Result ExecuteParams × Pending
unfolding build_params
with_inquiry env user req key (err e, v) = (err e, v)
with_inquiry env user req key (ok q, v) = (build_params env.request user req key q v.world.db, v)

unfoldable pub with_token :
    Env
    → ℕ
    → TransferRequest
    → String
    → Result (Unit {0}) × Pending
    → Result ExecuteParams × Pending
unfolding consume_inquiry with_inquiry
with_token env user req key (err e, u) = (err e, u)
with_token env user req key (ok _, u) =
    with_inquiry env user req key (consume_inquiry env user req.inquiry_id u)

-- Steps 2 to 5.
unfoldable pub prepare : Env → ℕ → TransferRequest → String → World → Result ExecuteParams × Pending
unfolding consume_token with_token
prepare env user req key w =
    with_token env user req key (consume_token env user (env.hash req.verification_token) w)

abbrev pub restored_inquiries : Env → Option Inquiry → List Inquiry → List Inquiry
restored_inquiries env none qs = qs
restored_inquiries env (some q) qs =
    if ltb env.now q.expires_at && env.restore_inquiry_works then q ∷ qs else qs

abbrev pub restored_tokens : Env → ℕ → Option String → List Token → List Token
restored_tokens env user none ts = ts
restored_tokens env user (some h) ts =
    if env.restore_token_works
    then record {
      hash = h;
      user = user;
      purpose = "TRANSFER";
      expires_at = env.now + verification_token_ttl;
    }
      ∷ ts
    else ts

-- The deferred function of a failure.
unfoldable pub undo : Env → ℕ → String → Pending → World
unfolding delete_entry
undo env user key u =
    let w = u.world in
    record {
      db = w.db;
      idem = if env.release_works then delete_entry user key w.idem else w.idem;
      tokens = restored_tokens env user u.token w.tokens;
      inquiries = restored_inquiries env u.inquiry w.inquiries;
    }

-- Step 16.
unfoldable pub persist : Env → ℕ → String → Response → World → World
unfolding delete_entry
persist env user key r w =
    if env.persist_works
    then record w {
      idem = record { user = user; key = key; state = stored r } ∷ delete_entry user key w.idem;
    }
    else w

-- Steps 6 to 16, after the checks.
unfoldable pub settle :
    Env
    → ℕ
    → String
    → ExecuteParams
    → Pending
    → Result Transaction × Db
    → Result (Response × Bool) × World
unfolding undo persist
settle env user key p u (err e, db') =
    (err e, undo env user key (record u { world = record u.world { db = db' } }))
settle env user key p u (ok t, db') =
    let r : Response = record { transaction = t; params = p } in
    (ok (r, false), persist env user key r (record u.world { db = db' }))

unfoldable pub run_prepared :
    Env → ℕ → String → Result ExecuteParams × Pending → Result (Response × Bool) × World
unfolding settle undo
run_prepared env user key (err e, u) = (err e, undo env user key u)
run_prepared env user key (ok p, u) =
    settle env user key p u (execute_transfer env.attempts env.waits p u.world.db)

unfoldable pub run_claimed :
    Env → ℕ → TransferRequest → String → World → Result (Response × Bool) × World
unfolding prepare run_prepared
run_claimed env user req key w = run_prepared env user key (prepare env user req key w)

-- Step 1, and the rest if the key was free. The Boolean says whether the response is a replay.
unfoldable pub execute :
    Env → ℕ → TransferRequest → String → World → Result (Response × Bool) × World
unfolding find_entry run_claimed
execute env user req key w = elim env.claim_fault [
  | some c ↦ (err (wrapped "idempotency claim" c), w)
  | none ↦ elim (find_entry user key w.idem) [
    | some processing ↦ (err idempotency_conflict, w)
    | some (stored r) ↦ (ok (r, true), w)
    | none ↦
        run_claimed env user req key
          (record w { idem = record { user = user; key = key; state = processing } ∷ w.idem })
  ]
]
