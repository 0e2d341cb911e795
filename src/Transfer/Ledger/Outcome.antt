-- ===== src/Transfer/Ledger/Outcome.antt =====
-- How `ExecuteTransfer` ends, over all its attempts.
use bca_mobile_api.Common.{
  ℕ, zero, suc, ◌+◌, ◌≡◌, refl, Bool, true, false, ◌&&◌, Result, ok, err, Error, inl, inr,
  Bool-cases, Result-cases, wrapped, failed,
}
use bca_mobile_api.Transfer.Data.{ExecuteParams, Transaction}
use bca_mobile_api.Transfer.Db.{Db}
use bca_mobile_api.Transfer.Executor.Resolve.{Attempt}
use bca_mobile_api.Transfer.Executor.{
  try_execute, is_serialization_failure, backoff_serialization, execute_from, execute_transfer,
  max_serialization_retries, fetch_existing,
}
use bca_mobile_api.Transfer.Ledger.Posting.{try_execute_cases}
use bca_mobile_api.Transfer.Ledger.Committed.{Committed, IsBank, IsCoherent, try_execute-Committed}

-- An error with the tables as they were, or the result of one attempt on the tables as they were.
abbrev pub Outcome : (ℕ → Attempt) → ExecuteParams → Db → Result Transaction → Db → Type 0
Outcome envs p db (err e) db' = db' ≡ db
Outcome envs p db (ok t) db' = (n : ℕ) × (try_execute (envs n) p db ≡ ok (t, db'))

pub execute_from_ok :
    (envs : ℕ → Attempt) (waits : ℕ → Bool) (p : ExecuteParams) (left attempt : ℕ) (last : Error)
    (db : Db) {t : Transaction} {db' : Db}
    → try_execute (envs attempt) p db ≡ ok (t, db')
    → execute_from envs waits p (suc left) attempt last db ≡ (ok t, db')
unfolding execute_from
execute_from_ok envs waits p left attempt last db h = rw (h, execute_from) refl

pub execute_from_retry :
    (envs : ℕ → Attempt) (waits : ℕ → Bool) (p : ExecuteParams) (left attempt : ℕ) (last : Error)
    (db : Db) (x : Error)
    → try_execute (envs attempt) p db ≡ err x
    → (is_serialization_failure x && backoff_serialization waits attempt) ≡ true
    → execute_from envs waits p (suc left) attempt last db
      ≡ execute_from envs waits p left (attempt + 1) x db
unfolding execute_from
execute_from_retry envs waits p left attempt last db x h b = rw (h, execute_from) (rw b refl)

pub execute_from_stop :
    (envs : ℕ → Attempt) (waits : ℕ → Bool) (p : ExecuteParams) (left attempt : ℕ) (last : Error)
    (db : Db) (x : Error)
    → try_execute (envs attempt) p db ≡ err x
    → (is_serialization_failure x && backoff_serialization waits attempt) ≡ false
    → execute_from envs waits p (suc left) attempt last db ≡ (err x, db)
unfolding execute_from
execute_from_stop envs waits p left attempt last db x h b = rw (h, execute_from) (rw b refl)

execute_from-Outcome :
    (envs : ℕ → Attempt) (waits : ℕ → Bool) (p : ExecuteParams) (left attempt : ℕ) (last : Error)
    (db : Db) {r : Result Transaction} {db' : Db}
    → execute_from envs waits p left attempt last db ≡ (r, db')
    → Outcome envs p db r db'
unfolding execute_from
execute_from-Outcome envs waits p zero attempt last db {r} {db'} h = from_refused (err last) refl h
  where
    from_refused :
        (x : Result Transaction)
        → x ≡ err last
        → ◌≡◌ {A = Result Transaction × Db} (x, db) (r, db')
        → Outcome envs p db r db'
    from_refused x e k = let r' : r ≡ err last = cc in let d : db' ≡ db = cc in rw r' d
execute_from-Outcome envs waits p (suc left) attempt last db {r} {db'} h =
    elim (Result-cases (try_execute (envs attempt) p db)) [
      | inl ((t, d), e) ↦
          let s = execute_from_ok envs waits p left attempt last db e in
          let r' : r ≡ ok t = cc in let d' : db' ≡ d = cc in rw r' (rw d' (attempt, e))
      | inr (x, e) ↦
          elim (Bool-cases (is_serialization_failure x && backoff_serialization waits attempt)) [
            | inl b ↦
                execute_from-Outcome envs waits p left (attempt + 1) x db
                  (rw (← execute_from_retry envs waits p left attempt last db x e b) h)
            | inr b ↦
                let s = execute_from_stop envs waits p left attempt last db x e b in
                let r' : r ≡ err x = cc in let d' : db' ≡ db = cc in rw r' d'
          ]
    ]

pub execute_transfer-Outcome :
    (envs : ℕ → Attempt) (waits : ℕ → Bool) (p : ExecuteParams) (db : Db) {r : Result Transaction}
    {db' : Db}
    → execute_transfer envs waits p db ≡ (r, db')
    → Outcome envs p db r db'
unfolding execute_transfer
execute_transfer-Outcome envs waits p db h =
    execute_from-Outcome envs waits p max_serialization_retries 0 (wrapped "" failed) db h

-- The three ends: a failure, a replay of what is in the tables, or a commit.
pub data Ending (envs : ℕ → Attempt) (p : ExecuteParams) (db : Db)
    : Result Transaction → Db → Type 0 where
  refused : {e : Error} → Ending envs p db (err e) db
  replayed :
      {t : Transaction} (n : ℕ) → fetch_existing (envs n) p db ≡ ok t → Ending envs p db (ok t) db
  committed :
      {t : Transaction} {db' : Db} (n : ℕ)
      → Committed (envs n) p db t db'
      → Ending envs p db (ok t) db'

Outcome-Ending :
    (envs : ℕ → Attempt) (p : ExecuteParams) (db : Db) (r : Result Transaction) (db' : Db)
    → ((n : ℕ) → IsBank (envs n) p db)
    → IsCoherent p
    → Outcome envs p db r db'
    → Ending envs p db r db'
Outcome-Ending envs p db (err e) db' bank k o = rw o refused
Outcome-Ending envs p db (ok t) db' bank k (n, o) = elim (try_execute_cases (envs n) p db o) [
  | inl post ↦ committed n (try_execute-Committed (envs n) p db (bank n) k post)
  | inr (same, f) ↦ rw same (replayed n f)
]

pub execute_transfer-Ending :
    (envs : ℕ → Attempt) (waits : ℕ → Bool) (p : ExecuteParams) (db : Db) {r : Result Transaction}
    {db' : Db}
    → ((n : ℕ) → IsBank (envs n) p db)
    → IsCoherent p
    → execute_transfer envs waits p db ≡ (r, db')
    → Ending envs p db r db'
execute_transfer-Ending envs waits p db {r} {db'} bank k h =
    Outcome-Ending envs p db r db' bank k (execute_transfer-Outcome envs waits p db h)
