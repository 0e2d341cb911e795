-- ===== src/Transfer/Executor.antt =====
-- internal/repository/postgres/transfer_executor.go: the SERIALIZABLE transaction of a transfer and
-- its retries.
pub mod Resolve
pub mod Lock
pub mod Post
pub mod Record
use bca_mobile_api.Common.{
  ℕ, zero, suc, ◌+◌, String, Bool, true, false, ◌&&◌, Option, none, some, List, [], ◌∷◌, ◌++◌, ◌==◌,
  ◌-◌, leb, str_eq, if◌then◌else◌, contains, is_some, Cause, failed, pg_error, no_rows, Error,
  Result, ok, err, ◌>>=◌, ◌>>◌, refuse, self_transfer, transfer_account_not_found,
  insufficient_balance, transfer_limit_exceeded, wrapped,
}
use bca_mobile_api.Common.Int.{ℤ, pos, ◌+ℤ◌, ◌-ℤ◌, ltb_ℤ}
use bca_mobile_api.Transfer.Data.{
  Account, Inquiry, Transaction, Mutation, debit, credit, ExecuteParams,
}
use bca_mobile_api.Transfer.Db.{
  Db, find_id, find_customer, find_shard, set_balance, used_today, upsert_usage, daily_limit,
  find_transaction, conflicts,
}
use Prim.Native.String.{◌++◌ as append}
use bca_mobile_api.Transfer.Executor.Resolve.{
  Attempt, Legs, begin, commit, next_reference, select_existing, run, resolve_legs,
}
use bca_mobile_api.Transfer.Executor.Lock.{LockedAccount, lock_order, lock_accounts}
use bca_mobile_api.Transfer.Executor.Post.{check_balance, check_limit, write_balances}
use bca_mobile_api.Transfer.Executor.Record.{
  Inserted, fresh, duplicate, transaction_row, insert_row, write_mutations, record_usage,
}

-- What one attempt returns: a transaction that it wrote, with the tables that it commits, or the
-- answer to a unique violation, which is read outside the transaction.
unfoldable pub fetch_existing : Attempt → ExecuteParams → Db → Result Transaction
unfolding run
fetch_existing env p db = do
  run env select_existing "fetch existing transaction"
  elim (find_transaction p.user_id p.idempotency_key db.transactions) [
    | none ↦ err (wrapped "fetch existing transaction" no_rows)
    | some t ↦ ok t
  ]

-- Lines 366 to 460, once the row is inserted.
unfoldable pub finish :
    Attempt → ExecuteParams → Legs → List LockedAccount → Db → Result (Transaction × Db)
finish env p legs locked db = do
  db₁ ← write_mutations env p legs locked db
  db₂ ← record_usage env p db₁
  run env commit "commit"
  ok (transaction_row env p legs, db₂)

unfoldable pub settle_insert :
    Attempt → ExecuteParams → Legs → List LockedAccount → Db → Inserted → Result (Transaction × Db)
settle_insert env p legs locked db (fresh db') = finish env p legs locked db'
settle_insert env p legs locked db duplicate = do t ← fetch_existing env p db; ok (t, db)

-- The error of an attempt rolls everything back: the tables are those of a success only.
unfoldable pub try_execute : Attempt → ExecuteParams → Db → Result (Transaction × Db)
try_execute env p db = do
  run env begin "begin tx"
  legs ← resolve_legs env p db
  locked ← lock_accounts env (lock_order p.source_account_id legs) db
  check_balance p locked
  check_limit env p db
  moved ← write_balances env p legs locked db
  run env next_reference "generate ref number"
  inserted ← insert_row env (transaction_row env p legs) moved
  settle_insert env p legs locked db inserted

-- `errors.As(err, &pgErr) && pgErr.Code == "40001"`
abbrev pub is_serialization_failure : Error → Bool
is_serialization_failure (wrapped _ (pg_error code)) = str_eq code "40001"
is_serialization_failure _ = false

abbrev pub max_serialization_retries : ℕ
max_serialization_retries = 3

-- Whether a retry follows attempt `attempt`: not after the last one, and not if the context ends
-- during the wait (`waits`).
unfoldable pub backoff_serialization : (ℕ → Bool) → ℕ → Bool
backoff_serialization waits attempt =
    if leb (max_serialization_retries - 1) attempt then false else waits attempt

-- The loop over the attempts that are left. Each attempt meets its own environment, and starts from
-- the tables that it finds: a failed attempt changes nothing.
unfoldable pub execute_from :
    (ℕ → Attempt) → (ℕ → Bool) → ExecuteParams → ℕ → ℕ → Error → Db → Result Transaction × Db
unfolding backoff_serialization
execute_from envs waits p zero attempt last db = (err last, db)
execute_from envs waits p (suc left) attempt last db = elim (try_execute (envs attempt) p db) [
  | ok (t, db') ↦ (ok t, db')
  | err e ↦ elim (is_serialization_failure e && backoff_serialization waits attempt) [
    | true ↦ execute_from envs waits p left (attempt + 1) e db
    | false ↦ (err e, db)
  ]
]

unfoldable pub execute_transfer :
    (ℕ → Attempt) → (ℕ → Bool) → ExecuteParams → Db → Result Transaction × Db
unfolding execute_from
execute_transfer envs waits p db =
    execute_from envs waits p max_serialization_retries 0 (wrapped "" failed) db
