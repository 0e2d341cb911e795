-- ===== src/Transfer/Executor/Resolve.antt =====
-- internal/repository/postgres/transfer_executor.go, what an attempt meets and the accounts that it
-- resolves. `Attempt` is what stands outside this code: the statement that the database refuses, if
-- any, the random transaction id, the shard that `hashtext` gives a key, what the driver makes of a
-- NULL id, the text that `next_reference_number` returns, and the clock.
use bca_mobile_api.Common.{
  ℕ, String, Option, none, some, ◌==◌, str_eq, if◌then◌else◌, Cause, Result, ok, err, ◌>>=◌, ◌>>◌,
  self_transfer, transfer_account_not_found, wrapped,
}
use bca_mobile_api.Common.Int.{pos, ltb_ℤ}
use bca_mobile_api.Transfer.Data.{ExecuteParams}
use bca_mobile_api.Transfer.Db.{Db, find_customer, find_shard}

pub data Statement : Type 0 where
  begin commit : Statement
  select_destination select_settlement select_fee : Statement
  lock_account : ℕ → Statement
  select_usage select_limit : Statement
  debit_source credit_destination credit_settlement credit_fee : Statement
  next_reference insert_transaction : Statement
  insert_debit insert_credit insert_settlement insert_fee : Statement
  upsert_daily_usage select_existing : Statement

pub record Attempt : Type 0 where
  pub fault : Statement → Option Cause
  pub txn_id : ℕ
  pub shard_of : ℕ → ℕ
  pub scan_null : Option ℕ
  pub reference : String
  pub now : ℕ

-- A statement that the database may refuse: the error is wrapped with the prefix of the code.
unfoldable pub run : Attempt → Statement → String → Result (Unit {0})
run env s prefix = elim (env.fault s) [ none ↦ ok tt | some c ↦ err (wrapped prefix c) ]

-- The accounts beside the source that the transfer moves money to.
pub record Legs : Type 0 where
  pub dest_account_id : Option ℕ
  pub settlement_account_id : Option ℕ
  pub fee_account_id : Option ℕ

unfoldable pub resolve_destination : Attempt → ExecuteParams → Db → Result (Option ℕ)
unfolding run
resolve_destination env p db =
    if str_eq p.transfer_type "INTERNAL"
    then (do
      run env select_destination "resolve destination"
      elim (find_customer p.inquiry.destination_account db.accounts) [
        | none ↦ err transfer_account_not_found
        | some a ↦ if a.id == p.source_account_id then err self_transfer else ok (some a.id)
      ])
    else ok none

abbrev pub shard_prefix : String → String
shard_prefix rail =
    if str_eq rail "FEE_INCOME" then "resolve fee shard" else "resolve settlement shard"

-- The row that `settlement_account_id` names; with no such row the function gives NULL.
unfoldable pub resolve_shard : Attempt → String → Db → Result (Option ℕ)
resolve_shard env rail db = elim (find_shard rail (env.shard_of env.txn_id) db.accounts) [
  | none ↦ elim env.scan_null [
    | none ↦ err (wrapped (shard_prefix rail) Cause.failed)
    | some i ↦ ok (some i)
  ]
  | some a ↦ ok (some a.id)
]

unfoldable pub resolve_settlement : Attempt → ExecuteParams → Db → Result (Option ℕ)
unfolding run resolve_shard
resolve_settlement env p db =
    if str_eq p.txn_type "TRANSFER_EXTERNAL"
    then (do
      run env select_settlement "resolve settlement shard"
      resolve_shard env "TRANSFER_EXTERNAL" db)
    else ok none

unfoldable pub resolve_fee : Attempt → ExecuteParams → Db → Result (Option ℕ)
unfolding run resolve_shard
resolve_fee env p db =
    if ltb_ℤ (pos 0) p.admin_fee
    then (do run env select_fee "resolve fee shard"; resolve_shard env "FEE_INCOME" db)
    else ok none

unfoldable pub resolve_legs : Attempt → ExecuteParams → Db → Result Legs
unfolding resolve_destination resolve_settlement resolve_fee
resolve_legs env p db = do
  dest ← resolve_destination env p db
  sett ← resolve_settlement env p db
  fee ← resolve_fee env p db
  ok (record { dest_account_id = dest; settlement_account_id = sett; fee_account_id = fee })
