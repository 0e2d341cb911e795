-- ===== src/Transfer/Executor/Record.antt =====
-- internal/repository/postgres/transfer_executor.go: the transaction row, the mutation rows and the
-- daily usage.
use bca_mobile_api.Common.{
  ℕ, String, Option, none, some, List, ◌∷◌, str_eq, if◌then◌else◌, Cause, pg_error, no_rows, Result,
  ok, err, ◌>>=◌, ◌>>◌, wrapped,
}
use bca_mobile_api.Common.Int.{ℤ, ◌+ℤ◌, ◌-ℤ◌}
use bca_mobile_api.Transfer.Data.{Mutation, Inquiry, Transaction, debit, credit, ExecuteParams}
use bca_mobile_api.Transfer.Db.{Db, upsert_usage, conflicts}
use Prim.Native.String.{◌++◌ as append}
use bca_mobile_api.Transfer.Executor.Resolve.{
  Statement, insert_transaction, insert_debit, insert_credit, insert_settlement, insert_fee,
  upsert_daily_usage, Attempt, run, Legs,
}
use bca_mobile_api.Transfer.Executor.Lock.{LockedAccount, locked_at}
use bca_mobile_api.Transfer.Executor.Post.{credit_leg}

abbrev pub or_else : Option String → String → String
or_else none s = s
or_else (some t) s = t

unfoldable pub str_ptr_or_nil : String → Option String
str_ptr_or_nil s = if str_eq s "" then none else some s

abbrev pub transfer_description : Inquiry → String
transfer_description q = append "Transfer ke " (or_else q.destination_name q.destination_account)

unfoldable pub transaction_row : Attempt → ExecuteParams → Legs → Transaction
unfolding str_ptr_or_nil
transaction_row env p legs = record {
  id = env.txn_id;
  idempotency_key = some p.idempotency_key;
  user_id = p.user_id;
  source_account_id = some p.source_account_id;
  destination_account_id = legs.dest_account_id;
  txn_type = p.txn_type;
  status = "SUCCESS";
  amount = p.amount;
  admin_fee = p.admin_fee;
  total_amount = p.total_amount;
  currency = "IDR";
  reference_number = env.reference;
  description = some (transfer_description p.inquiry);
  notes = str_ptr_or_nil p.notes;
  destination_account = some p.inquiry.destination_account;
  destination_name = p.inquiry.destination_name;
  destination_bank = p.inquiry.destination_bank;
  destination_bank_code = p.inquiry.bank_code;
  provider_id = none;
  provider_name = none;
  provider_ref = none;
  created_at = env.now;
  processed_at = some env.now;
  completed_at = some env.now;
  expired_at = none;
}

-- How the insert of the transaction row ends: a fresh row, or a unique violation.
pub data Inserted : Type 0 where
  fresh : Db → Inserted
  duplicate : Inserted

unfoldable pub insert_row : Attempt → Transaction → Db → Result Inserted
insert_row env t db = elim (env.fault insert_transaction) [
  | some (pg_error code) ↦
      if str_eq code "23505"
      then ok duplicate
      else err (wrapped "insert transaction" (pg_error code))
  | some no_rows ↦ err (wrapped "insert transaction" no_rows)
  | some Cause.failed ↦ err (wrapped "insert transaction" Cause.failed)
  | none ↦
      if conflicts t db.transactions
      then ok duplicate
      else ok (fresh (record db { transactions = t ∷ db.transactions }))
]

-- The row of a credit of `amount` to account `i`, whose balance before is the locked one.
unfoldable pub credit_row :
    Attempt → ExecuteParams → ℕ → ℤ → String → String → List LockedAccount → Mutation
credit_row env p i amount text category locked =
    let before = (locked_at i locked).balance in
    record {
      account_id = i;
      transaction_id = env.txn_id;
      mutation_type = credit;
      amount = amount;
      balance_before = before;
      balance_after = before +ℤ amount;
      description = text;
      category = category;
      reference_number = env.reference;
      transaction_date = p.wib_date;
      transaction_time = p.wib_time;
    }

-- `INSERT INTO account_mutations …` for a credit to a leg that is there
unfoldable pub credit_mutation :
    Attempt
    → Statement
    → String
    → ExecuteParams
    → Option ℕ
    → ℤ
    → String
    → String
    → List LockedAccount
    → Db
    → Result Db
unfolding run
credit_mutation env s prefix p none amount text category locked db = ok db
credit_mutation env s prefix p (some i) amount text category locked db = do
  run env s prefix
  ok (record db { mutations = credit_row env p i amount text category locked ∷ db.mutations })

unfoldable pub debit_row : Attempt → ExecuteParams → List LockedAccount → Mutation
debit_row env p locked =
    let before = (locked_at p.source_account_id locked).balance in
    record {
      account_id = p.source_account_id;
      transaction_id = env.txn_id;
      mutation_type = debit;
      amount = p.total_amount;
      balance_before = before;
      balance_after = before -ℤ p.total_amount;
      description = transfer_description p.inquiry;
      category = p.txn_type;
      reference_number = env.reference;
      transaction_date = p.wib_date;
      transaction_time = p.wib_time;
    }

unfoldable pub debit_mutation : Attempt → ExecuteParams → List LockedAccount → Db → Result Db
unfolding run
debit_mutation env p locked db = do
  run env insert_debit "insert debit mutation"
  ok (record db { mutations = debit_row env p locked ∷ db.mutations })

-- The newest row first. The text of the destination's credit names the destination itself.
unfoldable pub write_mutations :
    Attempt → ExecuteParams → Legs → List LockedAccount → Db → Result Db
unfolding debit_mutation credit_mutation
write_mutations env p legs locked db = do
  db₁ ← debit_mutation env p locked db
  db₂ ←
      credit_mutation env insert_credit "insert credit mutation" p (credit_leg p legs) p.amount
        (append "Transfer dari " p.inquiry.destination_account) p.txn_type locked db₁
  db₃ ←
      credit_mutation env insert_settlement "insert settlement mutation" p
        legs.settlement_account_id p.amount (append "Settlement " p.txn_type) "SETTLEMENT" locked
        db₂
  credit_mutation env insert_fee "insert fee mutation" p legs.fee_account_id p.admin_fee
      (append "Admin fee " p.txn_type) "FEE_INCOME" locked db₃

unfoldable pub record_usage : Attempt → ExecuteParams → Db → Result Db
unfolding run
record_usage env p db = do
  run env upsert_daily_usage "upsert daily usage"
  ok (record db {
    daily_usage = upsert_usage p.user_id p.wib_date p.limit_type p.total_amount db.daily_usage;
  })
