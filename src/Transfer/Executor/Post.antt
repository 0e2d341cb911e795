-- ===== src/Transfer/Executor/Post.antt =====
-- internal/repository/postgres/transfer_executor.go: the balance and limit checks, and the new
-- balances.
use bca_mobile_api.Common.{
  ℕ, String, Option, none, some, List, str_eq, if◌then◌else◌, Result, ok, ◌>>=◌, ◌>>◌, refuse,
  insufficient_balance, transfer_limit_exceeded,
}
use bca_mobile_api.Common.Int.{ℤ, ◌+ℤ◌, ◌-ℤ◌, ltb_ℤ}
use bca_mobile_api.Transfer.Data.{ExecuteParams}
use bca_mobile_api.Transfer.Db.{Db, set_balance, used_today, daily_limit}
use bca_mobile_api.Transfer.Executor.Resolve.{
  Statement, select_usage, select_limit, debit_source, credit_destination, credit_settlement,
  credit_fee, Attempt, run, Legs,
}
use bca_mobile_api.Transfer.Executor.Lock.{LockedAccount, locked_at}

-- The available balance of the source, after holds, must cover the total.
unfoldable pub check_balance : ExecuteParams → List LockedAccount → Result (Unit {0})
check_balance p locked =
    let source = locked_at p.source_account_id locked in
    let available = source.balance -ℤ source.hold in
    refuse (ltb_ℤ available p.total_amount) insufficient_balance

unfoldable pub check_limit : Attempt → ExecuteParams → Db → Result (Unit {0})
unfolding run
check_limit env p db = do
  run env select_usage "check daily usage"
  let used = used_today p.user_id p.wib_date p.limit_type db.daily_usage
  run env select_limit "check daily limit"
  let limit = daily_limit p.user_id p.limit_type db.transaction_limits
  let remaining = limit -ℤ used
  refuse (ltb_ℤ remaining p.total_amount) transfer_limit_exceeded

-- `UPDATE accounts SET balance = $2 WHERE id = $1`, for a leg that is there
unfoldable pub write_leg :
    Attempt → Statement → String → Option ℕ → ℤ → List LockedAccount → Db → Result Db
unfolding run
write_leg env s prefix none amount locked db = ok db
write_leg env s prefix (some i) amount locked db = do
  run env s prefix
  ok (record db { accounts = set_balance i ((locked_at i locked).balance +ℤ amount) db.accounts })

unfoldable pub debit_source_balance : Attempt → ExecuteParams → List LockedAccount → Db → Result Db
unfolding run
debit_source_balance env p locked db = do
  run env debit_source "debit source"
  ok (record db {
    accounts =
        set_balance p.source_account_id
          ((locked_at p.source_account_id locked).balance -ℤ p.total_amount) db.accounts;
  })

-- The credit to the destination is guarded by the transfer type too.
abbrev pub credit_leg : ExecuteParams → Legs → Option ℕ
credit_leg p legs = if str_eq p.transfer_type "INTERNAL" then legs.dest_account_id else none

unfoldable pub write_balances : Attempt → ExecuteParams → Legs → List LockedAccount → Db → Result Db
unfolding debit_source_balance write_leg
write_balances env p legs locked db = do
  db₁ ← debit_source_balance env p locked db
  db₂ ←
      write_leg env credit_destination "credit destination" (credit_leg p legs) p.amount locked db₁
  db₃ ←
      write_leg env credit_settlement "credit settlement" legs.settlement_account_id p.amount locked
        db₂
  write_leg env credit_fee "credit fee-income" legs.fee_account_id p.admin_fee locked db₃
