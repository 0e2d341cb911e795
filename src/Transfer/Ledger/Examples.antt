-- ===== src/Transfer/Ledger/Examples.antt =====
-- A bank of four accounts, and the theorems on the executor applied to transfers in it.
use bca_mobile_api.Common.{
  ℕ, zero, suc, ◌<◌, ◌≡◌, refl, Bool, true, String, Option, some, none, [], ◌∷◌, ok, wrapped,
  pg_error, Cause, arith,
}
use bca_mobile_api.Common.Int.{ℤ, pos, ◌+ℤ◌, ◌-ℤ◌}
use bca_mobile_api.Transfer.Data.{Account, OwnerType, customer, internal, Inquiry, ExecuteParams}
use bca_mobile_api.Transfer.Db.{
  Db, first, find_id, find_customer, find_shard, set_balance, used_today, upsert_usage, daily_limit,
  conflicts,
}
use bca_mobile_api.Transfer.Executor.Resolve.{
  Attempt, Statement, begin, run, Legs, resolve_destination, resolve_shard, resolve_settlement,
  resolve_fee, resolve_legs,
}
use bca_mobile_api.Transfer.Executor.Lock.{
  insert_sorted, sort_ids, unique_ids, lock_order, lock_accounts, locked_at,
}
use bca_mobile_api.Transfer.Executor.Post.{
  check_balance, check_limit, write_leg, debit_source_balance, write_balances,
}
use bca_mobile_api.Transfer.Executor.Record.{
  transaction_row, insert_row, credit_row, credit_mutation, debit_row, debit_mutation,
  write_mutations, record_usage,
}
use bca_mobile_api.Transfer.Executor.{
  finish, settle_insert, try_execute, backoff_serialization, execute_from, execute_transfer,
}
use bca_mobile_api.Transfer.Ledger.Rows.{total}
use bca_mobile_api.Transfer.Ledger.LockOrder.{IsAscending, lock_order-IsAscending}
use bca_mobile_api.Transfer.Ledger.Committed.{IsBank, IsCoherent}
use bca_mobile_api.Transfer.Ledger.Balanced.{
  TransferResult, execute_transfer-total, execute_transfer-TransferResult,
}
use bca_mobile_api.Transfer.Ledger.Checks.{
  IsWithinLimit, IsCovered, execute_transfer-IsWithinLimit, execute_transfer-IsCovered,
}
use bca_mobile_api.Transfer.Ledger.Entries.{Booking, execute_transfer-Booking}
use bca_mobile_api.Transfer.Ledger.Retry.{IsFinal, IsRetried, decided, execute_transfer-decided}
use bca_mobile_api.Transfer.Ledger.Once.{IsReplay, execute_transfer-IsReplay}

abbrev account_of : ℕ → String → OwnerType → ℤ → Option String → Option ℕ → Account
account_of i number owner balance rail shard = record {
  id = i;
  user_id = none;
  account_number = number;
  account_label = "Tahapan";
  owner_type = owner;
  status = "ACTIVE";
  balance = balance;
  hold_amount = pos 0;
  settlement_rail = rail;
  shard_index = shard;
}

abbrev bank : Db
bank = record {
  accounts =
      account_of 7 "1110000001" customer (pos 90000) none none
      ∷ account_of 3 "1110000002" customer (pos 500) none none
      ∷ account_of 5 "9000" internal (pos 0) (some "TRANSFER_EXTERNAL") (some 0)
      ∷ account_of 9 "9100" internal (pos 0) (some "FEE_INCOME") (some 0)
      ∷ [];
  daily_usage = [];
  transaction_limits =
      record { user_id = 1; limit_type = "TRANSFER_INTERNAL"; daily_limit = pos 80000 } ∷ [];
  transactions = [];
  mutations = [];
}

abbrev inquiry : Inquiry
inquiry = record {
  id = 1;
  user_id = 1;
  inquiry_type = "INTERNAL";
  destination_account = "1110000002";
  destination_name = some "SITI";
  destination_bank = some "BCA";
  bank_code = none;
  provider_id = none;
  amount = some (pos 25000);
  admin_fee = some (pos 100);
  expires_at = 600;
  used_at = none;
  created_at = 0;
}

abbrev params : ExecuteParams
params = record {
  idempotency_key = "key-1";
  user_id = 1;
  source_account_id = 7;
  inquiry = inquiry;
  transfer_type = "INTERNAL";
  txn_type = "TRANSFER_INTERNAL";
  limit_type = "TRANSFER_INTERNAL";
  amount = pos 25000;
  admin_fee = pos 100;
  total_amount = pos 25100;
  notes = "";
  wib_date = 20000;
  wib_time = 3600;
}

abbrev quiet : Attempt
quiet = record {
  fault = λ s. none;
  txn_id = 50;
  shard_of = λ n. 0;
  scan_null = none;
  reference = "TRF-1";
  now = 100;
}

abbrev quiet_envs : ℕ → Attempt
quiet_envs n = quiet

abbrev patient : ℕ → Bool
patient n = true

quiet-IsBank : (n : ℕ) → IsBank (quiet_envs n) params bank
unfolding find_id first
quiet-IsBank n = record {
  unique = (refl, (refl, (refl, (refl, tt))));
  source = account_of 7 "1110000001" customer (pos 90000) none none;
  source_found = refl;
  source_owned = refl;
  no_null = λ z h. cc;
}

params-IsCoherent : IsCoherent params
unfolding ◌+ℤ◌
params-IsCoherent = record { sums = refl; fee_positive = omega arith; rail = refl }

execute_transfer-total_example :
    total (execute_transfer quiet_envs patient params bank).1.accounts ≡ total bank.accounts
execute_transfer-total_example =
    execute_transfer-total quiet_envs patient params bank quiet-IsBank params-IsCoherent

execute_transfer-TransferResult_example :
    TransferResult quiet_envs params bank
      (execute_transfer quiet_envs patient params bank).0
      (execute_transfer quiet_envs patient params bank).1
execute_transfer-TransferResult_example =
    execute_transfer-TransferResult quiet_envs patient params bank quiet-IsBank params-IsCoherent

execute_transfer-Booking_example :
    Booking bank
      (execute_transfer quiet_envs patient params bank).0
      (execute_transfer quiet_envs patient params bank).1
execute_transfer-Booking_example =
    execute_transfer-Booking quiet_envs patient params bank quiet-IsBank params-IsCoherent

bank-IsWithinLimit : IsWithinLimit params bank
unfolding used_today daily_limit
bank-IsWithinLimit = omega arith

execute_transfer-IsWithinLimit_example :
    IsWithinLimit params (execute_transfer quiet_envs patient params bank).1
execute_transfer-IsWithinLimit_example =
    execute_transfer-IsWithinLimit quiet_envs patient params bank quiet-IsBank params-IsCoherent
      bank-IsWithinLimit

bank-IsCovered : IsCovered params bank
unfolding find_id first
bank-IsCovered a h = ground arith

execute_transfer-IsCovered_example :
    IsCovered params (execute_transfer quiet_envs patient params bank).1
execute_transfer-IsCovered_example =
    execute_transfer-IsCovered quiet_envs patient params bank quiet-IsBank params-IsCoherent
      bank-IsCovered

lock_order-IsAscending_example : IsAscending (
    lock_order 7
      (record { dest_account_id = some 3; settlement_account_id = none; fee_account_id = some 9 }))
lock_order-IsAscending_example =
    (lock_order-IsAscending 7 (record {
      dest_account_id = some 3;
      settlement_account_id = none;
      fee_account_id = some 9;
    })).0

-- The transaction and the tables of the transfer.
abbrev after : Db
after = (execute_transfer quiet_envs patient params bank).1

abbrev legs : Legs
legs = record { dest_account_id = some 3; settlement_account_id = none; fee_account_id = some 9 }

executed :
    execute_transfer quiet_envs patient params bank
    ≡ (ok (transaction_row quiet params legs), after)
unfolding execute_transfer execute_from backoff_serialization try_execute run resolve_legs
    resolve_destination resolve_settlement resolve_fee resolve_shard find_customer find_shard
    find_id first lock_order sort_ids insert_sorted unique_ids lock_accounts locked_at check_balance
    check_limit used_today daily_limit write_balances write_leg debit_source_balance set_balance
    insert_row conflicts settle_insert finish write_mutations debit_mutation credit_mutation
    record_usage upsert_usage debit_row credit_row transaction_row ◌+ℤ◌ ◌-ℤ◌
executed = refl

execute_transfer-IsReplay_example :
    IsReplay
      (transaction_row quiet params legs)
      after
      (execute_transfer quiet_envs patient params after)
execute_transfer-IsReplay_example =
    execute_transfer-IsReplay quiet_envs quiet_envs patient patient params params bank refl refl
      executed

succeeded : try_execute quiet params bank ≡ ok (transaction_row quiet params legs, after)
unfolding execute_transfer execute_from backoff_serialization try_execute run resolve_legs
    resolve_destination resolve_settlement resolve_fee resolve_shard find_customer find_shard
    find_id first lock_order sort_ids insert_sorted unique_ids lock_accounts locked_at check_balance
    check_limit used_today daily_limit write_balances write_leg debit_source_balance set_balance
    insert_row conflicts settle_insert finish write_mutations debit_mutation credit_mutation
    record_usage upsert_usage debit_row credit_row transaction_row ◌+ℤ◌ ◌-ℤ◌
succeeded = refl

quiet-IsFinal : IsFinal (try_execute quiet params bank) 1
quiet-IsFinal = rw succeeded tt

-- The first attempt meets a serialization failure.
abbrev busy_fault : Statement → Option Cause
busy_fault begin = some (pg_error "40001")
busy_fault _ = none

abbrev busy_envs : ℕ → Attempt
busy_envs zero = record quiet { fault = busy_fault }
busy_envs (suc n) = quiet

busy-IsRetried : (m : ℕ) → m < 1 → IsRetried busy_envs patient params bank m
unfolding try_execute run
busy-IsRetried zero h = record {
  error = wrapped "begin tx" (pg_error "40001");
  fails = refl;
  serialization = refl;
  waited = refl;
}
busy-IsRetried (suc m) h = let bad : ⊥ = omega arith in absurd bad

execute_transfer-decided_example :
    execute_transfer busy_envs patient params bank ≡ decided (try_execute quiet params bank) bank
execute_transfer-decided_example =
    execute_transfer-decided busy_envs patient params bank 1 (omega arith) busy-IsRetried
      quiet-IsFinal
