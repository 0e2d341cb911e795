-- ===== src/Transfer/Data.antt =====
-- internal/domain/transaction/entity.go and repository.go, internal/domain/account: the records that
-- the transfer flow passes around. A UUID is a number: its canonical text has a fixed width, so that
-- the order of two texts is the order of the numbers. A `time.Time` is a number of seconds, and a WIB
-- date a number of days. `Inquiry.Metadata` is never read and left out.
use bca_mobile_api.Common.{ℕ, String, Option}
use bca_mobile_api.Common.Int.{ℤ}

pub data OwnerType : Type 0 where
  customer internal : OwnerType

-- A row of `accounts`.
pub record Account : Type 0 where
  pub id : ℕ
  pub user_id : Option ℕ
  pub account_number : String
  pub account_label : String
  pub owner_type : OwnerType
  pub status : String
  pub balance : ℤ
  pub hold_amount : ℤ
  pub settlement_rail : Option String
  pub shard_index : Option ℕ

pub record Inquiry : Type 0 where
  pub id : ℕ
  pub user_id : ℕ
  pub inquiry_type : String
  pub destination_account : String
  pub destination_name : Option String
  pub destination_bank : Option String
  pub bank_code : Option String
  pub provider_id : Option String
  pub amount : Option ℤ
  pub admin_fee : Option ℤ
  pub expires_at : ℕ
  pub used_at : Option ℕ
  pub created_at : ℕ

pub record Transaction : Type 0 where
  pub id : ℕ
  pub idempotency_key : Option String
  pub user_id : ℕ
  pub source_account_id : Option ℕ
  pub destination_account_id : Option ℕ
  pub txn_type : String
  pub status : String
  pub amount : ℤ
  pub admin_fee : ℤ
  pub total_amount : ℤ
  pub currency : String
  pub reference_number : String
  pub description : Option String
  pub notes : Option String
  pub destination_account : Option String
  pub destination_name : Option String
  pub destination_bank : Option String
  pub destination_bank_code : Option String
  pub provider_id : Option String
  pub provider_name : Option String
  pub provider_ref : Option String
  pub created_at : ℕ
  pub processed_at : Option ℕ
  pub completed_at : Option ℕ
  pub expired_at : Option ℕ

pub data MutationType : Type 0 where
  debit credit : MutationType

-- A row of `account_mutations`, with the columns that the executor writes.
pub record Mutation : Type 0 where
  pub account_id : ℕ
  pub transaction_id : ℕ
  pub mutation_type : MutationType
  pub amount : ℤ
  pub balance_before : ℤ
  pub balance_after : ℤ
  pub description : String
  pub category : String
  pub reference_number : String
  pub transaction_date : ℕ
  pub transaction_time : ℕ

-- A row of `daily_usage`.
pub record DailyUsage : Type 0 where
  pub user_id : ℕ
  pub usage_date : ℕ
  pub limit_type : String
  pub total_amount : ℤ
  pub transaction_count : ℕ

-- A row of `transaction_limits`, with the column that the executor reads.
pub record TransactionLimit : Type 0 where
  pub user_id : ℕ
  pub limit_type : String
  pub daily_limit : ℤ

-- `wib_date` and `wib_time` are the formatted date and time of day.
pub record ExecuteParams : Type 0 where
  pub idempotency_key : String
  pub user_id : ℕ
  pub source_account_id : ℕ
  pub inquiry : Inquiry
  pub transfer_type : String
  pub txn_type : String
  pub limit_type : String
  pub amount : ℤ
  pub admin_fee : ℤ
  pub total_amount : ℤ
  pub notes : String
  pub wib_date : ℕ
  pub wib_time : ℕ
