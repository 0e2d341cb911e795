-- ===== src/Transfer/Service/Samples.antt =====
-- Requests to the bank of four accounts, and the theorems on the service applied to them.
use bca_mobile_api.Common.{
  true, false, ◌≡◌, refl, ◌⊎◌, none, some, [], ◌∷◌, ok, err, verification_token_invalid, arith,
}
use bca_mobile_api.Common.Int.{pos, ◌+ℤ◌, ◌-ℤ◌}
use bca_mobile_api.Transfer.Data.{Account, customer, Inquiry, ExecuteParams}
use bca_mobile_api.Transfer.Db.{
  Db, first, find_id, find_customer, find_shard, set_balance, used_today, upsert_usage, daily_limit,
  conflicts,
}
use bca_mobile_api.Transfer.Executor.Lock.{
  insert_sorted, sort_ids, unique_ids, lock_order, lock_accounts, locked_at,
}
use bca_mobile_api.Transfer.Executor.Post.{
  check_balance, check_limit, write_leg, debit_source_balance, write_balances,
}
use bca_mobile_api.Transfer.Executor.Record.{
  transaction_row, insert_row, credit_row, credit_mutation, debit_row, debit_mutation,
  write_mutations, record_usage,
}
use bca_mobile_api.Transfer.Executor.{
  finish, settle_insert, try_execute, backoff_serialization, execute_from, execute_transfer,
}
use bca_mobile_api.Transfer.Executor.Resolve.{
  Attempt, run, resolve_destination, resolve_shard, resolve_settlement, resolve_fee, resolve_legs,
}
use bca_mobile_api.Transfer.Ledger.Rows.{UniqueIds, total}
use bca_mobile_api.Transfer.Ledger.Legs.{NullIsAbsent}
use bca_mobile_api.Transfer.Service.Whole.{execute-total}
use bca_mobile_api.Transfer.Ledger.Committed.{IsCoherent}
use bca_mobile_api.Transfer.Service.Request.{
  TransferRequest, RequestEnv, cross_check, derive_amount, find_owned, source_account, is_external,
  build_params,
}
use bca_mobile_api.Transfer.Service.Params.{IsOwnSource, build_params-IsCoherent}
use bca_mobile_api.Transfer.Service.Flow.{
  Response, stored, World, Env, find_entry, delete_entry, find_token, live_token, delete_token,
  consume_token, with_token, with_inquiry, consume_inquiry, find_inquiry, delete_inquiry, settle,
  persist, prepare, undo, run_prepared, run_claimed, execute,
}
use bca_mobile_api.Transfer.Service.Guards.{IsPaid, execute-IsPaid}
use bca_mobile_api.Transfer.Service.Failure.{IsUndone, execute-IsUndone}

abbrev own_account : Account
own_account = record {
  id = 7;
  user_id = some 1;
  account_number = "1110000001";
  account_label = "Tahapan";
  owner_type = customer;
  status = "ACTIVE";
  balance = pos 90000;
  hold_amount = pos 0;
  settlement_rail = none;
  shard_index = none;
}

abbrev small_bank : Db
small_bank = record {
  accounts = own_account ∷ [];
  daily_usage = [];
  transaction_limits = [];
  transactions = [];
  mutations = [];
}

abbrev asked_inquiry : Inquiry
asked_inquiry = record {
  id = 5;
  user_id = 1;
  inquiry_type = "INTERNAL";
  destination_account = "1110000002";
  destination_name = none;
  destination_bank = none;
  bank_code = none;
  provider_id = none;
  amount = none;
  admin_fee = none;
  expires_at = 600;
  used_at = none;
  created_at = 0;
}

abbrev sample_request : TransferRequest
sample_request = record {
  inquiry_id = "q5";
  source_account_id = "a7";
  destination_account = "";
  bank_code = "";
  transfer_type = "";
  amount = pos 250;
  notes = "";
  verification_token = "secret";
}

abbrev request_env : RequestEnv
request_env = record {
  parse_uuid = λ s. some 7;
  account_fault = none;
  wib_date = 20000;
  wib_time = 3600;
}

abbrev sample_params : ExecuteParams
sample_params = record {
  idempotency_key = "key-1";
  user_id = 1;
  source_account_id = 7;
  inquiry = asked_inquiry;
  transfer_type = "INTERNAL";
  txn_type = "TRANSFER_INTERNAL";
  limit_type = "TRANSFER_INTERNAL";
  amount = pos 25000;
  admin_fee = pos 0;
  total_amount = pos 25000;
  notes = "";
  wib_date = 20000;
  wib_time = 3600;
}

built :
    build_params request_env 1 sample_request "key-1" asked_inquiry small_bank ≡ ok sample_params
unfolding build_params cross_check derive_amount source_account find_owned first is_external ◌+ℤ◌
built = refl

small_bank-UniqueIds : find_id 7 [] ≡ none
unfolding find_id first
small_bank-UniqueIds = refl

build_params-IsCoherent_example : IsCoherent sample_params × IsOwnSource 1 sample_params small_bank
build_params-IsCoherent_example =
    build_params-IsCoherent request_env 1 sample_request "key-1" asked_inquiry small_bank
      (small_bank-UniqueIds, tt) (omega arith) built

abbrev sample_attempt : Attempt
sample_attempt = record {
  fault = λ s. none;
  txn_id = 50;
  shard_of = λ n. 0;
  scan_null = none;
  reference = "TRF-1";
  now = 100;
}

abbrev sample_env : Env
sample_env = record {
  claim_fault = none;
  token_fault = none;
  inquiry_fault = none;
  release_works = true;
  restore_inquiry_works = true;
  restore_token_works = true;
  persist_works = true;
  token_now = 90;
  now = 100;
  hash = λ s. s;
  id_text = λ i. "q5";
  request = request_env;
  attempts = λ n. sample_attempt;
  waits = λ n. true;
}

-- A token was given out: the request is paid.
abbrev paying_bank : Db
paying_bank = record small_bank {
  accounts =
      own_account
      ∷ record own_account { id = 3; user_id = some 2; account_number = "1110000002" }
      ∷ [];
  transaction_limits =
      record { user_id = 1; limit_type = "TRANSFER_INTERNAL"; daily_limit = pos 80000 } ∷ [];
}

abbrev with_token_out : World
with_token_out = record {
  db = paying_bank;
  idem = [];
  tokens = record { hash = "secret"; user = 1; purpose = "TRANSFER"; expires_at = 130 } ∷ [];
  inquiries = asked_inquiry ∷ [];
}

abbrev paid_response : Response
paid_response = record {
  transaction =
      transaction_row sample_attempt sample_params
        (record { dest_account_id = some 3; settlement_account_id = none; fee_account_id = none });
  params = sample_params;
}

abbrev paid_world : World
paid_world = (execute sample_env 1 sample_request "key-1" with_token_out).1

pays :
    execute sample_env 1 sample_request "key-1" with_token_out
    ≡ (ok (paid_response, false), paid_world)
unfolding execute find_entry run_claimed prepare consume_token live_token find_token delete_token
    with_token consume_inquiry find_inquiry delete_inquiry with_inquiry run_prepared settle persist
    delete_entry build_params cross_check derive_amount source_account find_owned is_external
    execute_transfer execute_from backoff_serialization try_execute run resolve_legs
    resolve_destination resolve_settlement resolve_fee resolve_shard find_customer find_shard
    find_id first lock_order sort_ids insert_sorted unique_ids lock_accounts locked_at check_balance
    check_limit used_today daily_limit write_balances write_leg debit_source_balance set_balance
    insert_row conflicts settle_insert finish write_mutations debit_mutation credit_mutation
    record_usage upsert_usage debit_row credit_row transaction_row ◌+ℤ◌ ◌-ℤ◌
pays = refl

execute-IsPaid_example :
    ((false ≡ true)
      × (paid_world ≡ with_token_out)
      × (find_entry 1 "key-1" with_token_out.idem ≡ some (stored paid_response)))
    ⊎ ((false ≡ false)
        × IsPaid sample_env 1 sample_request "key-1" with_token_out paid_response paid_world)
execute-IsPaid_example = execute-IsPaid sample_env 1 sample_request "key-1" with_token_out pays

-- No token was given out: the request is refused.
abbrev no_token : World
no_token = record { db = small_bank; idem = []; tokens = []; inquiries = asked_inquiry ∷ [] }

no_entry : find_entry 1 "key-1" [] ≡ none
unfolding find_entry
no_entry = refl

refused :
    execute sample_env 1 sample_request "key-1" no_token
    ≡ (err verification_token_invalid, no_token)
unfolding execute find_entry run_claimed prepare consume_token live_token find_token delete_token
    with_token run_prepared undo delete_entry
refused = refl

execute-IsUndone_example : IsUndone sample_env 1 "key-1" no_token no_token
execute-IsUndone_example =
    execute-IsUndone sample_env 1 sample_request "key-1" no_token no_entry refused

no_null : NullIsAbsent sample_attempt paying_bank
no_null z h = cc

paying_bank-UniqueIds : UniqueIds paying_bank.accounts
unfolding find_id first
paying_bank-UniqueIds = (refl, (refl, tt))

execute-total_example :
    total (execute sample_env 1 sample_request "key-1" with_token_out).1.db.accounts
    ≡ total with_token_out.db.accounts
execute-total_example =
    execute-total sample_env 1 sample_request "key-1" with_token_out paying_bank-UniqueIds
      (λ n z h. no_null z h) (omega arith, tt)
