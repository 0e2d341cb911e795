-- ===== src/Transfer/Service/Grants.antt =====
-- An inquiry and a token, and the theorems applied to them.
use bca_mobile_api.Common.{
  ◌≡◌, ◌≢◌, refl, none, some, [], ◌∷◌, arith, ok, err, verification_token_invalid,
}
use bca_mobile_api.Common.Int.{pos}
use bca_mobile_api.Transfer.Data.{Account, customer}
use bca_mobile_api.Transfer.Db.{Db}
use bca_mobile_api.Transfer.Service.Flow.{World, find_token, live_token, delete_token}
use bca_mobile_api.Transfer.Service.Inquire.{
  InquireEnv, InquiryRequest, create_verification_token, consume_verification_token,
}
use bca_mobile_api.Transfer.Service.Tokens.{
  consume_verification_token-once, consume_verification_token-create_verification_token,
}

abbrev other_account : Account
other_account = record {
  id = 8;
  user_id = some 2;
  account_number = "1110000002";
  account_label = "Tahapan Budi";
  owner_type = customer;
  status = "ACTIVE";
  balance = pos 500;
  hold_amount = pos 0;
  settlement_rail = none;
  shard_index = none;
}

abbrev bank : Db
bank = record {
  accounts = other_account ∷ [];
  daily_usage = [];
  transaction_limits = [];
  transactions = [];
  mutations = [];
}

abbrev start : World
start = record { db = bank; idem = []; tokens = []; inquiries = [] }

abbrev inquire_env : InquireEnv
inquire_env = record {
  now = 100;
  new_id = 5;
  random_token = some "r";
  hash = λ s. s;
  fault = λ c. none;
}

-- Two minutes later.
abbrev expired_env : InquireEnv
expired_env = record inquire_env { now = 220 }

abbrev asked : InquiryRequest
asked = record {
  destination_account = "1110000002";
  destination_bank = "";
  bank_code = "";
  transfer_type = "INTERNAL";
  amount = pos 250;
}

abbrev granted : World
granted = record start {
  tokens = record { hash = "r"; user = 1; purpose = "CHANGE_LIMIT"; expires_at = 220 } ∷ [];
}

grant_run : create_verification_token inquire_env 1 "CHANGE_LIMIT" start ≡ (ok "r", granted)
unfolding create_verification_token
grant_run = refl

consume_verification_token-create_verification_token_example :
    ((consume_verification_token inquire_env 1 "r" "CHANGE_LIMIT" granted).0 ≡ ok tt)
    × ((consume_verification_token inquire_env 2 "r" "CHANGE_LIMIT" granted).0
        ≡ err verification_token_invalid)
    × ((consume_verification_token expired_env 1 "r" "CHANGE_LIMIT" granted).0
        ≡ err verification_token_invalid)
consume_verification_token-create_verification_token_example =
    consume_verification_token-create_verification_token inquire_env inquire_env expired_env 1 2 "r"
      "CHANGE_LIMIT" start granted refl refl refl refl refl (omega arith) (omega arith) refl refl
      grant_run

consume_run : consume_verification_token inquire_env 1 "r" "CHANGE_LIMIT" granted ≡ (ok tt, start)
unfolding consume_verification_token live_token find_token delete_token
consume_run = refl

consume_verification_token-once_example :
    consume_verification_token inquire_env 1 "r" "TRANSFER" start ≢ (ok tt, start)
consume_verification_token-once_example =
    consume_verification_token-once inquire_env inquire_env 1 1 "r" "CHANGE_LIMIT" "TRANSFER"
      granted start start refl consume_run
