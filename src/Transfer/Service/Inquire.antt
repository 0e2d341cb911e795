-- ===== src/Transfer/Service/Inquire.antt =====
-- internal/domain/transaction/service.go: CreateInquiry, CreateVerificationToken and
-- ConsumeVerificationToken, over the caches of `Flow`. The audit rows in PostgreSQL are left out, except
-- that a failure to insert one is an error. An amount of a request is in whole rupiah.
use bca_mobile_api.Common.{
  ℕ, ◌+◌, ◌*◌, String, Bool, true, false, not, ◌&&◌, ◌||◌, Option, none, some, ◌∷◌, ◌==◌, str_eq,
  if◌then◌else◌, Cause, wrapped, validation_error, transfer_account_not_found, self_transfer,
  verification_token_invalid,
}
use bca_mobile_api.Common.Int.{ℤ, pos, ltb_ℤ, pos_part}
use bca_mobile_api.Common.State.{
  Action, ◌>>=◌, ◌>>◌, give, refuse, read, modify, need, try, try_change,
}
use bca_mobile_api.Transfer.Data.{Inquiry}
use bca_mobile_api.Transfer.Db.{find_customer, index_eq}
use bca_mobile_api.Transfer.Service.Flow.{
  World, Token, verification_token_ttl, live_token, delete_token,
}

pub data Call : Type 0 where
  find_destination insert_inquiry store_inquiry insert_token store_token get_token : Call

pub record InquireEnv : Type 0 where
  pub now : ℕ
  pub new_id : ℕ
  pub random_token : Option String
  pub hash : String → String
  pub fault : Call → Option Cause

pub record InquiryRequest : Type 0 where
  pub destination_account : String
  pub destination_bank : String
  pub bank_code : String
  pub transfer_type : String
  pub amount : ℤ

abbrev pub valid_transfer_type : String → Bool
valid_transfer_type t = str_eq t "INTERNAL" || str_eq t "EXTERNAL" || str_eq t "VIRTUAL_ACCOUNT"

abbrev pub valid_purpose : String → Bool
valid_purpose p =
    str_eq p "TRANSFER"
    || str_eq p "EWALLET_TOPUP"
    || str_eq p "QRIS_PAYMENT"
    || str_eq p "CHANGE_LIMIT"
    || str_eq p "CHANGE_PIN"
    || str_eq p "CHANGE_PROFILE"
    || str_eq p "BLOCK_CARD"
    || str_eq p "REPLACE_CARD"

abbrev pub is_outside : String → Bool
is_outside t = str_eq t "EXTERNAL" || str_eq t "VIRTUAL_ACCOUNT"

-- Rp 6.500
abbrev pub bank_fee : ℤ
bank_fee = pos (100 * 6500)

-- The name, the bank, its code and the fee of a destination.
pub record Destination : Type 0 where
  pub name : String
  pub bank : String
  pub code : String
  pub fee : ℤ

unfoldable pub inside_destination : InquireEnv → ℕ → InquiryRequest → Action World Destination
unfolding find_customer
inside_destination env user q = do
  try (env.fault find_destination) "find destination: "
  found ← read (λ w. find_customer q.destination_account w.db.accounts)
  a ← need found transfer_account_not_found
  refuse (index_eq a.user_id user) self_transfer
  give (record { name = a.account_label; bank = "BCA"; code = "014"; fee = pos 0 })

unfoldable pub outside_destination : InquiryRequest → Action World Destination
outside_destination q = do
  refuse (str_eq q.bank_code "") validation_error
  give (record {
    name = q.destination_account;
    bank = q.destination_bank;
    code = q.bank_code;
    fee = bank_fee;
  })

unfoldable pub destination_of : InquireEnv → ℕ → InquiryRequest → Bool → Action World Destination
unfolding inside_destination outside_destination
destination_of env user q true = outside_destination q
destination_of env user q false = inside_destination env user q

abbrev pub inquiry_amount : ℤ → Option ℤ
inquiry_amount n = if ltb_ℤ (pos 0) n then some (pos (100 * pos_part n)) else none

abbrev pub inquiry_cache_ttl : ℕ
inquiry_cache_ttl = 5 * 60

abbrev pub new_inquiry : InquireEnv → ℕ → InquiryRequest → Destination → Inquiry
new_inquiry env user q d = record {
  id = env.new_id;
  user_id = user;
  inquiry_type = "TRANSFER";
  destination_account = q.destination_account;
  destination_name = some d.name;
  destination_bank = some d.bank;
  bank_code = some d.code;
  provider_id = none;
  amount = inquiry_amount q.amount;
  admin_fee = some d.fee;
  expires_at = env.now + inquiry_cache_ttl;
  used_at = none;
  created_at = env.now;
}

unfoldable pub create_inquiry : InquireEnv → ℕ → InquiryRequest → Action World Inquiry
unfolding destination_of
create_inquiry env user q = do
  refuse (not (valid_transfer_type q.transfer_type)) validation_error
  d ← destination_of env user q (is_outside q.transfer_type)
  try (env.fault insert_inquiry) "create inquiry: "
  try_change (env.fault store_inquiry)
      (λ w. record w { inquiries = new_inquiry env user q d ∷ w.inquiries })
  give (new_inquiry env user q d)

unfoldable pub create_verification_token : InquireEnv → ℕ → String → Action World String
create_verification_token env user purpose = do
  refuse (not (valid_purpose purpose)) validation_error
  raw ← need env.random_token (wrapped "generate token: " Cause.failed)
  try (env.fault insert_token) "create vtoken: "
  try_change (env.fault store_token) (λ w. record w {
    tokens =
        record {
          hash = env.hash raw;
          user = user;
          purpose = purpose;
          expires_at = env.now + verification_token_ttl;
        }
        ∷ w.tokens;
  })
  give raw

abbrev pub is_granted : ℕ → String → Option Token → Bool
is_granted user purpose none = false
is_granted user purpose (some t) = t.user == user && str_eq t.purpose purpose

unfoldable pub consume_verification_token :
    InquireEnv → ℕ → String → String → Action World (Unit {0})
unfolding live_token delete_token
consume_verification_token env user raw purpose = do
  refuse (str_eq raw "") verification_token_invalid
  refuse (not (valid_purpose purpose)) validation_error
  try (env.fault get_token) "consume vtoken: "
  found ← read (λ w. live_token env.now (env.hash raw) w.tokens)
  modify (λ w. record w { tokens = delete_token (env.hash raw) w.tokens })
  refuse (not (is_granted user purpose found)) verification_token_invalid
