-- ===== src/Transfer/Service/Offers.antt =====
-- internal/domain/transaction/service.go: what CreateInquiry offers for a transfer.
use bca_mobile_api.Common.{
  ℕ, ◌+◌, ◌≡◌, true, false, Bool, none, some, ◌∷◌, str_eq, Option, Cause, Result, ok, err,
}
use bca_mobile_api.Common.Int.{pos}
use bca_mobile_api.Common.State.{Action, ◌>>◌, give, try, try_change}
use bca_mobile_api.Transfer.Data.{Account, Inquiry}
use bca_mobile_api.Transfer.Db.{find_customer, index_eq}
use bca_mobile_api.Transfer.Service.Flow.{World}
use bca_mobile_api.Transfer.Service.Inquire.{
  InquireEnv, InquiryRequest, Destination, insert_inquiry, store_inquiry, valid_transfer_type,
  is_outside, inquiry_amount, new_inquiry,
}

-- A destination outside the bank names its bank and costs Rp 6.500. One inside is an account of another
-- user, which is free and under its own name.
abbrev pub IsPriced : Bool → ℕ → InquiryRequest → World → Destination → Type 0
IsPriced true user q w d =
    (str_eq q.bank_code "" ≡ false)
    × (d.name ≡ q.destination_account)
    × (d.bank ≡ q.destination_bank)
    × (d.code ≡ q.bank_code)
    × (d.fee ≡ pos 650000)
IsPriced false user q w d =
    (a : Account) × (find_customer q.destination_account w.db.accounts ≡ some a)
    × (index_eq a.user_id user ≡ false)
    × (d.name ≡ a.account_label)
    × (d.bank ≡ "BCA")
    × (d.code ≡ "014")
    × (d.fee ≡ pos 0)

abbrev after_store : Option Cause → Inquiry → World → World
after_store none i w = record w { inquiries = i ∷ w.inquiries }
after_store (some e) i w = w

-- What an inquiry that was created says, and where it is.
pub record IsOffer (env : InquireEnv) (user : ℕ) (q : InquiryRequest) (w : World) (i : Inquiry)
    (v : World) : Type 0 where
  pub valid : valid_transfer_type q.transfer_type ≡ true
  pub destination : Destination
  pub priced : IsPriced (is_outside q.transfer_type) user q w destination
  pub owner : i.user_id ≡ user
  pub account : i.destination_account ≡ q.destination_account
  pub name : i.destination_name ≡ some destination.name
  pub bank : i.destination_bank ≡ some destination.bank
  pub code : i.bank_code ≡ some destination.code
  pub fee : i.admin_fee ≡ some destination.fee
  pub amount : i.amount ≡ inquiry_amount q.amount
  pub expiry : i.expires_at ≡ env.now + 300
  pub unused : i.used_at ≡ none
  pub stored : v ≡ after_store (env.fault store_inquiry) i w

-- An error leaves everything as it was.
abbrev pub Offered : InquireEnv → ℕ → InquiryRequest → World → Result Inquiry × World → Type 0
Offered env user q w (err e, v) = v ≡ w
Offered env user q w (ok i, v) = IsOffer env user q w i v

abbrev Found : Bool → ℕ → InquiryRequest → World → Result Destination × World → Type 0
Found b user q w (err e, v) = v ≡ w
Found b user q w (ok d, v) = (v ≡ w) × IsPriced b user q w d

-- The rest of CreateInquiry.
abbrev keep : InquireEnv → ℕ → InquiryRequest → Destination → Action World Inquiry
keep env user q d =
    try (env.fault insert_inquiry) "create inquiry: "
    >> (try_change (env.fault store_inquiry)
          (λ v. record v { inquiries = new_inquiry env user q d ∷ v.inquiries })
        >> give (new_inquiry env user q d))
