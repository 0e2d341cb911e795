-- ===== src/Transfer/Service/Request.antt =====
-- internal/domain/transaction/service_execute.go, lines 144 to 227: from a request and an inquiry to the
-- parameters of the executor. An amount of the request is in whole rupiah; the model's amounts are
-- hundredths. `parse_uuid` is the parser of google/uuid.
use bca_mobile_api.Common.{
  ℕ, ◌*◌, String, Bool, false, not, ◌&&◌, ◌||◌, Option, none, some, List, ◌==◌, str_eq,
  if◌then◌else◌, Cause, Result, ok, err, ◌>>=◌, ◌>>◌, refuse, wrapped, validation_error,
  inquiry_mismatch, source_account_forbidden, self_transfer,
}
use bca_mobile_api.Common.Int.{ℤ, pos, pos_part, ◌+ℤ◌, ltb_ℤ}
use bca_mobile_api.Transfer.Data.{Account, Inquiry, ExecuteParams}
use bca_mobile_api.Transfer.Db.{Db, first, is_customer, index_eq}

pub record TransferRequest : Type 0 where
  pub inquiry_id : String
  pub source_account_id : String
  pub destination_account : String
  pub bank_code : String
  pub transfer_type : String
  pub amount : ℤ
  pub notes : String
  pub verification_token : String

-- What the request meets: the parser, the fault of the account query, and the clock in WIB.
pub record RequestEnv : Type 0 where
  pub parse_uuid : String → Option ℕ
  pub account_fault : Option Cause
  pub wib_date : ℕ
  pub wib_time : ℕ

abbrev pub bank_differs : String → Option String → Bool
bank_differs code none = false
bank_differs code (some c) = not (str_eq code "") && not (str_eq code c)

unfoldable pub cross_check : TransferRequest → Inquiry → Result (Unit {0})
cross_check req q = do
  refuse
      (not (str_eq req.destination_account "")
        && not (str_eq req.destination_account q.destination_account))
      inquiry_mismatch
  refuse (bank_differs req.bank_code q.bank_code) inquiry_mismatch

abbrev pub nonzero : Option ℤ → Option ℤ
nonzero none = none
nonzero (some (pos n)) = if n == 0 then none else some (pos n)
nonzero (some a) = some a

-- The amount of the inquiry, or else that of the request.
unfoldable pub derive_amount : TransferRequest → Inquiry → Result ℤ
derive_amount req q = elim (nonzero q.amount) [
  | some a ↦ ok a
  | none ↦
      if ltb_ℤ (pos 0) req.amount
      then ok (pos (pos_part req.amount * 100))
      else err validation_error
]

abbrev pub fee_of : Inquiry → ℤ
fee_of q = elim q.admin_fee [ none ↦ pos 0 | some f ↦ f ]

-- `WHERE id = $1 AND user_id = $2`, on customers' active accounts
unfoldable pub find_owned : ℕ → ℕ → List Account → Option Account
unfolding first
find_owned user i = first (λ a.
    a.id == i && index_eq a.user_id user && is_customer a.owner_type && str_eq a.status "ACTIVE")

unfoldable pub source_account : RequestEnv → ℕ → TransferRequest → Inquiry → Db → Result Account
unfolding find_owned
source_account env user req q db = elim (env.parse_uuid req.source_account_id) [
  | none ↦ err validation_error
  | some i ↦ elim env.account_fault [
    | some c ↦ err (wrapped "resolve source account" c)
    | none ↦ elim (find_owned user i db.accounts) [
      | none ↦ err source_account_forbidden
      | some a ↦ if str_eq a.account_number q.destination_account then err self_transfer else ok a
    ]
  ]
]

abbrev pub is_foreign : Option String → Bool
is_foreign none = false
is_foreign (some code) = not (str_eq code "014")

-- Whether the money leaves the bank: the inquiry's bank decides, and the request can only say so too.
unfoldable pub is_external : TransferRequest → Inquiry → Bool
is_external req q =
    is_foreign q.bank_code
    || str_eq req.transfer_type "EXTERNAL"
    || str_eq req.transfer_type "VIRTUAL_ACCOUNT"

-- The values of the transfer type and of both maps at it.
abbrev pub type_text : Bool → String
type_text external = if external then "EXTERNAL" else "INTERNAL"

abbrev pub mapped_text : Bool → String
mapped_text external = if external then "TRANSFER_EXTERNAL" else "TRANSFER_INTERNAL"

unfoldable pub build_params :
    RequestEnv → ℕ → TransferRequest → String → Inquiry → Db → Result ExecuteParams
unfolding cross_check derive_amount source_account is_external
build_params env user req key q db = do
  cross_check req q
  amount ← derive_amount req q
  source ← source_account env user req q db
  let external = is_external req q
  ok (record {
    idempotency_key = key;
    user_id = user;
    source_account_id = source.id;
    inquiry = q;
    transfer_type = type_text external;
    txn_type = mapped_text external;
    limit_type = mapped_text external;
    amount = amount;
    admin_fee = fee_of q;
    total_amount = amount +ℤ fee_of q;
    notes = req.notes;
    wib_date = env.wib_date;
    wib_time = env.wib_time;
  })
