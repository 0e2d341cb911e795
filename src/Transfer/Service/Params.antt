-- ===== src/Transfer/Service/Params.antt =====
-- internal/domain/transaction/service_execute.go: what the service hands to the executor.
use bca_mobile_api.Common.{
  ℕ, String, Bool, true, false, not, ◌≡◌, refl, some, List, str_eq, arith, ok, >>=-eq_ok,
  Option-cases, inl, inr,
}
use bca_mobile_api.Common.Int.{pos, ◌≤ℤ◌}
use bca_mobile_api.Transfer.Data.{Account, Inquiry, ExecuteParams}
use bca_mobile_api.Transfer.Db.{Db, find_id, is_customer, index_eq}
use bca_mobile_api.Transfer.Ledger.Rows.{UniqueIds, find_id-first}
use bca_mobile_api.Transfer.Ledger.Committed.{IsCoherent}
use bca_mobile_api.Transfer.Service.Request.{
  TransferRequest, RequestEnv, cross_check, derive_amount, fee_of, find_owned, source_account,
  is_external, type_text, mapped_text, build_params,
}

-- The source is the caller's own active account.
pub record IsOwnSource (user : ℕ) (p : ExecuteParams) (db : Db) : Type 0 where
  pub source : Account
  pub found : find_id p.source_account_id db.accounts ≡ some source
  pub owner : index_eq source.user_id user ≡ true
  pub customer : is_customer source.owner_type ≡ true
  pub active : str_eq source.status "ACTIVE" ≡ true
  pub not_destination : str_eq source.account_number p.inquiry.destination_account ≡ false

find_owned_row :
    (user i : ℕ) (rows : List Account) {a : Account}
    → UniqueIds rows
    → find_owned user i rows ≡ some a
    → (find_id a.id rows ≡ some a)
      × (index_eq a.user_id user ≡ true)
      × (is_customer a.owner_type ≡ true)
      × (str_eq a.status "ACTIVE" ≡ true)
unfolding find_owned
find_owned_row user i rows {a} u h =
    let (found, passes) = find_id-first _ {a = a} rows u h in
    (found, ground arith, ground arith, ground arith)

source_account_row :
    (env : RequestEnv) (user : ℕ) (req : TransferRequest) (q : Inquiry) (db : Db) {a : Account}
    → source_account env user req q db ≡ ok a
    → (i : ℕ) × (find_owned user i db.accounts ≡ some a)
      × (str_eq a.account_number q.destination_account ≡ false)
unfolding source_account
source_account_row env user req q db {a} h =
    elim (Option-cases (env.parse_uuid req.source_account_id)) [
      | inl e ↦ let bad : ⊥ = ground arith in absurd bad
      | inr (i, e) ↦ elim (Option-cases env.account_fault) [
        | inr (c, f) ↦ let bad : ⊥ = ground arith in absurd bad
        | inl f ↦ elim (Option-cases (find_owned user i db.accounts)) [
          | inl g ↦ let bad : ⊥ = ground arith in absurd bad
          | inr (b, g) ↦ (i, ground arith, ground arith)
        ]
      ]
    ]

rail_text :
    (external : Bool)
    → str_eq (mapped_text external) "TRANSFER_EXTERNAL"
      ≡ not (str_eq (type_text external) "INTERNAL")
rail_text true = refl
rail_text false = refl

-- The parameters that the service sends are what the executor relies on: the total is the amount and
-- the fee, the transaction type says whether the money leaves the bank, and the source is an active
-- customer's account of the caller that is not the destination. The ids of `accounts` are unique, and
-- the inquiry's fee is not negative.
pub build_params-IsCoherent :
    (env : RequestEnv) (user : ℕ) (req : TransferRequest) (key : String) (q : Inquiry) (db : Db)
    {p : ExecuteParams}
    → UniqueIds db.accounts
    → pos 0 ≤ℤ fee_of q
    → build_params env user req key q db ≡ ok p
    → IsCoherent p × IsOwnSource user p db
unfolding build_params
build_params-IsCoherent env user req key q db {p} u fee h =
    let (_, _, h₁) = >>=-eq_ok (cross_check req q) _ h in
    let (amount, _, h₂) = >>=-eq_ok (derive_amount req q) _ h₁ in
    let (a, e, h₃) = >>=-eq_ok (source_account env user req q db) _ h₂ in
    let (i, owned, other) = source_account_row env user req q db e in
    let (found, own, cust, act) = find_owned_row user i db.accounts u owned in
    rw (← same_ok h₃) (
      record { sums = refl; fee_positive = fee; rail = rail_text (is_external req q) },
      record {
        source = a;
        found = found;
        owner = own;
        customer = cust;
        active = act;
        not_destination = other;
      },
    )
  where
    same_ok : {x y : ExecuteParams} → ok x ≡ ok y → x ≡ y
    same_ok h = cc
