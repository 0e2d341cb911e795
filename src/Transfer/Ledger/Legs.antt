-- ===== src/Transfer/Ledger/Legs.antt =====
-- The accounts that a transfer resolves: a customer's row other than the source, and internal rows of
-- two different rails.
use bca_mobile_api.Common.{
  ℕ, String, ◌≡◌, refl, ◌≢◌, ◌⊎◌, true, false, Option, some, none, arith, str_eq, ok, inl, inr,
  Bool-cases, Option-cases, Result-cases,
}
use bca_mobile_api.Common.Int.{pos, ltb_ℤ}
use bca_mobile_api.Transfer.Data.{Account, ExecuteParams}
use bca_mobile_api.Transfer.Db.{Db, find_id, find_customer, find_shard, is_customer, column_eq}
use bca_mobile_api.Transfer.Executor.Resolve.{
  Attempt, Legs, resolve_destination, resolve_shard, resolve_settlement, resolve_fee, resolve_legs,
  select_settlement, select_fee,
}
use bca_mobile_api.Transfer.Ledger.Rows.{UniqueIds, find_id-first}

pub record ResolvedLegs (env : Attempt) (p : ExecuteParams) (db : Db) (legs : Legs) : Type 0 where
  pub dest : resolve_destination env p db ≡ ok legs.dest_account_id
  pub settlement : resolve_settlement env p db ≡ ok legs.settlement_account_id
  pub fee : resolve_fee env p db ≡ ok legs.fee_account_id

pub resolve_legs-ResolvedLegs :
    (env : Attempt) (p : ExecuteParams) (db : Db) {legs : Legs}
    → resolve_legs env p db ≡ ok legs
    → ResolvedLegs env p db legs
unfolding resolve_legs
resolve_legs-ResolvedLegs env p db h = elim (Result-cases (resolve_destination env p db)) [
  | inr (x, e) ↦ let bad : ⊥ = ground arith in absurd bad
  | inl (d, e) ↦ elim (Result-cases (resolve_settlement env p db)) [
    | inr (x, f) ↦ let bad : ⊥ = ground arith in absurd bad
    | inl (s, f) ↦ elim (Result-cases (resolve_fee env p db)) [
      | inr (x, g) ↦ let bad : ⊥ = ground arith in absurd bad
      | inl (c, g) ↦ record { dest = ground arith; settlement = ground arith; fee = ground arith }
    ]
  ]
]

-- No row of `accounts` has the id that the driver makes of NULL.
abbrev pub NullIsAbsent : Attempt → Db → Type 0
NullIsAbsent env db = (z : ℕ) → env.scan_null ≡ some z → find_id z db.accounts ≡ none

pub record IsDestination (p : ExecuteParams) (db : Db) (i : ℕ) : Type 0 where
  pub row : Account
  pub found : find_id i db.accounts ≡ some row
  pub owned : is_customer row.owner_type ≡ true
  pub other : i ≢ p.source_account_id
  pub internal : str_eq p.transfer_type "INTERNAL" ≡ true

customer_row :
    (number : String) (db : Db) {a : Account}
    → UniqueIds db.accounts
    → find_customer number db.accounts ≡ some a
    → (find_id a.id db.accounts ≡ some a) × (is_customer a.owner_type ≡ true)
unfolding find_customer
customer_row number db {a} u h =
    let (found, passes) = find_id-first _ {a = a} db.accounts u h in (found, ground arith)

pub resolve_destination-IsDestination :
    (env : Attempt) (p : ExecuteParams) (db : Db) (i : ℕ)
    → UniqueIds db.accounts
    → resolve_destination env p db ≡ ok (some i)
    → IsDestination p db i
unfolding resolve_destination
resolve_destination-IsDestination env p db i u h =
    elim (Option-cases (find_customer p.inquiry.destination_account db.accounts)) [
      | inl e ↦ let bad : ⊥ = ground arith in absurd bad
      | inr (a, e) ↦
          let same : a.id ≡ i = ground arith in
          let (found, owned) = customer_row p.inquiry.destination_account db {a = a} u e in
          record {
            row = a;
            found = rw (← same) found;
            owned = owned;
            other = ground arith;
            internal = ground arith;
          }
    ]

pub record IsShard (rail : String) (a : Account) : Type 0 where
  pub owned : is_customer a.owner_type ≡ false
  pub on_rail : column_eq a.settlement_rail rail ≡ true

IsShard-row :
    (rail : String) (n : ℕ) (db : Db) {a : Account}
    → UniqueIds db.accounts
    → find_shard rail n db.accounts ≡ some a
    → (find_id a.id db.accounts ≡ some a) × IsShard rail a
unfolding find_shard
IsShard-row rail n db {a} u h =
    let (found, passes) = find_id-first _ {a = a} db.accounts u h in
    (found, record { owned = ground arith; on_rail = ground arith })

pub resolve_shard-IsShard :
    (env : Attempt) (rail : String) (db : Db) (i : ℕ) {a : Account}
    → UniqueIds db.accounts
    → NullIsAbsent env db
    → resolve_shard env rail db ≡ ok (some i)
    → find_id i db.accounts ≡ some a
    → IsShard rail a
unfolding resolve_shard
resolve_shard-IsShard env rail db i {a} u z h f =
    elim (Option-cases (find_shard rail (env.shard_of env.txn_id) db.accounts)) [
      | inl e ↦ let bad : ⊥ = ground (arith, z i) in absurd bad
      | inr (b, e) ↦
          let (found, shard) = IsShard-row rail (env.shard_of env.txn_id) db {a = b} u e in
          let same : b.id ≡ i = ground arith in
          let found' : find_id i db.accounts ≡ some b = rw (← same) found in
          let eq : b ≡ a = cc in rw (← eq) shard
    ]

-- A leg on an internal rail: there, with the row of its shard, or not.
abbrev pub RailLeg : Attempt → String → Db → Option ℕ → Type 0
RailLeg env rail db s = (i : ℕ) × (s ≡ some i) × (resolve_shard env rail db ≡ ok (some i))

resolve_shard-some :
    (env : Attempt) (rail : String) (db : Db) {s : Option ℕ}
    → resolve_shard env rail db ≡ ok s
    → RailLeg env rail db s
unfolding resolve_shard
resolve_shard-some env rail db {s = none} h = let bad : ⊥ = ground arith in absurd bad
resolve_shard-some env rail db {s = some i} h = (i, refl, h)

-- The settlement leg is there exactly for a transfer that leaves the bank.
pub resolve_settlement_cases :
    (env : Attempt) (p : ExecuteParams) (db : Db) {s : Option ℕ}
    → resolve_settlement env p db ≡ ok s
    → ((str_eq p.txn_type "TRANSFER_EXTERNAL" ≡ true) × RailLeg env "TRANSFER_EXTERNAL" db s)
      ⊎ ((str_eq p.txn_type "TRANSFER_EXTERNAL" ≡ false) × (s ≡ none))
unfolding resolve_settlement
resolve_settlement_cases env p db {s} h =
    elim (Bool-cases (str_eq p.txn_type "TRANSFER_EXTERNAL")) [
      | inr e ↦ inr (e, ground arith)
      | inl e ↦ elim (Option-cases (env.fault select_settlement)) [
        | inr (c, f) ↦ let bad : ⊥ = ground arith in absurd bad
        | inl f ↦
            let h' : resolve_shard env "TRANSFER_EXTERNAL" db ≡ ok s = ground arith in
            inl (e, resolve_shard-some env "TRANSFER_EXTERNAL" db h')
      ]
    ]

-- The fee leg is there exactly for a positive fee.
pub resolve_fee_cases :
    (env : Attempt) (p : ExecuteParams) (db : Db) {s : Option ℕ}
    → resolve_fee env p db ≡ ok s
    → ((ltb_ℤ (pos 0) p.admin_fee ≡ true) × RailLeg env "FEE_INCOME" db s)
      ⊎ ((ltb_ℤ (pos 0) p.admin_fee ≡ false) × (s ≡ none))
unfolding resolve_fee
resolve_fee_cases env p db {s} h = elim (Bool-cases (ltb_ℤ (pos 0) p.admin_fee)) [
  | inr e ↦ inr (e, ground arith)
  | inl e ↦ elim (Option-cases (env.fault select_fee)) [
    | inr (c, f) ↦ let bad : ⊥ = ground arith in absurd bad
    | inl f ↦
        let h' : resolve_shard env "FEE_INCOME" db ≡ ok s = ground arith in
        inl (e, resolve_shard-some env "FEE_INCOME" db h')
  ]
]

-- The destination leg is there exactly for a transfer inside the bank.
pub resolve_destination_cases :
    (env : Attempt) (p : ExecuteParams) (db : Db) {d : Option ℕ}
    → resolve_destination env p db ≡ ok d
    → ((str_eq p.transfer_type "INTERNAL" ≡ true) × ((i : ℕ) × (d ≡ some i)))
      ⊎ ((str_eq p.transfer_type "INTERNAL" ≡ false) × (d ≡ none))
unfolding resolve_destination
resolve_destination_cases env p db {d = none} h = inr (ground arith, refl)
resolve_destination_cases env p db {d = some i} h = inl (ground arith, (i, refl))
