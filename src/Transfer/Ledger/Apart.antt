-- ===== src/Transfer/Ledger/Apart.antt =====
-- The accounts of a transfer are four different ones: a customer's account is on no rail, and an
-- internal account is on one.
use bca_mobile_api.Common.{
  ap, ℕ, String, ◌≡◌, true, false, Option, some, none, arith, eq_iff, ok, inl, inr, Option-cases,
  List,
}
use bca_mobile_api.Transfer.Data.{Account, ExecuteParams}
use bca_mobile_api.Transfer.Db.{Db, find_id, is_customer, column_eq}
use bca_mobile_api.Transfer.Executor.Resolve.{Attempt, Legs, resolve_shard}
use bca_mobile_api.Transfer.Executor.Lock.{LockedAccount}
use bca_mobile_api.Transfer.Executor.Post.{credit_leg}
use bca_mobile_api.Transfer.Ledger.Rows.{UniqueIds}
use bca_mobile_api.Transfer.Ledger.Legs.{
  ResolvedLegs, NullIsAbsent, resolve_destination-IsDestination, IsShard, resolve_shard-IsShard,
  RailLeg, resolve_settlement_cases, resolve_fee_cases,
}
use bca_mobile_api.Transfer.Ledger.Writes.{LegIsCurrent}
use bca_mobile_api.Transfer.Ledger.Balances.{Apart, AreApart, AreCurrent}

abbrev pub IsOwned : List Account → Option ℕ → Type 0
IsOwned rows none = Unit
IsOwned rows (some i) =
    (a : Account) × (find_id i rows ≡ some a) × (is_customer a.owner_type ≡ true)

abbrev pub OnRail : String → List Account → Option ℕ → Type 0
OnRail rail rows none = Unit
OnRail rail rows (some i) = (a : Account) × (find_id i rows ≡ some a) × IsShard rail a

owned-rail-Apart :
    (rail : String) (rows : List Account) (l m : Option ℕ)
    → IsOwned rows l
    → OnRail rail rows m
    → Apart l m
owned-rail-Apart rail rows none m o r = tt
owned-rail-Apart rail rows (some i) none o r = tt
owned-rail-Apart rail rows (some i) (some j) (a, f, own) (b, g, shard) = λ e.
    let own' = shard.owned in
    let same : b ≡ a = ground (arith, f, g, e) in
    let bad : is_customer a.owner_type ≡ false = rw (← same) own' in ground arith

column_eq-some : (c : Option String) (s : String) → column_eq c s ≡ true → c ≡ some s
column_eq-some none s h = cc
column_eq-some (some t) s h = ap some ((eq_iff t s).0 h)

rails-Apart :
    (rows : List Account) (l m : Option ℕ)
    → OnRail "TRANSFER_EXTERNAL" rows l
    → OnRail "FEE_INCOME" rows m
    → Apart l m
rails-Apart rows none m o r = tt
rails-Apart rows (some i) none o r = tt
rails-Apart rows (some i) (some j) (a, f, s) (b, g, t) = λ e.
    let same : b ≡ a = ground (arith, f, g, e) in
    let on = column_eq-some a.settlement_rail "TRANSFER_EXTERNAL" s.on_rail in
    let on' = column_eq-some b.settlement_rail "FEE_INCOME" t.on_rail in
    let eq : "TRANSFER_EXTERNAL" ≡ "FEE_INCOME" = cc in
    let bad : false ≡ true = (eq_iff "TRANSFER_EXTERNAL" "FEE_INCOME").1 eq in cc

RailLeg-OnRail :
    (env : Attempt) (rail : String) (db : Db) (leg : Option ℕ) (locked : List LockedAccount)
    → UniqueIds db.accounts
    → NullIsAbsent env db
    → LegIsCurrent leg locked db.accounts
    → RailLeg env rail db leg
    → OnRail rail db.accounts leg
RailLeg-OnRail env rail db none locked u z c (i, e, h) = tt
RailLeg-OnRail env rail db (some j) locked u z c (i, e, h) =
    let same : i ≡ j = ground arith in
    let h' : resolve_shard env rail db ≡ ok (some j) = rw (← same) h in
    (c.row, c.found, resolve_shard-IsShard env rail db j u z h' c.found)

none-OnRail :
    (rail : String) (rows : List Account) {leg : Option ℕ} → leg ≡ none → OnRail rail rows leg
none-OnRail rail rows e = rw e tt

dest-Apart :
    (env : Attempt) (p : ExecuteParams) (db : Db) (legs : Legs)
    → UniqueIds db.accounts
    → ResolvedLegs env p db legs
    → IsOwned db.accounts (credit_leg p legs) × Apart (some p.source_account_id) (credit_leg p legs)
dest-Apart env p db legs u r = elim (Option-cases (credit_leg p legs)) [
  | inl e ↦ rw e (tt, tt)
  | inr (i, e) ↦
      let e' : legs.dest_account_id ≡ some i = ground arith in
      let d = resolve_destination-IsDestination env p db i u (rw (← e') r.dest) in
      rw e ((d.row, d.found, d.owned), d.other)
]

pub resolved-AreApart :
    (env : Attempt) (p : ExecuteParams) (db : Db) (legs : Legs) {locked : List LockedAccount}
    → UniqueIds db.accounts
    → NullIsAbsent env db
    → IsOwned db.accounts (some p.source_account_id)
    → AreCurrent p.source_account_id p legs locked db.accounts
    → ResolvedLegs env p db legs
    → AreApart p.source_account_id p legs
resolved-AreApart env p db legs {locked} u z own c r =
    let rows = db.accounts in
    let (dest, other) = dest-Apart env p db legs u r in
    let s : OnRail "TRANSFER_EXTERNAL" rows legs.settlement_account_id =
      elim (resolve_settlement_cases env p db r.settlement) [
        | inl (_, k) ↦
            RailLeg-OnRail env "TRANSFER_EXTERNAL" db legs.settlement_account_id locked u z
              c.settlement_row k
        | inr (_, k) ↦ none-OnRail "TRANSFER_EXTERNAL" rows k
      ] in
    let f : OnRail "FEE_INCOME" rows legs.fee_account_id = elim (resolve_fee_cases env p db r.fee) [
      | inl (_, k) ↦ RailLeg-OnRail env "FEE_INCOME" db legs.fee_account_id locked u z c.fee_row k
      | inr (_, k) ↦ none-OnRail "FEE_INCOME" rows k
    ] in
    record {
      source_dest = other;
      source_settlement =
          owned-rail-Apart "TRANSFER_EXTERNAL" rows (some p.source_account_id) _ own s;
      source_fee = owned-rail-Apart "FEE_INCOME" rows (some p.source_account_id) _ own f;
      dest_settlement = owned-rail-Apart "TRANSFER_EXTERNAL" rows (credit_leg p legs) _ dest s;
      dest_fee = owned-rail-Apart "FEE_INCOME" rows (credit_leg p legs) _ dest f;
      settlement_fee = rails-Apart rows _ _ s f;
    }
