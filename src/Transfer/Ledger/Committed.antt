-- ===== src/Transfer/Ledger/Committed.antt =====
-- What a committed attempt did to the tables, from the assumptions that the schema and the service
-- give: the accounts that it moved money between are four different ones, and the amounts add up.
use bca_mobile_api.Common.{
  ap, ℕ, ◌≡◌, refl, true, false, not, Option, some, none, arith, str_eq, ok, inl, inr, List, ◌∷◌,
  contains, ◌∙◌, ◌++◌, >>=-eq_ok, refuse-eq_ok,
}
use bca_mobile_api.Common.Int.{ℤ, pos, ltb_ℤ, ◌+ℤ◌, ◌-ℤ◌, ◌≤ℤ◌, int_laws, eq_of_parts}
use bca_mobile_api.Transfer.Data.{Account, ExecuteParams, Transaction}
use bca_mobile_api.Transfer.Db.{
  Db, find_id, is_customer, upsert_usage, used_today, daily_limit, conflicts,
}
use bca_mobile_api.Transfer.Executor.Resolve.{Attempt, Legs, run, select_usage, select_limit}
use bca_mobile_api.Transfer.Executor.Lock.{
  LockedAccount, locked_at, lock_order, lock_accounts, account_ids,
}
use bca_mobile_api.Transfer.Executor.Post.{credit_leg, check_balance, check_limit}
use bca_mobile_api.Transfer.Ledger.Rows.{UniqueIds}
use bca_mobile_api.Transfer.Ledger.Snapshot.{lock_accounts-IsCurrent}
use bca_mobile_api.Transfer.Ledger.LockOrder.{lock_order-IsAscending}
use bca_mobile_api.Transfer.Ledger.Legs.{
  ResolvedLegs, resolve_legs-ResolvedLegs, NullIsAbsent, resolve_settlement_cases,
  resolve_fee_cases, resolve_destination_cases,
}
use bca_mobile_api.Transfer.Ledger.Writes.{leg_amount, LegIsCurrent}
use bca_mobile_api.Transfer.Ledger.Balances.{
  AreApart, AreCurrent, net_amount, Moves, write_balances-Moves,
}
use bca_mobile_api.Transfer.Executor.Record.{transaction_row}
use bca_mobile_api.Transfer.Ledger.Mutations.{mutation_rows, finished_tables, finish_lem}
use bca_mobile_api.Transfer.Ledger.Posting.{Posting, with_row}
use bca_mobile_api.Transfer.Ledger.Apart.{IsOwned, resolved-AreApart}

-- The schema: `id` is the primary key, the source is a customer's account, and no row has the id
-- that the driver makes of NULL.
pub record IsBank (env : Attempt) (p : ExecuteParams) (db : Db) : Type 0 where
  pub unique : UniqueIds db.accounts
  pub source : Account
  pub source_found : find_id p.source_account_id db.accounts ≡ some source
  pub source_owned : is_customer source.owner_type ≡ true
  pub no_null : NullIsAbsent env db

-- What the service sends: the total is the amount and the fee, the fee is not negative, and the
-- transaction type says whether the money leaves the bank.
pub record IsCoherent (p : ExecuteParams) : Type 0 where
  pub sums : p.total_amount ≡ p.amount +ℤ p.admin_fee
  pub fee_positive : pos 0 ≤ℤ p.admin_fee
  pub rail : str_eq p.txn_type "TRANSFER_EXTERNAL" ≡ not (str_eq p.transfer_type "INTERNAL")

-- Every leg is locked, with the row that the table has.
leg_contained :
    (leg : Option ℕ) (source : ℕ) (legs : Legs) (env : Attempt) (db : Db)
    {locked : List LockedAccount}
    → ((i : ℕ) → leg ≡ some i → contains i (account_ids source legs) ≡ true)
    → lock_accounts env (lock_order source legs) db ≡ ok locked
    → LegIsCurrent leg locked db.accounts
leg_contained none source legs env db c l = tt
leg_contained (some i) source legs env db c l =
    lock_accounts-IsCurrent env (lock_order source legs) db i l
      ((lock_order-IsAscending source legs).1 i ∙ c i refl)

contains_dest :
    (i s : ℕ) (d e f : Option ℕ)
    → d ≡ some i
    → contains i (
        account_ids s
          (record { dest_account_id = d; settlement_account_id = e; fee_account_id = f }))
      ≡ true
contains_dest i s none e f h = cc
contains_dest i s (some j) e f h = ground arith

contains_settlement :
    (i s : ℕ) (d e f : Option ℕ)
    → e ≡ some i
    → contains i (
        account_ids s
          (record { dest_account_id = d; settlement_account_id = e; fee_account_id = f }))
      ≡ true
contains_settlement i s d none f h = cc
contains_settlement i s none (some j) f h = ground arith
contains_settlement i s (some k) (some j) f h = ground arith

contains_fee :
    (i s : ℕ) (d e f : Option ℕ)
    → f ≡ some i
    → contains i (
        account_ids s
          (record { dest_account_id = d; settlement_account_id = e; fee_account_id = f }))
      ≡ true
contains_fee i s d e none h = cc
contains_fee i s none none (some j) h = ground arith
contains_fee i s none (some m) (some j) h = ground arith
contains_fee i s (some k) none (some j) h = ground arith
contains_fee i s (some k) (some m) (some j) h = ground arith

credit_leg-some :
    (p : ExecuteParams) (legs : Legs) (i : ℕ)
    → credit_leg p legs ≡ some i
    → legs.dest_account_id ≡ some i
credit_leg-some p legs i h = ground arith

pub locked-AreCurrent :
    (env : Attempt) (p : ExecuteParams) (legs : Legs) (db : Db) {locked : List LockedAccount}
    → lock_accounts env (lock_order p.source_account_id legs) db ≡ ok locked
    → AreCurrent p.source_account_id p legs locked db.accounts
locked-AreCurrent env p legs db l =
    let s = p.source_account_id in
    record {
      source_row = leg_contained (some s) s legs env db (λ i e. ground arith) l;
      dest_row =
          leg_contained (credit_leg p legs) s legs env db
            (λ i e.
              contains_dest i s legs.dest_account_id legs.settlement_account_id legs.fee_account_id
                (credit_leg-some p legs i e))
            l;
      settlement_row =
          leg_contained legs.settlement_account_id s legs env db
            (λ i e.
              contains_settlement i s legs.dest_account_id legs.settlement_account_id
                legs.fee_account_id e)
            l;
      fee_row =
          leg_contained legs.fee_account_id s legs env db
            (λ i e.
              contains_fee i s legs.dest_account_id legs.settlement_account_id legs.fee_account_id
                e)
            l;
    }

-- Everything that a committed attempt is known to have done.
pub record Committed (env : Attempt) (p : ExecuteParams) (db : Db) (t : Transaction) (db' : Db)
    : Type 0 where
  pub legs : Legs
  pub locked : List LockedAccount
  pub current : AreCurrent p.source_account_id p legs locked db.accounts
  pub apart : AreApart p.source_account_id p legs
  pub resolved : ResolvedLegs env p db legs
  pub funded :
      ltb_ℤ
        ((locked_at p.source_account_id locked).balance
          -ℤ (locked_at p.source_account_id locked).hold)
        p.total_amount
      ≡ false
  pub limited :
      ltb_ℤ
        (daily_limit p.user_id p.limit_type db.transaction_limits
          -ℤ used_today p.user_id p.wib_date p.limit_type db.daily_usage)
        p.total_amount
      ≡ false
  pub balanced : net_amount p legs ≡ pos 0
  pub moves : Moves p legs db (record db { accounts = db'.accounts })
  pub answer : t ≡ transaction_row env p legs
  pub unseen : conflicts (transaction_row env p legs) db.transactions ≡ false
  pub transactions : db'.transactions ≡ transaction_row env p legs ∷ db.transactions
  pub mutations : db'.mutations ≡ mutation_rows env p legs locked ++ db.mutations
  pub usage :
      db'.daily_usage ≡ upsert_usage p.user_id p.wib_date p.limit_type p.total_amount db.daily_usage
  pub limits : db'.transaction_limits ≡ db.transaction_limits

there : {leg : Option ℕ} (i : ℕ) (amount : ℤ) → leg ≡ some i → leg_amount leg amount ≡ amount
there i amount e = rw e refl

absent : {leg : Option ℕ} (amount : ℤ) → leg ≡ none → leg_amount leg amount ≡ pos 0
absent amount e = rw e refl

credited_once :
    (env : Attempt) (p : ExecuteParams) (db : Db) (legs : Legs)
    → IsCoherent p
    → ResolvedLegs env p db legs
    → leg_amount (credit_leg p legs) p.amount +ℤ leg_amount legs.settlement_account_id p.amount
      ≡ p.amount
credited_once env p db legs k r = elim (resolve_destination_cases env p db r.dest) [
  | inl (t, (i, d)) ↦ elim (resolve_settlement_cases env p db r.settlement) [
    | inl (x, _) ↦ let rail = k.rail in let bad : ⊥ = ground arith in absurd bad
    | inr (x, s) ↦
        let e₁ = there {leg = credit_leg p legs} i p.amount (rw t d) in
        let e₂ = absent {leg = legs.settlement_account_id} p.amount s in grind (int_laws, e₁, e₂)
  ]
  | inr (t, d) ↦ elim (resolve_settlement_cases env p db r.settlement) [
    | inr (x, _) ↦ let rail = k.rail in let bad : ⊥ = ground arith in absurd bad
    | inl (x, s) ↦
        let e₁ = absent {leg = credit_leg p legs} p.amount (rw t refl) in
        let (i, s', _) = s in
        let e₂ = there {leg = legs.settlement_account_id} i p.amount s' in grind (int_laws, e₁, e₂)
  ]
]

check_balance-eq_ok :
    (p : ExecuteParams) (locked : List LockedAccount)
    → check_balance p locked ≡ ok tt
    → ltb_ℤ
        ((locked_at p.source_account_id locked).balance
          -ℤ (locked_at p.source_account_id locked).hold)
        p.total_amount
      ≡ false
unfolding check_balance
check_balance-eq_ok p locked h = refuse-eq_ok _ _ h

check_limit-eq_ok :
    (env : Attempt) (p : ExecuteParams) (db : Db)
    → check_limit env p db ≡ ok tt
    → ltb_ℤ
        (daily_limit p.user_id p.limit_type db.transaction_limits
          -ℤ used_today p.user_id p.wib_date p.limit_type db.daily_usage)
        p.total_amount
      ≡ false
unfolding check_limit
check_limit-eq_ok env p db h =
    let (_, _, h₁) = >>=-eq_ok (run env select_usage "check daily usage") _ h in
    let (_, _, h₂) = >>=-eq_ok (run env select_limit "check daily limit") _ h₁ in
    refuse-eq_ok _ _ h₂

-- Money is only moved: what the source gives is what the legs get.
net_amount-zero :
    (env : Attempt) (p : ExecuteParams) (db : Db) (legs : Legs)
    → IsCoherent p
    → ResolvedLegs env p db legs
    → net_amount p legs ≡ pos 0
net_amount-zero env p db legs k r =
    let one = credited_once env p db legs k r in
    let fee : leg_amount legs.fee_account_id p.admin_fee ≡ p.admin_fee =
      elim (resolve_fee_cases env p db r.fee) [
        | inl (x, s) ↦ let (i, s', _) = s in there {leg = legs.fee_account_id} i p.admin_fee s'
        | inr (x, s) ↦
            absent {leg = legs.fee_account_id} p.admin_fee s ∙ zero_fee p.admin_fee x k.fee_positive
      ] in
    sum_out p.total_amount p.amount p.admin_fee _ _ _ one fee k.sums
  where
    zero_fee : (f : ℤ) → ltb_ℤ (pos 0) f ≡ false → pos 0 ≤ℤ f → pos 0 ≡ f
    zero_fee f h l = eq_of_parts (pos 0) f (ground arith)

    sum_out :
        (t a f x y z : ℤ) → x +ℤ y ≡ a → z ≡ f → t ≡ a +ℤ f → pos 0 -ℤ t +ℤ x +ℤ y +ℤ z ≡ pos 0
    sum_out t a f x y z h k l = grind int_laws

pub try_execute-Committed :
    (env : Attempt) (p : ExecuteParams) (db : Db) {t : Transaction} {db' : Db}
    → IsBank env p db
    → IsCoherent p
    → Posting env p db t db'
    → Committed env p db t db'
try_execute-Committed env p db {t} {db'} bank k post =
    let legs = post.legs in
    let locked = post.locked in
    let r = resolve_legs-ResolvedLegs env p db post.resolved in
    let c = locked-AreCurrent env p legs db post.locks in
    let own : IsOwned db.accounts (some p.source_account_id) =
      (bank.source, bank.source_found, bank.source_owned) in
    let apart = resolved-AreApart env p db legs bank.unique bank.no_null own c r in
    let m = write_balances-Moves env p legs locked db bank.unique apart c post.written in
    let (answer, tables) =
      finish_lem env p legs locked (with_row env p legs post.moved) post.finished in
    let full : db'
        ≡ finished_tables env p legs locked
            (with_row env p legs (record db { accounts = post.moved.accounts })) =
      tables ∙ ap (λ x. finished_tables env p legs locked (with_row env p legs x)) m.others in
    let acc : db'.accounts ≡ post.moved.accounts = ap (λ (x : Db). x.accounts) full in
    record {
      legs = legs;
      locked = locked;
      current = c;
      apart = apart;
      resolved = r;
      funded = check_balance-eq_ok p locked post.funded;
      limited = check_limit-eq_ok env p db post.limited;
      balanced = net_amount-zero env p db legs k r;
      moves =
          rw acc (record {
            unique = m.unique;
            others = refl;
            moved = m.moved;
            rows = λ j f. m.rows j f;
          });
      answer = answer;
      unseen = rw (← ap (λ (x : Db). x.transactions) m.others) post.unseen;
      transactions = ap (λ (x : Db). x.transactions) full;
      mutations = ap (λ (x : Db). x.mutations) full;
      usage = ap (λ (x : Db). x.daily_usage) full;
      limits = ap (λ (x : Db). x.transaction_limits) full;
    }
