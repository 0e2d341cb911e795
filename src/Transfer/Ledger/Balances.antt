-- ===== src/Transfer/Ledger/Balances.antt =====
-- The four writes of a transfer together: the debit of the source and the credits of its legs.
use bca_mobile_api.Common.{
  ℕ, ◌≡◌, ◌≢◌, Option, some, none, arith, ok, inl, inr, Option-cases, >>=-eq_ok, List,
}
use bca_mobile_api.Common.Int.{ℤ, pos, ◌+ℤ◌, ◌-ℤ◌, int_laws}
use bca_mobile_api.Transfer.Data.{Account, ExecuteParams}
use bca_mobile_api.Transfer.Db.{Db, find_id}
use bca_mobile_api.Transfer.Executor.Resolve.{
  Attempt, Legs, debit_source, credit_destination, credit_settlement, credit_fee,
}
use bca_mobile_api.Transfer.Executor.Lock.{LockedAccount, locked_at}
use bca_mobile_api.Transfer.Executor.Post.{
  write_leg, debit_source_balance, credit_leg, write_balances,
}
use bca_mobile_api.Transfer.Ledger.Rows.{UniqueIds, total}
use bca_mobile_api.Transfer.Ledger.Snapshot.{IsCurrent}
use bca_mobile_api.Transfer.Ledger.Writes.{
  Credits, credited, leg_amount, LegIsCurrent, after_write, set_balance-Credits, write_leg-Credits,
}

-- Two legs are not the same account.
abbrev pub Apart : Option ℕ → Option ℕ → Type 0
Apart none m = Unit
Apart (some i) none = Unit
Apart (some i) (some j) = j ≢ i

pub leg_kept :
    (leg other : Option ℕ) {amount : ℤ} {db db' : Db} (locked : List LockedAccount)
    → Credits leg amount db db'
    → Apart leg other
    → LegIsCurrent other locked db.accounts
    → LegIsCurrent other locked db'.accounts
leg_kept leg none locked w o c = tt
leg_kept none (some j) locked w o c = w.kept j locked tt c
leg_kept (some i) (some j) locked w o c = w.kept j locked o c

-- The accounts of a transfer are four different ones.
pub record AreApart (source : ℕ) (p : ExecuteParams) (legs : Legs) : Type 0 where
  pub source_dest : Apart (some source) (credit_leg p legs)
  pub source_settlement : Apart (some source) legs.settlement_account_id
  pub source_fee : Apart (some source) legs.fee_account_id
  pub dest_settlement : Apart (credit_leg p legs) legs.settlement_account_id
  pub dest_fee : Apart (credit_leg p legs) legs.fee_account_id
  pub settlement_fee : Apart legs.settlement_account_id legs.fee_account_id

pub record AreCurrent (source : ℕ) (p : ExecuteParams) (legs : Legs) (locked : List LockedAccount)
    (rows : List Account) : Type 0 where
  pub source_row : IsCurrent source locked rows
  pub dest_row : LegIsCurrent (credit_leg p legs) locked rows
  pub settlement_row : LegIsCurrent legs.settlement_account_id locked rows
  pub fee_row : LegIsCurrent legs.fee_account_id locked rows

-- The balance of account `j` after the transfer, in terms of its balance before.
abbrev pub new_balance : ExecuteParams → Legs → ℕ → ℤ → ℤ
new_balance p legs j b = credited legs.fee_account_id j p.admin_fee (
    credited legs.settlement_account_id j p.amount (
      credited (credit_leg p legs) j p.amount
        (credited (some p.source_account_id) j (pos 0 -ℤ p.total_amount) b)))

-- What the transfer brings in, over all accounts.
abbrev pub net_amount : ExecuteParams → Legs → ℤ
net_amount p legs =
    pos 0
    -ℤ p.total_amount
    +ℤ leg_amount (credit_leg p legs) p.amount
    +ℤ leg_amount legs.settlement_account_id p.amount
    +ℤ leg_amount legs.fee_account_id p.admin_fee

pub record Moves (p : ExecuteParams) (legs : Legs) (db db' : Db) : Type 0 where
  pub unique : UniqueIds db'.accounts
  pub others : db' ≡ record db { accounts = db'.accounts }
  pub moved : total db'.accounts ≡ total db.accounts +ℤ net_amount p legs
  pub rows :
      (j : ℕ) {a : Account}
      → find_id j db.accounts ≡ some a
      → find_id j db'.accounts ≡ some (record a { balance = new_balance p legs j a.balance })

sub-eq_add : (a b : ℤ) → a -ℤ b ≡ a +ℤ (pos 0 -ℤ b)
sub-eq_add a b = omega int_laws

debit-Credits :
    (env : Attempt) (p : ExecuteParams) (locked : List LockedAccount) (db : Db) {db' : Db}
    → UniqueIds db.accounts
    → IsCurrent p.source_account_id locked db.accounts
    → debit_source_balance env p locked db ≡ ok db'
    → Credits (some p.source_account_id) (pos 0 -ℤ p.total_amount) db db'
unfolding debit_source_balance
debit-Credits env p locked db {db'} u c h = elim (Option-cases (env.fault debit_source)) [
  | inr (x, f) ↦ let bad : ⊥ = ground arith in absurd bad
  | inl f ↦
      let s = p.source_account_id in
      let eq = sub-eq_add (locked_at s locked).balance p.total_amount in
      let e : db' ≡ after_write s (pos 0 -ℤ p.total_amount) locked db = ground (arith, eq) in
      rw e (set_balance-Credits s (pos 0 -ℤ p.total_amount) locked db u c)
]

-- The tables between the writes of `write_balances`.
write_balances_steps :
    (env : Attempt) (p : ExecuteParams) (legs : Legs) (locked : List LockedAccount) (db : Db)
    {db' : Db}
    → write_balances env p legs locked db ≡ ok db'
    → (db₁ db₂ db₃ : Db) × (debit_source_balance env p locked db ≡ ok db₁)
      × (write_leg env credit_destination "credit destination"
            (credit_leg p legs)
            p.amount
            locked
            db₁
          ≡ ok db₂)
      × (write_leg env credit_settlement "credit settlement" legs.settlement_account_id p.amount
            locked db₂
          ≡ ok db₃)
      × (write_leg env credit_fee "credit fee-income" legs.fee_account_id p.admin_fee locked db₃
          ≡ ok db')
unfolding write_balances
write_balances_steps env p legs locked db h =
    let (db₁, e₁, h₁) = >>=-eq_ok (debit_source_balance env p locked db) _ h in
    let (db₂, e₂, h₂) =
      >>=-eq_ok
        (write_leg env credit_destination "credit destination" (credit_leg p legs) p.amount locked
          db₁)
        _ h₁ in
    let (db₃, e₃, h₃) =
      >>=-eq_ok
        (write_leg env credit_settlement "credit settlement" legs.settlement_account_id p.amount
          locked db₂)
        _ h₂ in
    (db₁, db₂, db₃, e₁, e₂, e₃, h₃)

pub write_balances-Moves :
    (env : Attempt) (p : ExecuteParams) (legs : Legs) (locked : List LockedAccount) (db : Db)
    {db' : Db}
    → UniqueIds db.accounts
    → AreApart p.source_account_id p legs
    → AreCurrent p.source_account_id p legs locked db.accounts
    → write_balances env p legs locked db ≡ ok db'
    → Moves p legs db db'
write_balances-Moves env p legs locked db {db'} u o c h =
    let (db₁, db₂, db₃, e₁, e₂, e₃, e₄) = write_balances_steps env p legs locked db h in
    let src = some p.source_account_id in
    let w₁ = debit-Credits env p locked db u c.source_row e₁ in
    let d₁ = leg_kept src (credit_leg p legs) locked w₁ o.source_dest c.dest_row in
    let s₁ =
      leg_kept src legs.settlement_account_id locked w₁ o.source_settlement c.settlement_row in
    let f₁ = leg_kept src legs.fee_account_id locked w₁ o.source_fee c.fee_row in
    let w₂ =
      write_leg-Credits env credit_destination "credit destination" (credit_leg p legs) p.amount
        locked db₁ w₁.unique d₁ e₂ in
    let s₂ =
      leg_kept (credit_leg p legs) legs.settlement_account_id locked w₂ o.dest_settlement s₁ in
    let f₂ = leg_kept (credit_leg p legs) legs.fee_account_id locked w₂ o.dest_fee f₁ in
    let w₃ =
      write_leg-Credits env credit_settlement "credit settlement" legs.settlement_account_id
        p.amount locked db₂ w₂.unique s₂ e₃ in
    let f₃ =
      leg_kept legs.settlement_account_id legs.fee_account_id locked w₃ o.settlement_fee f₂ in
    let w₄ =
      write_leg-Credits env credit_fee "credit fee-income" legs.fee_account_id p.admin_fee locked
        db₃ w₃.unique f₃ e₄ in
    record {
      unique = w₄.unique;
      others = ground (arith, w₁.others, w₂.others, w₃.others, w₄.others);
      moved = grind (int_laws, w₁.moved, w₂.moved, w₃.moved, w₄.moved);
      rows = λ j f. w₄.rows j (w₃.rows j (w₂.rows j (w₁.rows j f)));
    }
