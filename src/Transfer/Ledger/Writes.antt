-- ===== src/Transfer/Ledger/Writes.antt =====
-- The new balances: every write starts from a snapshot that is still current, so that the absolute
-- values of the code are the old balances plus or minus the amounts.
use bca_mobile_api.Common.{
  ℕ, String, ◌≡◌, refl, ◌≢◌, Option, some, none, arith, ◌==◌, ok, inl, inr, Bool-cases,
  Option-cases, if◌then◌else◌, List, ◌∙◌,
}
use bca_mobile_api.Common.Int.{ℤ, pos, ◌+ℤ◌, int_laws}
use bca_mobile_api.Transfer.Data.{Account}
use bca_mobile_api.Transfer.Db.{Db, find_id, set_balance}
use bca_mobile_api.Transfer.Executor.Resolve.{Attempt, Statement}
use bca_mobile_api.Transfer.Executor.Lock.{LockedAccount, locked_at}
use bca_mobile_api.Transfer.Executor.Post.{write_leg}
use bca_mobile_api.Transfer.Ledger.Rows.{
  UniqueIds, total, set_balance-UniqueIds, total-set_balance, find_id-set_balance_ne,
  find_id-set_balance_self, id-eq,
}
use bca_mobile_api.Transfer.Ledger.Snapshot.{IsCurrent, IsCurrent-set_balance}

-- A balance with an amount added if `j` is the account of the leg.
abbrev pub credited : Option ℕ → ℕ → ℤ → ℤ → ℤ
credited none j amount b = b
credited (some i) j amount b = if j == i then b +ℤ amount else b

abbrev pub leg_amount : Option ℕ → ℤ → ℤ
leg_amount none amount = pos 0
leg_amount (some i) amount = amount

abbrev pub IsOther : Option ℕ → ℕ → Type 0
IsOther none j = Unit
IsOther (some i) j = j ≢ i

abbrev pub LegIsCurrent : Option ℕ → List LockedAccount → List Account → Type 0
LegIsCurrent none locked rows = Unit
LegIsCurrent (some i) locked rows = IsCurrent i locked rows

-- What one write does to the table.
pub record Credits (leg : Option ℕ) (amount : ℤ) (db db' : Db) : Type 0 where
  pub unique : UniqueIds db'.accounts
  pub others : db' ≡ record db { accounts = db'.accounts }
  pub moved : total db'.accounts ≡ total db.accounts +ℤ leg_amount leg amount
  pub rows :
      (j : ℕ) {a : Account}
      → find_id j db.accounts ≡ some a
      → find_id j db'.accounts ≡ some (record a { balance = credited leg j amount a.balance })
  pub kept :
      (j : ℕ) (locked : List LockedAccount)
      → IsOther leg j
      → IsCurrent j locked db.accounts
      → IsCurrent j locked db'.accounts

-- The tables after a write from the snapshot of account `i`.
abbrev pub after_write : ℕ → ℤ → List LockedAccount → Db → Db
after_write i amount locked db = record db {
  accounts = set_balance i ((locked_at i locked).balance +ℤ amount) db.accounts;
}

set_balance-rows :
    (i j : ℕ) (v : ℤ) (rows : List Account) {a : Account}
    → find_id j rows ≡ some a
    → find_id j (set_balance i v rows)
      ≡ some (record a { balance = if j == i then v else a.balance })
set_balance-rows i j v rows {a} f = elim (Bool-cases (j == i)) [
  | inl e ↦
      let eq : j ≡ i = id-eq j i e in
      let f' : find_id i rows ≡ some a = rw (← eq) f in
      rw e (rw eq (find_id-set_balance_self i v rows f'))
  | inr e ↦ rw e (find_id-set_balance_ne j i v rows (ground arith) ∙ f)
]

set_balance-row :
    (i j : ℕ) (amount : ℤ) (locked : List LockedAccount) (db : Db) {a : Account}
    → IsCurrent i locked db.accounts
    → find_id j db.accounts ≡ some a
    → find_id j (after_write i amount locked db).accounts
      ≡ some (record a { balance = credited (some i) j amount a.balance })
set_balance-row i j amount locked db {a} c f =
    let v = (locked_at i locked).balance +ℤ amount in
    let own : find_id j (set_balance i v db.accounts)
        ≡ some (record a { balance = if j == i then v else a.balance }) =
      set_balance-rows i j v db.accounts f in
    elim (Bool-cases (j == i)) [
      | inr e ↦ ground arith
      | inl e ↦
          let f' : find_id i db.accounts ≡ some a = rw (← id-eq j i e) f in
          let val : (locked_at i locked).balance ≡ a.balance =
            ground (arith, c.same_balance, c.found) in
          ground arith
    ]

pub set_balance-Credits :
    (i : ℕ) (amount : ℤ) (locked : List LockedAccount) (db : Db)
    → UniqueIds db.accounts
    → IsCurrent i locked db.accounts
    → Credits (some i) amount db (after_write i amount locked db)
set_balance-Credits i amount locked db u c =
    let v = (locked_at i locked).balance +ℤ amount in
    record {
      unique = set_balance-UniqueIds i v db.accounts u;
      others = refl;
      moved =
          grind (int_laws, total-set_balance i v {a = c.row} db.accounts u c.found, c.same_balance);
      rows = λ j {a} f. set_balance-row i j amount locked db c f;
      kept = λ j l o k. IsCurrent-set_balance j i v o k;
    }

pub write_leg-Credits :
    (env : Attempt) (s : Statement) (prefix : String) (leg : Option ℕ) (amount : ℤ)
    (locked : List LockedAccount) (db : Db) {db' : Db}
    → UniqueIds db.accounts
    → LegIsCurrent leg locked db.accounts
    → write_leg env s prefix leg amount locked db ≡ ok db'
    → Credits leg amount db db'
unfolding write_leg
write_leg-Credits env s prefix none amount locked db {db'} u c h =
    let e : db' ≡ db = ground arith in
    rw e (record {
      unique = u;
      others = refl;
      moved = grind int_laws;
      rows = λ j f. f;
      kept = λ j l o k. k;
    })
write_leg-Credits env s prefix (some i) amount locked db {db'} u c h =
    elim (Option-cases (env.fault s)) [
      | inr (x, f) ↦ let bad : ⊥ = ground arith in absurd bad
      | inl f ↦
          let e : db' ≡ after_write i amount locked db = ground arith in
          rw e (set_balance-Credits i amount locked db u c)
    ]
