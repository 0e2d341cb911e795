-- ===== src/Transfer/Ledger/Snapshot.antt =====
-- The balances read under the locks are those of the table, and stay so for the rows not yet written.
use bca_mobile_api.Common.{
  ℕ, ◌≡◌, ◌≢◌, true, ap, some, List, [], ◌∷◌, arith, ◌==◌, contains, ok, inl, inr, Bool-cases,
  Option-cases, ◌∙◌, Result-cases,
}
use bca_mobile_api.Common.Int.{ℤ}
use bca_mobile_api.Transfer.Data.{Account}
use bca_mobile_api.Transfer.Db.{Db, find_id, set_balance}
use bca_mobile_api.Transfer.Executor.Resolve.{Attempt, lock_account}
use bca_mobile_api.Transfer.Executor.Lock.{LockedAccount, lock_accounts, locked_at}
use bca_mobile_api.Transfer.Ledger.Rows.{find_id-set_balance_ne, id-eq}

-- The snapshot of account `i` is the row of the table.
pub record IsCurrent (i : ℕ) (locked : List LockedAccount) (rows : List Account) : Type 0 where
  pub row : Account
  pub found : find_id i rows ≡ some row
  pub same_balance : (locked_at i locked).balance ≡ row.balance
  pub same_hold : (locked_at i locked).hold ≡ row.hold_amount

pub find_id-id : (i : ℕ) {a : Account} (rows : List Account) → find_id i rows ≡ some a → a.id ≡ i
unfolding find_id
find_id-id i [] h = cc
find_id-id i {a} (b ∷ rest) h = ground (arith, find_id-id i {a = a} rest)

abbrev snapshot : Account → LockedAccount
snapshot a = record { id = a.id; balance = a.balance; hold = a.hold_amount }

locked_at-head :
    (i : ℕ) (a : Account) (rest : List LockedAccount)
    → a.id ≡ i
    → locked_at i (snapshot a ∷ rest) ≡ snapshot a
unfolding locked_at
locked_at-head i a rest h = ground arith

locked_at-tail :
    (i : ℕ) (a : Account) (rest : List LockedAccount)
    → a.id ≢ i
    → locked_at i (snapshot a ∷ rest) ≡ locked_at i rest
unfolding locked_at
locked_at-tail i a rest h = ground arith

-- What a lock of one more account gives.
lock_cons :
    (env : Attempt) (i : ℕ) (ids : List ℕ) (db : Db) {locked : List LockedAccount}
    → lock_accounts env (i ∷ ids) db ≡ ok locked
    → (a : Account) × (rest : List LockedAccount) × (find_id i db.accounts ≡ some a)
      × (lock_accounts env ids db ≡ ok rest)
      × (locked ≡ snapshot a ∷ rest)
unfolding lock_accounts
lock_cons env i ids db {locked} h = elim (Option-cases (env.fault (lock_account i))) [
  | inr (c, e) ↦ let bad : ⊥ = ground arith in absurd bad
  | inl e ↦ elim (Option-cases (find_id i db.accounts)) [
    | inl f ↦ let bad : ⊥ = ground arith in absurd bad
    | inr (a, f) ↦ elim (Result-cases (lock_accounts env ids db)) [
      | inr (x, g) ↦ let bad : ⊥ = ground arith in absurd bad
      | inl (rest, g) ↦ (a, rest, f, g, ground arith)
    ]
  ]
]

pub lock_accounts-IsCurrent :
    (env : Attempt) (ids : List ℕ) (db : Db) (i : ℕ) {locked : List LockedAccount}
    → lock_accounts env ids db ≡ ok locked
    → contains i ids ≡ true
    → IsCurrent i locked db.accounts
lock_accounts-IsCurrent env [] db i h c = cc
lock_accounts-IsCurrent env (j ∷ ids) db i {locked} h c =
    let (a, rest, found, later, shape) = lock_cons env j ids db h in
    let own : a.id ≡ j = find_id-id j db.accounts found in
    elim (Bool-cases (i == j)) [
      | inl e ↦
          let head : locked_at i locked ≡ snapshot a =
            rw shape (locked_at-head i a rest (rw (id-eq i j e) own)) in
          record {
            row = a;
            found = rw (id-eq i j e) found;
            same_balance = ap (λ l. l.balance) head;
            same_hold = ap (λ l. l.hold) head;
          }
      | inr e ↦
          let c' : IsCurrent i rest db.accounts =
            lock_accounts-IsCurrent env ids db i later (ground arith) in
          let skip : locked_at i locked ≡ locked_at i rest =
            rw shape (locked_at-tail i a rest (ground arith)) in
          record {
            row = c'.row;
            found = c'.found;
            same_balance = ap (λ l. l.balance) skip ∙ c'.same_balance;
            same_hold = ap (λ l. l.hold) skip ∙ c'.same_hold;
          }
    ]

pub IsCurrent-set_balance :
    (i j : ℕ) (v : ℤ) {locked : List LockedAccount} {rows : List Account}
    → i ≢ j
    → IsCurrent i locked rows
    → IsCurrent i locked (set_balance j v rows)
IsCurrent-set_balance i j v {locked} {rows} h c = record {
  row = c.row;
  found = find_id-set_balance_ne i j v rows h ∙ c.found;
  same_balance = c.same_balance;
  same_hold = c.same_hold;
}
