-- ===== src/Transfer/Ledger/Posting.antt =====
-- What a committed attempt did: every step of `try_execute` that it went through.
use bca_mobile_api.Common.{◌≡◌, refl, false, arith, ok, ◌⊎◌, inl, inr, >>=-eq_ok, List, ◌∷◌}
use bca_mobile_api.Transfer.Data.{ExecuteParams, Transaction}
use bca_mobile_api.Transfer.Db.{Db, conflicts}
use bca_mobile_api.Transfer.Executor.Resolve.{
  Attempt, run, Legs, resolve_legs, begin, next_reference,
}
use bca_mobile_api.Transfer.Executor.Lock.{LockedAccount, lock_order, lock_accounts}
use bca_mobile_api.Transfer.Executor.Post.{check_balance, check_limit, write_balances}
use bca_mobile_api.Transfer.Executor.Record.{
  Inserted, fresh, duplicate, transaction_row, insert_row,
}
use bca_mobile_api.Transfer.Executor.{fetch_existing, finish, settle_insert, try_execute}

-- The tables with the transaction's row inserted.
abbrev pub with_row : Attempt → ExecuteParams → Legs → Db → Db
with_row env p legs db = record db { transactions = transaction_row env p legs ∷ db.transactions }

pub record Posting (env : Attempt) (p : ExecuteParams) (db : Db) (t : Transaction) (db' : Db)
    : Type 0 where
  pub legs : Legs
  pub locked : List LockedAccount
  pub moved : Db
  pub resolved : resolve_legs env p db ≡ ok legs
  pub locks : lock_accounts env (lock_order p.source_account_id legs) db ≡ ok locked
  pub funded : check_balance p locked ≡ ok tt
  pub limited : check_limit env p db ≡ ok tt
  pub written : write_balances env p legs locked db ≡ ok moved
  pub unseen : conflicts (transaction_row env p legs) moved.transactions ≡ false
  pub finished : finish env p legs locked (with_row env p legs moved) ≡ ok (t, db')

-- A fresh row, or the transaction that the same user wrote under the same key before.
insert_row_cases :
    (env : Attempt) (t : Transaction) (db : Db) {r : Inserted}
    → insert_row env t db ≡ ok r
    → ((conflicts t db.transactions ≡ false)
        × (r ≡ fresh (record db { transactions = t ∷ db.transactions })))
      ⊎ (r ≡ duplicate)
unfolding insert_row
insert_row_cases env t db {r = duplicate} h = inr refl
insert_row_cases env t db {r = fresh x} h = inl (ground arith, ground arith)

settle_cases :
    (env : Attempt) (p : ExecuteParams) (legs : Legs) (locked : List LockedAccount) (db moved : Db)
    {r : Inserted} {t : Transaction} {db' : Db}
    → insert_row env (transaction_row env p legs) moved ≡ ok r
    → settle_insert env p legs locked db r ≡ ok (t, db')
    → ((conflicts (transaction_row env p legs) moved.transactions ≡ false)
        × (finish env p legs locked (with_row env p legs moved) ≡ ok (t, db')))
      ⊎ ((db' ≡ db) × (fetch_existing env p db ≡ ok t))
unfolding settle_insert
settle_cases env p legs locked db moved {r = duplicate} e h =
    let (u, f, g) = >>=-eq_ok (fetch_existing env p db) _ h in inr (ground arith, ground arith)
settle_cases env p legs locked db moved {r = fresh x} e h =
    elim (insert_row_cases env (transaction_row env p legs) moved e) [
      | inl (unseen, same) ↦
          let eq : x ≡ with_row env p legs moved = cc in inl (unseen, rw (← eq) h)
      | inr bad ↦ let no : ⊥ = cc in absurd no
    ]

pub try_execute_cases :
    (env : Attempt) (p : ExecuteParams) (db : Db) {t : Transaction} {db' : Db}
    → try_execute env p db ≡ ok (t, db')
    → Posting env p db t db' ⊎ ((db' ≡ db) × (fetch_existing env p db ≡ ok t))
unfolding try_execute
try_execute_cases env p db {t} {db'} h =
    let (_, e₀, h₀) = >>=-eq_ok (run env begin "begin tx") _ h in
    let (legs, e₁, h₁) = >>=-eq_ok (resolve_legs env p db) _ h₀ in
    let (locked, e₂, h₂) =
      >>=-eq_ok (lock_accounts env (lock_order p.source_account_id legs) db) _ h₁ in
    let (_, e₃, h₃) = >>=-eq_ok (check_balance p locked) _ h₂ in
    let (_, e₄, h₄) = >>=-eq_ok (check_limit env p db) _ h₃ in
    let (moved, e₅, h₅) = >>=-eq_ok (write_balances env p legs locked db) _ h₄ in
    let (_, e₆, h₆) = >>=-eq_ok (run env next_reference "generate ref number") _ h₅ in
    let (r, e₇, h₇) = >>=-eq_ok (insert_row env (transaction_row env p legs) moved) _ h₆ in
    elim (settle_cases env p legs locked db moved e₇ h₇) [
      | inr again ↦ inr again
      | inl (unseen, done) ↦ inl (record {
        legs = legs;
        locked = locked;
        moved = moved;
        resolved = e₁;
        locks = e₂;
        funded = e₃;
        limited = e₄;
        written = e₅;
        unseen = unseen;
        finished = done;
      })
    ]
