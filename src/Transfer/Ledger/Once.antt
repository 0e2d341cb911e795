-- ===== src/Transfer/Ledger/Once.antt =====
-- internal/repository/postgres/transfer_executor.go: the unique index on (user_id, idempotency_key) is
-- what makes a transfer happen once.
use bca_mobile_api.Common.{
  ℕ, String, Bool, true, ◌≡◌, refl, eq_iff, Option, some, none, List, [], ◌∷◌, Result, ok, err,
  arith, ◌∙◌, inl, inr, >>=-eq_ok,
}
use bca_mobile_api.Common.Int.{ℤ}
use bca_mobile_api.Transfer.Data.{ExecuteParams, Transaction}
use bca_mobile_api.Transfer.Db.{Db, find_transaction, conflicts, first}
use bca_mobile_api.Transfer.Executor.Lock.{LockedAccount}
use bca_mobile_api.Transfer.Executor.Resolve.{
  Attempt, Statement, Legs, credit_destination, credit_settlement, credit_fee,
}
use bca_mobile_api.Transfer.Executor.Post.{
  write_leg, debit_source_balance, credit_leg, write_balances,
}
use bca_mobile_api.Transfer.Executor.Record.{transaction_row}
use bca_mobile_api.Transfer.Executor.{execute_transfer, fetch_existing}
use bca_mobile_api.Transfer.Ledger.Mutations.{finish_lem}
use bca_mobile_api.Transfer.Ledger.Posting.{Posting, with_row, try_execute_cases}
use bca_mobile_api.Transfer.Ledger.Outcome.{Outcome, execute_transfer-Outcome}

write_leg-transactions :
    (env : Attempt) (s : Statement) (prefix : String) (leg : Option ℕ) (amount : ℤ)
    (locked : List LockedAccount) (db : Db) {db' : Db}
    → write_leg env s prefix leg amount locked db ≡ ok db'
    → db'.transactions ≡ db.transactions
unfolding write_leg
write_leg-transactions env s prefix none amount locked db h = ground arith
write_leg-transactions env s prefix (some i) amount locked db h = ground arith

debit-transactions :
    (env : Attempt) (p : ExecuteParams) (locked : List LockedAccount) (db : Db) {db' : Db}
    → debit_source_balance env p locked db ≡ ok db'
    → db'.transactions ≡ db.transactions
unfolding debit_source_balance
debit-transactions env p locked db h = ground arith

write_balances-transactions :
    (env : Attempt) (p : ExecuteParams) (legs : Legs) (locked : List LockedAccount) (db : Db)
    {db' : Db}
    → write_balances env p legs locked db ≡ ok db'
    → db'.transactions ≡ db.transactions
unfolding write_balances
write_balances-transactions env p legs locked db h =
    let (db₁, e₁, h₁) = >>=-eq_ok (debit_source_balance env p locked db) _ h in
    let (db₂, e₂, h₂) =
      >>=-eq_ok
        (write_leg env credit_destination "credit destination" (credit_leg p legs) p.amount locked
          db₁)
        _ h₁ in
    let (db₃, e₃, h₃) =
      >>=-eq_ok
        (write_leg env credit_settlement "credit settlement" legs.settlement_account_id p.amount
          locked db₂)
        _ h₂ in
    write_leg-transactions env credit_fee "credit fee-income" legs.fee_account_id p.admin_fee locked
      db₃ h₃
    ∙ write_leg-transactions env credit_settlement "credit settlement" legs.settlement_account_id
        p.amount locked db₂ e₃
    ∙ write_leg-transactions env credit_destination "credit destination" (credit_leg p legs)
        p.amount locked db₁ e₂
    ∙ debit-transactions env p locked db e₁

-- The tables have a transaction of this user under this key.
abbrev pub IsKept : ℕ → String → Transaction → Db → Type 0
IsKept user key t db = find_transaction user key db.transactions ≡ some t

fetch_existing-IsKept :
    (env : Attempt) (p : ExecuteParams) (db : Db) {t : Transaction}
    → fetch_existing env p db ≡ ok t
    → IsKept p.user_id p.idempotency_key t db
unfolding fetch_existing
fetch_existing-IsKept env p db h = ground arith

Posting-IsKept :
    (env : Attempt) (p : ExecuteParams) (db : Db) (t : Transaction) (db' : Db)
    → Posting env p db t db'
    → IsKept p.user_id p.idempotency_key t db'
unfolding find_transaction first transaction_row
Posting-IsKept env p db t db' post =
    let (answer, tables) =
      finish_lem env p post.legs post.locked (with_row env p post.legs post.moved) post.finished in
    let same = (eq_iff p.idempotency_key p.idempotency_key).1 refl in
    rw tables (rw answer ground arith)

-- A row under a key that the tables have is refused by the unique index.
kept-conflicts :
    (user : ℕ) (key : String) (u : Transaction) {t : Transaction} (rows : List Transaction)
    → u.user_id ≡ user
    → u.idempotency_key ≡ some key
    → find_transaction user key rows ≡ some t
    → conflicts u rows ≡ true
unfolding find_transaction first conflicts
kept-conflicts user key u [] e k h = cc
kept-conflicts user key u {t} (v ∷ rows) e k h =
    rw k (rw e (ground (arith, kept-conflicts user key u {t = t} rows e k)))

Posting-IsKept_not :
    (env : Attempt) (q : ExecuteParams) (db : Db) {t u : Transaction} {db' : Db}
    → IsKept q.user_id q.idempotency_key t db
    → Posting env q db u db'
    → ⊥
unfolding transaction_row
Posting-IsKept_not env q db {t} kept post =
    let same = write_balances-transactions env q post.legs post.locked db post.written in
    let row = transaction_row env q post.legs in
    let clash : conflicts row post.moved.transactions ≡ true =
      rw same
        (kept-conflicts q.user_id q.idempotency_key row {t = t} db.transactions refl refl kept) in
    let unseen = post.unseen in cc

Outcome-IsKept :
    (envs : ℕ → Attempt) (p : ExecuteParams) (db : Db) {t : Transaction} {db' : Db}
    → Outcome envs p db (ok t) db'
    → IsKept p.user_id p.idempotency_key t db'
Outcome-IsKept envs p db {t} {db'} (n, h) = elim (try_execute_cases (envs n) p db h) [
  | inl post ↦ Posting-IsKept (envs n) p db t db' post
  | inr (same, f) ↦ rw same (fetch_existing-IsKept (envs n) p db f)
]

-- What a run on tables that have the transaction may give: those tables, and that transaction or an
-- error.
abbrev pub IsReplay : Transaction → Db → Result Transaction × Db → Type 0
IsReplay t db (ok u, db') = (db' ≡ db) × (u ≡ t)
IsReplay t db (err e, db') = db' ≡ db

kept-IsReplay :
    (envs : ℕ → Attempt) (q : ExecuteParams) (t : Transaction) (db : Db) (r : Result Transaction)
    (db' : Db)
    → IsKept q.user_id q.idempotency_key t db
    → Outcome envs q db r db'
    → IsReplay t db (r, db')
kept-IsReplay envs q t db (err e) db' kept o = o
kept-IsReplay envs q t db (ok u) db' kept (n, h) = elim (try_execute_cases (envs n) q db h) [
  | inl post ↦ absurd (Posting-IsKept_not (envs n) q db {t = t} kept post)
  | inr (same, f) ↦ let found = fetch_existing-IsKept (envs n) q db f in (same, cc)
]

-- After a transfer that succeeded, a further one of the same user under the same key changes no
-- table, and if it succeeds it returns the first one's transaction, whatever its other parameters
-- are.
pub execute_transfer-IsReplay :
    (envs envs' : ℕ → Attempt) (waits waits' : ℕ → Bool) (p q : ExecuteParams) (db : Db)
    {t : Transaction} {db' : Db}
    → q.user_id ≡ p.user_id
    → q.idempotency_key ≡ p.idempotency_key
    → execute_transfer envs waits p db ≡ (ok t, db')
    → IsReplay t db' (execute_transfer envs' waits' q db')
execute_transfer-IsReplay envs envs' waits waits' p q db {t} {db'} u k h =
    let kept = Outcome-IsKept envs p db {t = t} (execute_transfer-Outcome envs waits p db h) in
    let r = execute_transfer envs' waits' q db' in
    kept-IsReplay envs' q t db' r.0 r.1 (rw u (rw k kept))
      (execute_transfer-Outcome envs' waits' q db' refl)
