-- ===== src/Transfer/Ledger/Balanced.antt =====
-- internal/repository/postgres/transfer_executor.go: where the money of a transfer goes.
use bca_mobile_api.Common.{ℕ, Bool, ◌≡◌, refl, ◌⊎◌, inl, inr, some, Result, ok, err}
use bca_mobile_api.Common.Int.{ℤ, pos, ◌+ℤ◌, int_laws}
use bca_mobile_api.Transfer.Data.{Account, ExecuteParams, Transaction}
use bca_mobile_api.Transfer.Db.{Db, find_id}
use bca_mobile_api.Transfer.Executor.Resolve.{Attempt, Legs}
use bca_mobile_api.Transfer.Executor.{execute_transfer, fetch_existing}
use bca_mobile_api.Transfer.Ledger.Rows.{total}
use bca_mobile_api.Transfer.Ledger.Legs.{ResolvedLegs}
use bca_mobile_api.Transfer.Ledger.Balances.{new_balance}
use bca_mobile_api.Transfer.Ledger.Committed.{Committed, IsBank, IsCoherent}
use bca_mobile_api.Transfer.Ledger.Outcome.{
  execute_transfer-Ending, Ending, refused, replayed, committed,
}

Committed-total :
    (env : Attempt) (p : ExecuteParams) (db : Db) (t : Transaction) (db' : Db)
    → Committed env p db t db'
    → total db'.accounts ≡ total db.accounts
Committed-total env p db t db' c =
    zero_sum (total db.accounts) (total db'.accounts) _ c.balanced c.moves.moved
  where
    zero_sum : (a b n : ℤ) → n ≡ pos 0 → b ≡ a +ℤ n → b ≡ a
    zero_sum a b n h k = grind int_laws

Ending-total :
    (envs : ℕ → Attempt) (p : ExecuteParams) (db : Db) (r : Result Transaction) (db' : Db)
    → Ending envs p db r db'
    → total db'.accounts ≡ total db.accounts
Ending-total envs p db _ _ refused = refl
Ending-total envs p db _ _ (replayed n f) = refl
Ending-total envs p db _ _ (committed {t} {db'} n c) = Committed-total (envs n) p db t db' c

-- However a transfer ends, no money is made or lost: the sum of all balances is what it was. The
-- conditions on the schema are that the ids of `accounts` are unique, that none is what the driver
-- makes of NULL, and that the source is a customer's account; those on the amounts are that the
-- total is the amount plus a fee that is not negative, and that the transaction type says whether
-- the money leaves the bank.
pub execute_transfer-total :
    (envs : ℕ → Attempt) (waits : ℕ → Bool) (p : ExecuteParams) (db : Db)
    → ((n : ℕ) → IsBank (envs n) p db)
    → IsCoherent p
    → total (execute_transfer envs waits p db).1.accounts ≡ total db.accounts
execute_transfer-total envs waits p db bank k =
    Ending-total envs p db (execute_transfer envs waits p db).0 (execute_transfer envs waits p db).1
      (execute_transfer-Ending envs waits p db bank k refl)

-- The specification of a transfer: the source gives the total, the resolved legs get their amounts
-- relative to their balances before, and every other row is as it was.
pub record IsTransfer (env : Attempt) (p : ExecuteParams) (db db' : Db) : Type 0 where
  pub legs : Legs
  pub resolved : ResolvedLegs env p db legs
  pub rows :
      (j : ℕ) {a : Account}
      → find_id j db.accounts ≡ some a
      → find_id j db'.accounts ≡ some (record a { balance = new_balance p legs j a.balance })

abbrev pub TransferResult : (ℕ → Attempt) → ExecuteParams → Db → Result Transaction → Db → Type 0
TransferResult envs p db (err e) db' = db' ≡ db
TransferResult envs p db (ok t) db' =
    (n : ℕ) × (((db' ≡ db) × (fetch_existing (envs n) p db ≡ ok t)) ⊎ IsTransfer (envs n) p db db')

Ending-TransferResult :
    (envs : ℕ → Attempt) (p : ExecuteParams) (db : Db) (r : Result Transaction) (db' : Db)
    → Ending envs p db r db'
    → TransferResult envs p db r db'
Ending-TransferResult envs p db _ _ refused = refl
Ending-TransferResult envs p db _ _ (replayed n f) = (n, inl (refl, f))
Ending-TransferResult envs p db _ _ (committed n c) =
    (n, inr (record { legs = c.legs; resolved = c.resolved; rows = λ j f. c.moves.rows j f }))

-- A transfer that fails leaves every table as it was. One that succeeds returns a transaction that
-- is in the tables already and changes nothing, or each account's balance changes by what the
-- transfer gives or takes it. The conditions are those of `execute_transfer-total` on the schema and
-- on the amounts.
pub execute_transfer-TransferResult :
    (envs : ℕ → Attempt) (waits : ℕ → Bool) (p : ExecuteParams) (db : Db)
    → ((n : ℕ) → IsBank (envs n) p db)
    → IsCoherent p
    → TransferResult envs p db
        (execute_transfer envs waits p db).0
        (execute_transfer envs waits p db).1
execute_transfer-TransferResult envs waits p db bank k =
    Ending-TransferResult envs p db (execute_transfer envs waits p db).0
      (execute_transfer envs waits p db).1 (execute_transfer-Ending envs waits p db bank k refl)
