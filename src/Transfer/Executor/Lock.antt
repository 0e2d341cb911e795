-- ===== src/Transfer/Executor/Lock.antt =====
-- internal/repository/postgres/transfer_executor.go: the order of the row locks, and the balances read
-- under them.
use bca_mobile_api.Common.{
  ℕ, Option, none, some, List, [], ◌∷◌, ◌++◌, ◌==◌, leb, if◌then◌else◌, contains, no_rows, Result,
  ok, err, ◌>>=◌, ◌>>◌, wrapped,
}
use bca_mobile_api.Common.Int.{ℤ, pos}
use bca_mobile_api.Transfer.Db.{Db, find_id}
use bca_mobile_api.Transfer.Executor.Resolve.{lock_account, Attempt, run, Legs}

-- `sort.Slice` on the ids
unfoldable pub insert_sorted : ℕ → List ℕ → List ℕ
insert_sorted x [] = x ∷ []
insert_sorted x (y ∷ ys) = if leb x y then x ∷ y ∷ ys else y ∷ insert_sorted x ys

unfoldable pub sort_ids : List ℕ → List ℕ
unfolding insert_sorted
sort_ids [] = []
sort_ids (x ∷ xs) = insert_sorted x (sort_ids xs)

-- The loop that drops repeated ids, with its `seen` map.
unfoldable pub unique_ids : List ℕ → List ℕ → List ℕ
unique_ids seen [] = []
unique_ids seen (x ∷ xs) =
    let later = unique_ids seen xs in
    let fresh = x ∷ unique_ids (x ∷ seen) xs in if contains x seen then later else fresh

abbrev pub option_list : Option ℕ → List ℕ
option_list none = []
option_list (some x) = x ∷ []

-- `accountIDs`, as it is appended to
abbrev pub account_ids : ℕ → Legs → List ℕ
account_ids source legs =
    source ∷ option_list legs.dest_account_id
    ++ (option_list legs.settlement_account_id ++ option_list legs.fee_account_id)

-- The ids to lock, in the order in which they are locked.
unfoldable pub lock_order : ℕ → Legs → List ℕ
unfolding sort_ids unique_ids
lock_order source legs = unique_ids [] (sort_ids (account_ids source legs))

pub record LockedAccount : Type 0 where
  pub id : ℕ
  pub balance : ℤ
  pub hold : ℤ

unfoldable pub lock_accounts : Attempt → List ℕ → Db → Result (List LockedAccount)
unfolding run
lock_accounts env [] db = ok []
lock_accounts env (i ∷ ids) db = do
  run env (lock_account i) "lock account"
  elim (find_id i db.accounts) [
    | none ↦ err (wrapped "lock account" no_rows)
    | some a ↦ do
      rest ← lock_accounts env ids db
      ok (record { id = a.id; balance = a.balance; hold = a.hold_amount } ∷ rest)
  ]

-- `accountBalances[id]`: the zero value if the id is not there
unfoldable pub locked_at : ℕ → List LockedAccount → LockedAccount
locked_at i [] = record { id = 0; balance = pos 0; hold = pos 0 }
locked_at i (l ∷ ls) = if l.id == i then l else locked_at i ls
