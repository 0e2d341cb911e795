-- ===== src/Transfer/Ledger/Checks.antt =====
-- internal/repository/postgres/transfer_executor.go: what the balance and limit checks guarantee of
-- the tables after a transfer.
use bca_mobile_api.Common.{
  ℕ, String, Bool, true, false, ◌≡◌, refl, ◌&&◌, ◌==◌, str_eq, eq_iff, Option, some, none, List, [],
  ◌∷◌, Result, arith, ◌∙◌, Bool-cases, inl, inr,
}
use bca_mobile_api.Common.Int.{ℤ, pos, ◌+ℤ◌, ◌-ℤ◌, ◌≤ℤ◌, ltb_ℤ, int_laws, +ℤ_parts, -ℤ_parts}
use bca_mobile_api.Transfer.Data.{Account, DailyUsage, ExecuteParams, Transaction}
use bca_mobile_api.Transfer.Db.{Db, find_id, used_today, upsert_usage, usage_key, daily_limit}
use bca_mobile_api.Transfer.Executor.Resolve.{Attempt}
use bca_mobile_api.Transfer.Executor.{execute_transfer}
use bca_mobile_api.Transfer.Executor.Post.{credit_leg}
use bca_mobile_api.Transfer.Ledger.Rows.{find_id_unique}
use bca_mobile_api.Transfer.Ledger.Balances.{Apart, new_balance}
use bca_mobile_api.Transfer.Ledger.Writes.{credited}
use bca_mobile_api.Transfer.Ledger.Committed.{Committed, IsBank, IsCoherent}
use bca_mobile_api.Transfer.Ledger.Outcome.{
  execute_transfer-Ending, Ending, refused, replayed, committed,
}

used_today-upsert_usage :
    (user date : ℕ) (kind : String) (amount : ℤ) (us : List DailyUsage)
    → used_today user date kind (upsert_usage user date kind amount us)
      ≡ used_today user date kind us +ℤ amount
unfolding used_today upsert_usage
used_today-upsert_usage user date kind amount [] =
    let same = (eq_iff kind kind).1 refl in
    let key : (user == user && date == date && str_eq kind kind) ≡ true = ground arith in
    rw key (grind int_laws)
used_today-upsert_usage user date kind amount (u ∷ us) =
    elim (Bool-cases (usage_key user date kind u)) [
      | inl e ↦ rw e (rw e refl)
      | inr e ↦ rw e (rw e (used_today-upsert_usage user date kind amount us))
    ]

abbrev pub IsWithinLimit : ExecuteParams → Db → Type 0
IsWithinLimit p db =
    used_today p.user_id p.wib_date p.limit_type db.daily_usage
    ≤ℤ daily_limit p.user_id p.limit_type db.transaction_limits

Committed-IsWithinLimit :
    (env : Attempt) (p : ExecuteParams) (db : Db) (t : Transaction) (db' : Db)
    → Committed env p db t db'
    → IsWithinLimit p db'
Committed-IsWithinLimit env p db t db' c = rw c.usage (
    rw c.limits (
      within _ _ p.total_amount
        (used_today-upsert_usage p.user_id p.wib_date p.limit_type p.total_amount db.daily_usage)
        c.limited))
  where
    within : {v : ℤ} (l u t : ℤ) → v ≡ u +ℤ t → ltb_ℤ (l -ℤ u) t ≡ false → v ≤ℤ l
    within l u t e h =
        let left : t ≤ℤ l -ℤ u = ground arith in
        let sub = -ℤ_parts l u in let add = +ℤ_parts u t in rw e (omega arith)

Ending-IsWithinLimit :
    (envs : ℕ → Attempt) (p : ExecuteParams) (db : Db) (r : Result Transaction) (db' : Db)
    → IsWithinLimit p db
    → Ending envs p db r db'
    → IsWithinLimit p db'
Ending-IsWithinLimit envs p db _ _ w refused = w
Ending-IsWithinLimit envs p db _ _ w (replayed n f) = w
Ending-IsWithinLimit envs p db _ _ w (committed {t} {db'} n c) =
    Committed-IsWithinLimit (envs n) p db t db' c

-- A user whose transfers of the day are within the daily limit stays within it, however the transfer
-- ends. The conditions are those of `execute_transfer-total` on the schema and on the amounts.
pub execute_transfer-IsWithinLimit :
    (envs : ℕ → Attempt) (waits : ℕ → Bool) (p : ExecuteParams) (db : Db)
    → ((n : ℕ) → IsBank (envs n) p db)
    → IsCoherent p
    → IsWithinLimit p db
    → IsWithinLimit p (execute_transfer envs waits p db).1
execute_transfer-IsWithinLimit envs waits p db bank k w =
    Ending-IsWithinLimit envs p db (execute_transfer envs waits p db).0
      (execute_transfer envs waits p db).1 w (execute_transfer-Ending envs waits p db bank k refl)

abbrev pub IsCovered : ExecuteParams → Db → Type 0
IsCovered p db =
    (a : Account) → find_id p.source_account_id db.accounts ≡ some a → a.hold_amount ≤ℤ a.balance

credited_other :
    (s : ℕ) (leg : Option ℕ) (amount b : ℤ) → Apart (some s) leg → credited leg s amount b ≡ b
credited_other s none amount b o = refl
credited_other s (some i) amount b o = ground arith

-- The source loses the total and gets nothing.
new_balance-source :
    (env : Attempt) (p : ExecuteParams) (db : Db) {t : Transaction} {db' : Db}
    (c : Committed env p db t db') (b : ℤ)
    → new_balance p c.legs p.source_account_id b ≡ b +ℤ (pos 0 -ℤ p.total_amount)
new_balance-source env p db c b =
    let s = p.source_account_id in
    credited_other s c.legs.fee_account_id p.admin_fee _ c.apart.source_fee
    ∙ credited_other s c.legs.settlement_account_id p.amount _ c.apart.source_settlement
    ∙ credited_other s (credit_leg p c.legs) p.amount _ c.apart.source_dest
    ∙ own s (pos 0 -ℤ p.total_amount) b
  where
    own : (s : ℕ) (amount b : ℤ) → credited (some s) s amount b ≡ b +ℤ amount
    own s amount b = ground arith

Committed-IsCovered :
    (env : Attempt) (p : ExecuteParams) (db : Db) (t : Transaction) (db' : Db)
    → Committed env p db t db'
    → IsCovered p db'
Committed-IsCovered env p db t db' c a f =
    let row = c.current.source_row in
    let v = new_balance p c.legs p.source_account_id row.row.balance in
    let same : a ≡ record row.row { balance = v } =
      find_id_unique p.source_account_id db'.accounts f
        (c.moves.rows p.source_account_id row.found) in
    rw same (
      cover _ _ p.total_amount v row.same_balance row.same_hold c.funded
        (new_balance-source env p db c row.row.balance))
  where
    cover :
        {b h : ℤ} (x y t v : ℤ)
        → x ≡ b
        → y ≡ h
        → ltb_ℤ (x -ℤ y) t ≡ false
        → v ≡ b +ℤ (pos 0 -ℤ t)
        → h ≤ℤ v
    cover {b} {h} x y t v e₁ e₂ l e₃ =
        let left : t ≤ℤ x -ℤ y = ground arith in
        let s₁ = -ℤ_parts x y in
        let s₂ = +ℤ_parts b (pos 0 -ℤ t) in let s₃ = -ℤ_parts (pos 0) t in grind arith

Ending-IsCovered :
    (envs : ℕ → Attempt) (p : ExecuteParams) (db : Db) (r : Result Transaction) (db' : Db)
    → IsCovered p db
    → Ending envs p db r db'
    → IsCovered p db'
Ending-IsCovered envs p db _ _ w refused = w
Ending-IsCovered envs p db _ _ w (replayed n f) = w
Ending-IsCovered envs p db _ _ w (committed {t} {db'} n c) =
    Committed-IsCovered (envs n) p db t db' c

-- A source whose balance covers its hold still covers it, however the transfer ends. The conditions
-- are those of `execute_transfer-total` on the schema and on the amounts.
pub execute_transfer-IsCovered :
    (envs : ℕ → Attempt) (waits : ℕ → Bool) (p : ExecuteParams) (db : Db)
    → ((n : ℕ) → IsBank (envs n) p db)
    → IsCoherent p
    → IsCovered p db
    → IsCovered p (execute_transfer envs waits p db).1
execute_transfer-IsCovered envs waits p db bank k w =
    Ending-IsCovered envs p db (execute_transfer envs waits p db).0
      (execute_transfer envs waits p db).1 w (execute_transfer-Ending envs waits p db bank k refl)
