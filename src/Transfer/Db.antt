-- ===== src/Transfer/Db.antt =====
-- The tables that a transfer reads and writes, and the SQL statements of
-- internal/repository/postgres/transfer_executor.go as functions of them.
use bca_mobile_api.Common.{
  ℕ, ◌+◌, String, Bool, true, false, ◌&&◌, ◌||◌, Option, none, some, List, [], ◌∷◌, ◌==◌, str_eq,
  if◌then◌else◌,
}
use bca_mobile_api.Common.Int.{ℤ, pos, ◌+ℤ◌}
use bca_mobile_api.Transfer.Data.{
  OwnerType, customer, internal, Account, Transaction, Mutation, DailyUsage, TransactionLimit,
}

pub record Db : Type 0 where
  pub accounts : List Account
  pub daily_usage : List DailyUsage
  pub transaction_limits : List TransactionLimit
  pub transactions : List Transaction
  pub mutations : List Mutation

abbrev pub is_customer : OwnerType → Bool
is_customer customer = true
is_customer internal = false

-- A nullable column against a text: NULL is equal to nothing.
abbrev pub column_eq : Option String → String → Bool
column_eq none s = false
column_eq (some t) s = str_eq t s

abbrev pub index_eq : Option ℕ → ℕ → Bool
index_eq none n = false
index_eq (some m) n = m == n

-- The first row that passes a test; the schema's unique indexes leave at most one.
unfoldable pub first {ℓ} : {A : Type ℓ} → (A → Bool) → List A → Option A
first p [] = none
first p (x ∷ xs) = if p x then some x else first p xs

-- `WHERE id = $1`
unfoldable pub find_id : ℕ → List Account → Option Account
unfolding first
find_id i = first (λ a. a.id == i)

-- `WHERE account_number = $1 AND owner_type = 'CUSTOMER' AND status = 'ACTIVE'`
unfoldable pub find_customer : String → List Account → Option Account
unfolding first
find_customer number =
    first
      (λ a. str_eq a.account_number number && is_customer a.owner_type && str_eq a.status "ACTIVE")

-- `settlement_account_id(p_rail, p_key)` at the shard of the key
unfoldable pub find_shard : String → ℕ → List Account → Option Account
unfolding first
find_shard rail shard = first (λ a.
    (if is_customer a.owner_type then false else column_eq a.settlement_rail rail)
    && index_eq a.shard_index shard)

-- `UPDATE accounts SET balance = $2 WHERE id = $1`
unfoldable pub set_balance : ℕ → ℤ → List Account → List Account
set_balance i v [] = []
set_balance i v (a ∷ rest) =
    (if a.id == i then record a { balance = v } else a) ∷ set_balance i v rest

abbrev pub usage_key : ℕ → ℕ → String → DailyUsage → Bool
usage_key user date kind u = u.user_id == user && u.usage_date == date && str_eq u.limit_type kind

-- `SELECT COALESCE(total_amount, 0) FROM daily_usage WHERE …`, with no row read as zero
unfoldable pub used_today : ℕ → ℕ → String → List DailyUsage → ℤ
used_today user date kind [] = pos 0
used_today user date kind (u ∷ us) =
    if usage_key user date kind u then u.total_amount else used_today user date kind us

-- `INSERT INTO daily_usage … ON CONFLICT … DO UPDATE`
unfoldable pub upsert_usage : ℕ → ℕ → String → ℤ → List DailyUsage → List DailyUsage
upsert_usage user date kind amount [] =
    record {
      user_id = user;
      usage_date = date;
      limit_type = kind;
      total_amount = amount;
      transaction_count = 1;
    }
    ∷ []
upsert_usage user date kind amount (u ∷ us) =
    if usage_key user date kind u
    then record u {
      total_amount = u.total_amount +ℤ amount;
      transaction_count = u.transaction_count + 1;
    }
      ∷ us
    else u ∷ upsert_usage user date kind amount us

-- `SELECT daily_limit FROM transaction_limits WHERE …`, with no row read as zero
unfoldable pub daily_limit : ℕ → String → List TransactionLimit → ℤ
daily_limit user kind [] = pos 0
daily_limit user kind (l ∷ ls) =
    if l.user_id == user && str_eq l.limit_type kind
    then l.daily_limit
    else daily_limit user kind ls

-- `WHERE user_id = $1 AND idempotency_key = $2`
unfoldable pub find_transaction : ℕ → String → List Transaction → Option Transaction
unfolding first
find_transaction user key = first (λ t. t.user_id == user && column_eq t.idempotency_key key)

-- Two values of a nullable unique column collide: NULL collides with nothing.
abbrev pub same_key : Option String → Option String → Bool
same_key k none = false
same_key k (some s) = column_eq k s

-- The unique constraints of `transactions`: reference_number, and (user_id, idempotency_key).
unfoldable pub conflicts : Transaction → List Transaction → Bool
conflicts t [] = false
conflicts t (u ∷ us) =
    str_eq u.reference_number t.reference_number
    || (u.user_id == t.user_id && same_key u.idempotency_key t.idempotency_key)
    || conflicts t us
