-- ===== src/Transfer/Ledger/Rows.antt =====
-- The rows of `accounts`: ids are a primary key, and the sum of the balances under an update.
use bca_mobile_api.Common.{
  ℕ, ◌≡◌, refl, ◌≢◌, Bool, true, none, some, List, [], ◌∷◌, arith, ◌==◌, inl, inr, Bool-cases,
}
use bca_mobile_api.Common.Int.{ℤ, pos, ◌+ℤ◌, int_laws}
use bca_mobile_api.Transfer.Data.{Account}
use bca_mobile_api.Transfer.Db.{first, find_id, set_balance}

-- The primary key: no row shares its id with a later one.
abbrev pub UniqueIds : List Account → Type 0
UniqueIds [] = Unit
UniqueIds (a ∷ rest) = (find_id a.id rest ≡ none) × UniqueIds rest

-- All the money in the bank's books.
abbrev pub total : List Account → ℤ
total [] = pos 0
total (a ∷ rest) = a.balance +ℤ total rest

pub find_id-set_balance_ne :
    (i j : ℕ) (v : ℤ) (rows : List Account)
    → i ≢ j
    → find_id i (set_balance j v rows) ≡ find_id i rows
unfolding find_id set_balance
find_id-set_balance_ne i j v [] h = refl
find_id-set_balance_ne i j v (a ∷ rest) h = ground (arith, find_id-set_balance_ne i j v rest h)

pub find_id-set_balance_self :
    (i : ℕ) (v : ℤ) {a : Account} (rows : List Account)
    → find_id i rows ≡ some a
    → find_id i (set_balance i v rows) ≡ some (record a { balance = v })
unfolding find_id set_balance
find_id-set_balance_self i v [] h = cc
find_id-set_balance_self i v {a} (b ∷ rest) h =
    ground (arith, find_id-set_balance_self i v {a = a} rest)

-- An id that no row has is not written.
set_balance_absent :
    (i : ℕ) (v : ℤ) (rows : List Account) → find_id i rows ≡ none → set_balance i v rows ≡ rows
unfolding find_id set_balance
set_balance_absent i v [] h = refl
set_balance_absent i v (a ∷ rest) h = ground (arith, set_balance_absent i v rest)

find_id-none-set_balance :
    (i j : ℕ) (v : ℤ) (rows : List Account)
    → find_id i rows ≡ none
    → find_id i (set_balance j v rows) ≡ none
unfolding find_id set_balance
find_id-none-set_balance i j v [] h = refl
find_id-none-set_balance i j v (a ∷ rest) h = ground (arith, find_id-none-set_balance i j v rest)

pub set_balance-UniqueIds :
    (i : ℕ) (v : ℤ) (rows : List Account) → UniqueIds rows → UniqueIds (set_balance i v rows)
unfolding set_balance
set_balance-UniqueIds i v [] u = tt
set_balance-UniqueIds i v (a ∷ rest) u = elim (Bool-cases (a.id == i)) [
  | inl e ↦ rw e (find_id-none-set_balance a.id i v rest u.0, set_balance-UniqueIds i v rest u.1)
  | inr e ↦ rw e (find_id-none-set_balance a.id i v rest u.0, set_balance-UniqueIds i v rest u.1)
]

-- Writing one balance moves the total by the difference.
pub total-set_balance :
    (i : ℕ) (v : ℤ) {a : Account} (rows : List Account)
    → UniqueIds rows
    → find_id i rows ≡ some a
    → total (set_balance i v rows) +ℤ a.balance ≡ total rows +ℤ v
unfolding find_id set_balance
total-set_balance i v [] u h = cc
total-set_balance i v {a} (b ∷ rest) u h = elim (Bool-cases (b.id == i)) [
  | inl e ↦
      let same : b ≡ a = ground arith in
      let gone : set_balance i v rest ≡ rest = set_balance_absent i v rest (ground arith) in
      rw e (rw gone (rw (← same) (omega int_laws)))
  | inr e ↦ rw e (grind (int_laws, total-set_balance i v {a = a} rest u.1 (ground arith)))
]

pub id-eq : (i j : ℕ) → (i == j) ≡ true → i ≡ j
id-eq i j h = ground arith

-- A row that a query finds is the row of its id.
pub find_id-first :
    (p : Account → Bool) {a : Account} (rows : List Account)
    → UniqueIds rows
    → first p rows ≡ some a
    → (find_id a.id rows ≡ some a) × (p a ≡ true)
unfolding first find_id
find_id-first p [] u h = cc
find_id-first p {a} (b ∷ rest) u h = elim (Bool-cases (p b)) [
  | inl e ↦ ground arith
  | inr e ↦
      let (found, passes) = find_id-first p {a = a} rest u.1 (ground arith) in
      elim (Bool-cases (b.id == a.id)) [
        | inl same ↦ let clash : find_id a.id rest ≡ none = rw (id-eq b.id a.id same) at u.0 in cc
        | inr differ ↦ (rw differ found, passes)
      ]
]

pub find_id_unique :
    (i : ℕ) {a b : Account} (rows : List Account)
    → find_id i rows ≡ some a
    → find_id i rows ≡ some b
    → a ≡ b
find_id_unique i rows h k = cc
