-- ===== src/Transfer/Ledger/LockOrder.antt =====
-- The order of the row locks: ascending, without repeats, and of all the accounts of a transfer.
use bca_mobile_api.Common.{
  ℕ, ◌≤◌, ◌<◌, ◌≡◌, refl, true, false, ◌||◌, List, [], ◌∷◌, ◌∙◌, arith, leb, ◌==◌, contains, inl,
  inr, Bool-cases,
}
use bca_mobile_api.Transfer.Executor.Resolve.{Legs}
use bca_mobile_api.Transfer.Executor.Lock.{
  insert_sorted, sort_ids, unique_ids, account_ids, lock_order,
}

abbrev pub AllFrom : ℕ → List ℕ → Type 0
AllFrom x [] = Unit
AllFrom x (y ∷ ys) = (x ≤ y) × AllFrom x ys

abbrev pub AllAbove : ℕ → List ℕ → Type 0
AllAbove x [] = Unit
AllAbove x (y ∷ ys) = (x < y) × AllAbove x ys

abbrev pub IsSorted : List ℕ → Type 0
IsSorted [] = Unit
IsSorted (x ∷ xs) = AllFrom x xs × IsSorted xs

-- Each id is below every later one.
abbrev pub IsAscending : List ℕ → Type 0
IsAscending [] = Unit
IsAscending (x ∷ xs) = AllAbove x xs × IsAscending xs

AllFrom-trans : (x y : ℕ) (ys : List ℕ) → x ≤ y → AllFrom y ys → AllFrom x ys
AllFrom-trans x y [] h k = tt
AllFrom-trans x y (z ∷ ys) h k = (omega arith, AllFrom-trans x y ys h k.1)

AllFrom-insert : (x y : ℕ) (ys : List ℕ) → x ≤ y → AllFrom x ys → AllFrom x (insert_sorted y ys)
unfolding insert_sorted
AllFrom-insert x y [] h k = (h, tt)
AllFrom-insert x y (z ∷ ys) h k = ground (arith, AllFrom-insert x y ys h k.1)

insert-IsSorted : (x : ℕ) (ys : List ℕ) → IsSorted ys → IsSorted (insert_sorted x ys)
unfolding insert_sorted
insert-IsSorted x [] s = (tt, tt)
insert-IsSorted x (y ∷ ys) s = elim (Bool-cases (leb x y)) [
  | inl h ↦ rw h ((ground arith, AllFrom-trans x y ys (ground arith) s.0), s)
  | inr h ↦ rw h (AllFrom-insert y x ys (ground arith) s.0, insert-IsSorted x ys s.1)
]

sort-IsSorted : (xs : List ℕ) → IsSorted (sort_ids xs)
unfolding sort_ids
sort-IsSorted [] = tt
sort-IsSorted (x ∷ xs) = insert-IsSorted x (sort_ids xs) (sort-IsSorted xs)

contains-eq : (x y : ℕ) (seen : List ℕ) → x ≡ y → contains x seen ≡ contains y seen
contains-eq x y seen e = rw e

unique-AllAbove :
    (x : ℕ) (seen xs : List ℕ)
    → AllFrom x xs
    → contains x seen ≡ true
    → AllAbove x (unique_ids seen xs)
unfolding unique_ids
unique-AllAbove x seen [] h k = tt
unique-AllAbove x seen (y ∷ ys) h k = elim (Bool-cases (contains y seen)) [
  | inl old ↦ rw old (unique-AllAbove x seen ys h.1 k)
  | inr new ↦
      rw new
        (ground (arith, contains-eq x y seen), unique-AllAbove x (y ∷ seen) ys h.1 (ground arith))
]

unique-IsAscending : (seen xs : List ℕ) → IsSorted xs → IsAscending (unique_ids seen xs)
unfolding unique_ids
unique-IsAscending seen [] s = tt
unique-IsAscending seen (x ∷ xs) s = elim (Bool-cases (contains x seen)) [
  | inl old ↦ rw old (unique-IsAscending seen xs s.1)
  | inr new ↦
      rw new
        (unique-AllAbove x (x ∷ seen) xs s.0 (ground arith), unique-IsAscending (x ∷ seen) xs s.1)
]

contains-insert :
    (x y : ℕ) (ys : List ℕ) → contains x (insert_sorted y ys) ≡ (x == y || contains x ys)
unfolding insert_sorted
contains-insert x y [] = refl
contains-insert x y (z ∷ ys) = ground (arith, contains-insert x y ys)

contains-sort : (x : ℕ) (xs : List ℕ) → contains x (sort_ids xs) ≡ contains x xs
unfolding sort_ids
contains-sort x [] = refl
contains-sort x (y ∷ ys) = ground (arith, contains-insert x y (sort_ids ys), contains-sort x ys)

contains_unique :
    (x : ℕ) (seen xs : List ℕ)
    → contains x seen ≡ false
    → contains x (unique_ids seen xs) ≡ contains x xs
unfolding unique_ids
contains_unique x seen [] h = refl
contains_unique x seen (y ∷ ys) h = elim (Bool-cases (contains y seen)) [
  | inl old ↦ rw old (ground (arith, contains_unique x seen ys h, contains-eq x y seen))
  | inr new ↦ rw new (ground (arith, contains_unique x (y ∷ seen) ys))
]

-- The locks of a transfer are taken in strictly ascending order of the account ids; and an account
-- is locked exactly if it is the source or one of the legs.
pub lock_order-IsAscending :
    (source : ℕ) (legs : Legs)
    → IsAscending (lock_order source legs)
      × ((i : ℕ) → contains i (lock_order source legs) ≡ contains i (account_ids source legs))
unfolding lock_order
lock_order-IsAscending source legs =
    let ids = account_ids source legs in
    (
      unique-IsAscending [] (sort_ids ids) (sort-IsSorted ids),
      λ i. contains_unique i [] (sort_ids ids) refl ∙ contains-sort i ids,
    )
