-- ===== src/Onboarding/Shuffle.antt =====
-- internal/domain/onboarding/liveness_challenge_service.go: secureShuffle, followed on its list.
use bca_mobile_api.Common.{
  ℕ, zero, suc, ◌+◌, ◌≤◌, ◌<◌, ◌≡◌, refl, ◌∙◌, ap, Bool, true, false, some, List, [], ◌∷◌, length,
  take, arith,
}
use bca_mobile_api.Onboarding.Liveness.{Rand, secure_intn, get_elem?, set, swap, secure_shuffle}

-- rand.Int returns a number below its bound.
abbrev pub IsUniform : Rand → Type 0
IsUniform rand = (n max : ℕ) → 0 < max → (j : ℕ) × (rand n max ≡ some j) × (j < max)

secure_intn-below :
    (rand : Rand) (n max : ℕ)
    → IsUniform rand
    → 0 < max
    → (j : ℕ) × (secure_intn rand n max ≡ some j) × (j < max)
unfolding secure_intn
secure_intn-below rand n zero u l = absurd (omega arith)
secure_intn-below rand n (suc max) u l = u n (suc max) l

abbrev weight : Bool → ℕ
weight true = 1
weight false = 0

module _ {A : Type 0} where
  abbrev pub count : (A → Bool) → List A → ℕ
  count p [] = 0
  count p (x ∷ xs) = weight (p x) + count p xs

  get_elem?-length : (xs : List A) (i : ℕ) → i < length xs → (a : A) × (get_elem? xs i ≡ some a)
  get_elem?-length [] i l = absurd (omega arith)
  get_elem?-length (x ∷ xs) zero l = (x, refl)
  get_elem?-length (x ∷ xs) (suc i) l = get_elem?-length xs i (omega arith)

  length-set : (xs : List A) (i : ℕ) (a : A) → length (set xs i a) ≡ length xs
  length-set [] i a = refl
  length-set (x ∷ xs) zero a = refl
  length-set (x ∷ xs) (suc i) a = ap suc (length-set xs i a)

  -- Writing what another place holds leaves that place as it is.
  get_elem?-set :
      (xs : List A) (i j : ℕ) (b : A) → get_elem? xs j ≡ some b → get_elem? (set xs i b) j ≡ some b
  get_elem?-set [] i j b h = h
  get_elem?-set (x ∷ xs) zero zero b h = refl
  get_elem?-set (x ∷ xs) zero (suc j) b h = h
  get_elem?-set (x ∷ xs) (suc i) zero b h = h
  get_elem?-set (x ∷ xs) (suc i) (suc j) b h = get_elem?-set xs i j b h

  count-set :
      (p : A → Bool) (xs : List A) (i : ℕ) (a b : A)
      → get_elem? xs i ≡ some a
      → count p (set xs i b) + weight (p a) ≡ count p xs + weight (p b)
  count-set p [] i a b h = cc
  count-set p (x ∷ xs) zero a b h =
      let same : x ≡ a = cc in let w = ap (λ y. weight (p y)) same in omega arith
  count-set p (x ∷ xs) (suc i) a b h = let k = count-set p xs i a b h in omega arith

  -- What a reordering keeps.
  pub record IsShuffle (xs ys : List A) : Type 0 where
    pub long : length ys ≡ length xs
    pub kept : (p : A → Bool) → count p ys ≡ count p xs

  swap-IsShuffle :
      (xs : List A) (i j : ℕ)
      → i < length xs
      → j < length xs
      → (ys : List A) × (swap xs i j ≡ some ys) × IsShuffle xs ys
  unfolding swap
  swap-IsShuffle xs i j l m =
      let (a, h) = get_elem?-length xs i l in
      let (b, g) = get_elem?-length xs j m in
      (
        set (set xs i b) j a,
        rw (h, g) refl,
        record {
          long = length-set (set xs i b) j a ∙ length-set xs i b;
          kept = λ p.
              let k = count-set p xs i a b h in
              let n = count-set p (set xs i b) j b a (get_elem?-set xs i j b g) in omega arith;
        },
      )

  pub secure_shuffle-IsShuffle :
      (rand : Rand) (n i : ℕ) (xs : List A)
      → IsUniform rand
      → i < length xs
      → (ys : List A) × (secure_shuffle rand n i xs ≡ some ys) × IsShuffle xs ys
  unfolding secure_shuffle
  secure_shuffle-IsShuffle rand n zero xs u l = (xs, refl, record { long = refl; kept = λ p. refl })
  secure_shuffle-IsShuffle rand n (suc i) xs u l =
      let (j, drawn, below) = secure_intn-below rand n (suc i + 1) u (omega arith) in
      let (ys, swapped, s) = swap-IsShuffle xs (suc i) j l (omega arith) in
      let same = s.long in
      let (zs, e, t) = secure_shuffle-IsShuffle rand (n + 1) i ys u (omega arith) in
      (
        zs,
        rw (drawn, swapped) e,
        record { long = t.long ∙ s.long; kept = λ p. t.kept p ∙ s.kept p },
      )

  pub count-take : (p : A → Bool) (n : ℕ) (xs : List A) → count p (take n xs) ≤ count p xs
  count-take p zero xs = omega arith
  count-take p (suc n) [] = omega arith
  count-take p (suc n) (x ∷ xs) = omega (arith, count-take p n xs)
