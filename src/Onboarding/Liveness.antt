-- ===== src/Onboarding/Liveness.antt =====
-- internal/domain/onboarding/liveness_challenge_service.go: the actions that a liveness challenge asks for.
-- crypto/rand is a parameter. A negative ActionCount is treated as every count below two.
use bca_mobile_api.Common.{
  ℕ, zero, suc, ◌+◌, ◌-◌, Option, none, some, List, [], ◌∷◌, ltb, if◌then◌else◌, length, take,
}

pub data LivenessAction : Type 0 where
  turn_left turn_right look_up look_down blink : LivenessAction

abbrev pub head_actions : List LivenessAction
head_actions = turn_left ∷ turn_right ∷ look_up ∷ look_down ∷ []

-- The n-th call of rand.Int with its bound; `none` is its error.
abbrev pub Rand : Type 0
Rand = ℕ → ℕ → Option ℕ

infixl 5 ◌>>=◌
abbrev ◌>>=◌ : {A B : Type 0} → Option A → (A → Option B) → Option B
none >>= next = none
some a >>= next = next a

unfoldable pub secure_intn : Rand → ℕ → ℕ → Option ℕ
secure_intn rand n zero = none
secure_intn rand n (suc max) = rand n (suc max)

module _ {A : Type 0} where
  abbrev pub get_elem? : List A → ℕ → Option A
  get_elem? [] i = none
  get_elem? (x ∷ xs) zero = some x
  get_elem? (x ∷ xs) (suc i) = get_elem? xs i

  abbrev pub set : List A → ℕ → A → List A
  set [] i a = []
  set (x ∷ xs) zero a = a ∷ xs
  set (x ∷ xs) (suc i) a = x ∷ set xs i a

  -- `xs[i], xs[j] = xs[j], xs[i]`; `none` is the panic of an index out of range.
  unfoldable pub swap : List A → ℕ → ℕ → Option (List A)
  swap xs i j = do a ← get_elem? xs i; b ← get_elem? xs j; some (set (set xs i b) j a)

  -- `xs[:n]`, of a slice without spare capacity.
  unfoldable pub slice_to : List A → ℕ → Option (List A)
  slice_to xs n = if ltb (length xs) n then none else some (take n xs)

  -- secureShuffle from `i` down, with the list that its `swap` changes; n calls were made before.
  unfoldable pub secure_shuffle : Rand → ℕ → ℕ → List A → Option (List A)
  unfolding secure_intn swap
  secure_shuffle rand n zero xs = some xs
  secure_shuffle rand n (suc i) xs = do
    j ← secure_intn rand n (suc i + 1)
    ys ← swap xs (suc i) j
    secure_shuffle rand (n + 1) i ys

abbrev pub head_count : ℕ → ℕ
head_count count =
    let wanted = (if ltb count 2 then 2 else count) - 1 in
    if ltb (length head_actions) wanted then length head_actions else wanted

-- The first shuffle makes a call for every head action but one.
unfoldable pub pick_actions : Rand → ℕ → Option (List LivenessAction)
unfolding secure_shuffle slice_to
pick_actions rand count = do
  pool ← secure_shuffle rand 0 (length head_actions - 1) head_actions
  heads ← slice_to pool (head_count count)
  let actions = blink ∷ heads
  secure_shuffle rand (length head_actions - 1) (length actions - 1) actions
