-- ===== src/Common/State.antt =====
-- Functions of the source that change a state and return a value or an error: what they changed before an
-- error stays changed.
use mathlib.Core.Path.{◌≡◌, refl, ap}
use mathlib.Core.Bool.{Bool, true, false}
use mathlib.Core.Option.{Option, none, some}
use Prim.Native.String.{String}
use bca_mobile_api.Common.Tests.{if◌then◌else◌}
use bca_mobile_api.Common.Errors.{Error, Result, ok, err, Cause, wrapped}

-- A step that reads and changes a state of type W, and may fail after it changed it.
abbrev pub Action : Type 0 → Type 0 → Type 0
Action W R = W → Result R × W

abbrev pub bind : {W R S : Type 0} → Result R × W → (R → Action W S) → Result S × W
bind (err e, w) next = (err e, w)
bind (ok r, w) next = next r w

infixl 5 ◌>>◌ ◌>>=◌
abbrev pub ◌>>=◌ : {W R S : Type 0} → Action W R → (R → Action W S) → Action W S
m >>= next = λ w. bind (m w) next

abbrev pub ◌>>◌ : {W R S : Type 0} → Action W R → Action W S → Action W S
m >> next = m >>= λ _. next

abbrev pub give : {W R : Type 0} → R → Action W R
give r = λ w. (ok r, w)

abbrev pub fail : {W R : Type 0} → Error → Action W R
fail e = λ w. (err e, w)

abbrev pub refuse : {W : Type 0} → Bool → Error → Action W (Unit {0})
refuse true e = λ w. (err e, w)
refuse false e = λ w. (ok tt, w)

abbrev pub read : {W R : Type 0} → (W → R) → Action W R
read f = λ w. (ok (f w), w)

abbrev pub modify : {W : Type 0} → (W → W) → Action W (Unit {0})
modify f = λ w. (ok tt, f w)

-- `if x == nil { return err }`
abbrev pub need : {W R : Type 0} → Option R → Error → Action W R
need none e = λ w. (err e, w)
need (some r) e = λ w. (ok r, w)

-- What an operation that succeeded says of a step in it.
pub record IsBound {W R S : Type 0} (m : Action W R) (next : R → Action W S) (s : S) (w v : W)
    : Type 0 where
  pub value : R
  pub middle : W
  pub outcome : m w ≡ (ok value, middle)
  pub rest : next value middle ≡ (ok s, v)

pub >>=-IsBound :
    {W R S : Type 0} (m : Action W R) (next : R → Action W S) {s : S} (w : W) {v : W}
    → (m >>= next) w ≡ (ok s, v)
    → IsBound m next s w v
>>=-IsBound {W} {R} {S} m next {s} w {v} h = split (m w) refl h
  where
    split : (p : Result R × W) → m w ≡ p → bind p next ≡ (ok s, v) → IsBound m next s w v
    split (err e, u) q g = let bad : err e ≡ ok s = ap (λ (x : Result S × W). x.0) g in cc
    split (ok r, u) q g = record { value = r; middle = u; outcome = q; rest = g }

pub same_step :
    {W R : Type 0} {r q : R} {w v : W}
    → ◌≡◌ {A = Result R × W} (ok r, w) (ok q, v)
    → (r ≡ q) × (w ≡ v)
same_step h = (cc, cc)

pub refuse_passed :
    {W : Type 0} (b : Bool) (e : Error) {u : Unit {0}} {w v : W}
    → refuse b e w ≡ (ok u, v)
    → (b ≡ false) × (w ≡ v)
refuse_passed {W} true e {u} h =
    let bad : err e ≡ ok u = ap (λ (x : Result (Unit {0}) × W). x.0) h in cc
refuse_passed false e h = (refl, (same_step h).1)

pub need_passed :
    {W R : Type 0} (o : Option R) (e : Error) {r : R} {w v : W}
    → need o e w ≡ (ok r, v)
    → (o ≡ some r) × (w ≡ v)
need_passed {W} {R} none e {r} h = let bad : err e ≡ ok r = ap (λ (x : Result R × W). x.0) h in cc
need_passed (some q) e h = (ap (λ x. some x) (same_step h).0, (same_step h).1)

-- `if err := m; err != nil { return fmt.Errorf("prefix: %w", err) }`
abbrev pub try : {W : Type 0} → Option Cause → String → Action W (Unit {0})
try none prefix = λ w. (ok tt, w)
try (some e) prefix = λ w. (err (wrapped prefix e), w)

-- A change whose failure is only logged.
abbrev pub try_change : {W : Type 0} → Option Cause → (W → W) → Action W (Unit {0})
try_change none f = λ w. (ok tt, f w)
try_change (some e) f = λ w. (ok tt, w)

-- A property of the state that a step keeps, whether it succeeds or fails.
abbrev pub Keeps : {W R : Type 0} → (W → W → Type 0) → Action W R → Type 0
Keeps {W} P m = (w : W) → P w (m w).1

pub bind-Keeps :
    {W R S : Type 0} (P : W → W → Type 0) (m : Action W R) (next : R → Action W S)
    → ((x y z : W) → P x y → P y z → P x z)
    → Keeps P m
    → ((r : R) → Keeps P (next r))
    → Keeps P (m >>= next)
bind-Keeps {W} {R} {S} P m next trans k l w = split (m w) (k w)
  where
    split : (p : Result R × W) → P w p.1 → P w (bind p next).1
    split (err e, u) q = q
    split (ok r, u) q = trans w u _ q (l r u)

-- The same at one state, past the checks of a function.
pub refuse-at :
    {W S : Type 0} (P : W → W → Type 0) (b : Bool) (e : Error) (next : Unit {0} → Action W S)
    (w : W)
    → P w w
    → (b ≡ false → P w (next tt w).1)
    → P w ((refuse b e >>= next) w).1
refuse-at P true e next w r k = r
refuse-at P false e next w r k = k refl

pub try-at :
    {W S : Type 0} (P : W → W → Type 0) (o : Option Cause) (prefix : String)
    (next : Unit {0} → Action W S) (w : W)
    → P w w
    → P w (next tt w).1
    → P w ((try o prefix >>= next) w).1
try-at P none prefix next w r k = k
try-at P (some e) prefix next w r k = r

pub need-at :
    {W R S : Type 0} (P : W → W → Type 0) (o : Option R) (e : Error) (next : R → Action W S) (w : W)
    → P w w
    → ((a : R) → o ≡ some a → P w (next a w).1)
    → P w ((need o e >>= next) w).1
need-at P none e next w r k = r
need-at P (some a) e next w r k = k a refl

pub choose-at :
    {W R : Type 0} (P : W → W → Type 0) (b : Bool) (p q : Result R × W) (w : W)
    → P w p.1
    → P w q.1
    → P w (if b then p else q).1
choose-at P true p q w k l = k
choose-at P false p q w k l = l

-- Steps that change nothing keep what is reflexive.
pub refuse-Keeps :
    {W : Type 0} (P : W → W → Type 0)
    → ((w : W) → P w w)
    → (b : Bool) (e : Error) → Keeps P (refuse b e)
refuse-Keeps P r true e w = r w
refuse-Keeps P r false e w = r w

pub need-Keeps :
    {W R : Type 0} (P : W → W → Type 0)
    → ((w : W) → P w w)
    → (o : Option R) (e : Error) → Keeps P (need o e)
need-Keeps P r none e w = r w
need-Keeps P r (some a) e w = r w

pub try-Keeps :
    {W : Type 0} (P : W → W → Type 0)
    → ((w : W) → P w w)
    → (o : Option Cause) (prefix : String) → Keeps P (try o prefix)
try-Keeps P r none prefix w = r w
try-Keeps P r (some e) prefix w = r w

pub try_change-Keeps :
    {W : Type 0} (P : W → W → Type 0)
    → ((w : W) → P w w)
    → (o : Option Cause) (f : W → W) → ((w : W) → P w (f w))
    → Keeps P (try_change o f)
try_change-Keeps P r none f k w = k w
try_change-Keeps P r (some e) f k w = r w

pub try_passed :
    {W : Type 0} (o : Option Cause) (prefix : String) {u : Unit {0}} {w v : W}
    → try o prefix w ≡ (ok u, v)
    → w ≡ v
try_passed none prefix h = (same_step h).1
try_passed {W} (some e) prefix {u} h =
    let bad : err (wrapped prefix e) ≡ ok u = ap (λ (x : Result (Unit {0}) × W). x.0) h in cc
