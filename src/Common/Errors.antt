-- ===== src/Common/Errors.antt =====
-- internal/pkg/apperr/apperr.go: the errors that the modelled services return, and the `Result`
-- that a fallible Go function returns. A Go `error` made by `fmt.Errorf("prefix: %w", err)` is
-- `wrapped` with its prefix and the cause that `errors.As` finds under it.
use mathlib.Core.Path.{◌≡◌, refl}
use mathlib.Core.Logic.{◌⊎◌, inl, inr}
use Prim.Native.String.{String}
use mathlib.Core.Bool.{Bool, true, false}

-- What stands under a wrapped error: a PostgreSQL error with its SQLSTATE, a missing row, or
-- any other failure.
pub data Cause : Type 0 where
  pg_error : String → Cause
  no_rows failed : Cause

-- The values of apperr that the model returns.
pub data Error : Type 0 where
  validation_error verification_token_invalid source_account_forbidden onboarding_device_mismatch :
      Error
  not_found transfer_account_not_found onboarding_not_found inquiry_expired : Error
  inquiry_mismatch insufficient_balance self_transfer transfer_limit_exceeded : Error
  idempotency_conflict onboarding_session_expired onboarding_product_unavailable
        onboarding_session_limit :
      Error
  onboarding_invalid_step ticket_invalid_transition tnc_version_outdated card_type_unavailable :
      Error
  qris_invalid_payload invalid_pin device_not_recognized account_locked : Error
  token_invalid token_expired internal_error rate_limit_exceeded pin_key_unknown : Error
  video_call_not_active video_call_agent_mismatch video_call_already_taken : Error
  video_call_under_review video_call_outside_hours provider_not_configured terminal_not_online :
      Error
  wrapped : String → Cause → Error

pub data Result {ℓ} (R : Type ℓ) : Type ℓ where
  err : Error → Result R
  ok : R → Result R

infixl 5 ◌>>◌ ◌>>=◌
abbrev pub ◌>>=◌ {ℓ κ} : {R : Type ℓ} {S : Type κ} → Result R → (R → Result S) → Result S
err e >>= next = err e
ok r >>= next = next r

-- `if err := m; err != nil { return err }`
abbrev pub ◌>>◌ {κ} : {S : Type κ} → Result (Unit {0}) → Result S → Result S
check >> next = check >>= λ _. next

-- `if test { return err }`
abbrev pub refuse : Bool → Error → Result (Unit {0})
refuse true e = err e
refuse false e = ok tt

-- Inversion of a bind that succeeded, for parts that stay shut.
pub >>=-eq_ok {ℓ κ} :
    {R : Type ℓ} {S : Type κ} (m : Result R) (next : R → Result S) {s : S}
    → (m >>= next) ≡ ok s
    → (r : R) × (m ≡ ok r) × (next r ≡ ok s)
>>=-eq_ok (err e) next h = cc
>>=-eq_ok (ok r) next h = (r, refl, h)

pub refuse-eq_ok : (b : Bool) (e : Error) {u : Unit {0}} → refuse b e ≡ ok u → b ≡ false
refuse-eq_ok true e h = cc
refuse-eq_ok false e h = refl

pub Result-cases {ℓ} :
    {R : Type ℓ} (m : Result R) → ((r : R) × (m ≡ ok r)) ⊎ ((e : Error) × (m ≡ err e))
Result-cases (err e) = inr (e, refl)
Result-cases (ok r) = inl (r, refl)

pub ok_pair {ℓ} :
    {A B : Type ℓ} {a c : A} {b d : B}
    → ◌≡◌ {A = Result (A × B)} (ok (a, b)) (ok (c, d))
    → (c ≡ a) × (d ≡ b)
ok_pair h = (cc, cc)
