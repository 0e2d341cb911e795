-- ===== src/Onboarding/Steps.antt =====
-- internal/domain/onboarding/entity.go: the steps of an account opening. A step that is none of the
-- source's constants does not occur, since the database column and the code use those only.
use bca_mobile_api.Common.{
  ℕ, ◌+◌, ◌-◌, String, Bool, true, false, ◌&&◌, List, [], ◌∷◌, leb, take, drop, str_eq, ◌||◌,
  if◌then◌else◌,
}

pub data Step : Type 0 where
  tnc card_selection ocr personal_data otp_verify biometric : Step
  video_call credentials review completed : Step

abbrev pub step_order : List Step
step_order =
    tnc ∷ card_selection ∷ ocr ∷ personal_data ∷ otp_verify ∷ biometric ∷ video_call ∷ credentials
    ∷ review ∷ completed ∷ []

-- The place of a step in `step_order`.
abbrev pub step_index : Step → ℕ
step_index tnc = 0
step_index card_selection = 1
step_index ocr = 2
step_index personal_data = 3
step_index otp_verify = 4
step_index biometric = 5
step_index video_call = 6
step_index credentials = 7
step_index review = 8
step_index completed = 9

abbrev pub is_skippable : Step → Bool
is_skippable card_selection = true
is_skippable _ = false

abbrev pub all_skippable : List Step → Bool
all_skippable [] = true
all_skippable (s ∷ ss) = is_skippable s && all_skippable ss

-- The steps strictly between the two are those that the loop goes through.
unfoldable pub can_transition : Step → Step → Bool
can_transition here to =
    let i = step_index here in
    let j = step_index to in
    if leb j i then false else all_skippable (take (j - (i + 1)) (drop (i + 1) step_order))

pub record StepsCompleted : Type 0 where
  pub tnc_accepted : Bool
  pub ocr_verified : Bool
  pub personal_data_saved : Bool
  pub otp_verified : Bool
  pub biometric_verified : Bool
  pub video_call_verified : Bool
  pub credentials_set : Bool
  pub submitted : Bool
  pub card_selected : Bool

-- The `switch` of TransitionStep.
unfoldable pub complete : Step → StepsCompleted → StepsCompleted
complete ocr c = record c { tnc_accepted = true }
complete personal_data c = record c { ocr_verified = true }
complete otp_verify c = record c { personal_data_saved = true }
complete biometric c = record c { otp_verified = true }
complete video_call c = record c { biometric_verified = true }
complete credentials c = record c { video_call_verified = true }
complete review c = record c { credentials_set = true }
complete completed c = record c { submitted = true }
complete tnc c = c
complete card_selection c = c

unfoldable pub valid_product : String → Bool
valid_product p = str_eq p "TAHAPAN_BCA" || str_eq p "TAHAPAN_XPRESI" || str_eq p "TABUNGANKU"
