-- ===== src/Onboarding/Order.antt =====
-- internal/domain/onboarding/entity.go: the order of the steps, and what a transition marks as done.
use bca_mobile_api.Common.{
  ℕ, zero, suc, ◌+◌, ◌-◌, ◌≤◌, true, false, ◌≡◌, refl, ◌⊎◌, inl, inr, List, ◌∷◌, take, drop, leb,
  arith, Bool-cases,
}
use bca_mobile_api.Onboarding.Steps.{
  Step, tnc, card_selection, ocr, personal_data, otp_verify, biometric, video_call, credentials,
  review, completed, step_index, step_order, is_skippable, all_skippable, can_transition,
  StepsCompleted, complete,
}

-- Every step that a session has left behind is marked as done. The card selection is the only one that
-- is not asked for.
pub record IsProgress (step : Step) (c : StepsCompleted) : Type 0 where
  pub past_tnc : 2 ≤ step_index step → c.tnc_accepted ≡ true
  pub past_ocr : 3 ≤ step_index step → c.ocr_verified ≡ true
  pub past_personal : 4 ≤ step_index step → c.personal_data_saved ≡ true
  pub past_otp : 5 ≤ step_index step → c.otp_verified ≡ true
  pub past_biometric : 6 ≤ step_index step → c.biometric_verified ≡ true
  pub past_video : 7 ≤ step_index step → c.video_call_verified ≡ true
  pub past_credentials : 8 ≤ step_index step → c.credentials_set ≡ true
  pub past_review : 9 ≤ step_index step → c.submitted ≡ true

none_skipped :
    (n : ℕ) (s : Step) (ss : List Step)
    → is_skippable s ≡ false
    → all_skippable (take n (s ∷ ss)) ≡ true
    → n ≡ 0
none_skipped zero s ss h k = refl
none_skipped (suc n) s ss h k = let bad : ⊥ = ground arith in absurd bad

one_skipped :
    (n : ℕ) (s t : Step) (ss : List Step)
    → is_skippable t ≡ false
    → all_skippable (take n (s ∷ t ∷ ss)) ≡ true
    → n ≤ 1
one_skipped zero s t ss h k = omega arith
one_skipped (suc zero) s t ss h k = omega arith
one_skipped (suc (suc n)) s t ss h k = let bad : ⊥ = ground arith in absurd bad

step_index_le : (s : Step) → step_index s ≤ 9
step_index_le tnc = omega arith
step_index_le card_selection = omega arith
step_index_le ocr = omega arith
step_index_le personal_data = omega arith
step_index_le otp_verify = omega arith
step_index_le biometric = omega arith
step_index_le video_call = omega arith
step_index_le credentials = omega arith
step_index_le review = omega arith
step_index_le completed = omega arith

-- A transition that is allowed goes one step ahead in the order of the steps, or from the first step to
-- the third, past the card selection.
pub can_transition-index :
    (here to : Step)
    → can_transition here to ≡ true
    → (step_index to ≡ step_index here + 1) ⊎ ((step_index here ≡ 0) × (step_index to ≡ 2))
unfolding can_transition
can_transition-index here to h = elim (Bool-cases (leb (step_index to) (step_index here))) [
  | inl e ↦ let bad : ⊥ = ground arith in absurd bad
  | inr e ↦ loop_end here to (ground arith) (ground arith)
]
  where
    loop_end :
        (here to : Step)
        → leb (step_index to) (step_index here) ≡ false
        → all_skippable
            (take (step_index to - (step_index here + 1)) (drop (step_index here + 1) step_order))
          ≡ true
        → (step_index to ≡ step_index here + 1) ⊎ ((step_index here ≡ 0) × (step_index to ≡ 2))
    loop_end tnc to l k =
        let n = one_skipped (step_index to - 1) card_selection ocr _ refl k in ground arith
    loop_end card_selection to l k =
        let n = none_skipped (step_index to - 2) ocr _ refl k in inl (ground arith)
    loop_end ocr to l k =
        let n = none_skipped (step_index to - 3) personal_data _ refl k in inl (ground arith)
    loop_end personal_data to l k =
        let n = none_skipped (step_index to - 4) otp_verify _ refl k in inl (ground arith)
    loop_end otp_verify to l k =
        let n = none_skipped (step_index to - 5) biometric _ refl k in inl (ground arith)
    loop_end biometric to l k =
        let n = none_skipped (step_index to - 6) video_call _ refl k in inl (ground arith)
    loop_end video_call to l k =
        let n = none_skipped (step_index to - 7) credentials _ refl k in inl (ground arith)
    loop_end credentials to l k =
        let n = none_skipped (step_index to - 8) review _ refl k in inl (ground arith)
    loop_end review to l k =
        let n = none_skipped (step_index to - 9) completed _ refl k in inl (ground arith)
    loop_end completed to l k = let n = step_index_le to in let bad : ⊥ = ground arith in absurd bad

-- A step of a transition, with what it marks as done.
pub complete-IsProgress :
    (here to : Step) (c : StepsCompleted)
    → (step_index to ≡ step_index here + 1) ⊎ ((step_index here ≡ 0) × (step_index to ≡ 2))
    → IsProgress here c
    → IsProgress to (complete to c)
unfolding complete
complete-IsProgress here tnc c e p = record {
  past_tnc = λ l. let bad : ⊥ = omega arith in absurd bad;
  past_ocr = λ l. let bad : ⊥ = omega arith in absurd bad;
  past_personal = λ l. let bad : ⊥ = omega arith in absurd bad;
  past_otp = λ l. let bad : ⊥ = omega arith in absurd bad;
  past_biometric = λ l. let bad : ⊥ = omega arith in absurd bad;
  past_video = λ l. let bad : ⊥ = omega arith in absurd bad;
  past_credentials = λ l. let bad : ⊥ = omega arith in absurd bad;
  past_review = λ l. let bad : ⊥ = omega arith in absurd bad;
}
complete-IsProgress here card_selection c e p = record {
  past_tnc = λ l. let bad : ⊥ = omega arith in absurd bad;
  past_ocr = λ l. let bad : ⊥ = omega arith in absurd bad;
  past_personal = λ l. let bad : ⊥ = omega arith in absurd bad;
  past_otp = λ l. let bad : ⊥ = omega arith in absurd bad;
  past_biometric = λ l. let bad : ⊥ = omega arith in absurd bad;
  past_video = λ l. let bad : ⊥ = omega arith in absurd bad;
  past_credentials = λ l. let bad : ⊥ = omega arith in absurd bad;
  past_review = λ l. let bad : ⊥ = omega arith in absurd bad;
}
complete-IsProgress here ocr c e p = record {
  past_tnc = λ l. refl;
  past_ocr = λ l. let bad : ⊥ = omega arith in absurd bad;
  past_personal = λ l. let bad : ⊥ = omega arith in absurd bad;
  past_otp = λ l. let bad : ⊥ = omega arith in absurd bad;
  past_biometric = λ l. let bad : ⊥ = omega arith in absurd bad;
  past_video = λ l. let bad : ⊥ = omega arith in absurd bad;
  past_credentials = λ l. let bad : ⊥ = omega arith in absurd bad;
  past_review = λ l. let bad : ⊥ = omega arith in absurd bad;
}
complete-IsProgress here personal_data c e p = record {
  past_tnc = λ l. p.past_tnc (ground arith);
  past_ocr = λ l. refl;
  past_personal = λ l. let bad : ⊥ = omega arith in absurd bad;
  past_otp = λ l. let bad : ⊥ = omega arith in absurd bad;
  past_biometric = λ l. let bad : ⊥ = omega arith in absurd bad;
  past_video = λ l. let bad : ⊥ = omega arith in absurd bad;
  past_credentials = λ l. let bad : ⊥ = omega arith in absurd bad;
  past_review = λ l. let bad : ⊥ = omega arith in absurd bad;
}
complete-IsProgress here otp_verify c e p = record {
  past_tnc = λ l. p.past_tnc (ground arith);
  past_ocr = λ l. p.past_ocr (ground arith);
  past_personal = λ l. refl;
  past_otp = λ l. let bad : ⊥ = omega arith in absurd bad;
  past_biometric = λ l. let bad : ⊥ = omega arith in absurd bad;
  past_video = λ l. let bad : ⊥ = omega arith in absurd bad;
  past_credentials = λ l. let bad : ⊥ = omega arith in absurd bad;
  past_review = λ l. let bad : ⊥ = omega arith in absurd bad;
}
complete-IsProgress here biometric c e p = record {
  past_tnc = λ l. p.past_tnc (ground arith);
  past_ocr = λ l. p.past_ocr (ground arith);
  past_personal = λ l. p.past_personal (ground arith);
  past_otp = λ l. refl;
  past_biometric = λ l. let bad : ⊥ = omega arith in absurd bad;
  past_video = λ l. let bad : ⊥ = omega arith in absurd bad;
  past_credentials = λ l. let bad : ⊥ = omega arith in absurd bad;
  past_review = λ l. let bad : ⊥ = omega arith in absurd bad;
}
complete-IsProgress here video_call c e p = record {
  past_tnc = λ l. p.past_tnc (ground arith);
  past_ocr = λ l. p.past_ocr (ground arith);
  past_personal = λ l. p.past_personal (ground arith);
  past_otp = λ l. p.past_otp (ground arith);
  past_biometric = λ l. refl;
  past_video = λ l. let bad : ⊥ = omega arith in absurd bad;
  past_credentials = λ l. let bad : ⊥ = omega arith in absurd bad;
  past_review = λ l. let bad : ⊥ = omega arith in absurd bad;
}
complete-IsProgress here credentials c e p = record {
  past_tnc = λ l. p.past_tnc (ground arith);
  past_ocr = λ l. p.past_ocr (ground arith);
  past_personal = λ l. p.past_personal (ground arith);
  past_otp = λ l. p.past_otp (ground arith);
  past_biometric = λ l. p.past_biometric (ground arith);
  past_video = λ l. refl;
  past_credentials = λ l. let bad : ⊥ = omega arith in absurd bad;
  past_review = λ l. let bad : ⊥ = omega arith in absurd bad;
}
complete-IsProgress here review c e p = record {
  past_tnc = λ l. p.past_tnc (ground arith);
  past_ocr = λ l. p.past_ocr (ground arith);
  past_personal = λ l. p.past_personal (ground arith);
  past_otp = λ l. p.past_otp (ground arith);
  past_biometric = λ l. p.past_biometric (ground arith);
  past_video = λ l. p.past_video (ground arith);
  past_credentials = λ l. refl;
  past_review = λ l. let bad : ⊥ = omega arith in absurd bad;
}
complete-IsProgress here completed c e p = record {
  past_tnc = λ l. p.past_tnc (ground arith);
  past_ocr = λ l. p.past_ocr (ground arith);
  past_personal = λ l. p.past_personal (ground arith);
  past_otp = λ l. p.past_otp (ground arith);
  past_biometric = λ l. p.past_biometric (ground arith);
  past_video = λ l. p.past_video (ground arith);
  past_credentials = λ l. p.past_credentials (ground arith);
  past_review = λ l. refl;
}
