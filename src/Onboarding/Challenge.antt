-- ===== src/Onboarding/Challenge.antt =====
-- internal/domain/onboarding/liveness_challenge_service.go: what pickActions returns.
use Prim.Native.Nat.{min, max}
use bca_mobile_api.Common.{
  ℕ, suc, ◌-◌, ◌≤◌, ◌≡◌, refl, some, List, ◌∷◌, ◌==◌, length, take, length-take, arith,
}
use bca_mobile_api.Onboarding.Liveness.{
  LivenessAction, turn_left, turn_right, look_up, look_down, blink, head_actions, Rand, slice_to,
  head_count, pick_actions,
}
use bca_mobile_api.Onboarding.Shuffle.{IsUniform, count, count-take, secure_shuffle-IsShuffle}

abbrev place : LivenessAction → ℕ
place turn_left = 0
place turn_right = 1
place look_up = 2
place look_down = 3
place blink = 4

-- How often a challenge asks for an action.
abbrev pub times : LivenessAction → List LivenessAction → ℕ
times a actions = count (λ b. place b == place a) actions

pub record IsChallenge (wanted : ℕ) (actions : List LivenessAction) : Type 0 where
  pub size : length actions ≡ min 5 (max 2 wanted)
  pub blinks : times blink actions ≡ 1
  pub distinct : (a : LivenessAction) → times a actions ≤ 1

-- Blinking comes first, and some head actions follow.
times-head_actions : (a : LivenessAction) → times a (blink ∷ head_actions) ≡ 1
times-head_actions turn_left = refl
times-head_actions turn_right = refl
times-head_actions look_up = refl
times-head_actions look_down = refl
times-head_actions blink = refl

head_count-min : (wanted : ℕ) → suc (head_count wanted) ≡ min 5 (max 2 wanted)
head_count-min wanted = ground arith

slice_to-take :
    {A : Type 0} (xs : List A) (n : ℕ) → n ≤ length xs → slice_to xs n ≡ some (take n xs)
unfolding slice_to
slice_to-take xs n l = ground arith

head_count_le : (wanted : ℕ) → head_count wanted ≤ 4
head_count_le wanted = ground arith

-- If rand.Int does not fail, and returns numbers below its bounds, then pickActions returns a list and never
-- panics. The list has as many actions as are wanted, but two at least and five at most, with blinking
-- exactly once and no action twice.
pub pick_actions-IsChallenge :
    (rand : Rand) (wanted : ℕ)
    → IsUniform rand
    → (actions : List LivenessAction) × (pick_actions rand wanted ≡ some actions)
      × IsChallenge wanted actions
unfolding pick_actions
pick_actions-IsChallenge rand wanted u =
    let (pool, e, s) = secure_shuffle-IsShuffle rand 0 3 head_actions u (omega arith) in
    let long = s.long in
    let small = head_count_le wanted in
    let cut = slice_to-take pool (head_count wanted) (omega arith) in
    let start = blink ∷ take (head_count wanted) pool in
    let (actions, f, t) =
      secure_shuffle-IsShuffle rand 3 (length start - 1) start u (omega arith) in
    let at_most : (a : LivenessAction) → times a start ≤ 1 = λ a.
      let k = count-take (λ b. place b == place a) (head_count wanted) pool in
      let m = s.kept (λ b. place b == place a) in let n = times-head_actions a in omega arith in
    (
      actions,
      rw (e, cut) f,
      record {
        size =
            let l = s.long in
            let k = length-take (head_count wanted) pool in
            let m = head_count-min wanted in let n = t.long in omega arith;
        blinks =
            let k = at_most blink in let m = t.kept (λ b. place b == place blink) in omega arith;
        distinct =
            λ a. let k = at_most a in let m = t.kept (λ b. place b == place a) in omega arith;
      },
    )
