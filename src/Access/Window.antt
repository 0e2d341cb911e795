-- ===== src/Access/Window.antt =====
-- internal/repository/redis/ratelimit.go: the limiter against a sliding window over the whole history of
-- attempts.
use bca_mobile_api.Common.{
  ℕ, suc, ◌+◌, ◌≤◌, ◌≡◌, refl, sym, ap, ◌∙◌, Bool, true, false, List, [], ◌∷◌, ltb, length,
  if◌then◌else◌, arith, Bool-cases, inl, inr,
}
use bca_mobile_api.Access.RateLimit.{
  Key, key_eq, limit_of, window_of, score_of, is_inside, allow, check_rate,
}
use bca_mobile_api.Access.Score.{is_inside_old, is_inside_new}
use bca_mobile_api.Access.History.{
  Event, attempt, cleared, store_after, IsTimed, recent, length-prune-times, store_after-times,
}

-- The attempts of a key since it was cleared whose times are in the window, by more than some nanoseconds.
unfoldable pub exact : Key → ℕ → ℕ → List Event → ℕ
exact k slack now [] = 0
exact k slack now (attempt j t ∷ h) =
    let earlier = exact k slack now h in
    if key_eq j k
    then (if ltb (now + slack) (t + window_of k) then suc earlier else earlier)
    else earlier
exact k slack now (cleared j ∷ h) =
    let earlier = exact k slack now h in if key_eq j k then 0 else earlier

-- Scores tell times apart that differ by more than 256 nanoseconds.
recent-exact :
    (k : Key) (now : ℕ) (h : List Event)
    → (exact k 256 now h ≤ recent k now h) × (recent k now h ≤ exact k 0 now h)
unfolding exact recent
recent-exact k now [] = (omega arith, omega arith)
recent-exact k now (attempt j t ∷ h) =
    let (low, high) = recent-exact k now h in
    elim (Bool-cases (key_eq j k)) [
      | inr e ↦ rw e (low, high)
      | inl e ↦ rw e (
          counted (ltb (now + 256) (t + window_of k)) (is_inside now (window_of k) (score_of t))
            (ltb (now + 0) (t + window_of k)) refl refl refl low high)
    ]
  where
    counted :
        (far inside near : Bool)
        → ltb (now + 256) (t + window_of k) ≡ far
        → is_inside now (window_of k) (score_of t) ≡ inside
        → ltb (now + 0) (t + window_of k) ≡ near
        → exact k 256 now h ≤ recent k now h
        → recent k now h ≤ exact k 0 now h
        → ((if far then suc (exact k 256 now h) else exact k 256 now h)
            ≤ (if inside then suc (recent k now h) else recent k now h))
          × ((if inside then suc (recent k now h) else recent k now h)
              ≤ (if near then suc (exact k 0 now h) else exact k 0 now h))
    counted true false near a b c low high =
        let new = is_inside_new t now (window_of k) (ground arith) in
        let bad : true ≡ false = sym new ∙ b in cc
    counted far true false a b c low high =
        let old = is_inside_old t now (window_of k) (ground arith) in
        let bad : true ≡ false = sym b ∙ old in cc
    counted true true true a b c low high = (omega arith, omega arith)
    counted false true true a b c low high = (omega arith, omega arith)
    counted false false true a b c low high = (omega arith, omega arith)
    counted false false false a b c low high = (omega arith, omega arith)
recent-exact k now (cleared j ∷ h) =
    let (low, high) = recent-exact k now h in
    elim (Bool-cases (key_eq j k)) [
      | inl e ↦ rw e (omega arith, omega arith)
      | inr e ↦ rw e (low, high)
    ]

-- The limiter is a sliding window over the whole history: whatever attempts and resets of whatever keys
-- came before, at times in order, an attempt is allowed if and only if fewer attempts of its key than the
-- limit, allowed or not, lie in the window since the key was last reset, as far as scores tell their
-- times apart; and `current` is their number with this attempt. That number is at most the number of
-- attempts whose times are in the window, and at least that of those in it by more than 256 nanoseconds.
pub check_rate-recent :
    (now : ℕ) (k : Key) (h : List Event)
    → IsTimed now h
    → ((check_rate now k (store_after h)).0.allowed ≡ ltb (recent k now h) (limit_of k))
      × ((check_rate now k (store_after h)).0.current ≡ recent k now h + 1)
      × (exact k 256 now h ≤ recent k now h)
      × (recent k now h ≤ exact k 0 now h)
unfolding check_rate allow
check_rate-recent now k h timed =
    let count =
      ap length (store_after-times k now now h timed (omega arith)) ∙ length-prune-times k now h in
    let (low, high) = recent-exact k now h in
    (ap (λ n. ltb n (limit_of k)) count, ap (λ n. n + 1) count, low, high)
