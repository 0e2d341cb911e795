-- ===== src/Access/Admission.antt =====
-- internal/repository/redis/ratelimit.go: how many attempts the limiter lets through, and when it does
-- again.
use bca_mobile_api.Common.{
  ℕ, suc, ◌+◌, ◌≤◌, ◌<◌, ◌≡◌, refl, sym, ◌∙◌, Bool, true, false, List, [], ◌∷◌, ltb, if◌then◌else◌,
  arith, Bool-cases, inl, inr,
}
use bca_mobile_api.Access.RateLimit.{
  Key, login_device, login_ip, pin_verify, key_eq, limit_of, window_of, score_of, is_inside,
  check_rate,
}
use bca_mobile_api.Access.Score.{is_inside_old, is_inside_new}
use bca_mobile_api.Access.History.{
  Event, attempt, cleared, store_after, IsTimed, recent, key_eq_sound,
}
use bca_mobile_api.Access.Window.{check_rate-recent}

-- No event of the history is an attempt of the key at or after the time.
abbrev pub IsQuiet : Key → ℕ → List Event → Type 0
IsQuiet k start [] = Unit
IsQuiet k start (attempt j t ∷ h) = (key_eq j k ≡ true → t ≤ start) × IsQuiet k start h
IsQuiet k start (cleared j ∷ h) = IsQuiet k start h

recent_quiet :
    (k : Key) (start now : ℕ) (h : List Event)
    → IsQuiet k start h
    → start + window_of k ≤ now
    → recent k now h ≡ 0
unfolding recent
recent_quiet k start now [] q l = refl
recent_quiet k start now (attempt j t ∷ h) (q, rest) l =
    let earlier = recent_quiet k start now h rest l in
    elim (Bool-cases (key_eq j k)) [
      | inl e ↦
          let before : t ≤ start = q e in
          let old = is_inside_old t now (window_of k) (omega arith) in rw e (rw old earlier)
      | inr e ↦ rw e earlier
    ]
recent_quiet k start now (cleared j ∷ h) q l =
    let earlier = recent_quiet k start now h q l in
    elim (Bool-cases (key_eq j k)) [ inl e ↦ rw e refl | inr e ↦ rw e earlier ]

limit_of-positive : (k : Key) → 0 < limit_of k
limit_of-positive (login_device d) = omega arith
limit_of-positive (login_ip a) = omega arith
limit_of-positive (pin_verify u) = omega arith

-- Nobody is kept out for good: after a window without an attempt of the key, the next one is allowed,
-- whatever was refused before.
pub check_rate-IsQuiet :
    (start now : ℕ) (k : Key) (h : List Event)
    → IsTimed now h
    → IsQuiet k start h
    → start + window_of k ≤ now
    → (check_rate now k (store_after h)).0.allowed ≡ true
check_rate-IsQuiet start now k h timed quiet l =
    let none_left = recent_quiet k start now h quiet l in
    let some_room = limit_of-positive k in
    (check_rate-recent now k h timed).0 ∙ rw none_left (ground arith)

-- The allowed attempts of a key in the window before a time, by more than 256 nanoseconds.
unfoldable pub admitted : Key → ℕ → List Event → ℕ
unfolding check_rate store_after
admitted k now [] = 0
admitted k now (attempt j t ∷ h) =
    let earlier = admitted k now h in
    if key_eq j k
    then if ltb (now + 256) (t + window_of k)
      then (if (check_rate t j (store_after h)).0.allowed then suc earlier else earlier)
      else earlier
    else earlier
admitted k now (cleared j ∷ h) = admitted k now h

-- The key is never reset.
abbrev pub IsKept : Key → List Event → Type 0
IsKept k [] = Unit
IsKept k (attempt j t ∷ h) = IsKept k h
IsKept k (cleared j ∷ h) = (key_eq j k ≡ false) × IsKept k h

admitted-recent :
    (k : Key) (t now : ℕ) (h : List Event) → t ≤ now → IsKept k h → admitted k now h ≤ recent k t h
unfolding admitted recent
admitted-recent k t now [] l kept = omega arith
admitted-recent k t now (attempt j s ∷ h) l kept =
    let earlier = admitted-recent k t now h l kept in
    elim (Bool-cases (key_eq j k)) [
      | inl e ↦ rw e (counted (ltb (now + 256) (s + window_of k)) refl earlier)
      | inr e ↦ rw e earlier
    ]
  where
    passed :
        (b : Bool)
        → admitted k now h ≤ recent k t h
        → (if b then suc (admitted k now h) else admitted k now h) ≤ suc (recent k t h)
    passed true m = omega arith
    passed false m = omega arith

    counted :
        (b : Bool)
        → ltb (now + 256) (s + window_of k) ≡ b
        → admitted k now h ≤ recent k t h
        → (if b
            then (if (check_rate s j (store_after h)).0.allowed
                then suc (admitted k now h)
                else admitted k now h)
            else admitted k now h)
          ≤ (if is_inside t (window_of k) (score_of s) then suc (recent k t h) else recent k t h)
    counted true f m =
        let inside = is_inside_new s t (window_of k) (ground arith) in rw inside (passed _ m)
    counted false f m = elim (Bool-cases (is_inside t (window_of k) (score_of s))) [
      | inl g ↦ rw g (omega arith)
      | inr g ↦ rw g m
    ]
admitted-recent k t now (cleared j ∷ h) l (e, kept) = rw e (admitted-recent k t now h l kept)

admitted_timed :
    (k : Key) (t now : ℕ) (h : List Event)
    → IsTimed t h
    → IsKept k h
    → t ≤ now
    → admitted k now h ≤ limit_of k
unfolding admitted
admitted_timed k t now [] timed kept l = let room = limit_of-positive k in omega arith
admitted_timed k t now (attempt j s ∷ h) (u, timed) kept l =
    let earlier = admitted_timed k s now h timed kept (omega arith) in
    elim (Bool-cases (key_eq j k)) [
      | inl e ↦ rw e (rw (key_eq_sound j k e) (counted (ltb (now + 256) (s + window_of k)) earlier))
      | inr e ↦ rw e earlier
    ]
  where
    passed :
        (b : Bool)
        → (check_rate s k (store_after h)).0.allowed ≡ b
        → admitted k now h ≤ limit_of k
        → (if b then suc (admitted k now h) else admitted k now h) ≤ limit_of k
    passed true f m =
        let few : ltb (recent k s h) (limit_of k) ≡ true =
          sym (check_rate-recent s k h timed).0 ∙ f in
        let all = admitted-recent k s now h (omega arith) kept in
        let less : recent k s h < limit_of k = ground arith in omega arith
    passed false f m = m

    counted :
        (b : Bool)
        → admitted k now h ≤ limit_of k
        → (if b
            then (if (check_rate s k (store_after h)).0.allowed
                then suc (admitted k now h)
                else admitted k now h)
            else admitted k now h)
          ≤ limit_of k
    counted true m = passed _ refl m
    counted false m = m
admitted_timed k t now (cleared j ∷ h) timed (e, kept) l = admitted_timed k t now h timed kept l

-- However the attempts fall, at most the limit of them (5, or 20 for an address) is allowed in any window
-- of 15 minutes less 256 nanoseconds, which scores do not tell apart, as long as the key is not reset.
pub admitted-limit_of :
    (k : Key) (now : ℕ) (h : List Event)
    → IsTimed now h
    → IsKept k h
    → admitted k now h ≤ limit_of k
admitted-limit_of k now h timed kept = admitted_timed k now now h timed kept (omega arith)
