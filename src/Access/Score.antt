-- ===== src/Access/Score.antt =====
-- internal/repository/redis/ratelimit.go: the order of scores.
use bca_mobile_api.Common.{
  ℕ, ◌+◌, ◌-◌, ◌≤◌, ◌<◌, ◌≡◌, refl, true, false, ltb, arith, Bool-cases, inl, inr,
}
use bca_mobile_api.Access.RateLimit.{score_of, is_inside}

score_of-monotone : (m n : ℕ) → m ≤ n → score_of m ≤ score_of n
unfolding score_of
score_of-monotone m n h = ground arith

score_of-apart : (m n : ℕ) → m + 256 < n → score_of m < score_of n
unfolding score_of
score_of-apart m n h = ground arith

-- What is outside the window stays outside.
pub is_inside-later :
    (early now window s : ℕ)
    → early ≤ now
    → is_inside early window s ≡ false
    → is_inside now window s ≡ false
unfolding is_inside
is_inside-later early now window s l h =
    let up = score_of-monotone (early - window) (now - window) (omega arith) in ground arith

pub is_inside_old :
    (t now window : ℕ) → t + window ≤ now → is_inside now window (score_of t) ≡ false
unfolding is_inside
is_inside_old t now window l =
    let up = score_of-monotone t (now - window) (omega arith) in ground arith

pub is_inside_new :
    (t now window : ℕ) → now + 256 < t + window → is_inside now window (score_of t) ≡ true
unfolding is_inside
is_inside_new t now window l = elim (Bool-cases (ltb now window)) [
  | inl e ↦ rw e refl
  | inr e ↦
      let up = score_of-apart (now - window) t (ground arith) in
      let f : ltb (score_of (now - window)) (score_of t) ≡ true = ground arith in rw (e, f) refl
]
