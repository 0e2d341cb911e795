-- ===== src/Access/History.antt =====
-- internal/repository/redis/ratelimit.go: what the limiter stores after a history of attempts.
use bca_mobile_api.Common.{
  ℕ, suc, ◌+◌, ◌≤◌, ◌≡◌, refl, sym, ap, ◌∙◌, Bool, true, false, List, [], ◌∷◌, ltb, length,
  if◌then◌else◌, arith, Bool-cases, inl, inr,
}
use bca_mobile_api.Access.RateLimit.{
  Key, login_device, login_ip, pin_verify, key_eq, second, window_of, Bucket, scores_at,
  delete_bucket, score_of, is_inside, prune, allow, check_rate, reset_rate,
}
use bca_mobile_api.Access.Score.{is_inside-later, is_inside_old}

-- What happens to the limiter, at its time.
pub data Event : Type 0 where
  attempt : Key → ℕ → Event
  cleared : Key → Event

-- The store after a history, the newest event first.
unfoldable pub store_after : List Event → List Bucket
unfolding check_rate reset_rate
store_after [] = []
store_after (attempt k t ∷ h) = (check_rate t k (store_after h)).1
store_after (cleared k ∷ h) = reset_rate k (store_after h)

-- No attempt of the history is later than the time, and the attempts stand in the order of their times.
abbrev pub IsTimed : ℕ → List Event → Type 0
IsTimed now [] = Unit
IsTimed now (attempt k t ∷ h) = (t ≤ now) × IsTimed t h
IsTimed now (cleared k ∷ h) = IsTimed now h

-- The reference: the number of attempts of a key in the window before a time, since the key was cleared,
-- as far as scores tell the times apart.
unfoldable pub recent : Key → ℕ → List Event → ℕ
unfolding is_inside score_of
recent k now [] = 0
recent k now (attempt j t ∷ h) =
    let earlier = recent k now h in
    if key_eq j k
    then (if is_inside now (window_of k) (score_of t) then suc earlier else earlier)
    else earlier
recent k now (cleared j ∷ h) = let earlier = recent k now h in if key_eq j k then 0 else earlier

key_eq_refl : (k : Key) → key_eq k k ≡ true
key_eq_refl (login_device a) = ground arith
key_eq_refl (login_ip a) = ground arith
key_eq_refl (pin_verify a) = ground arith

pub key_eq_sound : (j k : Key) → key_eq j k ≡ true → j ≡ k
key_eq_sound (login_device a) (login_device b) h =
    let e : a ≡ b = ground arith in ap (λ x. login_device x) e
key_eq_sound (login_ip a) (login_ip b) h = let e : a ≡ b = ground arith in ap (λ x. login_ip x) e
key_eq_sound (pin_verify a) (pin_verify b) h =
    let e : a ≡ b = ground arith in ap (λ x. pin_verify x) e
key_eq_sound (login_device a) (login_ip b) h = cc
key_eq_sound (login_device a) (pin_verify b) h = cc
key_eq_sound (login_ip a) (login_device b) h = cc
key_eq_sound (login_ip a) (pin_verify b) h = cc
key_eq_sound (pin_verify a) (login_device b) h = cc
key_eq_sound (pin_verify a) (login_ip b) h = cc

scores_at-delete_bucket :
    (now : ℕ) (k : Key) (bs : List Bucket) → scores_at now k (delete_bucket k bs) ≡ []
unfolding scores_at delete_bucket
scores_at-delete_bucket now k [] = refl
scores_at-delete_bucket now k (b ∷ bs) = elim (Bool-cases (key_eq b.key k)) [
  | inl e ↦ rw e (scores_at-delete_bucket now k bs)
  | inr e ↦ rw e (rw e (scores_at-delete_bucket now k bs))
]

scores_at-delete_bucket_other :
    (now : ℕ) (j k : Key) (bs : List Bucket)
    → key_eq j k ≡ false
    → scores_at now k (delete_bucket j bs) ≡ scores_at now k bs
unfolding scores_at delete_bucket
scores_at-delete_bucket_other now j k [] h = refl
scores_at-delete_bucket_other now j k (b ∷ bs) h =
    let later = scores_at-delete_bucket_other now j k bs h in
    elim (Bool-cases (key_eq b.key j)) [
      | inl e ↦
          let same : b.key ≡ j = key_eq_sound b.key j e in
          let other : key_eq b.key k ≡ false = rw same h in rw e (rw other later)
      | inr e ↦ rw e (
          ap (λ r. if key_eq b.key k then (if ltb now b.expires_at then b.scores else []) else r)
            later)
    ]

-- Pruning twice is pruning once at the later time.
prune-prune :
    (early now window : ℕ) (ss : List ℕ)
    → early ≤ now
    → prune now window (prune early window ss) ≡ prune now window ss
unfolding prune
prune-prune early now window [] h = refl
prune-prune early now window (s ∷ ss) h =
    let later = prune-prune early now window ss h in
    elim (Bool-cases (is_inside early window s)) [
      | inl e ↦ rw e (ap (λ r. if is_inside now window s then s ∷ r else r) later)
      | inr e ↦ let old = is_inside-later early now window s h e in rw e (rw old later)
    ]

-- The scores of a key's attempts since it was cleared.
unfoldable pub times : Key → List Event → List ℕ
unfolding score_of
times k [] = []
times k (attempt j t ∷ h) =
    let earlier = times k h in if key_eq j k then score_of t ∷ earlier else earlier
times k (cleared j ∷ h) = let earlier = times k h in if key_eq j k then [] else earlier

pub length-prune-times :
    (k : Key) (now : ℕ) (h : List Event)
    → length (prune now (window_of k) (times k h)) ≡ recent k now h
unfolding times prune recent
length-prune-times k now [] = refl
length-prune-times k now (attempt j t ∷ h) =
    let earlier = length-prune-times k now h in
    elim (Bool-cases (key_eq j k)) [
      | inl e ↦ elim (Bool-cases (is_inside now (window_of k) (score_of t))) [
        | inl f ↦ rw e (rw f (ap (λ n. suc n) earlier))
        | inr f ↦ rw e (rw f earlier)
      ]
      | inr e ↦ rw e earlier
    ]
length-prune-times k now (cleared j ∷ h) =
    let earlier = length-prune-times k now h in
    elim (Bool-cases (key_eq j k)) [ inl e ↦ rw e refl | inr e ↦ rw e earlier ]

-- A set that Redis dropped held nothing of the window.
prune-times_old :
    (k : Key) (t now window : ℕ) (h : List Event)
    → IsTimed t h
    → t + window ≤ now
    → prune now window (times k h) ≡ []
unfolding times prune
prune-times_old k t now window [] h l = refl
prune-times_old k t now window (attempt j s ∷ es) (u, h) l =
    let earlier = prune-times_old k s now window es h (omega arith) in
    let old = is_inside_old s now window (omega arith) in
    elim (Bool-cases (key_eq j k)) [ inl e ↦ rw e (rw old earlier) | inr e ↦ rw e earlier ]
prune-times_old k t now window (cleared j ∷ es) h l =
    let earlier = prune-times_old k t now window es h l in
    elim (Bool-cases (key_eq j k)) [ inl e ↦ rw e refl | inr e ↦ rw e earlier ]

scores_at-set :
    (now s : ℕ) (k : Key) (store : List Bucket)
    → scores_at now k (check_rate s k store).1 ≡ (
        if ltb now (s + window_of k + second)
        then score_of s ∷ prune s (window_of k) (scores_at s k store)
        else [])
unfolding scores_at check_rate allow
scores_at-set now s k store = let same = key_eq_refl k in rw same refl

scores_at-set_other :
    (now s : ℕ) (j k : Key) (store : List Bucket)
    → key_eq j k ≡ false
    → scores_at now k (check_rate s j store).1 ≡ scores_at now k store
unfolding scores_at check_rate allow
scores_at-set_other now s j k store h = rw h (scores_at-delete_bucket_other now j k store h)

prune_cons :
    (now s window : ℕ) (xs ys : List ℕ)
    → prune now window xs ≡ prune now window ys
    → prune now window (s ∷ xs) ≡ prune now window (s ∷ ys)
unfolding prune
prune_cons now s window xs ys h = ap (λ r. if is_inside now window s then s ∷ r else r) h

set-times :
    (k : Key) (s now : ℕ) (es : List Event) (store : List Bucket) (live : Bool)
    → ltb now (s + window_of k + second) ≡ live
    → IsTimed s es
    → s ≤ now
    → prune s (window_of k) (scores_at s k store) ≡ prune s (window_of k) (times k es)
    → prune now
        (window_of k)
        (if live then score_of s ∷ prune s (window_of k) (scores_at s k store) else [])
      ≡ prune now (window_of k) (score_of s ∷ times k es)
unfolding prune
set-times k s now es store true f h l before =
    prune_cons now (score_of s) (window_of k) _ _
      (ap (λ r. prune now (window_of k) r) before ∙ prune-prune s now (window_of k) (times k es) l)
set-times k s now es store false f h l before =
    let past : s + window_of k + second ≤ now = ground arith in
    let far : s + window_of k ≤ now = omega arith in
    let old = is_inside_old s now (window_of k) far in
    rw old (sym (prune-times_old k s now (window_of k) es h far))

scores_at-empty : (now : ℕ) (k : Key) → scores_at now k [] ≡ []
unfolding scores_at
scores_at-empty now k = refl

times_attempt :
    (j k : Key) (s : ℕ) (h : List Event) {b : Bool}
    → key_eq j k ≡ b
    → times k (attempt j s ∷ h) ≡ (if b then score_of s ∷ times k h else times k h)
unfolding times
times_attempt j k s h e = rw e refl

times_cleared :
    (j k : Key) (h : List Event) {b : Bool}
    → key_eq j k ≡ b
    → times k (cleared j ∷ h) ≡ (if b then [] else times k h)
unfolding times
times_cleared j k h e = rw e refl

times_empty : (k : Key) → times k [] ≡ []
unfolding times
times_empty k = refl

store_after_attempt :
    (j : Key) (s : ℕ) (h : List Event)
    → store_after (attempt j s ∷ h) ≡ (check_rate s j (store_after h)).1
unfolding store_after
store_after_attempt j s h = refl

store_after_cleared :
    (j : Key) (h : List Event) → store_after (cleared j ∷ h) ≡ delete_bucket j (store_after h)
unfolding store_after reset_rate
store_after_cleared j h = refl

store_after_empty : store_after [] ≡ []
unfolding store_after
store_after_empty = refl

-- What the limiter counts is what the history holds.
pub store_after-times :
    (k : Key) (t now : ℕ) (h : List Event)
    → IsTimed t h
    → t ≤ now
    → prune now (window_of k) (scores_at now k (store_after h))
      ≡ prune now (window_of k) (times k h)
store_after-times k t now [] h l =
    rw store_after_empty (rw (scores_at-empty now k) (rw (times_empty k) refl))
store_after-times k t now (attempt j s ∷ es) (u, h) l =
    let before = store_after-times k s s es h (omega arith) in
    elim (Bool-cases (key_eq j k)) [
      | inl e ↦ rw (times_attempt j k s es e) (
          rw (store_after_attempt j s es) (
            rw (key_eq_sound j k e) (
              rw (scores_at-set now s k (store_after es))
                (set-times k s now es (store_after es) _ refl h (omega arith) before))))
      | inr e ↦ rw (times_attempt j k s es e) (
          rw (store_after_attempt j s es) (
            rw (scores_at-set_other now s j k (store_after es) e)
              (store_after-times k s now es h (omega arith))))
    ]
store_after-times k t now (cleared j ∷ es) h l =
    let before = store_after-times k t now es h l in
    elim (Bool-cases (key_eq j k)) [
      | inl e ↦ rw (times_cleared j k es e) (
          rw (store_after_cleared j es)
            (rw (key_eq_sound j k e) (rw (scores_at-delete_bucket now k (store_after es)) refl)))
      | inr e ↦ rw (times_cleared j k es e) (
          rw (store_after_cleared j es)
            (rw (scores_at-delete_bucket_other now j k (store_after es) e) before))
    ]
