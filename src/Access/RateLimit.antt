-- ===== src/Access/RateLimit.antt =====
-- internal/repository/redis/ratelimit.go and auth_ratelimit.go. A time is a number of nanoseconds; the
-- clock of the server and that of Redis are one, and a call is a pipeline that works.
use bca_mobile_api.Common.{
  ℕ, ◌+◌, ◌-◌, ◌*◌, ◌/◌, ◌%◌, ◌&&◌, ◌||◌, Bool, false, Option, none, some, List, [], ◌∷◌, ◌==◌, ltb,
  length, if◌then◌else◌,
}

-- The keys of the three limits: a device, a client address and a user.
pub data Key : Type 0 where
  login_device login_ip pin_verify : ℕ → Key

abbrev pub key_eq : Key → Key → Bool
key_eq (login_device a) (login_device b) = a == b
key_eq (login_ip a) (login_ip b) = a == b
key_eq (pin_verify a) (pin_verify b) = a == b
key_eq _ _ = false

abbrev pub second : ℕ
second = 1000000000

abbrev pub limit_of : Key → ℕ
limit_of (login_device d) = 5
limit_of (login_ip a) = 20
limit_of (pin_verify u) = 5

abbrev pub window_of : Key → ℕ
window_of (login_device d) = 15 * 60 * second
window_of (login_ip a) = 15 * 60 * second
window_of (pin_verify u) = 15 * 60 * second

-- The sorted set of a key: the scores of its attempts, and when Redis drops it.
pub record Bucket : Type 0 where
  pub key : Key
  pub scores : List ℕ
  pub expires_at : ℕ

pub record RateLimitResult : Type 0 where
  pub allowed : Bool
  pub current : ℕ
  pub limit : ℕ
  pub remaining : ℕ
  pub retry_at : Option ℕ

-- The set of a key, which is empty once Redis dropped it.
unfoldable pub scores_at : ℕ → Key → List Bucket → List ℕ
scores_at now k [] = []
scores_at now k (b ∷ bs) =
    let later = scores_at now k bs in
    if key_eq b.key k then (if ltb now b.expires_at then b.scores else []) else later

unfoldable pub delete_bucket : Key → List Bucket → List Bucket
delete_bucket k [] = []
delete_bucket k (b ∷ bs) =
    let later = delete_bucket k bs in if key_eq b.key k then later else b ∷ later

-- A float64 of a UnixNano, of 53 bits: for times from 2^60 to 2^61, which are the years 2006 to 2043, the
-- nearest multiple of 256, and the even one of two.
unfoldable pub score_of : ℕ → ℕ
score_of n =
    let low = n / 256 * 256 in
    if ltb (n % 256) 128 then low else if n % 256 == 128 && n / 256 % 2 == 0 then low else low + 256

-- Redis compares a score with the score of `now - window`; a time before 1970 is below every score.
unfoldable pub is_inside : ℕ → ℕ → ℕ → Bool
unfolding score_of
is_inside now window s = ltb now window || ltb (score_of (now - window)) s

-- ZREMRANGEBYSCORE up to `now - window`.
unfoldable pub prune : ℕ → ℕ → List ℕ → List ℕ
unfolding is_inside
prune now window [] = []
prune now window (s ∷ ss) =
    let later = prune now window ss in if is_inside now window s then s ∷ later else later

unfoldable pub allow : ℕ → Key → ℕ → ℕ → List Bucket → RateLimitResult × List Bucket
unfolding scores_at delete_bucket prune score_of
allow now k limit window store =
    let kept = prune now window (scores_at now k store) in
    let passes = ltb (length kept) limit in
    let result : RateLimitResult = record {
      allowed = passes;
      current = length kept + 1;
      limit = limit;
      remaining = limit - length kept - 1;
      retry_at = if passes then none else some (now + window);
    } in
    let bucket : Bucket = record {
      key = k;
      scores = score_of now ∷ kept;
      expires_at = now + window + second;
    } in
    (result, bucket ∷ delete_bucket k store)

-- CheckLoginDevice, CheckLoginIP and CheckPINVerify.
unfoldable pub check_rate : ℕ → Key → List Bucket → RateLimitResult × List Bucket
unfolding allow
check_rate now k store = allow now k (limit_of k) (window_of k) store

unfoldable pub reset_rate : Key → List Bucket → List Bucket
unfolding delete_bucket
reset_rate k store = delete_bucket k store
