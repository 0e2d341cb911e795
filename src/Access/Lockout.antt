-- ===== src/Access/Lockout.antt =====
-- internal/repository/redis/lockout.go, nonce.go and internal/repository/postgres/user_repo.go: failed
-- attempts, locks and nonces.
use bca_mobile_api.Common.{
  ℕ, ◌+◌, ◌-◌, ◌*◌, ◌/◌, ◌&&◌, Bool, not, Option, none, some, List, [], ◌∷◌, ◌==◌, leb, ltb,
  if◌then◌else◌,
}
use bca_mobile_api.Access.RateLimit.{second}
use bca_mobile_api.Access.Store.{Marker, exists_marker, set_marker}
use bca_mobile_api.Access.Step.{User, Device, LockCount, AuthWorld}

abbrev pub lockout_duration : ℕ
lockout_duration = 30 * 60 * second

abbrev pub lockout_escalated : ℕ
lockout_escalated = 24 * 60 * 60 * second

abbrev pub lockout_escalate_after : ℕ
lockout_escalate_after = 3

abbrev pub nonce_ttl : ℕ
nonce_ttl = 120 * second

-- GetLockoutCount
unfoldable pub lockout_count : ℕ → ℕ → List LockCount → ℕ
lockout_count now user [] = 0
lockout_count now user (c ∷ cs) =
    let later = lockout_count now user cs in
    if c.user == user then (if ltb now c.expires_at then c.count else 0) else later

unfoldable pub delete_count : ℕ → List LockCount → List LockCount
delete_count user [] = []
delete_count user (c ∷ cs) =
    let later = delete_count user cs in if c.user == user then later else c ∷ later

abbrev pub duration_of : ℕ → ℕ
duration_of count = if leb lockout_escalate_after count then lockout_escalated else lockout_duration

abbrev pub millisecond : ℕ
millisecond = 1000000

-- The answer of Redis to TTL: seconds, rounded from milliseconds. An answer below zero is a 0.
unfoldable pub ttl_of : ℕ → ℕ → List Marker → ℕ
ttl_of now name [] = 0
ttl_of now name (m ∷ ms) =
    let later = ttl_of now name ms in
    if m.name == name then (m.expires_at / millisecond - now / millisecond + 500) / 1000 else later

-- IsLocked: a lock of which Redis reports no second is none.
unfoldable pub is_locked : ℕ → ℕ → AuthWorld → Bool
unfolding ttl_of
is_locked now user w = ltb 0 (ttl_of now user w.locks)

-- LockAccount: INCR and EXPIRE of the counter, then SET of the lock.
unfoldable pub count_lockout : ℕ → ℕ → ℕ → AuthWorld → AuthWorld
unfolding delete_count
count_lockout now user count w = record w {
  lock_counts =
      record { user = user; count = count; expires_at = now + lockout_escalated }
      ∷ delete_count user w.lock_counts;
}

unfoldable pub set_lock : ℕ → ℕ → ℕ → AuthWorld → AuthWorld
unfolding set_marker
set_lock now user count w = record w { locks = set_marker now user (duration_of count) w.locks }

-- CheckAndMark: SETNX of the nonce.
unfoldable pub is_fresh : ℕ → ℕ → AuthWorld → Bool
unfolding exists_marker
is_fresh now nonce w = not (exists_marker now nonce w.nonces)

unfoldable pub mark_nonce : ℕ → ℕ → AuthWorld → AuthWorld
unfolding is_fresh set_marker
mark_nonce now nonce w =
    if is_fresh now nonce w
    then record w { nonces = set_marker now nonce nonce_ttl w.nonces }
    else w

unfoldable pub find_device : ℕ → List Device → Option Device
find_device id [] = none
find_device id (d ∷ ds) =
    let later = find_device id ds in if d.device_id == id && not d.revoked then some d else later

unfoldable pub find_user : ℕ → List User → Option User
find_user id [] = none
find_user id (u ∷ us) = let later = find_user id us in if u.id == id then some u else later

unfoldable pub user_of : Option Device → List User → Option User
unfolding find_user
user_of none us = none
user_of (some d) us = find_user d.user_id us

-- FindByDeviceID
unfoldable pub find_by_device_id : ℕ → AuthWorld → Option User
unfolding find_device user_of
find_by_device_id id w = user_of (find_device id w.devices) w.users

unfoldable pub change_user : (User → User) → ℕ → List User → List User
change_user f id [] = []
change_user f id (u ∷ us) = (if u.id == id then f u else u) ∷ change_user f id us

abbrev pub increment : User → User
increment u = record u { failed_pin_attempts = u.failed_pin_attempts + 1 }

abbrev pub reset_attempts : User → User
reset_attempts u = record u { failed_pin_attempts = 0 }

abbrev pub lock_until : ℕ → User → User
lock_until t u = record u { locked_until = some t }
