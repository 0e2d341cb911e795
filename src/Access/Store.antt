-- ===== src/Access/Store.antt =====
-- internal/repository/postgres/session_repo.go, internal/repository/redis/session_cache.go and
-- token_revocation.go: the sessions of a user in PostgreSQL and their markers in Redis. A uuid and a hash
-- are numbers, a time is a number of nanoseconds.
use bca_mobile_api.Common.{
  ◌*◌, ℕ, ◌+◌, Bool, false, not, ◌&&◌, ◌||◌, Option, none, some, List, [], ◌∷◌, ◌==◌, ltb, contains,
  if◌then◌else◌, is_some,
}
use bca_mobile_api.Access.RateLimit.{second}

pub record Session : Type 0 where
  pub id : ℕ
  pub user_id : ℕ
  pub device_id : ℕ
  pub refresh_token_hash : ℕ
  pub expires_at : ℕ
  pub revoked_at : Option ℕ

-- A key of Redis named by a number, with the time when it is dropped: `session:active:{id}`,
-- `session:inactive:{id}` and `refresh:revoked:{hash}`.
pub record Marker : Type 0 where
  pub name : ℕ
  pub expires_at : ℕ

-- `sessions:active:user:{id}`: the marked sessions of a user.
pub record UserSet : Type 0 where
  pub user : ℕ
  pub members : List ℕ
  pub expires_at : ℕ

pub record World : Type 0 where
  pub sessions : List Session
  pub active : List Marker
  pub inactive : List Marker
  pub revoked : List Marker
  pub sets : List UserSet

abbrev pub is_open : Session → Bool
is_open s = not (is_some s.revoked_at)

unfoldable pub find_by_hash : ℕ → List Session → Option Session
find_by_hash h [] = none
find_by_hash h (s ∷ ss) =
    let later = find_by_hash h ss in
    if s.refresh_token_hash == h && is_open s then some s else later

unfoldable pub find_active : ℕ → ℕ → List Session → Option Session
find_active now id [] = none
find_active now id (s ∷ ss) =
    let later = find_active now id ss in
    if s.id == id && (is_open s && ltb now s.expires_at) then some s else later

abbrev pub with_hash : ℕ → ℕ → ℕ → Session → Session
with_hash id hash until s =
    if s.id == id && is_open s
    then record s { refresh_token_hash = hash; expires_at = until }
    else s

-- UpdateRefreshToken; `any_open` is `RowsAffected() > 0`.
unfoldable pub update_refresh_token : ℕ → ℕ → ℕ → List Session → List Session
update_refresh_token id hash until [] = []
update_refresh_token id hash until (s ∷ ss) =
    with_hash id hash until s ∷ update_refresh_token id hash until ss

unfoldable pub any_open : ℕ → List Session → Bool
any_open id [] = false
any_open id (s ∷ ss) = s.id == id && is_open s || any_open id ss

abbrev pub close : ℕ → Session → Session
close now s = if is_open s then record s { revoked_at = some now } else s

unfoldable pub revoke_by_id : ℕ → ℕ → List Session → List Session
revoke_by_id now id [] = []
revoke_by_id now id (s ∷ ss) = (if s.id == id then close now s else s) ∷ revoke_by_id now id ss

unfoldable pub revoke_by_user_id : ℕ → ℕ → List Session → List Session
revoke_by_user_id now user [] = []
revoke_by_user_id now user (s ∷ ss) =
    (if s.user_id == user then close now s else s) ∷ revoke_by_user_id now user ss

-- EXISTS
unfoldable pub exists_marker : ℕ → ℕ → List Marker → Bool
exists_marker now name [] = false
exists_marker now name (m ∷ ms) =
    m.name == name && ltb now m.expires_at || exists_marker now name ms

-- DEL of every key named.
unfoldable pub delete_markers : List ℕ → List Marker → List Marker
delete_markers names [] = []
delete_markers names (m ∷ ms) =
    let later = delete_markers names ms in if contains m.name names then later else m ∷ later

-- SET with a TTL.
unfoldable pub set_marker : ℕ → ℕ → ℕ → List Marker → List Marker
unfolding delete_markers
set_marker now name ttl ms =
    record { name = name; expires_at = now + ttl } ∷ delete_markers (name ∷ []) ms

-- SMEMBERS
unfoldable pub members_at : ℕ → ℕ → List UserSet → List ℕ
members_at now user [] = []
members_at now user (u ∷ us) =
    let later = members_at now user us in
    if u.user == user then (if ltb now u.expires_at then u.members else []) else later

unfoldable pub delete_set : ℕ → List UserSet → List UserSet
delete_set user [] = []
delete_set user (u ∷ us) =
    let later = delete_set user us in if u.user == user then later else u ∷ later

abbrev pub without : ℕ → List ℕ → List ℕ
without a [] = []
without a (x ∷ xs) = let later = without a xs in if x == a then later else x ∷ later

-- SREM
unfoldable pub remove_member : ℕ → ℕ → List UserSet → List UserSet
remove_member user id [] = []
remove_member user id (u ∷ us) =
    let later = remove_member user id us in
    if u.user == user then record u { members = without id u.members } ∷ later else u ∷ later

unfoldable pub mark_active : ℕ → ℕ → ℕ → ℕ → World → World
unfolding set_marker members_at delete_set
mark_active now user id ttl w = record w {
  active = set_marker now id ttl w.active;
  sets =
      record { user = user; members = id ∷ members_at now user w.sets; expires_at = now + ttl }
      ∷ delete_set user w.sets;
}

unfoldable pub revoke_active : ℕ → ℕ → World → World
unfolding delete_markers remove_member
revoke_active user id w = record w {
  active = delete_markers (id ∷ []) w.active;
  sets = remove_member user id w.sets;
}

unfoldable pub revoke_all_active : ℕ → ℕ → World → World
unfolding delete_markers members_at delete_set
revoke_all_active now user w = record w {
  active = delete_markers (members_at now user w.sets) w.active;
  sets = delete_set user w.sets;
}

unfoldable pub mark_inactive : ℕ → ℕ → World → World
unfolding set_marker
mark_inactive now id w = record w { inactive = set_marker now id (60 * second) w.inactive }

-- MarkRevoked; a TTL that is not positive is no call.
unfoldable pub mark_revoked : ℕ → ℕ → ℕ → World → World
unfolding set_marker
mark_revoked now hash ttl w =
    if ltb 0 ttl then record w { revoked = set_marker now hash ttl w.revoked } else w
