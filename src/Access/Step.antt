-- ===== src/Access/Step.antt =====
-- internal/domain/auth/service.go, its state: the users and devices of PostgreSQL and what Redis keeps on
-- attempts, locks and nonces. An operation is a step that reads and changes the state and may fail.
use bca_mobile_api.Common.{ℕ, String, Bool, Option, List}
use bca_mobile_api.Common.State.{Action}
use bca_mobile_api.Access.RateLimit.{Bucket}
use bca_mobile_api.Access.Store.{Marker, World}

pub record User : Type 0 where
  pub id : ℕ
  pub access_code_hash : String
  pub pin_hash : String
  pub locked_until : Option ℕ
  pub failed_pin_attempts : ℕ
  pub max_pin_attempts : ℕ

pub record Device : Type 0 where
  pub id : ℕ
  pub user_id : ℕ
  pub device_id : ℕ
  pub revoked : Bool

-- `lock:count:{id}`
pub record LockCount : Type 0 where
  pub user : ℕ
  pub count : ℕ
  pub expires_at : ℕ

pub record AuthWorld : Type 0 where
  pub users : List User
  pub devices : List Device
  pub buckets : List Bucket
  pub locks : List Marker
  pub lock_counts : List LockCount
  pub nonces : List Marker
  pub store : World

abbrev pub AuthStep : Type 0 → Type 0
AuthStep R = Action AuthWorld R
