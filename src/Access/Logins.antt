-- ===== src/Access/Logins.antt =====
-- Runs of a login, of its replay and of a lock.
use bca_mobile_api.Common.{ℕ, ◌*◌, ◌≡◌, ◌≢◌, refl, true, false, none, some, [], ◌∷◌, ok, arith}
use bca_mobile_api.Access.RateLimit.{
  second, check_rate, allow, prune, scores_at, delete_bucket, reset_rate,
}
use bca_mobile_api.Access.Store.{
  World, exists_marker, set_marker, delete_markers, delete_set, members_at, mark_active,
}
use bca_mobile_api.Access.Sessions.{TokenPair}
use bca_mobile_api.Access.Step.{User, AuthWorld}
use bca_mobile_api.Access.Lockout.{
  is_locked, ttl_of, count_lockout, set_lock, lockout_count, delete_count, is_fresh, mark_nonce,
  find_device, find_user, user_of, find_by_device_id, change_user,
}
use bca_mobile_api.Access.Login.{
  Payload, LoginEnv, LoginRequest, check_attempts, open_payload, lock_user_account,
  handle_failed_pin, handle_successful_login, login_user, login_by_pin, verify_pin,
}
use bca_mobile_api.Access.Replay.{IsAuthorised, login_by_pin-IsAuthorised, login_by_pin-replay}
use bca_mobile_api.Access.Locked.{handle_failed_pin-login_by_pin}

abbrev payload : Payload
payload = record { pin = "123456"; nonce = 7; ts = 1000 }

abbrev pair : TokenPair
pair = record { access_token = "a"; refresh_token = "r" }

abbrev env : LoginEnv
env = record {
  accepts_key_id = λ k. true;
  decrypt = λ text. some payload;
  verify_password = λ pin hash. some true;
  generate = λ now user session device. some pair;
  hash = λ raw. 5;
  refresh_ttl = 604800 * second;
  failure = λ c. none;
}

abbrev request : LoginRequest
request = record { device_id = 3; pin_encrypted = "x"; encryption_key_id = "k" }

-- Four wrong PINs were given before.
abbrev user : User
user = record {
  id = 1;
  access_code_hash = "c";
  pin_hash = "p";
  locked_until = none;
  failed_pin_attempts = 4;
  max_pin_attempts = 5;
}

abbrev empty_store : World
empty_store = record { sessions = []; active = []; inactive = []; revoked = []; sets = [] }

abbrev world : AuthWorld
world = record {
  users = user ∷ [];
  devices = record { id = 30; user_id = 1; device_id = 3; revoked = false } ∷ [];
  buckets = [];
  locks = [];
  lock_counts = [];
  nonces = [];
  store = empty_store;
}

abbrev now : ℕ
now = 1010 * second

abbrev after_login : AuthWorld
after_login = (login_by_pin env now 20 9 request world).1

login_run : login_by_pin env now 20 9 request world ≡ (ok pair, after_login)
unfolding login_by_pin check_attempts check_rate allow prune scores_at delete_bucket
    find_by_device_id user_of find_device find_user login_user is_locked ttl_of exists_marker
    open_payload is_fresh mark_nonce set_marker delete_markers handle_successful_login change_user
    mark_active members_at delete_set reset_rate
login_run = refl

login_by_pin-IsAuthorised_example :
    (u : User) × (p : Payload) × IsAuthorised env now request world u p
login_by_pin-IsAuthorised_example = login_by_pin-IsAuthorised env now 20 9 request world login_run

login_by_pin-replay_example :
    (login_by_pin env (1020 * second) 21 8 request after_login ≢ (ok pair, after_login))
    × (verify_pin env (1020 * second) 1 3 "x" after_login ≢ (ok tt, after_login))
login_by_pin-replay_example =
    login_by_pin-replay env env now (1020 * second) 20 21 9 8 1 3 request request world after_login
      after_login pair pair refl (omega arith) (omega arith) login_run

fifth_row : find_user 1 world.users ≡ some user
unfolding find_user
fifth_row = refl

abbrev locked_user : User
locked_user = record user { failed_pin_attempts = 5; locked_until = some (2810 * second) }

locked_out :
    find_by_device_id 3 (handle_failed_pin {R = TokenPair} env now user world).1 ≡ some locked_user
unfolding handle_failed_pin find_by_device_id user_of find_device find_user change_user
    lock_user_account count_lockout set_lock lockout_count delete_count set_marker delete_markers
locked_out = refl

handle_failed_pin-login_by_pin_example :
    login_by_pin env
      (1020 * second)
      21
      8
      request
      (handle_failed_pin {R = TokenPair} env now user world).1
    ≢ (ok pair, world)
handle_failed_pin-login_by_pin_example =
    handle_failed_pin-login_by_pin env env now (1020 * second) 21 8 user user locked_user request
      world world pair refl refl refl fifth_row (omega arith) locked_out refl (omega arith)
