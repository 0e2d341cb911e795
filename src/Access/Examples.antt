-- ===== src/Access/Examples.antt =====
-- Runs of the limiter and of the session service.
use bca_mobile_api.Common.{
  ℕ, ◌+◌, ◌≤◌, ◌≡◌, ◌≢◌, refl, true, none, some, List, [], ◌∷◌, ltb, ok, err, token_invalid, arith,
  contains, ◌*◌, str_eq, if◌then◌else◌,
}
use bca_mobile_api.Access.RateLimit.{login_device, login_ip, second, check_rate}
use bca_mobile_api.Access.History.{Event, attempt, cleared, store_after, recent}
use bca_mobile_api.Access.Window.{exact, check_rate-recent}
use bca_mobile_api.Access.Admission.{admitted, check_rate-IsQuiet, admitted-limit_of}
use bca_mobile_api.Access.Store.{
  Session, World, members_at, find_by_hash, update_refresh_token, any_open, exists_marker,
  mark_active, mark_revoked, set_marker, delete_markers, delete_set,
}
use bca_mobile_api.Access.Sessions.{
  Claims, TokenPair, Env, refresh_token, refresh_claims, refresh_session, rotate, logout,
  logout_all, is_session_active,
}
use bca_mobile_api.Access.Revocation.{AllUserClosed}
use bca_mobile_api.Access.Rotation.{
  logout-is_session_active, logout_all-is_session_active, refresh_token-AllUserClosed,
}
use bca_mobile_api.Access.Once.{refresh_token-once}

-- Five attempts of a device in a second each, and one of an address.
abbrev five_attempts : List Event
five_attempts =
    attempt (login_device 7) (6 * second)
    ∷ attempt (login_device 7) (5 * second)
    ∷ attempt (login_ip 9) (4 * second)
    ∷ attempt (login_device 7) (3 * second)
    ∷ attempt (login_device 7) (2 * second)
    ∷ attempt (login_device 7) second
    ∷ cleared (login_device 7)
    ∷ []

check_rate-recent_example :
    ((check_rate (6 * second) (login_device 7) (store_after five_attempts)).0.allowed
      ≡ ltb (recent (login_device 7) (6 * second) five_attempts) 5)
    × ((check_rate (6 * second) (login_device 7) (store_after five_attempts)).0.current
        ≡ recent (login_device 7) (6 * second) five_attempts + 1)
    × (exact (login_device 7) 256 (6 * second) five_attempts
        ≤ recent (login_device 7) (6 * second) five_attempts)
    × (recent (login_device 7) (6 * second) five_attempts
        ≤ exact (login_device 7) 0 (6 * second) five_attempts)
check_rate-recent_example =
    check_rate-recent (6 * second) (login_device 7) five_attempts
      (omega arith, (omega arith, (omega arith, (omega arith, (omega arith, (omega arith, tt))))))

recent_five : recent (login_device 7) (6 * second) five_attempts ≡ 5
unfolding recent
recent_five = refl

check_rate-IsQuiet_example :
    (check_rate (1000 * second) (login_device 7) (store_after five_attempts)).0.allowed ≡ true
check_rate-IsQuiet_example =
    check_rate-IsQuiet (6 * second) (1000 * second) (login_device 7) five_attempts
      (omega arith, (omega arith, (omega arith, (omega arith, (omega arith, (omega arith, tt))))))
      (
        (λ e. omega arith),
        (
          (λ e. omega arith),
          (
            (λ e. omega arith),
            ((λ e. omega arith), ((λ e. omega arith), ((λ e. omega arith), tt))),
          ),
        ),
      )
      (omega arith)

admitted-limit_of_example : admitted (login_ip 9) (6 * second) five_attempts ≤ 20
admitted-limit_of_example =
    admitted-limit_of (login_ip 9) (6 * second) five_attempts
      (omega arith, (omega arith, (omega arith, (omega arith, (omega arith, (omega arith, tt))))))
      (refl, tt)

abbrev claims : Claims
claims = record { subject = 1; session_id = 10; device_id = "d" }

abbrev new_pair : TokenPair
new_pair = record { access_token = "a2"; refresh_token = "r2" }

abbrev sample_env : Env
sample_env = record {
  verify_refresh = λ now raw. some claims;
  generate = λ now c. some new_pair;
  hash = λ raw. if str_eq raw "r1" then 51 else 52;
  refresh_ttl = 604800;
  failure = λ c. none;
}

abbrev row : ℕ → ℕ → ℕ → Session
row id user hash = record {
  id = id;
  user_id = user;
  device_id = 3;
  refresh_token_hash = hash;
  expires_at = 900;
  revoked_at = none;
}

-- Two sessions of one user.
abbrev two_sessions : World
two_sessions = record {
  sessions = row 10 1 51 ∷ row 11 1 77 ∷ [];
  active = record { name = 10; expires_at = 900 } ∷ record { name = 11; expires_at = 900 } ∷ [];
  inactive = [];
  revoked = record { name = 51; expires_at = 500 } ∷ [];
  sets = record { user = 1; members = 10 ∷ 11 ∷ []; expires_at = 900 } ∷ [];
}

abbrev unrotated : World
unrotated = record two_sessions { revoked = [] }

abbrev rotated : World
rotated = record {
  sessions = record (row 10 1 52) { expires_at = 604900 } ∷ row 11 1 77 ∷ [];
  active = record { name = 10; expires_at = 604900 } ∷ record { name = 11; expires_at = 900 } ∷ [];
  inactive = [];
  revoked = record { name = 51; expires_at = 900 } ∷ [];
  sets = record { user = 1; members = 10 ∷ 10 ∷ 11 ∷ []; expires_at = 604900 } ∷ [];
}

refresh_run : refresh_token sample_env 100 "r1" unrotated ≡ (ok new_pair, rotated)
unfolding refresh_token refresh_claims refresh_session rotate find_by_hash exists_marker any_open
    update_refresh_token mark_active mark_revoked set_marker delete_markers delete_set members_at
refresh_run = refl

logout-is_session_active_example :
    ((is_session_active sample_env 200 10 (logout sample_env 100 10 1 two_sessions).1).0 ≢ ok true)
    × (refresh_token sample_env 200 "r1" (logout sample_env 100 10 1 two_sessions).1
        ≢ (ok new_pair, rotated))
logout-is_session_active_example =
    logout-is_session_active sample_env sample_env 100 200 10 1 "r1" claims two_sessions new_pair
      rotated refl refl refl refl

listed : contains 10 (members_at 100 1 two_sessions.sets) ≡ true
unfolding members_at
listed = refl

logout_all-is_session_active_example :
    ((is_session_active sample_env 200 10 (logout_all sample_env 100 1 two_sessions).1).0 ≢ ok true)
    × (refresh_token sample_env 200 "r1" (logout_all sample_env 100 1 two_sessions).1
        ≢ (ok new_pair, rotated))
logout_all-is_session_active_example =
    logout_all-is_session_active sample_env sample_env 100 200 10 1 "r1" claims two_sessions
      new_pair rotated refl refl ((λ e. refl), ((λ e. refl), tt)) listed refl refl

marked : exists_marker 100 51 two_sessions.revoked ≡ true
unfolding exists_marker
marked = refl

refresh_token-AllUserClosed_example :
    ((refresh_token sample_env 100 "r1" two_sessions).0 ≡ err token_invalid)
    × AllUserClosed 1 (refresh_token sample_env 100 "r1" two_sessions).1.sessions
refresh_token-AllUserClosed_example =
    refresh_token-AllUserClosed sample_env 100 "r1" claims two_sessions refl refl refl marked

refresh_token-once_example : refresh_token sample_env 200 "r1" rotated ≢ (ok new_pair, rotated)
refresh_token-once_example =
    refresh_token-once sample_env sample_env 100 200 "r1" unrotated rotated rotated new_pair
      new_pair (((λ e. ground arith), tt), (tt, tt)) (λ e. ground arith) refl refresh_run
