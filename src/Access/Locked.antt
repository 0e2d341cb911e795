-- ===== src/Access/Locked.antt =====
-- internal/domain/auth/service.go, handleFailedPIN: the lock after too many wrong PINs.
use bca_mobile_api.Common.{
  ℕ, suc, ◌+◌, ◌-◌, ◌*◌, ◌/◌, ltb, Option, ◌≤◌, ◌<◌, ◌≡◌, ◌≢◌, refl, sym, ap, ◌∙◌, String, true,
  false, none, some, List, [], ◌∷◌, ◌==◌, leb, arith, Bool-cases, Option-cases, inl, inr, ok, Error,
  account_locked,
}
use bca_mobile_api.Access.Store.{Marker, set_marker}
use bca_mobile_api.Access.Sessions.{TokenPair}
use bca_mobile_api.Access.Step.{User, AuthWorld}
use bca_mobile_api.Common.State.{bind, fail}
use bca_mobile_api.Access.Lockout.{
  ttl_of, is_locked, millisecond, count_lockout, set_lock, find_by_device_id, find_user,
  change_user, increment, lockout_count, lockout_duration, duration_of,
}
use bca_mobile_api.Access.Login.{
  Call, increment_call, count_call, lock_call, set_locked, lock_user_account, lock_row, LoginEnv,
  LoginRequest, call, best_effort, handle_failed_pin, login_by_pin,
}
use bca_mobile_api.Access.RateLimit.{second}
use bca_mobile_api.Access.Replay.{login_by_pin-IsAuthorised}

find_user-change_user :
    (f : User → User) (id : ℕ) (us : List User) {u : User}
    → ((x : User) → (f x).id ≡ x.id)
    → find_user id us ≡ some u
    → find_user id (change_user f id us) ≡ some (f u)
unfolding find_user change_user
find_user-change_user f id [] k h = cc
find_user-change_user f id (x ∷ xs) {u} k h = elim (Bool-cases (x.id == id)) [
  | inl e ↦
      let same : some x ≡ some u = rw e at h in
      let kept : ((f x).id == id) ≡ true = rw (k x) e in rw e (rw kept (ap_some f same))
  | inr e ↦ rw e (rw e (find_user-change_user f id xs k (rw e at h)))
]
  where
    ap_some : (g : User → User) {a b : User} → some a ≡ some b → some (g a) ≡ some (g b)
    ap_some g h = cc

-- A lock is for half an hour at least, and for whole seconds.
duration_of-seconds : (count : ℕ) → (d : ℕ) × (duration_of count ≡ d * second) × (1800 ≤ d)
duration_of-seconds count = elim (Bool-cases (leb 3 count)) [
  | inl e ↦ (86400, rw e refl, omega arith)
  | inr e ↦ (1800, rw e refl, omega arith)
]

-- Half a second before its end a lock is still seen.
set_marker-ttl_of :
    (now later name d : ℕ) (ms : List Marker)
    → later + 500 * millisecond ≤ now + d * second
    → ltb 0 (ttl_of later name (set_marker now name (d * second) ms)) ≡ true
unfolding ttl_of set_marker
set_marker-ttl_of now later name d ms l =
    let same : (name == name) ≡ true = ground arith in
    let shown : 0 < ((now + d * second) / millisecond - later / millisecond + 500) / 1000 =
      omega arith in
    let seen : ltb 0 (((now + d * second) / millisecond - later / millisecond + 500) / 1000)
        ≡ true =
      ground arith in
    rw same seen

call_passes :
    (env : LoginEnv) (c : Call) (prefix : String) (w : AuthWorld)
    → env.failure c ≡ none
    → call env c prefix w ≡ (ok tt, w)
call_passes env c prefix w a = rw (a, call) refl

lock_row-locks :
    (env : LoginEnv) (id : ℕ) (o : Option ℕ) (e : Error) (w : AuthWorld)
    → (bind (lock_row env id o w) (λ _. fail {R = TokenPair} e)).1.locks ≡ w.locks
lock_row-locks env id none e w = refl
lock_row-locks env id (some t) e w = elim (Option-cases (env.failure set_locked)) [
  | inl a ↦ rw (a, best_effort) refl
  | inr (x, a) ↦ rw (a, best_effort) refl
]

lock_user_account-locks :
    (env : LoginEnv) (now id : ℕ) (w : AuthWorld)
    → env.failure count_call ≡ none
    → env.failure lock_call ≡ none
    → (until count : ℕ) × (v : AuthWorld) × (lock_user_account env now id w ≡ (ok (some until), v))
      × (v.locks ≡ set_marker now id (duration_of count) w.locks)
unfolding lock_user_account set_lock count_lockout
lock_user_account-locks env now id w a b =
    let n = suc (lockout_count now id w.lock_counts) in
    (
      now + duration_of n,
      n,
      set_lock now id n (count_lockout now id n w),
      rw (a, b, lock_user_account) refl,
      refl,
    )

-- After a wrong PIN that uses up the attempts the user's lock is set.
handle_failed_pin-locks :
    (env : LoginEnv) (now : ℕ) (u row : User) (w : AuthWorld)
    → env.failure increment_call ≡ none
    → env.failure count_call ≡ none
    → env.failure lock_call ≡ none
    → find_user u.id w.users ≡ some row
    → u.max_pin_attempts ≤ row.failed_pin_attempts + 1
    → (count : ℕ) × ((handle_failed_pin {R = TokenPair} env now u w).1.locks
        ≡ set_marker now u.id (duration_of count) w.locks)
unfolding handle_failed_pin
handle_failed_pin-locks env now u row w a c b f l =
    let counted = find_user-change_user increment u.id w.users (λ x. refl) f in
    let enough : leb u.max_pin_attempts (row.failed_pin_attempts + 1) ≡ true = ground arith in
    let w₁ : AuthWorld = record w { users = change_user increment u.id w.users } in
    let (until, n, v, made, locks) = lock_user_account-locks env now u.id w₁ c b in
    (
      n,
      rw (call_passes env increment_call "increment failed attempts: " w a, handle_failed_pin)
          (rw counted
            (rw enough (rw made (lock_row-locks env u.id (some until) account_locked v ∙ locks)))),
    )

-- A wrong PIN that uses up the attempts of a user keeps every login of that user out for half an hour
-- less half a second at least, from whatever device of the user, with whatever PIN, and whatever else
-- fails then; the conditions are that the attempt is counted, and that Redis counts the lock and sets it.
pub handle_failed_pin-login_by_pin :
    (env later_env : LoginEnv) (now later session_id ip : ℕ) (u row found : User) (q : LoginRequest)
    (w v : AuthWorld) (pair : TokenPair)
    → env.failure increment_call ≡ none
    → env.failure count_call ≡ none
    → env.failure lock_call ≡ none
    → find_user u.id w.users ≡ some row
    → u.max_pin_attempts ≤ row.failed_pin_attempts + 1
    → find_by_device_id q.device_id (handle_failed_pin {R = TokenPair} env now u w).1 ≡ some found
    → found.id ≡ u.id
    → later + 500 * millisecond ≤ now + lockout_duration
    → login_by_pin later_env later session_id ip q (handle_failed_pin {R = TokenPair} env now u w).1
      ≢ (ok pair, v)
unfolding is_locked
handle_failed_pin-login_by_pin env later_env now later session_id ip u row found q w v pair a c b f
      l found_by same soon h =
    let (x, p, k) = login_by_pin-IsAuthorised later_env later session_id ip q _ h in
    let (count, locks) = handle_failed_pin-locks env now u row w a c b f l in
    let whom : x.id ≡ u.id = ap (λ y. y.id) (some_user (sym k.recognised ∙ found_by)) ∙ same in
    let (d, span, least) = duration_of-seconds count in
    let shape : (handle_failed_pin {R = TokenPair} env now u w).1.locks
        ≡ set_marker now u.id (d * second) w.locks =
      locks ∙ ap (λ t. set_marker now u.id t w.locks) span in
    let live = set_marker-ttl_of now later u.id d w.locks (omega arith) in
    let bad : true ≡ false =
      sym live
      ∙ ap (λ ms. ltb 0 (ttl_of later u.id ms)) (sym shape)
      ∙ ap (λ i. ltb 0 (ttl_of later i (handle_failed_pin {R = TokenPair} env now u w).1.locks))
          (sym whom)
      ∙ k.unlocked in
    cc
  where
    some_user : {y z : User} → some y ≡ some z → y ≡ z
    some_user h = cc
