-- ===== src/Transfer/Ledger/Retry.antt =====
-- internal/repository/postgres/transfer_executor.go, ExecuteTransfer: which attempt decides.
use bca_mobile_api.Common.{
  ℕ, zero, suc, ◌+◌, ◌<◌, ◌≤◌, Bool, true, false, ◌≡◌, refl, Result, ok, err, Error, arith, ◌∙◌,
  wrapped, failed, ◌⊎◌, inl, inr,
}
use bca_mobile_api.Transfer.Data.{ExecuteParams, Transaction}
use bca_mobile_api.Transfer.Db.{Db}
use bca_mobile_api.Transfer.Executor.Resolve.{Attempt}
use bca_mobile_api.Transfer.Executor.{
  try_execute, is_serialization_failure, backoff_serialization, execute_from, execute_transfer,
}
use bca_mobile_api.Transfer.Ledger.Outcome.{execute_from_ok, execute_from_retry, execute_from_stop}

-- Attempt `m` lost against a concurrent transaction, and the wait after it was not cut off.
pub record IsRetried (envs : ℕ → Attempt) (waits : ℕ → Bool) (p : ExecuteParams) (db : Db) (m : ℕ)
    : Type 0 where
  pub error : Error
  pub fails : try_execute (envs m) p db ≡ err error
  pub serialization : is_serialization_failure error ≡ true
  pub waited : waits m ≡ true

-- What the caller is given if attempt `m` is the last one.
abbrev pub decided : Result (Transaction × Db) → Db → Result Transaction × Db
decided (ok (t, db')) db = (ok t, db')
decided (err e) db = (err e, db)

backs_off :
    (waits : ℕ → Bool) (m : ℕ) → m < 2 → waits m ≡ true → backoff_serialization waits m ≡ true
unfolding backoff_serialization
backs_off waits m h w = ground arith

gives_up : (waits : ℕ → Bool) → backoff_serialization waits 2 ≡ false
unfolding backoff_serialization
gives_up waits = refl

retried_step :
    (envs : ℕ → Attempt) (waits : ℕ → Bool) (p : ExecuteParams) (left m : ℕ) (last : Error)
    (db : Db)
    → m < 2
    → (r : IsRetried envs waits p db m)
    → execute_from envs waits p (suc left) m last db
      ≡ execute_from envs waits p left (m + 1) r.error db
retried_step envs waits p left m last db h r =
    execute_from_retry envs waits p left m last db r.error r.fails
      (let s = r.serialization in let b = backs_off waits m h r.waited in ground arith)

-- Attempt `m` is final: it succeeds, it is the third, or its error is no serialization failure.
abbrev pub IsFinal : Result (Transaction × Db) → ℕ → Type 0
IsFinal (ok x) m = Unit
IsFinal (err e) m = (is_serialization_failure e ≡ false) ⊎ (m ≡ 2)

final_step :
    (envs : ℕ → Attempt) (waits : ℕ → Bool) (p : ExecuteParams) (left m : ℕ) (last : Error)
    (db : Db) (r : Result (Transaction × Db))
    → try_execute (envs m) p db ≡ r
    → IsFinal r m
    → execute_from envs waits p (suc left) m last db ≡ decided r db
final_step envs waits p left m last db (ok (t, db')) h f =
    execute_from_ok envs waits p left m last db h
final_step envs waits p left m last db (err e) h (inl s) =
    execute_from_stop envs waits p left m last db e h (rw s refl)
final_step envs waits p left m last db (err e) h (inr s) =
    execute_from_stop envs waits p left m last db e h
      (let g : backoff_serialization waits m ≡ false = rw s (gives_up waits) in ground arith)

-- For an attempt n that is the third at most: if every attempt before it ended in a serialization
-- failure and was waited for, and attempt n succeeds, or is the third, or fails for another reason,
-- then the caller is given what attempt n gives on the tables as they were at first.
pub execute_transfer-decided :
    (envs : ℕ → Attempt) (waits : ℕ → Bool) (p : ExecuteParams) (db : Db) (n : ℕ)
    → n ≤ 2
    → ((m : ℕ) → m < n → IsRetried envs waits p db m)
    → IsFinal (try_execute (envs n) p db) n
    → execute_transfer envs waits p db ≡ decided (try_execute (envs n) p db) db
unfolding execute_transfer
execute_transfer-decided envs waits p db zero l r f =
    final_step envs waits p 2 0 (wrapped "" failed) db _ refl f
execute_transfer-decided envs waits p db (suc zero) l r f =
    let r₀ = r 0 (omega arith) in
    retried_step envs waits p 2 0 (wrapped "" failed) db (omega arith) r₀
    ∙ final_step envs waits p 1 1 r₀.error db _ refl f
execute_transfer-decided envs waits p db (suc (suc zero)) l r f =
    let r₀ = r 0 (omega arith) in
    let r₁ = r 1 (omega arith) in
    retried_step envs waits p 2 0 (wrapped "" failed) db (omega arith) r₀
    ∙ retried_step envs waits p 1 1 r₀.error db (omega arith) r₁
    ∙ final_step envs waits p 0 2 r₁.error db _ refl f
execute_transfer-decided envs waits p db (suc (suc (suc n))) l r f =
    let bad : ⊥ = omega arith in absurd bad
