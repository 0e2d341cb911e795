-- ===== src/Transfer/Service/Failure.antt =====
-- internal/domain/transaction/service_execute.go: what a request that fails leaves behind.
use bca_mobile_api.Common.{
  ℕ, String, true, ◌≡◌, refl, ◌∙◌, none, List, [], ◌∷◌, arith, Error, Result, ok, err, Option-cases,
  Bool-cases, inl, inr,
}
use bca_mobile_api.Transfer.Data.{Inquiry, ExecuteParams, Transaction}
use bca_mobile_api.Transfer.Db.{Db}
use bca_mobile_api.Transfer.Executor.{execute_transfer}
use bca_mobile_api.Transfer.Ledger.Outcome.{execute_transfer-Outcome}
use bca_mobile_api.Transfer.Service.Request.{TransferRequest}
use bca_mobile_api.Transfer.Service.Flow.{
  processing, IdemEntry, World, Env, is_entry, find_entry, delete_entry, Pending, consume_token,
  consume_inquiry, with_inquiry, with_token, prepare, undo, settle, run_prepared, run_claimed,
  execute,
}

-- The database and the keys are those of `w`.
pub record IsKeptFrom (w w' : World) : Type 0 where
  pub same_db : w'.db ≡ w.db
  pub same_idem : w'.idem ≡ w.idem

consume_token-IsKeptFrom :
    (env : Env) (user : ℕ) (hash : String) (w : World)
    → IsKeptFrom w (consume_token env user hash w).1.world
unfolding consume_token
consume_token-IsKeptFrom env user hash w = record {
  same_db = ground arith;
  same_idem = ground arith;
}

consume_inquiry-IsKeptFrom :
    (env : Env) (user : ℕ) (key : String) (u : Pending)
    → IsKeptFrom u.world (consume_inquiry env user key u).1.world
unfolding consume_inquiry
consume_inquiry-IsKeptFrom env user key u = record {
  same_db = ground arith;
  same_idem = ground arith;
}

with_inquiry-world :
    (env : Env) (user : ℕ) (req : TransferRequest) (key : String) (x : Result Inquiry × Pending)
    → (with_inquiry env user req key x).1.world ≡ x.1.world
unfolding with_inquiry
with_inquiry-world env user req key (err e, v) = refl
with_inquiry-world env user req key (ok q, v) = refl

with_token-IsKeptFrom :
    (env : Env) (user : ℕ) (req : TransferRequest) (key : String) (x : Result (Unit {0}) × Pending)
    → IsKeptFrom x.1.world (with_token env user req key x).1.world
unfolding with_token
with_token-IsKeptFrom env user req key (err e, u) = record { same_db = refl; same_idem = refl }
with_token-IsKeptFrom env user req key (ok o, u) =
    rw (with_inquiry-world env user req key (consume_inquiry env user req.inquiry_id u))
      (consume_inquiry-IsKeptFrom env user req.inquiry_id u)

IsKeptFrom-trans : (u v w : World) → IsKeptFrom u v → IsKeptFrom v w → IsKeptFrom u w
IsKeptFrom-trans u v w h k = record {
  same_db = k.same_db ∙ h.same_db;
  same_idem = k.same_idem ∙ h.same_idem;
}

prepare-IsKeptFrom :
    (env : Env) (user : ℕ) (req : TransferRequest) (key : String) (w : World)
    → IsKeptFrom w (prepare env user req key w).1.world
unfolding prepare
prepare-IsKeptFrom env user req key w =
    let x = consume_token env user (env.hash req.verification_token) w in
    IsKeptFrom-trans w x.1.world _
      (consume_token-IsKeptFrom env user (env.hash req.verification_token) w)
      (with_token-IsKeptFrom env user req key x)

delete_entry-find_entry :
    (user : ℕ) (key : String) (es : List IdemEntry)
    → find_entry user key (delete_entry user key es) ≡ none
unfolding delete_entry find_entry
delete_entry-find_entry user key [] = refl
delete_entry-find_entry user key (e ∷ es) = elim (Bool-cases (is_entry user key e)) [
  | inl f ↦ rw f (delete_entry-find_entry user key es)
  | inr f ↦ rw f (rw f (delete_entry-find_entry user key es))
]

-- The tables are those of `w`, and the key is free if the cache let it go.
pub record IsUndone (env : Env) (user : ℕ) (key : String) (w w' : World) : Type 0 where
  pub same_db : w'.db ≡ w.db
  pub free : env.release_works ≡ true → find_entry user key w'.idem ≡ none

undo-IsUndone :
    (env : Env) (user : ℕ) (key : String) (u : Pending) (w : World)
    → u.world.db ≡ w.db
    → IsUndone env user key w (undo env user key u)
unfolding undo
undo-IsUndone env user key u w h = record {
  same_db = h;
  free = λ r. rw r (delete_entry-find_entry user key u.world.idem);
}

settle-IsUndone :
    (env : Env) (user : ℕ) (key : String) (p : ExecuteParams) (u : Pending) (w : World)
    (x : Result Transaction × Db) {e : Error} {w' : World}
    → u.world.db ≡ w.db
    → execute_transfer env.attempts env.waits p u.world.db ≡ x
    → settle env user key p u x ≡ (err e, w')
    → IsUndone env user key w w'
unfolding settle
settle-IsUndone env user key p u w (ok t, d) s c h = let bad : ⊥ = cc in absurd bad
settle-IsUndone env user key p u w (err e, d) {w' = w'} s c h =
    let same : d ≡ u.world.db = execute_transfer-Outcome env.attempts env.waits p u.world.db c in
    let v : Pending = record u { world = record u.world { db = d } } in
    let world : w' ≡ undo env user key v = cc in
    rw world (undo-IsUndone env user key v w (same ∙ s))

run_prepared-IsUndone :
    (env : Env) (user : ℕ) (key : String) (w : World) (x : Result ExecuteParams × Pending)
    {e : Error} {w' : World}
    → x.1.world.db ≡ w.db
    → run_prepared env user key x ≡ (err e, w')
    → IsUndone env user key w w'
unfolding run_prepared
run_prepared-IsUndone env user key w (err e, u) {w' = w'} s h =
    let world : w' ≡ undo env user key u = cc in rw world (undo-IsUndone env user key u w s)
run_prepared-IsUndone env user key w (ok p, u) s h = settle-IsUndone env user key p u w _ s refl h

-- A request that fails leaves the tables as they were. The condition is that its key was free
-- before; and then the key is free again if the cache can release it.
pub execute-IsUndone :
    (env : Env) (user : ℕ) (req : TransferRequest) (key : String) (w : World) {e : Error}
    {w' : World}
    → find_entry user key w.idem ≡ none
    → execute env user req key w ≡ (err e, w')
    → IsUndone env user key w w'
unfolding execute run_claimed
execute-IsUndone env user req key w {e} {w'} f h = elim (Option-cases env.claim_fault) [
  | inr (c, g) ↦
      let same : w' ≡ w = ground arith in rw same (record { same_db = refl; free = λ r. f })
  | inl g ↦
      let v : World = record w {
        idem = record { user = user; key = key; state = processing } ∷ w.idem;
      } in
      let h' : run_prepared env user key (prepare env user req key v) ≡ (err e, w') =
        ground arith in
      run_prepared-IsUndone env user key w (prepare env user req key v)
        ((prepare-IsKeptFrom env user req key v).same_db) h'
]
