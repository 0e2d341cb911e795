-- ===== src/Transfer/Service/Guards.antt =====
-- internal/domain/transaction/service_execute.go: what stands between a request and the money.
use bca_mobile_api.Common.{
  ℕ, ◌<◌, String, Bool, true, false, ltb, List, Bool-cases, ◌≡◌, refl, ◌∙◌, none, some, ◌∷◌, ◌==◌,
  str_eq, arith, Result, ok, err, Option-cases, inl, inr, ◌⊎◌,
}
use bca_mobile_api.Transfer.Data.{Inquiry, ExecuteParams, Transaction}
use bca_mobile_api.Transfer.Db.{Db}
use bca_mobile_api.Transfer.Executor.{execute_transfer}
use bca_mobile_api.Transfer.Service.Request.{TransferRequest, build_params}
use bca_mobile_api.Transfer.Service.Flow.{
  Response, processing, stored, Token, World, Env, find_entry, find_token, unexpired, live_token,
  delete_token, find_inquiry, delete_inquiry, Pending, consume_token, consume_inquiry, with_inquiry,
  with_token, prepare, run_prepared, persist, settle, run_claimed, execute,
}

-- What lets a request pass: a token of the user for transfers, and an inquiry of the user's own.
pub record IsAuthorised (env : Env) (user : ℕ) (req : TransferRequest) (key : String) (w : World)
    (p : ExecuteParams) : Type 0 where
  pub token : Token
  pub presented : find_token (env.hash req.verification_token) w.tokens ≡ some token
  pub in_time : env.token_now < token.expires_at
  pub token_owner : (token.user == user) ≡ true
  pub purpose : str_eq token.purpose "TRANSFER" ≡ true
  pub inquiry : Inquiry
  pub asked : find_inquiry env.id_text req.inquiry_id w.inquiries ≡ some inquiry
  pub inquiry_owner : (inquiry.user_id == user) ≡ true
  pub built : build_params env.request user req key inquiry w.db ≡ ok p

-- After the checks the token is spent, and so is the inquiry.
pub record IsSpent (env : Env) (req : TransferRequest) (w w' : World) : Type 0 where
  pub tokens : w'.tokens ≡ delete_token (env.hash req.verification_token) w.tokens
  pub inquiries : w'.inquiries ≡ delete_inquiry env.id_text req.inquiry_id w.inquiries
  pub same_db : w'.db ≡ w.db
  pub same_idem : w'.idem ≡ w.idem

live_token-some :
    (now : ℕ) (hash : String) (ts : List Token) {t : Token}
    → live_token now hash ts ≡ some t
    → (find_token hash ts ≡ some t) × (now < t.expires_at)
unfolding live_token
live_token-some now hash ts {t} h = elim (Option-cases (find_token hash ts)) [
  | inl e ↦ let bad : none ≡ some t = rw e at h in cc
  | inr (u, e) ↦ let (same, soon) = in_time u (rw e at h) in (rw same e, soon)
]
  where
    in_time : (u : Token) → unexpired now (some u) ≡ some t → (t ≡ u) × (now < t.expires_at)
    in_time u g = elim (Bool-cases (ltb now u.expires_at)) [
      | inl f ↦
          let same : t ≡ u = (let k : some u ≡ some t = rw f at g in cc) in
          (same, rw same (ground arith))
      | inr f ↦ let bad : none ≡ some t = rw f at g in cc
    ]

consume_token_ok :
    (env : Env) (user : ℕ) (hash : String) (w : World) {u : Pending}
    → consume_token env user hash w ≡ (ok tt, u)
    → (t : Token) × (find_token hash w.tokens ≡ some t)
      × (env.token_now < t.expires_at)
      × ((t.user == user) ≡ true)
      × (str_eq t.purpose "TRANSFER" ≡ true)
      × (u ≡ record {
        world = record w { tokens = delete_token hash w.tokens };
        token = some hash;
        inquiry = none;
      })
unfolding consume_token
consume_token_ok env user hash w {u} h = elim (Option-cases env.token_fault) [
  | inr (c, e) ↦ let bad : ⊥ = ground arith in absurd bad
  | inl e ↦ elim (Option-cases (live_token env.token_now hash w.tokens)) [
    | inl f ↦ let bad : ⊥ = ground arith in absurd bad
    | inr (t, f) ↦
        let (there, soon) = live_token-some env.token_now hash w.tokens f in
        (t, there, soon, ground arith, ground arith, ground arith)
  ]
]

consume_inquiry_ok :
    (env : Env) (user : ℕ) (key : String) (u : Pending) {q : Inquiry} {v : Pending}
    → consume_inquiry env user key u ≡ (ok q, v)
    → (find_inquiry env.id_text key u.world.inquiries ≡ some q)
      × ((q.user_id == user) ≡ true)
      × (v ≡ record u {
        world = record u.world { inquiries = delete_inquiry env.id_text key u.world.inquiries };
        inquiry = some q;
      })
unfolding consume_inquiry
consume_inquiry_ok env user key u {q} {v} h = elim (Option-cases env.inquiry_fault) [
  | inr (c, e) ↦ let bad : ⊥ = ground arith in absurd bad
  | inl e ↦ elim (Option-cases (find_inquiry env.id_text key u.world.inquiries)) [
    | inl f ↦ let bad : ⊥ = ground arith in absurd bad
    | inr (t, f) ↦ (ground arith, ground arith, ground arith)
  ]
]

persist-db :
    (env : Env) (user : ℕ) (key : String) (r : Response) (w : World)
    → (persist env user key r w).db ≡ w.db
unfolding persist
persist-db env user key r w = ground arith

with_inquiry_ok :
    (env : Env) (user : ℕ) (req : TransferRequest) (key : String) (x : Result Inquiry × Pending)
    {p : ExecuteParams} {v : Pending}
    → with_inquiry env user req key x ≡ (ok p, v)
    → (q : Inquiry) × (x ≡ (ok q, v)) × (build_params env.request user req key q v.world.db ≡ ok p)
unfolding with_inquiry
with_inquiry_ok env user req key (err e, y) h = let bad : ⊥ = cc in absurd bad
with_inquiry_ok env user req key (ok q, y) {p} {v} h =
    let same : y ≡ v = cc in
    let built : build_params env.request user req key q y.world.db ≡ ok p = cc in
    (q, rw same refl, rw same at built)

with_token_ok :
    (env : Env) (user : ℕ) (req : TransferRequest) (key : String) (x : Result (Unit {0}) × Pending)
    {p : ExecuteParams} {v : Pending}
    → with_token env user req key x ≡ (ok p, v)
    → (u : Pending) × (x ≡ (ok tt, u))
      × (with_inquiry env user req key (consume_inquiry env user req.inquiry_id u) ≡ (ok p, v))
unfolding with_token
with_token_ok env user req key (err e, u) h = let bad : ⊥ = cc in absurd bad
with_token_ok env user req key (ok o, u) h = (u, refl, h)

-- Steps 2 to 5 pass only for an authorised request, and spend its token and its inquiry.
prepare_ok :
    (env : Env) (user : ℕ) (req : TransferRequest) (key : String) (w : World) {p : ExecuteParams}
    {v : Pending}
    → prepare env user req key w ≡ (ok p, v)
    → IsAuthorised env user req key w p × IsSpent env req w v.world
unfolding prepare
prepare_ok env user req key w {p} {v} h =
    let hash = env.hash req.verification_token in
    let (u, e, h₁) = with_token_ok env user req key (consume_token env user hash w) h in
    let (t, found, soon, owner, purpose, shape) = consume_token_ok env user hash w e in
    let (q, f, built) =
      with_inquiry_ok env user req key (consume_inquiry env user req.inquiry_id u) h₁ in
    let (asked, mine, left) = consume_inquiry_ok env user req.inquiry_id u f in
    let world : v.world ≡ record w {
      tokens = delete_token hash w.tokens;
      inquiries = delete_inquiry env.id_text req.inquiry_id w.inquiries;
    } =
      rw left (rw shape refl) in
    (
      record {
        token = t;
        presented = found;
        in_time = soon;
        token_owner = owner;
        purpose = purpose;
        inquiry = q;
        asked = rw shape at asked;
        inquiry_owner = mine;
        built = rw world at built;
      },
      rw world (record { tokens = refl; inquiries = refl; same_db = refl; same_idem = refl }),
    )

-- How a request ends that is not a replay.
pub record IsPaid (env : Env) (user : ℕ) (req : TransferRequest) (key : String) (w : World)
    (r : Response) (w' : World) : Type 0 where
  pub authorised : IsAuthorised env user req key w r.params
  pub paid : execute_transfer env.attempts env.waits r.params w.db ≡ (ok r.transaction, w'.db)
  pub tokens : w'.tokens ≡ delete_token (env.hash req.verification_token) w.tokens
  pub inquiries : w'.inquiries ≡ delete_inquiry env.id_text req.inquiry_id w.inquiries

persist-caches :
    (env : Env) (user : ℕ) (key : String) (r : Response) (w : World)
    → ((persist env user key r w).tokens ≡ w.tokens)
      × ((persist env user key r w).inquiries ≡ w.inquiries)
unfolding persist
persist-caches env user key r w = (ground arith, ground arith)

settle_ok :
    (env : Env) (user : ℕ) (key : String) (p : ExecuteParams) (u : Pending)
    (x : Result Transaction × Db) {r : Response} {b : Bool} {w' : World}
    → settle env user key p u x ≡ (ok (r, b), w')
    → (x ≡ (ok r.transaction, w'.db))
      × (r.params ≡ p)
      × (b ≡ false)
      × (w'.tokens ≡ u.world.tokens)
      × (w'.inquiries ≡ u.world.inquiries)
unfolding settle
settle_ok env user key p u (err e, d) h = let bad : ⊥ = cc in absurd bad
settle_ok env user key p u (ok t, d) {r} {b} {w'} h =
    let made : r ≡ record { transaction = t; params = p } = cc in
    let flag : b ≡ false = cc in
    let r' : Response = record { transaction = t; params = p } in
    let v : World = record u.world { db = d } in
    let world : w' ≡ persist env user key r' v = cc in
    let (same_tokens, same_inquiries) = persist-caches env user key r' v in
    (
      rw made (rw world (rw (persist-db env user key r' v) refl)),
      rw made refl,
      flag,
      rw world same_tokens,
      rw world same_inquiries,
    )

run_prepared_ok :
    (env : Env) (user : ℕ) (key : String) (x : Result ExecuteParams × Pending) {r : Response}
    {b : Bool} {w' : World}
    → run_prepared env user key x ≡ (ok (r, b), w')
    → (p : ExecuteParams) × (u : Pending) × (x ≡ (ok p, u))
      × (settle env user key p u (execute_transfer env.attempts env.waits p u.world.db)
          ≡ (ok (r, b), w'))
unfolding run_prepared
run_prepared_ok env user key (err e, u) h = let bad : ⊥ = cc in absurd bad
run_prepared_ok env user key (ok p, u) h = (p, u, refl, h)

abbrev claimed : ℕ → String → World → World
claimed user key w = record w {
  idem = record { user = user; key = key; state = processing } ∷ w.idem;
}

run_claimed_ok :
    (env : Env) (user : ℕ) (req : TransferRequest) (key : String) (w : World) {r : Response}
    {b : Bool} {w' : World}
    → run_claimed env user req key (claimed user key w) ≡ (ok (r, b), w')
    → (b ≡ false) × IsPaid env user req key w r w'
unfolding run_claimed
run_claimed_ok env user req key w {r} {b} {w'} h =
    let (p, u, e, h₁) =
      run_prepared_ok env user key (prepare env user req key (claimed user key w)) h in
    let (a, s) = prepare_ok env user req key (claimed user key w) e in
    let (x, params, flag, tokens, inquiries) =
      settle_ok env user key p u (execute_transfer env.attempts env.waits p u.world.db) h₁ in
    let a' : IsAuthorised env user req key w p = record {
      token = a.token;
      presented = a.presented;
      in_time = a.in_time;
      token_owner = a.token_owner;
      purpose = a.purpose;
      inquiry = a.inquiry;
      asked = a.asked;
      inquiry_owner = a.inquiry_owner;
      built = a.built;
    } in
    (
      flag,
      record {
        authorised = rw params a';
        paid = rw params (rw s.same_db at x);
        tokens = tokens ∙ s.tokens;
        inquiries = inquiries ∙ s.inquiries;
      },
    )

-- A response is one that was stored for this user and key, and then nothing changes; or the executor
-- made its transaction from parameters that were built for this user, after a verification token of
-- the user for transfers and an inquiry of the user's own were presented, and both are spent.
pub execute-IsPaid :
    (env : Env) (user : ℕ) (req : TransferRequest) (key : String) (w : World) {r : Response}
    {b : Bool} {w' : World}
    → execute env user req key w ≡ (ok (r, b), w')
    → ((b ≡ true) × (w' ≡ w) × (find_entry user key w.idem ≡ some (stored r)))
      ⊎ ((b ≡ false) × IsPaid env user req key w r w')
unfolding execute
execute-IsPaid env user req key w {r} {b} {w'} h = elim (Option-cases env.claim_fault) [
  | inr (c, e) ↦ let bad : ⊥ = ground arith in absurd bad
  | inl e ↦ elim (Option-cases (find_entry user key w.idem)) [
    | inr (processing, f) ↦ let bad : ⊥ = ground arith in absurd bad
    | inr (stored x, f) ↦ inl (ground arith, ground arith, ground arith)
    | inl f ↦
        let h' : run_claimed env user req key (claimed user key w) ≡ (ok (r, b), w') =
          ground arith in
        inr (run_claimed_ok env user req key w h')
  ]
]
