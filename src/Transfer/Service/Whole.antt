-- ===== src/Transfer/Service/Whole.antt =====
-- internal/domain/transaction/service_execute.go with the executor behind it: the money over a whole
-- request.
use bca_mobile_api.Common.{
  ℕ, String, Bool, ◌≡◌, refl, ap, some, List, [], ◌∷◌, str_eq, arith, Error, Result, ok, err,
  Option-cases, Bool-cases, inl, inr,
}
use bca_mobile_api.Common.Int.{pos, ◌≤ℤ◌}
use bca_mobile_api.Transfer.Data.{Inquiry}
use bca_mobile_api.Transfer.Db.{Db}
use bca_mobile_api.Transfer.Ledger.Rows.{UniqueIds, total}
use bca_mobile_api.Transfer.Ledger.Legs.{NullIsAbsent}
use bca_mobile_api.Transfer.Ledger.Committed.{IsBank}
use bca_mobile_api.Transfer.Ledger.Balanced.{execute_transfer-total}
use bca_mobile_api.Transfer.Service.Request.{TransferRequest, fee_of}
use bca_mobile_api.Transfer.Service.Params.{build_params-IsCoherent}
use bca_mobile_api.Transfer.Service.Flow.{
  Response, IdemState, processing, stored, World, Env, find_entry, find_inquiry, execute,
}
use bca_mobile_api.Transfer.Service.Guards.{IsPaid, execute-IsPaid}
use bca_mobile_api.Transfer.Service.Failure.{execute-IsUndone}

-- No inquiry has a negative fee.
abbrev pub AllFees : List Inquiry → Type 0
AllFees [] = Unit
AllFees (q ∷ qs) = (pos 0 ≤ℤ fee_of q) × AllFees qs

find_inquiry-fee :
    (text : ℕ → String) (key : String) (qs : List Inquiry) {q : Inquiry}
    → AllFees qs
    → find_inquiry text key qs ≡ some q
    → pos 0 ≤ℤ fee_of q
unfolding find_inquiry
find_inquiry-fee text key [] a h = cc
find_inquiry-fee text key (x ∷ qs) {q} a h = elim (Bool-cases (str_eq (text x.id) key)) [
  | inl e ↦ let same : x ≡ q = ground arith in rw (← same) a.0
  | inr e ↦
      let h' : find_inquiry text key qs ≡ some q = ground arith in
      find_inquiry-fee text key qs a.1 h'
]

paid-total :
    (env : Env) (user : ℕ) (req : TransferRequest) (key : String) (w : World) (r : Response)
    (w' : World)
    → UniqueIds w.db.accounts
    → ((n : ℕ) → NullIsAbsent (env.attempts n) w.db)
    → AllFees w.inquiries
    → IsPaid env user req key w r w'
    → total w'.db.accounts ≡ total w.db.accounts
paid-total env user req key w r w' u z fees paid =
    let a = paid.authorised in
    let (k, own) =
      build_params-IsCoherent env.request user req key a.inquiry w.db u
        (find_inquiry-fee env.id_text req.inquiry_id w.inquiries fees a.asked) a.built in
    let bank : (n : ℕ) → IsBank (env.attempts n) r.params w.db = λ n. record {
      unique = u;
      source = own.source;
      source_found = own.found;
      source_owned = own.customer;
      no_null = z n;
    } in
    rw paid.paid at (execute_transfer-total env.attempts env.waits r.params w.db bank k)

-- A key that is taken answers at once.
claimed_fails :
    (env : Env) (user : ℕ) (req : TransferRequest) (key : String) (w : World) (x : IdemState)
    {e : Error} {w' : World}
    → find_entry user key w.idem ≡ some x
    → execute env user req key w ≡ (err e, w')
    → w'.db ≡ w.db
unfolding execute
claimed_fails env user req key w processing f h = elim (Option-cases env.claim_fault) [
  | inl g ↦ ground arith
  | inr (c, g) ↦ ground arith
]
claimed_fails env user req key w (stored r) f h = elim (Option-cases env.claim_fault) [
  | inl g ↦ let bad : ⊥ = ground arith in absurd bad
  | inr (c, g) ↦ ground arith
]

failed_same :
    (env : Env) (user : ℕ) (req : TransferRequest) (key : String) (w : World) {e : Error}
    {w' : World}
    → execute env user req key w ≡ (err e, w')
    → w'.db ≡ w.db
failed_same env user req key w {e} {w'} h = elim (Option-cases (find_entry user key w.idem)) [
  | inl f ↦ (execute-IsUndone env user req key w f h).same_db
  | inr (x, f) ↦ claimed_fails env user req key w x f h
]

-- Over a whole request, however it ends, no money is made or lost: the sum of all balances is what it
-- was. The conditions are that the ids of `accounts` are unique, that none is what the driver makes of
-- NULL, and that no cached inquiry has a negative fee.
pub execute-total :
    (env : Env) (user : ℕ) (req : TransferRequest) (key : String) (w : World)
    → UniqueIds w.db.accounts
    → ((n : ℕ) → NullIsAbsent (env.attempts n) w.db)
    → AllFees w.inquiries
    → total (execute env user req key w).1.db.accounts ≡ total w.db.accounts
execute-total env user req key w u z fees = either (execute env user req key w) refl
  where
    either :
        (x : Result (Response × Bool) × World)
        → execute env user req key w ≡ x
        → total x.1.db.accounts ≡ total w.db.accounts
    either (err e, w') h = ap (λ (d : Db). total d.accounts) (failed_same env user req key w h)
    either (ok (r, b), w') h = elim (execute-IsPaid env user req key w h) [
      | inl (_, same, _) ↦ ap (λ (v : World). total v.db.accounts) same
      | inr (_, paid) ↦ paid-total env user req key w r w' u z fees paid
    ]
