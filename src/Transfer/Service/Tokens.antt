-- ===== src/Transfer/Service/Tokens.antt =====
-- internal/domain/transaction/service.go: what verification tokens promise to a transfer.
use bca_mobile_api.Common.{
  ℕ, ◌+◌, ◌≤◌, ◌<◌, ltb, eq_iff, ◌≡◌, ◌≢◌, refl, sym, ap, ◌∙◌, String, Bool, true, false, not,
  Option, none, some, List, [], ◌∷◌, ◌==◌, str_eq, Bool-cases, inl, inr, arith, Cause, ok, err,
  wrapped, validation_error, verification_token_invalid,
}
use bca_mobile_api.Common.State.{
  refuse, need, try, try_change, >>=-IsBound, same_step, refuse_passed, try_passed, need_passed,
}
use bca_mobile_api.Transfer.Service.Flow.{
  World, Token, verification_token_ttl, unexpired, find_token, live_token, delete_token,
}
use bca_mobile_api.Transfer.Service.Inquire.{
  InquireEnv, get_token, store_token, insert_token, valid_purpose, create_verification_token,
  is_granted, consume_verification_token,
}

find_token-delete_token :
    (hash : String) (ts : List Token) → find_token hash (delete_token hash ts) ≡ none
unfolding find_token delete_token
find_token-delete_token hash [] = refl
find_token-delete_token hash (t ∷ ts) = elim (Bool-cases (str_eq t.hash hash)) [
  | inl e ↦ rw e (find_token-delete_token hash ts)
  | inr e ↦ rw e (rw e (find_token-delete_token hash ts))
]

-- What a consumption that succeeded has passed.
record IsConsumed (env : InquireEnv) (user : ℕ) (raw purpose : String) (w v : World) : Type 0 where
  granted : is_granted user purpose (live_token env.now (env.hash raw) w.tokens) ≡ true
  deleted : v.tokens ≡ delete_token (env.hash raw) w.tokens

is_true : (b : Bool) → not b ≡ false → b ≡ true
is_true true h = refl
is_true false h = cc

consumed :
    (env : InquireEnv) (user : ℕ) (raw purpose : String) (w : World) {r : Unit {0}} {v : World}
    → consume_verification_token env user raw purpose w ≡ (ok r, v)
    → IsConsumed env user raw purpose w v
unfolding consume_verification_token
consumed env user raw purpose w {r} {v} h =
    let b₁ = >>=-IsBound (refuse (str_eq raw "") verification_token_invalid) _ w h in
    let (a₁, e₁) = refuse_passed (str_eq raw "") verification_token_invalid b₁.outcome in
    let b₂ =
      >>=-IsBound (refuse (not (valid_purpose purpose)) validation_error) _ b₁.middle b₁.rest in
    let (a₂, e₂) = refuse_passed (not (valid_purpose purpose)) validation_error b₂.outcome in
    let b₃ = >>=-IsBound (try (env.fault get_token) "consume vtoken: ") _ b₂.middle b₂.rest in
    let e₃ = try_passed (env.fault get_token) "consume vtoken: " b₃.outcome in
    let (a₄, e₄) =
      refuse_passed
        (not (is_granted user purpose (live_token env.now (env.hash raw) b₃.middle.tokens)))
        verification_token_invalid b₃.rest in
    let start : w ≡ b₃.middle = e₁ ∙ e₂ ∙ e₃ in
    record {
      granted =
          ap (λ x. is_granted user purpose (live_token env.now (env.hash raw) x.tokens)) start
          ∙ is_true _ a₄;
      deleted = sym (ap (λ x. delete_token (env.hash raw) x.tokens) start ∙ ap (λ x. x.tokens) e₄);
    }

-- A verification token is good once: a token that was accepted is refused ever after, for whatever user
-- and purpose.
pub consume_verification_token-once :
    (env later : InquireEnv) (user other : ℕ) (raw purpose reason : String) (w v u : World)
    → later.hash raw ≡ env.hash raw
    → consume_verification_token env user raw purpose w ≡ (ok tt, v)
    → consume_verification_token later other raw reason v ≢ (ok tt, u)
unfolding live_token
consume_verification_token-once env later user other raw purpose reason w v u hash h again =
    let p = consumed env user raw purpose w h in
    let q = consumed later other raw reason v again in
    let gone : live_token later.now (later.hash raw) v.tokens ≡ none = rw hash (
      ap (λ ts. unexpired later.now (find_token (env.hash raw) ts)) p.deleted
      ∙ ap (λ o. unexpired later.now o) (find_token-delete_token (env.hash raw) w.tokens)) in
    let bad : false ≡ true = ap (λ o. is_granted other reason o) (sym gone) ∙ q.granted in cc

abbrev token_of : InquireEnv → ℕ → String → String → Token
token_of env user raw purpose = record {
  hash = env.hash raw;
  user = user;
  purpose = purpose;
  expires_at = env.now + verification_token_ttl;
}

-- What the creation of a token has done.
record IsGranted (env : InquireEnv) (user : ℕ) (raw purpose : String) (w v : World) : Type 0 where
  valid : valid_purpose purpose ≡ true
  kept : v.tokens ≡ token_of env user raw purpose ∷ w.tokens

created :
    (env : InquireEnv) (user : ℕ) (purpose : String) (w : World) {raw : String} {v : World}
    → env.fault store_token ≡ none
    → create_verification_token env user purpose w ≡ (ok raw, v)
    → IsGranted env user raw purpose w v
unfolding create_verification_token
created env user purpose w {raw} {v} works h =
    let b₁ = >>=-IsBound (refuse (not (valid_purpose purpose)) validation_error) _ w h in
    let (a₁, e₁) = refuse_passed (not (valid_purpose purpose)) validation_error b₁.outcome in
    let b₂ =
      >>=-IsBound (need env.random_token (wrapped "generate token: " Cause.failed)) _ b₁.middle
        b₁.rest in
    let (a₂, e₂) =
      need_passed env.random_token (wrapped "generate token: " Cause.failed) b₂.outcome in
    let b₃ = >>=-IsBound (try (env.fault insert_token) "create vtoken: ") _ b₂.middle b₂.rest in
    let e₃ = try_passed (env.fault insert_token) "create vtoken: " b₃.outcome in
    let t : Token = token_of env user b₂.value purpose in
    let b₄ =
      >>=-IsBound (try_change (env.fault store_token) (λ x. record x { tokens = t ∷ x.tokens })) _
        b₃.middle b₃.rest in
    let e₄ =
      changed (env.fault store_token) (λ x. record x { tokens = t ∷ x.tokens }) b₃.middle works
        b₄.outcome in
    let (same_raw, e₅) = same_step b₄.rest in
    let start : b₃.middle ≡ w = sym (e₁ ∙ e₂ ∙ e₃) in
    record {
      valid = is_true _ a₁;
      kept =
          ap (λ x. x.tokens) (sym e₅ ∙ sym e₄)
          ∙ ap (λ x. t ∷ x.tokens) start
          ∙ ap (λ r. token_of env user r purpose ∷ w.tokens) same_raw;
    }
  where
    changed :
        (o : Option Cause) (f : World → World) (x : World) {u : Unit {0}} {y : World}
        → o ≡ none
        → try_change o f x ≡ (ok u, y)
        → f x ≡ y
    changed none f x n g = (same_step g).1
    changed (some e) f x n g = cc

find_token-head : (t : Token) (ts : List Token) → find_token t.hash (t ∷ ts) ≡ some t
unfolding find_token
find_token-head t ts = let equal = (eq_iff t.hash t.hash).1 refl in rw equal refl

unexpired_in : (now : ℕ) (t : Token) → now < t.expires_at → unexpired now (some t) ≡ some t
unexpired_in now t h = let e : ltb now t.expires_at ≡ true = ground arith in rw e refl

unexpired_out : (now : ℕ) (t : Token) → t.expires_at ≤ now → unexpired now (some t) ≡ none
unexpired_out now t h = let e : ltb now t.expires_at ≡ false = ground arith in rw e refl

-- A token that was issued and stored is accepted within two minutes from the user that it was issued to,
-- for its purpose, and then from no other user; from two minutes on it is refused.
pub consume_verification_token-create_verification_token :
    (env later expired : InquireEnv) (user other : ℕ) (raw purpose : String) (w v : World)
    → env.fault store_token ≡ none
    → later.fault get_token ≡ none
    → expired.fault get_token ≡ none
    → later.hash raw ≡ env.hash raw
    → expired.hash raw ≡ env.hash raw
    → later.now < env.now + 120
    → env.now + 120 ≤ expired.now
    → str_eq raw "" ≡ false
    → (user == other) ≡ false
    → create_verification_token env user purpose w ≡ (ok raw, v)
    → ((consume_verification_token later user raw purpose v).0 ≡ ok tt)
      × ((consume_verification_token later other raw purpose v).0 ≡ err verification_token_invalid)
      × ((consume_verification_token expired user raw purpose v).0 ≡ err verification_token_invalid)
unfolding consume_verification_token live_token
consume_verification_token-create_verification_token env later expired user other raw purpose w v
      works gets gets_too hash hash_too soon late filled apart h =
    let g = created env user purpose w works h in
    let t = token_of env user raw purpose in
    let there : find_token (env.hash raw) v.tokens ≡ some t =
      ap (λ ts. find_token (env.hash raw) ts) g.kept ∙ find_token-head t w.tokens in
    let here : unexpired later.now (find_token (later.hash raw) v.tokens) ≡ some t =
      rw hash (ap (λ o. unexpired later.now o) there ∙ unexpired_in later.now t soon) in
    let gone : unexpired expired.now (find_token (expired.hash raw) v.tokens) ≡ none =
      rw hash_too (ap (λ o. unexpired expired.now o) there ∙ unexpired_out expired.now t late) in
    let self : str_eq purpose purpose ≡ true = (eq_iff purpose purpose).1 refl in
    let mine : (user == user) ≡ true = ground arith in
    (
      rw filled (rw g.valid (rw gets (rw here (rw mine (rw self refl))))),
      rw filled (rw g.valid (rw gets (rw here (rw apart refl)))),
      rw filled (rw g.valid (rw gets_too (rw gone refl))),
    )
