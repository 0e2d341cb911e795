-- ===== src/Qris/Payload.antt =====
-- internal/domain/qris/decoder.go, ParseEMVCo. `trim_space` is Go's, and `parse_decimal` is
-- `decimal.NewFromString`, with an amount in hundredths; more decimals than two are not kept apart.
use bca_mobile_api.Common.{
  ℕ, ◌≡◌, Bool, true, false, not, ◌&&◌, Option, none, some, List, [], ◌∷◌, ◌==◌, ltb, length,
  if◌then◌else◌, Result, ok, err, ◌>>=◌, ◌>>◌, refuse, qris_invalid_payload,
}
use bca_mobile_api.Common.Int.{ℤ, pos, ◌≤ℤ◌, ltb_ℤ}
use bca_mobile_api.Qris.Tlv.{Field, Parsed, fields, malformed, panic, parse_tlv}

pub record Env : Type 0 where
  pub trim_space : List ℕ → List ℕ
  pub parse_decimal : List ℕ → Option ℤ

pub record DecodedQris : Type 0 where
  pub merchant_name : List ℕ
  pub merchant_city : List ℕ
  pub amount : ℤ
  pub is_amount_fixed : Bool

abbrev pub bytes_eq : List ℕ → List ℕ → Bool
bytes_eq [] [] = true
bytes_eq [] (y ∷ ys) = false
bytes_eq (x ∷ xs) [] = false
bytes_eq (x ∷ xs) (y ∷ ys) = x == y && bytes_eq xs ys

abbrev pub is_tag : ℕ → ℕ → Field → Bool
is_tag a b f = f.tag_high == a && f.tag_low == b

abbrev pub or_bytes : Option (List ℕ) → List ℕ → List ℕ
or_bytes none d = d
or_bytes (some v) d = v

-- `fields[tag]`: the last field of a tag stands in the map, and a tag that is missing gives "".
unfoldable pub last_of : ℕ → ℕ → List Field → Option (List ℕ)
last_of a b [] = none
last_of a b (f ∷ fs) = elim (last_of a b fs) [
  | some v ↦ some v
  | none ↦ if is_tag a b f then some f.value else none
]

unfoldable pub lookup : ℕ → ℕ → List Field → List ℕ
unfolding last_of
lookup a b fs = or_bytes (last_of a b fs) []

abbrev pub is_blank : List ℕ → Bool
is_blank [] = true
is_blank (x ∷ xs) = false

unfoldable pub read_amount : Env → List ℕ → Bool → Result (ℤ × Bool)
read_amount env text fixed =
    if is_blank text then ok (pos 0, fixed) else elim (env.parse_decimal text) [
      | none ↦ err qris_invalid_payload
      | some a ↦ if ltb_ℤ a (pos 0) then err qris_invalid_payload else ok (a, true)
    ]

-- "UNKNOWN"
abbrev pub unknown_city : List ℕ
unknown_city = b'U' ∷ b'N' ∷ b'K' ∷ b'N' ∷ b'O' ∷ b'W' ∷ b'N' ∷ []

unfoldable pub read_fields : Env → List Field → Result DecodedQris
unfolding lookup read_amount
read_fields env fs = do
  refuse (not (bytes_eq (lookup b'0' b'0' fs) (b'0' ∷ b'1' ∷ []))) qris_invalid_payload
  let name = lookup b'5' b'9' fs
  refuse (is_blank name) qris_invalid_payload
  let city = lookup b'6' b'0' fs
  let fixed = bytes_eq (lookup b'0' b'1' fs) (b'1' ∷ b'2' ∷ [])
  amount ← read_amount env (lookup b'5' b'4' fs) fixed
  ok (record {
    merchant_name = name;
    merchant_city = if is_blank city then unknown_city else city;
    amount = amount.0;
    is_amount_fixed = amount.1;
  })

-- `none` is the panic of the parser.
unfoldable pub decode : Env → Parsed → Option (Result DecodedQris)
unfolding read_fields
decode env panic = none
decode env malformed = some (err qris_invalid_payload)
decode env (fields fs) = some (read_fields env fs)

unfoldable pub parse_emvco : Env → List ℕ → Option (Result DecodedQris)
unfolding parse_tlv decode
parse_emvco env raw =
    let text = env.trim_space raw in
    if ltb (length text) 10 then some (err qris_invalid_payload) else decode env (parse_tlv text)

-- A code that can be paid.
pub record IsPayable (q : DecodedQris) : Type 0 where
  pub named : is_blank q.merchant_name ≡ false
  pub placed : is_blank q.merchant_city ≡ false
  pub positive : pos 0 ≤ℤ q.amount
