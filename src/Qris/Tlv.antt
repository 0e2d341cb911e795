-- ===== src/Qris/Tlv.antt =====
-- internal/domain/qris/decoder.go, parseTLV. A text is the list of its bytes.
use bca_mobile_api.Common.{
  ℕ, zero, suc, ◌+◌, ◌-◌, ◌*◌, Bool, ◌&&◌, Option, none, some, List, [], ◌∷◌, ◌==◌, leb, ltb,
  length, take, drop, if◌then◌else◌,
}
use bca_mobile_api.Common.Int.{ℤ, pos, negsuc, ltb_ℤ}

-- A tag of two bytes and the value under it.
pub record Field : Type 0 where
  pub tag_high : ℕ
  pub tag_low : ℕ
  pub value : List ℕ

-- How a run ends: with the fields in the order of the text, with an error, or with the panic of a slice
-- that is out of its bounds.
pub data Parsed : Type 0 where
  fields : List Field → Parsed
  malformed panic : Parsed

abbrev pub is_digit : ℕ → Bool
is_digit c = leb b'0' c && leb c b'9'

-- `strconv.Atoi` on two bytes: two digits, or a sign and a digit.
unfoldable pub atoi : ℕ → ℕ → Option ℤ
atoi a b =
    if is_digit b
    then if is_digit a
      then some (pos ((a - b'0') * 10 + (b - b'0')))
      else if a == b'+'
      then some (pos (b - b'0'))
      else if a == b'-'
      then (if b == b'0' then some (pos 0) else some (negsuc (b - b'0' - 1)))
      else none
    else none

abbrev pub add_field : Field → Parsed → Parsed
add_field f (fields fs) = fields (f ∷ fs)
add_field f malformed = malformed
add_field f panic = panic

-- `rest[:n]` and what follows it; `none` is the panic of an end that is out of the bounds.
unfoldable pub slice_to : List ℕ → ℤ → Option (List ℕ × List ℕ)
slice_to rest (negsuc k) = none
slice_to rest (pos k) = if ltb (length rest) k then none else some (take k rest, drop k rest)

-- The loop. Each round takes four bytes at least, so that fuel for the length of the text is enough. The
-- value overflows where the length read is above what is left.
unfoldable pub parse_from : ℕ → List ℕ → Parsed
unfolding atoi slice_to
parse_from n [] = fields []
parse_from zero (x ∷ xs) = malformed
parse_from (suc n) (a ∷ b ∷ c ∷ d ∷ rest) = elim (atoi c d) [
  | none ↦ malformed
  | some k ↦ if ltb_ℤ (pos (length rest)) k then malformed else elim (slice_to rest k) [
    | none ↦ panic
    | some (value, left) ↦
        add_field (record { tag_high = a; tag_low = b; value = value }) (parse_from n left)
  ]
]
parse_from (suc n) (a ∷ []) = malformed
parse_from (suc n) (a ∷ b ∷ []) = malformed
parse_from (suc n) (a ∷ b ∷ c ∷ []) = malformed

unfoldable pub parse_tlv : List ℕ → Parsed
unfolding parse_from
parse_tlv text = parse_from (length text) text
