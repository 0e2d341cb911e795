-- ===== src/Qris/Examples.antt =====
-- Runs of the QRIS decoder.
use bca_mobile_api.Common.{ℕ, true, arith, ◌≡◌, List, [], ◌∷◌, some, ◌↔◌}
use bca_mobile_api.Common.Int.{pos}
use bca_mobile_api.Qris.Tlv.{Field, parse_tlv, fields, panic}
use bca_mobile_api.Qris.Grammar.{
  IsPayload, IsCut, parse_tlv-IsPayload, parse_tlv-print, parse_tlv-panic, print,
}
use bca_mobile_api.Qris.Payload.{Env, DecodedQris}

abbrev named : ℕ → ℕ → List ℕ → Field
named a b v = record { tag_high = a; tag_low = b; value = v }

-- Format "01", a dynamic code, the merchant "KOPI" and the amount 25.
abbrev two_fields : List Field
two_fields =
    named b'0' b'0' (b'0' ∷ b'1' ∷ [])
    ∷ named b'5' b'4' (b'2' ∷ b'5' ∷ [])
    ∷ named b'5' b'9' (b'K' ∷ b'O' ∷ b'P' ∷ b'I' ∷ [])
    ∷ []

abbrev code : List ℕ
code =
    b'0' ∷ b'0' ∷ b'0' ∷ b'2' ∷ b'0' ∷ b'1' ∷ b'5' ∷ b'4' ∷ b'0' ∷ b'2' ∷ b'2' ∷ b'5' ∷ b'5' ∷ b'9'
    ∷ b'0' ∷ b'4' ∷ b'K' ∷ b'O' ∷ b'P' ∷ b'I' ∷ []

abbrev sample_env : Env
sample_env = record { trim_space = λ s. s; parse_decimal = λ s. some (pos 25) }

abbrev decoded : DecodedQris
decoded = record {
  merchant_name = b'K' ∷ b'O' ∷ b'P' ∷ b'I' ∷ [];
  merchant_city = b'U' ∷ b'N' ∷ b'K' ∷ b'N' ∷ b'O' ∷ b'W' ∷ b'N' ∷ [];
  amount = pos 25;
  is_amount_fixed = true;
}

parse_tlv-IsPayload_example : (parse_tlv code ≡ fields two_fields) ↔ IsPayload two_fields code
parse_tlv-IsPayload_example = parse_tlv-IsPayload two_fields code

parse_tlv-print_example : parse_tlv (print two_fields) ≡ fields two_fields
parse_tlv-print_example = parse_tlv-print two_fields (omega arith, (omega arith, (omega arith, tt)))

parse_tlv-panic_example :
    (parse_tlv (b'0' ∷ b'0' ∷ b'0' ∷ b'0' ∷ b'5' ∷ b'9' ∷ b'-' ∷ b'1' ∷ []) ≡ panic)
    ↔ IsCut (b'0' ∷ b'0' ∷ b'0' ∷ b'0' ∷ b'5' ∷ b'9' ∷ b'-' ∷ b'1' ∷ [])
parse_tlv-panic_example =
    parse_tlv-panic (b'0' ∷ b'0' ∷ b'0' ∷ b'0' ∷ b'5' ∷ b'9' ∷ b'-' ∷ b'1' ∷ [])
