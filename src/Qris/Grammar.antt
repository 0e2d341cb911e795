-- ===== src/Qris/Grammar.antt =====
-- internal/domain/qris/decoder.go: parseTLV against the grammar of EMVCo payloads.
use bca_mobile_api.Common.{
  ℕ, zero, suc, ◌+◌, ◌-◌, ◌*◌, ◌/◌, ◌%◌, ◌≤◌, ◌<◌, ◌≡◌, refl, sym, ap, ◌∙◌, ◌↔◌, true, false, none,
  some, List, [], ◌∷◌, ◌++◌, ltb, length, length-append, take, drop, arith, Bool-cases,
  Option-cases, inl, inr,
}
use bca_mobile_api.Common.Int.{pos, negsuc, ltb_ℤ}
use bca_mobile_api.Qris.Tlv.{
  Field, Parsed, fields, malformed, panic, is_digit, atoi, add_field, slice_to, parse_from,
  parse_tlv,
}

-- The payloads of a list of fields: each field's tag, two bytes that Atoi reads as the length of its
-- value, and the value.
pub data IsPayload : List Field → List ℕ → Type 0 where
  done : IsPayload [] []
  field :
      (a b c d : ℕ) (value : List ℕ) {fs : List Field} {rest : List ℕ}
      → atoi c d ≡ some (pos (length value))
      → IsPayload fs rest
      → IsPayload
          (record { tag_high = a; tag_low = b; value = value } ∷ fs)
          (a ∷ b ∷ c ∷ d ∷ (value ++ rest))

take-append : (xs ys : List ℕ) → take (length xs) (xs ++ ys) ≡ xs
take-append [] ys = refl
take-append (x ∷ xs) ys = ap (λ r. x ∷ r) (take-append xs ys)

drop-append : (xs ys : List ℕ) → drop (length xs) (xs ++ ys) ≡ ys
drop-append [] ys = refl
drop-append (x ∷ xs) ys = drop-append xs ys

take-append-drop : (n : ℕ) (xs : List ℕ) → take n xs ++ drop n xs ≡ xs
take-append-drop zero xs = refl
take-append-drop (suc n) [] = refl
take-append-drop (suc n) (x ∷ xs) = ap (λ r. x ∷ r) (take-append-drop n xs)

length-take_le : (n : ℕ) (xs : List ℕ) → n ≤ length xs → length (take n xs) ≡ n
length-take_le zero xs h = refl
length-take_le (suc n) [] h = let bad : ⊥ = omega arith in absurd bad
length-take_le (suc n) (x ∷ xs) h = omega (arith, length-take_le n xs)

parse_from_field :
    (n a b c d k : ℕ) (rest : List ℕ)
    → atoi c d ≡ some (pos k)
    → k ≤ length rest
    → parse_from (suc n) (a ∷ b ∷ c ∷ d ∷ rest)
      ≡ add_field
          (record { tag_high = a; tag_low = b; value = take k rest })
          (parse_from n (drop k rest))
unfolding parse_from slice_to
parse_from_field n a b c d k rest e h = ground arith

-- Every payload is parsed to its fields.
IsPayload-parse_from :
    (n : ℕ) (fs : List Field) (s : List ℕ)
    → length s ≤ n
    → IsPayload fs s
    → parse_from n s ≡ fields fs
unfolding parse_from slice_to
IsPayload-parse_from n _ _ h done = refl
IsPayload-parse_from zero _ _ h (field a b c d value e p) = let bad : ⊥ = omega arith in absurd bad
IsPayload-parse_from (suc n) _ _ h (field a b c d value {fs} {rest} e p) =
    let long = length-append value rest in
    parse_from_field n a b c d (length value) (value ++ rest) e (omega arith)
    ∙ rw (take-append value rest)
        (rw (drop-append value rest) (rw (IsPayload-parse_from n fs rest (omega arith) p) refl))

add_field-fields :
    (f : Field) (r : Parsed) {fs : List Field}
    → add_field f r ≡ fields fs
    → (gs : List Field) × (r ≡ fields gs) × (fs ≡ f ∷ gs)
add_field-fields f (fields gs) h = (gs, refl, cc)
add_field-fields f malformed h = cc
add_field-fields f panic h = cc

-- A round of the loop that did not end in an error.
parse_from_round :
    (n a b c d : ℕ) (rest : List ℕ) {fs : List Field}
    → parse_from (suc n) (a ∷ b ∷ c ∷ d ∷ rest) ≡ fields fs
    → (k : ℕ) × (atoi c d ≡ some (pos k))
      × (k ≤ length rest)
      × (add_field
            (record { tag_high = a; tag_low = b; value = take k rest })
            (parse_from n (drop k rest))
          ≡ fields fs)
unfolding parse_from slice_to
parse_from_round n a b c d rest h = elim (Option-cases (atoi c d)) [
  | inl e ↦ let bad : ⊥ = ground arith in absurd bad
  | inr (negsuc k, e) ↦ let bad : ⊥ = ground arith in absurd bad
  | inr (pos k, e) ↦ elim (Bool-cases (ltb (length rest) k)) [
    | inl f ↦ let bad : ⊥ = ground arith in absurd bad
    | inr f ↦ (k, e, ground arith, ground arith)
  ]
]

parse_from-IsPayload :
    (n : ℕ) (fs : List Field) (s : List ℕ) → parse_from n s ≡ fields fs → IsPayload fs s
unfolding parse_from slice_to
parse_from-IsPayload n fs [] h = let e : fs ≡ [] = cc in rw e done
parse_from-IsPayload zero fs (x ∷ xs) h = cc
parse_from-IsPayload (suc n) fs (a ∷ []) h = cc
parse_from-IsPayload (suc n) fs (a ∷ b ∷ []) h = cc
parse_from-IsPayload (suc n) fs (a ∷ b ∷ c ∷ []) h = cc
parse_from-IsPayload (suc n) fs (a ∷ b ∷ c ∷ d ∷ rest) h =
    let (k, e, l, add) = parse_from_round n a b c d rest h in
    let (gs, later, shape) = add_field-fields _ (parse_from n (drop k rest)) add in
    let size : length (take k rest) ≡ k = length-take_le k rest l in
    let p =
      field a b c d (take k rest) (rw size e) (parse_from-IsPayload n gs (drop k rest) later) in
    rw shape (rw (take-append-drop k rest) at p)

-- The parser accepts exactly the payloads of the grammar, with their fields: it gives a list of fields
-- for a text if and only if the text is a payload of that list. So its fuel never runs out on a payload.
pub parse_tlv-IsPayload :
    (fs : List Field) (s : List ℕ) → (parse_tlv s ≡ fields fs) ↔ IsPayload fs s
unfolding parse_tlv
parse_tlv-IsPayload fs s =
    (parse_from-IsPayload (length s) fs s, IsPayload-parse_from (length s) fs s (omega arith))

-- What a writer of payloads puts: each length in two digits.
pub print : List Field → List ℕ
print [] = []
print (f ∷ fs) =
    f.tag_high
    ∷ f.tag_low
    ∷ (b'0' + length f.value / 10)
    ∷ (b'0' + length f.value % 10)
    ∷ (f.value ++ print fs)

abbrev pub AllShort : List Field → Type 0
AllShort [] = Unit
AllShort (f ∷ fs) = (length f.value < 100) × AllShort fs

atoi_pair : (q r : ℕ) → q ≤ 9 → r ≤ 9 → atoi (b'0' + q) (b'0' + r) ≡ some (pos (q * 10 + r))
unfolding atoi
atoi_pair q r h k =
    let e : b'0' + q - b'0' ≡ q = omega arith in
    let f : b'0' + r - b'0' ≡ r = omega arith in
    let low : is_digit (b'0' + r) ≡ true = ground arith in
    let high : is_digit (b'0' + q) ≡ true = ground arith in rw low (rw high (rw e (rw f refl)))

atoi_digits : (n : ℕ) → n < 100 → atoi (b'0' + n / 10) (b'0' + n % 10) ≡ some (pos n)
atoi_digits n h =
    let q : n / 10 ≤ 9 = omega arith in
    let r : n % 10 ≤ 9 = omega arith in
    let sum : n / 10 * 10 + n % 10 ≡ n = omega arith in
    atoi_pair (n / 10) (n % 10) q r ∙ ap (λ m. some (pos m)) sum

print-IsPayload : (fs : List Field) → AllShort fs → IsPayload fs (print fs)
unfolding print
print-IsPayload [] h = done
print-IsPayload (f ∷ fs) h =
    field f.tag_high f.tag_low _ _ f.value (atoi_digits (length f.value) h.0)
      (print-IsPayload fs h.1)

-- Fields whose values have less than a hundred bytes are read back as they were written.
pub parse_tlv-print : (fs : List Field) → AllShort fs → parse_tlv (print fs) ≡ fields fs
parse_tlv-print fs h = (parse_tlv-IsPayload fs (print fs)).1 (print-IsPayload fs h)

-- The texts whose fields, after any number of whole ones, come to one with a negative length.
pub data IsCut : List ℕ → Type 0 where
  cut : (a b d : ℕ) (rest : List ℕ) → b'0' < d → d ≤ b'9' → IsCut (a ∷ b ∷ b'-' ∷ d ∷ rest)
  later :
      (a b c d : ℕ) (value : List ℕ) {rest : List ℕ}
      → atoi c d ≡ some (pos (length value))
      → IsCut rest
      → IsCut (a ∷ b ∷ c ∷ d ∷ (value ++ rest))

atoi_minus : (d : ℕ) → b'0' < d → d ≤ b'9' → atoi b'-' d ≡ some (negsuc (d - b'0' - 1))
unfolding atoi
atoi_minus d h k = ground arith

atoi_negative : (c d k : ℕ) → atoi c d ≡ some (negsuc k) → (c ≡ b'-') × (b'0' < d) × (d ≤ b'9')
unfolding atoi
atoi_negative c d k h = (ground arith, ground arith, ground arith)

parse_from_cut :
    (n a b c d k : ℕ) (rest : List ℕ)
    → atoi c d ≡ some (negsuc k)
    → parse_from (suc n) (a ∷ b ∷ c ∷ d ∷ rest) ≡ panic
unfolding parse_from slice_to
parse_from_cut n a b c d k rest e =
    let below : ltb_ℤ (pos (length rest)) (negsuc k) ≡ false = ground arith in
    rw (e, parse_from) (rw below refl)

parse_from_bad :
    (n a b c d : ℕ) (rest : List ℕ)
    → atoi c d ≡ none
    → parse_from (suc n) (a ∷ b ∷ c ∷ d ∷ rest) ≡ malformed
unfolding parse_from
parse_from_bad n a b c d rest e = rw (e, parse_from) refl

parse_from_overflow :
    (n a b c d k : ℕ) (rest : List ℕ)
    → atoi c d ≡ some (pos k)
    → ltb (length rest) k ≡ true
    → parse_from (suc n) (a ∷ b ∷ c ∷ d ∷ rest) ≡ malformed
unfolding parse_from
parse_from_overflow n a b c d k rest e f =
    let above : ltb_ℤ (pos (length rest)) (pos k) ≡ true = ground arith in
    rw (e, parse_from) (rw above refl)

IsCut-parse_from : (n : ℕ) (s : List ℕ) → length s ≤ n → IsCut s → parse_from n s ≡ panic
IsCut-parse_from zero _ h (cut a b d rest l m) = let bad : ⊥ = omega arith in absurd bad
IsCut-parse_from zero _ h (later a b c d value e p) = let bad : ⊥ = omega arith in absurd bad
IsCut-parse_from (suc n) _ h (cut a b d rest l m) =
    parse_from_cut n a b b'-' d _ rest (atoi_minus d l m)
IsCut-parse_from (suc n) _ h (later a b c d value {rest} e p) =
    let long = length-append value rest in
    parse_from_field n a b c d (length value) (value ++ rest) e (omega arith)
    ∙ rw (drop-append value rest) (rw (IsCut-parse_from n rest (omega arith) p) refl)

add_field-panic : (f : Field) (r : Parsed) → add_field f r ≡ panic → r ≡ panic
add_field-panic f (fields gs) h = cc
add_field-panic f malformed h = cc
add_field-panic f panic h = refl

ltb-false : (m k : ℕ) → ltb m k ≡ false → k ≤ m
ltb-false m k h = ground arith

parse_from-IsCut : (n : ℕ) (s : List ℕ) → parse_from n s ≡ panic → IsCut s
unfolding parse_from slice_to
parse_from-IsCut n [] h = cc
parse_from-IsCut zero (x ∷ xs) h = cc
parse_from-IsCut (suc n) (a ∷ []) h = cc
parse_from-IsCut (suc n) (a ∷ b ∷ []) h = cc
parse_from-IsCut (suc n) (a ∷ b ∷ c ∷ []) h = cc
parse_from-IsCut (suc n) (a ∷ b ∷ c ∷ d ∷ rest) h = elim (Option-cases (atoi c d)) [
  | inl e ↦ let bad : malformed ≡ panic = sym (parse_from_bad n a b c d rest e) ∙ h in cc
  | inr (negsuc k, e) ↦ let (minus, l, m) = atoi_negative c d k e in rw minus (cut a b d rest l m)
  | inr (pos k, e) ↦ elim (Bool-cases (ltb (length rest) k)) [
    | inl f ↦ let bad : malformed ≡ panic = sym (parse_from_overflow n a b c d k rest e f) ∙ h in cc
    | inr f ↦
        let fits = ltb-false (length rest) k f in
        let size : length (take k rest) ≡ k = length-take_le k rest fits in
        let add = parse_from_field n a b c d k rest e fits in
        let p =
          parse_from-IsCut n (drop k rest)
            (add_field-panic _ (parse_from n (drop k rest)) (sym add ∙ h)) in
        rw (take-append-drop k rest) at (later a b c d (take k rest) (rw size e) p)
  ]
]

-- The parser panics on exactly the texts in which, after any number of whole fields, comes a field whose
-- length is a minus sign and a digit from 1 to 9.
pub parse_tlv-panic : (s : List ℕ) → (parse_tlv s ≡ panic) ↔ IsCut s
unfolding parse_tlv
parse_tlv-panic s = (parse_from-IsCut (length s) s, IsCut-parse_from (length s) s (omega arith))
