-- ===== src/Parser/Decimal.antt =====
-- Numbers written in decimal are read back by the readers of src/event_parser.cpp.
use mathlib.Core.List.{append-nil, append_assoc}
use orda_book.Prelude.{
  ℕ, zero, suc, ◌+◌, ◌-◌, ◌*◌, ◌/◌, ◌%◌, ◌^◌, ◌≤◌, ◌<◌, ltb, le→leb, ◌==◌, ◌≡◌, refl, sym, ap, ◌∙◌,
  inl, inr, Bool-cases, Bool, true, false, some, [], ◌∷◌, ◌++◌, All, arith,
}
use orda_book.Prelude.Lists.{All-append}
use orda_book.Prelude.Int.{ℤ, pos, negsuc}
use orda_book.Codec.Records.{IsInt64}
use orda_book.Parser.Tokens.{
  Bytes, is_digit, starts_digit, read_digits, from_digits, parse_unsigned, parse_signed, whole,
}

unfoldable digits : ℕ → ℕ → Bytes
digits zero n = []
digits (suc fuel) n = elim (ltb n 10) [
  | true ↦ (b'0' + n) ∷ []
  | false ↦ digits fuel (n / 10) ++ ((b'0' + n % 10) ∷ [])
]

module _ (fuel n : ℕ) where
  abbrev chosen : Bool → Bytes
  unfolding digits
  chosen b = elim b [
    | true ↦ (b'0' + n) ∷ []
    | false ↦ digits fuel (n / 10) ++ ((b'0' + n % 10) ∷ [])
  ]

  digits_small : ltb n 10 ≡ true → digits (suc fuel) n ≡ (b'0' + n) ∷ []
  unfolding digits
  digits_small e = ap chosen e

  digits_large :
      ltb n 10 ≡ false → digits (suc fuel) n ≡ digits fuel (n / 10) ++ ((b'0' + n % 10) ∷ [])
  unfolding digits
  digits_large e = ap chosen e

-- A number has fewer digits than its successor.
unfoldable pub decimal : ℕ → Bytes
unfolding digits
decimal n = digits (suc n) n

unfoldable pub signed_decimal : ℤ → Bytes
signed_decimal (pos n) = decimal n
signed_decimal (negsuc n) = b'-' ∷ decimal (suc n)

read_digits-cons :
    (value d : ℕ) (rest : Bytes)
    → d < 10
    → read_digits value ((b'0' + d) ∷ rest) ≡ read_digits (value * 10 + d) rest
unfolding read_digits
read_digits-cons value d rest b =
    let t : is_digit (b'0' + d) ≡ true = ground arith in
    let e : b'0' + d - b'0' ≡ d = omega arith in rw (t, e)

read_digits-digits :
    (fuel n : ℕ) (rest : Bytes)
    → n < fuel
    → read_digits 0 (digits fuel n ++ rest) ≡ read_digits n rest
read_digits-digits zero n rest b = absurd (omega arith)
read_digits-digits (suc fuel) n rest b = elim (Bool-cases (ltb n 10)) [
  | inl small ↦
      rw (digits_small fuel n small)
        (read_digits-cons 0 n rest (ground arith) ∙ ap (λ m. read_digits m rest) (omega arith))
  | inr large ↦
      rw (digits_large fuel n large, append_assoc)
        (read_digits-digits fuel (n / 10) ((b'0' + n % 10) ∷ rest) (ground arith)
          ∙ read_digits-cons (n / 10) (n % 10) rest (omega arith)
          ∙ ap (λ m. read_digits m rest) (omega arith))
]

-- A list that begins with a digit.
abbrev Begins : Bytes → Type 0
Begins view = (ch : ℕ) × (more : Bytes) × (view ≡ ch ∷ more) × (is_digit ch ≡ true)

digits-Begins : (fuel n : ℕ) → n < fuel → Begins (digits fuel n)
digits-Begins zero n b = absurd (omega arith)
digits-Begins (suc fuel) n b = elim (Bool-cases (ltb n 10)) [
  | inl small ↦ rw (digits_small fuel n small) (b'0' + n, [], refl, ground arith)
  | inr large ↦
      let (ch, more, e, d) = digits-Begins fuel (n / 10) (ground arith) in
      rw (digits_large fuel n large, e) (ch, more ++ ((b'0' + n % 10) ∷ []), refl, d)
]

pub decimal-Begins : (n : ℕ) → Begins (decimal n)
unfolding decimal
decimal-Begins n = digits-Begins (suc n) n (omega arith)

read_digits-decimal : (n : ℕ) → read_digits 0 (decimal n) ≡ (n, [])
unfolding decimal
read_digits-decimal n =
    ap (read_digits 0) (sym (append-nil (digits (suc n) n)))
    ∙ read_digits-digits (suc n) n [] (omega arith)
    ∙ unfold read_digits in refl

from_digits-decimal : (bound n : ℕ) → n ≤ bound → from_digits bound (decimal n) ≡ some (n, [])
unfolding from_digits
from_digits-decimal bound n b =
    let read : read_digits 0 (decimal n) ≡ (n, []) = read_digits-decimal n in
    let (ch, more, e, d) = decimal-Begins n in
    let t : starts_digit (decimal n) ≡ true = rw e d in rw (read, t, le→leb b)

pub parse_unsigned-decimal : (n : ℕ) → n < 2 ^ 64 → parse_unsigned (decimal n) ≡ some n
unfolding parse_unsigned
parse_unsigned-decimal n b = rw (from_digits-decimal (2 ^ 64 - 1) n (omega arith))

unsigned :
    (ch : ℕ) (more : Bytes)
    → (ch == b'-') ≡ false
    → parse_signed (ch ∷ more) ≡ whole pos (from_digits (2 ^ 63 - 1) (ch ∷ more))
unfolding parse_signed
unsigned ch more e = rw e

pub parse_signed-signed_decimal : (n : ℤ) → IsInt64 n → parse_signed (signed_decimal n) ≡ some n
unfolding parse_signed signed_decimal
parse_signed-signed_decimal (pos n) b =
    let (ch, more, e, d) = decimal-Begins n in
    rw e (
      unsigned ch more (ground arith)
      ∙ ap (whole pos) (
          ap (from_digits (2 ^ 63 - 1)) (sym e) ∙ from_digits-decimal (2 ^ 63 - 1) n (omega arith)))
parse_signed-signed_decimal (negsuc n) b = rw (from_digits-decimal (2 ^ 63) (suc n) (omega arith))

digits-All :
    (P : ℕ → Type 0) → ((d : ℕ) → d < 10 → P (b'0' + d)) → (fuel n : ℕ) → All P (digits fuel n)
digits-All P p zero n = unfold digits in tt
digits-All P p (suc fuel) n = elim (Bool-cases (ltb n 10)) [
  | inl small ↦ rw (digits_small fuel n small) (p n (ground arith), tt)
  | inr large ↦ rw (digits_large fuel n large) (
      All-append P (digits fuel (n / 10)) _ (digits-All P p fuel (n / 10))
        (p (n % 10) (omega arith), tt))
]

pub decimal-All : (P : ℕ → Type 0) → ((d : ℕ) → d < 10 → P (b'0' + d)) → (n : ℕ) → All P (decimal n)
unfolding decimal
decimal-All P p n = digits-All P p (suc n) n
