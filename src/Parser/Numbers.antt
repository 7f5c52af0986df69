-- ===== src/Parser/Numbers.antt =====
-- The integers of src/event_parser.cpp are in the range of their types.
use orda_book.Prelude.{
  ℕ, zero, suc, ◌-◌, ◌^◌, ◌≤◌, ◌<◌, ◌==◌, ◌≡◌, refl, subst, inl, inr, Bool-cases, Option, none,
  some, [], ◌∷◌, arith,
}
use orda_book.Prelude.Int.{ℤ, pos}
use orda_book.Codec.Records.{IsInt64}
use orda_book.Parser.Tokens.{Bytes, from_digits, negative, whole, parse_unsigned, parse_signed}

from_digits-le :
    (limit : ℕ) (view : Bytes) (value : ℕ) (rest : Bytes)
    → from_digits limit view ≡ some (value, rest)
    → value ≤ limit
unfolding from_digits
from_digits-le limit view value rest e = ground arith

whole-cases :
    {A : Type 0} (f : ℕ → A) (o : Option (ℕ × Bytes)) (a : A)
    → whole f o ≡ some a
    → (n : ℕ) × (o ≡ some (n, [])) × (f n ≡ a)
whole-cases f none a e = cc
whole-cases f (some (n, [])) a e = (n, refl, cc)
whole-cases f (some (n, ch ∷ rest)) a e = cc

pub parse_unsigned_range : (token : Bytes) (n : ℕ) → parse_unsigned token ≡ some n → n < 2 ^ 64
unfolding parse_unsigned
parse_unsigned_range token n e =
    let (m, at, same) = whole-cases (λ n. n) (from_digits (2 ^ 64 - 1) token) n e in
    let b = from_digits-le (2 ^ 64 - 1) token m [] at in omega (arith, b, same)

negative-IsInt64 : (n : ℕ) → n ≤ 2 ^ 63 → IsInt64 (negative n)
negative-IsInt64 zero b = omega arith
negative-IsInt64 (suc n) b = omega arith

pub parse_signed_range : (token : Bytes) (n : ℤ) → parse_signed token ≡ some n → IsInt64 n
unfolding parse_signed
parse_signed_range [] n e = cc
parse_signed_range (ch ∷ token) n e = elim (Bool-cases (ch == b'-')) [
  | inl minus ↦
      let (m, at, same) = whole-cases negative (from_digits (2 ^ 63) token) n (rw minus at e) in
      subst IsInt64 same (negative-IsInt64 m (from_digits-le (2 ^ 63) token m [] at))
  | inr plus ↦
      let (m, at, same) =
        whole-cases pos (from_digits (2 ^ 63 - 1) (ch ∷ token)) n (rw plus at e) in
      let b = from_digits-le (2 ^ 63 - 1) (ch ∷ token) m [] at in subst IsInt64 same (omega arith)
]
