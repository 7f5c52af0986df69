-- ===== src/Codec/Words.antt =====
-- Words from bytes: the or of disjoint bits is a sum, and the bytes of a word make it again.
use Prim.Native.Nat.{bit_or, digits, bit_or-bitwise, max}
use native.Mathlib.Nat.{pow-suc, mul_assoc}
use orda_book.Prelude.{
  ℕ, zero, suc, ◌+◌, ◌*◌, ◌/◌, ◌%◌, ◌^◌, ◌<◌, ◌≤◌, ◌≡◌, refl, sym, ap, ◌∙◌, arith,
}

abbrev or_digits : ℕ → ℕ → ℕ → ℕ
or_digits n a b = digits (λ b. b) max n a b

or_digits_fuel : (n m a b : ℕ) → a ≤ n → a ≤ m → or_digits n a b ≡ or_digits m a b
or_digits_fuel zero zero a b p q = refl
or_digits_fuel zero (suc m) zero b p q = refl
or_digits_fuel zero (suc m) (suc a) b p q = absurd (omega arith)
or_digits_fuel (suc n) zero zero b p q = refl
or_digits_fuel (suc n) zero (suc a) b p q = absurd (omega arith)
or_digits_fuel (suc n) (suc m) zero b p q = refl
or_digits_fuel (suc n) (suc m) (suc a) b p q =
    omega (arith, or_digits_fuel n m (suc a / 2) (b / 2) (omega arith) (omega arith))

pub zero-bit_or : (b : ℕ) → bit_or 0 b ≡ b
zero-bit_or b = bit_or-bitwise 0 b

bit_or_step : (a b : ℕ) → bit_or a b ≡ bit_or (a / 2) (b / 2) * 2 + max (a % 2) (b % 2)
bit_or_step zero b = omega (arith, zero-bit_or b, zero-bit_or (b / 2))
bit_or_step (suc a) b = omega (
  arith,
  bit_or-bitwise (suc a) b,
  bit_or-bitwise (suc a / 2) (b / 2),
  or_digits_fuel a (suc a / 2) (suc a / 2) (b / 2) (omega arith) (omega arith),
)

bit_or-twice : (a c : ℕ) → bit_or (a / 2) c ≡ a / 2 + c → bit_or a (c * 2) ≡ a + c * 2
bit_or-twice a c h =
    let e : c * 2 / 2 ≡ c = omega arith in bit_or_step a (c * 2) ∙ rw (e, h) (omega arith)

-- Low bits and the bits above them.
pub bit_or-disjoint : (k a b : ℕ) → a < 2 ^ k → bit_or a (b * 2 ^ k) ≡ a + b * 2 ^ k
bit_or-disjoint zero a b h =
    let e : a ≡ 0 = omega (arith, h) in rw e (zero-bit_or (b * 1) ∙ omega arith)
bit_or-disjoint (suc k) a b h =
    let e : b * 2 ^ suc k ≡ b * 2 ^ k * 2 =
      ap (◌*◌ b) (pow-suc 2 k) ∙ sym (mul_assoc b (2 ^ k) 2) in
    rw e (bit_or-twice a (b * 2 ^ k) (bit_or-disjoint k (a / 2) b (omega (arith, h, pow-suc 2 k))))

-- The bytes of a 64-bit word, put together as `get_u64` does.
pub word :
    (v : ℕ)
    → v < 2 ^ 64
    → bit_or
        (bit_or
          (bit_or
            (bit_or
              (bit_or
                (bit_or
                  (bit_or (bit_or 0 (v / 2 ^ 0 % 256 * 2 ^ 0)) (v / 2 ^ 8 % 256 * 2 ^ 8))
                  (v / 2 ^ 16 % 256 * 2 ^ 16))
                (v / 2 ^ 24 % 256 * 2 ^ 24))
              (v / 2 ^ 32 % 256 * 2 ^ 32))
            (v / 2 ^ 40 % 256 * 2 ^ 40))
          (v / 2 ^ 48 % 256 * 2 ^ 48))
        (v / 2 ^ 56 % 256 * 2 ^ 56)
      ≡ v
word v h =
    let a : bit_or 0 (v / 2 ^ 0 % 256 * 2 ^ 0) ≡ v % 2 ^ 8 =
      zero-bit_or (v / 2 ^ 0 % 256 * 2 ^ 0) ∙ omega arith in
    let b : (x : ℕ) → x ≡ v % 2 ^ 8 → bit_or x (v / 2 ^ 8 % 256 * 2 ^ 8) ≡ v % 2 ^ 16 =
      λ x e. bit_or-disjoint 8 x (v / 2 ^ 8 % 256) (omega (arith, e)) ∙ omega (arith, e) in
    let c : (x : ℕ) → x ≡ v % 2 ^ 16 → bit_or x (v / 2 ^ 16 % 256 * 2 ^ 16) ≡ v % 2 ^ 24 =
      λ x e. bit_or-disjoint 16 x (v / 2 ^ 16 % 256) (omega (arith, e)) ∙ omega (arith, e) in
    let d : (x : ℕ) → x ≡ v % 2 ^ 24 → bit_or x (v / 2 ^ 24 % 256 * 2 ^ 24) ≡ v % 2 ^ 32 =
      λ x e. bit_or-disjoint 24 x (v / 2 ^ 24 % 256) (omega (arith, e)) ∙ omega (arith, e) in
    let f : (x : ℕ) → x ≡ v % 2 ^ 32 → bit_or x (v / 2 ^ 32 % 256 * 2 ^ 32) ≡ v % 2 ^ 40 =
      λ x e. bit_or-disjoint 32 x (v / 2 ^ 32 % 256) (omega (arith, e)) ∙ omega (arith, e) in
    let g : (x : ℕ) → x ≡ v % 2 ^ 40 → bit_or x (v / 2 ^ 40 % 256 * 2 ^ 40) ≡ v % 2 ^ 48 =
      λ x e. bit_or-disjoint 40 x (v / 2 ^ 40 % 256) (omega (arith, e)) ∙ omega (arith, e) in
    let k : (x : ℕ) → x ≡ v % 2 ^ 48 → bit_or x (v / 2 ^ 48 % 256 * 2 ^ 48) ≡ v % 2 ^ 56 =
      λ x e. bit_or-disjoint 48 x (v / 2 ^ 48 % 256) (omega (arith, e)) ∙ omega (arith, e) in
    let l : (x : ℕ) → x ≡ v % 2 ^ 56 → bit_or x (v / 2 ^ 56 % 256 * 2 ^ 56) ≡ v =
      λ x e. bit_or-disjoint 56 x (v / 2 ^ 56 % 256) (omega (arith, e)) ∙ omega (arith, e, h) in
    l _ (k _ (g _ (f _ (d _ (c _ (b _ a))))))
