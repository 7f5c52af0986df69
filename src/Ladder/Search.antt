-- ===== src/Ladder/Search.antt =====
-- The bit counts of src/ladder_order_book.cpp: which bit they find, and what a word of zeros is.
use orda_book.Prelude.{
  ℕ, zero, suc, ◌+◌, ◌≤◌, ◌<◌, ◌==◌, ◌≡◌, refl, ◌⊎◌, inl, inr, Bool-cases, if◌then◌else◌, true,
  false, Option, none, some, ==_iff, arith,
}
use orda_book.Ladder.Bitmaps.{
  Word, clear_bit, lowest_from, highest_below, lowest_bit, is_none, is_zero,
}

-- What a search of the bits from `from` up to `to` finds.
abbrev pub Lowest : ℕ → ℕ → Word → Option ℕ → Type 0
Lowest from to word none = (i : ℕ) → from ≤ i → i < to → word i ≡ false
Lowest from to word (some k) =
    (from ≤ k) × (k < to) × (word k ≡ true) × ((i : ℕ) → from ≤ i → i < k → word i ≡ false)

lowest_from-Lowest :
    (left from : ℕ) (word : Word) → Lowest from (from + left) word (lowest_from left from word)
unfolding lowest_from
lowest_from-Lowest zero from word = λ i a b. absurd (omega arith)
lowest_from-Lowest (suc left) from word =
    go (Bool-cases (word from)) (lowest_from left (suc from) word)
      (lowest_from-Lowest left (suc from) word)
  where
    go :
        ((word from ≡ true) ⊎ (word from ≡ false))
        → (o : Option ℕ) → Lowest (suc from) (suc from + left) word o
        → Lowest from (from + suc left) word (if word from then some from else o)
    go (inl t) o l = rw t (omega arith, omega arith, t, λ i a b. absurd (omega arith))
    go (inr f) none l = rw f (λ i a b. elim (Bool-cases (i == from)) [
      | inl e ↦ rw ((==_iff i from).0 e) f
      | inr n ↦ l i (ground arith) (omega arith)
    ])
    go (inr f) (some k) (a, b, t, l) = rw f (
      omega arith,
      omega arith,
      t,
      λ i c d. elim (Bool-cases (i == from)) [
        | inl e ↦ rw ((==_iff i from).0 e) f
        | inr n ↦ l i (ground arith) d
      ],
    )

abbrev pub Highest : ℕ → Word → Option ℕ → Type 0
Highest to word none = (i : ℕ) → i < to → word i ≡ false
Highest to word (some k) = (k < to) × (word k ≡ true) × ((i : ℕ) → k < i → i < to → word i ≡ false)

pub highest_below-Highest : (to : ℕ) (word : Word) → Highest to word (highest_below to word)
unfolding highest_below
highest_below-Highest zero word = λ i b. absurd (omega arith)
highest_below-Highest (suc to) word =
    go (Bool-cases (word to)) (highest_below to word) (highest_below-Highest to word)
  where
    go :
        ((word to ≡ true) ⊎ (word to ≡ false))
        → (o : Option ℕ) → Highest to word o
        → Highest (suc to) word (if word to then some to else o)
    go (inl t) o l = rw t (omega arith, t, λ i a b. absurd (omega arith))
    go (inr f) none l = rw f (λ i b. elim (Bool-cases (i == to)) [
      | inl e ↦ rw ((==_iff i to).0 e) f
      | inr n ↦ l i (ground arith)
    ])
    go (inr f) (some k) (a, t, l) = rw f (
      omega arith,
      t,
      λ i c d. elim (Bool-cases (i == to)) [
        | inl e ↦ rw ((==_iff i to).0 e) f
        | inr n ↦ l i c (ground arith)
      ],
    )

pub lowest_bit-Lowest : (word : Word) → Lowest 0 64 word (lowest_bit word)
lowest_bit-Lowest word = lowest_from-Lowest 64 0 word

pub bits_of_zero : (word : Word) → is_zero word ≡ true → (i : ℕ) → i < 64 → word i ≡ false
bits_of_zero word z i b = go (lowest_bit word) (lowest_bit-Lowest word) z
  where
    go : (o : Option ℕ) → Lowest 0 64 word o → is_none o ≡ true → word i ≡ false
    go none l z = l i (omega arith) b
    go (some k) l z = cc

pub is_zero-bit : (word : Word) (i : ℕ) → i < 64 → word i ≡ true → is_zero word ≡ false
is_zero-bit word i b t = elim (Bool-cases (is_zero word)) [
  | inl z ↦ let f = bits_of_zero word z i b in cc
  | inr n ↦ n
]

pub zero_of_bits : (word : Word) → ((i : ℕ) → i < 64 → word i ≡ false) → is_zero word ≡ true
zero_of_bits word f = go (lowest_bit word) (lowest_bit-Lowest word)
  where
    go : (o : Option ℕ) → Lowest 0 64 word o → is_none o ≡ true
    go none l = refl
    go (some k) (_, b, t, _) = let e = f k b in cc

clear_bit-false : (b : ℕ) (word : Word) (i : ℕ) → word i ≡ false → clear_bit b word i ≡ false
unfolding clear_bit
clear_bit-false b word i f = ground (arith, f)

pub is_zero-clear_bit :
    (b : ℕ) (word : Word) → is_zero (clear_bit b word) ≡ false → is_zero word ≡ false
is_zero-clear_bit b word n = elim (Bool-cases (is_zero word)) [
  | inl z ↦
      let c =
        zero_of_bits (clear_bit b word)
          (λ i h. clear_bit-false b word i (bits_of_zero word z i h)) in
      cc
  | inr f ↦ f
]
