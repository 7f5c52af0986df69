-- ===== src/Ladder/Bitmaps.antt =====
-- The bitmaps of src/ladder_order_book.cpp. A std::uint64_t that serves as a bitmap is its 64 bits, so that
-- `bits & (bits - 1)` is the word without its lowest bit. The bit counts of a word of zeros, which
-- are undefined, are none.
use orda_book.Prelude.{
  ℕ, zero, suc, ◌+◌, ◌*◌, ◌/◌, ◌%◌, ◌==◌, if◌then◌else◌, Bool, true, false, Option, none, some,
}
use orda_book.Types.{Side, bid, ask}

abbrev pub Word : Type 0
Word = ℕ → Bool

-- A vector of words.
abbrev pub Words : Type 0
Words = ℕ → Word

unfoldable pub set_bit : ℕ → Word → Word
set_bit index word = λ i. if i == index then true else word i

unfoldable pub clear_bit : ℕ → Word → Word
clear_bit index word = λ i. if i == index then false else word i

-- `__builtin_ctzll`, on the bits from one on.
unfoldable pub lowest_from : ℕ → ℕ → Word → Option ℕ
lowest_from zero index word = none
lowest_from (suc left) index word =
    let rest = lowest_from left (suc index) word in if word index then some index else rest

-- 63 - `__builtin_clzll`, on the bits below one.
unfoldable pub highest_below : ℕ → Word → Option ℕ
highest_below zero word = none
highest_below (suc index) word =
    let rest = highest_below index word in if word index then some index else rest

abbrev pub lowest_bit : Word → Option ℕ
lowest_bit = lowest_from 64 0

abbrev pub highest_bit : Word → Option ℕ
highest_bit = highest_below 64

abbrev pub is_none : Option ℕ → Bool
is_none none = true
is_none (some index) = false

-- The test of a word against 0.
abbrev pub is_zero : Word → Bool
is_zero word = is_none (lowest_bit word)

abbrev pub clear_at : Option ℕ → Word → Word
clear_at none word = word
clear_at (some index) word = clear_bit index word

-- `bits &= bits - 1`
unfoldable pub clear_lowest : Word → Word
unfolding clear_bit
clear_lowest word = clear_at (lowest_bit word) word

unfoldable pub update : ℕ → Word → Words → Words
update index word words = λ i. if i == index then word else words i

-- The two bitmaps of a side.
pub record Occupied : Type 0 where
  pub levels : Words
  pub words : Words

unfoldable pub set_occupied : ℕ → Occupied → Occupied
unfolding set_bit update
set_occupied index occupied =
    let word = index / 64 in
    record {
      levels = update word (set_bit (index % 64) (occupied.levels word)) occupied.levels;
      words =
          if occupied.levels word (index % 64)
          then occupied.words
          else update (word / 64) (set_bit (word % 64) (occupied.words (word / 64))) occupied.words;
    }

unfoldable pub clear_occupied : ℕ → Occupied → Occupied
unfolding clear_bit update
clear_occupied index occupied =
    let word = index / 64 in
    let cleared = clear_bit (index % 64) (occupied.levels word) in
    record {
      levels = update word cleared occupied.levels;
      words =
          if is_zero cleared
          then update (word / 64) (clear_bit (word % 64) (occupied.words (word / 64)))
              occupied.words
          else occupied.words;
    }

-- The level that a bit of the second bitmap leads to.
abbrev pub within : ℕ → Option ℕ → Option ℕ
within word none = none
within word (some bit) = some (word * 64 + bit)

-- The loops of `best_index`: up for asks, down for bids.
unfoldable pub best_up : ℕ → ℕ → Occupied → Option ℕ
best_up zero word occupied = none
best_up (suc left) word occupied = elim (lowest_bit (occupied.words word)) [
  | none ↦ best_up left (suc word) occupied
  | some bit ↦ within (word * 64 + bit) (lowest_bit (occupied.levels (word * 64 + bit)))
]

unfoldable pub best_down : ℕ → Occupied → Option ℕ
best_down zero occupied = none
best_down (suc word) occupied = elim (highest_bit (occupied.words word)) [
  | none ↦ best_down word occupied
  | some bit ↦ within (word * 64 + bit) (highest_bit (occupied.levels (word * 64 + bit)))
]

-- The number of words in the second bitmap is `size`.
unfoldable pub best_index : Side → ℕ → Occupied → Option ℕ
best_index ask size occupied = best_up size 0 occupied
best_index bid size occupied = best_down size occupied
