-- ===== src/Ladder/Counted.antt =====
-- A sell against a ladder of src/ladder_order_book.cpp with two bid levels in one word of the bitmap.
use orda_book.Prelude.{
  ℕ, zero, suc, ◌+◌, ◌*◌, ◌/◌, ◌%◌, ◌<◌, min, ◌==◌, ==_iff, ◌≡◌, ◌≢◌, refl, sym, ap, ◌∙◌, inl, inr,
  Bool-cases, true, false, not, none, some, arith,
}
use orda_book.Types.{Price, ask}
use orda_book.Engine.{crosses}
use orda_book.Ladder.Bitmaps.{Word, Words, Occupied, is_zero, clear_bit, highest_bit, clear_lowest}
use orda_book.Ladder.State.{PriceLevel, LadderOrderBook}
use orda_book.Ladder.Matching.{
  Crossing, returned, counted, crossing_qty_of, and_then, level_loop, word_loop, words_down,
  max_crossing_qty,
}
use orda_book.Ladder.Summary.{IsSummary, is_marked}
use orda_book.Ladder.Search.{is_zero-bit, zero_of_bits}
use orda_book.Ladder.Twice.{
  highest_is, highest_is_none, lowest_is, clear_lowest_is, clear_false, level_loop-counts_twice,
}

-- Loops that find nothing more.
module _ (price : Price) (qty : ℕ) (levels : ℕ → PriceLevel) where
  word_end :
      (left word : ℕ) (bits : Word) (occupied : Words) (crossing_qty : ℕ)
      → highest_bit bits ≡ none
      → word_loop ask price qty levels left word bits occupied crossing_qty ≡ counted crossing_qty
  unfolding word_loop
  word_end zero word bits occupied crossing_qty h = refl
  word_end (suc left) word bits occupied crossing_qty h = rw (h, word_loop)

  words_end :
      (size : ℕ) (occupied : Occupied) (crossing_qty : ℕ)
      → ((word : ℕ) → word < size → highest_bit (occupied.words word) ≡ none)
      → words_down ask price qty levels size occupied crossing_qty ≡ counted crossing_qty
  unfolding words_down
  words_end zero occupied crossing_qty h = refl
  words_end (suc word) occupied crossing_qty h =
      rw
        (word_end 64 word (occupied.words word) occupied.levels crossing_qty (h word (omega arith)))
        (words_end word occupied crossing_qty (λ w b. h w (omega arith)))

  stops :
      (first : Crossing) (f : ℕ → Crossing)
      → ((crossing_qty : ℕ) → f crossing_qty ≡ counted crossing_qty)
      → crossing_qty_of (and_then first f) ≡ crossing_qty_of first
  stops (returned crossing_qty) f h = refl
  stops (counted crossing_qty) f h = ap crossing_qty_of (h crossing_qty)

  -- A word of the second bitmap with one bit.
  word_once :
      (word bit : ℕ) (bits : Word) (occupied : Words)
      → highest_bit bits ≡ some bit
      → highest_bit (clear_lowest bits) ≡ none
      → crossing_qty_of (word_loop ask price qty levels 64 word bits occupied 0)
        ≡ crossing_qty_of (
            level_loop ask price qty levels 64
              ((word * 64 + bit) * 64)
              (occupied (word * 64 + bit))
              0)
  unfolding word_loop
  word_once word bit bits occupied h e =
      rw (h, word_loop)
        (stops
          (level_loop ask price qty levels 64 ((word * 64 + bit) * 64) (occupied (word * 64 + bit))
            0)
          _ (λ c. word_end 63 word (clear_lowest bits) occupied c e))

  -- One word with bits, below `size`.
  words_once :
      (size word : ℕ) (occupied : Occupied)
      → word < size
      → ((w : ℕ) → w ≢ word → highest_bit (occupied.words w) ≡ none)
      → crossing_qty_of (words_down ask price qty levels size occupied 0)
        ≡ crossing_qty_of
            (word_loop ask price qty levels 64 word (occupied.words word) occupied.levels 0)
  unfolding words_down
  words_once zero word occupied b h = absurd (omega arith)
  words_once (suc top) word occupied b h = elim (Bool-cases (top == word)) [
    | inl e ↦ rw ((==_iff top word).0 e) (
        stops (word_loop ask price qty levels 64 word (occupied.words word) occupied.levels 0) _
          (λ c. words_end word occupied c (λ w l. h w (omega arith))))
    | inr n ↦
        let other : top ≢ word = λ e. ground (arith, n, e) in
        rw (word_end 64 top (occupied.words top) occupied.levels 0 (h top other))
          (words_once top word occupied (omega arith) h)
  ]

module _ (occupied : Occupied) (summary : IsSummary occupied) (lo hi : ℕ) (order : lo < hi)
    (together : lo / 64 ≡ hi / 64) (low : is_marked occupied lo ≡ true)
    (high : is_marked occupied hi ≡ true)
    (others : (i : ℕ) → i ≢ lo → i ≢ hi → is_marked occupied i ≡ false) where
  other_bits : (i : ℕ) → i < 64 → i ≢ lo % 64 → i ≢ hi % 64 → occupied.levels (hi / 64) i ≡ false
  other_bits i b m n =
      let p : (hi / 64 * 64 + i) / 64 ≡ hi / 64 = omega arith in
      let c : (hi / 64 * 64 + i) % 64 ≡ i = omega arith in
      let f = others (hi / 64 * 64 + i) (omega arith) (omega arith) in rw (p, c, is_marked) at f

  bare : (place : ℕ) → place ≢ hi / 64 → is_zero (occupied.levels place) ≡ true
  bare place n = zero_of_bits (occupied.levels place) (λ i b.
      let p : (place * 64 + i) / 64 ≡ place = omega arith in
      let c : (place * 64 + i) % 64 ≡ i = omega arith in
      let f = others (place * 64 + i) (omega arith) (omega arith) in rw (p, c, is_marked) at f)

  no_word_bit :
      (word bit : ℕ) → bit < 64 → word * 64 + bit ≢ hi / 64 → occupied.words word bit ≡ false
  no_word_bit word bit b n =
      let w : (word * 64 + bit) / 64 ≡ word = omega arith in
      let c : (word * 64 + bit) % 64 ≡ bit = omega arith in
      let z : true ≡ not (occupied.words word bit) =
        sym (bare (word * 64 + bit) n) ∙ (rw (w, c) at (summary.summary (word * 64 + bit))) in
      ground (arith, z)

  word_bit : occupied.words (hi / 64 / 64) (hi / 64 % 64) ≡ true
  word_bit =
      let z = is_zero-bit (occupied.levels (hi / 64)) (hi % 64) (omega arith) high in
      ground (arith, z, summary.summary (hi / 64))

  loops-count_twice :
      (price : Price) (qty : ℕ) (levels : ℕ → PriceLevel) (size : ℕ)
      → hi < size * 4096
      → crosses ask price (levels hi).price ≡ true
      → crossing_qty_of (words_down ask price qty levels size occupied 0)
        ≡ min qty ((levels hi).total_qty + (levels hi).total_qty)
  loops-count_twice price qty levels size sized x =
      let word = hi / 64 / 64 in
      let bit = hi / 64 % 64 in
      let bits = occupied.words word in
      let place : word * 64 + bit ≡ hi / 64 = omega arith in
      let here : hi / 64 * 64 + hi % 64 ≡ hi = omega arith in
      let only : (i : ℕ) → i < 64 → i ≢ bit → bits i ≡ false =
        λ i b n. no_word_bit word i b (omega arith) in
      let top : highest_bit bits ≡ some bit =
        highest_is bits bit (omega arith) word_bit (λ i a b. only i b (omega arith)) in
      let least =
        lowest_is bits bit (omega arith) word_bit (λ i a. only i (omega arith) (omega arith)) in
      let left : highest_bit (clear_lowest bits) ≡ none =
        ap highest_bit (clear_lowest_is bits bit least)
        ∙ highest_is_none (clear_bit bit bits) (λ i b. clear_false i bit bits (only i b)) in
      words_once price qty levels size word occupied (omega arith)
        (λ w n. highest_is_none (occupied.words w) (λ i b. no_word_bit w i b (omega arith)))
      ∙ word_once price qty levels word bit bits occupied.levels top left
      ∙ ap
          (λ p. crossing_qty_of (level_loop ask price qty levels 64 (p * 64) (occupied.levels p) 0))
          place
      ∙ level_loop-counts_twice price qty levels (hi / 64 * 64) (lo % 64) (hi % 64)
          (occupied.levels (hi / 64)) (omega arith) (omega arith)
          (ap (λ p. occupied.levels p (lo % 64)) (sym together) ∙ low) high
          (λ i b m n. other_bits i b m n) (rw here x)
      ∙ ap (λ i. min qty ((levels i).total_qty + (levels i).total_qty)) here

-- A sell against a ladder whose bids are on two levels of one word of the bitmap, where it crosses the
-- higher: whatever the lower level holds and whether or not the sell crosses it, the crossing quantity is twice what
-- the higher level holds, up to the quantity of the sell.
pub max_crossing_qty-counts_twice :
    (price : Price) (qty : ℕ) (book : LadderOrderBook) (lo hi : ℕ)
    → IsSummary book.bids
    → lo < hi
    → lo / 64 ≡ hi / 64
    → hi < book.size * 4096
    → is_marked book.bids lo ≡ true
    → is_marked book.bids hi ≡ true
    → ((i : ℕ) → i ≢ lo → i ≢ hi → is_marked book.bids i ≡ false)
    → crosses ask price (book.levels hi).price ≡ true
    → max_crossing_qty ask price qty book
      ≡ min qty ((book.levels hi).total_qty + (book.levels hi).total_qty)
unfolding max_crossing_qty
max_crossing_qty-counts_twice price qty book lo hi s order together sized low high others x =
    loops-count_twice book.bids s lo hi order together low high others price qty book.levels
      book.size sized x
