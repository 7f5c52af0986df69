-- ===== src/Ladder/Best.antt =====
-- `best_index` of src/ladder_order_book.cpp finds the best marked level.
use orda_book.Prelude.{
  ℕ, zero, suc, ◌+◌, ◌*◌, ◌/◌, ◌%◌, ◌≤◌, ◌<◌, ◌==◌, ◌≡◌, ◌≢◌, ap, ◌∙◌, inl, inr, Bool-cases, Bool,
  true, false, not, Option, none, some, ==_iff, ltb, ltb→lt, arith,
}
use orda_book.Types.{Side, bid, ask}
use orda_book.Ladder.Bitmaps.{
  lowest_bit, highest_bit, is_none, is_zero, Occupied, within, best_up, best_down, best_index,
}
use orda_book.Ladder.Search.{
  Lowest, Highest, lowest_bit-Lowest, highest_below-Highest, bits_of_zero, zero_of_bits,
}
use orda_book.Ladder.Summary.{IsSummary, is_marked}

-- What `best_index` has to find among the levels of `size` words of the second bitmap: the marked
-- level that no other is better than, or that none is marked.
abbrev pub IsBest : Side → ℕ → (ℕ → Bool) → Option ℕ → Type 0
IsBest side size marked none = (i : ℕ) → i < size * 4096 → marked i ≡ false
IsBest ask size marked (some best) =
    (best < size * 4096) × (marked best ≡ true) × ((i : ℕ) → i < best → marked i ≡ false)
IsBest bid size marked (some best) =
    (best < size * 4096)
    × (marked best ≡ true)
    × ((i : ℕ) → best < i → i < size * 4096 → marked i ≡ false)

module _ (occupied : Occupied) (s : IsSummary occupied) where
  -- No level of a word of the first bitmap is marked where the second has no bit.
  unmarked :
      (i : ℕ) → occupied.words (i / 64 / 64) (i / 64 % 64) ≡ false → is_marked occupied i ≡ false
  unmarked i f =
      bits_of_zero (occupied.levels (i / 64)) (s.summary (i / 64) ∙ ap not f) (i % 64) (omega arith)

  -- The word that a bit of the second bitmap leads to has bits.
  pub filled :
      (word bit : ℕ)
      → bit < 64
      → occupied.words word bit ≡ true
      → is_zero (occupied.levels (word * 64 + bit)) ≡ false
  filled word bit b t =
      let w : (word * 64 + bit) / 64 ≡ word = omega arith in
      let c : (word * 64 + bit) % 64 ≡ bit = omega arith in
      s.summary (word * 64 + bit) ∙ rw (w, c, t)

  -- Nothing is marked in a word of the second bitmap that has no bit there.
  unmarked_at :
      (word i : ℕ)
      → i / 4096 ≡ word
      → occupied.words word (i / 64 % 64) ≡ false
      → is_marked occupied i ≡ false
  unmarked_at word i e f = let h : i / 64 / 64 ≡ word = omega arith in unmarked i (rw h f)

  marked_in :
      (place bit : ℕ) → bit < 64 → is_marked occupied (place * 64 + bit) ≡ occupied.levels place bit
  marked_in place bit b =
      let w : (place * 64 + bit) / 64 ≡ place = omega arith in
      let c : (place * 64 + bit) % 64 ≡ bit = omega arith in rw (w, c, is_marked)

  least_in :
      (size word bit : ℕ)
      → word < size
      → ((i : ℕ) → i < word * 4096 → is_marked occupied i ≡ false)
      → Lowest 0 64 (occupied.words word) (some bit)
      → (o : Option ℕ) → Lowest 0 64 (occupied.levels (word * 64 + bit)) o
      → is_none o ≡ false
      → IsBest ask size (is_marked occupied) (within (word * 64 + bit) o)
  least_in size word bit sized below l none m n = cc
  least_in size word bit sized below (_, b, t, l) (some c) (_, d, u, m) n =
      let place = word * 64 + bit in
      (
        omega arith,
        marked_in place c d ∙ u,
        λ i h. elim (Bool-cases (ltb i (word * 4096))) [
          | inl early ↦ below i (ltb→lt i (word * 4096) early)
          | inr late ↦ elim (Bool-cases (i / 64 == place)) [
            | inl same ↦
                let e : i / 64 ≡ place = (==_iff (i / 64) place).0 same in
                rw (e, is_marked) (m (i % 64) (omega arith) (omega arith))
            | inr other ↦
                let n : i / 64 ≢ place = λ e. ground (arith, other, e) in
                let from : word * 4096 ≤ i = ground (arith, late) in
                unmarked_at word i (omega arith) (l (i / 64 % 64) (omega arith) (omega arith))
          ]
        ],
      )

  -- Nothing is marked up to the end of a word of the second bitmap that has no bits.
  below_next :
      (word : ℕ)
      → ((i : ℕ) → i < word * 4096 → is_marked occupied i ≡ false)
      → Lowest 0 64 (occupied.words word) none
      → (i : ℕ) → i < suc word * 4096
      → is_marked occupied i ≡ false
  below_next word below l i b = elim (Bool-cases (ltb i (word * 4096))) [
    | inl early ↦ below i (ltb→lt i (word * 4096) early)
    | inr late ↦
        let from : word * 4096 ≤ i = ground (arith, late) in
        unmarked_at word i (omega arith) (l (i / 64 % 64) (omega arith) (omega arith))
  ]

  least_of :
      (size word : ℕ) (rest : Option ℕ)
      → word < size
      → ((i : ℕ) → i < word * 4096 → is_marked occupied i ≡ false)
      → (((i : ℕ) → i < suc word * 4096 → is_marked occupied i ≡ false)
          → IsBest ask size (is_marked occupied) rest)
      → (o : Option ℕ) → Lowest 0 64 (occupied.words word) o
      → IsBest ask size (is_marked occupied) (elim o [
        | none ↦ rest
        | some bit ↦ within (word * 64 + bit) (lowest_bit (occupied.levels (word * 64 + bit)))
      ])
  least_of size word rest sized below later none l = later (below_next word below l)
  least_of size word rest sized below later (some bit) l =
      least_in size word bit sized below l (lowest_bit (occupied.levels (word * 64 + bit)))
        (lowest_bit-Lowest (occupied.levels (word * 64 + bit))) (filled word bit l.1 l.2)

  best_up-IsBest :
      (left word size : ℕ)
      → word + left ≡ size
      → ((i : ℕ) → i < word * 4096 → is_marked occupied i ≡ false)
      → IsBest ask size (is_marked occupied) (best_up left word occupied)
  unfolding best_up
  best_up-IsBest zero word size e below = λ i b. below i (omega arith)
  best_up-IsBest (suc left) word size e below =
      least_of size word (best_up left (suc word) occupied) (omega arith) below
        (best_up-IsBest left (suc word) size (omega arith)) (lowest_bit (occupied.words word))
        (lowest_bit-Lowest (occupied.words word))

  greatest_in :
      (size word bit : ℕ)
      → word < size
      → ((i : ℕ) → suc word * 4096 ≤ i → i < size * 4096 → is_marked occupied i ≡ false)
      → Highest 64 (occupied.words word) (some bit)
      → (o : Option ℕ) → Highest 64 (occupied.levels (word * 64 + bit)) o
      → is_zero (occupied.levels (word * 64 + bit)) ≡ false
      → IsBest bid size (is_marked occupied) (within (word * 64 + bit) o)
  greatest_in size word bit sized above (b, t, l) none m n =
      let z = zero_of_bits (occupied.levels (word * 64 + bit)) m in cc
  greatest_in size word bit sized above (b, t, l) (some c) (d, u, m) n =
      let place = word * 64 + bit in
      (
        omega arith,
        marked_in place c d ∙ u,
        λ i h k. elim (Bool-cases (ltb i (suc word * 4096))) [
          | inr late ↦ above i (ground (arith, late)) k
          | inl early ↦ elim (Bool-cases (i / 64 == place)) [
            | inl same ↦
                let e : i / 64 ≡ place = (==_iff (i / 64) place).0 same in
                rw (e, is_marked) (m (i % 64) (omega arith) (omega arith))
            | inr other ↦
                let n : i / 64 ≢ place = λ e. ground (arith, other, e) in
                let to = ltb→lt i (suc word * 4096) early in
                unmarked_at word i (omega arith) (l (i / 64 % 64) (omega arith) (omega arith))
          ]
        ],
      )

  above_next :
      (size word : ℕ)
      → ((i : ℕ) → suc word * 4096 ≤ i → i < size * 4096 → is_marked occupied i ≡ false)
      → Highest 64 (occupied.words word) none
      → (i : ℕ) → word * 4096 ≤ i
      → i < size * 4096
      → is_marked occupied i ≡ false
  above_next size word above l i b k = elim (Bool-cases (ltb i (suc word * 4096))) [
    | inr late ↦ above i (ground (arith, late)) k
    | inl early ↦
        let to = ltb→lt i (suc word * 4096) early in
        unmarked_at word i (omega arith) (l (i / 64 % 64) (omega arith))
  ]

  greatest_of :
      (size word : ℕ) (rest : Option ℕ)
      → word < size
      → ((i : ℕ) → suc word * 4096 ≤ i → i < size * 4096 → is_marked occupied i ≡ false)
      → (((i : ℕ) → word * 4096 ≤ i → i < size * 4096 → is_marked occupied i ≡ false)
          → IsBest bid size (is_marked occupied) rest)
      → (o : Option ℕ) → Highest 64 (occupied.words word) o
      → IsBest bid size (is_marked occupied) (elim o [
        | none ↦ rest
        | some bit ↦ within (word * 64 + bit) (highest_bit (occupied.levels (word * 64 + bit)))
      ])
  greatest_of size word rest sized above later none l = later (above_next size word above l)
  greatest_of size word rest sized above later (some bit) l =
      greatest_in size word bit sized above l (highest_bit (occupied.levels (word * 64 + bit)))
        (highest_below-Highest 64 (occupied.levels (word * 64 + bit))) (filled word bit l.0 l.1)

  best_down-IsBest :
      (word size : ℕ)
      → word ≤ size
      → ((i : ℕ) → word * 4096 ≤ i → i < size * 4096 → is_marked occupied i ≡ false)
      → IsBest bid size (is_marked occupied) (best_down word occupied)
  unfolding best_down
  best_down-IsBest zero size e above = λ i b. above i (omega arith) b
  best_down-IsBest (suc word) size e above =
      greatest_of size word (best_down word occupied) (omega arith) above
        (best_down-IsBest word size (omega arith)) (highest_bit (occupied.words word))
        (highest_below-Highest 64 (occupied.words word))

-- Where the second bitmap keeps to the first, `best_index` finds the lowest marked level for asks and the highest for
-- bids, or none if no level is marked.
pub best_index-IsBest :
    (side : Side) (size : ℕ) (occupied : Occupied)
    → IsSummary occupied
    → IsBest side size (is_marked occupied) (best_index side size occupied)
unfolding best_index
best_index-IsBest ask size occupied s =
    best_up-IsBest occupied s size 0 size (omega arith) (λ i b. absurd (omega arith))
best_index-IsBest bid size occupied s =
    best_down-IsBest occupied s size size (omega arith) (λ i a b. absurd (omega arith))
