-- ===== src/Ladder/Twice.antt =====
-- What `max_crossing_qty` of src/ladder_order_book.cpp counts for a sell: the loops take the highest bit of a
-- word and clear the lowest.
use orda_book.Prelude.{
  ℕ, zero, suc, ◌+◌, ◌-◌, ◌<◌, min, ◌==◌, ==_iff, ltb, ltb→lt, ◌≡◌, ◌≢◌, refl, ap, ◌∙◌, inl, inr,
  Bool-cases, if◌then◌else◌, true, false, Option, none, some, arith,
}
use orda_book.Types.{Price, ask}
use orda_book.Engine.{crosses}
use orda_book.Ladder.Bitmaps.{Word, clear_at, clear_bit, lowest_bit, highest_bit, clear_lowest}
use orda_book.Ladder.State.{PriceLevel}
use orda_book.Ladder.Matching.{returned, counted, crossing_qty_of, level_loop}
use orda_book.Ladder.Search.{Highest, Lowest, highest_below-Highest, lowest_bit-Lowest}

pub highest_is :
    (word : Word) (hi : ℕ)
    → hi < 64
    → word hi ≡ true
    → ((i : ℕ) → hi < i → i < 64 → word i ≡ false)
    → highest_bit word ≡ some hi
highest_is word hi b t above = go (highest_bit word) (highest_below-Highest 64 word)
  where
    go : (o : Option ℕ) → Highest 64 word o → o ≡ some hi
    go none l = let f = l hi b in cc
    go (some k) (c, u, l) = elim (Bool-cases (ltb k hi)) [
      | inl lt ↦ let f = l hi (ltb→lt k hi lt) b in cc
      | inr ge ↦ elim (Bool-cases (k == hi)) [
        | inl e ↦ ap some ((==_iff k hi).0 e)
        | inr n ↦ let f = above k (ground (arith, ge, n)) c in cc
      ]
    ]

pub highest_is_none : (word : Word) → ((i : ℕ) → i < 64 → word i ≡ false) → highest_bit word ≡ none
highest_is_none word f = go (highest_bit word) (highest_below-Highest 64 word)
  where
    go : (o : Option ℕ) → Highest 64 word o → o ≡ none
    go none l = refl
    go (some k) (c, u, l) = let e = f k c in cc

pub lowest_is :
    (word : Word) (lo : ℕ)
    → lo < 64
    → word lo ≡ true
    → ((i : ℕ) → i < lo → word i ≡ false)
    → lowest_bit word ≡ some lo
lowest_is word lo b t below = go (lowest_bit word) (lowest_bit-Lowest word)
  where
    go : (o : Option ℕ) → Lowest 0 64 word o → o ≡ some lo
    go none l = let f = l lo (omega arith) b in cc
    go (some k) (_, c, u, l) = elim (Bool-cases (ltb lo k)) [
      | inl lt ↦ let f = l lo (omega arith) (ltb→lt lo k lt) in cc
      | inr ge ↦ elim (Bool-cases (k == lo)) [
        | inl e ↦ ap some ((==_iff k lo).0 e)
        | inr n ↦ let f = below k (ground (arith, ge, n)) in cc
      ]
    ]

pub clear_lowest_is :
    (word : Word) (lo : ℕ) → lowest_bit word ≡ some lo → clear_lowest word ≡ clear_bit lo word
unfolding clear_lowest
clear_lowest_is word lo e = ap (λ o. clear_at o word) e

clear_there : (i k : ℕ) (word : Word) → i ≢ k → clear_bit k word i ≡ word i
unfolding clear_bit
clear_there i k word n = ground (arith, n)

pub clear_false : (i k : ℕ) (word : Word) → (i ≢ k → word i ≡ false) → clear_bit k word i ≡ false
unfolding clear_bit
clear_false i k word f = elim (Bool-cases (i == k)) [
  | inl e ↦ rw e
  | inr n ↦ rw n (f (λ e. ground (arith, n, e)))
]

-- One round of the loop at a level that an order crosses.
level_round :
    (price : Price) (qty : ℕ) (levels : ℕ → PriceLevel) (left base crossing_qty : ℕ) (bits : Word)
    (hi : ℕ)
    → highest_bit bits ≡ some hi
    → crosses ask price (levels (base + hi)).price ≡ true
    → let added = crossing_qty + min (qty - crossing_qty) (levels (base + hi)).total_qty in
      level_loop ask price qty levels (suc left) base bits crossing_qty ≡ (
        if added == qty
        then returned added
        else level_loop ask price qty levels left base (clear_lowest bits) added)
unfolding level_loop
level_round price qty levels left base crossing_qty bits hi h c = rw (h, level_loop, c)

level_end :
    (price : Price) (qty : ℕ) (levels : ℕ → PriceLevel) (left base crossing_qty : ℕ) (bits : Word)
    → highest_bit bits ≡ none
    → level_loop ask price qty levels left base bits crossing_qty ≡ counted crossing_qty
unfolding level_loop
level_end price qty levels zero base crossing_qty bits h = refl
level_end price qty levels (suc left) base crossing_qty bits h = rw (h, level_loop)

twice_min :
    (price : Price) (qty : ℕ) (levels : ℕ → PriceLevel) (left base : ℕ) (bits next last : Word)
    (hi : ℕ)
    → highest_bit bits ≡ some hi
    → highest_bit next ≡ some hi
    → highest_bit last ≡ none
    → clear_lowest bits ≡ next
    → clear_lowest next ≡ last
    → crosses ask price (levels (base + hi)).price ≡ true
    → crossing_qty_of (level_loop ask price qty levels (suc (suc left)) base bits 0)
      ≡ min qty ((levels (base + hi)).total_qty + (levels (base + hi)).total_qty)
twice_min price qty levels left base bits next last hi h k l b c x =
    let t = (levels (base + hi)).total_qty in
    let first : ℕ = 0 + min (qty - 0) t in
    let second : ℕ = first + min (qty - first) t in
    rw (level_round price qty levels (suc left) base 0 bits hi h x)
      (elim (Bool-cases (first == qty)) [
        | inl e ↦ rw e (let f = (==_iff first qty).0 e in omega arith)
        | inr n ↦
            rw (n, b, level_round price qty levels left base first next hi k x)
              (elim (Bool-cases (second == qty)) [
                | inl e ↦ rw e (let f = (==_iff second qty).0 e in omega arith)
                | inr m ↦
                    rw (m, c, level_end price qty levels left base second last l)
                      (ground (arith, n, m))
              ])
      ])

-- A sell that crosses the higher of the two marked levels of a word, whatever the lower: the loop over the word
-- counts what the higher level holds twice, up to the quantity of the sell, and never what the
-- lower level holds.
pub level_loop-counts_twice :
    (price : Price) (qty : ℕ) (levels : ℕ → PriceLevel) (base lo hi : ℕ) (bits : Word)
    → lo < hi
    → hi < 64
    → bits lo ≡ true
    → bits hi ≡ true
    → ((i : ℕ) → i < 64 → i ≢ lo → i ≢ hi → bits i ≡ false)
    → crosses ask price (levels (base + hi)).price ≡ true
    → crossing_qty_of (level_loop ask price qty levels 64 base bits 0)
      ≡ min qty ((levels (base + hi)).total_qty + (levels (base + hi)).total_qty)
level_loop-counts_twice price qty levels base lo hi bits order fits low high others x =
    let next = clear_bit lo bits in
    let last = clear_bit hi next in
    let next_high : next hi ≡ true = clear_there hi lo bits (omega arith) ∙ high in
    let next_others : (i : ℕ) → i < 64 → i ≢ hi → next i ≡ false =
      λ i b n. clear_false i lo bits (λ m. others i b m n) in
    twice_min price qty levels 62 base bits next last hi
      (highest_is bits hi fits high (λ i a b. others i b (omega arith) (omega arith)))
      (highest_is next hi fits next_high (λ i a b. next_others i b (omega arith)))
      (highest_is_none last (λ i b. clear_false i hi next (next_others i b)))
      (clear_lowest_is bits lo (
        lowest_is bits lo (omega arith) low
          (λ i b. others i (omega arith) (omega arith) (omega arith))))
      (clear_lowest_is next hi
        (lowest_is next hi fits next_high (λ i b. next_others i (omega arith) (omega arith))))
      x
