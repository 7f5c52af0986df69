-- ===== src/Ladder/Ending.antt =====
-- The outer loop of `match_incoming` in src/ladder_order_book.cpp comes to its end.
use orda_book.Prelude.{
  ℕ, zero, suc, ◌*◌, ◌≤◌, ◌<◌, ltb, ltb→lt, ◌≡◌, refl, sym, subst, ◌⊎◌, inl, inr, Bool-cases,
  if◌then◌else◌, Bool, true, false, ◌&&◌, Option, none, some, List, length, arith,
}
use orda_book.Types.{Price, Side, bid, ask, Trade}
use orda_book.Engine.{opposite, crosses}
use orda_book.Ladder.Bitmaps.{Occupied, clear_occupied, best_index}
use orda_book.Ladder.State.{
  PriceLevel, LadderOrderBook, side_occupied, with_occupied, price_at, is_empty,
}
use orda_book.Ladder.Matching.{Matching, match_orders, clear_if_empty, match_levels, match_incoming}
use orda_book.Ladder.Summary.{is_marked}
use orda_book.Ladder.Best.{IsBest, best_index-IsBest}
use orda_book.Ladder.Rounds.{Done, match_orders-Done}
use orda_book.Ladder.Stock.{IsStocked, IsReady, kept-IsStocked, cleared-IsStocked}

module _ (min_price : Price) (price : Price) where
  -- The levels past the best one cross no more than it.
  no_more :
      (incoming_side : Side) (size best : ℕ) (marked : ℕ → Bool) (levels : ℕ → PriceLevel)
      → ((i : ℕ) → (levels i).price ≡ price_at min_price i)
      → IsBest (opposite incoming_side) size marked (some best)
      → crosses incoming_side price (levels best).price ≡ false
      → (i : ℕ) → i < size * 4096
      → marked i ≡ true
      → crosses incoming_side price (levels i).price ≡ false
  unfolding crosses
  no_more bid size best marked levels priced (b, t, l) c i h m =
      let le : best ≤ i = elim (Bool-cases (ltb i best)) [
        | inl early ↦ let f = l i (ltb→lt i best early) in absurd cc
        | inr late ↦ ground (arith, late)
      ] in
      let d = rw (priced best) at c in rw (priced i) (ground (arith, d))
  no_more ask size best marked levels priced (b, t, l) c i h m =
      let le : i ≤ best = elim (Bool-cases (ltb best i)) [
        | inl past ↦ let f = l i (ltb→lt best i past) h in absurd cc
        | inr late ↦ ground (arith, late)
      ] in
      let d = rw (priced best) at c in rw (priced i) (ground (arith, d))

module _ (min_price : Price) (side : Side) (price : Price) where
  -- No marked level of the other side crosses the price.
  abbrev pub NoneCrosses : LadderOrderBook → Type 0
  NoneCrosses book =
      (i : ℕ)
      → i < book.size * 4096
      → is_marked (side_occupied (opposite side) book) i ≡ true
      → crosses side price (book.levels i).price ≡ false

  abbrev pub IsEnded : Matching → Type 0
  IsEnded state =
      IsStocked min_price (side_occupied (opposite side) state.book) state.book.levels
      × ((state.incoming_qty ≡ 0) ⊎ NoneCrosses state.book)

-- The marks of a side, which matching at a level leaves alone.
same_occupied :
    (side : Side) (index : ℕ) (before after : Matching)
    → Done index before after
    → side_occupied side after.book ≡ side_occupied side before.book
same_occupied bid index before after d = d.same_bids
same_occupied ask index before after d = d.same_asks

-- What `with_occupied` writes and what it leaves.
occupied_here :
    (side : Side) (occupied : Occupied) (book : LadderOrderBook)
    → side_occupied side (with_occupied side occupied book) ≡ occupied
occupied_here bid occupied book = refl
occupied_here ask occupied book = refl

same_levels :
    (side : Side) (occupied : Occupied) (book : LadderOrderBook)
    → (with_occupied side occupied book).levels ≡ book.levels
same_levels bid occupied book = refl
same_levels ask occupied book = refl

module _ (min_price : Price) (side : Side) (index : ℕ) (before after : Matching)
    (d : Done index before after)
    (s : IsStocked min_price (side_occupied side before.book) before.book.levels) where
  -- The body of the outer loop keeps the levels and the marks.
  clear_if_empty-IsStocked :
      (id : ℕ) (incoming_side : Side) (price : Price)
      → let round = clear_if_empty id incoming_side price side index after in
        IsStocked min_price (side_occupied side round.book) round.book.levels
  clear_if_empty-IsStocked id incoming_side price =
      let occupied = side_occupied side after.book in
      let stocked : IsStocked min_price occupied before.book.levels =
        subst (λ o. IsStocked min_price o before.book.levels)
          (sym (same_occupied side index before after d)) s in
      elim (Bool-cases (is_empty (after.book.levels index).orders)) [
        | inl e ↦
            rw
              (
                e,
                occupied_here side (clear_occupied index occupied) after.book,
                same_levels side (clear_occupied index occupied) after.book,
              )
              (cleared-IsStocked min_price index before.book.levels after.book.levels d.others
                d.same_price d.positive occupied stocked)
        | inr n ↦ rw n (
            kept-IsStocked min_price index before.book.levels after.book.levels d.others
              d.same_price d.positive occupied n stocked)
      ]

module _ (id : ℕ) (min_price : Price) (side : Side) (price : Price) where
  abbrev round : ℕ → Matching → Matching
  round best state =
      clear_if_empty id side price (opposite side) best
        (match_orders id side price (length (state.book.levels best).orders) best state)

  best_marked :
      (incoming_side : Side) (size best : ℕ) (marked : ℕ → Bool)
      → IsBest (opposite incoming_side) size marked (some best)
      → marked best ≡ true
  best_marked bid size best marked b = b.1
  best_marked ask size best marked b = b.1

  -- What the loop does where `best_index` is known, if the other rounds come to their end.
  found_IsEnded :
      (state : Matching) (rest : ℕ → Matching) (o : Option ℕ)
      → IsBest
          (opposite side)
          state.book.size
          (is_marked (side_occupied (opposite side) state.book))
          o
      → IsStocked min_price (side_occupied (opposite side) state.book) state.book.levels
      → ((best : ℕ)
          → is_marked (side_occupied (opposite side) state.book) best ≡ true
          → 0 < state.incoming_qty
          → IsEnded min_price side price (rest best))
      → IsEnded min_price side price (elim o [
        | none ↦ state
        | some best ↦
            if ltb 0 state.incoming_qty && crosses side price (state.book.levels best).price
            then rest best
            else state
      ])
  found_IsEnded state rest none l s later = (s, inr (λ i h m. let f = l i h in absurd cc))
  found_IsEnded state rest (some best) l s later =
      let marked = is_marked (side_occupied (opposite side) state.book) in
      elim (Bool-cases (ltb 0 state.incoming_qty)) [
        | inr f ↦ rw f (s, inl (ground (arith, f)))
        | inl t ↦ elim (Bool-cases (crosses side price (state.book.levels best).price)) [
          | inl c ↦
              rw (t, c)
                (later best (best_marked side state.book.size best marked l)
                  (ltb→lt 0 state.incoming_qty t))
          | inr n ↦
              rw (t, n)
                (
                  s,
                  inr (
                      no_more min_price price side state.book.size best marked state.book.levels
                        s.priced l n),
                )
        ]
      ]

  match_levels-IsEnded :
      (fuel : ℕ) (state : Matching)
      → state.incoming_qty ≤ fuel
      → IsStocked min_price (side_occupied (opposite side) state.book) state.book.levels
      → IsEnded min_price side price (match_levels id side price fuel state)
  unfolding match_levels
  match_levels-IsEnded zero state b s = (s, inl (omega arith))
  match_levels-IsEnded (suc fuel) state b s =
      let resting_side = opposite side in
      let book = state.book in
      found_IsEnded state (λ best. match_levels id side price fuel (round best state))
        (best_index resting_side book.size (side_occupied resting_side book))
        (best_index-IsBest resting_side book.size (side_occupied resting_side book) s.summary) s
        (λ best m some_left.
          let d =
            match_orders-Done id side price (length (book.levels best).orders) best state
              (omega arith) (s.positive best) in
          let used = d.used some_left (s.stocked best m) in
          match_levels-IsEnded fuel (round best state) (omega (arith, used))
            (clear_if_empty-IsStocked min_price resting_side best state _ d s id side price))

-- Matching at any price and quantity comes to its end where the other side of the book is ready: where its
-- second bitmap keeps to the first, its marked levels have orders, no order is of quantity 0 and the
-- prices go up by one. It leaves nothing of the incoming quantity, or no marked level of the other side
-- crosses the price; and the other side is as ready as before.
pub match_incoming-IsEnded :
    (id : ℕ) (side : Side) (price : Price) (qty : ℕ) (book : LadderOrderBook) (trades : List Trade)
    → IsReady (opposite side) book
    → IsEnded book.min_price side price (match_incoming id side price qty book trades)
unfolding match_incoming
match_incoming-IsEnded id side price qty book trades s =
    match_levels-IsEnded id book.min_price side price qty
      (record { incoming_qty = qty; book = book; trades = trades }) (omega arith) s
