-- ===== src/OrderBook/Matching/Keeps.antt =====
-- The walk of `match_incoming` leaves well-formed levels.
use orda_book.Prelude.{
  ℕ, ◌<◌, ltb, Bool-cases, ◌≡◌, inl, inr, true, false, ◌&&◌, List, [], ◌∷◌, All-mono, length, arith,
}
use orda_book.Types.{Price, Side}
use orda_book.Engine.{crosses, ahead}
use orda_book.Priority.Fills.{total-left}
use orda_book.OrderBook.State.{Order, PriceLevel}
use orda_book.OrderBook.Levels.{is_empty}
use orda_book.OrderBook.View.{level_orders}
use orda_book.OrderBook.Invariant.{IsResting, IsLevel, AreLevels, Behind}
use orda_book.OrderBook.Matching.{Matching, match_orders, match_levels}
use orda_book.OrderBook.Matching.Level.{match_orders-IsAfter, match_orders-All}
use orda_book.OrderBook.Matching.Walk.{kept, match_levels_round, match_levels_stop}

module _ (id : ℕ) (side : Side) (price : Price) where
  IsResting-fill :
      (resting_side : Side) (at : Price) (o : Order) (qty : ℕ)
      → IsResting resting_side at o
      → 0 < qty
      → IsResting resting_side at (record o { qty = qty })
  IsResting-fill resting_side at o qty r h = record {
    on_side = r.on_side;
    at_price = r.at_price;
    positive = h;
  }

  kept-Behind :
      (resting_side : Side) (at : Price) (level : PriceLevel) (rest : List PriceLevel)
      → ahead resting_side at level.price ≡ true
      → Behind resting_side at rest
      → Behind resting_side at (kept id side price level rest)
  unfolding kept
  kept-Behind resting_side at level rest h b = elim (Bool-cases (is_empty level.orders)) [
    | inl e ↦ rw e b
    | inr n ↦ rw n (h, b)
  ]

  kept-AreLevels :
      (resting_side : Side) (level : PriceLevel) (rest : List PriceLevel)
      → (is_empty level.orders ≡ false → IsLevel resting_side level)
      → Behind resting_side level.price rest
      → AreLevels resting_side rest
      → AreLevels resting_side (kept id side price level rest)
  unfolding kept
  kept-AreLevels resting_side level rest v b vs = elim (Bool-cases (is_empty level.orders)) [
    | inl e ↦ rw e vs
    | inr n ↦ rw n (v n, b, vs)
  ]

  step-IsLevel :
      (resting_side : Side) (level : PriceLevel) (state : Matching)
      → crosses side price level.price ≡ true
      → IsLevel resting_side level
      → let step = match_orders id side price (length level.orders) level state in
        (step.0.price ≡ level.price)
        × (is_empty step.0.orders ≡ false → IsLevel resting_side step.0)
  step-IsLevel resting_side level state c v =
      let step = match_orders id side price (length level.orders) level state in
      let s =
        match_orders-IsAfter id side price (length level.orders) level.price level.total_qty
          level.orders state (omega arith) (All-mono _ _ (λ o r. r.at_price) level.orders v.resting)
          c in
      let all =
        match_orders-All id side price (IsResting resting_side level.price)
          (IsResting-fill resting_side level.price) (length level.orders) level.price
          level.total_qty level.orders state v.resting in
      let conserved =
        total-left side price id state.incoming_qty (level_orders level.price level.orders) in
      (
        s.at_price,
        λ n. record {
          occupied = n;
          priced = rw s.at_price v.priced;
          resting = rw s.at_price all;
          counted = rw (s.at_price, s.queue) (omega (arith, s.at_total, v.counted, conserved));
          bounded = omega (arith, s.at_total, v.bounded);
        },
      )

  -- Levels only go, and none changes its price.
  match_levels-Behind :
      (resting_side : Side) (at : Price) (levels : List PriceLevel) (state : Matching)
      → AreLevels resting_side levels
      → Behind resting_side at levels
      → Behind resting_side at (match_levels id side price levels state).0
  match_levels-Behind resting_side at [] state v b = unfold match_levels in tt
  match_levels-Behind resting_side at (level ∷ levels) state (v, _, vs) (h, b) =
      elim (Bool-cases (ltb 0 state.incoming_qty && crosses side price level.price)) [
        | inr stop ↦ rw (match_levels_stop id side price level levels state stop) (h, b)
        | inl more ↦
            let step = match_orders id side price (length level.orders) level state in
            let (p, _) = step-IsLevel resting_side level state (ground (arith, more)) v in
            rw (match_levels_round id side price level levels state more) (
              kept-Behind resting_side at step.0 _ (rw p h)
                (match_levels-Behind resting_side at levels step.1 vs b))
      ]

  pub match_levels-AreLevels :
      (resting_side : Side) (levels : List PriceLevel) (state : Matching)
      → AreLevels resting_side levels
      → AreLevels resting_side (match_levels id side price levels state).0
  match_levels-AreLevels resting_side [] state v = unfold match_levels in tt
  match_levels-AreLevels resting_side (level ∷ levels) state (v, b, vs) =
      elim (Bool-cases (ltb 0 state.incoming_qty && crosses side price level.price)) [
        | inr stop ↦ rw (match_levels_stop id side price level levels state stop) (v, b, vs)
        | inl more ↦
            let step = match_orders id side price (length level.orders) level state in
            let (p, u) = step-IsLevel resting_side level state (ground (arith, more)) v in
            rw (match_levels_round id side price level levels state more) (
              kept-AreLevels resting_side step.0 _ u
                (rw p (match_levels-Behind resting_side level.price levels step.1 vs b))
                (match_levels-AreLevels resting_side levels step.1 vs))
      ]
