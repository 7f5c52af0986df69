-- ===== src/OrderBook/Matching.antt =====
-- Matching: `max_crossing_qty` and `match_incoming` of src/order_book.cpp. The source writes each
-- loop twice, over the asks and over the bids; here the side is an argument.
pub mod Level
pub mod Walk
pub mod Keeps
pub mod Crossing
pub mod Refines
use orda_book.Prelude.{
  ℕ, zero, suc, ◌+◌, ◌-◌, min, ltb, ◌==◌, if◌then◌else◌, ◌&&◌, not, List, [], ◌∷◌, ◌++◌, length,
}
use orda_book.Types.{Price, Side, Trade, EngineStats}
use orda_book.Engine.{opposite, crosses, count_trade}
use orda_book.OrderBook.State.{
  Order, PriceLevel, OrderIndex, OrderBook, side_levels, with_levels, erase_location,
}
use orda_book.OrderBook.Levels.{is_empty}

-- The loop of `max_crossing_qty`, from a level on.
unfoldable pub crossing_loop : Side → Price → ℕ → ℕ → List PriceLevel → ℕ
crossing_loop incoming_side incoming_price incoming_qty crossing_qty [] = crossing_qty
crossing_loop incoming_side incoming_price incoming_qty crossing_qty (level ∷ levels) =
    let added = crossing_qty + min (incoming_qty - crossing_qty) level.total_qty in
    let rest = crossing_loop incoming_side incoming_price incoming_qty added levels in
    if not (crosses incoming_side incoming_price level.price)
    then crossing_qty
    else if added == incoming_qty
    then added
    else rest

unfoldable pub max_crossing_qty : Side → Price → ℕ → OrderBook → ℕ
max_crossing_qty incoming_side incoming_price incoming_qty book =
    crossing_loop incoming_side incoming_price incoming_qty 0
      (side_levels (opposite incoming_side) book)

-- What the loops of `match_incoming` change beside the levels.
pub record Matching : Type 0 where
  pub incoming_qty : ℕ
  pub order_index : OrderIndex
  pub stats : EngineStats
  pub trades : List Trade

-- The variables that the loops only read.
module _ (incoming_order_id : ℕ) (incoming_side : Side) (incoming_price : Price) where
  -- The body of the inner loop, at a level whose list is `resting ∷ orders`.
  unfoldable pub fill_front : Order → List Order → PriceLevel → Matching → PriceLevel × Matching
  fill_front resting orders level state =
      let fill_qty = min state.incoming_qty resting.qty in
      let left_qty = resting.qty - fill_qty in
      let trade : Trade = record {
        resting_order_id = resting.order_id;
        incoming_order_id = incoming_order_id;
        price = resting.price;
        qty = fill_qty;
        aggressor_side = incoming_side;
      } in
      let filled = left_qty == 0 in
      (
        record level {
          total_qty = level.total_qty - fill_qty;
          orders = if filled then orders else record resting { qty = left_qty } ∷ orders;
        },
        record state {
          incoming_qty = state.incoming_qty - fill_qty;
          order_index =
              if filled
              then erase_location resting.order_id state.order_index
              else state.order_index;
          stats = count_trade fill_qty state.stats;
          trades = state.trades ++ (trade ∷ []);
        },
      )

  -- The inner loop. Each round but the last takes an order off the list, so the length of the list
  -- is fuel enough.
  unfoldable pub match_orders : ℕ → PriceLevel → Matching → PriceLevel × Matching
  unfolding fill_front
  match_orders zero level state = (level, state)
  match_orders (suc fuel) level state = elim level.orders [
    | [] ↦ (level, state)
    | resting ∷ orders ↦
        let step = fill_front resting orders level state in
        let rest = match_orders fuel step.0 step.1 in
        if ltb 0 state.incoming_qty then rest else (level, state)
  ]

  -- The outer loop, from a level on. A level that is left empty is erased.
  unfoldable pub match_levels : List PriceLevel → Matching → List PriceLevel × Matching
  match_levels [] state = ([], state)
  match_levels (level ∷ levels) state =
      let step = match_orders (length level.orders) level state in
      let rest = match_levels levels step.1 in
      let kept = if is_empty step.0.orders then rest.0 else step.0 ∷ rest.0 in
      if ltb 0 state.incoming_qty && crosses incoming_side incoming_price level.price
      then (kept, rest.1)
      else (level ∷ levels, state)

-- The remaining quantity, the book and the trades.
unfoldable pub match_incoming :
    ℕ → Side → Price → ℕ → OrderBook → List Trade → ℕ × OrderBook × List Trade
match_incoming incoming_order_id incoming_side incoming_price incoming_qty book trades =
    let state : Matching = record {
      incoming_qty = incoming_qty;
      order_index = book.order_index;
      stats = book.stats;
      trades = trades;
    } in
    let resting_side = opposite incoming_side in
    let (levels, final) =
      match_levels incoming_order_id incoming_side incoming_price (side_levels resting_side book)
        state in
    (
      final.incoming_qty,
      record (with_levels resting_side levels book) {
        order_index = final.order_index;
        stats = final.stats;
      },
      final.trades,
    )
