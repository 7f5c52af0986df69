-- ===== src/Pooled/Matching.antt =====
-- `max_crossing_qty` and `match_incoming` of src/pooled_order_book.cpp. The source writes each loop
-- twice, over the asks and over the bids; here the side is an argument.
pub mod Drop
pub mod Tracks
pub mod Fill
pub mod Rounds
pub mod Walk
pub mod Sweep
pub mod Incoming
use orda_book.Prelude.{
  ℕ, zero, suc, ◌+◌, ◌-◌, min, ltb, ◌==◌, if◌then◌else◌, ◌&&◌, not, List, [], ◌∷◌, ◌++◌,
}
use orda_book.Types.{Price, Side, Trade, EngineStats}
use orda_book.Engine.{opposite, crosses, count_trade}
use orda_book.Pooled.State.{
  SlotIndex, SlotArray, write, PriceLevel, Pool, SlotMap, PooledOrderBook, side_levels, with_levels,
  erase_slot,
}
use orda_book.Pooled.Slots.{release_slot}

unfoldable pub crossing_loop : Side → Price → ℕ → ℕ → List PriceLevel → ℕ
crossing_loop incoming_side incoming_price incoming_qty crossing_qty [] = crossing_qty
crossing_loop incoming_side incoming_price incoming_qty crossing_qty (level ∷ levels) =
    let added = crossing_qty + min (incoming_qty - crossing_qty) level.total_qty in
    let rest = crossing_loop incoming_side incoming_price incoming_qty added levels in
    if not (crosses incoming_side incoming_price level.price)
    then crossing_qty
    else if added == incoming_qty
    then added
    else rest

unfoldable pub max_crossing_qty : Side → Price → ℕ → PooledOrderBook → ℕ
max_crossing_qty incoming_side incoming_price incoming_qty book =
    crossing_loop incoming_side incoming_price incoming_qty 0
      (side_levels (opposite incoming_side) book)

-- What the loops of `match_incoming` change beside the levels.
pub record Matching : Type 0 where
  pub incoming_qty : ℕ
  pub pool : Pool
  pub order_index : SlotMap
  pub stats : EngineStats
  pub trades : List Trade

-- A filled order leaves the head of its level, and its slot becomes free.
unfoldable pub drop_front : SlotIndex → PriceLevel → Pool → PriceLevel × Pool
unfolding write release_slot
drop_front slot level pool =
    let next = (pool.slots slot).next in
    let slots =
      if not (next == 0)
      then write next (record (pool.slots next) { prev = 0 }) pool.slots
      else pool.slots in
    (
      record level {
        head = next;
        tail = if level.tail == slot then 0 else level.tail;
        order_count = level.order_count - 1;
      },
      release_slot slot (record pool { slots = slots }),
    )

-- The variables that the loops only read.
module _ (incoming_order_id : ℕ) (incoming_side : Side) (incoming_price : Price) where
  -- The body of the inner loop.
  unfoldable pub fill_front : PriceLevel → Matching → PriceLevel × Matching
  unfolding write drop_front
  fill_front level state =
      let slot = level.head in
      let resting = state.pool.slots slot in
      let fill_qty = min state.incoming_qty resting.qty in
      let left_qty = resting.qty - fill_qty in
      let trade : Trade = record {
        resting_order_id = resting.order_id;
        incoming_order_id = incoming_order_id;
        price = resting.price;
        qty = fill_qty;
        aggressor_side = incoming_side;
      } in
      let filled : PriceLevel = record level { total_qty = level.total_qty - fill_qty } in
      let pool : Pool = record state.pool {
        slots = write slot (record resting { qty = left_qty }) state.pool.slots;
      } in
      let dropped = drop_front slot filled pool in
      (
        if left_qty == 0 then dropped.0 else filled,
        record {
          incoming_qty = state.incoming_qty - fill_qty;
          pool = if left_qty == 0 then dropped.1 else pool;
          order_index =
              if left_qty == 0
              then erase_slot resting.order_id state.order_index
              else state.order_index;
          stats = count_trade fill_qty state.stats;
          trades = state.trades ++ (trade ∷ []);
        },
      )

  -- The inner loop. Each round but the last takes an order off the level, so the count of the level
  -- is fuel enough.
  unfoldable pub match_orders : ℕ → PriceLevel → Matching → PriceLevel × Matching
  unfolding fill_front
  match_orders zero level state = (level, state)
  match_orders (suc fuel) level state =
      let step = fill_front level state in
      let rest = match_orders fuel step.0 step.1 in
      if ltb 0 state.incoming_qty && not (level.head == 0) then rest else (level, state)

  -- The outer loop, from a level on. A level that is left without orders is erased.
  unfoldable pub match_levels : List PriceLevel → Matching → List PriceLevel × Matching
  match_levels [] state = ([], state)
  match_levels (level ∷ levels) state =
      let step = match_orders level.order_count level state in
      let rest = match_levels levels step.1 in
      let kept = if step.0.order_count == 0 then rest.0 else step.0 ∷ rest.0 in
      if ltb 0 state.incoming_qty && crosses incoming_side incoming_price level.price
      then (kept, rest.1)
      else (level ∷ levels, state)

-- The remaining quantity, the book and the trades.
unfoldable pub match_incoming :
    ℕ → Side → Price → ℕ → PooledOrderBook → List Trade → ℕ × PooledOrderBook × List Trade
match_incoming incoming_order_id incoming_side incoming_price incoming_qty book trades =
    let state : Matching = record {
      incoming_qty = incoming_qty;
      pool = book.pool;
      order_index = book.order_index;
      stats = book.stats;
      trades = trades;
    } in
    let resting_side = opposite incoming_side in
    let (levels, final) =
      match_levels incoming_order_id incoming_side incoming_price (side_levels resting_side book)
        state in
    (
      final.incoming_qty,
      record (with_levels resting_side levels book) {
        pool = final.pool;
        order_index = final.order_index;
        stats = final.stats;
      },
      final.trades,
    )
