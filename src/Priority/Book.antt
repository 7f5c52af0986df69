-- ===== src/Priority/Book.antt =====
-- The engine that price-time priority asks for: two queues and the counters. The baseline engine
-- is proved to refine it.
use orda_book.Prelude.{
  ℕ, ◌+◌, ◌-◌, min, ltb, ◌==◌, if◌then◌else◌, Bool, true, ◌&&◌, ◌||◌, not, List, ◌++◌,
}
use orda_book.Prelude.Int.{ℤ, pos_part}
use orda_book.Types.{
  Price, Side, bid, ask, OrderType, TimeInForce, EventType, add, cancel, modify, Event, Trade,
  OrderSnapshot, EngineStats, BookError, unknown_order_id, duplicate_order_id, invalid_price,
  invalid_quantity, quantity_overflow, insufficient_liquidity, would_take_liquidity,
}
use orda_book.Engine.{
  opposite, quantity_add_would_overflow, is_valid_price, is_valid_qty, is_market,
  is_good_til_cancel, is_fill_or_kill, effective_price, effective_time_in_force, count_add,
  count_cancel, count_modify, count_rejected,
}
use orda_book.Priority.{
  available, fills, left, rest_order, withdraw, count_id, total_at, count_trades,
}

pub record Queues : Type 0 where
  pub bids : List OrderSnapshot
  pub asks : List OrderSnapshot
  pub stats : EngineStats

abbrev pub queue : Side → Queues → List OrderSnapshot
queue bid q = q.bids
queue ask q = q.asks

abbrev pub with_queue : Side → List OrderSnapshot → Queues → Queues
with_queue bid xs q = record q { bids = xs }
with_queue ask xs q = record q { asks = xs }

pub record Result : Type 0 where
  pub error : BookError
  pub queues : Queues
  pub trades : List Trade

abbrev pub refuse : BookError → Queues → List Trade → Result
refuse error q trades = record {
  error = error;
  queues = record q { stats = count_rejected q.stats };
  trades = trades;
}

abbrev pub is_live : ℕ → Queues → Bool
is_live id q = not (count_id id q.bids + count_id id q.asks == 0)

-- The side on which an id rests.
abbrev pub side_of : ℕ → Queues → Side
side_of id q = if count_id id q.bids == 0 then ask else bid

module _ (id : ℕ) (side : Side) (price : Price) (qty : ℕ) where
  -- The opposite queue after the trades.
  abbrev pub matched : Queues → Queues
  matched q =
      let other = queue (opposite side) q in
      with_queue (opposite side) (left side price qty other)
        (record q { stats = count_trades (fills side price id qty other) q.stats })

  abbrev pub new : ℕ → OrderSnapshot
  new rest = record { order_id = id; side = side; price = price; qty = rest }

  -- Trade what can be traded; what is left may rest.
  unfoldable pub enter : Bool → Queues → List Trade → Result
  enter can_rest q trades =
      let other = queue (opposite side) q in
      let rest = qty - available side price other in
      record {
        error = BookError.none;
        queues =
            if ltb 0 rest && can_rest
            then with_queue side (rest_order side (new rest) (queue side q)) (matched q)
            else matched q;
        trades = trades ++ fills side price id qty other;
      }

  unfoldable pub enter_checked : Bool → TimeInForce → Bool → Queues → List Trade → Result
  enter_checked market time_in_force post_only q trades =
      let crossing = min qty (available side price (queue (opposite side) q)) in
      let can_rest = not market && is_good_til_cancel time_in_force in
      if is_fill_or_kill time_in_force && ltb crossing qty
      then refuse insufficient_liquidity q trades
      else if post_only && not (crossing == 0)
      then refuse would_take_liquidity q trades
      else if (can_rest
            && quantity_add_would_overflow (total_at price (queue side q)) (qty - crossing))
          || quantity_add_would_overflow q.stats.traded_qty crossing
      then refuse quantity_overflow q trades
      else enter can_rest q trades

unfoldable pub add_to :
    ℕ → Side → Price → ℤ → OrderType → TimeInForce → Bool → Queues → List Trade → Result
add_to id side price qty order_type time_in_force post_only q₀ trades =
    let q : Queues = record q₀ { stats = count_add q₀.stats } in
    let market = is_market order_type in
    if market && post_only
    then refuse would_take_liquidity q trades
    else if not market && not (is_valid_price price)
    then refuse invalid_price q trades
    else if not (is_valid_qty qty)
    then refuse invalid_quantity q trades
    else if is_live id q
    then refuse duplicate_order_id q trades
    else enter_checked id side (effective_price order_type side price) (pos_part qty) market
        (effective_time_in_force order_type time_in_force) post_only q trades

unfoldable pub cancel_in : ℕ → Queues → List Trade → Result
cancel_in id q₀ trades =
    let q : Queues = record q₀ { stats = count_cancel q₀.stats } in
    if is_live id q
    then record {
      error = BookError.none;
      queues = record q { bids = withdraw id q.bids; asks = withdraw id q.asks };
      trades = trades;
    }
    else refuse unknown_order_id q trades

-- Cancel and add anew: the order keeps its id and its side, and loses its place.
unfoldable pub replace_in : ℕ → Price → ℤ → Queues → List Trade → Result
replace_in id price qty q₀ trades =
    let q : Queues = record q₀ { stats = count_modify q₀.stats } in
    let side = side_of id q in
    let without : Queues = record q { bids = withdraw id q.bids; asks = withdraw id q.asks } in
    let crossing = min (pos_part qty) (available side price (queue (opposite side) q)) in
    if not (is_live id q)
    then refuse unknown_order_id q trades
    else if not (is_valid_price price)
    then refuse invalid_price q trades
    else if not (is_valid_qty qty)
    then refuse invalid_quantity q trades
    else if quantity_add_would_overflow (total_at price (queue side without))
          (pos_part qty - crossing)
        || quantity_add_would_overflow q.stats.traded_qty crossing
    then refuse quantity_overflow q trades
    else enter id side price (pos_part qty) true without trades

abbrev pub handle : EventType → Event → Queues → List Trade → Result
handle add event =
    add_to event.order_id event.side event.price event.qty event.order_type event.time_in_force
      event.post_only
handle cancel event = cancel_in event.order_id
handle modify event = replace_in event.order_id event.new_price event.new_qty

unfoldable pub step : Event → Queues → List Trade → Result
step event = handle event.type event
