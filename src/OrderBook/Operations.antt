-- ===== src/OrderBook/Operations.antt =====
-- The operations of the baseline engine: `add_order_with_policy`, `add_order`, `cancel_order`,
-- `modify_order` and `process` of src/order_book.cpp.
pub mod Entering
pub mod Checks
pub mod AddingView
pub mod Adding
pub mod Located
pub mod Replacing
pub mod Process
use orda_book.Prelude.{
  ℕ, ◌-◌, ltb, ◌==◌, if◌then◌else◌, Bool, true, false, ◌&&◌, ◌||◌, not, Option, none, some, List,
}
use orda_book.Prelude.Int.{ℤ, pos_part, eqb_ℤ}
use orda_book.Types.{
  Price, Side, OrderType, limit, TimeInForce, good_til_cancel, EventType, add, cancel, modify,
  Event, Trade, BookError, unknown_order_id, duplicate_order_id, invalid_price, invalid_quantity,
  quantity_overflow, insufficient_liquidity, would_take_liquidity,
}
use orda_book.Engine.{
  quantity_add_would_overflow, is_valid_price, is_valid_qty, is_market, is_good_til_cancel,
  is_fill_or_kill, effective_price, effective_time_in_force, count_add, count_cancel, count_modify,
  count_rejected,
}
use orda_book.OrderBook.State.{Order, OrderLocation, OrderBook, side_levels, find_location}
use orda_book.OrderBook.Levels.{find_level, level_at, order_at, add_resting_order, remove_order}
use orda_book.OrderBook.Matching.{max_crossing_qty, match_incoming}

-- What an operation returns, and what it leaves in the book and in `trades`.
pub record Outcome : Type 0 where
  pub error : BookError
  pub book : OrderBook
  pub trades : List Trade

unfoldable pub reject : BookError → OrderBook → List Trade → Outcome
reject error book trades = record {
  error = error;
  book = record book { stats = count_rejected book.stats };
  trades = trades;
}

-- The end of an add and of a modify.
unfoldable pub match_and_rest : ℕ → Side → Price → ℕ → Bool → OrderBook → List Trade → Outcome
match_and_rest order_id side price qty can_rest book trades =
    let (remaining, matched, trades') = match_incoming order_id side price qty book trades in
    record {
      error = BookError.none;
      book =
          if ltb 0 remaining && can_rest
          then add_resting_order order_id side price remaining matched
          else matched;
      trades = trades';
    }

-- `level_overflow`, where the order may rest.
unfoldable pub level_overflow : Side → Price → ℕ → OrderBook → Bool
level_overflow side price resting_qty book = elim (find_level price (side_levels side book)) [
  | none ↦ false
  | some level ↦ quantity_add_would_overflow level.total_qty resting_qty
]

-- An add that has passed the checks of its fields and its id, from `max_crossing_qty` on.
unfoldable pub add_checked :
    ℕ → Side → Price → ℕ → Bool → TimeInForce → Bool → OrderBook → List Trade → Outcome
unfolding level_overflow
add_checked order_id side price qty market time_in_force post_only book trades =
    let crossing_qty = max_crossing_qty side price qty book in
    let resting_qty = qty - crossing_qty in
    let can_rest = not market && is_good_til_cancel time_in_force in
    if is_fill_or_kill time_in_force && ltb crossing_qty qty
    then reject insufficient_liquidity book trades
    else if post_only && not (crossing_qty == 0)
    then reject would_take_liquidity book trades
    else if (can_rest && level_overflow side price resting_qty book)
        || quantity_add_would_overflow book.stats.traded_qty crossing_qty
    then reject quantity_overflow book trades
    else match_and_rest order_id side price qty can_rest book trades

abbrev pub is_found : Option OrderLocation → Bool
is_found none = false
is_found (some _) = true

unfoldable pub add_order_with_policy :
    ℕ → Side → Price → ℤ → OrderType → TimeInForce → Bool → OrderBook → List Trade → Outcome
add_order_with_policy order_id side price qty order_type time_in_force post_only book₀ trades =
    let book : OrderBook = record book₀ { stats = count_add book₀.stats } in
    let market = is_market order_type in
    if (not market && not (is_valid_price price)) || (market && post_only)
    then reject (if market && post_only then would_take_liquidity else invalid_price) book trades
    else if not (is_valid_qty qty)
    then reject invalid_quantity book trades
    else if is_found (find_location order_id book.order_index)
    then reject duplicate_order_id book trades
    else add_checked order_id side (effective_price order_type side price) (pos_part qty) market
        (effective_time_in_force order_type time_in_force) post_only book trades

unfoldable pub add_order : ℕ → Side → Price → ℤ → OrderBook → List Trade → Outcome
add_order order_id side price qty =
    add_order_with_policy order_id side price qty limit good_til_cancel false

unfoldable pub cancel_order : ℕ → OrderBook → List Trade → Outcome
cancel_order order_id book₀ trades =
    let book : OrderBook = record book₀ { stats = count_cancel book₀.stats } in
    elim (find_location order_id book.order_index) [
      | none ↦ reject unknown_order_id book trades
      | some location ↦ record {
        error = BookError.none;
        book = remove_order order_id location book;
        trades = trades;
      }
    ]

-- The order that a location stands for.
unfoldable pub located_order : OrderLocation → OrderBook → Order
located_order location book =
    order_at location.order_it (level_at location.level (side_levels location.side book)).orders

-- The level at the new price, without the order that is about to leave.
unfoldable pub existing_level_qty : OrderLocation → Price → OrderBook → ℕ
unfolding located_order
existing_level_qty location new_price book =
    elim (find_level new_price (side_levels location.side book)) [
      | none ↦ 0
      | some level ↦
          if eqb_ℤ location.level level.price
          then level.total_qty - (located_order location book).qty
          else level.total_qty
    ]

-- A modify of a live order whose new fields are valid.
unfoldable pub modify_located : ℕ → OrderLocation → Price → ℕ → OrderBook → List Trade → Outcome
unfolding existing_level_qty
modify_located order_id location new_price new_qty book trades =
    let side = (located_order location book).side in
    let crossing_qty = max_crossing_qty side new_price new_qty book in
    let resting_qty = new_qty - crossing_qty in
    if quantity_add_would_overflow (existing_level_qty location new_price book) resting_qty
      || quantity_add_would_overflow book.stats.traded_qty crossing_qty
    then reject quantity_overflow book trades
    else match_and_rest order_id side new_price new_qty true (remove_order order_id location book)
        trades

unfoldable pub modify_order : ℕ → Price → ℤ → OrderBook → List Trade → Outcome
modify_order order_id new_price new_qty book₀ trades =
    let book : OrderBook = record book₀ { stats = count_modify book₀.stats } in
    elim (find_location order_id book.order_index) [
      | none ↦ reject unknown_order_id book trades
      | some location ↦
          if not (is_valid_price new_price)
          then reject invalid_price book trades
          else if not (is_valid_qty new_qty)
          then reject invalid_quantity book trades
          else modify_located order_id location new_price (pos_part new_qty) book trades
    ]

abbrev pub dispatch : EventType → Event → OrderBook → List Trade → Outcome
dispatch add event =
    add_order_with_policy event.order_id event.side event.price event.qty event.order_type
      event.time_in_force event.post_only
dispatch cancel event = cancel_order event.order_id
dispatch modify event = modify_order event.order_id event.new_price event.new_qty

-- Every value of EventType has its case, so the rejection below the switch is not reached.
unfoldable pub process : Event → OrderBook → List Trade → Outcome
process event = dispatch event.type event
