-- ===== src/Ladder/Operations.antt =====
-- The operations and queries of src/ladder_order_book.cpp.
use orda_book.Prelude.{
  ℕ, zero, suc, ◌+◌, ◌-◌, ◌*◌, ltb, ◌==◌, if◌then◌else◌, Bool, true, false, ◌&&◌, ◌||◌, not, Option,
  none, some, List, [], ◌∷◌, ◌++◌, length, ◌/◌, map,
}
use orda_book.Prelude.Int.{ℤ, pos, pos_part, ltb_ℤ, eqb_ℤ}
use orda_book.Types.{
  Price, Side, bid, ask, OrderType, limit, TimeInForce, good_til_cancel, EventType, add, cancel,
  modify, Event, Trade, LevelSnapshot, OrderSnapshot, BookError, unknown_order_id,
  duplicate_order_id, invalid_price, invalid_quantity, quantity_overflow, price_out_of_range,
  insufficient_liquidity, would_take_liquidity,
}
use orda_book.Engine.{
  quantity_add_would_overflow, is_valid_qty, is_market, is_good_til_cancel, is_fill_or_kill,
  effective_time_in_force, count_add, count_cancel, count_modify, count_rejected,
}
use orda_book.Ladder.Bitmaps.{
  Word, Words, lowest_bit, highest_bit, clear_lowest, clear_bit, best_index,
}
use orda_book.Ladder.State.{
  PriceLevel, OrderLocation, LadderOrderBook, side_occupied, valid_price, index_for, find_location,
  add_resting_order, order_at, remove_order,
}
use orda_book.Ladder.Matching.{max_crossing_qty, match_incoming}

pub record Outcome : Type 0 where
  pub error : BookError
  pub book : LadderOrderBook
  pub trades : List Trade

unfoldable pub reject : BookError → LadderOrderBook → List Trade → Outcome
reject error book trades = record {
  error = error;
  book = record book { stats = count_rejected book.stats };
  trades = trades;
}

-- The error of a price that is out of the range.
abbrev pub price_error : Price → BookError
price_error price = if ltb_ℤ (pos 0) price then price_out_of_range else invalid_price

-- A market order takes the far end of the range for its price.
abbrev pub effective_price : Bool → Side → Price → LadderOrderBook → Price
effective_price false side price book = price
effective_price true bid price book = book.max_price
effective_price true ask price book = book.min_price

-- The end of an add and of a modify.
unfoldable pub match_and_rest : ℕ → Side → Price → ℕ → Bool → LadderOrderBook → List Trade → Outcome
match_and_rest order_id side price qty can_rest book trades =
    let matched = match_incoming order_id side price qty book trades in
    record {
      error = BookError.none;
      book =
          if ltb 0 matched.incoming_qty && can_rest
          then add_resting_order order_id side price matched.incoming_qty matched.book
          else matched.book;
      trades = matched.trades;
    }

-- An add that has passed the checks of its fields and its id.
unfoldable pub add_checked :
    ℕ → Side → Price → ℕ → Bool → TimeInForce → Bool → LadderOrderBook → List Trade → Outcome
add_checked order_id side price qty market time_in_force post_only book trades =
    let crossing_qty = max_crossing_qty side price qty book in
    let resting_qty = qty - crossing_qty in
    let can_rest = not market && is_good_til_cancel time_in_force in
    if is_fill_or_kill time_in_force && ltb crossing_qty qty
    then reject insufficient_liquidity book trades
    else if post_only && not (crossing_qty == 0)
    then reject would_take_liquidity book trades
    else if (can_rest
          && quantity_add_would_overflow (book.levels (index_for book price)).total_qty resting_qty)
        || quantity_add_would_overflow book.stats.traded_qty crossing_qty
    then reject quantity_overflow book trades
    else match_and_rest order_id side price qty can_rest book trades

abbrev pub is_found : Option OrderLocation → Bool
is_found none = false
is_found (some _) = true

unfoldable pub add_order_with_policy :
    ℕ → Side → Price → ℤ → OrderType → TimeInForce → Bool → LadderOrderBook → List Trade → Outcome
add_order_with_policy order_id side price qty order_type time_in_force post_only book₀ trades =
    let book : LadderOrderBook = record book₀ { stats = count_add book₀.stats } in
    let market = is_market order_type in
    if (not market && not (valid_price book price)) || (market && post_only)
    then reject (if market && post_only then would_take_liquidity else price_error price) book
        trades
    else if not (is_valid_qty qty)
    then reject invalid_quantity book trades
    else if is_found (find_location order_id book.order_index)
    then reject duplicate_order_id book trades
    else add_checked order_id side (effective_price market side price book) (pos_part qty) market
        (effective_time_in_force order_type time_in_force) post_only book trades

unfoldable pub add_order : ℕ → Side → Price → ℤ → LadderOrderBook → List Trade → Outcome
add_order order_id side price qty =
    add_order_with_policy order_id side price qty limit good_til_cancel false

unfoldable pub cancel_order : ℕ → LadderOrderBook → List Trade → Outcome
cancel_order order_id book₀ trades =
    let book : LadderOrderBook = record book₀ { stats = count_cancel book₀.stats } in
    elim (find_location order_id book.order_index) [
      | none ↦ reject unknown_order_id book trades
      | some location ↦ record {
        error = BookError.none;
        book = remove_order order_id location book;
        trades = trades;
      }
    ]

-- A modify of a live order whose new fields are valid.
unfoldable pub modify_located :
    ℕ → OrderLocation → Price → ℕ → LadderOrderBook → List Trade → Outcome
modify_located order_id location new_price new_qty book trades =
    let current = order_at location.order_it (book.levels location.level).orders in
    let level_qty = (book.levels (index_for book new_price)).total_qty in
    let existing_level_qty =
      if eqb_ℤ current.price new_price then level_qty - current.qty else level_qty in
    let crossing_qty = max_crossing_qty current.side new_price new_qty book in
    let resting_qty = new_qty - crossing_qty in
    if quantity_add_would_overflow existing_level_qty resting_qty
      || quantity_add_would_overflow book.stats.traded_qty crossing_qty
    then reject quantity_overflow book trades
    else match_and_rest order_id current.side new_price new_qty true
        (remove_order order_id location book) trades

unfoldable pub modify_order : ℕ → Price → ℤ → LadderOrderBook → List Trade → Outcome
modify_order order_id new_price new_qty book₀ trades =
    let book : LadderOrderBook = record book₀ { stats = count_modify book₀.stats } in
    elim (find_location order_id book.order_index) [
      | none ↦ reject unknown_order_id book trades
      | some location ↦
          if not (valid_price book new_price)
          then reject (price_error new_price) book trades
          else if not (is_valid_qty new_qty)
          then reject invalid_quantity book trades
          else modify_located order_id location new_price (pos_part new_qty) book trades
    ]

abbrev pub dispatch : EventType → Event → LadderOrderBook → List Trade → Outcome
dispatch add event =
    add_order_with_policy event.order_id event.side event.price event.qty event.order_type
      event.time_in_force event.post_only
dispatch cancel event = cancel_order event.order_id
dispatch modify event = modify_order event.order_id event.new_price event.new_qty

unfoldable pub process : Event → LadderOrderBook → List Trade → Outcome
process event = dispatch event.type event

abbrev pub level_snapshot : PriceLevel → LevelSnapshot
level_snapshot level = record {
  price = level.price;
  qty = level.total_qty;
  order_count = length level.orders;
}

unfoldable pub top_of_book : Side → LadderOrderBook → Option LevelSnapshot
top_of_book side book = elim (best_index side book.size (side_occupied side book)) [
  | none ↦ none
  | some best ↦ some (level_snapshot (book.levels best))
]

-- The places of the bits of a word: up for asks, each round clearing the lowest, down for bids, each round
-- clearing the one that it took.
unfoldable pub places_up : ℕ → ℕ → Word → List ℕ
places_up zero base bits = []
places_up (suc left) base bits = elim (lowest_bit bits) [
  | none ↦ []
  | some bit ↦ (base + bit) ∷ places_up left base (clear_lowest bits)
]

unfoldable pub places_down : ℕ → ℕ → Word → List ℕ
unfolding clear_bit
places_down zero base bits = []
places_down (suc left) base bits = elim (highest_bit bits) [
  | none ↦ []
  | some bit ↦ (base + bit) ∷ places_down left base (clear_bit bit bits)
]

-- The places over the words that are in use, in the order in which `levels` and `orders` append them.
unfoldable pub all_up : ℕ → ℕ → Words → List ℕ
all_up zero word occupied = []
all_up (suc left) word occupied =
    places_up 64 (word * 64) (occupied word) ++ all_up left (suc word) occupied

unfoldable pub all_down : ℕ → Words → List ℕ
all_down zero occupied = []
all_down (suc word) occupied = places_down 64 (word * 64) (occupied word) ++ all_down word occupied

-- The number of words in the first bitmaps.
abbrev pub word_count : LadderOrderBook → ℕ
word_count book = (book.count + 63) / 64

unfoldable pub places : Side → LadderOrderBook → List ℕ
places ask book = all_up (word_count book) 0 book.asks.levels
places bid book = all_down (word_count book) book.bids.levels

unfoldable pub levels : Side → LadderOrderBook → List LevelSnapshot
levels side book = map (λ index. level_snapshot (book.levels index)) (places side book)

abbrev append_orders : (ℕ → PriceLevel) → List ℕ → List OrderSnapshot
append_orders levels [] = []
append_orders levels (index ∷ indexes) = (levels index).orders ++ append_orders levels indexes

unfoldable pub orders : Side → LadderOrderBook → List OrderSnapshot
orders side book = append_orders book.levels (places side book)
