-- ===== src/Ladder/Matching.antt =====
-- `max_crossing_qty` and `match_incoming` of src/ladder_order_book.cpp. The source writes the loops of
-- the first once for each side; here the side is an argument.
use orda_book.Prelude.{
  ℕ, zero, suc, ◌+◌, ◌-◌, ◌*◌, min, ltb, ◌==◌, if◌then◌else◌, ◌&&◌, not, Option, none, some, List,
  [], ◌∷◌, ◌++◌, length,
}
use orda_book.Types.{Price, Side, bid, ask, OrderSnapshot, Trade}
use orda_book.Engine.{opposite, crosses, count_trade}
use orda_book.Ladder.Bitmaps.{
  Word, Words, Occupied, lowest_bit, highest_bit, clear_lowest, clear_occupied, best_index,
}
use orda_book.Ladder.State.{
  PriceLevel, LadderOrderBook, side_occupied, with_occupied, set_level, erase_location, is_empty,
}

-- A loop that has returned from the function, or that has come to its end.
pub data Crossing : Type 0 where
  returned : ℕ → Crossing
  counted : ℕ → Crossing

-- The bit that a loop takes next: the lowest over asks, the highest over bids.
abbrev pub next_bit : Side → Word → Option ℕ
next_bit bid word = lowest_bit word
next_bit ask word = highest_bit word

abbrev pub crossing_qty_of : Crossing → ℕ
crossing_qty_of (returned crossing_qty) = crossing_qty
crossing_qty_of (counted crossing_qty) = crossing_qty

-- What follows a loop that may have returned.
abbrev pub and_then : Crossing → (ℕ → Crossing) → Crossing
and_then (returned crossing_qty) f = returned crossing_qty
and_then (counted crossing_qty) f = f crossing_qty

-- The variables that the loops only read.
module _ (incoming_side : Side) (incoming_price : Price) (incoming_qty : ℕ)
    (levels : ℕ → PriceLevel) where
  -- `while (level_bits != 0)` from place `base` on. Every round clears a bit of 64.
  unfoldable pub level_loop : ℕ → ℕ → Word → ℕ → Crossing
  level_loop zero base level_bits crossing_qty = counted crossing_qty
  level_loop (suc left) base level_bits crossing_qty = elim (next_bit incoming_side level_bits) [
    | none ↦ counted crossing_qty
    | some bit ↦
        let level = levels (base + bit) in
        let added = crossing_qty + min (incoming_qty - crossing_qty) level.total_qty in
        let rest = level_loop left base (clear_lowest level_bits) added in
        if not (crosses incoming_side incoming_price level.price)
        then returned crossing_qty
        else if added == incoming_qty
        then returned added
        else rest
  ]

  -- `while (word_bits != 0)` at a word of the second bitmap.
  unfoldable pub word_loop : ℕ → ℕ → Word → Words → ℕ → Crossing
  word_loop zero word word_bits occupied crossing_qty = counted crossing_qty
  word_loop (suc left) word word_bits occupied crossing_qty =
      elim (next_bit incoming_side word_bits) [
        | none ↦ counted crossing_qty
        | some bit ↦
            let place = word * 64 + bit in
            and_then (level_loop 64 (place * 64) (occupied place) crossing_qty)
              (word_loop left word (clear_lowest word_bits) occupied)
      ]

  -- Up over the words of the asks, and down over those of the bids.
  unfoldable pub words_up : ℕ → ℕ → Occupied → ℕ → Crossing
  words_up zero word occupied crossing_qty = counted crossing_qty
  words_up (suc left) word occupied crossing_qty =
      and_then (word_loop 64 word (occupied.words word) occupied.levels crossing_qty)
        (words_up left (suc word) occupied)

  unfoldable pub words_down : ℕ → Occupied → ℕ → Crossing
  words_down zero occupied crossing_qty = counted crossing_qty
  words_down (suc word) occupied crossing_qty =
      and_then (word_loop 64 word (occupied.words word) occupied.levels crossing_qty)
        (words_down word occupied)

unfoldable pub max_crossing_qty : Side → Price → ℕ → LadderOrderBook → ℕ
max_crossing_qty bid incoming_price incoming_qty book =
    crossing_qty_of (words_up bid incoming_price incoming_qty book.levels book.size 0 book.asks 0)
max_crossing_qty ask incoming_price incoming_qty book =
    crossing_qty_of (words_down ask incoming_price incoming_qty book.levels book.size book.bids 0)

-- What the loops of `match_incoming` change.
pub record Matching : Type 0 where
  pub incoming_qty : ℕ
  pub book : LadderOrderBook
  pub trades : List Trade

module _ (incoming_order_id : ℕ) (incoming_side : Side) (incoming_price : Price) where
  -- The body of the inner loop, at the level in place `index`, whose list is `resting ∷ orders`.
  unfoldable pub fill_front : ℕ → OrderSnapshot → List OrderSnapshot → Matching → Matching
  unfolding set_level
  fill_front index resting orders state =
      let book = state.book in
      let level = book.levels index in
      let fill_qty = min state.incoming_qty resting.qty in
      let left_qty = resting.qty - fill_qty in
      let trade : Trade = record {
        resting_order_id = resting.order_id;
        incoming_order_id = incoming_order_id;
        price = resting.price;
        qty = fill_qty;
        aggressor_side = incoming_side;
      } in
      let filled = left_qty == 0 in
      record {
        incoming_qty = state.incoming_qty - fill_qty;
        book =
            record (set_level index
              (record level {
                total_qty = level.total_qty - fill_qty;
                orders = if filled then orders else record resting { qty = left_qty } ∷ orders;
              })
              book) {
                order_index =
                    if filled
                    then erase_location resting.order_id book.order_index
                    else book.order_index;
                stats = count_trade fill_qty book.stats;
              };
        trades = state.trades ++ (trade ∷ []);
      }

  -- The inner loop. Each round but the last takes an order off the list.
  unfoldable pub match_orders : ℕ → ℕ → Matching → Matching
  unfolding fill_front
  match_orders zero index state = state
  match_orders (suc fuel) index state = elim (state.book.levels index).orders [
    | [] ↦ state
    | resting ∷ orders ↦
        let rest = match_orders fuel index (fill_front index resting orders state) in
        if ltb 0 state.incoming_qty then rest else state
  ]

  abbrev pub clear_if_empty : Side → ℕ → Matching → Matching
  clear_if_empty resting_side index state = record state {
    book =
        if is_empty (state.book.levels index).orders
        then with_occupied resting_side
            (clear_occupied index (side_occupied resting_side state.book)) state.book
        else state.book;
  }

  -- The outer loop. Every round but the last fills some of the incoming quantity, since the level
  -- that it finds has an order and no order is of quantity 0.
  unfoldable pub match_levels : ℕ → Matching → Matching
  match_levels zero state = state
  match_levels (suc fuel) state =
      let resting_side = opposite incoming_side in
      let book = state.book in
      elim (best_index resting_side book.size (side_occupied resting_side book)) [
        | none ↦ state
        | some best ↦
            let round =
              clear_if_empty resting_side best
                (match_orders (length (book.levels best).orders) best state) in
            let rest = match_levels fuel round in
            if ltb 0 state.incoming_qty
              && crosses incoming_side incoming_price (book.levels best).price
            then rest
            else state
      ]

unfoldable pub match_incoming : ℕ → Side → Price → ℕ → LadderOrderBook → List Trade → Matching
match_incoming incoming_order_id incoming_side incoming_price incoming_qty book trades =
    match_levels incoming_order_id incoming_side incoming_price incoming_qty
      (record { incoming_qty = incoming_qty; book = book; trades = trades })
