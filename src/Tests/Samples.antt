-- ===== src/Tests/Samples.antt =====
-- Events, a book that they make, and what the engine of src/order_book.cpp does with them.
use orda_book.Prelude.{ℕ, ◌≡◌, refl, ◌≤◌, true, false, some, List, [], ◌∷◌, All, arith}
use orda_book.Prelude.Int.{pos, pos_part}
use orda_book.Types.{
  Side, bid, ask, limit, good_til_cancel, fill_or_kill, add, Event, duplicate_order_id,
  insufficient_liquidity, would_take_liquidity, unknown_order_id,
}
use orda_book.Engine.{
  is_valid_price, is_valid_qty, quantity_add_would_overflow, crosses, ahead, increment, count_add,
  count_cancel, count_modify, count_rejected, count_trade,
}
use orda_book.OrderBook.State.{OrderBook, find_location, erase_location, emplace_location}
use orda_book.OrderBook.Levels.{
  find_level, ensure_level, update_level, erase_level, push_order, add_resting_order, order_at,
  erase_order, level_at, unlink_order, remove_order,
}
use orda_book.OrderBook.View.{append_level_orders, orders, levels, top_of_book}
use orda_book.OrderBook.Invariant.{IsValid}
use orda_book.OrderBook.Matching.{
  crossing_loop, max_crossing_qty, fill_front, match_orders, match_levels, match_incoming,
}
use orda_book.OrderBook.Operations.{
  reject, match_and_rest, level_overflow, add_checked, add_order_with_policy, add_order,
  cancel_order, located_order, existing_level_qty, modify_located, modify_order, process,
}
use orda_book.OrderBook.Operations.Process.{InRange}
use orda_book.Codec.Records.{Fits}
use orda_book.Replay.Trace.{Trace, first_frame}
use orda_book.OrderBook.Runs.{run, empty_book, empty_book-IsValid, run-IsValid}

-- The definitions that a run of the engine computes with.
unfoldable pub engine : Unit {0}
unfolding is_valid_price is_valid_qty quantity_add_would_overflow crosses ahead increment count_add
    count_cancel count_modify count_rejected count_trade find_location erase_location
    emplace_location find_level ensure_level update_level erase_level push_order add_resting_order
    order_at erase_order level_at unlink_order remove_order append_level_orders orders levels
    top_of_book crossing_loop max_crossing_qty fill_front match_orders match_levels match_incoming
    reject match_and_rest level_overflow add_checked add_order_with_policy add_order cancel_order
    located_order existing_level_qty modify_located modify_order process run
engine = tt

abbrev pub limit_order : ℕ → Side → ℕ → ℕ → Event
limit_order id side price qty = record {
  type = add;
  order_id = id;
  side = side;
  price = pos price;
  qty = pos qty;
  order_type = limit;
  time_in_force = good_til_cancel;
  post_only = false;
  new_price = pos 0;
  new_qty = pos 0;
  line_number = 0;
}

-- Two bids at 100, one at 99, and asks at 101 and 102.
abbrev pub quotes : List Event
quotes =
    limit_order 1 bid 100 5
    ∷ limit_order 2 bid 99 3
    ∷ limit_order 3 bid 100 4
    ∷ limit_order 4 ask 101 7
    ∷ limit_order 5 ask 102 2
    ∷ []

abbrev pub quoted : OrderBook
quoted = (run quotes empty_book []).0

pub quotes-InRange : All InRange quotes
quotes-InRange =
    let fits : (event : Event)
        → pos_part event.qty ≤ 7
        → pos_part event.new_qty ≤ 7
        → InRange event =
      λ event a b. record { qty_fits = omega arith; new_qty_fits = omega arith } in
    (
      fits _ (omega arith) (omega arith),
      (
        fits _ (omega arith) (omega arith),
        (
          fits _ (omega arith) (omega arith),
          (fits _ (omega arith) (omega arith), (fits _ (omega arith) (omega arith), tt)),
        ),
      ),
    )

pub sell-InRange : InRange (limit_order 9 ask 100 7)
sell-InRange = record { qty_fits = omega arith; new_qty_fits = omega arith }

-- A trace as `main` makes it.
abbrev pub new_trace : Trace
new_trace = record {
  book = empty_book;
  trades = [];
  frames = first_frame ∷ [];
  event_count = 0;
  trace_too_large = false;
}

pub sell-Fits : Fits (limit_order 9 ask 100 7)
sell-Fits = record {
  order_id_fits = omega arith;
  price_fits = (omega arith, omega arith);
  qty_fits = (omega arith, omega arith);
  new_price_fits = (omega arith, omega arith);
  new_qty_fits = (omega arith, omega arith);
  line_number_fits = omega arith;
}

pub quoted-IsValid : IsValid quoted
quoted-IsValid = run-IsValid quotes empty_book [] empty_book-IsValid quotes-InRange

-- The bids in the order in which they are to be filled: by price, then by age.
quoted-bids :
    orders bid quoted
    ≡ record { order_id = 1; side = bid; price = pos 100; qty = 5 }
      ∷ record { order_id = 3; side = bid; price = pos 100; qty = 4 }
      ∷ record { order_id = 2; side = bid; price = pos 99; qty = 3 }
      ∷ []
unfolding engine
quoted-bids = refl

quoted-top : top_of_book bid quoted ≡ some (record { price = pos 100; qty = 9; order_count = 2 })
unfolding engine
quoted-top = refl

-- An ask at 100 for 7 fills order 1, and two of order 3.
sell_trades :
    (add_order 9 ask (pos 100) (pos 7) quoted []).trades
    ≡ record {
      resting_order_id = 1;
      incoming_order_id = 9;
      price = pos 100;
      qty = 5;
      aggressor_side = ask;
    }
      ∷ record {
        resting_order_id = 3;
        incoming_order_id = 9;
        price = pos 100;
        qty = 2;
        aggressor_side = ask;
      }
      ∷ []
unfolding engine
sell_trades = refl

-- The errors of `add_order_with_policy`, `cancel_order` and `modify_order`.
kill_short :
    (add_order_with_policy 9 bid (pos 101) (pos 8) limit fill_or_kill false quoted []).error
    ≡ insufficient_liquidity
unfolding engine
kill_short = refl

taker_refused :
    (add_order_with_policy 9 bid (pos 101) (pos 1) limit good_til_cancel true quoted []).error
    ≡ would_take_liquidity
unfolding engine
taker_refused = refl

second_use : (add_order 3 bid (pos 1) (pos 1) quoted []).error ≡ duplicate_order_id
unfolding engine
second_use = refl

not_known : (cancel_order 9 quoted []).error ≡ unknown_order_id
unfolding engine
not_known = refl

-- A modify puts order 1 behind order 3.
modify_bids :
    orders bid (modify_order 1 (pos 100) (pos 5) quoted []).book
    ≡ record { order_id = 3; side = bid; price = pos 100; qty = 4 }
      ∷ record { order_id = 1; side = bid; price = pos 100; qty = 5 }
      ∷ record { order_id = 2; side = bid; price = pos 99; qty = 3 }
      ∷ []
unfolding engine
modify_bids = refl
