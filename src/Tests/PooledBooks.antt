-- ===== src/Tests/PooledBooks.antt =====
-- A book of src/pooled_order_book.hpp with two bids in three slots, and the theorems on it.
use orda_book.Prelude.{◌-◌, ◌≡◌, ◌≢◌, ◌<◌, refl, inr, none, List, [], ◌∷◌, arith}
use orda_book.Prelude.Int.{pos}
use orda_book.Types.{bid, ask, Event}
use orda_book.Engine.{count_add, count_trade, crosses, increment}
use orda_book.OrderBook.State
use orda_book.OrderBook.State.{OrderBook, Order}
use orda_book.OrderBook.Levels
use orda_book.OrderBook.View
use orda_book.OrderBook.Matching
use orda_book.OrderBook.Operations
use orda_book.OrderBook.Invariant.{IsValid}
use orda_book.OrderBook.Runs.{run, empty_book, empty_book-IsValid, run-IsValid}
use orda_book.Pooled.State.{SlotArray, write, PooledOrderBook, find_slot, erase_slot}
use orda_book.Pooled.Slots.{fresh_slots, release_slot, unlink_slot, add_resting_order}
use orda_book.Pooled.Linked.{Cell, LinkedLevel, slot_of, pooled_level, Linked, Distinct}
use orda_book.Pooled.Matching.{drop_front, fill_front, match_orders, match_levels, match_incoming}
use orda_book.Pooled.Matching.Drop.{level_of}
use orda_book.Pooled.Matching.Incoming.{Matched, match_incoming-Matched}
use orda_book.Pooled.Operations.{process}
use orda_book.Pooled.Represents.{Represents, slot_count, turn}
use orda_book.Pooled.Resting.{Rested, add_resting_order-Rested}
use orda_book.Pooled.Freeing.{slot_is_free}
use orda_book.Pooled.Unlinking.{Unlinked, unlink_slot-Unlinked}
use orda_book.Pooled.Refusing.{Follows}
use orda_book.Pooled.View.{orders, levels, top_of_book, live_order_count, queries-same}
use orda_book.Pooled.Process.{process-Follows, Represented, pooled_run, pooled_run-Represented}
use orda_book.Pooled.Reserving.{Reserved, reserve_orders-Reserved}
use orda_book.Tests.Samples.{engine, limit_order, sell-InRange}

abbrev two_bids : List Event
two_bids = limit_order 1 bid 100 5 ∷ limit_order 3 bid 100 4 ∷ []

abbrev two : OrderBook
two = (run two_bids empty_book []).0

two-IsValid : IsValid two
two-IsValid = run-IsValid two_bids empty_book [] empty_book-IsValid (
  record { qty_fits = omega arith; new_qty_fits = omega arith },
  (record { qty_fits = omega arith; new_qty_fits = omega arith }, tt),
)

abbrev first_cell : Cell
first_cell = record {
  slot = 1;
  order = record { order_id = 1; side = bid; price = pos 100; qty = 5 };
}

abbrev second_cell : Cell
second_cell = record {
  slot = 2;
  order = record { order_id = 3; side = bid; price = pos 100; qty = 4 };
}

abbrev two_slots : SlotArray
two_slots =
    write 1 (slot_of first_cell.order 0 2) (write 2 (slot_of second_cell.order 1 0) (fresh_slots 3))

abbrev two_level : LinkedLevel
two_level = level_of (pos 100) 9 (first_cell ∷ second_cell ∷ [])

abbrev pooled_two : PooledOrderBook
pooled_two = record {
  bids = pooled_level two_level ∷ [];
  asks = [];
  pool = record { slots = two_slots; free_head = 3 };
  order_index = (3, 2) ∷ (1, 1) ∷ [];
  stats = record {
    add_requests = 2;
    cancel_requests = 0;
    modify_requests = 0;
    rejected_requests = 0;
    trades = 0;
    traded_qty = 0;
  };
}

two-Linked : Linked two_slots 0 (first_cell ∷ second_cell ∷ []) 0
unfolding write
two-Linked = (omega arith, refl, (omega arith, refl, tt))

two-Distinct : Distinct (first_cell ∷ second_cell ∷ [])
two-Distinct = (((omega arith, omega arith), tt), (tt, tt))

two-Represents : Represents bid pooled_two two
unfolding engine write fresh_slots find_slot
two-Represents = record {
  own = two_level ∷ [];
  other = [];
  frees = 3 ∷ [];
  own_pooled = refl;
  other_pooled = refl;
  own_base = refl;
  other_base = refl;
  agree = record {
    incoming = refl;
    counters = refl;
    fills = refl;
    keys = refl;
    free = (refl, omega arith, refl, tt, refl);
  };
  own_hold = (
    record { chain = two-Linked; indexed = (refl, (refl, tt)); distinct = two-Distinct },
    tt,
    tt,
  );
  other_hold = tt;
  across = tt;
}

process-Follows_example :
    Follows
      (slot_count two-Represents)
      (record pooled_two { stats = count_add pooled_two.stats })
      []
      (process (limit_order 9 ask 100 7) pooled_two [])
      (Operations.process (limit_order 9 ask 100 7) two [])
process-Follows_example =
    process-Follows (limit_order 9 ask 100 7) pooled_two two [] two-Represents two-IsValid

pooled_run-Represented_example :
    Represented
      (slot_count two-Represents)
      (pooled_run (limit_order 9 ask 100 7 ∷ []) pooled_two [])
pooled_run-Represented_example =
    pooled_run-Represented (limit_order 9 ask 100 7 ∷ []) pooled_two two [] two-Represents
      two-IsValid (sell-InRange, tt)

reserve_orders-Reserved_example : Reserved 3
reserve_orders-Reserved_example = reserve_orders-Reserved 3 (omega arith)

two_asked : Represents ask pooled_two two
two_asked = turn bid ask pooled_two two two-Represents

match_incoming-Matched_example :
    Matched ask pooled_two two two_asked
      (match_incoming 9 ask (pos 100) 12 pooled_two [])
      (Matching.match_incoming 9 ask (pos 100) 12 two [])
match_incoming-Matched_example =
    match_incoming-Matched 9 ask (pos 100) 12 pooled_two two [] two_asked

-- An ask for 12 takes both bids, and three are left.
two_crossed : Matching.max_crossing_qty ask (pos 100) 12 two ≡ 9
unfolding engine
two_crossed = refl

two_remaining : (match_incoming 9 ask (pos 100) 12 pooled_two []).0 ≡ 3
unfolding match_incoming match_levels match_orders fill_front drop_front write release_slot crosses
    erase_slot count_trade increment
two_remaining = refl

two_trading : Matching.max_crossing_qty ask (pos 100) 12 two ≢ 0
two_trading = omega (arith, two_crossed)

two_left : 0 < (match_incoming 9 ask (pos 100) 12 pooled_two []).0
two_left = omega (arith, two_remaining)

slot_is_free_example : (match_incoming 9 ask (pos 100) 12 pooled_two []).1.pool.free_head ≢ 0
slot_is_free_example =
    slot_is_free 9 ask (pos 100) 12 pooled_two two [] two_asked two-IsValid (inr two_trading)
      two_left

two_absent : find_slot 8 pooled_two.order_index ≡ none
unfolding find_slot
two_absent = refl

two_free : pooled_two.pool.free_head ≢ 0
two_free = omega arith

add_resting_order-Rested_example :
    Rested bid pooled_two two two-Represents
      (add_resting_order 8 bid (pos 99) 6 pooled_two)
      (Levels.add_resting_order 8 bid (pos 99) 6 two)
add_resting_order-Rested_example =
    add_resting_order-Rested 8 bid (pos 99) 6 pooled_two two two-Represents two_absent two_free

unlink_slot-Unlinked_example :
    Unlinked first_cell []
      (second_cell ∷ [])
      (level_of (pos 100) (9 - 5) (second_cell ∷ []))
      two_slots
      (unlink_slot (pooled_level two_level) 1 two_slots)
unlink_slot-Unlinked_example =
    unlink_slot-Unlinked (pos 100) 9 first_cell [] (second_cell ∷ []) two_slots two-Linked
      two-Distinct

queries-same_example :
    (orders bid pooled_two ≡ View.orders bid two)
    × (levels bid pooled_two ≡ View.levels bid two)
    × (top_of_book bid pooled_two ≡ View.top_of_book bid two)
    × (live_order_count pooled_two ≡ State.live_order_count two)
queries-same_example = queries-same bid pooled_two two two-Represents
