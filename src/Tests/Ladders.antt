-- ===== src/Tests/Ladders.antt =====
-- The ladder engine of src/ladder_order_book.cpp on concrete books, and the theorems on them.
use orda_book.Prelude.{
  ℕ, ◌+◌, min, ◌==◌, ne→==, ◌≡◌, ◌≢◌, refl, ap, ◌∙◌, if◌then◌else◌, true, false, some, List, [],
  ◌∷◌, arith, length,
}
use orda_book.Prelude.Int.{pos}
use orda_book.Types.{bid, ask, fill_or_kill, limit, BookError}
use orda_book.Engine.{
  crosses, increment, count_add, count_trade, is_valid_qty, quantity_add_would_overflow,
}
use orda_book.Ladder.Bitmaps.{
  best_index, lowest_from, highest_below, clear_lowest, set_occupied, clear_occupied, best_up,
  best_down,
}
use orda_book.Ladder.State.{
  LadderOrderBook, no_bits, valid_price, index_for, find_location, erase_location,
  add_resting_order, new_ladder, price_at,
}
use orda_book.Ladder.Matching.{
  level_loop, word_loop, words_up, words_down, max_crossing_qty, fill_front, match_orders,
  match_levels, match_incoming,
}
use orda_book.Ladder.Operations.{add_order_with_policy, add_checked, match_and_rest}
use orda_book.Ladder.Best.{IsBest}
use orda_book.Ladder.Summary.{is_marked}
use orda_book.Ladder.Marks.{
  Mark, set, clear, do_marks, members, is_marked-do_marks, do_marks-IsSummary, no_bits-IsSummary,
  best_index-do_marks,
}
use orda_book.Ladder.Stock.{new_ladder-IsReady, add_resting_order-IsReady}
use orda_book.Ladder.Ending.{IsEnded, match_incoming-IsEnded}
use orda_book.Ladder.Counted.{max_crossing_qty-counts_twice}
use orda_book.OrderBook.Runs.{no_stats}

abbrev marks : List Mark
marks = set 4100 ∷ set 99 ∷ set 7 ∷ clear 7 ∷ []

best_index-do_marks_example :
    IsBest bid 49 (members marks (λ i. false)) (best_index bid 49 (do_marks marks no_bits))
best_index-do_marks_example = best_index-do_marks bid 49 marks

best_found : best_index ask 49 (do_marks marks no_bits) ≡ some 99
unfolding best_index best_up do_marks set_occupied clear_occupied lowest_from
best_found = refl

-- Bids of 1 at 100 and of 7 at 101.
abbrev two_bids : LadderOrderBook
two_bids = record {
  min_price = pos 1;
  max_price = pos 200000;
  count = 200000;
  size = 49;
  levels = λ i. record {
    price = pos (1 + i);
    total_qty = if i == 100 then 7 else if i == 99 then 1 else 0;
    orders =
        if i == 100
        then record { order_id = 2; side = bid; price = pos 101; qty = 7 } ∷ []
        else if i == 99
        then record { order_id = 1; side = bid; price = pos 100; qty = 1 } ∷ []
        else [];
  };
  bids = do_marks (set 99 ∷ set 100 ∷ []) no_bits;
  asks = no_bits;
  order_index =
      (1, record { level = 99; order_it = 1 }) ∷ (2, record { level = 100; order_it = 2 }) ∷ [];
  stats = no_stats;
}

two_marked :
    (i : ℕ)
    → is_marked two_bids.bids i ≡ (if i == 100 then true else if i == 99 then true else false)
unfolding members
two_marked i = ap (λ m. m i) (is_marked-do_marks (set 99 ∷ set 100 ∷ []) no_bits)

not_marked : (i : ℕ) → i ≢ 99 → i ≢ 100 → is_marked two_bids.bids i ≡ false
not_marked i m n = two_marked i ∙ rw (ne→== n, ne→== m)

crossed : crosses ask (pos 100) (pos 101) ≡ true
unfolding crosses
crossed = refl

max_crossing_qty-counts_twice_example : max_crossing_qty ask (pos 100) 12 two_bids ≡ min 12 14
max_crossing_qty-counts_twice_example =
    max_crossing_qty-counts_twice (pos 100) 12 two_bids 99 100
      (do_marks-IsSummary (set 99 ∷ set 100 ∷ []) no_bits no_bits-IsSummary) (omega arith) refl
      (omega arith) (two_marked 99) (two_marked 100) not_marked crossed

-- A fill-or-kill sell of 12 is accepted where 8 are for sale, and trades 8.
killed_short :
    let o = add_order_with_policy 3 ask (pos 100) (pos 12) limit fill_or_kill false two_bids [] in
    (o.error ≡ BookError.none) × (length o.trades ≡ 2) × (o.book.stats.traded_qty ≡ 8)
unfolding add_order_with_policy add_checked match_and_rest max_crossing_qty words_up words_down
    word_loop level_loop match_incoming match_levels match_orders fill_front best_index best_up
    best_down do_marks set_occupied clear_occupied lowest_from highest_below clear_lowest
    valid_price is_valid_qty find_location erase_location quantity_add_would_overflow crosses
    increment count_add count_trade index_for add_resting_order
killed_short = (refl, refl, refl)

abbrev new_book : LadderOrderBook
new_book = record {
  min_price = pos 1;
  max_price = pos 200000;
  count = 200000;
  size = 49;
  levels = λ index. record { price = price_at (pos 1) index; total_qty = 0; orders = [] };
  bids = no_bits;
  asks = no_bits;
  order_index = [];
  stats = no_stats;
}

new_book_made : new_ladder (pos 1) (pos 200000) ≡ some new_book
unfolding new_ladder
new_book_made = refl

abbrev rested_twice : LadderOrderBook
rested_twice = add_resting_order 2 bid (pos 101) 7 (add_resting_order 1 bid (pos 100) 1 new_book)

match_incoming-IsEnded_example :
    IsEnded rested_twice.min_price ask (pos 100) (match_incoming 3 ask (pos 100) 12 rested_twice [])
match_incoming-IsEnded_example = match_incoming-IsEnded 3 ask (pos 100) 12 rested_twice [] (
    add_resting_order-IsReady 2 bid (pos 101) 7 (add_resting_order 1 bid (pos 100) 1 new_book) bid
      (omega arith)
      (add_resting_order-IsReady 1 bid (pos 100) 1 new_book bid (omega arith)
        (new_ladder-IsReady (pos 1) (pos 200000) new_book bid new_book_made)))
