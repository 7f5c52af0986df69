-- ===== src/Tests/Examples.antt =====
-- The theorems on the sample book and on orders for it.
use orda_book.Prelude.{◌+◌, min, ◌≡◌, refl, true, false, [], ◌∷◌, ◌++◌, All, arith}
use orda_book.Prelude.Int.{pos}
use orda_book.Types.{
  bid, ask, limit, market, good_til_cancel, immediate_or_cancel, fill_or_kill, BookError,
}
use orda_book.Priority.{available, total, traded}
use orda_book.Priority.Book.{step}
use orda_book.OrderBook.Levels.{add_resting_order}
use orda_book.OrderBook.View.{orders, levels, top_of_book}
use orda_book.OrderBook.Invariant.{IsValid}
use orda_book.OrderBook.Matching.{max_crossing_qty, match_incoming}
use orda_book.OrderBook.Matching.Crossing.{max_crossing_qty-available}
use orda_book.OrderBook.Matching.Refines.{Matches, match_incoming-Matches}
use orda_book.OrderBook.Placement.{Rests, add_resting_order-Rests}
use orda_book.OrderBook.Operations.{process, add_order, add_order_with_policy, cancel_order}
use orda_book.OrderBook.Operations.Entering.{view, view_outcome}
use orda_book.OrderBook.Operations.Process.{process-step, process-IsValid}
use orda_book.OrderBook.Policies.{
  process-RefusesWhole, add_order_with_policy-FillsWhole, add_order_with_policy-NeverRests,
  add_order_with_policy-Quiet,
}
use orda_book.OrderBook.Conservation.{IsUncrossed, process-IsUncrossed, add_order-Conserves}
use orda_book.OrderBook.Runs.{
  run, follow, empty_book, empty_book-IsValid, run-follow, run_empty-IsUncrossed,
}
use orda_book.OrderBook.Queries.{Reports, IsBest, levels-Reports, top_of_book-IsBest}
use orda_book.OrderBook.Returns.{cancel_order-add_order}
use orda_book.Codec.Reader.{
  succeed, write_binary_event_file, parse_binary_event_file, for_each_binary_event_file,
}
use orda_book.Codec.Files.{
  parse_binary_event_file-write_binary_event_file, parse_binary_event_file-cut,
}
use orda_book.Replay.{new_replay, Explains, consume_all, consume_all-Explains}
use orda_book.Replay.Trace.{Shows, trace_all, trace_all-Shows}
use orda_book.Tests.Samples.{
  engine, limit_order, sell-Fits, new_trace, quotes, quoted, quoted-IsValid, quotes-InRange,
  sell-InRange,
}

process-step_example :
    view_outcome (process (limit_order 9 ask 100 7) quoted [])
    ≡ step (limit_order 9 ask 100 7) (view quoted) []
process-step_example = process-step (limit_order 9 ask 100 7) quoted [] quoted-IsValid

process-IsValid_example : IsValid (process (limit_order 9 ask 100 7) quoted []).book
process-IsValid_example =
    process-IsValid (limit_order 9 ask 100 7) quoted [] quoted-IsValid sell-InRange

run-follow_example :
    (view (run quotes empty_book []).0, (run quotes empty_book []).1)
    ≡ follow quotes (view empty_book) []
run-follow_example = run-follow quotes empty_book [] empty_book-IsValid quotes-InRange

process-IsUncrossed_example : IsUncrossed (process (limit_order 9 ask 100 7) quoted []).book
process-IsUncrossed_example =
    process-IsUncrossed (limit_order 9 ask 100 7) quoted [] quoted-IsValid
      (run_empty-IsUncrossed quotes quotes-InRange)

run_empty-IsUncrossed_example : IsUncrossed (run quotes empty_book []).0
run_empty-IsUncrossed_example = run_empty-IsUncrossed quotes quotes-InRange

process-RefusesWhole_example :
    let o = process (limit_order 3 ask 100 7) quoted [] in
    (o.trades ≡ [])
    × (orders bid o.book ≡ orders bid quoted)
    × (orders ask o.book ≡ orders ask quoted)
    × (o.book.stats.traded_qty ≡ quoted.stats.traded_qty)
unfolding engine
process-RefusesWhole_example =
    process-RefusesWhole (limit_order 3 ask 100 7) quoted [] quoted-IsValid (λ e. cc)

add_order_with_policy-FillsWhole_example :
    traded (add_order_with_policy 9 bid (pos 102) (pos 8) limit fill_or_kill false quoted []).trades
    ≡ traded [] + 8
unfolding engine
add_order_with_policy-FillsWhole_example =
    add_order_with_policy-FillsWhole 9 bid (pos 102) (pos 8) limit false quoted [] quoted-IsValid
      refl

-- A market order that asks for fill-or-kill is filled in part.
market_filled :
    let o = add_order_with_policy 9 bid (pos 1) (pos 20) market fill_or_kill false quoted [] in
    (o.error ≡ BookError.none) × (traded o.trades ≡ 9)
unfolding engine traded
market_filled = (refl, refl)

add_order_with_policy-NeverRests_example :
    orders bid
      (add_order_with_policy 9 bid (pos 101) (pos 9) limit immediate_or_cancel false quoted []).book
    ≡ orders bid quoted
add_order_with_policy-NeverRests_example =
    add_order_with_policy-NeverRests 9 bid (pos 101) (pos 9) limit immediate_or_cancel false quoted
      [] quoted-IsValid refl

add_order_with_policy-Quiet_example :
    let o = add_order_with_policy 9 bid (pos 100) (pos 9) limit good_til_cancel true quoted [] in
    (o.trades ≡ []) × (orders ask o.book ≡ orders ask quoted)
add_order_with_policy-Quiet_example =
    add_order_with_policy-Quiet 9 bid (pos 100) (pos 9) limit good_til_cancel quoted []
      quoted-IsValid

add_order-Conserves_example :
    let o = add_order 9 ask (pos 100) (pos 20) quoted [] in
    (total (orders ask o.book) + traded o.trades ≡ total (orders ask quoted) + 20 + traded [])
    × (total (orders bid o.book) + traded o.trades ≡ total (orders bid quoted) + traded [])
unfolding engine
add_order-Conserves_example =
    add_order-Conserves 9 ask (pos 100) (pos 20) quoted [] quoted-IsValid refl

cancel_order-add_order_example :
    let o = cancel_order 9 (add_order 9 ask (pos 101) (pos 20) quoted []).book [] in
    (o.error ≡ BookError.none)
    × (orders bid o.book ≡ orders bid quoted)
    × (orders ask o.book ≡ orders ask quoted)
unfolding engine
cancel_order-add_order_example =
    cancel_order-add_order 9 ask (pos 101) (pos 20) quoted [] quoted-IsValid (omega arith) refl refl

top_of_book-IsBest_example : IsBest bid (orders bid quoted) (top_of_book bid quoted)
top_of_book-IsBest_example = top_of_book-IsBest bid quoted quoted-IsValid

levels-Reports_example : All (Reports (orders bid quoted)) (levels bid quoted)
levels-Reports_example = levels-Reports bid quoted quoted-IsValid

match_incoming-Matches_example :
    Matches 9 ask (pos 100) 7 quoted [] (match_incoming 9 ask (pos 100) 7 quoted [])
match_incoming-Matches_example =
    match_incoming-Matches 9 ask (pos 100) 7 quoted [] (quoted-IsValid.sorted bid)

max_crossing_qty-available_example :
    max_crossing_qty ask (pos 100) 12 quoted ≡ min 12 (available ask (pos 100) (orders bid quoted))
max_crossing_qty-available_example =
    max_crossing_qty-available ask (pos 100) 12 quoted quoted-IsValid

add_resting_order-Rests_example :
    Rests 9 ask (pos 101) 4 quoted (add_resting_order 9 ask (pos 101) 4 quoted)
add_resting_order-Rests_example =
    add_resting_order-Rests 9 ask (pos 101) 4 quoted (quoted-IsValid.sorted ask)

parse_binary_event_file-write_binary_event_file_example :
    (parse_binary_event_file (write_binary_event_file (limit_order 9 ask 100 7 ∷ []))
      ≡ succeed (limit_order 9 ask 100 7 ∷ []))
    × (for_each_binary_event_file (write_binary_event_file (limit_order 9 ask 100 7 ∷ []))
        ≡ record { seen = limit_order 9 ask 100 7 ∷ []; result = succeed [] })
parse_binary_event_file-write_binary_event_file_example =
    parse_binary_event_file-write_binary_event_file (limit_order 9 ask 100 7 ∷ []) (sell-Fits, tt)

parse_binary_event_file-cut_example :
    let file = write_binary_event_file (limit_order 9 ask 100 7 ∷ []) ++ (1 ∷ 2 ∷ []) in
    (parse_binary_event_file file ≡ succeed (limit_order 9 ask 100 7 ∷ []))
    × (for_each_binary_event_file file
        ≡ record { seen = limit_order 9 ask 100 7 ∷ []; result = succeed [] })
parse_binary_event_file-cut_example =
    parse_binary_event_file-cut (limit_order 9 ask 100 7 ∷ []) (1 ∷ 2 ∷ []) (sell-Fits, tt)
      (omega arith)

consume_all-Explains_example : Explains quotes new_replay (consume_all quotes new_replay)
consume_all-Explains_example =
    consume_all-Explains quotes new_replay refl (omega arith) empty_book-IsValid quotes-InRange

trace_all-Shows_example : Shows quotes new_trace (trace_all quotes new_trace)
trace_all-Shows_example = trace_all-Shows quotes new_trace refl (omega arith)
