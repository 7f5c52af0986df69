-- ===== src/OrderBook/Runs.antt =====
-- A stream of events through `process`, one after another, as the replay loop of
-- src/replay_main.cpp feeds a book.
use orda_book.Prelude.{ℕ, ◌<◌, ◌≡◌, ◌∙◌, refl, ap, List, [], ◌∷◌, All, arith}
use orda_book.Types.{bid, Event, Trade, EngineStats}
use orda_book.Priority.{count_id}
use orda_book.Priority.Book.{Queues, step}
use orda_book.OrderBook.State.{OrderBook, side_levels, find_location}
use orda_book.OrderBook.View.{append_level_orders, orders, located}
use orda_book.OrderBook.Invariant.{AreLevels, IsValid, count_live, both_sides}
use orda_book.OrderBook.Conservation.{IsUncrossed, process-IsUncrossed}
use orda_book.OrderBook.Operations.{process}
use orda_book.OrderBook.Operations.Entering.{view, view_outcome}
use orda_book.OrderBook.Operations.Process.{InRange, process-step, process-IsValid}

unfoldable pub run : List Event → OrderBook → List Trade → OrderBook × List Trade
run [] book trades = (book, trades)
run (event ∷ events) book trades = let o = process event book trades in run events o.book o.trades

-- The same stream through price-time priority.
unfoldable pub follow : List Event → Queues → List Trade → Queues × List Trade
follow [] q trades = (q, trades)
follow (event ∷ events) q trades = let r = step event q trades in follow events r.queues r.trades

abbrev pub no_stats : EngineStats
no_stats = record {
  add_requests = 0;
  cancel_requests = 0;
  modify_requests = 0;
  rejected_requests = 0;
  trades = 0;
  traded_qty = 0;
}

-- A book as its constructor leaves it.
abbrev pub empty_book : OrderBook
empty_book = record { bids = []; asks = []; order_index = []; stats = no_stats }

pub empty_book-IsValid : IsValid empty_book
unfolding count_live orders append_level_orders count_id find_location
empty_book-IsValid = record {
  sorted = both_sides (λ s. AreLevels s (side_levels s empty_book)) bid tt tt;
  unique = λ id. omega arith;
  indexed =
      both_sides
        (λ s.
          (id : ℕ)
          → 0 < count_id id (append_level_orders (side_levels s empty_book))
          → find_location id [] ≡ located id (append_level_orders (side_levels s empty_book)))
        bid (λ id h. absurd (omega arith)) (λ id h. absurd (omega arith));
  absent = λ id z. refl;
  traded_bounded = omega arith;
}

-- From a valid book, a stream of events whose quantities fit leaves a valid book.
pub run-IsValid :
    (events : List Event) (book : OrderBook) (trades : List Trade)
    → IsValid book
    → All InRange events
    → IsValid (run events book trades).0
unfolding run
run-IsValid [] book trades v r = v
run-IsValid (event ∷ events) book trades v (r, rs) =
    let o = process event book trades in
    run-IsValid events o.book o.trades (process-IsValid event book trades v r) rs

-- From a valid book, a stream of events whose quantities fit trades, and leaves in view, what
-- price-time priority asks for.
pub run-follow :
    (events : List Event) (book : OrderBook) (trades : List Trade)
    → IsValid book
    → All InRange events
    → (view (run events book trades).0, (run events book trades).1)
      ≡ follow events (view book) trades
unfolding run follow view_outcome
run-follow [] book trades v r = refl
run-follow (event ∷ events) book trades v (r, rs) =
    let o = process event book trades in
    run-follow events o.book o.trades (process-IsValid event book trades v r) rs
    ∙ ap (λ x. follow events x.queues x.trades) (process-step event book trades v)

run-IsUncrossed :
    (events : List Event) (book : OrderBook) (trades : List Trade)
    → IsValid book
    → IsUncrossed book
    → All InRange events
    → IsUncrossed (run events book trades).0
unfolding run
run-IsUncrossed [] book trades v u r = u
run-IsUncrossed (event ∷ events) book trades v u (r, rs) =
    let o = process event book trades in
    run-IsUncrossed events o.book o.trades (process-IsValid event book trades v r)
      (process-IsUncrossed event book trades v u) rs

-- Whatever stream of events whose quantities fit a new book is fed, no bid of it reaches an ask.
pub run_empty-IsUncrossed :
    (events : List Event) → All InRange events → IsUncrossed (run events empty_book []).0
run_empty-IsUncrossed events r =
    run-IsUncrossed events empty_book [] empty_book-IsValid
      (unfold orders append_level_orders in tt) r
