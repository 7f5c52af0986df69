-- ===== src/OrderBook/Conservation.antt =====
-- Quantities and sides under the operations: nothing is lost, nothing is made, and the book stays
-- uncrossed.
use orda_book.Prelude.{ℕ, ◌+◌, ◌≡◌, sym, subst, true, false, List}
use orda_book.Prelude.Int.{ℤ, pos_part}
use orda_book.Types.{
  Price, Side, bid, ask, limit, good_til_cancel, EventType, add, cancel, modify, Event, Trade,
  BookError,
}
use orda_book.Engine.{opposite, count_add, count_modify}
use orda_book.Priority.{total, traded, withdraw}
use orda_book.Priority.Entry.{total-own-enter, total-opposite-enter}
use orda_book.Priority.Uncrossed.{
  Uncrossed, IsSorted, enter-Uncrossed, withdraw-IsSorted, withdraw-Uncrossed,
}
use orda_book.Priority.Book.{Queues, queue, Result, add_to, handle, step}
use orda_book.Priority.Admission.{add_to-elim, replace_in-elim, cancel_in-elim}
use orda_book.OrderBook.State.{OrderBook}
use orda_book.OrderBook.View.{orders}
use orda_book.OrderBook.Invariant.{IsValid, both_sides}
use orda_book.OrderBook.Shown.{orders-IsSorted}
use orda_book.OrderBook.Operations.{process, add_order}
use orda_book.OrderBook.Operations.Entering.{view, view_outcome, queue-view}
use orda_book.OrderBook.Operations.Process.{process-step}
use orda_book.OrderBook.Operations.AddingView.{add_order_with_policy-view}
use orda_book.OrderBook.Policies.{kept_in}

-- No bid of the book reaches an ask.
abbrev pub IsUncrossed : OrderBook → Type 0
IsUncrossed book = Uncrossed bid (orders bid book) (orders ask book)

step-Uncrossed :
    (event : Event) (q : Queues) (trades : List Trade)
    → ((s : Side) → IsSorted s (queue s q))
    → Uncrossed bid q.bids q.asks
    → Uncrossed bid (step event q trades).queues.bids (step event q trades).queues.asks
unfolding step
step-Uncrossed event q trades s u = go event.type
  where
    P : Result → Type 0
    P r = Uncrossed bid r.queues.bids r.queues.asks

    go : (t : EventType) → P (handle t event q trades)
    go add =
        add_to-elim P event.order_id event.side event.price event.qty event.order_type
          event.time_in_force event.post_only q trades (λ e ne. u)
          (λ _ _ _ _.
            enter-Uncrossed event.order_id event.side _ _ _ (record q { stats = count_add q.stats })
              trades
              (both_sides (λ t. IsSorted t (queue t (record q { stats = count_add q.stats }))) bid
                (s bid) (s ask))
              u)
    go cancel =
        cancel_in-elim P event.order_id q trades (λ e ne. u)
          (withdraw-Uncrossed event.order_id q.bids q.asks u)
    go modify =
        replace_in-elim P event.order_id event.new_price event.new_qty q trades (λ e ne. u)
          (λ _ _.
            enter-Uncrossed event.order_id _ event.new_price _ true
              (record q {
                bids = withdraw event.order_id q.bids;
                asks = withdraw event.order_id q.asks;
                stats = count_modify q.stats;
              })
              trades
              (both_sides
                (λ t. IsSorted t (
                  queue t (record q {
                    bids = withdraw event.order_id q.bids;
                    asks = withdraw event.order_id q.asks;
                    stats = count_modify q.stats;
                  })))
                bid (withdraw-IsSorted bid event.order_id q.bids (s bid))
                (withdraw-IsSorted ask event.order_id q.asks (s ask)))
              (withdraw-Uncrossed event.order_id q.bids q.asks u))

-- In a valid book in which no bid reaches an ask, no event makes one do so.
pub process-IsUncrossed :
    (event : Event) (book : OrderBook) (trades : List Trade)
    → IsValid book
    → IsUncrossed book
    → IsUncrossed (process event book trades).book
unfolding view_outcome
process-IsUncrossed event book trades v u =
    subst (λ r. Uncrossed bid r.queues.bids r.queues.asks) (sym (process-step event book trades v))
      (step-Uncrossed event (view book) trades
        (λ s. rw (queue-view s book) (orders-IsSorted s book v)) u)

-- The totals of both sides and of the trades, before and after an order that may rest.
abbrev Conserves : Side → ℕ → Queues → List Trade → Result → Type 0
Conserves side qty q trades r =
    r.error ≡ BookError.none
    → (total (queue side r.queues) + traded r.trades ≡ total (queue side q) + qty + traded trades)
      × (total (queue (opposite side) r.queues) + traded r.trades
          ≡ total (queue (opposite side) q) + traded trades)

-- In a valid book, an order that `add_order` accepts loses no quantity: what it adds to its own side
-- and what it trades are its quantity, and what it trades is what the other side gives.
pub add_order-Conserves :
    (id : ℕ) (side : Side) (price : Price) (qty : ℤ) (book : OrderBook) (trades : List Trade)
    → IsValid book
    → (add_order id side price qty book trades).error ≡ BookError.none
    → (total (orders side (add_order id side price qty book trades).book)
          + traded (add_order id side price qty book trades).trades
        ≡ total (orders side book) + pos_part qty + traded trades)
      × (total (orders (opposite side) (add_order id side price qty book trades).book)
            + traded (add_order id side price qty book trades).trades
          ≡ total (orders (opposite side) book) + traded trades)
unfolding add_order view_outcome
add_order-Conserves id side price qty book trades v =
    let P : Result → Type 0 = Conserves side (pos_part qty) (view book) trades in
    let q : Queues = record (view book) { stats = count_add book.stats } in
    let kept : P (add_to id side price qty limit good_til_cancel false (view book) trades) =
      add_to-elim P id side price qty limit good_til_cancel false (view book) trades
        (λ error ne e. absurd (ne e))
        (λ _ _ _ _ _. (
          rw (← kept_in side book (count_add book.stats))
              (total-own-enter id side price (pos_part qty) q trades),
          rw (← kept_in (opposite side) book (count_add book.stats))
              (total-opposite-enter id side price (pos_part qty) true q trades),
        )) in
    let seen =
      subst P
        (sym
          (add_order_with_policy-view id side price qty limit good_til_cancel false book trades v))
        kept in
    rw
      (
        ← queue-view side book,
        ← queue-view (opposite side) book,
        ← queue-view side (add_order id side price qty book trades).book,
        ← queue-view (opposite side) (add_order id side price qty book trades).book,
      )
      seen
