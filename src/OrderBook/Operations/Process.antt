-- ===== src/OrderBook/Operations/Process.antt =====
-- `process`: every event is handled by price-time priority, in a book that stays valid.
use orda_book.Prelude.{◌≤◌, ◌≡◌, List}
use orda_book.Prelude.Int.{pos_part}
use orda_book.Types.{Event, EventType, add, cancel, modify, Trade}
use orda_book.Engine.{max_quantity}
use orda_book.Priority.Book.{handle, step}
use orda_book.OrderBook.State.{OrderBook}
use orda_book.OrderBook.Invariant.{IsValid}
use orda_book.OrderBook.Operations.{process, dispatch}
use orda_book.OrderBook.Operations.Entering.{view, view_outcome}
use orda_book.OrderBook.Operations.Adding.{LeavesValid, add_order_with_policy-LeavesValid}
use orda_book.OrderBook.Operations.AddingView.{add_order_with_policy-view}
use orda_book.OrderBook.Operations.Replacing.{
  cancel_order-view, cancel_order-LeavesValid, modify_order-view, modify_order-LeavesValid,
}

-- The quantities of an event are in the range of their type.
pub record InRange (event : Event) : Type 0 where
  pub qty_fits : pos_part event.qty ≤ max_quantity
  pub new_qty_fits : pos_part event.new_qty ≤ max_quantity

-- In a valid book, on every branch and for every event, the error that `process` returns, the trades that it appends,
-- the resting orders of both sides and the counters are those of price-time priority.
pub process-step :
    (event : Event) (book : OrderBook) (trades : List Trade)
    → IsValid book
    → view_outcome (process event book trades) ≡ step event (view book) trades
unfolding process step
process-step event book trades v = go event.type
  where
    go :
        (t : EventType)
        → view_outcome (dispatch t event book trades) ≡ handle t event (view book) trades
    go add =
        add_order_with_policy-view event.order_id event.side event.price event.qty event.order_type
          event.time_in_force event.post_only book trades v
    go cancel = cancel_order-view event.order_id book trades v
    go modify = modify_order-view event.order_id event.new_price event.new_qty book trades v

process-LeavesValid :
    (event : Event) (book : OrderBook) (trades : List Trade)
    → IsValid book
    → InRange event
    → LeavesValid (process event book trades)
unfolding process
process-LeavesValid event book trades v r = go event.type
  where
    go : (t : EventType) → LeavesValid (dispatch t event book trades)
    go add =
        add_order_with_policy-LeavesValid event.order_id event.side event.price event.qty
          event.order_type event.time_in_force event.post_only book trades v r.qty_fits
    go cancel = cancel_order-LeavesValid event.order_id book trades v
    go modify =
        modify_order-LeavesValid event.order_id event.new_price event.new_qty book trades v
          r.new_qty_fits

-- In a valid book, an event whose quantities fit their type leaves a valid book, whatever it asks
-- for and however it is answered.
pub process-IsValid :
    (event : Event) (book : OrderBook) (trades : List Trade)
    → IsValid book
    → InRange event
    → IsValid (process event book trades).book
process-IsValid event book trades v r = (process-LeavesValid event book trades v r).book_valid
