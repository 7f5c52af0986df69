-- ===== src/OrderBook/Operations/AddingView.antt =====
-- An add of the baseline engine is an add by price-time priority.
use orda_book.Prelude.{
  ℕ, ◌-◌, min, ltb, ◌==◌, ◌≡◌, refl, ap, if◌then◌else◌, Bool, true, false, ◌&&◌, ◌||◌, not, List,
}
use orda_book.Prelude.Int.{ℤ, pos_part}
use orda_book.Types.{
  Price, Side, OrderType, TimeInForce, Trade, BookError, would_take_liquidity, invalid_price,
  insufficient_liquidity, quantity_overflow, invalid_quantity, duplicate_order_id,
}
use orda_book.Engine.{
  opposite, quantity_add_would_overflow, is_valid_price, is_market, is_good_til_cancel,
  is_fill_or_kill, effective_price, effective_time_in_force, count_add,
}
use orda_book.Priority.{available, total_at}
use orda_book.Priority.Book.{queue, Result, refuse, enter_checked, add_to}
use orda_book.OrderBook.State.{OrderBook}
use orda_book.OrderBook.View.{orders}
use orda_book.OrderBook.Invariant.{IsValid, restat-IsValid}
use orda_book.OrderBook.Matching.{max_crossing_qty}
use orda_book.OrderBook.Operations.Entering.{
  view, view_outcome, queue-view, view_outcome-reject, match_and_rest-view,
}
use orda_book.OrderBook.Operations.{
  Outcome, reject, level_overflow, add_checked, add_order_with_policy,
}
use orda_book.OrderBook.Operations.Checks.{
  view_if, level_overflow-total_at, crossing-queue, find_location-is_live,
}

add_checked-view :
    (id : ℕ) (side : Side) (price : Price) (qty : ℕ) (m : Bool) (tif : TimeInForce) (post : Bool)
    (book : OrderBook) (trades : List Trade)
    → IsValid book
    → view_outcome (add_checked id side price qty m tif post book trades)
      ≡ enter_checked id side price qty m tif post (view book) trades
unfolding add_checked enter_checked
add_checked-view id side price qty m tif post book trades v =
    let c = crossing-queue side price qty book v in
    let over : ((not m && is_good_til_cancel tif)
            && level_overflow side price (qty - max_crossing_qty side price qty book) book)
          || quantity_add_would_overflow book.stats.traded_qty
              (max_crossing_qty side price qty book)
        ≡ ((not m && is_good_til_cancel tif)
            && quantity_add_would_overflow (total_at price (queue side (view book)))
                (qty - min qty (available side price (queue (opposite side) (view book)))))
          || quantity_add_would_overflow book.stats.traded_qty
              (min qty (available side price (queue (opposite side) (view book)))) =
      rw (c, level_overflow-total_at side price _ book v, queue-view side book) in
    let refused = λ (e : BookError). view_outcome-reject e book trades in
    view_if _ _ _ _ _ _ (ap (λ (n : ℕ). is_fill_or_kill tif && ltb n qty) c)
      (refused insufficient_liquidity)
      (view_if _ _ _ _ _ _ (ap (λ (n : ℕ). post && not (n == 0)) c) (refused would_take_liquidity) (
        view_if _ _ _ _ _ _ over (refused quantity_overflow)
          (match_and_rest-view id side price qty (not m && is_good_til_cancel tif) book trades v)))

-- The first test of an add, which the source makes in one go.
first_test :
    (market valid post : Bool) (book : OrderBook) (trades : List Trade) (y : Outcome) (y' : Result)
    → view_outcome y ≡ y'
    → view_outcome (
        if (not market && not valid) || (market && post)
        then reject (if market && post then would_take_liquidity else invalid_price) book trades
        else y)
      ≡ (if market && post
          then refuse would_take_liquidity (view book) trades
          else if not market && not valid
          then refuse invalid_price (view book) trades
          else y')
first_test true valid true book trades y y' e = view_outcome-reject would_take_liquidity book trades
first_test true valid false book trades y y' e = e
first_test false true post book trades y y' e = e
first_test false false post book trades y y' e = view_outcome-reject invalid_price book trades

-- An add reports, trades and leaves in view what price-time priority asks for.
pub add_order_with_policy-view :
    (id : ℕ) (side : Side) (price : Price) (qty : ℤ) (type : OrderType) (tif : TimeInForce)
    (post : Bool) (book : OrderBook) (trades : List Trade)
    → IsValid book
    → view_outcome (add_order_with_policy id side price qty type tif post book trades)
      ≡ add_to id side price qty type tif post (view book) trades
unfolding add_order_with_policy add_to orders
add_order_with_policy-view id side price qty type tif post book₀ trades v₀ =
    let book : OrderBook = record book₀ { stats = count_add book₀.stats } in
    let v : IsValid book =
      restat-IsValid book₀ (count_add book₀.stats) v₀ (unfold count_add in refl) in
    first_test (is_market type) (is_valid_price price) post book trades _ _ (
      view_if _ _ _ _ _ _ refl (view_outcome-reject invalid_quantity book trades) (
        view_if _ _ _ _ _ _ (find_location-is_live id book v)
          (view_outcome-reject duplicate_order_id book trades)
          (add_checked-view id side (effective_price type side price) (pos_part qty)
            (is_market type) (effective_time_in_force type tif) post book trades v)))
