-- ===== src/OrderBook/Operations/Replacing.antt =====
-- A cancel and a modify of the baseline engine are those of price-time priority, and keep the
-- invariant.
use orda_book.Prelude.{
  ℕ, ◌≤◌, ◌≡◌, refl, inl, inr, Option-cases, if◌then◌else◌, if_cases, not, List, arith,
}
use orda_book.Prelude.Int.{ℤ, pos_part}
use orda_book.Types.{Price, Trade, unknown_order_id, invalid_price, invalid_quantity}
use orda_book.Engine.{max_quantity, is_valid_price, is_valid_qty, count_cancel, count_modify}
use orda_book.Priority.Book.{cancel_in, replace_in}
use orda_book.OrderBook.State.{OrderBook, find_location}
use orda_book.OrderBook.Levels.{remove_order}
use orda_book.OrderBook.View.{orders}
use orda_book.OrderBook.Invariant.{IsValid, restat-IsValid}
use orda_book.OrderBook.Withdrawal.{remove_order-IsValid}
use orda_book.OrderBook.Operations.{reject, cancel_order, modify_located, modify_order}
use orda_book.OrderBook.Operations.Entering.{
  view, view_outcome, view_outcome-reject, view_outcome-done,
}
use orda_book.OrderBook.Operations.Adding.{LeavesValid, reject-LeavesValid}
use orda_book.OrderBook.Operations.Checks.{view_if, find_location-is_live}
use orda_book.OrderBook.Operations.Located.{
  remove_order-view, modify_located-LeavesValid, modify_located-view,
}

pub cancel_order-view :
    (id : ℕ) (book : OrderBook) (trades : List Trade)
    → IsValid book
    → view_outcome (cancel_order id book trades) ≡ cancel_in id (view book) trades
unfolding cancel_order cancel_in orders
cancel_order-view id book₀ trades v₀ =
    let book : OrderBook = record book₀ { stats = count_cancel book₀.stats } in
    let v : IsValid book =
      restat-IsValid book₀ (count_cancel book₀.stats) v₀ (unfold count_cancel in refl) in
    let live = find_location-is_live id book v in
    elim (Option-cases (find_location id book.order_index)) [
      | inl e ↦ rw (e, cancel_order, ← live, e) (view_outcome-reject unknown_order_id book trades)
      | inr (l, e) ↦
          rw (e, cancel_order, ← live, e)
            (view_outcome-done (remove_order id l book) _ trades (remove_order-view id l book v e))
    ]

pub cancel_order-LeavesValid :
    (id : ℕ) (book : OrderBook) (trades : List Trade)
    → IsValid book
    → LeavesValid (cancel_order id book trades)
unfolding cancel_order
cancel_order-LeavesValid id book₀ trades v₀ =
    let book : OrderBook = record book₀ { stats = count_cancel book₀.stats } in
    let v : IsValid book =
      restat-IsValid book₀ (count_cancel book₀.stats) v₀ (unfold count_cancel in refl) in
    elim (Option-cases (find_location id book.order_index)) [
      | inl e ↦ rw (e, cancel_order) (reject-LeavesValid unknown_order_id book trades v)
      | inr (l, e) ↦
          rw (e, cancel_order) (record { book_valid = (remove_order-IsValid id l book v e).0 })
    ]

pub modify_order-view :
    (id : ℕ) (price : Price) (qty : ℤ) (book : OrderBook) (trades : List Trade)
    → IsValid book
    → view_outcome (modify_order id price qty book trades)
      ≡ replace_in id price qty (view book) trades
unfolding modify_order replace_in orders
modify_order-view id price qty book₀ trades v₀ =
    let book : OrderBook = record book₀ { stats = count_modify book₀.stats } in
    let v : IsValid book =
      restat-IsValid book₀ (count_modify book₀.stats) v₀ (unfold count_modify in refl) in
    let live = find_location-is_live id book v in
    elim (Option-cases (find_location id book.order_index)) [
      | inl e ↦ rw (e, modify_order, ← live, e) (view_outcome-reject unknown_order_id book trades)
      | inr (l, e) ↦
          rw (e, modify_order, ← live, e)
            (view_if _ _ _ _ _ _ refl (view_outcome-reject invalid_price book trades) (
              view_if _ _ _ _ _ _ refl (view_outcome-reject invalid_quantity book trades)
                (modify_located-view id l book v e price (pos_part qty) trades)))
    ]

pub modify_order-LeavesValid :
    (id : ℕ) (price : Price) (qty : ℤ) (book : OrderBook) (trades : List Trade)
    → IsValid book
    → pos_part qty ≤ max_quantity
    → LeavesValid (modify_order id price qty book trades)
unfolding modify_order
modify_order-LeavesValid id price qty book₀ trades v₀ small =
    let book : OrderBook = record book₀ { stats = count_modify book₀.stats } in
    let v : IsValid book =
      restat-IsValid book₀ (count_modify book₀.stats) v₀ (unfold count_modify in refl) in
    elim (Option-cases (find_location id book.order_index)) [
      | inl e ↦ rw (e, modify_order) (reject-LeavesValid unknown_order_id book trades v)
      | inr (l, e) ↦
          let located = modify_located id l price (pos_part qty) book trades in
          let sized =
            if not (is_valid_qty qty) then reject invalid_quantity book trades else located in
          rw (e, modify_order)
            (if_cases LeavesValid (not (is_valid_price price)) _ sized
              (λ _. reject-LeavesValid invalid_price book trades v)
              λ p.
                if_cases LeavesValid (not (is_valid_qty qty)) _ located
                  (λ _. reject-LeavesValid invalid_quantity book trades v)
                  λ _.
                    modify_located-LeavesValid id l book v e price (pos_part qty) trades small
                      (unfold is_valid_price in ground (arith, p)))
    ]
