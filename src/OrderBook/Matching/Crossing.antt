-- ===== src/OrderBook/Matching/Crossing.antt =====
-- `max_crossing_qty` is what the matching that follows it will trade.
use orda_book.Prelude.{
  ℕ, ◌+◌, ◌-◌, ◌≤◌, min, if◌then◌else◌, Bool-cases, ◌≡◌, refl, ◌∙◌, inl, inr, false, List, [], ◌∷◌,
  arith,
}
use orda_book.Types.{Price, Side}
use orda_book.Engine.{crosses, opposite}
use orda_book.Priority.{available, total}
use orda_book.Priority.Fills.{available-append}
use orda_book.OrderBook.State.{Order, PriceLevel, OrderBook}
use orda_book.OrderBook.Levels.{is_empty}
use orda_book.OrderBook.View.{level_orders, append_level_orders, orders}
use orda_book.OrderBook.Invariant.{AreLevels, IsValid}
use orda_book.OrderBook.Matching.{crossing_loop, max_crossing_qty}
use orda_book.OrderBook.Matching.Walk.{level_crosses}

module _ (side : Side) (price : Price) where
  available_level :
      (level : PriceLevel) (levels : List PriceLevel) (os : List Order)
      → level.orders ≡ os
      → is_empty level.orders ≡ false
      → available side price (append_level_orders (level ∷ levels)) ≡ (
          if crosses side price level.price
          then total (level_orders level.price level.orders)
            + available side price (append_level_orders levels)
          else 0)
  unfolding append_level_orders
  available_level level levels [] e n = cc
  available_level level levels (o ∷ os) e n = elim (Bool-cases (crosses side price level.price)) [
    | inl c ↦ rw c (
        available-append side price (level_orders level.price level.orders)
          (append_level_orders levels) (level_crosses side price level.price level.orders c))
    | inr stop ↦ rw (stop, e) (unfold available in rw stop)
  ]

  crossing_loop-available :
      (resting_side : Side) (qty found : ℕ) (levels : List PriceLevel)
      → AreLevels resting_side levels
      → found ≤ qty
      → crossing_loop side price qty found levels
        ≡ min qty (found + available side price (append_level_orders levels))
  unfolding crossing_loop
  crossing_loop-available resting_side qty found [] v h =
      unfold available append_level_orders in omega arith
  crossing_loop-available resting_side qty found (level ∷ levels) (v, _, vs) h =
      rw (available_level level levels level.orders refl v.occupied) (
        ground (
          arith,
          v.counted,
          crossing_loop-available resting_side qty (found + min (qty - found) level.total_qty)
              levels vs,
        ))

  -- In a valid book, the loop over level totals finds what the orders at acceptable prices offer, up to
  -- the incoming quantity.
  pub max_crossing_qty-available :
      (qty : ℕ) (book : OrderBook)
      → IsValid book
      → max_crossing_qty side price qty book
        ≡ min qty (available side price (orders (opposite side) book))
  unfolding max_crossing_qty orders
  max_crossing_qty-available qty book v =
      crossing_loop-available (opposite side) qty 0 _ (v.sorted (opposite side)) (omega arith)
      ∙ omega arith
