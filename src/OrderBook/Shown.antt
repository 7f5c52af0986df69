-- ===== src/OrderBook/Shown.antt =====
-- What valid levels show in the view: positive quantities, in the order of the side.
use orda_book.Prelude.{◌≡◌, false, List, [], ◌∷◌, ◌++◌, All, All-append, All-mono}
use orda_book.Types.{Price, Side, OrderSnapshot}
use orda_book.Engine.{ahead}
use orda_book.Engine.Order.{ahead_irrefl, ahead_asymm}
use orda_book.Priority.Uncrossed.{ArePositive, IsSorted}
use orda_book.OrderBook.State.{Order, PriceLevel, OrderBook}
use orda_book.OrderBook.Levels.Contents.{level_orders-All, levels-All}
use orda_book.OrderBook.View.{level_orders, append_level_orders, orders}
use orda_book.OrderBook.Invariant.{IsResting, AreLevels, IsValid}

level_orders-ArePositive :
    (side : Side) (at : Price) (os : List Order)
    → All (IsResting side at) os
    → ArePositive (level_orders at os)
level_orders-ArePositive side at [] h = tt
level_orders-ArePositive side at (o ∷ os) h =
    (h.0.positive, level_orders-ArePositive side at os h.1)

levels-ArePositive :
    (side : Side) (levels : List PriceLevel)
    → AreLevels side levels
    → ArePositive (append_level_orders levels)
unfolding append_level_orders
levels-ArePositive side [] v = tt
levels-ArePositive side (level ∷ levels) (v, _, vs) =
    All-append _ (level_orders level.price level.orders) (append_level_orders levels)
      (level_orders-ArePositive side level.price level.orders v.resting)
      (levels-ArePositive side levels vs)

pub orders-ArePositive :
    (side : Side) (book : OrderBook) → IsValid book → ArePositive (orders side book)
unfolding orders
orders-ArePositive side book v = levels-ArePositive side _ (v.sorted side)

-- A level's orders, and then orders that come after its price.
level-IsSorted :
    (side : Side) (at : Price) (os : List Order) (ys : List OrderSnapshot)
    → All (λ y. ahead side y.price at ≡ false) ys
    → IsSorted side ys
    → IsSorted side (level_orders at os ++ ys)
level-IsSorted side at [] ys b s = s
level-IsSorted side at (o ∷ os) ys b s = (
  All-append _ (level_orders at os) ys
      (level_orders-All (λ p. ahead side p at ≡ false) at os (ahead_irrefl side at)) b,
  level-IsSorted side at os ys b s,
)

levels-IsSorted :
    (side : Side) (levels : List PriceLevel)
    → AreLevels side levels
    → IsSorted side (append_level_orders levels)
unfolding append_level_orders
levels-IsSorted side [] v = tt
levels-IsSorted side (level ∷ levels) (v, b, vs) =
    level-IsSorted side level.price level.orders (append_level_orders levels)
      (levels-All (λ p. ahead side p level.price ≡ false) levels
        (All-mono _ _ (λ l h. ahead_asymm side level.price l.price h) levels b))
      (levels-IsSorted side levels vs)

-- In a valid book, no order of a side has a better price than one before it.
pub orders-IsSorted :
    (side : Side) (book : OrderBook) → IsValid book → IsSorted side (orders side book)
unfolding orders
orders-IsSorted side book v = levels-IsSorted side _ (v.sorted side)
