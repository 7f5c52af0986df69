-- ===== src/OrderBook/Levels.antt =====
-- Levels and the orders in them: `ensure_level`, `add_resting_order` and `remove_order` of
-- src/order_book.cpp with the std::map and std::list calls that they make.
pub mod Contents
pub mod Resting
pub mod Unlinking
pub mod Removal
pub mod Located
use orda_book.Prelude.{
  ℕ, ◌+◌, ◌-◌, ◌==◌, if◌then◌else◌, Bool, true, false, Option, none, some, List, [], ◌∷◌, ◌++◌,
}
use orda_book.Prelude.Int.{pos, eqb_ℤ}
use orda_book.Types.{Price, Side, bid}
use orda_book.Engine.{ahead}
use orda_book.OrderBook.State.{
  Order, PriceLevel, OrderLocation, OrderBook, side_levels, with_levels, erase_location,
  emplace_location,
}

-- bids_.find and asks_.find
unfoldable pub find_level : Price → List PriceLevel → Option PriceLevel
find_level price [] = none
find_level price (level ∷ levels) =
    if eqb_ℤ level.price price then some level else find_level price levels

abbrev pub empty_level : Price → PriceLevel
empty_level price = record { price = price; total_qty = 0; orders = [] }

-- try_emplace in the map's order; a new level is given its price.
unfoldable pub ensure_level : Side → Price → List PriceLevel → List PriceLevel
ensure_level side price [] = empty_level price ∷ []
ensure_level side price (level ∷ levels) =
    if eqb_ℤ level.price price
    then level ∷ levels
    else if ahead side level.price price
    then level ∷ ensure_level side price levels
    else empty_level price ∷ level ∷ levels

-- A write through a reference to the level at a price.
unfoldable pub update_level : Price → (PriceLevel → PriceLevel) → List PriceLevel → List PriceLevel
update_level price change [] = []
update_level price change (level ∷ levels) =
    if eqb_ℤ level.price price
    then change level ∷ levels
    else level ∷ update_level price change levels

-- bids_.erase and asks_.erase
unfoldable pub erase_level : Price → List PriceLevel → List PriceLevel
erase_level price [] = []
erase_level price (level ∷ levels) =
    if eqb_ℤ level.price price then levels else level ∷ erase_level price levels

abbrev pub is_empty {ℓ} : {A : Type ℓ} → List A → Bool
is_empty [] = true
is_empty (x ∷ xs) = false

unfoldable pub push_order : Order → PriceLevel → PriceLevel
push_order order level = record level {
  total_qty = level.total_qty + order.qty;
  orders = level.orders ++ (order ∷ []);
}

unfoldable pub add_resting_order : ℕ → Side → Price → ℕ → OrderBook → OrderBook
unfolding ensure_level update_level push_order emplace_location
add_resting_order order_id side price qty book =
    let order : Order = record { order_id = order_id; side = side; price = price; qty = qty } in
    let location : OrderLocation = record { side = side; level = price; order_it = order_id } in
    let levels = ensure_level side price (side_levels side book) in
    record (with_levels side (update_level price (push_order order) levels) book) {
      order_index = emplace_location order_id location book.order_index;
    }

-- What an iterator into a level's list points at. No book that the operations build holds an
-- iterator to an order that is gone, so the value-initialised order below is never read.
unfoldable pub order_at : ℕ → List Order → Order
order_at order_it [] = record { order_id = 0; side = bid; price = pos 0; qty = 0 }
order_at order_it (order ∷ orders) =
    if order.order_id == order_it then order else order_at order_it orders

-- level.orders.erase(order_it)
unfoldable pub erase_order : ℕ → List Order → List Order
erase_order order_it [] = []
erase_order order_it (order ∷ orders) =
    if order.order_id == order_it then orders else order ∷ erase_order order_it orders

-- `*location.level`, likewise never read where the level is gone.
unfoldable pub level_at : Price → List PriceLevel → PriceLevel
unfolding find_level
level_at price levels = elim (find_level price levels) [
  | some level ↦ level
  | none ↦ empty_level price
]

unfoldable pub unlink_order : ℕ → PriceLevel → PriceLevel
unfolding order_at erase_order
unlink_order order_it level = record level {
  total_qty = level.total_qty - (order_at order_it level.orders).qty;
  orders = erase_order order_it level.orders;
}

unfoldable pub remove_order : ℕ → OrderLocation → OrderBook → OrderBook
unfolding level_at unlink_order update_level erase_level erase_location
remove_order order_id location book =
    let levels = side_levels location.side book in
    let level = unlink_order location.order_it (level_at location.level levels) in
    let kept =
      if is_empty level.orders
      then erase_level level.price levels
      else update_level location.level (λ _. level) levels in
    record (with_levels location.side kept book) {
      order_index = erase_location order_id book.order_index;
    }
