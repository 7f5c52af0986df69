-- ===== src/OrderBook/View.antt =====
-- The queries of src/order_book.cpp. `orders` is the view in which the engine is specified.
use orda_book.Prelude.{ℕ, ◌==◌, if◌then◌else◌, Option, none, some, List, [], ◌∷◌, ◌++◌, map, length}
use orda_book.Types.{Price, Side, OrderSnapshot, LevelSnapshot}
use orda_book.OrderBook.State.{
  Order, PriceLevel, OrderLocation, OrderIndex, OrderBook, side_levels, erase_location,
}

abbrev pub snapshot : Price → Order → OrderSnapshot
snapshot price order = record {
  order_id = order.order_id;
  side = order.side;
  price = price;
  qty = order.qty;
}

abbrev pub level_orders : Price → List Order → List OrderSnapshot
level_orders price [] = []
level_orders price (order ∷ orders) = snapshot price order ∷ level_orders price orders

-- `append_level_orders`
unfoldable pub append_level_orders : List PriceLevel → List OrderSnapshot
append_level_orders [] = []
append_level_orders (level ∷ levels) =
    level_orders level.price level.orders ++ append_level_orders levels

unfoldable pub orders : Side → OrderBook → List OrderSnapshot
orders side book = append_level_orders (side_levels side book)

abbrev pub level_snapshot : PriceLevel → LevelSnapshot
level_snapshot level = record {
  price = level.price;
  qty = level.total_qty;
  order_count = length level.orders;
}

unfoldable pub levels : Side → OrderBook → List LevelSnapshot
levels side book = map level_snapshot (side_levels side book)

abbrev pub first_level : List PriceLevel → Option LevelSnapshot
first_level [] = none
first_level (level ∷ levels) = some (level_snapshot level)

unfoldable pub top_of_book : Side → OrderBook → Option LevelSnapshot
top_of_book side book = first_level (side_levels side book)

-- The location that the index should hold for an id: where the orders of a side have it.
unfoldable pub located : ℕ → List OrderSnapshot → Option OrderLocation
located order_id [] = none
located order_id (order ∷ orders) =
    if order.order_id == order_id
    then some (record { side = order.side; level = order.price; order_it = order.order_id })
    else located order_id orders

unfoldable pub erase_locations : List ℕ → OrderIndex → OrderIndex
erase_locations [] index = index
erase_locations (key ∷ keys) index = erase_locations keys (erase_location key index)
