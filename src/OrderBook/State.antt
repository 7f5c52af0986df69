-- ===== src/OrderBook/State.antt =====
-- The private types of class OrderBook in src/order_book.hpp, and its order index.
use orda_book.Prelude.{ℕ, ◌==◌, if◌then◌else◌, Option, none, some, List, [], ◌∷◌, length}
use orda_book.Types.{Price, Side, bid, ask, EngineStats}

pub record Order : Type 0 where
  pub order_id : ℕ
  pub side : Side
  pub price : Price
  pub qty : ℕ

pub record PriceLevel : Type 0 where
  pub price : Price
  pub total_qty : ℕ
  pub orders : List Order

-- The pointer to a level is the key of that level in its map, and the iterator into the level's
-- list is the id of the order that it stands at: nodes of a std::map and of a std::list stay where
-- they are until they are erased.
pub record OrderLocation : Type 0 where
  pub side : Side
  pub level : Price
  pub order_it : ℕ

abbrev pub OrderIndex : Type 0
OrderIndex = List (ℕ × OrderLocation)

-- A std::map of levels is the list of its values in the map's order; the key of a level is its
-- price. The order index is an association list.
pub record OrderBook : Type 0 where
  pub bids : List PriceLevel
  pub asks : List PriceLevel
  pub order_index : OrderIndex
  pub stats : EngineStats

abbrev pub side_levels : Side → OrderBook → List PriceLevel
side_levels bid book = book.bids
side_levels ask book = book.asks

abbrev pub with_levels : Side → List PriceLevel → OrderBook → OrderBook
with_levels bid levels book = record book { bids = levels }
with_levels ask levels book = record book { asks = levels }

-- order_index_.find
unfoldable pub find_location : ℕ → OrderIndex → Option OrderLocation
find_location order_id [] = none
find_location order_id ((key, location) ∷ index) =
    if key == order_id then some location else find_location order_id index

-- order_index_.erase
unfoldable pub erase_location : ℕ → OrderIndex → OrderIndex
erase_location order_id [] = []
erase_location order_id ((key, location) ∷ index) =
    if key == order_id
    then erase_location order_id index
    else (key, location) ∷ erase_location order_id index

-- order_index_.emplace, which keeps an entry that is there
unfoldable pub emplace_location : ℕ → OrderLocation → OrderIndex → OrderIndex
emplace_location order_id location index = elim (find_location order_id index) [
  | some _ ↦ index
  | none ↦ (order_id, location) ∷ index
]

unfoldable pub live_order_count : OrderBook → ℕ
live_order_count book = length book.order_index
