-- ===== src/Ladder/State.antt =====
-- The members of class LadderOrderBook in src/ladder_order_book.hpp.
use orda_book.Prelude.{
  ℕ, ◌+◌, ◌-◌, ◌/◌, ◌==◌, if◌then◌else◌, Bool, true, false, ◌&&◌, ◌||◌, Option, none, some, List,
  [], ◌∷◌, ◌++◌, length,
}
use orda_book.Prelude.Int.{pos, pos_part, ltb_ℤ, leb_ℤ}
use orda_book.Types.{Price, Side, bid, ask, OrderSnapshot, EngineStats}
use orda_book.Ladder.Bitmaps.{Occupied, set_occupied, clear_occupied}

pub record PriceLevel : Type 0 where
  pub price : Price
  pub total_qty : ℕ
  pub orders : List OrderSnapshot

-- The pointer to a level is its place in the vector, and the iterator is the id of its order.
pub record OrderLocation : Type 0 where
  pub level : ℕ
  pub order_it : ℕ

abbrev pub OrderIndex : Type 0
OrderIndex = List (ℕ × OrderLocation)

-- The vector of levels is a function from places; `count` of them are in use, and `size` words of
-- the second bitmaps.
pub record LadderOrderBook : Type 0 where
  pub min_price : Price
  pub max_price : Price
  pub count : ℕ
  pub size : ℕ
  pub levels : ℕ → PriceLevel
  pub bids : Occupied
  pub asks : Occupied
  pub order_index : OrderIndex
  pub stats : EngineStats

abbrev pub side_occupied : Side → LadderOrderBook → Occupied
side_occupied bid book = book.bids
side_occupied ask book = book.asks

abbrev pub with_occupied : Side → Occupied → LadderOrderBook → LadderOrderBook
with_occupied bid occupied book = record book { bids = occupied }
with_occupied ask occupied book = record book { asks = occupied }

abbrev pub no_bits : Occupied
no_bits = record { levels = λ word bit. false; words = λ word bit. false }

-- The price at a place of the vector.
abbrev pub price_at : Price → ℕ → Price
price_at min_price index = pos (pos_part min_price + index)

-- The constructor, which throws on a range that is none.
unfoldable pub new_ladder : Price → Price → Option LadderOrderBook
new_ladder min_price max_price =
    let count = pos_part max_price - pos_part min_price + 1 in
    let words = (count + 63) / 64 in
    if ltb_ℤ min_price (pos 0) || ltb_ℤ max_price min_price
    then none
    else some (record {
      min_price = min_price;
      max_price = max_price;
      count = count;
      size = (words + 63) / 64;
      levels = λ index. record { price = price_at min_price index; total_qty = 0; orders = [] };
      bids = no_bits;
      asks = no_bits;
      order_index = [];
      stats = record {
        add_requests = 0;
        cancel_requests = 0;
        modify_requests = 0;
        rejected_requests = 0;
        trades = 0;
        traded_qty = 0;
      };
    })

unfoldable pub valid_price : LadderOrderBook → Price → Bool
valid_price book price = leb_ℤ book.min_price price && leb_ℤ price book.max_price

-- The place of a valid price.
unfoldable pub index_for : LadderOrderBook → Price → ℕ
index_for book price = pos_part price - pos_part book.min_price

unfoldable pub set_level : ℕ → PriceLevel → LadderOrderBook → LadderOrderBook
set_level index level book = record book {
  levels = λ i. if i == index then level else book.levels i;
}

unfoldable pub find_location : ℕ → OrderIndex → Option OrderLocation
find_location order_id [] = none
find_location order_id ((key, location) ∷ index) =
    if key == order_id then some location else find_location order_id index

unfoldable pub erase_location : ℕ → OrderIndex → OrderIndex
erase_location order_id [] = []
erase_location order_id ((key, location) ∷ index) =
    let rest = erase_location order_id index in
    if key == order_id then rest else (key, location) ∷ rest

unfoldable pub emplace_location : ℕ → OrderLocation → OrderIndex → OrderIndex
emplace_location order_id location index = elim (find_location order_id index) [
  | some _ ↦ index
  | none ↦ (order_id, location) ∷ index
]

abbrev pub is_empty : List OrderSnapshot → Bool
is_empty [] = true
is_empty (order ∷ orders) = false

unfoldable pub add_resting_order : ℕ → Side → Price → ℕ → LadderOrderBook → LadderOrderBook
unfolding set_level emplace_location
add_resting_order order_id side price qty book =
    let index = index_for book price in
    let level = book.levels index in
    let order : OrderSnapshot = record {
      order_id = order_id;
      side = side;
      price = price;
      qty = qty;
    } in
    let rested : PriceLevel = record level {
      orders = level.orders ++ (order ∷ []);
      total_qty = level.total_qty + qty;
    } in
    let located : LadderOrderBook = record (set_level index rested book) {
      order_index =
          emplace_location order_id (record { level = index; order_it = order_id })
            book.order_index;
    } in
    with_occupied side (set_occupied index (side_occupied side book)) located

-- The order that an iterator stands at; every location of the index stands at one.
unfoldable pub order_at : ℕ → List OrderSnapshot → OrderSnapshot
order_at order_id [] = record { order_id = order_id; side = bid; price = pos 0; qty = 0 }
order_at order_id (order ∷ orders) =
    if order.order_id == order_id then order else order_at order_id orders

unfoldable pub erase_order : ℕ → List OrderSnapshot → List OrderSnapshot
erase_order order_id [] = []
erase_order order_id (order ∷ orders) =
    if order.order_id == order_id then orders else order ∷ erase_order order_id orders

unfoldable pub remove_order : ℕ → OrderLocation → LadderOrderBook → LadderOrderBook
unfolding set_level order_at erase_order
remove_order order_id location book =
    let level = book.levels location.level in
    let order = order_at location.order_it level.orders in
    let left : PriceLevel = record level {
      total_qty = level.total_qty - order.qty;
      orders = erase_order location.order_it level.orders;
    } in
    let occupied = side_occupied order.side book in
    record (with_occupied order.side
      (if is_empty left.orders
        then clear_occupied (index_for book level.price) occupied
        else occupied)
      (set_level location.level left book)) {
        order_index = erase_location order_id book.order_index;
      }

unfoldable pub live_order_count : LadderOrderBook → ℕ
live_order_count book = length book.order_index
