-- ===== src/OrderBook/Invariant.antt =====
-- What holds of a book between calls.
use orda_book.Prelude.{ℕ, ◌+◌, ◌≤◌, ◌<◌, ◌≡◌, refl, true, false, none, List, [], ◌∷◌, All, arith}
use orda_book.Prelude.Int.{pos, ◌<ℤ◌}
use orda_book.Types.{Price, Side, bid, ask, EngineStats}
use orda_book.Engine.{max_quantity, ahead, opposite}
use orda_book.Priority.{total, count_id}
use orda_book.OrderBook.State.{Order, PriceLevel, OrderBook, side_levels, find_location}
use orda_book.OrderBook.Levels.{is_empty}
use orda_book.OrderBook.View.{level_orders, append_level_orders, orders, located}

-- An order in the level of a price, on a side.
pub record IsResting (side : Side) (at : Price) (order : Order) : Type 0 where
  pub on_side : order.side ≡ side
  pub at_price : order.price ≡ at
  pub positive : 0 < order.qty

pub record IsLevel (side : Side) (level : PriceLevel) : Type 0 where
  pub occupied : is_empty level.orders ≡ false
  pub priced : pos 0 <ℤ level.price
  pub resting : All (IsResting side level.price) level.orders
  pub counted : level.total_qty ≡ total (level_orders level.price level.orders)
  pub bounded : level.total_qty ≤ max_quantity

-- Every level of the list comes after the price, in the order of the side.
abbrev pub Behind : Side → Price → List PriceLevel → Type 0
Behind side price = All (λ level. ahead side price level.price ≡ true)

abbrev pub AreLevels : Side → List PriceLevel → Type 0
AreLevels side [] = Unit {0}
AreLevels side (level ∷ levels) =
    IsLevel side level × Behind side level.price levels × AreLevels side levels

-- How often an id is live.
unfoldable pub count_live : ℕ → OrderBook → ℕ
count_live id book = count_id id (orders bid book) + count_id id (orders ask book)

-- Ids are unique; the index knows where each live order is, and knows no other id;
-- `stats_.traded_qty` fits its type.
pub record IsValid (book : OrderBook) : Type 0 where
  pub sorted : (side : Side) → AreLevels side (side_levels side book)
  pub unique : (id : ℕ) → count_live id book ≤ 1
  pub indexed :
      (side : Side) (id : ℕ)
      → 0 < count_id id (orders side book)
      → find_location id book.order_index ≡ located id (orders side book)
  pub absent : (id : ℕ) → count_live id book ≡ 0 → find_location id book.order_index ≡ none
  pub traded_bounded : book.stats.traded_qty ≤ max_quantity

pub count_live-sides :
    (side : Side) (id : ℕ) (book : OrderBook)
    → count_live id book
      ≡ count_id id (orders side book) + count_id id (orders (opposite side) book)
unfolding count_live
count_live-sides bid id book = refl
count_live-sides ask id book = omega arith

-- Any property of both sides is one of a side and of the other.
pub both_sides {ℓ} :
    (P : Side → Type ℓ) (side : Side) → P side → P (opposite side) → (s : Side) → P s
both_sides P bid p q bid = p
both_sides P bid p q ask = q
both_sides P ask p q bid = q
both_sides P ask p q ask = p

-- The invariant reads nothing of the counters but the traded quantity.
pub restat-IsValid :
    (book : OrderBook) (stats : EngineStats)
    → IsValid book
    → stats.traded_qty ≡ book.stats.traded_qty
    → IsValid (record book { stats = stats })
unfolding orders count_live
restat-IsValid book stats v e = record {
  sorted =
      both_sides (λ s. AreLevels s (side_levels s (record book { stats = stats }))) bid
        (v.sorted bid) (v.sorted ask);
  unique = v.unique;
  indexed =
      both_sides
        (λ s.
          (id : ℕ)
          → 0 < count_id id (append_level_orders (side_levels s (record book { stats = stats })))
          → find_location id book.order_index
            ≡ located id (append_level_orders (side_levels s (record book { stats = stats }))))
        bid (v.indexed bid) (v.indexed ask);
  absent = v.absent;
  traded_bounded = rw e v.traded_bounded;
}
