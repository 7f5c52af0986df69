-- ===== src/OrderBook/Placement.antt =====
-- `add_resting_order` and `remove_order` on a whole book: the view, the index and the invariant.
use orda_book.Prelude.{ℕ, ◌+◌, ◌≤◌, ◌<◌, ◌==◌, ◌≡◌, refl, ap, ◌∙◌, if◌then◌else◌, some, arith}
use orda_book.Prelude.Int.{pos, ◌<ℤ◌}
use orda_book.Types.{Price, Side, bid, ask, OrderSnapshot}
use orda_book.Engine.{max_quantity, opposite}
use orda_book.Priority.{rest_order, count_id, total_at}
use orda_book.Priority.Ids.{count_id-rest_order}
use orda_book.OrderBook.State.{OrderBook, side_levels, find_location, emplace_location}
use orda_book.OrderBook.Levels.{add_resting_order}
use orda_book.OrderBook.Levels.Resting.{append_level_orders-pushed, pushed-AreLevels}
use orda_book.OrderBook.Levels.Contents.{level_qty-total_at}
use orda_book.OrderBook.View.{append_level_orders, orders, located}
use orda_book.OrderBook.Invariant.{AreLevels, IsValid, count_live, count_live-sides, both_sides}
use orda_book.OrderBook.Index.{find-emplace_location, located-rest_order}

abbrev pub resting_order : ℕ → Side → Price → ℕ → OrderSnapshot
resting_order order_id side price qty = record {
  order_id = order_id;
  side = side;
  price = price;
  qty = qty;
}

-- The order joins its side behind its price; the other side, the counters and the rest of the index
-- stay.
pub record Rests (order_id : ℕ) (side : Side) (price : Price) (qty : ℕ) (book book' : OrderBook)
    : Type 0 where
  pub joined :
      orders side book' ≡ rest_order side (resting_order order_id side price qty) (orders side book)
  pub other : side_levels (opposite side) book' ≡ side_levels (opposite side) book
  pub counters : book'.stats ≡ book.stats
  pub index :
      book'.order_index
      ≡ emplace_location order_id
          (record { side = side; level = price; order_it = order_id })
          book.order_index

-- On a side with well-formed levels, the order joins its side behind its price and the index has it;
-- the levels of the other side and the counters stay.
pub add_resting_order-Rests :
    (order_id : ℕ) (side : Side) (price : Price) (qty : ℕ) (book : OrderBook)
    → AreLevels side (side_levels side book)
    → Rests order_id side price qty book (add_resting_order order_id side price qty book)
unfolding add_resting_order orders
add_resting_order-Rests order_id bid price qty book v = record {
  joined = append_level_orders-pushed bid price _ book.bids v;
  other = refl;
  counters = refl;
  index = refl;
}
add_resting_order-Rests order_id ask price qty book v = record {
  joined = append_level_orders-pushed ask price _ book.asks v;
  other = refl;
  counters = refl;
  index = refl;
}

add_resting_order-AreLevels :
    (order_id : ℕ) (side : Side) (price : Price) (qty : ℕ) (book : OrderBook)
    → AreLevels side (side_levels side book)
    → pos 0 <ℤ price
    → 0 < qty
    → total_at price (orders side book) + qty ≤ max_quantity
    → AreLevels side (side_levels side (add_resting_order order_id side price qty book))
unfolding add_resting_order orders
add_resting_order-AreLevels order_id bid price qty book v p q fits =
    pushed-AreLevels bid price _ p (record { on_side = refl; at_price = refl; positive = q })
      book.bids v (rw (level_qty-total_at bid price book.bids v) fits)
add_resting_order-AreLevels order_id ask price qty book v p q fits =
    pushed-AreLevels ask price _ p (record { on_side = refl; at_price = refl; positive = q })
      book.asks v (rw (level_qty-total_at ask price book.asks v) fits)

module _ (id : ℕ) (side : Side) (price : Price) (qty : ℕ) (book book' : OrderBook)
    (v : IsValid book) (r : Rests id side price qty book book') (fresh : count_live id book ≡ 0)
    (levels : AreLevels side (side_levels side book')) where
  abbrev new : OrderSnapshot
  new = resting_order id side price qty

  other_orders : orders (opposite side) book' ≡ orders (opposite side) book
  unfolding orders
  other_orders = ap append_level_orders r.other

  live : (j : ℕ) → count_live j book' ≡ (if id == j then 1 else 0) + count_live j book
  live j =
      rw (count_live-sides side j book', count_live-sides side j book, r.joined, other_orders)
        (omega (arith, count_id-rest_order side j new (orders side book)))

  lookup :
      (j : ℕ)
      → find_location j book'.order_index ≡ (
          if id == j
          then some (record { side = side; level = price; order_it = id })
          else find_location j book.order_index)
  lookup j =
      ap (find_location j) r.index
      ∙ find-emplace_location j id _ book.order_index (v.absent id fresh)

  here_indexed :
      (j : ℕ)
      → 0 < count_id j (orders side book')
      → find_location j book'.order_index ≡ located j (orders side book')
  here_indexed j h =
      rw (lookup j, r.joined)
        (ground (
          arith,
          h,
          r.joined,
          fresh,
          v.indexed side j,
          count_live-sides side id book,
          count_id-rest_order side j new (orders side book),
          located-rest_order side j new (orders side book),
        ))

  there_indexed :
      (j : ℕ)
      → 0 < count_id j (orders (opposite side) book')
      → find_location j book'.order_index ≡ located j (orders (opposite side) book')
  there_indexed j h =
      rw (lookup j, other_orders)
        (ground (
          arith,
          h,
          other_orders,
          fresh,
          v.indexed (opposite side) j,
          count_live-sides side id book,
        ))

  Rests-IsValid : IsValid book'
  Rests-IsValid = record {
    sorted =
        both_sides (λ s. AreLevels s (side_levels s book')) side levels
          (rw r.other (v.sorted (opposite side)));
    unique = λ j. ground (arith, live j, v.unique j, fresh);
    indexed =
        both_sides
          (λ s.
            (j : ℕ)
            → 0 < count_id j (orders s book')
            → find_location j book'.order_index ≡ located j (orders s book'))
          side here_indexed there_indexed;
    absent = λ j z. rw (lookup j) (ground (arith, z, live j, v.absent j));
    traded_bounded = rw r.counters v.traded_bounded;
  }

-- In a valid book, an order with a new id, a positive price and a positive quantity rests and leaves a
-- valid book, if the quantity at its price fits.
pub add_resting_order-IsValid :
    (id : ℕ) (side : Side) (price : Price) (qty : ℕ) (book : OrderBook)
    → IsValid book
    → count_live id book ≡ 0
    → pos 0 <ℤ price
    → 0 < qty
    → total_at price (orders side book) + qty ≤ max_quantity
    → IsValid (add_resting_order id side price qty book)
add_resting_order-IsValid id side price qty book v fresh p q fits =
    Rests-IsValid id side price qty book _ v
      (add_resting_order-Rests id side price qty book (v.sorted side)) fresh
      (add_resting_order-AreLevels id side price qty book (v.sorted side) p q fits)
