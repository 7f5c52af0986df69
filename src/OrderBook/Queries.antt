-- ===== src/OrderBook/Queries.antt =====
-- The queries of src/order_book.cpp say of a valid book what its orders say.
use orda_book.Prelude.{
  ℕ, ◌+◌, ◌<◌, ◌≡◌, refl, true, false, Option, none, some, if◌then◌else◌, List, [], ◌∷◌, ◌++◌, All,
  All-append, All-mono, All-both, All-map, length, arith,
}
use orda_book.Prelude.Int.{eqb_ℤ, eqb_ℤ_refl}
use orda_book.Types.{Price, Side, bid, ask, OrderSnapshot, LevelSnapshot}
use orda_book.Engine.{ahead}
use orda_book.Engine.Order.{ahead-ne, ahead_irrefl, ahead_asymm}
use orda_book.Priority.{total_at}
use orda_book.Priority.Queue.{total_at-All, total_at-none, total_at-append}
use orda_book.OrderBook.State.{Order, PriceLevel, OrderBook, side_levels}
use orda_book.OrderBook.Levels.{is_empty}
use orda_book.OrderBook.Levels.Contents.{level_orders-All, levels-All}
use orda_book.OrderBook.View.{
  level_orders, append_level_orders, orders, level_snapshot, levels, first_level, top_of_book,
}
use orda_book.OrderBook.Invariant.{IsLevel, AreLevels, Behind, IsValid}

unfoldable pub count_at : Price → List OrderSnapshot → ℕ
count_at price [] = 0
count_at price (order ∷ orders) = (if eqb_ℤ order.price price then 1 else 0) + count_at price orders

count_at-append :
    (price : Price) (xs ys : List OrderSnapshot)
    → count_at price (xs ++ ys) ≡ count_at price xs + count_at price ys
unfolding count_at
count_at-append price [] ys = omega arith
count_at-append price (x ∷ xs) ys = omega (arith, count_at-append price xs ys)

count_at-none :
    (price : Price) (xs : List OrderSnapshot)
    → All (λ order. eqb_ℤ order.price price ≡ false) xs
    → count_at price xs ≡ 0
unfolding count_at
count_at-none price [] h = refl
count_at-none price (x ∷ xs) h = ground (arith, count_at-none price xs h.1)

count_at-level : (at : Price) (os : List Order) → count_at at (level_orders at os) ≡ length os
unfolding count_at
count_at-level at [] = refl
count_at-level at (o ∷ os) = ground (arith, eqb_ℤ_refl at, count_at-level at os)

-- A row of a depth query is right for a list of orders.
pub record Reports (xs : List OrderSnapshot) (row : LevelSnapshot) : Type 0 where
  pub whole : row.qty ≡ total_at row.price xs
  pub counted : row.order_count ≡ count_at row.price xs

-- Orders that are not at the row's price do not change what it reports.
Reports-past :
    (xs ys : List OrderSnapshot) (row : LevelSnapshot)
    → All (λ order. eqb_ℤ order.price row.price ≡ false) xs
    → Reports ys row
    → Reports (xs ++ ys) row
Reports-past xs ys row h r = record {
  whole = omega (arith, r.whole, total_at-append row.price xs ys, total_at-none row.price xs h);
  counted = omega (arith, r.counted, count_at-append row.price xs ys, count_at-none row.price xs h);
}

Reports-here :
    (side : Side) (level : PriceLevel) (levels : List PriceLevel)
    → IsLevel side level
    → Behind side level.price levels
    → Reports (append_level_orders (level ∷ levels)) (level_snapshot level)
unfolding append_level_orders
Reports-here side level levels v b =
    let xs = level_orders level.price level.orders in
    let ys = append_level_orders levels in
    let apart : All (λ order. eqb_ℤ order.price level.price ≡ false) ys =
      levels-All (λ p. eqb_ℤ p level.price ≡ false) levels
        (All-mono _ _ (λ l h. ahead-ne side level.price l.price h) levels b) in
    let here : All (λ order. eqb_ℤ order.price level.price ≡ true) xs =
      level_orders-All (λ p. eqb_ℤ p level.price ≡ true) level.price level.orders
        (eqb_ℤ_refl level.price) in
    record {
      whole = omega (
        arith,
        v.counted,
        total_at-append level.price xs ys,
        total_at-All level.price xs here,
        total_at-none level.price ys apart,
      );
      counted = omega (
        arith,
        count_at-append level.price xs ys,
        count_at-level level.price level.orders,
        count_at-none level.price ys apart,
      );
    }

apart_ahead : (side : Side) (a b : Price) → ahead side a b ≡ true → eqb_ℤ a b ≡ false
unfolding ahead
apart_ahead bid a b h = ground arith
apart_ahead ask a b h = ground arith

rows-Reports :
    (side : Side) (ls : List PriceLevel)
    → AreLevels side ls
    → All (λ level. Reports (append_level_orders ls) (level_snapshot level)) ls
rows-Reports side [] v = tt
rows-Reports side (level ∷ ls) (v, b, vs) = (
  Reports-here side level ls v b,
  All-both (λ l. ahead side level.price l.price ≡ true)
      (λ l. Reports (append_level_orders ls) (level_snapshot l))
      (λ l. Reports (append_level_orders (level ∷ ls)) (level_snapshot l))
      (λ x before r.
        unfold append_level_orders in
        Reports-past (level_orders level.price level.orders) (append_level_orders ls)
          (level_snapshot x)
          (level_orders-All (λ p. eqb_ℤ p x.price ≡ false) level.price level.orders
            (apart_ahead side level.price x.price before))
          r)
      ls b (rows-Reports side ls vs),
)

-- In a valid book, every row that `levels` gives has the quantity and the number of the orders at its
-- price, over all orders of the side.
pub levels-Reports :
    (side : Side) (book : OrderBook)
    → IsValid book
    → All (Reports (orders side book)) (levels side book)
unfolding levels orders
levels-Reports side book v =
    All-map level_snapshot (Reports (append_level_orders (side_levels side book)))
      (side_levels side book) (rows-Reports side (side_levels side book) (v.sorted side))

some_length : (os : List Order) → is_empty os ≡ false → 0 < length os
some_length [] e = absurd cc
some_length (o ∷ os) e = omega arith

-- A row is the best of a list of orders: it is right for them, some order stands at its price, and
-- none is ahead of it.
abbrev pub IsBest : Side → List OrderSnapshot → Option LevelSnapshot → Type 0
IsBest side xs none = xs ≡ []
IsBest side xs (some row) =
    Reports xs row
    × (0 < count_at row.price xs)
    × All (λ order. ahead side order.price row.price ≡ false) xs

-- A level of a valid book has an order at its price.
occupied_here :
    (side : Side) (level : PriceLevel) (levels : List PriceLevel)
    → IsLevel side level
    → 0 < count_at level.price (append_level_orders (level ∷ levels))
unfolding append_level_orders
occupied_here side level levels v =
    let xs = level_orders level.price level.orders in
    let some = some_length level.orders v.occupied in
    omega (
      arith,
      count_at-append level.price xs (append_level_orders levels),
      count_at-level level.price level.orders,
      some,
    )

first_level-IsBest :
    (side : Side) (ls : List PriceLevel)
    → AreLevels side ls
    → IsBest side (append_level_orders ls) (first_level ls)
unfolding append_level_orders
first_level-IsBest side [] v = refl
first_level-IsBest side (level ∷ ls) (v, b, vs) = (
  Reports-here side level ls v b,
  occupied_here side level ls v,
  All-append _ (level_orders level.price level.orders) (append_level_orders ls)
      (level_orders-All (λ p. ahead side p level.price ≡ false) level.price level.orders
        (ahead_irrefl side level.price))
      (levels-All (λ p. ahead side p level.price ≡ false) ls
        (All-mono _ _ (λ l h. ahead_asymm side level.price l.price h) ls b)),
)

-- In a valid book, `top_of_book` is empty only for a side without orders; else some order of the side
-- stands at its price and none is ahead of it, and it has the quantity and the number of all the
-- orders at that price.
pub top_of_book-IsBest :
    (side : Side) (book : OrderBook)
    → IsValid book
    → IsBest side (orders side book) (top_of_book side book)
unfolding orders top_of_book
top_of_book-IsBest side book v = first_level-IsBest side (side_levels side book) (v.sorted side)
