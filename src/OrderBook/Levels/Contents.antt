-- ===== src/OrderBook/Levels/Contents.antt =====
-- What the levels of a side hold: their orders in the view, and the total at a price.
use orda_book.Prelude.{
  ℕ, ◌≡◌, refl, ap, inl, inr, Bool-cases, if◌then◌else◌, true, false, none, some, List, [], ◌∷◌,
  ◌++◌, All, All-append, All-mono, arith,
}
use orda_book.Prelude.Int.{eqb_ℤ, eqb_ℤ→eq}
use orda_book.Types.{Price, Side}
use orda_book.Engine.Order.{ahead-ne}
use orda_book.Priority.{total_at}
use orda_book.Priority.Queue.{total_at-append, total_at-none, total_at-All}
use orda_book.OrderBook.State.{Order, PriceLevel}
use orda_book.OrderBook.Levels.{find_level, is_empty}
use orda_book.OrderBook.View.{level_orders, append_level_orders, snapshot}
use orda_book.OrderBook.Invariant.{AreLevels, Behind}

pub level_orders-append :
    (at : Price) (xs ys : List Order)
    → level_orders at (xs ++ ys) ≡ level_orders at xs ++ level_orders at ys
level_orders-append at [] ys = refl
level_orders-append at (x ∷ xs) ys = ap (◌∷◌ (snapshot at x)) (level_orders-append at xs ys)

-- The orders of a level all have what its price has.
pub level_orders-All :
    (P : Price → Type 0) (at : Price) (os : List Order)
    → P at
    → All (λ order. P order.price) (level_orders at os)
level_orders-All P at [] p = tt
level_orders-All P at (o ∷ os) p = (p, level_orders-All P at os p)

pub levels-All :
    (P : Price → Type 0) (levels : List PriceLevel)
    → All (λ level. P level.price) levels
    → All (λ order. P order.price) (append_level_orders levels)
unfolding append_level_orders
levels-All P [] h = tt
levels-All P (level ∷ levels) h =
    All-append _ (level_orders level.price level.orders) (append_level_orders levels)
      (level_orders-All P level.price level.orders h.0) (levels-All P levels h.1)

-- Levels behind a price have no order at it.
pub total_at-Behind :
    (side : Side) (price : Price) (levels : List PriceLevel)
    → Behind side price levels
    → total_at price (append_level_orders levels) ≡ 0
total_at-Behind side price levels b = total_at-none price _ (
    levels-All (λ p. eqb_ℤ p price ≡ false) levels
      (All-mono _ _ (λ level h. ahead-ne side price level.price h) levels b))

-- The total of the level at a price, or 0.
unfoldable pub level_qty : Price → List PriceLevel → ℕ
level_qty price levels = elim (find_level price levels) [ none ↦ 0 | some level ↦ level.total_qty ]

pub level_qty-total_at :
    (side : Side) (price : Price) (levels : List PriceLevel)
    → AreLevels side levels
    → level_qty price levels ≡ total_at price (append_level_orders levels)
unfolding level_qty find_level append_level_orders
level_qty-total_at side price [] v = unfold total_at in refl
level_qty-total_at side price (level ∷ levels) (v, b, vs) =
    let here = level_orders level.price level.orders in
    let there = append_level_orders levels in
    elim (Bool-cases (eqb_ℤ level.price price)) [
      | inl e ↦
          let p = eqb_ℤ→eq level.price price e in
          rw (e, level_qty, total_at-append price here there)
            (omega (
              arith,
              v.counted,
              total_at-All price here
                  (level_orders-All (λ q. eqb_ℤ q price ≡ true) level.price level.orders e),
              total_at-Behind side price levels (rw p at b),
            ))
      | inr n ↦
          rw (n, level_qty, total_at-append price here there)
            (omega (
              arith,
              total_at-none price here
                  (level_orders-All (λ q. eqb_ℤ q price ≡ false) level.price level.orders n),
              level_qty-total_at side price levels vs,
            ))
    ]

pub level_qty_cases :
    (price : Price) (level : PriceLevel) (levels : List PriceLevel)
    → level_qty price (level ∷ levels)
      ≡ (if eqb_ℤ level.price price then level.total_qty else level_qty price levels)
unfolding level_qty find_level
level_qty_cases price level levels = elim (Bool-cases (eqb_ℤ level.price price)) [
  | inl e ↦ rw (e, level_qty)
  | inr n ↦ rw (n, level_qty)
]

pub is_empty-snoc : (os : List Order) (o : Order) → is_empty (os ++ (o ∷ [])) ≡ false
is_empty-snoc [] o = refl
is_empty-snoc (x ∷ os) o = refl
