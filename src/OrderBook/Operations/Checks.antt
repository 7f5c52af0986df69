-- ===== src/OrderBook/Operations/Checks.antt =====
-- What the checks of an operation find: sums that fit, crossing quantities, and whether an id is live.
use orda_book.Prelude.{
  ℕ, ◌+◌, ◌≤◌, ◌<◌, min, ltb, ltb→lt, ◌≡◌, inl, inr, Bool-cases, Option-cases, if◌then◌else◌, Bool,
  false, none, List, [], ◌∷◌, arith,
}
use orda_book.Prelude.Int.{eqb_ℤ}
use orda_book.Types.{Price, Side, bid, ask}
use orda_book.Engine.{opposite, max_quantity, quantity_add_would_overflow}
use orda_book.Priority.{available, total_at, count_id}
use orda_book.Priority.Book.{queue, Result, is_live}
use orda_book.OrderBook.State.{PriceLevel, OrderBook, side_levels, find_location}
use orda_book.OrderBook.Levels.{find_level}
use orda_book.OrderBook.Levels.Contents.{level_qty, level_qty-total_at}
use orda_book.OrderBook.View.{orders}
use orda_book.OrderBook.Invariant.{AreLevels, IsValid, count_live}
use orda_book.OrderBook.Matching.{max_crossing_qty}
use orda_book.OrderBook.Matching.Crossing.{max_crossing_qty-available}
use orda_book.OrderBook.Index.{located-some}
use orda_book.OrderBook.Withdrawal.{find_location-IsLive}
use orda_book.OrderBook.Operations.Entering.{view, view_outcome, queue-view}
use orda_book.OrderBook.Operations.{Outcome, level_overflow, is_found}

-- Two outcomes that branch alike are viewed alike.
pub view_if :
    (b b' : Bool) (x y : Outcome) (x' y' : Result)
    → b ≡ b'
    → view_outcome x ≡ x'
    → view_outcome y ≡ y'
    → view_outcome (if b then x else y) ≡ (if b' then x' else y')
view_if b b' x y x' y' e p q = elim (Bool-cases b) [ inl t ↦ rw (← e, t) p | inr f ↦ rw (← e, f) q ]

pub would_overflow-le :
    (a b : ℕ)
    → a ≤ max_quantity
    → b ≤ max_quantity
    → quantity_add_would_overflow a b ≡ false
    → a + b ≤ max_quantity
unfolding quantity_add_would_overflow
would_overflow-le a b h k e = ground arith

pub level_overflow-total_at :
    (side : Side) (price : Price) (n : ℕ) (book : OrderBook)
    → IsValid book
    → level_overflow side price n book
      ≡ quantity_add_would_overflow (total_at price (orders side book)) n
unfolding level_overflow orders level_qty
level_overflow-total_at side price n book v =
    let levels = side_levels side book in
    rw (← level_qty-total_at side price levels (v.sorted side))
      (elim (Option-cases (find_level price levels)) [
        | inl e ↦
            rw (e, level_qty, level_overflow) (unfold quantity_add_would_overflow in ground arith)
        | inr (level, e) ↦ rw (e, level_qty, level_overflow)
      ])

pub crossing-queue :
    (side : Side) (price : Price) (qty : ℕ) (book : OrderBook)
    → IsValid book
    → max_crossing_qty side price qty book
      ≡ min qty (available side price (queue (opposite side) (view book)))
crossing-queue side price qty book v =
    rw queue-view (max_crossing_qty-available side price qty book v)

pub find_location-none :
    (id : ℕ) (book : OrderBook)
    → IsValid book
    → find_location id book.order_index ≡ none
    → count_live id book ≡ 0
unfolding count_live
find_location-none id book v e = omega (arith, none_on bid, none_on ask)
  where
    none_on : (s : Side) → count_id id (orders s book) ≡ 0
    none_on s = elim (Bool-cases (ltb 0 (count_id id (orders s book)))) [
      | inr f ↦ ground (arith, f)
      | inl t ↦ located-some id (orders s book) (rw (← v.indexed s id (ltb→lt _ _ t)) e)
    ]

pub find_location-is_live :
    (id : ℕ) (book : OrderBook)
    → IsValid book
    → is_found (find_location id book.order_index) ≡ is_live id (view book)
find_location-is_live id book v = elim (Option-cases (find_location id book.order_index)) [
  | inl e ↦
      let z : count_id id (orders bid book) + count_id id (orders ask book) ≡ 0 =
        unfold count_live in (find_location-none id book v e) in
      rw (e, z)
  | inr (l, e) ↦
      let live = find_location-IsLive id l book v e in
      rw e (ground (arith, live_count l.side live.held))
]
  where
    live_count :
        (s : Side)
        → 0 < count_id id (orders s book)
        → 0 < count_id id (orders bid book) + count_id id (orders ask book)
    live_count bid h = omega arith
    live_count ask h = omega arith

pub total_at-le :
    (side : Side) (price : Price) (levels : List PriceLevel)
    → AreLevels side levels
    → level_qty price levels ≤ max_quantity
unfolding level_qty find_level
total_at-le side price [] v = omega arith
total_at-le side price (level ∷ levels) (v, _, vs) = elim (Bool-cases (eqb_ℤ level.price price)) [
  | inl e ↦ rw (e, level_qty) v.bounded
  | inr n ↦ rw (n, level_qty) (total_at-le side price levels vs)
]
