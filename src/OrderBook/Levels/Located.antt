-- ===== src/OrderBook/Levels/Located.antt =====
-- The order that `level_at` and `order_at` find: its side, and its part of the quantity at a price.
use orda_book.Prelude.{
  ℕ, ◌+◌, ◌==◌, ◌≡◌, inl, inr, Bool-cases, if◌then◌else◌, true, false, some, List, [], ◌∷◌, ◌++◌,
  All, arith,
}
use orda_book.Prelude.Int.{eqb_ℤ, eqb_ℤ→eq}
use orda_book.Types.{Price, Side}
use orda_book.Priority.{withdraw, total, total_at, count_id}
use orda_book.Priority.Ids.{withdraw-append}
use orda_book.Priority.Queue.{total_at-append, total_at-All, total_at-none}
use orda_book.OrderBook.State.{Order, PriceLevel, OrderLocation}
use orda_book.OrderBook.Levels.{level_at, order_at, erase_order}
use orda_book.OrderBook.Levels.Contents.{level_orders-All}
use orda_book.OrderBook.Levels.Removal.{count_here, count_later}
use orda_book.OrderBook.Levels.Unlinking.{
  level_at_here, level_at_later, located-append, level_orders-erase_order, total-erase_order,
}
use orda_book.OrderBook.View.{level_orders, append_level_orders, located}
use orda_book.OrderBook.Invariant.{IsResting, AreLevels}

order_at-side :
    (side : Side) (at : Price) (id : ℕ) (os : List Order)
    → All (IsResting side at) os
    → (count_id id (level_orders at os) == 0) ≡ false
    → (order_at id os).side ≡ side
unfolding order_at count_id
order_at-side side at id [] h n = cc
order_at-side side at id (o ∷ os) (h, hs) n = elim (Bool-cases (o.order_id == id)) [
  | inl e ↦ rw e h.on_side
  | inr f ↦ rw f (order_at-side side at id os hs (ground (arith, n, f)))
]

total_at-level :
    (p at : Price) (os : List Order)
    → total_at p (level_orders at os) ≡ (if eqb_ℤ at p then total (level_orders at os) else 0)
total_at-level p at os = elim (Bool-cases (eqb_ℤ at p)) [
  | inl e ↦
      rw e (total_at-All p (level_orders at os) (level_orders-All (λ q. eqb_ℤ q p ≡ true) at os e))
  | inr n ↦
      rw n
        (total_at-none p (level_orders at os) (level_orders-All (λ q. eqb_ℤ q p ≡ false) at os n))
]

module _ (side : Side) (at : Price) (id : ℕ) where
  abbrev found_in : List PriceLevel → Order
  found_in levels = order_at id (level_at at levels).orders

  pub located-side_of :
      (levels : List PriceLevel) (l : OrderLocation)
      → AreLevels side levels
      → located id (append_level_orders levels) ≡ some l
      → l.level ≡ at
      → (found_in levels).side ≡ side
  located-side_of [] l v e p = unfold append_level_orders located in cc
  located-side_of (level ∷ levels) l (v, b, vs) e₀ p =
      let here = level_orders level.price level.orders in
      let e : located id (here ++ append_level_orders levels) ≡ some l =
        unfold append_level_orders in e₀ in
      elim (Bool-cases (eqb_ℤ level.price at)) [
        | inl h ↦ rw (level_at_here at level levels h) (
            order_at-side side level.price id level.orders v.resting
              (count_here side at id level levels l b e p h))
        | inr n ↦
            let gone = count_later side at id level levels l e p n in
            let beyond : located id (append_level_orders levels) ≡ some l =
              rw (located-append id here (append_level_orders levels), gone) at e in
            rw (level_at_later at level levels n) (located-side_of levels l vs beyond p)
      ]

  abbrev share : Price → List PriceLevel → ℕ
  share p levels = if eqb_ℤ at p then (found_in levels).qty else 0

  share_here :
      (p : Price) (level : PriceLevel) (levels : List PriceLevel)
      → eqb_ℤ level.price at ≡ true
      → (count_id id (level_orders level.price level.orders) == 0) ≡ false
      → total_at p (withdraw id (append_level_orders (level ∷ levels))) + share p (level ∷ levels)
        ≡ total_at p (append_level_orders (level ∷ levels))
  unfolding append_level_orders
  share_here p level levels h held =
      let here = level_orders level.price level.orders in
      let there = append_level_orders levels in
      let q : level.price ≡ at = eqb_ℤ→eq level.price at h in
      let t = total-erase_order level.price id level.orders in
      rw
        (
          withdraw-append id here there,
          held,
          ← level_orders-erase_order level.price id level.orders,
          total_at-append p _ there,
          total_at-append p here there,
          total_at-level p level.price level.orders,
          total_at-level p level.price (erase_order id level.orders),
          level_at_here at level levels h,
          ← q,
        )
        (elim (Bool-cases (eqb_ℤ level.price p)) [
          | inl e ↦ rw e (omega (arith, t))
          | inr n ↦ rw n (omega arith)
        ])

  share_later :
      (p : Price) (level : PriceLevel) (levels : List PriceLevel)
      → eqb_ℤ level.price at ≡ false
      → (count_id id (level_orders level.price level.orders) == 0) ≡ true
      → total_at p (withdraw id (append_level_orders levels)) + share p levels
        ≡ total_at p (append_level_orders levels)
      → total_at p (withdraw id (append_level_orders (level ∷ levels))) + share p (level ∷ levels)
        ≡ total_at p (append_level_orders (level ∷ levels))
  unfolding append_level_orders
  share_later p level levels n gone ih =
      let here = level_orders level.price level.orders in
      let there = append_level_orders levels in
      rw
        (
          withdraw-append id here there,
          gone,
          total_at-append p here (withdraw id there),
          total_at-append p here there,
          level_at_later at level levels n,
        )
        (omega (arith, ih))

  -- The quantity at a price is that of the other orders and of the order that is found.
  pub total_at-found :
      (p : Price) (levels : List PriceLevel) (l : OrderLocation)
      → AreLevels side levels
      → located id (append_level_orders levels) ≡ some l
      → l.level ≡ at
      → total_at p (withdraw id (append_level_orders levels)) + share p levels
        ≡ total_at p (append_level_orders levels)
  total_at-found p [] l v e q = unfold append_level_orders located in cc
  total_at-found p (level ∷ levels) l (v, b, vs) e₀ q =
      let here = level_orders level.price level.orders in
      let e : located id (here ++ append_level_orders levels) ≡ some l =
        unfold append_level_orders in e₀ in
      elim (Bool-cases (eqb_ℤ level.price at)) [
        | inl h ↦ share_here p level levels h (count_here side at id level levels l b e q h)
        | inr n ↦
            let gone = count_later side at id level levels l e q n in
            let beyond : located id (append_level_orders levels) ≡ some l =
              rw (located-append id here (append_level_orders levels), gone) at e in
            share_later p level levels n gone (total_at-found p levels l vs beyond q)
      ]
