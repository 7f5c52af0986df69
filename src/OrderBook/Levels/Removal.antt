-- ===== src/OrderBook/Levels/Removal.antt =====
-- `remove_order` on the levels of a side: on the view it takes the order out, and the levels stay
-- well formed.
use orda_book.Prelude.{
  ℕ, ◌==◌, ◌≡◌, ap, inl, inr, Bool-cases, if◌then◌else◌, true, false, some, List, [], ◌∷◌, ◌++◌,
  All-mono,
}
use orda_book.Prelude.Int.{eqb_ℤ, eqb_ℤ→eq, eqb_ℤ_refl}
use orda_book.Types.{Price, Side}
use orda_book.Engine.Order.{ahead-ne}
use orda_book.Priority.{withdraw, count_id}
use orda_book.Priority.Ids.{withdraw-append}
use orda_book.OrderBook.State.{PriceLevel, OrderLocation}
use orda_book.OrderBook.Levels.{unlink_order, erase_order, is_empty}
use orda_book.OrderBook.Levels.Contents.{level_orders-All, levels-All}
use orda_book.OrderBook.View.{level_orders, append_level_orders, located}
use orda_book.OrderBook.Invariant.{AreLevels, Behind}
use orda_book.OrderBook.Levels.Unlinking.{
  removed, is_empty→nil, removed_here, removed_later, removed-nil, level_orders-erase_order,
  located-append, located-All, unlink-IsLevel,
}

module _ (side : Side) (at : Price) (id : ℕ) where
  removed-Behind :
      (price : Price) (levels : List PriceLevel)
      → Behind side price levels
      → Behind side price (removed at id levels)
  removed-Behind price [] b = rw (removed-nil at id) tt
  removed-Behind price (level ∷ levels) (h, b) = elim (Bool-cases (eqb_ℤ level.price at)) [
    | inl e ↦
        rw (removed_here at id level levels e)
          (elim (Bool-cases (is_empty (erase_order id level.orders))) [
            | inl z ↦ rw z b
            | inr z ↦ rw z (unfold unlink_order in (h, b))
          ])
    | inr n ↦ rw (removed_later at id level levels n) (h, removed-Behind price levels b)
  ]

  pub removed-AreLevels :
      (levels : List PriceLevel) → AreLevels side levels → AreLevels side (removed at id levels)
  removed-AreLevels [] v = rw (removed-nil at id) tt
  removed-AreLevels (level ∷ levels) (v, b, vs) = elim (Bool-cases (eqb_ℤ level.price at)) [
    | inl e ↦
        rw (removed_here at id level levels e)
          (elim (Bool-cases (is_empty (erase_order id level.orders))) [
            | inl z ↦ rw z vs
            | inr z ↦ rw z (unlink-IsLevel side id level v z, unfold unlink_order in b, vs)
          ])
    | inr n ↦
        rw (removed_later at id level levels n)
          (v, removed-Behind level.price levels b, removed-AreLevels levels vs)
  ]

  -- The level of the location is the one that holds the order.
  pub count_here :
      (level : PriceLevel) (levels : List PriceLevel) (l : OrderLocation)
      → Behind side level.price levels
      → located id (level_orders level.price level.orders ++ append_level_orders levels) ≡ some l
      → l.level ≡ at
      → eqb_ℤ level.price at ≡ true
      → (count_id id (level_orders level.price level.orders) == 0) ≡ false
  count_here level levels l b found p e =
      let here = level_orders level.price level.orders in
      let there = append_level_orders levels in
      let q : level.price ≡ at = eqb_ℤ→eq level.price at e in
      elim (Bool-cases (count_id id here == 0)) [
        | inr held ↦ held
        | inl gone ↦
            let beyond : located id there ≡ some l =
              rw (located-append id here there, gone) at found in
            let far : eqb_ℤ l.level at ≡ false =
              located-All (λ r. eqb_ℤ r at ≡ false) id there
                (levels-All (λ r. eqb_ℤ r at ≡ false) levels
                  (All-mono _ _ (λ r h. ahead-ne side at r.price (rw q at h)) levels b))
                beyond in
            let same : eqb_ℤ l.level at ≡ true = rw p (eqb_ℤ_refl at) in cc
      ]

  pub count_later :
      (level : PriceLevel) (levels : List PriceLevel) (l : OrderLocation)
      → located id (level_orders level.price level.orders ++ append_level_orders levels) ≡ some l
      → l.level ≡ at
      → eqb_ℤ level.price at ≡ false
      → (count_id id (level_orders level.price level.orders) == 0) ≡ true
  count_later level levels l found p n =
      let here = level_orders level.price level.orders in
      let there = append_level_orders levels in
      elim (Bool-cases (count_id id here == 0)) [
        | inl gone ↦ gone
        | inr held ↦
            let inside : located id here ≡ some l =
              rw (located-append id here there, held) at found in
            let near : eqb_ℤ l.level at ≡ false =
              located-All (λ r. eqb_ℤ r at ≡ false) id here
                (level_orders-All (λ r. eqb_ℤ r at ≡ false) level.price level.orders n) inside in
            let same : eqb_ℤ l.level at ≡ true = rw p (eqb_ℤ_refl at) in cc
      ]

  removed_here_view :
      (level : PriceLevel) (levels : List PriceLevel)
      → (count_id id (level_orders level.price level.orders) == 0) ≡ false
      → append_level_orders (
          if is_empty (erase_order id level.orders) then levels else unlink_order id level ∷ levels)
        ≡ withdraw id (append_level_orders (level ∷ levels))
  unfolding append_level_orders unlink_order
  removed_here_view level levels held =
      let here = level_orders level.price level.orders in
      let there = append_level_orders levels in
      let erased = level_orders-erase_order level.price id level.orders in
      rw (withdraw-append id here there, held, ← erased)
        (elim (Bool-cases (is_empty (erase_order id level.orders))) [
          | inl z ↦ rw (is_empty→nil _ z)
          | inr z ↦ rw z
        ])

  removed_later_view :
      (level : PriceLevel) (levels rest : List PriceLevel)
      → (count_id id (level_orders level.price level.orders) == 0) ≡ true
      → append_level_orders rest ≡ withdraw id (append_level_orders levels)
      → append_level_orders (level ∷ rest) ≡ withdraw id (append_level_orders (level ∷ levels))
  unfolding append_level_orders
  removed_later_view level levels rest gone ih =
      let here = level_orders level.price level.orders in
      rw (withdraw-append id here (append_level_orders levels), gone) (ap (◌++◌ here) ih)

  -- On the view the order is withdrawn, where the location is that of the order.
  pub append_level_orders-removed :
      (levels : List PriceLevel) (l : OrderLocation)
      → AreLevels side levels
      → located id (append_level_orders levels) ≡ some l
      → l.level ≡ at
      → append_level_orders (removed at id levels) ≡ withdraw id (append_level_orders levels)
  append_level_orders-removed [] l v found p = unfold append_level_orders located in cc
  append_level_orders-removed (level ∷ levels) l (v, b, vs) found₀ p =
      let here = level_orders level.price level.orders in
      let there = append_level_orders levels in
      let found : located id (here ++ there) ≡ some l = unfold append_level_orders in found₀ in
      elim (Bool-cases (eqb_ℤ level.price at)) [
        | inl e ↦
            rw (removed_here at id level levels e)
              (removed_here_view level levels (count_here level levels l b found p e))
        | inr n ↦
            let gone = count_later level levels l found p n in
            let beyond : located id there ≡ some l =
              rw (located-append id here there, gone) at found in
            rw (removed_later at id level levels n) (
              removed_later_view level levels (removed at id levels) gone
                (append_level_orders-removed levels l vs beyond p))
      ]
