-- ===== src/OrderBook/Levels/Resting.antt =====
-- A resting order joins the back of its level: `ensure_level` and `push_back` are `rest_order` on
-- the view, and the levels stay well formed.
use orda_book.Prelude.{
  ◌+◌, ◌≤◌, ◌≡◌, refl, sym, ap, ◌∙◌, inl, inr, Bool-cases, true, false, List, [], ◌∷◌, ◌++◌, All,
  All-append, All-mono, arith,
}
use mathlib.Core.List.{append_assoc}
use orda_book.Prelude.Int.{pos, eqb_ℤ, eqb_ℤ→eq, eqb_ℤ_refl, ◌<ℤ◌}
use orda_book.Types.{Price, Side, OrderSnapshot}
use orda_book.Engine.{ahead, max_quantity}
use orda_book.Engine.Order.{ahead_irrefl, ahead_asymm, ahead_trans, ahead_total}
use orda_book.Priority.{rest_order, total}
use orda_book.Priority.Fills.{total-append}
use orda_book.Priority.Queue.{rest_order-append, rest_order-front}
use orda_book.OrderBook.State.{Order, PriceLevel}
use orda_book.OrderBook.Levels.{ensure_level, update_level, push_order, empty_level}
use orda_book.OrderBook.View.{level_orders, append_level_orders, snapshot}
use orda_book.OrderBook.Invariant.{IsResting, IsLevel, AreLevels, Behind}
use orda_book.OrderBook.Levels.Contents.{
  level_orders-append, level_orders-All, levels-All, level_qty, level_qty_cases, is_empty-snoc,
}

module _ (side : Side) (price : Price) (order : Order) where
  abbrev pub pushed : List PriceLevel → List PriceLevel
  pushed levels = update_level price (push_order order) (ensure_level side price levels)

  -- The three cases of `pushed`.
  pushed_here :
      (level : PriceLevel) (levels : List PriceLevel)
      → eqb_ℤ level.price price ≡ true
      → pushed (level ∷ levels) ≡ push_order order level ∷ levels
  unfolding ensure_level update_level
  pushed_here level levels e = rw (e, update_level, e)

  pushed_later :
      (level : PriceLevel) (levels : List PriceLevel)
      → eqb_ℤ level.price price ≡ false
      → ahead side level.price price ≡ true
      → pushed (level ∷ levels) ≡ level ∷ pushed levels
  unfolding ensure_level update_level
  pushed_later level levels n a = rw (n, a, update_level, n)

  pushed_front :
      (level : PriceLevel) (levels : List PriceLevel)
      → eqb_ℤ level.price price ≡ false
      → ahead side level.price price ≡ false
      → pushed (level ∷ levels) ≡ push_order order (empty_level price) ∷ level ∷ levels
  unfolding ensure_level update_level
  pushed_front level levels n a = rw (n, a, update_level, eqb_ℤ_refl price)

  pushed_empty : pushed [] ≡ push_order order (empty_level price) ∷ []
  unfolding ensure_level update_level
  pushed_empty = rw (eqb_ℤ_refl price)

  abbrev new : OrderSnapshot
  new = snapshot price order

  here_view :
      (level : PriceLevel) (levels : List PriceLevel)
      → eqb_ℤ level.price price ≡ true
      → Behind side level.price levels
      → append_level_orders (push_order order level ∷ levels)
        ≡ rest_order side new (append_level_orders (level ∷ levels))
  unfolding append_level_orders push_order
  here_view level levels e b =
      let p : level.price ≡ price = eqb_ℤ→eq level.price price e in
      let here = level_orders level.price level.orders in
      let there = append_level_orders levels in
      let back : rest_order side new there ≡ new ∷ there =
        rest_order-front side new there
          (levels-All (λ q. ahead side price q ≡ true) levels (rw p at b)) in
      let pass : rest_order side new (here ++ there) ≡ here ++ rest_order side new there =
        rest_order-append side new here there (
          level_orders-All (λ q. ahead side price q ≡ false) level.price level.orders
            (rw p (ahead_irrefl side price))) in
      let joined : level_orders level.price (level.orders ++ (order ∷ [])) ++ there
          ≡ here ++ (snapshot level.price order ∷ there) =
        rw level_orders-append (append_assoc here (snapshot level.price order ∷ []) there) in
      joined ∙ (λ i. here ++ (snapshot (p i) order ∷ there)) ∙ ap (◌++◌ here) (sym back) ∙ sym pass

  later_view :
      (level : PriceLevel) (levels : List PriceLevel)
      → ahead side level.price price ≡ true
      → append_level_orders (pushed levels) ≡ rest_order side new (append_level_orders levels)
      → append_level_orders (level ∷ pushed levels)
        ≡ rest_order side new (append_level_orders (level ∷ levels))
  unfolding append_level_orders
  later_view level levels a ih =
      let here = level_orders level.price level.orders in
      ap (◌++◌ here) ih
      ∙ sym (
          rest_order-append side new here (append_level_orders levels) (
            level_orders-All (λ q. ahead side price q ≡ false) level.price level.orders
              (ahead_asymm side level.price price a)))

  front_view :
      (level : PriceLevel) (levels : List PriceLevel)
      → ahead side price level.price ≡ true
      → Behind side level.price levels
      → append_level_orders (push_order order (empty_level price) ∷ level ∷ levels)
        ≡ rest_order side new (append_level_orders (level ∷ levels))
  front_view level levels a b =
      unfold append_level_orders push_order in
      sym (
        rest_order-front side new (append_level_orders (level ∷ levels)) (
          levels-All (λ q. ahead side price q ≡ true) (level ∷ levels)
            (a, All-mono _ _ (λ l. ahead_trans side price level.price l.price a) levels b)))

  -- On the view the order joins behind its price.
  pub append_level_orders-pushed :
      (levels : List PriceLevel)
      → AreLevels side levels
      → append_level_orders (pushed levels)
        ≡ rest_order side (snapshot price order) (append_level_orders levels)
  append_level_orders-pushed [] v =
      rw pushed_empty (unfold append_level_orders push_order rest_order in refl)
  append_level_orders-pushed (level ∷ levels) (v, b, vs) =
      elim (Bool-cases (eqb_ℤ level.price price)) [
        | inl e ↦ rw (pushed_here level levels e) (here_view level levels e b)
        | inr n ↦ elim (Bool-cases (ahead side level.price price)) [
          | inl a ↦
              rw (pushed_later level levels n a)
                (later_view level levels a (append_level_orders-pushed levels vs))
          | inr a ↦
              rw (pushed_front level levels n a)
                (front_view level levels (ahead_total side level.price price n a) b)
        ]
      ]

  pushed-Behind :
      (at : Price) (levels : List PriceLevel)
      → ahead side at price ≡ true
      → Behind side at levels
      → Behind side at (pushed levels)
  pushed-Behind at [] a b = rw pushed_empty (unfold push_order in (a, tt))
  pushed-Behind at (level ∷ levels) a (h, b) = elim (Bool-cases (eqb_ℤ level.price price)) [
    | inl e ↦ rw (pushed_here level levels e) (unfold push_order in (h, b))
    | inr n ↦ elim (Bool-cases (ahead side level.price price)) [
      | inl c ↦ rw (pushed_later level levels n c) (h, pushed-Behind at levels a b)
      | inr c ↦ rw (pushed_front level levels n c) (unfold push_order in (a, (h, b)))
    ]
  ]

  module _ (priced : pos 0 <ℤ price) (resting : IsResting side price order) where
    push_order-IsLevel :
        (level : PriceLevel)
        → level.price ≡ price
        → All (IsResting side price) level.orders
        → level.total_qty ≡ total (level_orders level.price level.orders)
        → level.total_qty + order.qty ≤ max_quantity
        → IsLevel side (push_order order level)
    unfolding push_order total
    push_order-IsLevel level p rs c fits = record {
      occupied = is_empty-snoc level.orders order;
      priced = rw p priced;
      resting = rw p (All-append _ level.orders (order ∷ []) rs (resting, tt));
      counted = rw level_orders-append (
          omega (
            arith,
            c,
            total-append (level_orders level.price level.orders) (snapshot level.price order ∷ []),
          ));
      bounded = fits;
    }

    -- The levels stay well formed if the total at the price fits.
    pub pushed-AreLevels :
        (levels : List PriceLevel)
        → AreLevels side levels
        → level_qty price levels + order.qty ≤ max_quantity
        → AreLevels side (pushed levels)
    pushed-AreLevels [] v fits = rw pushed_empty (
      push_order-IsLevel (empty_level price) refl tt (unfold total in refl) (omega arith),
      tt,
      tt,
    )
    pushed-AreLevels (level ∷ levels) (v, b, vs) fits =
        elim (Bool-cases (eqb_ℤ level.price price)) [
          | inl e ↦
              let p : level.price ≡ price = eqb_ℤ→eq level.price price e in
              rw (pushed_here level levels e) (
                push_order-IsLevel level p (rw p at v.resting) v.counted
                    (rw (level_qty_cases price level levels, e) at fits),
                unfold push_order in b,
                vs,
              )
          | inr n ↦ elim (Bool-cases (ahead side level.price price)) [
            | inl a ↦ rw (pushed_later level levels n a) (
              v,
              pushed-Behind level.price levels a b,
              pushed-AreLevels levels vs (rw (level_qty_cases price level levels, n) at fits),
            )
            | inr a ↦
                let f = ahead_total side level.price price n a in
                rw (pushed_front level levels n a) (
                  push_order-IsLevel (empty_level price) refl tt (unfold total in refl)
                      (omega arith),
                  unfold push_order in
                      (
                        f,
                        All-mono _ _ (λ l. ahead_trans side price level.price l.price f) levels b,
                      ),
                  (v, b, vs),
                )
          ]
        ]
