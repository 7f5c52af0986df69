-- ===== src/OrderBook/Operations/Located.antt =====
-- A live order at its location, as a cancel and a modify find it, and the modify that follows.
use orda_book.Prelude.{
  ℕ, ◌+◌, ◌-◌, ◌≤◌, ◌<◌, min, ◌==◌, ◌≡◌, refl, sym, ap, ◌∙◌, subst, inl, inr, Bool-cases,
  Option-cases, if◌then◌else◌, if_cases, true, some, ◌||◌, List, [], ◌∷◌, arith,
}
use orda_book.Prelude.Int.{pos, eqb_ℤ, eqb_ℤ→eq, ◌<ℤ◌}
use orda_book.Types.{Price, Side, bid, ask, Trade, quantity_overflow}
use orda_book.Engine.{opposite, max_quantity, quantity_add_would_overflow}
use orda_book.Priority.{available, withdraw, total_at, count_id}
use orda_book.Priority.Ids.{withdraw-absent}
use orda_book.Priority.Book.{Queues, queue, Result, refuse, enter, side_of}
use orda_book.OrderBook.State.{PriceLevel, OrderLocation, OrderBook, side_levels, find_location}
use orda_book.OrderBook.Levels.{find_level, remove_order, order_at, level_at}
use orda_book.OrderBook.Levels.Contents.{level_qty, level_qty-total_at}
use orda_book.OrderBook.Levels.Located.{located-side_of, total_at-found}
use orda_book.OrderBook.View.{append_level_orders, orders, located}
use orda_book.OrderBook.Invariant.{IsValid, count_live-sides}
use orda_book.OrderBook.Matching.{max_crossing_qty}
use orda_book.OrderBook.Matching.Crossing.{max_crossing_qty-available}
use orda_book.OrderBook.Withdrawal.{
  IsLive, find_location-IsLive, remove_order-Withdraws, remove_order-IsValid,
}
use orda_book.OrderBook.Operations.{
  match_and_rest, located_order, existing_level_qty, modify_located,
}
use orda_book.OrderBook.Operations.Entering.{
  view, view_outcome, view_outcome-reject, orders_of_levels, match_and_rest-view,
  match_and_rest-IsValid,
}
use orda_book.OrderBook.Operations.Adding.{LeavesValid, reject-LeavesValid, MayEnter-intro}
use orda_book.OrderBook.Operations.Checks.{view_if, crossing-queue}

abbrev without : ℕ → Queues → Queues
without id q = record q { bids = withdraw id q.bids; asks = withdraw id q.asks }

without-sides :
    (id : ℕ) (side : Side) (book book' : OrderBook)
    → orders side book' ≡ withdraw id (orders side book)
    → orders (opposite side) book' ≡ withdraw id (orders (opposite side) book)
    → book'.stats ≡ book.stats
    → view book' ≡ without id (view book)
without-sides id bid book book' a b s = λ i. record { bids = a i; asks = b i; stats = s i }
without-sides id ask book book' a b s = λ i. record { bids = b i; asks = a i; stats = s i }

queue_without :
    (id : ℕ) (side : Side) (book : OrderBook)
    → queue side (without id (view book)) ≡ withdraw id (orders side book)
queue_without id bid book = refl
queue_without id ask book = refl

find_level-price :
    (price : Price) (levels : List PriceLevel) {level : PriceLevel}
    → find_level price levels ≡ some level
    → level.price ≡ price
unfolding find_level
find_level-price price [] e = cc
find_level-price price (x ∷ levels) {level} e = elim (Bool-cases (eqb_ℤ x.price price)) [
  | inl t ↦
      let same : x ≡ level = ground (arith, e, t) in
      subst (λ (y : PriceLevel). y.price ≡ price) same (eqb_ℤ→eq x.price price t)
  | inr n ↦ find_level-price price levels (rw n at e)
]

module _ (id : ℕ) (l : OrderLocation) (book : OrderBook) (v : IsValid book)
    (e : find_location id book.order_index ≡ some l) where
  pub live : IsLive id l book
  live = find_location-IsLive id l book v e

  absent_there : count_id id (orders (opposite l.side) book) ≡ 0
  absent_there = omega (arith, v.unique id, count_live-sides l.side id book, live.held)

  pub remove_order-view : view (remove_order id l book) ≡ without id (view book)
  remove_order-view =
      let w = (remove_order-Withdraws id l book (v.sorted l.side) live).0 in
      without-sides id l.side book (remove_order id l book) w.withdrawn
        (orders_of_levels (opposite l.side) book (remove_order id l book) w.other
          ∙ sym (withdraw-absent id (orders (opposite l.side) book) absent_there))
        w.counters

  side_of-view : side_of id (view book) ≡ l.side
  side_of-view = go l.side live.held absent_there
    where
      go :
          (s : Side)
          → 0 < count_id id (orders s book)
          → count_id id (orders (opposite s) book) ≡ 0
          → (if count_id id (orders bid book) == 0 then ask else bid) ≡ s
      go bid h a = ground arith
      go ask h a = ground arith

  located_order-side : (located_order l book).side ≡ l.side
  unfolding located_order
  located_order-side = rw live.points_at (
      located-side_of l.side l.level id (side_levels l.side book) l (v.sorted l.side)
        (unfold orders in live.found) refl)

  existing_share :
      (price : Price)
      → total_at price (withdraw id (append_level_orders (side_levels l.side book)))
          + (if eqb_ℤ l.level price
              then (order_at id (level_at l.level (side_levels l.side book)).orders).qty
              else 0)
        ≡ total_at price (append_level_orders (side_levels l.side book))
      → level_qty price (side_levels l.side book)
        ≡ total_at price (append_level_orders (side_levels l.side book))
      → existing_level_qty l price book ≡ total_at price (withdraw id (orders l.side book))
  unfolding existing_level_qty level_qty orders
  existing_share price share level =
      let levels = side_levels l.side book in
      elim (Option-cases (find_level price levels)) [
        | inl n ↦ rw (n, existing_level_qty) (omega (arith, share, rw (n, level_qty) at level))
        | inr (x, f) ↦
            let p : x.price ≡ price = find_level-price price levels f in
            let t : x.total_qty ≡ total_at price (append_level_orders levels) =
              rw (f, level_qty) at level in
            rw (f, existing_level_qty, p, live.points_at) (ground (arith, share, t))
      ]

  -- What `modify_order` takes for the level's quantity is that of the other orders at the price.
  existing_level_qty-total_at :
      (price : Price)
      → existing_level_qty l price book ≡ total_at price (withdraw id (orders l.side book))
  existing_level_qty-total_at price =
      let levels = side_levels l.side book in
      let found : located id (append_level_orders levels) ≡ some l = unfold orders in live.found in
      existing_share price
        (total_at-found l.side l.level id price levels l (v.sorted l.side) found refl)
        (level_qty-total_at l.side price levels (v.sorted l.side))

  abbrev removed_book : OrderBook
  removed_book = remove_order id l book

  removed_IsValid : IsValid removed_book
  removed_IsValid = (remove_order-IsValid id l book v e).0

  removed_orders :
      (orders l.side removed_book ≡ withdraw id (orders l.side book))
      × (orders (opposite l.side) removed_book ≡ orders (opposite l.side) book)
      × (removed_book.stats ≡ book.stats)
  removed_orders =
      let w = (remove_order-Withdraws id l book (v.sorted l.side) live).0 in
      (w.withdrawn, orders_of_levels (opposite l.side) book removed_book w.other, w.counters)

  crossing_removed :
      (price : Price) (qty : ℕ)
      → max_crossing_qty l.side price qty book ≡ max_crossing_qty l.side price qty removed_book
  crossing_removed price qty =
      max_crossing_qty-available l.side price qty book v
      ∙ ap (λ xs. min qty (available l.side price xs)) (sym removed_orders.1)
      ∙ sym (max_crossing_qty-available l.side price qty removed_book removed_IsValid)

  -- The test that `modify_located` makes, in the terms of the book without the order.
  overflows_removed :
      (price : Price) (qty : ℕ)
      → quantity_add_would_overflow
            (existing_level_qty l price book)
            (qty - max_crossing_qty l.side price qty book)
          || quantity_add_would_overflow book.stats.traded_qty
              (max_crossing_qty l.side price qty book)
        ≡ quantity_add_would_overflow
            (total_at price (orders l.side removed_book))
            (qty - max_crossing_qty l.side price qty removed_book)
          || quantity_add_would_overflow removed_book.stats.traded_qty
              (max_crossing_qty l.side price qty removed_book)
  overflows_removed price qty = rw (
    existing_level_qty-total_at price,
    crossing_removed price qty,
    removed_orders.0,
    removed_orders.2,
  )

  pub modify_located-LeavesValid :
      (price : Price) (qty : ℕ) (trades : List Trade)
      → qty ≤ max_quantity
      → pos 0 <ℤ price
      → LeavesValid (modify_located id l price qty book trades)
  unfolding modify_located
  modify_located-LeavesValid price qty trades small priced = rw located_order-side (
      if_cases LeavesValid _ _ (match_and_rest id l.side price qty true removed_book trades)
        (λ _. reject-LeavesValid quantity_overflow book trades v)
        λ fits. record {
          book_valid =
              match_and_rest-IsValid id l.side price qty true removed_book trades removed_IsValid (
                MayEnter-intro id l.side price qty true removed_book removed_IsValid
                  (remove_order-IsValid id l book v e).1 small (λ _. priced)
                  (sym (overflows_removed price qty) ∙ fits));
        })

  -- A modify of a live order, as price-time priority has it.
  abbrev replaced : Price → ℕ → Queues → List Trade → Result
  replaced price qty q trades =
      let side = side_of id q in
      let crossing = min qty (available side price (queue (opposite side) q)) in
      if quantity_add_would_overflow (total_at price (queue side (without id q))) (qty - crossing)
        || quantity_add_would_overflow q.stats.traded_qty crossing
      then refuse quantity_overflow q trades
      else enter id side price qty true (without id q) trades

  overflows_view :
      (price : Price) (qty : ℕ)
      → quantity_add_would_overflow
            (existing_level_qty l price book)
            (qty - max_crossing_qty l.side price qty book)
          || quantity_add_would_overflow book.stats.traded_qty
              (max_crossing_qty l.side price qty book)
        ≡ quantity_add_would_overflow
            (total_at price (queue l.side (without id (view book))))
            (qty - min qty (available l.side price (queue (opposite l.side) (view book))))
          || quantity_add_would_overflow book.stats.traded_qty
              (min qty (available l.side price (queue (opposite l.side) (view book))))
  overflows_view price qty = rw (
    existing_level_qty-total_at price,
    crossing-queue l.side price qty book v,
    queue_without id l.side book,
  )

  pub modify_located-view :
      (price : Price) (qty : ℕ) (trades : List Trade)
      → view_outcome (modify_located id l price qty book trades)
        ≡ replaced price qty (view book) trades
  unfolding modify_located
  modify_located-view price qty trades =
      rw (located_order-side, side_of-view)
        (view_if _ _ _ _ _ _ (overflows_view price qty)
          (view_outcome-reject quantity_overflow book trades)
          (match_and_rest-view id l.side price qty true removed_book trades removed_IsValid
            ∙ ap (λ q. enter id l.side price qty true q trades) remove_order-view))
