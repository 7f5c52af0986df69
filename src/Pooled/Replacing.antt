-- ===== src/Pooled/Replacing.antt =====
-- `modify_order` of src/pooled_order_book.cpp against that of src/order_book.cpp.
use orda_book.Prelude.{
  ℕ, ◌-◌, ◌≡◌, ◌∙◌, refl, sym, ap, subst, inl, inr, if◌then◌else◌, true, ◌||◌, not, Option,
  Option-cases, none, some, List, map,
}
use orda_book.Prelude.Int.{ℤ, pos_part, eqb_ℤ, eqb_ℤ→eq}
use orda_book.Types.{
  Price, Side, bid, Trade, BookError, unknown_order_id, invalid_price, invalid_quantity,
  quantity_overflow,
}
use orda_book.Engine.{quantity_add_would_overflow, is_valid_price, is_valid_qty, count_modify}
use orda_book.OrderBook.State
use orda_book.OrderBook.State.{Order, OrderBook, OrderLocation, find_location}
use orda_book.OrderBook.Levels
use orda_book.OrderBook.Levels.{level_at, order_at, empty_level}
use orda_book.OrderBook.Matching
use orda_book.OrderBook.Invariant.{IsValid, restat-IsValid}
use orda_book.OrderBook.Withdrawal.{remove_order-IsValid}
use orda_book.OrderBook.Operations
use orda_book.Pooled.State.{
  SlotIndex, OrderSlot, PriceLevel, PooledOrderBook, side_levels, find_level, find_slot,
}
use orda_book.Pooled.Slots.{remove_order}
use orda_book.Pooled.Matching.{max_crossing_qty}
use orda_book.Pooled.Operations.{
  Outcome, reject, rest_of_modify, existing_level_qty, modify_slot, modify_order,
}
use orda_book.Pooled.Linked.{pooled_level, base_level, slot_of, first_or, last_or}
use orda_book.Pooled.Keys.{find_none}
use orda_book.Pooled.Split.{find_level-cases, find_level-split, base_find_level-split}
use orda_book.Pooled.Locating.{InLevels, order_at-cells}
use orda_book.Pooled.Represents.{Represents, slot_count, turn, turn-slot_count}
use orda_book.Pooled.Removing.{
  Removed, cell, cell_slot, xs, ys, whole, before, after, own_base, at_price,
}
use orda_book.Pooled.Entering.{Simulates, recount, Simulates-if, match_and_rest-Simulates}
use orda_book.Pooled.Refusing.{
  restat-Represents, restat-slot_count, reject-Simulates, max_crossing_qty-same,
}
use orda_book.Pooled.Live.{Live, find_slot-Live, live_removed}

module _ (id : ℕ) (l : OrderLocation) (p : PooledOrderBook) (b : OrderBook)
    (rep : Represents l.side p b) (at : InLevels l.side id l rep.own) (e : l.order_it ≡ id) where
  abbrev order : Order
  order = (cell id l.side l p b rep at).order

  abbrev held : OrderSlot
  held =
      slot_of order (last_or 0 (xs id l.side l p b rep at)) (first_or 0 (ys id l.side l p b rep at))

  located_order-cell : Operations.located_order l b ≡ order
  unfolding Operations.located_order level_at
  located_order-cell =
      let (o, _) =
        order_at-cells id (xs id l.side l p b rep at) (cell id l.side l p b rep at)
          (ys id l.side l p b rep at) at.inside.named at.inside.others in
      let there : level_at l.level (State.side_levels l.side b)
          ≡ base_level (whole id l.side l p b rep at) =
        ap (level_at l.level) (own_base id l.side l p b rep at)
        ∙ ap
            (λ (o : Option State.PriceLevel). elim o [
              | some level ↦ level
              | none ↦ empty_level l.level
            ])
            (base_find_level-split l.level (whole id l.side l p b rep at)
              (after id l.side l p b rep at) at.found.priced (before id l.side l p b rep at)
              at.found.unpriced) in
      (λ t. order_at (e t) (there t).orders) ∙ o

  -- What the level at the new price holds without the order.
  existing_level_qty-same :
      (price : Price) → existing_level_qty held price p ≡ Operations.existing_level_qty l price b
  unfolding existing_level_qty Operations.existing_level_qty
  existing_level_qty-same price =
      let on_side : order.side ≡ l.side = at.on_side in
      let priced = at_price id l.side l p b rep at in
      let pooled : Price → Option PriceLevel → ℕ = λ q o. elim o [
        | none ↦ 0
        | some level ↦ if eqb_ℤ q price then level.total_qty - order.qty else level.total_qty
      ] in
      let base : Order → Option State.PriceLevel → ℕ = λ x o. elim o [
        | none ↦ 0
        | some level ↦
            if eqb_ℤ l.level level.price then level.total_qty - x.qty else level.total_qty
      ] in
      let same : pooled l.level (find_level price (map pooled_level rep.own))
          ≡ base order (Levels.find_level price (map base_level rep.own)) =
        elim (find_level-cases price rep.own) [
          | inl (n, m, _) ↦ ap (pooled l.level) n ∙ sym (ap (base order) m)
          | inr f ↦
              ap (λ gs. pooled l.level (find_level price (map pooled_level gs))) f.whole
              ∙ ap (pooled l.level)
                  (find_level-split price f.here f.after f.priced f.before f.unpriced)
              ∙ (λ t.
                  if eqb_ℤ l.level (sym (eqb_ℤ→eq f.here.price price f.priced) t)
                  then f.here.total_qty - order.qty
                  else f.here.total_qty)
              ∙ sym (
                  ap (base order)
                    (base_find_level-split price f.here f.after f.priced f.before f.unpriced))
              ∙ sym (ap (λ gs. base order (Levels.find_level price (map base_level gs))) f.whole)
        ] in
      (λ t. pooled (priced t) (find_level price (side_levels (on_side t) p)))
      ∙ ap (λ ls. pooled l.level (find_level price ls)) rep.own_pooled
      ∙ same
      ∙ sym (ap (λ ls. base order (Levels.find_level price ls)) rep.own_base)
      ∙ (λ t.
          base (sym located_order-cell t) (Levels.find_level price (State.side_levels l.side b)))

module _ (id : ℕ) (i : SlotIndex) (price : Price) (qty : ℕ) (p : PooledOrderBook) (b : OrderBook)
    (trades : List Trade) (rep : Represents bid p b) (v : IsValid b)
    (live : Live id i p b rep) where
  abbrev l : OrderLocation
  l = live.location

  abbrev sided : Represents l.side p b
  sided = turn bid l.side p b rep

  abbrev kept : OrderSlot
  kept = held id l p b sided live.place live.is_live.points_at

  slot_kept : p.pool.slots i ≡ kept
  slot_kept = ap p.pool.slots live.at_slot ∙ cell_slot id l.side l p b sided live.place

  -- The bodies of the two calls, with what they read of the order given.
  abbrev replaced : Side → OrderSlot → Option Outcome
  replaced side current =
      let crossing_qty = max_crossing_qty side price qty p in
      if quantity_add_would_overflow (existing_level_qty current price p) (qty - crossing_qty)
        || quantity_add_would_overflow p.stats.traded_qty crossing_qty
      then some (reject quantity_overflow p trades)
      else rest_of_modify id side price qty trades (remove_order id i p)

  abbrev base_replaced : Side → Operations.Outcome
  base_replaced side =
      let crossing_qty = Matching.max_crossing_qty side price qty b in
      if quantity_add_would_overflow (Operations.existing_level_qty l price b) (qty - crossing_qty)
        || quantity_add_would_overflow b.stats.traded_qty crossing_qty
      then Operations.reject quantity_overflow b trades
      else Operations.match_and_rest id side price qty true (Levels.remove_order id l b) trades

  modify_slot-replaced : modify_slot id i price qty p trades ≡ replaced l.side kept
  unfolding modify_slot
  modify_slot-replaced =
      (λ t. replaced (slot_kept t).side (slot_kept t)) ∙ (λ t. replaced (live.place.on_side t) kept)

  modify_located-replaced : Operations.modify_located id l price qty b trades ≡ base_replaced l.side
  unfolding Operations.modify_located
  modify_located-replaced =
      (λ t.
        base_replaced (located_order-cell id l p b sided live.place live.is_live.points_at t).side)
      ∙ (λ t. base_replaced (live.place.on_side t))

  abbrev removed : Removed id l.side p b sided (remove_order id i p) (Levels.remove_order id l b)
  removed = live_removed id i p b rep live

  entered :
      Simulates
        (slot_count rep)
        (rest_of_modify id l.side price qty trades (remove_order id i p))
        (Operations.match_and_rest id l.side price qty true (Levels.remove_order id l b) trades)
  entered =
      recount (slot_count removed.after) (slot_count rep) _ _
        (removed.slots_kept ∙ turn-slot_count bid l.side p b rep)
        (subst
          (λ r. Simulates (slot_count removed.after) (rest_of_modify id l.side price qty trades r) (
            Operations.match_and_rest id l.side price qty true (Levels.remove_order id l b) trades))
          (sym removed.result)
          (match_and_rest-Simulates id l.side price qty true removed.book
            (Levels.remove_order id l b) trades removed.after
            (remove_order-IsValid id l b v live.looked_up).0 removed.absent
            (λ _ _. inl removed.freed)))

  pub modify_slot-Simulates :
      Simulates
        (slot_count rep)
        (modify_slot id i price qty p trades)
        (Operations.modify_located id l price qty b trades)
  modify_slot-Simulates =
      let crossing_same = max_crossing_qty-same l.side price qty p b sided in
      let existing_same =
        existing_level_qty-same id l p b sided live.place live.is_live.points_at price in
      rw (modify_slot-replaced, modify_located-replaced)
        (Simulates-if (slot_count rep) _ _ _ _ _ _
          (λ t.
            quantity_add_would_overflow (existing_same t) (qty - crossing_same t)
            || quantity_add_would_overflow (rep.agree.counters t).traded_qty (crossing_same t))
          (λ _. reject-Simulates quantity_overflow p b trades rep) (λ _. entered))

-- On books that hold the same orders the two engines modify alike: the slot of the order is free
-- before the order enters anew.
pub modify_order-Simulates :
    (id : ℕ) (price : Price) (qty : ℤ) (p : PooledOrderBook) (b : OrderBook) (trades : List Trade)
    (rep : Represents bid p b)
    → IsValid b
    → Simulates
        (slot_count rep)
        (modify_order id price qty p trades)
        (Operations.modify_order id price qty b trades)
unfolding modify_order Operations.modify_order
modify_order-Simulates id price qty p₀ b₀ trades rep₀ v₀ =
    let p : PooledOrderBook = record p₀ { stats = count_modify p₀.stats } in
    let b : OrderBook = record b₀ { stats = count_modify b₀.stats } in
    let rep = restat-Represents p₀ b₀ count_modify rep₀ in
    let v : IsValid b =
      restat-IsValid b₀ (count_modify b₀.stats) v₀ (unfold count_modify in refl) in
    let refusal = λ (error : BookError). reject-Simulates error p b trades rep in
    recount (slot_count rep) (slot_count rep₀) _ _ (restat-slot_count p₀ b₀ count_modify rep₀)
      (elim (Option-cases (find_slot id p.order_index)) [
        | inl n ↦
            rw
              (
                n,
                modify_order,
                find_none id p.order_index b.order_index rep.agree.keys n,
                Operations.modify_order,
              )
              (refusal unknown_order_id)
        | inr (i, e) ↦
            let live = find_slot-Live id i p b rep v e in
            rw (e, modify_order, live.looked_up, Operations.modify_order)
              (Simulates-if (slot_count rep) (not (is_valid_price price))
                (not (is_valid_price price)) _ _ _ _ refl (λ _. refusal invalid_price)
                (λ _.
                  Simulates-if (slot_count rep) (not (is_valid_qty qty)) (not (is_valid_qty qty)) _
                    _ _ _ refl (λ _. refusal invalid_quantity)
                    (λ _. modify_slot-Simulates id i price (pos_part qty) p b trades rep v live)))
      ])
