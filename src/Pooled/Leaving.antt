-- ===== src/Pooled/Leaving.antt =====
-- `remove_order` of src/pooled_order_book.cpp against that of src/order_book.cpp, for a live order.
use orda_book.Prelude.{
  ℕ, ◌+◌, ◌==◌, ◌≡◌, ◌∙◌, refl, sym, ap, subst, ne→==, inl, inr, if◌then◌else◌, true, false, List,
  [], ◌∷◌, ◌++◌, length, length-append, map, arith,
}
use orda_book.Prelude.Int.{eqb_ℤ→eq}
use orda_book.Types.{Side, bid, ask}
use orda_book.Engine.{opposite}
use orda_book.OrderBook.State
use orda_book.OrderBook.State.{OrderBook, OrderLocation, erase_location}
use orda_book.OrderBook.Levels
use orda_book.OrderBook.Levels.{is_empty, unlink_order, level_at}
use orda_book.Pooled.State.{PooledOrderBook, side_levels}
use orda_book.Pooled.Slots.{remove_order, release_slot}
use orda_book.Pooled.Linked.{LinkedLevel, pooled_level, base_level, orders_of}
use orda_book.Pooled.Keys.{erase_keys, location_keys}
use orda_book.Pooled.Split.{
  update_level-split, base_update_level-split, erase_level-split, base_erase_level-split,
}
use orda_book.Pooled.Locating.{InLevels}
use orda_book.Pooled.Matching.Walk.{AllHold, cells_of}
use orda_book.Pooled.Matching.Tracks.{Within}
use orda_book.Pooled.Matching.Sweep.{cells-cases}
use orda_book.Pooled.Holding.{cells_of-insert, AllHold-erase, length-levels}
use orda_book.Pooled.Represents.{Represents, matching_of}
use orda_book.Pooled.Releasing.{kept_levels, removed_from}
use orda_book.Pooled.Matching.Drop.{level_of}
use orda_book.Pooled.Removing.{
  Removed, after, after_remove, base_unlinked, before, call, cell, here, own_base, own_whole,
  removed_after, shorter, stays_hold, stays-Within, unlinked, whole, xs, ys,
}

-- The levels that the two calls leave: without the level where it has no other order.
pub record Left (id : ℕ) (side : Side) (l : OrderLocation) (p : PooledOrderBook) (b : OrderBook)
    (rep : Represents side p b) (at : InLevels side id l rep.own) : Type 1 where
  pub levels : List LinkedLevel
  pub pooled :
      kept_levels l.level (pooled_level (shorter id side l p b rep at)) (
        map pooled_level (
          before id side l p b rep at ++ (whole id side l p b rep at ∷ after id side l p b rep at)))
      ≡ map pooled_level levels
  pub base :
      (if is_empty (orders_of (xs id side l p b rep at ++ ys id side l p b rep at))
        then Levels.erase_level (here id side l p b rep at).price (State.side_levels side b)
        else Levels.update_level l.level
            (λ _. base_level (shorter id side l p b rep at))
            (State.side_levels side b))
      ≡ map base_level levels
  pub hold : AllHold (after_remove id side l p b rep at) levels
  pub within : Within (cells_of rep.own) (cells_of levels)
  pub count : length (cells_of levels) + 1 ≡ length (cells_of rep.own)

module _ (id : ℕ) (side : Side) (l : OrderLocation) (p : PooledOrderBook) (b : OrderBook)
    (rep : Represents side p b) (at : InLevels side id l rep.own) where
  stays_count :
      length (
          cells_of (
            (before id side l p b rep at)
            ++ ((shorter id side l p b rep at) ∷ (after id side l p b rep at))))
        + 1
      ≡ length (cells_of rep.own)
  stays_count = omega (
    arith,
    ap (λ gs. length (cells_of gs)) (own_whole id side l p b rep at),
    length-levels (before id side l p b rep at) (after id side l p b rep at)
        (whole id side l p b rep at),
    length-levels (before id side l p b rep at) (after id side l p b rep at)
        (shorter id side l p b rep at),
    length-append (xs id side l p b rep at)
        ((cell id side l p b rep at) ∷ (ys id side l p b rep at)),
    length-append (xs id side l p b rep at) (ys id side l p b rep at),
  )

  -- A level without cells adds none.
  same_cells :
      (xs id side l p b rep at) ++ (ys id side l p b rep at) ≡ []
      → cells_of (
          (before id side l p b rep at)
          ++ ((shorter id side l p b rep at) ∷ (after id side l p b rep at)))
        ≡ cells_of ((before id side l p b rep at) ++ (after id side l p b rep at))
  same_cells e =
      ap
        (λ cs. cells_of (
          (before id side l p b rep at)
          ++ (level_of (here id side l p b rep at).price ((shorter id side l p b rep at)).total_qty
                cs
              ∷ (after id side l p b rep at))))
        e
      ∙ cells_of-insert (here id side l p b rep at).price ((shorter id side l p b rep at)).total_qty
          (before id side l p b rep at) (after id side l p b rep at)

  left_level : Left id side l p b rep at
  left_level = elim (cells-cases ((xs id side l p b rep at) ++ (ys id side l p b rep at))) [
    | inr (c, cs, e) ↦
        let u : ((pooled_level (shorter id side l p b rep at)).order_count == 0) ≡ false =
          rw e (ne→== λ z. absurd (omega arith)) in
        record {
          levels =
              (before id side l p b rep at)
              ++ ((shorter id side l p b rep at) ∷ (after id side l p b rep at));
          pooled = rw u (
              update_level-split l.level (whole id side l p b rep at) (after id side l p b rep at)
                at.found.priced (shorter id side l p b rep at) (before id side l p b rep at)
                at.found.unpriced);
          base = rw (ap (λ cs. is_empty (orders_of cs)) e) (
              ap (Levels.update_level l.level (λ _. base_level (shorter id side l p b rep at)))
                (own_base id side l p b rep at)
              ∙ base_update_level-split l.level (whole id side l p b rep at)
                  (after id side l p b rep at) at.found.priced (shorter id side l p b rep at)
                  (λ _. base_level (shorter id side l p b rep at)) (before id side l p b rep at)
                  refl at.found.unpriced);
          hold = (stays_hold id side l p b rep at);
          within = (stays-Within id side l p b rep at);
          count = stays_count;
        }
    | inl e ↦
        let u : ((pooled_level (shorter id side l p b rep at)).order_count == 0) ≡ true =
          rw e refl in
        record {
          levels = (before id side l p b rep at) ++ (after id side l p b rep at);
          pooled = rw u (
              erase_level-split l.level (whole id side l p b rep at) (after id side l p b rep at)
                at.found.priced (before id side l p b rep at) at.found.unpriced);
          base = rw (ap (λ cs. is_empty (orders_of cs)) e) (
              (λ t.
                Levels.erase_level
                  (eqb_ℤ→eq (here id side l p b rep at).price l.level at.found.priced t)
                  ((own_base id side l p b rep at) t))
              ∙ base_erase_level-split l.level (whole id side l p b rep at)
                  (after id side l p b rep at) at.found.priced (before id side l p b rep at)
                  at.found.unpriced);
          hold =
              AllHold-erase (after_remove id side l p b rep at) (shorter id side l p b rep at)
                (after id side l p b rep at) (before id side l p b rep at)
                (stays_hold id side l p b rep at);
          within = rw (same_cells e) at (stays-Within id side l p b rep at);
          count = rw (same_cells e) at stays_count;
        }
  ]

  -- The order leaves its level, its slot and the index in both engines.
  left_after :
      (b' : OrderBook)
      → State.side_levels side b' ≡ map base_level left_level.levels
      → State.side_levels (opposite side) b' ≡ State.side_levels (opposite side) b
      → b'.order_index ≡ erase_location id b.order_index
      → b.stats ≡ b'.stats
      → side_levels side (
          removed_from id
            (cell id side l p b rep at).slot
            p
            side
            (map pooled_level left_level.levels)
            (unlinked id side l p b rep at).1)
        ≡ map pooled_level left_level.levels
      → side_levels (opposite side) (
          removed_from id
            (cell id side l p b rep at).slot
            p
            side
            (map pooled_level left_level.levels)
            (unlinked id side l p b rep at).1)
        ≡ side_levels (opposite side) p
      → matching_of 0 [] (
          removed_from id
            (cell id side l p b rep at).slot
            p
            side
            (map pooled_level left_level.levels)
            (unlinked id side l p b rep at).1)
        ≡ after_remove id side l p b rep at
      → Removed id side p b rep (remove_order id (cell id side l p b rep at).slot p) b'
  left_after b' f g i s h k m =
      removed_after id side l p b rep at left_level.levels _ b' _
        (call id side l p b rep at _ left_level.pooled) h k f g m
        (erase_keys id p.order_index b.order_index rep.agree.keys ∙ ap location_keys (sym i)) s
        left_level.hold left_level.within left_level.count

  -- What the baseline's call leaves of the side.
  base_left :
      l.order_it ≡ id
      → (if is_empty (unlink_order l.order_it (level_at l.level (State.side_levels side b))).orders
          then Levels.erase_level
              (unlink_order l.order_it (level_at l.level (State.side_levels side b))).price
              (State.side_levels side b)
          else Levels.update_level l.level
              (λ _. unlink_order l.order_it (level_at l.level (State.side_levels side b)))
              (State.side_levels side b))
        ≡ map base_level left_level.levels
  base_left e =
      ap
        (λ (level : State.PriceLevel).
          if is_empty level.orders
          then Levels.erase_level level.price (State.side_levels side b)
          else Levels.update_level l.level (λ _. level) (State.side_levels side b))
        (base_unlinked id side l p b rep at e)
      ∙ left_level.base

left_bid :
    (id : ℕ) (l : OrderLocation) (p : PooledOrderBook) (b : OrderBook) (rep : Represents bid p b)
    (at : InLevels bid id l rep.own)
    → l.side ≡ bid
    → l.order_it ≡ id
    → Removed id bid p b rep
        (remove_order id (cell id bid l p b rep at).slot p)
        (Levels.remove_order id l b)
unfolding Levels.remove_order release_slot
left_bid id l p b rep at e f =
    subst
      (λ s.
        Removed id bid p b rep (remove_order id (cell id bid l p b rep at).slot p)
          (Levels.remove_order id (record l { side = s }) b))
      (sym e)
      (left_after id bid l p b rep at _ (base_left id bid l p b rep at f) refl refl refl refl refl
        refl)

left_ask :
    (id : ℕ) (l : OrderLocation) (p : PooledOrderBook) (b : OrderBook) (rep : Represents ask p b)
    (at : InLevels ask id l rep.own)
    → l.side ≡ ask
    → l.order_it ≡ id
    → Removed id ask p b rep
        (remove_order id (cell id ask l p b rep at).slot p)
        (Levels.remove_order id l b)
unfolding Levels.remove_order release_slot
left_ask id l p b rep at e f =
    subst
      (λ s.
        Removed id ask p b rep (remove_order id (cell id ask l p b rep at).slot p)
          (Levels.remove_order id (record l { side = s }) b))
      (sym e)
      (left_after id ask l p b rep at _ (base_left id ask l p b rep at f) refl refl refl refl refl
        refl)

-- The order that stands at the location leaves both books, and its slot becomes free.
pub remove_order-Removed :
    (id : ℕ) (side : Side) (l : OrderLocation) (p : PooledOrderBook) (b : OrderBook)
    (rep : Represents side p b) (at : InLevels side id l rep.own)
    → l.side ≡ side
    → l.order_it ≡ id
    → Removed id side p b rep (remove_order id at.inside.cell.slot p) (Levels.remove_order id l b)
remove_order-Removed id bid l p b rep at e f = left_bid id l p b rep at e f
remove_order-Removed id ask l p b rep at e f = left_ask id l p b rep at e f
