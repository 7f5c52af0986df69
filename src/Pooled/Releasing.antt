-- ===== src/Pooled/Releasing.antt =====
-- The calls of `remove_order` in src/pooled_order_book.cpp, for an order in a slot.
use orda_book.Prelude.{ℕ, ◌==◌, ◌≡◌, ◌∙◌, ap, if◌then◌else◌, Option, none, some, List}
use orda_book.Types.{Price, Side}
use orda_book.Pooled.State.{
  SlotIndex, SlotArray, PriceLevel, PooledOrderBook, side_levels, with_levels, erase_slot,
  find_level, update_level, erase_level,
}
use orda_book.Pooled.Slots.{remove_order, release_slot, unlink_slot}

-- A level without orders is erased.
abbrev pub kept_levels : Price → PriceLevel → List PriceLevel → List PriceLevel
kept_levels price level levels =
    if level.order_count == 0 then erase_level price levels else update_level price level levels

module _ (id : ℕ) (slot : SlotIndex) (p : PooledOrderBook) where
  -- What the call leaves, from what it reads.
  abbrev pub removed_from : Side → List PriceLevel → SlotArray → PooledOrderBook
  removed_from side levels slots = record (with_levels side levels p) {
    pool = release_slot slot (record p.pool { slots = slots });
    order_index = erase_slot id p.order_index;
  }

  abbrev remove_found : Side → Price → List PriceLevel → Option PriceLevel → Option PooledOrderBook
  remove_found side price levels found = elim found [
    | none ↦ none
    | some level ↦
        let (unlinked, slots) = unlink_slot level slot p.pool.slots in
        some (removed_from side (kept_levels price unlinked levels) slots)
  ]

  pub remove_order-call :
      (side : Side) (price : Price) (levels kept : List PriceLevel) (level : PriceLevel)
      (unlinked : PriceLevel × SlotArray)
      → (p.pool.slots slot).side ≡ side
      → (p.pool.slots slot).price ≡ price
      → side_levels side p ≡ levels
      → find_level price levels ≡ some level
      → unlink_slot level slot p.pool.slots ≡ unlinked
      → kept_levels price unlinked.0 levels ≡ kept
      → remove_order id slot p ≡ some (removed_from side kept unlinked.1)
  unfolding remove_order
  remove_order-call side price levels kept level unlinked s q e f u k =
      let held : side_levels (p.pool.slots slot).side p ≡ levels =
        ap (λ t. side_levels t p) s ∙ e in
      let found : find_level (p.pool.slots slot).price (side_levels (p.pool.slots slot).side p)
          ≡ some level =
        (λ t. find_level (q t) (held t)) ∙ f in
      (λ t. remove_found (s t) (q t) (held t) (found t))
      ∙ (λ t. some (removed_from side (kept_levels price (u t).0 levels) (u t).1))
      ∙ ap (λ ls. some (removed_from side ls unlinked.1)) k
