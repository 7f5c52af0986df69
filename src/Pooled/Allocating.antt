-- ===== src/Pooled/Allocating.antt =====
-- `allocate_slot` and the calls of `add_resting_order` in src/pooled_order_book.cpp, where a slot is
-- free.
use orda_book.Prelude.{
  ◌==◌, ◌≡◌, ◌≢◌, ◌∙◌, refl, ap, ne→==, if◌then◌else◌, Bool, true, false, none, some, List,
}
use orda_book.OrderBook.State.{Order}
use orda_book.Pooled.State.{
  SlotIndex, new_slot, SlotArray, write, PriceLevel, Pool, PooledOrderBook, side_levels,
  with_levels, emplace_slot, ensure_level, find_level, update_level,
}
use orda_book.Pooled.Slots.{add_resting_order, allocate_slot, append_slot, level_or_new}
use orda_book.Pooled.Linked.{slot_of, write_here}

if_false {ℓ} : {A : Type ℓ} (b : Bool) (x y : A) → b ≡ false → (if b then x else y) ≡ y
if_false true x y e = cc
if_false false x y e = refl

-- The slot that is free first leaves the chain.
abbrev pub taken : SlotIndex → SlotArray → Pool
taken i slots = record {
  slots = write i (record new_slot { live = true }) slots;
  free_head = (slots i).free_next;
}

pub allocate_slot-free :
    (pool : Pool) (i : SlotIndex)
    → pool.free_head ≡ i
    → i ≢ 0
    → allocate_slot pool ≡ (i, taken i pool.slots)
unfolding allocate_slot
allocate_slot-free pool i e n = rw (e, ne→== n) refl

-- The slot with the order in it, not linked yet.
abbrev pub with_order : Order → SlotIndex → SlotArray → SlotArray
with_order order i slots = write i (slot_of order 0 0) (taken i slots).slots

module _ (order : Order) (p : PooledOrderBook) (i : SlotIndex) (e : p.pool.free_head ≡ i)
    (n : i ≢ 0) where
  abbrev allocated : SlotIndex × Pool
  allocated = allocate_slot p.pool

  allocated_eq : allocated ≡ (i, taken i p.pool.slots)
  allocated_eq = allocate_slot-free p.pool i e n

  abbrev store : SlotIndex × Pool → SlotArray
  store a =
      write a.0
        (record (a.1.slots a.0) {
          order_id = order.order_id;
          side = order.side;
          price = order.price;
          qty = order.qty;
        })
        a.1.slots

  stored : store allocated ≡ with_order order i p.pool.slots
  stored =
      ap store allocated_eq
      ∙ ap
          (λ v.
            write i
              (record v {
                order_id = order.order_id;
                side = order.side;
                price = order.price;
                qty = order.qty;
              })
              (taken i p.pool.slots).slots)
          (write_here i (record new_slot { live = true }) p.pool.slots)

  pub add_resting_order-call :
      (levels levels' : List PriceLevel) (level : PriceLevel) (joined : PriceLevel × SlotArray)
      → ensure_level order.side order.price (side_levels order.side p) ≡ levels
      → find_level order.price levels ≡ some level
      → append_slot level i (with_order order i p.pool.slots) ≡ joined
      → update_level order.price joined.0 levels ≡ levels'
      → add_resting_order order.order_id order.side order.price order.qty p
        ≡ some (record (with_levels order.side levels' p) {
          pool = record { slots = joined.1; free_head = (p.pool.slots i).free_next };
          order_index = emplace_slot order.order_id i p.order_index;
        })
  unfolding add_resting_order
  add_resting_order-call levels levels' level joined f g h k =
      let found : level_or_new order.price (
            find_level order.price (ensure_level order.side order.price (side_levels order.side p)))
          ≡ level =
        ap (λ ls. level_or_new order.price (find_level order.price ls)) f
        ∙ ap (level_or_new order.price) g in
      let pair : append_slot
            (level_or_new order.price (
              find_level order.price
                (ensure_level order.side order.price (side_levels order.side p))))
            allocated.0 (store allocated)
          ≡ joined =
        (λ t. append_slot (found t) (allocated_eq t).0 (stored t)) ∙ h in
      let updated : update_level order.price
            (append_slot
              (level_or_new order.price (
                find_level order.price
                  (ensure_level order.side order.price (side_levels order.side p))))
              allocated.0 (store allocated)).0
            (ensure_level order.side order.price (side_levels order.side p))
          ≡ levels' =
        (λ t. update_level order.price (pair t).0 (f t)) ∙ k in
      if_false (allocated.0 == 0) none _
        (ap (λ (a : SlotIndex × Pool). a.0 == 0) allocated_eq ∙ ne→== n)
      ∙ (λ t. some (record (with_levels order.side (updated t) p) {
        pool = record { slots = (pair t).1; free_head = (allocated_eq t).1.free_head };
        order_index = emplace_slot order.order_id (allocated_eq t).0 p.order_index;
      }))
