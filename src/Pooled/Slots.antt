-- ===== src/Pooled/Slots.antt =====
-- Slots: `reserve_orders`, `allocate_slot`, `release_slot`, `append_slot`, `unlink_slot`,
-- `add_resting_order` and `remove_order` of src/pooled_order_book.cpp. What throws is none.
use orda_book.Prelude.{
  ℕ, ◌+◌, ◌-◌, ◌%◌, ◌^◌, ltb, leb, ◌==◌, if◌then◌else◌, true, ◌&&◌, not, Option, none, some, [],
}
use orda_book.Types.{Price, Side, EngineStats}
use orda_book.Pooled.State.{
  SlotIndex, new_slot, SlotArray, write, PriceLevel, Pool, PooledOrderBook, side_levels,
  with_levels, erase_slot, emplace_slot, find_level, ensure_level, update_level, erase_level,
  empty_level,
}

abbrev pub no_stats : EngineStats
no_stats = record {
  add_requests = 0;
  cancel_requests = 0;
  modify_requests = 0;
  rejected_requests = 0;
  trades = 0;
  traded_qty = 0;
}

-- The slots that `reserve_orders` makes: each from 1 on is free and points at the one after it.
unfoldable pub fresh_slots : ℕ → SlotArray
fresh_slots capacity index =
    if leb 1 index && leb index capacity
    then record new_slot { free_next = if index == capacity then 0 else (index + 1) % 2 ^ 32 }
    else new_slot

unfoldable pub reserve_orders : ℕ → Option PooledOrderBook
unfolding fresh_slots
reserve_orders capacity =
    if ltb (2 ^ 32 - 2) capacity
    then none
    else some (record {
      bids = [];
      asks = [];
      pool = record { slots = fresh_slots capacity; free_head = if capacity == 0 then 0 else 1 };
      order_index = [];
      stats = no_stats;
    })

-- The slot is 0 where none is free.
unfoldable pub allocate_slot : Pool → SlotIndex × Pool
allocate_slot pool =
    let slot = pool.free_head in
    if slot == 0 then (0, pool) else (
      slot,
      record {
        slots = write slot (record new_slot { live = true }) pool.slots;
        free_head = (pool.slots slot).free_next;
      },
    )

unfoldable pub release_slot : SlotIndex → Pool → Pool
release_slot slot pool = record {
  slots = write slot (record new_slot { free_next = pool.free_head }) pool.slots;
  free_head = slot;
}

unfoldable pub append_slot : PriceLevel → SlotIndex → SlotArray → PriceLevel × SlotArray
append_slot level slot slots =
    let linked = write slot (record (slots slot) { prev = level.tail; next = 0 }) slots in
    let joined =
      if not (level.tail == 0)
      then write level.tail (record (linked level.tail) { next = slot }) linked
      else linked in
    (
      record level {
        head = if not (level.tail == 0) then level.head else slot;
        tail = slot;
        order_count = level.order_count + 1;
        total_qty = level.total_qty + (joined slot).qty;
      },
      joined,
    )

-- `order` is a reference, so its fields are those of the slot at the time.
unfoldable pub unlink_slot : PriceLevel → SlotIndex → SlotArray → PriceLevel × SlotArray
unlink_slot level slot slots =
    let order = slots slot in
    let before =
      if not (order.prev == 0)
      then write order.prev (record (slots order.prev) { next = order.next }) slots
      else slots in
    let order' = before slot in
    let after =
      if not (order'.next == 0)
      then write order'.next (record (before order'.next) { prev = order'.prev }) before
      else before in
    (
      record level {
        head = if not (order.prev == 0) then level.head else order.next;
        tail = if not (order'.next == 0) then level.tail else order'.prev;
        order_count = level.order_count - 1;
        total_qty = level.total_qty - (after slot).qty;
      },
      after,
    )

-- The level that `ensure_level` returns.
abbrev pub level_or_new : Price → Option PriceLevel → PriceLevel
level_or_new price none = empty_level price
level_or_new price (some level) = level

unfoldable pub add_resting_order : ℕ → Side → Price → ℕ → PooledOrderBook → Option PooledOrderBook
unfolding allocate_slot append_slot ensure_level find_level update_level emplace_slot write
add_resting_order order_id side price qty book =
    let (slot, pool) = allocate_slot book.pool in
    let slots =
      write slot
        (record (pool.slots slot) { order_id = order_id; side = side; price = price; qty = qty })
        pool.slots in
    let levels = ensure_level side price (side_levels side book) in
    let (level, joined) = append_slot (level_or_new price (find_level price levels)) slot slots in
    if slot == 0
    then none
    else some (record (with_levels side (update_level price level levels) book) {
      pool = record pool { slots = joined };
      order_index = emplace_slot order_id slot book.order_index;
    })

-- `unlink_slot` writes no side and no price, so both are read once. `at` throws on a missing level.
unfoldable pub remove_order : ℕ → SlotIndex → PooledOrderBook → Option PooledOrderBook
unfolding find_level unlink_slot erase_level update_level erase_slot release_slot
remove_order order_id slot book =
    let order = book.pool.slots slot in
    let levels = side_levels order.side book in
    elim (find_level order.price levels) [
      | none ↦ none
      | some level ↦
          let (unlinked, slots) = unlink_slot level slot book.pool.slots in
          some
            (record (with_levels order.side
              (if unlinked.order_count == 0
                then erase_level order.price levels
                else update_level order.price unlinked levels)
              book) {
                pool = release_slot slot (record book.pool { slots = slots });
                order_index = erase_slot order_id book.order_index;
              })
    ]
