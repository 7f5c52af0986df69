-- ===== src/Pooled/View.antt =====
-- The queries of src/pooled_order_book.cpp and src/pooled_order_book.hpp.
use orda_book.Prelude.{
  ℕ, zero, suc, ◌==◌, ◌≡◌, ◌∙◌, refl, sym, ap, ne→==, not, if◌then◌else◌, Option, none, some, List,
  [], ◌∷◌, ◌++◌, map, length,
}
use orda_book.Types.{Price, Side, LevelSnapshot, OrderSnapshot}
use orda_book.OrderBook.State
use orda_book.OrderBook.State.{OrderBook, OrderIndex}
use orda_book.OrderBook.View
use orda_book.Pooled.State.{SlotIndex, SlotArray, PriceLevel, SlotMap, PooledOrderBook, side_levels}
use orda_book.Pooled.Matching.{Matching}
use orda_book.Pooled.Linked.{
  Cell, LinkedLevel, first_or, orders_of, pooled_level, base_level, Linked,
}
use orda_book.Pooled.Keys.{slot_keys, location_keys}
use orda_book.Pooled.Matching.Walk.{AllHold}
use orda_book.Pooled.Matching.Sweep.{length-orders_of}
use orda_book.Pooled.Represents.{matching_of, Represents}

abbrev pub level_snapshot : PriceLevel → LevelSnapshot
level_snapshot level = record {
  price = level.price;
  qty = level.total_qty;
  order_count = level.order_count;
}

-- The loop over the slots of a level. A chain has as many slots as its level counts, so the count is
-- fuel enough.
unfoldable pub chain_orders : ℕ → Price → SlotIndex → SlotArray → List OrderSnapshot
chain_orders zero price slot slots = []
chain_orders (suc fuel) price slot slots =
    let order = slots slot in
    let snapshot : OrderSnapshot = record {
      order_id = order.order_id;
      side = order.side;
      price = price;
      qty = order.qty;
    } in
    let rest = chain_orders fuel price order.next slots in
    if not (slot == 0) then snapshot ∷ rest else []

unfoldable pub append_chains : List PriceLevel → SlotArray → List OrderSnapshot
unfolding chain_orders
append_chains [] slots = []
append_chains (level ∷ levels) slots =
    chain_orders level.order_count level.price level.head slots ++ append_chains levels slots

unfoldable pub orders : Side → PooledOrderBook → List OrderSnapshot
unfolding append_chains
orders side book = append_chains (side_levels side book) book.pool.slots

unfoldable pub levels : Side → PooledOrderBook → List LevelSnapshot
levels side book = map level_snapshot (side_levels side book)

abbrev pub first_level : List PriceLevel → Option LevelSnapshot
first_level [] = none
first_level (level ∷ levels) = some (level_snapshot level)

unfoldable pub top_of_book : Side → PooledOrderBook → Option LevelSnapshot
top_of_book side book = first_level (side_levels side book)

unfoldable pub live_order_count : PooledOrderBook → ℕ
live_order_count book = length book.order_index

chain_orders-cells :
    (price : Price) (s : SlotArray) (prev : SlotIndex) (cs : List Cell)
    → Linked s prev cs 0
    → chain_orders (length cs) price (first_or 0 cs) s ≡ View.level_orders price (orders_of cs)
unfolding chain_orders
chain_orders-cells price s prev [] h = refl
chain_orders-cells price s prev (c ∷ cs) (n, e, hs) =
    rw (ne→== n, e)
      (ap (◌∷◌ (View.snapshot price c.order)) (chain_orders-cells price s c.slot cs hs))

append_chains-levels :
    (m : Matching) (gs : List LinkedLevel)
    → AllHold m gs
    → append_chains (map pooled_level gs) m.pool.slots
      ≡ View.append_level_orders (map base_level gs)
unfolding append_chains View.append_level_orders
append_chains-levels m [] h = refl
append_chains-levels m (g ∷ gs) (h, _, hs) = (λ t.
    chain_orders-cells g.price m.pool.slots 0 g.cells h.chain t ++ append_chains-levels m gs hs t)

snapshots-levels :
    (gs : List LinkedLevel)
    → map level_snapshot (map pooled_level gs) ≡ map View.level_snapshot (map base_level gs)
snapshots-levels [] = refl
snapshots-levels (g ∷ gs) = (λ t.
    record { price = g.price; qty = g.total_qty; order_count = sym (length-orders_of g.cells) t }
    ∷ snapshots-levels gs t)

first_level-levels :
    (gs : List LinkedLevel)
    → first_level (map pooled_level gs) ≡ View.first_level (map base_level gs)
first_level-levels [] = refl
first_level-levels (g ∷ gs) = λ t.
    some (record {
      price = g.price;
      qty = g.total_qty;
      order_count = sym (length-orders_of g.cells) t;
    })

length-slot_keys : (p : SlotMap) → length (slot_keys p) ≡ length p
length-slot_keys [] = refl
length-slot_keys (x ∷ p) = ap suc (length-slot_keys p)

length-location_keys : (b : OrderIndex) → length (location_keys b) ≡ length b
length-location_keys [] = refl
length-location_keys (x ∷ b) = ap suc (length-location_keys b)

-- For a book that holds the orders of a baseline's, the queries answer as the baseline's do: the
-- resting orders of the side in order, its levels, its top, and the number of the live orders.
pub queries-same :
    (side : Side) (p : PooledOrderBook) (b : OrderBook)
    → Represents side p b
    → (orders side p ≡ View.orders side b)
      × (levels side p ≡ View.levels side b)
      × (top_of_book side p ≡ View.top_of_book side b)
      × (live_order_count p ≡ State.live_order_count b)
unfolding orders View.orders levels View.levels top_of_book View.top_of_book live_order_count
    State.live_order_count
queries-same side p b r = (
  ap (λ ls. append_chains ls p.pool.slots) r.own_pooled
      ∙ append_chains-levels (matching_of 0 [] p) r.own r.own_hold
      ∙ ap View.append_level_orders (sym r.own_base),
  ap (map level_snapshot) r.own_pooled
      ∙ snapshots-levels r.own
      ∙ ap (map View.level_snapshot) (sym r.own_base),
  ap first_level r.own_pooled ∙ first_level-levels r.own ∙ ap View.first_level (sym r.own_base),
  sym (length-slot_keys p.order_index)
      ∙ ap length r.agree.keys
      ∙ length-location_keys b.order_index,
)
