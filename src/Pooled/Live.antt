-- ===== src/Pooled/Live.antt =====
-- An order that the index of src/pooled_order_book.cpp knows: its slot, and `cancel_order`.
use orda_book.Prelude.{
  ℕ, ◌≡◌, ◌∙◌, refl, sym, ap, subst, inl, inr, Option, Option-cases, some, List, ◌∷◌, All-split,
}
use orda_book.Types.{Side, bid, Trade, unknown_order_id}
use orda_book.Engine.{count_cancel}
use orda_book.OrderBook.State.{OrderBook, OrderLocation, find_location}
use orda_book.OrderBook.Levels
use orda_book.OrderBook.View.{orders}
use orda_book.OrderBook.Invariant.{IsValid, restat-IsValid}
use orda_book.OrderBook.Withdrawal.{IsLive, find_location-IsLive}
use orda_book.OrderBook.Operations
use orda_book.Pooled.State.{SlotIndex, PooledOrderBook, find_slot}
use orda_book.Pooled.Slots.{remove_order}
use orda_book.Pooled.Operations.{cancel_order}
use orda_book.Pooled.Keys.{find_none, find_some}
use orda_book.Pooled.Locating.{InLevels, located-InLevels}
use orda_book.Pooled.Represents.{Represents, slot_count, turn, turn-slot_count}
use orda_book.Pooled.Removing.{Removed, indexed, cell, xs, ys}
use orda_book.Pooled.Leaving.{remove_order-Removed}
use orda_book.Pooled.Entering.{Simulates, recount, accept-Simulates}
use orda_book.Pooled.Refusing.{restat-Represents, restat-slot_count, reject-Simulates}

pub record Live (id : ℕ) (i : SlotIndex) (p : PooledOrderBook) (b : OrderBook)
    (rep : Represents bid p b) : Type 0 where
  pub location : OrderLocation
  pub looked_up : find_location id b.order_index ≡ some location
  pub is_live : IsLive id location b
  pub place : InLevels location.side id location (turn bid location.side p b rep).own
  pub at_slot : i ≡ place.inside.cell.slot

some_eq : (a b : SlotIndex) → ◌≡◌ {A = Option SlotIndex} (some a) (some b) → a ≡ b
some_eq a b e = cc

-- The index gives the slot of the order's cell.
cell_indexed :
    (id : ℕ) (side : Side) (l : OrderLocation) (p : PooledOrderBook) (b : OrderBook)
    (rep : Represents side p b) (at : InLevels side id l rep.own)
    → find_slot id p.order_index ≡ some at.inside.cell.slot
cell_indexed id side l p b rep at =
    ap (λ k. find_slot k p.order_index) (sym at.inside.named)
    ∙ (All-split _ (xs id side l p b rep at) (cell id side l p b rep at ∷ ys id side l p b rep at)
        (indexed id side l p b rep at)).1.0

pub find_slot-Live :
    (id : ℕ) (i : SlotIndex) (p : PooledOrderBook) (b : OrderBook) (rep : Represents bid p b)
    → IsValid b
    → find_slot id p.order_index ≡ some i
    → Live id i p b rep
unfolding orders
find_slot-Live id i p b rep v e =
    let (l, f) = find_some id p.order_index b.order_index i rep.agree.keys e in
    let live = find_location-IsLive id l b v f in
    let sided = turn bid l.side p b rep in
    let place : InLevels l.side id l sided.own =
      located-InLevels l.side id l sided.own (rw sided.own_base at (v.sorted l.side))
        (rw sided.own_base at live.found) in
    record {
      location = l;
      looked_up = f;
      is_live = live;
      place = place;
      at_slot = some_eq i place.inside.cell.slot (sym e ∙ cell_indexed id l.side l p b sided place);
    }

-- The order that is found leaves both books.
pub live_removed :
    (id : ℕ) (i : SlotIndex) (p : PooledOrderBook) (b : OrderBook) (rep : Represents bid p b)
    (live : Live id i p b rep)
    → Removed id live.location.side p b
        (turn bid live.location.side p b rep)
        (remove_order id i p)
        (Levels.remove_order id live.location b)
live_removed id i p b rep live =
    subst
      (λ j.
        Removed id live.location.side p b (turn bid live.location.side p b rep)
          (remove_order id j p) (Levels.remove_order id live.location b))
      (sym live.at_slot)
      (remove_order-Removed id live.location.side live.location p b
        (turn bid live.location.side p b rep) live.place refl live.is_live.points_at)

-- On books that hold the same orders the two engines cancel alike, and the slot is free again.
pub cancel_order-Simulates :
    (id : ℕ) (p : PooledOrderBook) (b : OrderBook) (trades : List Trade) (rep : Represents bid p b)
    → IsValid b
    → Simulates (slot_count rep) (cancel_order id p trades) (Operations.cancel_order id b trades)
unfolding cancel_order Operations.cancel_order
cancel_order-Simulates id p₀ b₀ trades rep₀ v₀ =
    let p : PooledOrderBook = record p₀ { stats = count_cancel p₀.stats } in
    let b : OrderBook = record b₀ { stats = count_cancel b₀.stats } in
    let rep = restat-Represents p₀ b₀ count_cancel rep₀ in
    let v : IsValid b =
      restat-IsValid b₀ (count_cancel b₀.stats) v₀ (unfold count_cancel in refl) in
    recount (slot_count rep) (slot_count rep₀) _ _ (restat-slot_count p₀ b₀ count_cancel rep₀)
      (elim (Option-cases (find_slot id p.order_index)) [
        | inl n ↦
            rw
              (
                n,
                cancel_order,
                find_none id p.order_index b.order_index rep.agree.keys n,
                Operations.cancel_order,
              )
              (reject-Simulates unknown_order_id p b trades rep)
        | inr (i, e) ↦
            let live = find_slot-Live id i p b rep v e in
            let removed = live_removed id i p b rep live in
            rw (e, cancel_order, live.looked_up, Operations.cancel_order)
              (accept-Simulates (slot_count rep) live.location.side (remove_order id i p)
                removed.book _ trades trades removed.result refl removed.after
                (removed.slots_kept ∙ turn-slot_count bid live.location.side p b rep))
      ])
