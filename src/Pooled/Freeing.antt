-- ===== src/Pooled/Freeing.antt =====
-- An incoming order of src/pooled_order_book.cpp that trades and then rests finds a free slot: a
-- trade that leaves a remainder has filled an order, whose slot is free again.
use orda_book.Prelude.{
  ℕ, ◌-◌, ◌≤◌, ◌<◌, ◌≡◌, ◌≢◌, ◌∙◌, refl, sym, ap, ◌⊎◌, inl, inr, List, [], ◌∷◌, length,
  length-append, map, arith,
}
use orda_book.Types.{Price, Side, Trade, OrderSnapshot}
use orda_book.Engine.{opposite}
use orda_book.Priority.{available, left}
use orda_book.OrderBook.State.{OrderBook}
use orda_book.OrderBook.View.{level_orders, append_level_orders, orders}
use orda_book.OrderBook.Matching
use orda_book.OrderBook.Matching.Refines.{Matches, match_incoming-Matches}
use orda_book.OrderBook.Matching.Crossing.{max_crossing_qty-available}
use orda_book.OrderBook.Invariant.{IsValid}
use orda_book.Pooled.State.{SlotIndex, SlotArray, PooledOrderBook}
use orda_book.Pooled.Matching.{match_incoming}
use orda_book.Pooled.Linked.{Cell, LinkedLevel, base_level, orders_of, FreeChain}
use orda_book.Pooled.Matching.Walk.{cells_of}
use orda_book.Pooled.Matching.Incoming.{Matched, match_incoming-Matched}
use orda_book.Pooled.Represents.{Represents}

length-left-le :
    (side : Side) (price : Price) (qty : ℕ) (xs : List OrderSnapshot)
    → length (left side price qty xs) ≤ length xs
unfolding left
length-left-le side price qty [] = omega arith
length-left-le side price qty (x ∷ xs) = ground (arith, length-left-le side price (qty - x.qty) xs)

-- What trades and leaves a remainder fills at least one order.
length-left-lt :
    (side : Side) (price : Price) (qty : ℕ) (xs : List OrderSnapshot)
    → 0 < available side price xs
    → available side price xs < qty
    → length (left side price qty xs) < length xs
unfolding left available
length-left-lt side price qty [] h k = absurd (omega arith)
length-left-lt side price qty (x ∷ xs) h k =
    ground (arith, length-left-le side price (qty - x.qty) xs)

length-level_orders :
    (at : Price) (cs : List Cell) → length (level_orders at (orders_of cs)) ≡ length cs
length-level_orders at [] = refl
length-level_orders at (c ∷ cs) = omega (arith, length-level_orders at cs)

pub length-cells_of :
    (gs : List LinkedLevel)
    → length (append_level_orders (map base_level gs)) ≡ length (cells_of gs)
unfolding append_level_orders
length-cells_of [] = refl
length-cells_of (g ∷ gs) = omega (
  arith,
  length-append (level_orders g.price (orders_of g.cells))
      (append_level_orders (map base_level gs)),
  length-append g.cells (cells_of gs),
  length-level_orders g.price g.cells,
  length-cells_of gs,
)

pub free_head-some :
    (s : SlotArray) (head : SlotIndex) (is : List SlotIndex)
    → FreeChain s head is
    → 0 < length is
    → head ≢ 0
free_head-some s head [] f h = absurd (omega arith)
free_head-some s head (i ∷ is) f h = λ q. f.1 (sym f.0 ∙ q)

pub some-free_head :
    (s : SlotArray) (head : SlotIndex) (is : List SlotIndex)
    → FreeChain s head is
    → head ≢ 0
    → 0 < length is
some-free_head s head [] f h = absurd (h f)
some-free_head s head (i ∷ is) f h = omega arith

module _ (id : ℕ) (side : Side) (price : Price) (qty : ℕ) (p : PooledOrderBook) (b : OrderBook)
    (trades : List Trade) (rep : Represents side p b) (v : IsValid b)
    (m : Matched side p b rep
      (match_incoming id side price qty p trades)
      (Matching.match_incoming id side price qty b trades)) where
  abbrev book : OrderBook
  book = (Matching.match_incoming id side price qty b trades).1

  is_matched :
      Matches id side price qty b trades (Matching.match_incoming id side price qty b trades)
  is_matched = match_incoming-Matches id side price qty b trades (v.sorted (opposite side))

  cells_before : length (cells_of rep.other) ≡ length (orders (opposite side) b)
  unfolding orders
  cells_before = rw rep.other_base (sym (length-cells_of rep.other))

  cells_after :
      length (cells_of m.after.other) ≡ length (left side price qty (orders (opposite side) b))
  cells_after =
      sym (length-cells_of m.after.other)
      ∙ ap (λ ls. length (append_level_orders ls)) (sym m.after.other_base)
      ∙ ap length (unfold orders in is_matched.resting)

  -- A slot that was free before, or that the matching freed.
  freed :
      (p.pool.free_head ≢ 0) ⊎ (Matching.max_crossing_qty side price qty b ≢ 0)
      → 0 < (match_incoming id side price qty p trades).0
      → (match_incoming id side price qty p trades).1.pool.free_head ≢ 0
  freed h k =
      free_head-some (match_incoming id side price qty p trades).1.pool.slots _ m.after.frees
        m.after.agree.free
        (elim h [
          | inl n ↦ omega (
            arith,
            some-free_head p.pool.slots p.pool.free_head rep.frees rep.agree.free n,
            m.slots_kept,
            cells_before,
            cells_after,
            length-left-le side price qty (orders (opposite side) b),
          )
          | inr n ↦
              let crossing = max_crossing_qty-available side price qty b v in
              let some : 0 < available side price (orders (opposite side) b) =
                omega (arith, n, crossing) in
              let less : available side price (orders (opposite side) b) < qty =
                omega (arith, m.remaining, is_matched.remaining) in
              omega (
                arith,
                m.slots_kept,
                cells_before,
                cells_after,
                length-left-lt side price qty (orders (opposite side) b) some less,
              )
        ])

-- For a book that holds the orders of a valid baseline book, and an incoming order of any quantity:
-- where a slot is free before, or the order crosses a level, and the matching leaves a remainder, a
-- slot is free after the matching.
pub slot_is_free :
    (id : ℕ) (side : Side) (price : Price) (qty : ℕ) (p : PooledOrderBook) (b : OrderBook)
    (trades : List Trade)
    → Represents side p b
    → IsValid b
    → (p.pool.free_head ≢ 0) ⊎ (Matching.max_crossing_qty side price qty b ≢ 0)
    → 0 < (match_incoming id side price qty p trades).0
    → (match_incoming id side price qty p trades).1.pool.free_head ≢ 0
slot_is_free id side price qty p b trades rep v =
    freed id side price qty p b trades rep v
      (match_incoming-Matched id side price qty p b trades rep)
