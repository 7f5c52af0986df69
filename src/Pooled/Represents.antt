-- ===== src/Pooled/Represents.antt =====
-- When the book of src/pooled_order_book.hpp and that of src/order_book.hpp hold the same orders.
use orda_book.Prelude.{ℕ, ◌+◌, ◌≡◌, refl, List, [], length, map, arith}
use orda_book.Types.{Side, bid, ask, Trade}
use orda_book.Engine.{opposite}
use orda_book.OrderBook.State
use orda_book.OrderBook.State.{OrderBook}
use orda_book.OrderBook.Matching
use orda_book.Pooled.State.{SlotIndex, PooledOrderBook, side_levels}
use orda_book.Pooled.Matching.{Matching}
use orda_book.Pooled.Linked.{LinkedLevel, pooled_level, base_level}
use orda_book.Pooled.Matching.Tracks.{Agree}
use orda_book.Pooled.Matching.Walk.{AllHold, Across, Across-sym, cells_of}

-- The state with which the loops of the two engines start.
abbrev pub matching_of : ℕ → List Trade → PooledOrderBook → Matching
matching_of qty trades book = record {
  incoming_qty = qty;
  pool = book.pool;
  order_index = book.order_index;
  stats = book.stats;
  trades = trades;
}

abbrev pub base_matching_of : ℕ → List Trade → OrderBook → Matching.Matching
base_matching_of qty trades book = record {
  incoming_qty = qty;
  order_index = book.order_index;
  stats = book.stats;
  trades = trades;
}

-- Seen from a side. The two books have the same levels with the same orders in the same order, the
-- keys of the indexes are the same, each order of the pooled book is in a slot of its own that the
-- index gives, and the free slots are a chain of slots that are not in use.
pub record Represents (side : Side) (p : PooledOrderBook) (b : OrderBook) : Type 0 where
  pub own : List LinkedLevel
  pub other : List LinkedLevel
  pub frees : List SlotIndex
  pub own_pooled : side_levels side p ≡ map pooled_level own
  pub other_pooled : side_levels (opposite side) p ≡ map pooled_level other
  pub own_base : State.side_levels side b ≡ map base_level own
  pub other_base : State.side_levels (opposite side) b ≡ map base_level other
  pub agree : Agree (matching_of 0 [] p) (base_matching_of 0 [] b) frees
  pub own_hold : AllHold (matching_of 0 [] p) own
  pub other_hold : AllHold (matching_of 0 [] p) other
  pub across : Across (cells_of own) (cells_of other)

-- The slots of the pool, free or in use.
abbrev pub slot_count :
    {side : Side} {p : PooledOrderBook} {b : OrderBook} → Represents side p b → ℕ
slot_count r = length r.frees + length (cells_of r.own) + length (cells_of r.other)

turned :
    (side : Side) (p : PooledOrderBook) (b : OrderBook)
    → opposite (opposite side) ≡ side
    → Represents side p b
    → Represents (opposite side) p b
turned side p b e r = record {
  own = r.other;
  other = r.own;
  frees = r.frees;
  own_pooled = r.other_pooled;
  other_pooled = rw e r.own_pooled;
  own_base = r.other_base;
  other_base = rw e r.own_base;
  agree = r.agree;
  own_hold = r.other_hold;
  other_hold = r.own_hold;
  across = Across-sym (cells_of r.own) (cells_of r.other) r.across;
}

-- The side does not matter.
pub turn : (s t : Side) (p : PooledOrderBook) (b : OrderBook) → Represents s p b → Represents t p b
turn bid bid p b r = r
turn bid ask p b r = turned bid p b refl r
turn ask bid p b r = turned ask p b refl r
turn ask ask p b r = r

pub turn-slot_count :
    (s t : Side) (p : PooledOrderBook) (b : OrderBook) (r : Represents s p b)
    → slot_count (turn s t p b r) ≡ slot_count r
unfolding turn turned
turn-slot_count bid bid p b r = refl
turn-slot_count bid ask p b r = omega arith
turn-slot_count ask bid p b r = omega arith
turn-slot_count ask ask p b r = refl
