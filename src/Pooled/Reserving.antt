-- ===== src/Pooled/Reserving.antt =====
-- `reserve_orders` of src/pooled_order_book.cpp.
use orda_book.Prelude.{
  ℕ, zero, suc, ◌+◌, ◌-◌, ◌%◌, ◌^◌, ◌≤◌, ◌<◌, leb, ◌==◌, ◌≡◌, ◌≢◌, refl, ap, ◌&&◌, if◌then◌else◌,
  false, some, List, [], ◌∷◌, All, length, Bool-cases, inl, inr, le→leb, ne→==, arith,
}
use orda_book.Types.{bid}
use orda_book.OrderBook.Runs.{empty_book}
use orda_book.Pooled.State.{SlotIndex, PooledOrderBook}
use orda_book.Pooled.Slots.{no_stats, fresh_slots, reserve_orders}
use orda_book.Pooled.Linked.{FreeChain}
use orda_book.Pooled.Represents.{Represents, slot_count}

-- The slots from one on, so many.
abbrev pub count_up : SlotIndex → ℕ → List SlotIndex
count_up first zero = []
count_up first (suc n) = first ∷ count_up (first + 1) n

length-count_up : (first : SlotIndex) (n : ℕ) → length (count_up first n) ≡ n
length-count_up first zero = refl
length-count_up first (suc n) = ap suc (length-count_up (first + 1) n)

later :
    (first : SlotIndex) (i : SlotIndex) (n : ℕ) → i < first → All (λ j. j ≢ i) (count_up first n)
later first i zero h = tt
later first i (suc n) h = ((λ e. absurd (omega arith)), later (first + 1) i n (omega arith))

-- A slot but the last points at the one after it, and the last at none.
free_next-fresh_slots :
    (capacity i : ℕ)
    → 1 ≤ i
    → i ≤ capacity
    → capacity ≤ 2 ^ 32 - 2
    → (fresh_slots capacity i).free_next ≡ (if i == capacity then 0 else i + 1)
unfolding fresh_slots
free_next-fresh_slots capacity i a b c =
    let small : (i + 1) % 2 ^ 32 ≡ i + 1 = omega arith in rw (le→leb a, le→leb b) (rw small refl)

live-fresh_slots : (capacity i : ℕ) → (fresh_slots capacity i).live ≡ false
unfolding fresh_slots
live-fresh_slots capacity i = elim (Bool-cases (leb 1 i && leb i capacity)) [
  | inl t ↦ rw t refl
  | inr f ↦ rw f refl
]

fresh_chain :
    (capacity first n : ℕ)
    → 1 ≤ first
    → capacity ≤ 2 ^ 32 - 2
    → first + n ≡ capacity + 1
    → FreeChain (fresh_slots capacity) (if n == 0 then 0 else first) (count_up first n)
fresh_chain capacity first zero a c e = refl
fresh_chain capacity first (suc n) a c e = (
  rw (ne→== (suc_ne n)) refl,
  (λ z. absurd (omega arith)),
  live-fresh_slots capacity first,
  later (first + 1) first n (omega arith),
  rw (free_next-fresh_slots capacity first a (omega arith) c)
      (rw (ends n e) (fresh_chain capacity (first + 1) n (omega arith) c (omega arith))),
)
  where
    suc_ne : (n : ℕ) → suc n ≢ 0
    suc_ne n z = absurd (omega arith)

    ends :
        (n : ℕ)
        → first + suc n ≡ capacity + 1
        → (if first == capacity then 0 else first + 1) ≡ (if n == 0 then 0 else first + 1)
    ends n e = ground arith

pub record Reserved (capacity : ℕ) : Type 0 where
  pub book : PooledOrderBook
  pub result : reserve_orders capacity ≡ some book
  pub represents : Represents bid book empty_book
  pub slots : slot_count represents ≡ capacity
  pub free : represents.frees ≡ count_up 1 capacity

-- For a capacity up to 2 ^ 32 - 2 the call gives a book that holds the orders of the empty book, and
-- whose free slots are those from 1 to the capacity, in that order.
pub reserve_orders-Reserved : (capacity : ℕ) → capacity ≤ 2 ^ 32 - 2 → Reserved capacity
unfolding reserve_orders
reserve_orders-Reserved capacity c = record {
  book = record {
    bids = [];
    asks = [];
    pool = record { slots = fresh_slots capacity; free_head = if capacity == 0 then 0 else 1 };
    order_index = [];
    stats = no_stats;
  };
  result = ground arith;
  represents = record {
    own = [];
    other = [];
    frees = count_up 1 capacity;
    own_pooled = refl;
    other_pooled = refl;
    own_base = refl;
    other_base = refl;
    agree = record {
      incoming = refl;
      counters = refl;
      fills = refl;
      keys = refl;
      free = fresh_chain capacity 1 capacity (omega arith) c (omega arith);
    };
    own_hold = tt;
    other_hold = tt;
    across = tt;
  };
  slots = omega (arith, length-count_up 1 capacity);
  free = refl;
}
