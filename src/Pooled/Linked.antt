-- ===== src/Pooled/Linked.antt =====
-- The lists that the slots of src/pooled_order_book.cpp form: a level's chain of orders and the
-- chain of free slots.
use orda_book.Prelude.{ℕ, ◌≡◌, ◌≢◌, refl, ap, false, true, List, [], ◌∷◌, ◌++◌, All, length, arith}
use orda_book.Types.{Price}
use orda_book.OrderBook.State.{Order}
use orda_book.OrderBook.State
use orda_book.Pooled.State.{SlotIndex, OrderSlot, SlotArray, write, PriceLevel}

-- An order of the baseline engine, and the slot that holds it.
pub record Cell : Type 0 where
  pub slot : SlotIndex
  pub order : Order

pub record LinkedLevel : Type 0 where
  pub price : Price
  pub total_qty : ℕ
  pub cells : List Cell

abbrev pub first_or : SlotIndex → List Cell → SlotIndex
first_or stop [] = stop
first_or stop (c ∷ cs) = c.slot

abbrev pub last_or : SlotIndex → List Cell → SlotIndex
last_or prev [] = prev
last_or prev (c ∷ cs) = last_or c.slot cs

abbrev pub orders_of : List Cell → List Order
orders_of [] = []
orders_of (c ∷ cs) = c.order ∷ orders_of cs

-- What each of the two engines stores for a level.
abbrev pub pooled_level : LinkedLevel → PriceLevel
pooled_level g = record {
  price = g.price;
  total_qty = g.total_qty;
  head = first_or 0 g.cells;
  tail = last_or 0 g.cells;
  order_count = length g.cells;
}

abbrev pub base_level : LinkedLevel → State.PriceLevel
base_level g = record { price = g.price; total_qty = g.total_qty; orders = orders_of g.cells }

abbrev pub slot_of : Order → SlotIndex → SlotIndex → OrderSlot
slot_of order prev next = record {
  order_id = order.order_id;
  side = order.side;
  price = order.price;
  qty = order.qty;
  prev = prev;
  next = next;
  free_next = 0;
  live = true;
}

-- The slots hold the orders of the cells, linked from `prev` to `stop`.
abbrev pub Linked : SlotArray → SlotIndex → List Cell → SlotIndex → Type 0
Linked slots prev [] stop = Unit {0}
Linked slots prev (c ∷ cs) stop =
    (c.slot ≢ 0)
    × (slots c.slot ≡ slot_of c.order prev (first_or stop cs))
    × Linked slots c.slot cs stop

-- The free slots, from the head on.
abbrev pub FreeChain : SlotArray → SlotIndex → List SlotIndex → Type 0
FreeChain slots head [] = head ≡ 0
FreeChain slots head (i ∷ is) =
    (head ≡ i)
    × (i ≢ 0)
    × ((slots i).live ≡ false)
    × All (λ j. j ≢ i) is
    × FreeChain slots (slots i).free_next is

abbrev pub Apart : Cell → Cell → Type 0
Apart c d = (c.slot ≢ d.slot) × (c.order.order_id ≢ d.order.order_id)

abbrev pub Distinct : List Cell → Type 0
Distinct [] = Unit {0}
Distinct (c ∷ cs) = All (Apart c) cs × Distinct cs

abbrev pub Off : SlotIndex → List Cell → Type 0
Off i = All (λ c. c.slot ≢ i)

pub write_here : (i : SlotIndex) (v : OrderSlot) (s : SlotArray) → write i v s i ≡ v
unfolding write
write_here i v s = ground arith

pub write_there : (i j : SlotIndex) (v : OrderSlot) (s : SlotArray) → j ≢ i → write i v s j ≡ s j
unfolding write
write_there i j v s n = ground arith

-- A chain reads only its own slots.
pub Linked-frame :
    (s s' : SlotArray) (prev stop : SlotIndex) (cs : List Cell)
    → All (λ c. s' c.slot ≡ s c.slot) cs
    → Linked s prev cs stop
    → Linked s' prev cs stop
Linked-frame s s' prev stop [] f h = tt
Linked-frame s s' prev stop (c ∷ cs) (e, f) (n, h, hs) =
    (n, cc, Linked-frame s s' c.slot stop cs f hs)

pub Linked-write :
    (i : SlotIndex) (v : OrderSlot) (s : SlotArray) (prev stop : SlotIndex) (cs : List Cell)
    → Off i cs
    → Linked s prev cs stop
    → Linked (write i v s) prev cs stop
Linked-write i v s prev stop [] o h = tt
Linked-write i v s prev stop (c ∷ cs) (o, os) (n, h, hs) =
    (n, rw (write_there i c.slot v s o) h, Linked-write i v s c.slot stop cs os hs)

pub FreeChain-frame :
    (s s' : SlotArray) (head : SlotIndex) (is : List SlotIndex)
    → All (λ i. s' i ≡ s i) is
    → FreeChain s head is
    → FreeChain s' head is
FreeChain-frame s s' head [] f h = h
FreeChain-frame s s' head (i ∷ is) (e, f) (a, n, l, d, h) =
    (a, n, rw e l, d, rw e (FreeChain-frame s s' (s i).free_next is f h))

-- A slot in use is not free.
pub FreeChain-live :
    (s : SlotArray) (head j : SlotIndex) (is : List SlotIndex)
    → FreeChain s head is
    → (s j).live ≡ true
    → All (λ i. i ≢ j) is
FreeChain-live s head j [] h l = tt
FreeChain-live s head j (i ∷ is) (a, n, f, d, h) l = (
  λ e. let e' : (s i).live ≡ (s j).live = (λ k. (s (e k)).live) in absurd (cc),
  FreeChain-live s (s i).free_next j is h l,
)

pub FreeChain-write :
    (i : SlotIndex) (v : OrderSlot) (s : SlotArray) (head : SlotIndex) (is : List SlotIndex)
    → All (λ j. j ≢ i) is
    → FreeChain s head is
    → FreeChain (write i v s) head is
FreeChain-write i v s head [] o h = h
FreeChain-write i v s head (j ∷ is) (o, os) (a, n, l, d, h) =
    let e = write_there i j v s o in
    (a, n, rw e l, d, rw e (FreeChain-write i v s (s j).free_next is os h))

-- A free slot is not in the chain of a level.
pub Linked-free :
    (s : SlotArray) (prev stop i : SlotIndex) (cs : List Cell)
    → (s i).live ≡ false
    → Linked s prev cs stop
    → Off i cs
Linked-free s prev stop i [] l h = tt
Linked-free s prev stop i (c ∷ cs) l (n, e, hs) = (
  (λ q.
      let q' : (s c.slot).live ≡ (s i).live = (λ k. (s (q k)).live) in
      let e' : (s c.slot).live ≡ true = (λ k. (e k).live) in absurd (cc)),
  Linked-free s c.slot stop i cs l hs,
)

pub FreeChain-free :
    (s : SlotArray) (head : SlotIndex) (is : List SlotIndex)
    → FreeChain s head is
    → All (λ i. (s i).live ≡ false) is
FreeChain-free s head [] h = tt
FreeChain-free s head (i ∷ is) (a, n, f, d, h) = (f, FreeChain-free s (s i).free_next is h)

first_or-append :
    (stop : SlotIndex) (xs ys : List Cell)
    → first_or stop (xs ++ ys) ≡ first_or (first_or stop ys) xs
first_or-append stop [] ys = refl
first_or-append stop (x ∷ xs) ys = refl

pub last_or-append :
    (prev : SlotIndex) (xs ys : List Cell) → last_or prev (xs ++ ys) ≡ last_or (last_or prev xs) ys
last_or-append prev [] ys = refl
last_or-append prev (x ∷ xs) ys = last_or-append x.slot xs ys

pub orders_of-append : (xs ys : List Cell) → orders_of (xs ++ ys) ≡ orders_of xs ++ orders_of ys
orders_of-append [] ys = refl
orders_of-append (x ∷ xs) ys = ap (◌∷◌ x.order) (orders_of-append xs ys)

-- Two chains that meet are one.
pub Linked-append :
    (s : SlotArray) (prev stop : SlotIndex) (xs ys : List Cell)
    → Linked s prev xs (first_or stop ys)
    → Linked s (last_or prev xs) ys stop
    → Linked s prev (xs ++ ys) stop
Linked-append s prev stop [] ys h k = k
Linked-append s prev stop (x ∷ xs) ys (n, e, hs) k =
    (n, rw (first_or-append stop xs ys) e, Linked-append s x.slot stop xs ys hs k)

pub Linked-split :
    (s : SlotArray) (prev stop : SlotIndex) (xs ys : List Cell)
    → Linked s prev (xs ++ ys) stop
    → Linked s prev xs (first_or stop ys) × Linked s (last_or prev xs) ys stop
Linked-split s prev stop [] ys h = (tt, h)
Linked-split s prev stop (x ∷ xs) ys (n, e, hs) =
    let (a, b) = Linked-split s x.slot stop xs ys hs in
    ((n, rw (first_or-append stop xs ys) at e, a), b)
