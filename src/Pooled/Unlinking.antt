-- ===== src/Pooled/Unlinking.antt =====
-- `unlink_slot` of src/pooled_order_book.cpp.
use orda_book.Prelude.{
  ℕ, subst, ◌-◌, ◌==◌, ◌≡◌, ◌≢◌, ◌∙◌, refl, sym, ne→==, if◌then◌else◌, not, List, [], ◌∷◌, ◌++◌,
  All, All-split, All-append, All-swap, All-mono, length, length-append, arith,
}
use orda_book.Types.{Price}
use orda_book.Pooled.State.{SlotIndex, OrderSlot, SlotArray, write, PriceLevel}
use orda_book.Pooled.Slots.{unlink_slot}
use orda_book.Pooled.Linked.{
  Cell, LinkedLevel, first_or, last_or, pooled_level, slot_of, Linked, Linked-append, Linked-split,
  Linked-frame, Linked-write, Apart, Distinct, Off, write_here, write_there, last_or-append,
}
use orda_book.Pooled.Matching.Drop.{level_of, Apart-Off}
use orda_book.Pooled.Appending.{set_next, last_or-used, last_or-Off}

-- The writes to the order before and to the order after one with the links of `v`.
abbrev next_set : OrderSlot → SlotArray → SlotArray
next_set v s = if not (v.prev == 0) then write v.prev (record (s v.prev) { next = v.next }) s else s

abbrev prev_set : OrderSlot → SlotArray → SlotArray
prev_set v s = if not (v.next == 0) then write v.next (record (s v.next) { prev = v.prev }) s else s

next_set-write :
    (v : OrderSlot) (s : SlotArray) (stop : SlotIndex) (x : Cell) (xs : List Cell)
    → v.prev ≡ last_or x.slot xs
    → Linked s 0 (x ∷ xs) stop
    → next_set v s ≡ write (last_or x.slot xs) (record (s (last_or x.slot xs)) { next = v.next }) s
next_set-write v s stop x xs e h = rw (e, ne→== (last_or-used s x.slot stop x.slot xs h.0 h.2)) refl

prev_set-write :
    (v : OrderSlot) (s : SlotArray) (y : Cell)
    → v.next ≡ y.slot
    → y.slot ≢ 0
    → prev_set v s ≡ write y.slot (record (s y.slot) { prev = v.prev }) s
prev_set-write v s y e n = rw (e, ne→== n) refl

next_set-Linked :
    (v : OrderSlot) (s : SlotArray) (stop : SlotIndex) (xs : List Cell)
    → v.prev ≡ last_or 0 xs
    → Linked s 0 xs stop
    → Distinct xs
    → Linked (next_set v s) 0 xs v.next
next_set-Linked v s stop [] e h d = tt
next_set-Linked v s stop (x ∷ xs) e h d =
    subst (λ t. Linked t 0 (x ∷ xs) v.next) (sym (next_set-write v s stop x xs e h))
      (set_next v.next s 0 stop x xs h d)

next_set_kept :
    (v : OrderSlot) (s : SlotArray) (stop j : SlotIndex) (xs : List Cell)
    → v.prev ≡ last_or 0 xs
    → Linked s 0 xs stop
    → Off j xs
    → next_set v s j ≡ s j
next_set_kept v s stop j [] e h o = rw e refl
next_set_kept v s stop j (x ∷ xs) e h o =
    rw (e, ne→== (last_or-used s x.slot stop x.slot xs h.0 h.2))
      (write_there (last_or x.slot xs) j _ s (λ q. last_or-Off j x xs o (sym q)))

prev_set-Linked :
    (v : OrderSlot) (s : SlotArray) (prev : SlotIndex) (ys : List Cell)
    → v.next ≡ first_or 0 ys
    → Linked s prev ys 0
    → Distinct ys
    → Linked (prev_set v s) v.prev ys 0
prev_set-Linked v s prev [] e h d = tt
prev_set-Linked v s prev (y ∷ ys) e (n, h, hs) (a, d) =
    subst (λ t. Linked t v.prev (y ∷ ys) 0) (sym (prev_set-write v s y e n))
      (
        n,
        write_here y.slot _ s ∙ rw h refl,
        Linked-write y.slot _ s y.slot 0 ys (Apart-Off y ys a) hs,
      )

prev_set_kept :
    (v : OrderSlot) (s : SlotArray) (prev j : SlotIndex) (ys : List Cell)
    → v.next ≡ first_or 0 ys
    → Linked s prev ys 0
    → Off j ys
    → prev_set v s j ≡ s j
prev_set_kept v s prev j [] e h o = rw e refl
prev_set_kept v s prev j (y ∷ ys) e (n, h, hs) o =
    rw (e, ne→== n) (write_there y.slot j _ s (λ q. o.0 (sym q)))

-- The parts of a chain without repetition.
pub Distinct-split :
    (xs ys : List Cell)
    → Distinct (xs ++ ys)
    → Distinct xs × Distinct ys × All (λ x. All (Apart x) ys) xs
Distinct-split [] ys d = (tt, d, tt)
Distinct-split (x ∷ xs) ys (a, d) =
    let (b, c) = All-split (Apart x) xs ys a in
    let (u, v, w) = Distinct-split xs ys d in ((b, u), v, (c, w))

pub Distinct-join :
    (xs ys : List Cell)
    → Distinct xs
    → Distinct ys
    → All (λ x. All (Apart x) ys) xs
    → Distinct (xs ++ ys)
Distinct-join [] ys u v w = v
Distinct-join (x ∷ xs) ys (b, u) v (c, w) =
    (All-append (Apart x) xs ys b c, Distinct-join xs ys u v w)

-- The head, the tail and the count without the order.
first_or-without :
    (s : SlotArray) (c : Cell) (xs ys : List Cell)
    → Linked s 0 xs c.slot
    → (if not (last_or 0 xs == 0) then first_or 0 (xs ++ (c ∷ ys)) else first_or 0 ys)
      ≡ first_or 0 (xs ++ ys)
first_or-without s c [] ys h = refl
first_or-without s c (x ∷ xs) ys h =
    rw (ne→== (last_or-used s x.slot c.slot x.slot xs h.0 h.2)) refl

last_or-without :
    (s : SlotArray) (c : Cell) (xs ys : List Cell)
    → Linked s c.slot ys 0
    → (if not (first_or 0 ys == 0) then last_or 0 (xs ++ (c ∷ ys)) else last_or 0 xs)
      ≡ last_or 0 (xs ++ ys)
last_or-without s c xs [] h = sym (last_or-append 0 xs [])
last_or-without s c xs (y ∷ ys) h =
    rw (ne→== h.0, last_or-append 0 xs (c ∷ y ∷ ys), last_or-append 0 xs (y ∷ ys)) refl

length-without : (c : Cell) (xs ys : List Cell) → length (xs ++ (c ∷ ys)) - 1 ≡ length (xs ++ ys)
length-without c xs ys = omega (arith, length-append xs (c ∷ ys), length-append xs ys)

pub record Unlinked (c : Cell) (xs ys : List Cell) (g : LinkedLevel) (s : SlotArray)
    (r : PriceLevel × SlotArray) : Type 0 where
  pub level : r.0 ≡ pooled_level g
  pub chain : Linked r.1 0 (xs ++ ys) 0
  pub kept : (j : SlotIndex) → Off j (xs ++ (c ∷ ys)) → r.1 j ≡ s j

module _ (price : Price) (total : ℕ) (c : Cell) (xs ys : List Cell) (s : SlotArray)
    (h : Linked s 0 (xs ++ (c ∷ ys)) 0) (d : Distinct (xs ++ (c ∷ ys))) where
  abbrev level : PriceLevel
  level = pooled_level (level_of price total (xs ++ (c ∷ ys)))

  abbrev links : OrderSlot
  links = slot_of c.order (last_or 0 xs) (first_or 0 ys)

  abbrev before : SlotArray
  before = next_set links s

  abbrev after : SlotArray
  after = prev_set links before

  chains : Linked s 0 xs c.slot × Linked s (last_or 0 xs) (c ∷ ys) 0
  chains = Linked-split s 0 0 xs (c ∷ ys) h

  parts : Distinct xs × Distinct (c ∷ ys) × All (λ x. All (Apart x) (c ∷ ys)) xs
  parts = Distinct-split xs (c ∷ ys) d

  before-Off : Off c.slot xs
  before-Off = All-mono _ _ (λ x a. a.0.0) xs parts.2

  after-Off : Off c.slot ys
  after-Off = Apart-Off c ys parts.1.0

  here_before : before c.slot ≡ links
  here_before = next_set_kept links s c.slot c.slot xs refl chains.0 before-Off ∙ chains.1.1

  ys_before : Linked before c.slot ys 0
  ys_before =
      Linked-frame s before c.slot 0 ys
        (All-mono _ _ (λ y o. next_set_kept links s c.slot y.slot xs refl chains.0 o) ys
          (All-swap (λ x y. x.slot ≢ y.slot) xs ys
            (All-mono _ _ (λ x a. All-mono _ _ (λ y b. b.0) ys a.1) xs parts.2)))
        chains.1.2

  xs_after : Linked after 0 xs (first_or 0 ys)
  xs_after =
      Linked-frame before after 0 (first_or 0 ys) xs
        (All-mono _ _
          (λ x a.
            prev_set_kept links before c.slot x.slot ys refl ys_before
              (All-mono _ _ (λ y b q. b.0 (sym q)) ys a.1))
          xs parts.2)
        (next_set-Linked links s c.slot xs refl chains.0 parts.0)

  after_kept : (j : SlotIndex) → Off j xs → Off j ys → after j ≡ s j
  after_kept j o q =
      prev_set_kept links before c.slot j ys refl ys_before q
      ∙ next_set_kept links s c.slot j xs refl chains.0 o

  -- The body of the call, with the slot's links given.
  abbrev unlinked : OrderSlot → OrderSlot → PriceLevel × SlotArray
  unlinked v w =
      let t = prev_set w (next_set v s) in
      (
        record level {
          head = if not (v.prev == 0) then level.head else v.next;
          tail = if not (w.next == 0) then level.tail else w.prev;
          order_count = level.order_count - 1;
          total_qty = level.total_qty - (t c.slot).qty;
        },
        t,
      )

  unlink_slot-unlinked : unlink_slot level c.slot s ≡ unlinked links links
  unfolding unlink_slot
  unlink_slot-unlinked =
      let e : next_set (s c.slot) s c.slot ≡ links =
        (λ k. next_set (chains.1.1 k) s c.slot) ∙ here_before in
      λ k. unlinked (chains.1.1 k) (e k)

  -- For an order anywhere in the chain of a level, with slots and ids that occur once: `unlink_slot`
  -- leaves the level of the other orders, with its head, its tail, its count and its total, their
  -- slots are one chain in the same order, and every slot outside the level is as it was.
  pub unlink_slot-Unlinked :
      Unlinked c xs ys
        (level_of price (total - c.order.qty) (xs ++ ys))
        s
        (unlink_slot level c.slot s)
  unlink_slot-Unlinked =
      let here : (after c.slot).qty ≡ c.order.qty =
        (λ k. ((after_kept c.slot before-Off after-Off ∙ chains.1.1) k).qty) in
      rw unlink_slot-unlinked (record {
        level = λ k. record {
          price = price;
          total_qty = total - here k;
          head = first_or-without s c xs ys chains.0 k;
          tail = last_or-without s c xs ys chains.1.2 k;
          order_count = length-without c xs ys k;
        };
        chain =
            Linked-append after 0 0 xs ys xs_after
              (prev_set-Linked links before c.slot ys refl ys_before parts.1.1);
        kept = λ j o. let (a, b) = All-split (λ y. y.slot ≢ j) xs (c ∷ ys) o in after_kept j a b.1;
      })
