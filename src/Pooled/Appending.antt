-- ===== src/Pooled/Appending.antt =====
-- `append_slot` of src/pooled_order_book.cpp.
use orda_book.Prelude.{
  ℕ, suc, ◌+◌, ◌≡◌, ◌≢◌, ◌∙◌, refl, sym, ne→==, List, [], ◌∷◌, ◌++◌, All-append, All-split, length,
  length-append, arith,
}
use orda_book.Types.{Price}
use orda_book.Pooled.State.{SlotIndex, OrderSlot, SlotArray, write, PriceLevel}
use orda_book.Pooled.Slots.{append_slot}
use orda_book.Pooled.Linked.{
  Cell, LinkedLevel, last_or, pooled_level, slot_of, Linked, Linked-append, Linked-write, Apart,
  Distinct, Off, write_here, write_there, last_or-append,
}
use orda_book.Pooled.Matching.Drop.{level_of, Apart-Off, last_or-avoids}
use orda_book.Pooled.Matching.Walk.{Across}

-- The last slot is given another successor.
pub set_next :
    (i : SlotIndex) (s : SlotArray) (prev stop : SlotIndex) (d : Cell) (ds : List Cell)
    → Linked s prev (d ∷ ds) stop
    → Distinct (d ∷ ds)
    → Linked
        (write (last_or d.slot ds) (record (s (last_or d.slot ds)) { next = i }) s)
        prev
        (d ∷ ds)
        i
set_next i s prev stop d [] (n, e, hs) x = (n, write_here d.slot _ s ∙ rw e refl, tt)
set_next i s prev stop d (e ∷ ds) (n, h, hs) ((a, apart), x) =
    let last : last_or e.slot ds ≢ d.slot =
      last_or-avoids d.slot e.slot ds (λ q. a.0 (sym q)) (Apart-Off d ds apart) in
    (
      n,
      write_there (last_or e.slot ds) d.slot _ s (λ q. last (sym q)) ∙ h,
      set_next i s d.slot stop e ds hs x,
    )

pub last_or-used :
    (s : SlotArray) (prev stop prev' : SlotIndex) (cs : List Cell)
    → prev' ≢ 0
    → Linked s prev cs stop
    → last_or prev' cs ≢ 0
last_or-used s prev stop prev' [] n h = n
last_or-used s prev stop prev' (c ∷ cs) n (m, e, hs) = last_or-used s c.slot stop c.slot cs m hs

pub last_or-Off :
    (i : SlotIndex) (d : Cell) (ds : List Cell) → Off i (d ∷ ds) → last_or d.slot ds ≢ i
last_or-Off i d ds (n, o) = last_or-avoids i d.slot ds n o

pub Distinct-snoc :
    (c : Cell) (cs : List Cell) → Distinct cs → Across (c ∷ []) cs → Distinct (cs ++ (c ∷ []))
Distinct-snoc c [] x a = (tt, tt)
Distinct-snoc c (d ∷ ds) (y, x) ((e, _), a) = (
  All-append (Apart d) ds (c ∷ []) y (((λ q. e.0 (sym q)), (λ q. e.1 (sym q))), tt),
  Distinct-snoc c ds x a,
)

zero_add_one : 0 + 1 ≡ 1
zero_add_one = omega arith

suc_add_one : (n : ℕ) → suc n + 1 ≡ suc (n + 1)
suc_add_one n = omega arith

pub record Appended (c : Cell) (cs : List Cell) (g : LinkedLevel) (s : SlotArray)
    (r : PriceLevel × SlotArray) : Type 0 where
  pub level : r.0 ≡ pooled_level g
  pub chain : Linked r.1 0 (cs ++ (c ∷ [])) 0
  pub kept : (j : SlotIndex) → Off j (cs ++ (c ∷ [])) → r.1 j ≡ s j

-- The slot joins the end of a level's chain.
pub append_slot-Appended :
    (c : Cell) (cs : List Cell) (price : Price) (total : ℕ) (s : SlotArray)
    → c.slot ≢ 0
    → s c.slot ≡ slot_of c.order 0 0
    → Off c.slot cs
    → Distinct cs
    → Linked s 0 cs 0
    → Appended c cs
        (level_of price (total + c.order.qty) (cs ++ (c ∷ [])))
        s
        (append_slot (pooled_level (level_of price total cs)) c.slot s)
unfolding append_slot
append_slot-Appended c [] price total s n e o x h =
    let value : OrderSlot = record (s c.slot) { prev = 0; next = 0 } in
    let here : write c.slot value s c.slot ≡ slot_of c.order 0 0 =
      write_here c.slot value s ∙ rw e refl in
    record {
      level = rw here (λ i. record {
        price = price;
        total_qty = total + c.order.qty;
        head = c.slot;
        tail = c.slot;
        order_count = zero_add_one i;
      });
      chain = (n, here, tt);
      kept = λ j q. write_there c.slot j value s (λ z. q.0 (sym z));
    }
append_slot-Appended c (d ∷ ds) price total s n e o x h =
    let value : OrderSlot = record (s c.slot) { prev = last_or d.slot ds; next = 0 } in
    let linked : SlotArray = write c.slot value s in
    let last : SlotIndex = last_or d.slot ds in
    let used : last ≢ 0 = last_or-used s d.slot 0 d.slot ds h.0 h.2 in
    let off : last ≢ c.slot = last_or-Off c.slot d ds o in
    let next : OrderSlot = record (linked last) { next = c.slot } in
    let here : write last next linked c.slot ≡ slot_of c.order last 0 =
      write_there last c.slot next linked (λ q. off (sym q))
      ∙ write_here c.slot value s
      ∙ rw e refl in
    let chain : Linked linked 0 (d ∷ ds) 0 = Linked-write c.slot value s 0 0 (d ∷ ds) o h in
    rw (ne→== used) (record {
      level =
          rw (here, last_or-append d.slot ds (c ∷ []), length-append ds (c ∷ []))
            (λ i. record {
              price = price;
              total_qty = total + c.order.qty;
              head = d.slot;
              tail = c.slot;
              order_count = suc_add_one (length ds) i;
            });
      chain =
          Linked-append (write last next linked) 0 0 (d ∷ ds) (c ∷ [])
            (set_next c.slot linked 0 0 d ds chain x) (n, here, tt);
      kept = λ j q.
          let (a, b) = All-split (λ y. y.slot ≢ j) (d ∷ ds) (c ∷ []) q in
          write_there last j next linked (λ z. last_or-Off j d ds a (sym z))
          ∙ write_there c.slot j value s (λ z. b.0 (sym z));
    })
