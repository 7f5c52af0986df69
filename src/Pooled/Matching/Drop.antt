-- ===== src/Pooled/Matching/Drop.antt =====
-- A filled order leaves the front of its level: the end of the inner loop of `match_incoming` in
-- src/pooled_order_book.cpp.
use orda_book.Prelude.{
  ℕ, suc, ◌-◌, ◌≡◌, ◌≢◌, refl, sym, ◌∙◌, List, [], ◌∷◌, All, All-mono, length, ne→==, arith,
}
use orda_book.Types.{Price}
use orda_book.Pooled.State.{SlotIndex, OrderSlot, SlotArray, write, new_slot, PriceLevel, Pool}
use orda_book.Pooled.Slots.{release_slot}
use orda_book.Pooled.Matching.{drop_front}
use orda_book.Pooled.Linked.{
  Cell, LinkedLevel, last_or, pooled_level, Linked, FreeChain, Apart, Distinct, Off, write_here,
  write_there, Linked-write, FreeChain-live, FreeChain-write,
}

pub Apart-Off : (c : Cell) (cs : List Cell) → All (Apart c) cs → Off c.slot cs
Apart-Off c cs = All-mono (Apart c) (λ d. d.slot ≢ c.slot) (λ d a e. a.0 (sym e)) cs

pub Apart-ids :
    (c : Cell) (cs : List Cell)
    → All (Apart c) cs
    → All (λ d. d.order.order_id ≢ c.order.order_id) cs
Apart-ids c cs = All-mono (Apart c) _ (λ d a e. a.1 (sym e)) cs

pub last_or-avoids :
    (i prev : SlotIndex) (cs : List Cell) → prev ≢ i → Off i cs → last_or prev cs ≢ i
last_or-avoids i prev [] n o = n
last_or-avoids i prev (c ∷ cs) n (m, o) = last_or-avoids i c.slot cs m o

suc-sub_one : (n : ℕ) → suc n - 1 ≡ n
suc-sub_one n = omega arith

-- The level of the cells `cs`.
abbrev pub level_of : Price → ℕ → List Cell → LinkedLevel
level_of price total_qty cs = record { price = price; total_qty = total_qty; cells = cs }

pub record Dropped (c : Cell) (cs : List Cell) (level : LinkedLevel) (frees : List SlotIndex)
    (pool : Pool) (r : PriceLevel × Pool) : Type 0 where
  pub dropped : r.0 ≡ pooled_level level
  pub chain : Linked r.1.slots 0 cs 0
  pub free : FreeChain r.1.slots r.1.free_head (c.slot ∷ frees)
  pub kept : (j : SlotIndex) → Off j (c ∷ cs) → r.1.slots j ≡ pool.slots j

module _ (price : Price) (qty : ℕ) (c : Cell) (frees : List SlotIndex) (pool : Pool) where
  -- The slots with the new head unlinked from the old one.
  released :
      (cs : List Cell) (slots : SlotArray) (level : PriceLevel)
      → c.slot ≢ 0
      → Off c.slot cs
      → Linked slots 0 cs 0
      → FreeChain slots pool.free_head frees
      → All (λ i. i ≢ c.slot) frees
      → level ≡ pooled_level (level_of price qty cs)
      → ((j : SlotIndex) → Off j (c ∷ cs) → slots j ≡ pool.slots j)
      → Dropped c cs
          (level_of price qty cs)
          frees
          pool
          (level, release_slot c.slot (record pool { slots = slots }))
  unfolding release_slot
  released cs slots level n o h f u e k =
      let value : OrderSlot = record new_slot { free_next = pool.free_head } in
      let here = write_here c.slot value slots in
      record {
        dropped = e;
        chain = Linked-write c.slot value slots 0 0 cs o h;
        free = (
          refl,
          n,
          rw here refl,
          u,
          rw here (FreeChain-write c.slot value slots pool.free_head frees u f),
        );
        kept = λ j q. write_there c.slot j value slots (λ a. q.0 (sym a)) ∙ k j q;
      }

  pub drop_front-Dropped :
      (cs : List Cell)
      → Linked pool.slots 0 (c ∷ cs) 0
      → Distinct (c ∷ cs)
      → FreeChain pool.slots pool.free_head frees
      → Dropped c cs
          (level_of price qty cs)
          frees
          pool
          (drop_front c.slot (pooled_level (level_of price qty (c ∷ cs))) pool)
  unfolding drop_front
  drop_front-Dropped [] (n, h, hs) d f = rw h (
      released [] pool.slots _ n tt tt f
        (FreeChain-live pool.slots pool.free_head c.slot frees f (rw h refl)) (ground arith)
        (λ j o. refl))
  drop_front-Dropped (e ∷ cs) (n, h, (m, g, hs)) ((a, apart), (b, d)) f =
      let value : OrderSlot = record (pool.slots e.slot) { prev = 0 } in
      let slots : SlotArray = write e.slot value pool.slots in
      rw (h, ne→== m)
        (released (e ∷ cs) slots _ n (Apart-Off c (e ∷ cs) (a, apart))
          (
            m,
            write_here e.slot value pool.slots ∙ rw g refl,
            Linked-write e.slot value pool.slots e.slot 0 cs (Apart-Off e cs b) hs,
          )
          (FreeChain-write e.slot value pool.slots pool.free_head frees
            (FreeChain-live pool.slots pool.free_head e.slot frees f (rw g refl)) f)
          (FreeChain-live pool.slots pool.free_head c.slot frees f (rw h refl))
          (rw
            (
              ne→== (last_or-avoids c.slot e.slot cs (λ q. a.0 (sym q)) (Apart-Off c cs apart)),
              suc-sub_one (suc (length cs)),
            )
            refl)
          (λ j o. write_there e.slot j value pool.slots (λ q. o.1.0 (sym q))))
