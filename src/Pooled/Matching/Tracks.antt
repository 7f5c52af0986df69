-- ===== src/Pooled/Matching/Tracks.antt =====
-- How the matching loops of src/pooled_order_book.cpp go with those of src/order_book.cpp: what the
-- two hold in common between rounds, and what a run of a level leaves.
use orda_book.Prelude.{ℕ, ◌+◌, ◌≡◌, ◌≢◌, ◌∙◌, refl, List, All, length}
use orda_book.OrderBook.State
use orda_book.OrderBook.Matching
use orda_book.Pooled.State.{SlotIndex, PriceLevel, find_slot}
use orda_book.Pooled.Matching.{Matching}
use orda_book.Pooled.Linked.{
  Cell, LinkedLevel, pooled_level, base_level, Linked, FreeChain, Distinct, Off,
}
use orda_book.Pooled.Keys.{slot_keys, location_keys, Indexed}

-- The two states agree on what they share, and the free slots are a chain.
pub record Agree (p : Matching) (b : Matching.Matching) (frees : List SlotIndex) : Type 0 where
  pub incoming : p.incoming_qty ≡ b.incoming_qty
  pub counters : p.stats ≡ b.stats
  pub fills : p.trades ≡ b.trades
  pub keys : slot_keys p.order_index ≡ location_keys b.order_index
  pub free : FreeChain p.pool.slots p.pool.free_head frees

-- The slots and the index hold the cells of a level.
pub record Holds (p : Matching) (cells : List Cell) : Type 0 where
  pub chain : Linked p.pool.slots 0 cells 0
  pub indexed : Indexed p.order_index cells
  pub distinct : Distinct cells

-- What a run over the cells leaves as it was.
pub record Frame (cells : List Cell) (p p' : Matching) : Type 0 where
  pub slot_kept : (j : SlotIndex) → Off j cells → p'.pool.slots j ≡ p.pool.slots j
  pub index_kept :
      (id : ℕ)
      → All (λ c. c.order.order_id ≢ id) cells
      → find_slot id p'.order_index ≡ find_slot id p.order_index

-- Each cell of the second list has the slot and the id of a cell of the first.
abbrev pub Within : List Cell → List Cell → Type 1
Within cells cells' =
    (P : SlotIndex → ℕ → Type 0)
    → All (λ c. P c.slot c.order.order_id) cells
    → All (λ c. P c.slot c.order.order_id) cells'

-- From one level and its free slots, the two loops leave one level, with as many slots in use and
-- free together.
pub record Run (g : LinkedLevel) (frees : List SlotIndex) (p : Matching) (r : PriceLevel × Matching)
    (b : State.PriceLevel × Matching.Matching) : Type 1 where
  pub level : LinkedLevel
  pub left : List SlotIndex
  pub pooled : r.0 ≡ pooled_level level
  pub base : b.0 ≡ base_level level
  pub priced : level.price ≡ g.price
  pub agree : Agree r.1 b.1 left
  pub holds : Holds r.1 level.cells
  pub within : Within g.cells level.cells
  pub frame : Frame g.cells p r.1
  pub slots_kept : length left + length level.cells ≡ length frees + length g.cells

pub Frame-trans :
    (cells cells' : List Cell) (p p' p'' : Matching)
    → Within cells cells'
    → Frame cells p p'
    → Frame cells' p' p''
    → Frame cells p p''
Frame-trans cells cells' p p' p'' w f g = record {
  slot_kept = λ j o. g.slot_kept j (w (λ i _. i ≢ j) o) ∙ f.slot_kept j o;
  index_kept = λ id o. g.index_kept id (w (λ _ k. k ≢ id) o) ∙ f.index_kept id o;
}

pub Run-trans :
    (g : LinkedLevel) (frees : List SlotIndex) (p : Matching) (r r' : PriceLevel × Matching)
    (b b' : State.PriceLevel × Matching.Matching) (run : Run g frees p r b)
    → Run run.level run.left r.1 r' b'
    → Run g frees p r' b'
Run-trans g frees p r r' b b' run next = record {
  level = next.level;
  left = next.left;
  pooled = next.pooled;
  base = next.base;
  priced = next.priced ∙ run.priced;
  agree = next.agree;
  holds = next.holds;
  within = λ P h. next.within P (run.within P h);
  frame = Frame-trans g.cells run.level.cells p r.1 r'.1 run.within run.frame next.frame;
  slots_kept = next.slots_kept ∙ run.slots_kept;
}

pub Run-stop :
    (g : LinkedLevel) (frees : List SlotIndex) (p : Matching) (b : Matching.Matching)
    → Agree p b frees
    → Holds p g.cells
    → Run g frees p (pooled_level g, p) (base_level g, b)
Run-stop g frees p b a h = record {
  level = g;
  left = frees;
  pooled = refl;
  base = refl;
  priced = refl;
  agree = a;
  holds = h;
  within = λ P q. q;
  frame = record { slot_kept = λ j o. refl; index_kept = λ id o. refl };
  slots_kept = refl;
}
