-- ===== src/Pooled/Matching/Fill.antt =====
-- One round of the inner loop of `match_incoming`, in src/pooled_order_book.cpp as in
-- src/order_book.cpp.
use orda_book.Prelude.{
  ℕ, ◌-◌, min, ◌==◌, ◌≡◌, ◌∙◌, refl, sym, inl, inr, Bool-cases, true, false, List, ◌∷◌, arith,
  if◌then◌else◌, subst,
}
use orda_book.Types.{Price, Side}
use orda_book.OrderBook.State
use orda_book.OrderBook.State.{Order}
use orda_book.OrderBook.Matching
use orda_book.Pooled.State.{SlotIndex, OrderSlot, PriceLevel, Pool, write, erase_slot}
use orda_book.Pooled.Matching.{Matching, fill_front, drop_front}
use orda_book.Pooled.Linked.{
  Cell, LinkedLevel, first_or, orders_of, pooled_level, base_level, slot_of, Linked, FreeChain,
  Distinct, write_here, write_there, Linked-write, FreeChain-live, FreeChain-write,
}
use orda_book.Pooled.Keys.{Indexed, erase_keys, Indexed-erase_slot, find-erase_slot}
use orda_book.Pooled.Matching.Drop.{level_of, Apart-Off, Apart-ids, Dropped, drop_front-Dropped}
use orda_book.Pooled.Matching.Tracks.{Agree, Holds, Run}

-- The cell with another quantity.
abbrev pub with_qty : ℕ → Cell → Cell
with_qty qty c = record c { order = record c.order { qty = qty } }

module _ (id : ℕ) (side : Side) (price : Price) (at : Price) (total : ℕ) (c : Cell) (cs : List Cell)
    (frees : List SlotIndex) (p : Matching) (b : Matching.Matching) (a : Agree p b frees)
    (h : Holds p (c ∷ cs)) where
  abbrev level : LinkedLevel
  level = level_of at total (c ∷ cs)

  abbrev fill : ℕ
  fill = min p.incoming_qty c.order.qty

  abbrev left_qty : ℕ
  left_qty = c.order.qty - fill

  -- The slot after the fill.
  abbrev filled_slot : OrderSlot
  filled_slot = record (slot_of c.order 0 (first_or 0 cs)) { qty = left_qty }

  abbrev filled_pool : Pool
  filled_pool = record p.pool { slots = write c.slot filled_slot p.pool.slots }

  filled_chain : Linked filled_pool.slots 0 (with_qty left_qty c ∷ cs) 0
  filled_chain =
      let (n, e, es) = h.chain in
      (
        n,
        write_here c.slot filled_slot p.pool.slots,
        Linked-write c.slot filled_slot p.pool.slots c.slot 0 cs (Apart-Off c cs h.distinct.0) es,
      )

  filled_free : FreeChain filled_pool.slots p.pool.free_head frees
  filled_free =
      FreeChain-write c.slot filled_slot p.pool.slots p.pool.free_head frees
        (FreeChain-live p.pool.slots p.pool.free_head c.slot frees a.free (rw h.chain.1 refl))
        a.free

  filled-Distinct : Distinct (with_qty left_qty c ∷ cs)
  filled-Distinct = h.distinct

  abbrev step : PriceLevel × Matching
  step = fill_front id side price (pooled_level level) p

  abbrev base_step : State.PriceLevel × Matching.Matching
  base_step = Matching.fill_front id side price c.order (orders_of cs) (base_level level) b

  abbrev dropped : PriceLevel × Pool
  dropped =
      drop_front c.slot (pooled_level (level_of at (total - fill) (with_qty left_qty c ∷ cs)))
        filled_pool

  is_dropped :
      Dropped (with_qty left_qty c) cs (level_of at (total - fill) cs) frees filled_pool dropped
  is_dropped =
      drop_front-Dropped at (total - fill) (with_qty left_qty c) frees filled_pool cs filled_chain
        filled-Distinct filled_free

  -- What the round leaves of the level, the slots and the index.
  step_level :
      (step.0 ≡ (
        if left_qty == 0
        then dropped.0
        else pooled_level (level_of at (total - fill) (with_qty left_qty c ∷ cs))))
      × (step.1.pool ≡ (if left_qty == 0 then dropped.1 else filled_pool))
      × (step.1.order_index
          ≡ (if left_qty == 0 then erase_slot c.order.order_id p.order_index else p.order_index))
  unfolding fill_front
  step_level = (rw h.chain.1 refl, rw h.chain.1 refl, rw h.chain.1 refl)

  step-Agree :
      (frees' : List SlotIndex)
      → FreeChain step.1.pool.slots step.1.pool.free_head frees'
      → Agree step.1 base_step.1 frees'
  unfolding fill_front Matching.fill_front
  step-Agree frees' f = record {
    incoming = rw (h.chain.1, a.incoming) refl;
    counters = rw (h.chain.1, a.incoming, a.counters) refl;
    fills = rw (h.chain.1, a.incoming, a.fills) refl;
    keys =
        rw (h.chain.1, ← a.incoming)
          (elim (Bool-cases (left_qty == 0)) [
            | inl e ↦ rw e (erase_keys c.order.order_id p.order_index b.order_index a.keys)
            | inr n ↦ rw n a.keys
          ]);
    free = f;
  }

  partly_filled : (left_qty == 0) ≡ false → Run level frees p step base_step
  partly_filled n =
      let (el, ep, ei) = rw n at step_level in
      record {
        level = level_of at (total - fill) (with_qty left_qty c ∷ cs);
        left = frees;
        pooled = el;
        base = unfold Matching.fill_front in rw (← a.incoming, n) refl;
        priced = refl;
        agree =
            step-Agree frees
              (subst (λ pool. FreeChain pool.slots pool.free_head frees) (sym ep) filled_free);
        holds = record {
          chain =
              subst (λ pool. Linked pool.slots 0 (with_qty left_qty c ∷ cs) 0) (sym ep)
                filled_chain;
          indexed = subst (λ index. Indexed index (with_qty left_qty c ∷ cs)) (sym ei) h.indexed;
          distinct = filled-Distinct;
        };
        within = λ P q. q;
        frame = record {
          slot_kept =
              λ j o. rw ep (write_there c.slot j filled_slot p.pool.slots (λ q. o.0 (sym q)));
          index_kept = λ k o. rw ei refl;
        };
        slots_kept = refl;
      }

  all_filled : (left_qty == 0) ≡ true → Run level frees p step base_step
  all_filled e =
      let (el, ep, ei) = rw e at step_level in
      record {
        level = level_of at (total - fill) cs;
        left = c.slot ∷ frees;
        pooled = el ∙ is_dropped.dropped;
        base = unfold Matching.fill_front in rw (← a.incoming, e) refl;
        priced = refl;
        agree = step-Agree (c.slot ∷ frees) (
            subst (λ pool. FreeChain pool.slots pool.free_head (c.slot ∷ frees)) (sym ep)
              is_dropped.free);
        holds = record {
          chain = subst (λ pool. Linked pool.slots 0 cs 0) (sym ep) is_dropped.chain;
          indexed =
              subst (λ index. Indexed index cs) (sym ei)
                (Indexed-erase_slot c.order.order_id p.order_index cs (Apart-ids c cs h.distinct.0)
                  h.indexed.1);
          distinct = h.distinct.1;
        };
        within = λ P q. q.1;
        frame = record {
          slot_kept = λ j o. rw ep (
              is_dropped.kept j o
              ∙ write_there c.slot j filled_slot p.pool.slots (λ q. o.0 (sym q)));
          index_kept = λ k o.
              let f = find-erase_slot k c.order.order_id p.order_index in
              rw ei (ground (arith, f, o.0));
        };
        slots_kept = omega arith;
      }

  pub fill_front-Run : Run level frees p step base_step
  fill_front-Run = elim (Bool-cases (left_qty == 0)) [
    | inl e ↦ all_filled e
    | inr n ↦ partly_filled n
  ]
