-- ===== src/Pooled/Removing.antt =====
-- `remove_order` of src/pooled_order_book.cpp.
use orda_book.Prelude.{
  ℕ, ◌+◌, ◌-◌, ◌≡◌, ◌≢◌, ◌∙◌, refl, sym, ap, ne→==, ==_refl, Option, none, some, List, [], ◌∷◌,
  ◌++◌, All, All-split, All-append, All-mono, length, map, arith,
}
use orda_book.Prelude.Int.{eqb_ℤ→eq}
use orda_book.Types.{Side}
use orda_book.Engine.{opposite}
use orda_book.OrderBook.State
use orda_book.OrderBook.State.{Order, OrderBook, OrderLocation}
use orda_book.OrderBook.Levels.{empty_level, unlink_order, level_at}
use orda_book.Pooled.State.{
  SlotIndex, new_slot, SlotArray, write, PriceLevel, Pool, PooledOrderBook, side_levels, find_slot,
  erase_slot,
}
use orda_book.Pooled.Slots.{remove_order, unlink_slot}
use orda_book.Pooled.Releasing.{kept_levels, removed_from, remove_order-call}
use orda_book.Pooled.Matching.{Matching}
use orda_book.Pooled.Linked.{
  Cell, LinkedLevel, pooled_level, base_level, slot_of, first_or, last_or, Linked, Linked-split,
  Linked-write, FreeChain, FreeChain-frame, FreeChain-free, Linked-free, FreeChain-live, Off,
  write_here, write_there, Apart, Distinct,
}
use orda_book.Pooled.Keys.{Indexed, find-erase_slot, Indexed-erase_slot, slot_keys, location_keys}
use orda_book.Pooled.Split.{find_level-split, base_find_level-split}
use orda_book.Pooled.Unlinking.{Unlinked, unlink_slot-Unlinked, Distinct-split, Distinct-join}
use orda_book.Pooled.Locating.{InLevels, order_at-cells}
use orda_book.Pooled.Matching.Drop.{level_of, Apart-Off, Apart-ids}
use orda_book.Pooled.Matching.Tracks.{Holds, Frame, Within}
use orda_book.Pooled.Matching.Walk.{
  AllHold, AllHold-Frame, Across, Across-sym, Across-Within, cells_of,
}
use orda_book.Pooled.Holding.{AllHold-here, AllHold-replace, Across-unlevels, Within-levels}
use orda_book.Pooled.Represents.{matching_of, Represents, slot_count}

-- What a call for a live order leaves.
pub record Removed (id : ℕ) (side : Side) (p : PooledOrderBook) (b : OrderBook)
    (rep : Represents side p b) (r : Option PooledOrderBook) (b' : OrderBook) : Type 0 where
  pub book : PooledOrderBook
  pub result : r ≡ some book
  pub after : Represents side book b'
  pub slots_kept : slot_count after ≡ slot_count rep
  pub freed : book.pool.free_head ≢ 0
  pub absent : find_slot id book.order_index ≡ none
  pub opposite_kept : after.other ≡ rep.other

module _ (id : ℕ) (side : Side) (l : OrderLocation) (p : PooledOrderBook) (b : OrderBook)
    (rep : Represents side p b) (at : InLevels side id l rep.own) where
  abbrev pub here : LinkedLevel
  here = at.found.here

  abbrev pub cell : Cell
  cell = at.inside.cell

  abbrev pub xs : List Cell
  xs = at.inside.xs

  abbrev pub ys : List Cell
  ys = at.inside.ys

  abbrev pub before_remove : Matching
  before_remove = matching_of 0 [] p

  own_hold : AllHold before_remove (at.found.before ++ (here ∷ at.found.after))
  own_hold = rw at.found.whole at rep.own_hold

  here_hold :
      Holds before_remove here.cells
      × Across here.cells (cells_of at.found.before)
      × Across here.cells (cells_of at.found.after)
  here_hold = AllHold-here before_remove at.found.before at.found.after here own_hold

  chain : Linked p.pool.slots 0 (xs ++ (cell ∷ ys)) 0
  chain = rw at.inside.whole at here_hold.0.chain

  distinct : Distinct (xs ++ (cell ∷ ys))
  distinct = rw at.inside.whole at here_hold.0.distinct

  pub indexed : Indexed p.order_index (xs ++ (cell ∷ ys))
  indexed = rw at.inside.whole at here_hold.0.indexed

  -- The level without the order.
  abbrev pub shorter : LinkedLevel
  shorter = level_of here.price (here.total_qty - cell.order.qty) (xs ++ ys)

  abbrev pub whole : LinkedLevel
  whole = level_of here.price here.total_qty (xs ++ (cell ∷ ys))

  abbrev pub unlinked : PriceLevel × SlotArray
  unlinked = unlink_slot (pooled_level whole) cell.slot p.pool.slots

  is_unlinked : Unlinked cell xs ys shorter p.pool.slots unlinked
  is_unlinked =
      unlink_slot-Unlinked here.price here.total_qty cell xs ys p.pool.slots chain distinct

  pub cell_slot : p.pool.slots cell.slot ≡ slot_of cell.order (last_or 0 xs) (first_or 0 ys)
  cell_slot = (Linked-split p.pool.slots 0 0 xs (cell ∷ ys) chain).1.1

  parts : Distinct xs × Distinct (cell ∷ ys) × All (λ x. All (Apart x) (cell ∷ ys)) xs
  parts = Distinct-split xs (cell ∷ ys) distinct

  Off-cell : Off cell.slot (xs ++ ys)
  Off-cell =
      All-append _ xs ys (All-mono _ _ (λ x a. a.0.0) xs parts.2) (Apart-Off cell ys parts.1.0)

  ids_cell : All (λ c. c.order.order_id ≢ id) (xs ++ ys)
  ids_cell =
      All-mono _ _ (λ c n e. n (e ∙ sym at.inside.named)) (xs ++ ys)
        (All-append _ xs ys (All-mono _ _ (λ x a. a.0.1) xs parts.2) (Apart-ids cell ys parts.1.0))

  -- The pool after the call.
  abbrev pub released : Pool
  released = record {
    slots = write cell.slot (record new_slot { free_next = p.pool.free_head }) unlinked.1;
    free_head = cell.slot;
  }

  abbrev pub after_remove : Matching
  after_remove = record before_remove { pool = released; order_index = erase_slot id p.order_index }

  released_kept : (j : SlotIndex) → Off j (xs ++ (cell ∷ ys)) → released.slots j ≡ p.pool.slots j
  released_kept j o =
      write_there cell.slot j _ unlinked.1
        (λ q. (All-split (λ c. c.slot ≢ j) xs (cell ∷ ys) o).1.0 (sym q))
      ∙ is_unlinked.kept j o

  removed-Frame : Frame (xs ++ (cell ∷ ys)) before_remove after_remove
  removed-Frame = record {
    slot_kept = released_kept;
    index_kept = λ k o.
        let m = (All-split (λ c. c.order.order_id ≢ k) xs (cell ∷ ys) o).1.0 in
        find-erase_slot k id p.order_index ∙ rw (ne→== (λ q. m (at.inside.named ∙ q))) refl;
  }

  shorter_hold : Holds after_remove (xs ++ ys)
  shorter_hold = record {
    chain = Linked-write cell.slot _ unlinked.1 0 0 (xs ++ ys) Off-cell is_unlinked.chain;
    indexed =
        let (u, v) = All-split _ xs (cell ∷ ys) indexed in
        Indexed-erase_slot id p.order_index (xs ++ ys) ids_cell (All-append _ xs ys u v.1);
    distinct = Distinct-join xs ys parts.0 parts.1.1 (All-mono _ _ (λ x a. a.1) xs parts.2);
  }

  shrinks : Within (xs ++ (cell ∷ ys)) (xs ++ ys)
  shrinks P h = let (u, v) = All-split _ xs (cell ∷ ys) h in All-append _ xs ys u v.1

  free_after : FreeChain released.slots cell.slot (cell.slot ∷ rep.frees)
  free_after =
      let here_now =
        write_here cell.slot (record new_slot { free_next = p.pool.free_head }) unlinked.1 in
      (
        refl,
        (Linked-split p.pool.slots 0 0 xs (cell ∷ ys) chain).1.0,
        rw here_now refl,
        FreeChain-live p.pool.slots p.pool.free_head cell.slot rep.frees rep.agree.free
            (rw cell_slot refl),
        rw here_now (
            FreeChain-frame p.pool.slots released.slots p.pool.free_head rep.frees
              (All-mono _ _
                (λ j f.
                  released_kept j (Linked-free p.pool.slots 0 0 j (xs ++ (cell ∷ ys)) f chain))
                rep.frees (FreeChain-free p.pool.slots p.pool.free_head rep.frees rep.agree.free))
              rep.agree.free),
      )

  -- The levels before the call, the level of the order written out.
  abbrev pub before : List LinkedLevel
  before = at.found.before

  abbrev pub after : List LinkedLevel
  after = at.found.after

  pub own_whole : rep.own ≡ before ++ (whole ∷ after)
  own_whole =
      at.found.whole
      ∙ ap (λ cs. before ++ (level_of here.price here.total_qty cs ∷ after)) at.inside.whole

  pub at_price : cell.order.price ≡ l.level
  at_price = at.at_price ∙ eqb_ℤ→eq here.price l.level at.found.priced

  own_pooled : side_levels side p ≡ map pooled_level (before ++ (whole ∷ after))
  own_pooled = rep.own_pooled ∙ ap (map pooled_level) own_whole

  pub own_base : State.side_levels side b ≡ map base_level (before ++ (whole ∷ after))
  own_base = rep.own_base ∙ ap (map base_level) own_whole

  pub call :
      (kept : List PriceLevel)
      → kept_levels l.level (pooled_level shorter) (map pooled_level (before ++ (whole ∷ after)))
        ≡ kept
      → remove_order id cell.slot p ≡ some (removed_from id cell.slot p side kept unlinked.1)
  call kept k =
      remove_order-call id cell.slot p side l.level _ kept (pooled_level whole) unlinked
        ((λ t. (cell_slot t).side) ∙ at.on_side) ((λ t. (cell_slot t).price) ∙ at_price) own_pooled
        (find_level-split l.level whole after at.found.priced before at.found.unpriced) refl
        (ap (λ level. kept_levels l.level level (map pooled_level (before ++ (whole ∷ after))))
            is_unlinked.level
          ∙ k)

  -- What the baseline's call writes to the level.
  pub base_unlinked :
      l.order_it ≡ id
      → unlink_order l.order_it (level_at l.level (State.side_levels side b)) ≡ base_level shorter
  unfolding unlink_order level_at
  base_unlinked e =
      let (o, r) = order_at-cells id xs cell ys at.inside.named at.inside.others in
      let found =
        base_find_level-split l.level whole after at.found.priced before at.found.unpriced in
      let there : level_at l.level (State.side_levels side b) ≡ base_level whole =
        ap (level_at l.level) own_base
        ∙ ap
            (λ (o : Option State.PriceLevel). elim o [
              | some level ↦ level
              | none ↦ empty_level l.level
            ])
            found in
      (λ t. unlink_order (e t) (there t))
      ∙ (λ t. record { price = here.price; total_qty = here.total_qty - (o t).qty; orders = r t })

  -- The order's side afterwards, where the level stays.
  pub stays_hold : AllHold after_remove (before ++ (shorter ∷ after))
  stays_hold =
      AllHold-replace (xs ++ (cell ∷ ys)) whole shorter after before_remove after_remove
        removed-Frame shrinks shorter_hold (rw at.inside.whole at here_hold.2) before
        (rw at.inside.whole at here_hold.1) (rw own_whole at rep.own_hold)

  other-Across : Across (xs ++ (cell ∷ ys)) (cells_of rep.other)
  other-Across =
      let (_, v, _) = Across-unlevels (cells_of rep.other) before after whole (
        Across-sym (cells_of (before ++ (whole ∷ after))) (cells_of rep.other)
          (rw own_whole at rep.across)) in
      Across-sym (cells_of rep.other) (xs ++ (cell ∷ ys)) v

  pub stays-Within : Within (cells_of rep.own) (cells_of (before ++ (shorter ∷ after)))
  stays-Within = rw own_whole (Within-levels before after whole shorter shrinks)

  -- The books that the calls leave, whatever the side.
  pub removed_after :
      (gs : List LinkedLevel) (p' : PooledOrderBook) (b' : OrderBook)
      → (r : Option PooledOrderBook) → r ≡ some p'
      → side_levels side p' ≡ map pooled_level gs
      → side_levels (opposite side) p' ≡ side_levels (opposite side) p
      → State.side_levels side b' ≡ map base_level gs
      → State.side_levels (opposite side) b' ≡ State.side_levels (opposite side) b
      → matching_of 0 [] p' ≡ after_remove
      → slot_keys (erase_slot id p.order_index) ≡ location_keys b'.order_index
      → b.stats ≡ b'.stats
      → AllHold after_remove gs
      → Within (cells_of rep.own) (cells_of gs)
      → length (cells_of gs) + 1 ≡ length (cells_of rep.own)
      → Removed id side p b rep r b'
  removed_after gs p' b' r e f g h i m k s a w n = record {
    book = p';
    result = e;
    after = record {
      own = gs;
      other = rep.other;
      frees = cell.slot ∷ rep.frees;
      own_pooled = f;
      other_pooled = g ∙ rep.other_pooled;
      own_base = h;
      other_base = i ∙ rep.other_base;
      agree = rw m (record {
        incoming = refl;
        counters = rep.agree.counters ∙ s;
        fills = refl;
        keys = k;
        free = free_after;
      });
      own_hold = rw m a;
      other_hold = rw m (
          AllHold-Frame (xs ++ (cell ∷ ys)) rep.other before_remove after_remove removed-Frame
            other-Across rep.other_hold);
      across =
          Across-Within (cells_of rep.own) (cells_of gs) (cells_of rep.other) (cells_of rep.other) w
            (λ P q. q) rep.across;
    };
    slots_kept = omega (arith, n);
    freed = λ q.
        (Linked-split p.pool.slots 0 0 xs (cell ∷ ys) chain).1.0
          (sym (λ t. (m t).pool.free_head) ∙ q);
    absent =
        ap (λ (t : Matching). find_slot id t.order_index) m
        ∙ find-erase_slot id id p.order_index
        ∙ rw (==_refl id) refl;
    opposite_kept = refl;
  }
