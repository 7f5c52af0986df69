-- ===== src/Pooled/Resting.antt =====
-- `add_resting_order` of src/pooled_order_book.cpp.
use orda_book.Prelude.{
  ℕ, ◌+◌, ◌≡◌, ◌≢◌, ◌∙◌, refl, sym, ap, ne→==, ==_refl, ◌⊎◌, inl, inr, Option, none, some, List, [],
  ◌∷◌, ◌++◌, All-split, All-append, All-both, length, length-append, map, arith,
}
use orda_book.Prelude.Int.{eqb_ℤ_refl}
use orda_book.Types.{Price, Side, bid, ask}
use orda_book.Engine.{opposite}
use orda_book.OrderBook.State
use orda_book.OrderBook.State.{Order, OrderBook}
use orda_book.OrderBook.Levels
use orda_book.OrderBook.Levels.{push_order}
use orda_book.Pooled.State.{
  SlotIndex, SlotArray, PriceLevel, PooledOrderBook, side_levels, with_levels, find_slot,
  emplace_slot, ensure_level, update_level,
}
use orda_book.Pooled.Slots.{add_resting_order, append_slot}
use orda_book.Pooled.Allocating.{taken, with_order, add_resting_order-call}
use orda_book.Pooled.Matching.{Matching}
use orda_book.Pooled.Linked.{
  orders_of-append, Cell, LinkedLevel, pooled_level, base_level, Linked-free, Linked-write,
  FreeChain, FreeChain-free, FreeChain-frame, Off, write_here, write_there,
}
use orda_book.Pooled.Keys.{
  Indexed-emplace, find-emplace_slot, emplace_keys, slot_keys, location_keys,
}
use orda_book.Pooled.Split.{
  Ensured, ensure_level-Ensured, find_level-split, update_level-split, base_update_level-split,
}
use orda_book.Pooled.Appending.{Appended, append_slot-Appended, Distinct-snoc}
use orda_book.Pooled.Matching.Drop.{level_of}
use orda_book.Pooled.Matching.Tracks.{Holds, Frame}
use orda_book.Pooled.Matching.Walk.{AllHold, AllHold-Frame, Across, Across-sym, cells_of}
use orda_book.Pooled.Holding.{
  cells_of-insert, AllHold-insert, AllHold-here, AllHold-replace, fresh-Across, Across-join,
  Across-unlevels, Across-levels, length-levels,
}
use orda_book.Pooled.Represents.{matching_of, Represents}

-- The levels that `ensure_level` leaves hold what the levels before it held.
pub Ensured-hold :
    (m : Matching) (side : Side) (price : Price) (gs : List LinkedLevel) (e : Ensured side price gs)
    → AllHold m gs
    → AllHold m e.levels × (cells_of e.levels ≡ cells_of gs)
Ensured-hold m side price gs e h = elim e.grown [
  | inl q ↦ (rw q h, ap cells_of q)
  | inr (xs, ys, q, r) ↦ (
    rw r (AllHold-insert m price 0 xs ys (rw q at h)),
    ap cells_of r ∙ cells_of-insert price 0 xs ys ∙ ap cells_of (sym q),
  )
]

-- What a call on a book with a free slot leaves.
pub record Rested (side : Side) (p : PooledOrderBook) (b : OrderBook) (rep : Represents side p b)
    (r : Option PooledOrderBook) (b' : OrderBook) : Type 0 where
  pub book : PooledOrderBook
  pub result : r ≡ some book
  pub after : Represents side book b'
  pub own_kept : length (cells_of after.own) ≡ length (cells_of rep.own) + 1
  pub other_kept : after.other ≡ rep.other
  pub free_kept : length after.frees + 1 ≡ length rep.frees

module _ (id : ℕ) (side : Side) (price : Price) (qty : ℕ) (p : PooledOrderBook) (b : OrderBook)
    (rep : Represents side p b) (n : find_slot id p.order_index ≡ none) (i : SlotIndex)
    (is : List SlotIndex) (first : rep.frees ≡ i ∷ is)
    (free : FreeChain p.pool.slots p.pool.free_head (i ∷ is)) where
  abbrev before_add : Matching
  before_add = matching_of 0 [] p

  abbrev new_cell : Cell
  new_cell = record {
    slot = i;
    order = record { order_id = id; side = side; price = price; qty = qty };
  }

  abbrev filled_slots : SlotArray
  filled_slots = with_order new_cell.order i p.pool.slots

  filled_there : (j : SlotIndex) → j ≢ i → filled_slots j ≡ p.pool.slots j
  filled_there j q =
      write_there i j _ (taken i p.pool.slots).slots q ∙ write_there i j _ p.pool.slots q

  ensured : Ensured side price rep.own
  ensured = ensure_level-Ensured side price rep.own (eqb_ℤ_refl price)

  abbrev before : List LinkedLevel
  before = ensured.found.before

  abbrev after : List LinkedLevel
  after = ensured.found.after

  abbrev here : LinkedLevel
  here = ensured.found.here

  abbrev grown : LinkedLevel
  grown = level_of here.price (here.total_qty + qty) (here.cells ++ (new_cell ∷ []))

  ensured_hold :
      AllHold before_add (before ++ (here ∷ after))
      × (cells_of (before ++ (here ∷ after)) ≡ cells_of rep.own)
  ensured_hold =
      rw ensured.found.whole at (Ensured-hold before_add side price rep.own ensured rep.own_hold)

  here_hold :
      Holds before_add here.cells
      × Across here.cells (cells_of before)
      × Across here.cells (cells_of after)
  here_hold = AllHold-here before_add before after here ensured_hold.0

  here-Off : Off i here.cells
  here-Off = Linked-free p.pool.slots 0 0 i here.cells free.2 here_hold.0.chain

  abbrev joined : PriceLevel × SlotArray
  joined = append_slot (pooled_level here) i filled_slots

  appended : Appended new_cell here.cells grown filled_slots joined
  appended =
      append_slot-Appended new_cell here.cells here.price here.total_qty filled_slots free.1
        (write_here i _ (taken i p.pool.slots).slots) here-Off here_hold.0.distinct
        (Linked-write i _ (taken i p.pool.slots).slots 0 0 here.cells here-Off
          (Linked-write i _ p.pool.slots 0 0 here.cells here-Off here_hold.0.chain))

  joined_there :
      (j : SlotIndex) → Off j (here.cells ++ (new_cell ∷ [])) → joined.1 j ≡ p.pool.slots j
  joined_there j o =
      appended.kept j o
      ∙ filled_there j (λ q. (All-split (λ c. c.slot ≢ j) here.cells (new_cell ∷ []) o).1.0 (sym q))

  -- The book that the call leaves.
  abbrev rested : PooledOrderBook
  rested = record (with_levels side (map pooled_level (before ++ (grown ∷ after))) p) {
    pool = record { slots = joined.1; free_head = (p.pool.slots i).free_next };
    order_index = emplace_slot id i p.order_index;
  }

  levels_before :
      ensure_level side price (side_levels side p) ≡ map pooled_level (before ++ (here ∷ after))
  levels_before =
      ap (ensure_level side price) rep.own_pooled
      ∙ ensured.pooled
      ∙ ap (map pooled_level) ensured.found.whole

  base_after :
      Levels.update_level price
        (push_order new_cell.order)
        (Levels.ensure_level side price (State.side_levels side b))
      ≡ map base_level (before ++ (grown ∷ after))
  unfolding push_order
  base_after =
      ap (Levels.update_level price (push_order new_cell.order)) (
        ap (Levels.ensure_level side price) rep.own_base
        ∙ ensured.base
        ∙ ap (map base_level) ensured.found.whole)
      ∙ base_update_level-split price here after ensured.found.priced grown
          (push_order new_cell.order) before
          (λ k. record {
            price = here.price;
            total_qty = here.total_qty + qty;
            orders = sym (orders_of-append here.cells (new_cell ∷ [])) k;
          })
          ensured.found.unpriced

  call : add_resting_order id side price qty p ≡ some rested
  call =
      add_resting_order-call new_cell.order p i free.0 free.1 _ _ (pooled_level here) joined
        levels_before
        (find_level-split price here after ensured.found.priced before ensured.found.unpriced) refl
        (ap (λ level. update_level price level (map pooled_level (before ++ (here ∷ after))))
            appended.level
          ∙ update_level-split price here after ensured.found.priced grown before
              ensured.found.unpriced)

  abbrev after_add : Matching
  after_add = matching_of 0 [] rested

  abbrev touched : List Cell
  touched = here.cells ++ (new_cell ∷ [])

  touched-Frame : Frame touched before_add after_add
  touched-Frame = record {
    slot_kept = joined_there;
    index_kept = λ k o.
        let m = (All-split (λ c. c.order.order_id ≢ k) here.cells (new_cell ∷ []) o).1.0 in
        find-emplace_slot k id i p.order_index n ∙ rw (ne→== m) refl;
  }

  touched_fresh : Across (new_cell ∷ []) (cells_of (before ++ (here ∷ after)))
  touched_fresh = fresh-Across new_cell before_add _ free.2 n ensured_hold.0

  touched-Across :
      Across touched (cells_of before)
      × Across (new_cell ∷ []) here.cells
      × Across touched (cells_of after)
  touched-Across =
      let (u, v, w) = Across-unlevels (new_cell ∷ []) before after here touched_fresh in
      (
        Across-join here.cells (new_cell ∷ []) (cells_of before) here_hold.1 u,
        v,
        Across-join here.cells (new_cell ∷ []) (cells_of after) here_hold.2 w,
      )

  grown_hold : Holds after_add touched
  grown_hold = record {
    chain = appended.chain;
    indexed =
        All-append _ here.cells (new_cell ∷ [])
          (Indexed-emplace id i p.order_index here.cells n here_hold.0.indexed)
          (find-emplace_slot id id i p.order_index n ∙ rw (==_refl id) refl, tt);
    distinct = Distinct-snoc new_cell here.cells here_hold.0.distinct touched-Across.1;
  }

  own_hold : AllHold after_add (before ++ (grown ∷ after))
  own_hold =
      AllHold-replace touched here grown after before_add after_add touched-Frame (λ P h. h)
        grown_hold touched-Across.2 before touched-Across.0 ensured_hold.0

  other-Across : Across touched (cells_of rep.other)
  other-Across =
      let (u, v, w) = Across-unlevels (cells_of rep.other) before after here (
        Across-sym (cells_of (before ++ (here ∷ after))) (cells_of rep.other)
          (rw ensured_hold.1 rep.across)) in
      Across-join here.cells (new_cell ∷ []) (cells_of rep.other)
        (Across-sym (cells_of rep.other) here.cells v)
        (fresh-Across new_cell before_add rep.other free.2 n rep.other_hold)

  abbrev base_rested : OrderBook
  base_rested = Levels.add_resting_order id side price qty b

  free_after : FreeChain joined.1 (p.pool.slots i).free_next is
  free_after =
      FreeChain-frame p.pool.slots joined.1 (p.pool.slots i).free_next is
        (All-both _ _ _
          (λ j l d. joined_there j (
            All-append _ here.cells (new_cell ∷ [])
              (Linked-free p.pool.slots 0 0 j here.cells l here_hold.0.chain)
              ((λ q. d (sym q)), tt)))
          is (FreeChain-free p.pool.slots (p.pool.slots i).free_next is free.4) free.3)
        free.4

  grown-Across : Across (cells_of (before ++ (grown ∷ after))) (cells_of rep.other)
  grown-Across =
      let (u, _, w) = Across-unlevels (cells_of rep.other) before after here (
        Across-sym (cells_of (before ++ (here ∷ after))) (cells_of rep.other)
          (rw ensured_hold.1 rep.across)) in
      Across-sym (cells_of rep.other) (cells_of (before ++ (grown ∷ after))) (
        Across-levels (cells_of rep.other) before after grown u
          (Across-sym touched (cells_of rep.other) other-Across) w)

  grown_count : length (cells_of (before ++ (grown ∷ after))) ≡ length (cells_of rep.own) + 1
  grown_count = omega (
    arith,
    ap length ensured_hold.1,
    length-levels before after here,
    length-levels before after grown,
    length-append here.cells (new_cell ∷ []),
  )

  -- The books that the calls leave, whatever the side.
  rested_after :
      State.side_levels side base_rested ≡ map base_level (before ++ (grown ∷ after))
      → State.side_levels (opposite side) base_rested ≡ State.side_levels (opposite side) b
      → side_levels side rested ≡ map pooled_level (before ++ (grown ∷ after))
      → side_levels (opposite side) rested ≡ side_levels (opposite side) p
      → slot_keys rested.order_index ≡ location_keys base_rested.order_index
      → rested.stats ≡ base_rested.stats
      → Rested side p b rep (add_resting_order id side price qty p) base_rested
  rested_after e f g h k s = record {
    book = rested;
    result = call;
    after = record {
      own = before ++ (grown ∷ after);
      other = rep.other;
      frees = is;
      own_pooled = g;
      other_pooled = h ∙ rep.other_pooled;
      own_base = e;
      other_base = f ∙ rep.other_base;
      agree = record { incoming = refl; counters = s; fills = refl; keys = k; free = free_after };
      own_hold = own_hold;
      other_hold =
          AllHold-Frame touched rep.other before_add after_add touched-Frame other-Across
            rep.other_hold;
      across = grown-Across;
    };
    own_kept = grown_count;
    other_kept = refl;
    free_kept = omega (arith, ap length first);
  }

frees-cases :
    (is : List SlotIndex) → (is ≡ []) ⊎ ((i : SlotIndex) × (js : List SlotIndex) × (is ≡ i ∷ js))
frees-cases [] = inl refl
frees-cases (i ∷ is) = inr (i, is, refl)

Rested-bid :
    (id : ℕ) (price : Price) (qty : ℕ) (p : PooledOrderBook) (b : OrderBook)
    (rep : Represents bid p b)
    → find_slot id p.order_index ≡ none
    → (i : SlotIndex) (is : List SlotIndex) → rep.frees ≡ i ∷ is
    → FreeChain p.pool.slots p.pool.free_head (i ∷ is)
    → Rested bid p b rep
        (add_resting_order id bid price qty p)
        (Levels.add_resting_order id bid price qty b)
unfolding Levels.add_resting_order
Rested-bid id price qty p b rep n i is e f =
    rested_after id bid price qty p b rep n i is e f
      (base_after id bid price qty p b rep n i is e f) refl refl refl
      (emplace_keys id i _ p.order_index b.order_index rep.agree.keys n) rep.agree.counters

Rested-ask :
    (id : ℕ) (price : Price) (qty : ℕ) (p : PooledOrderBook) (b : OrderBook)
    (rep : Represents ask p b)
    → find_slot id p.order_index ≡ none
    → (i : SlotIndex) (is : List SlotIndex) → rep.frees ≡ i ∷ is
    → FreeChain p.pool.slots p.pool.free_head (i ∷ is)
    → Rested ask p b rep
        (add_resting_order id ask price qty p)
        (Levels.add_resting_order id ask price qty b)
unfolding Levels.add_resting_order
Rested-ask id price qty p b rep n i is e f =
    rested_after id ask price qty p b rep n i is e f
      (base_after id ask price qty p b rep n i is e f) refl refl refl
      (emplace_keys id i _ p.order_index b.order_index rep.agree.keys n) rep.agree.counters

-- On a book that holds the orders of the baseline's and has a free slot, for an id that the index
-- lacks, the call throws nothing and leaves a book that holds the orders of the book that the
-- baseline's call leaves; one slot fewer is free, the side has one order more, and the other side
-- stays.
pub add_resting_order-Rested :
    (id : ℕ) (side : Side) (price : Price) (qty : ℕ) (p : PooledOrderBook) (b : OrderBook)
    (rep : Represents side p b)
    → find_slot id p.order_index ≡ none
    → p.pool.free_head ≢ 0
    → Rested side p b rep
        (add_resting_order id side price qty p)
        (Levels.add_resting_order id side price qty b)
add_resting_order-Rested id side price qty p b rep n h = elim (frees-cases rep.frees) [
  | inl e ↦ absurd (h (rw e at rep.agree.free))
  | inr (i, is, e) ↦ at_side side rep i is e (rw e at rep.agree.free)
]
  where
    at_side :
        (s : Side) (r : Represents s p b) (i : SlotIndex) (is : List SlotIndex)
        → r.frees ≡ i ∷ is
        → FreeChain p.pool.slots p.pool.free_head (i ∷ is)
        → Rested s p b r
            (add_resting_order id s price qty p)
            (Levels.add_resting_order id s price qty b)
    at_side bid r i is e f = Rested-bid id price qty p b r n i is e f
    at_side ask r i is e f = Rested-ask id price qty p b r n i is e f
