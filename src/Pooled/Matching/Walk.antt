-- ===== src/Pooled/Matching/Walk.antt =====
-- The outer loop of `match_incoming`, in src/pooled_order_book.cpp as in src/order_book.cpp.
use orda_book.Prelude.{
  ◌+◌, ◌≡◌, ◌≢◌, refl, sym, ap, List, [], ◌∷◌, ◌++◌, All, All-append, All-split, All-mono, All-swap,
  length, length-append, map, arith,
}
use orda_book.OrderBook.Matching
use orda_book.OrderBook.State
use orda_book.Pooled.State.{SlotIndex, PriceLevel}
use orda_book.Pooled.Matching.{Matching}
use orda_book.Pooled.Linked.{Cell, LinkedLevel, pooled_level, base_level, Linked-frame, Apart}
use orda_book.Pooled.Keys.{Indexed-frame}
use orda_book.Pooled.Matching.Tracks.{Agree, Holds, Frame, Frame-trans, Within, Run}

abbrev pub cells_of : List LinkedLevel → List Cell
cells_of [] = []
cells_of (g ∷ gs) = g.cells ++ cells_of gs

-- No cell of the one list has the slot or the id of a cell of the other.
abbrev pub Across : List Cell → List Cell → Type 0
Across cs = All (λ d. All (λ c. Apart c d) cs)

abbrev pub AllHold : Matching → List LinkedLevel → Type 0
AllHold p [] = Unit {0}
AllHold p (g ∷ gs) = Holds p g.cells × Across g.cells (cells_of gs) × AllHold p gs

pub Across-Within :
    (cs cs' ds ds' : List Cell) → Within cs cs' → Within ds ds' → Across cs ds → Across cs' ds'
Across-Within cs cs' ds ds' w v h =
    v (λ i k. All (λ c. (c.slot ≢ i) × (c.order.order_id ≢ k)) cs')
      (All-mono _ _ (λ d. w (λ i k. (i ≢ d.slot) × (k ≢ d.order.order_id))) ds h)

pub Across-sym : (cs ds : List Cell) → Across cs ds → Across ds cs
Across-sym cs ds h =
    All-mono _ _ (λ c. All-mono _ _ (λ d a. ((λ e. a.0 (sym e)), (λ e. a.1 (sym e)))) ds) cs
      (All-swap (λ d c. Apart c d) ds cs h)

pub Holds-Frame :
    (cs ds : List Cell) (p p' : Matching) → Frame cs p p' → Across cs ds → Holds p ds → Holds p' ds
Holds-Frame cs ds p p' f x h = record {
  chain =
      Linked-frame p.pool.slots p'.pool.slots 0 0 ds
        (All-mono _ _ (λ d o. f.slot_kept d.slot (All-mono _ _ (λ c a. a.0) cs o)) ds x) h.chain;
  indexed =
      Indexed-frame p.order_index p'.order_index ds
        (All-mono _ _ (λ d o. f.index_kept d.order.order_id (All-mono _ _ (λ c a. a.1) cs o)) ds x)
        h.indexed;
  distinct = h.distinct;
}

pub AllHold-Frame :
    (cs : List Cell) (gs : List LinkedLevel) (p p' : Matching)
    → Frame cs p p'
    → Across cs (cells_of gs)
    → AllHold p gs
    → AllHold p' gs
AllHold-Frame cs [] p p' f x h = tt
AllHold-Frame cs (g ∷ gs) p p' f x (h, a, hs) =
    let (y, z) = All-split (λ d. All (λ c. Apart c d) cs) g.cells (cells_of gs) x in
    (Holds-Frame cs g.cells p p' f y h, a, AllHold-Frame cs gs p p' f z hs)

pub Within-append :
    (cs cs' ds ds' : List Cell) → Within cs cs' → Within ds ds' → Within (cs ++ ds) (cs' ++ ds')
Within-append cs cs' ds ds' w v P h =
    let (a, b) = All-split (λ c. P c.slot c.order.order_id) cs ds h in
    All-append _ cs' ds' (w P a) (v P b)

-- A frame of fewer cells is one of more.
Frame-grow : (cs cs' : List Cell) (p p' : Matching) → Within cs' cs → Frame cs p p' → Frame cs' p p'
Frame-grow cs cs' p p' w f = record {
  slot_kept = λ j o. f.slot_kept j (w (λ i _. i ≢ j) o);
  index_kept = λ id o. f.index_kept id (w (λ _ k. k ≢ id) o);
}

-- From a side's levels, the two loops leave the same levels.
pub record Walked (gs : List LinkedLevel) (frees : List SlotIndex) (p : Matching)
    (r : List PriceLevel × Matching) (b : List State.PriceLevel × Matching.Matching) : Type 1 where
  pub levels : List LinkedLevel
  pub left : List SlotIndex
  pub pooled : r.0 ≡ map pooled_level levels
  pub base : b.0 ≡ map base_level levels
  pub agree : Agree r.1 b.1 left
  pub hold : AllHold r.1 levels
  pub within : Within (cells_of gs) (cells_of levels)
  pub frame : Frame (cells_of gs) p r.1
  pub slots_kept : length left + length (cells_of levels) ≡ length frees + length (cells_of gs)

pub Walked-stop :
    (gs : List LinkedLevel) (frees : List SlotIndex) (p : Matching) (b : Matching.Matching)
    → Agree p b frees
    → AllHold p gs
    → Walked gs frees p (map pooled_level gs, p) (map base_level gs, b)
Walked-stop gs frees p b a h = record {
  levels = gs;
  left = frees;
  pooled = refl;
  base = refl;
  agree = a;
  hold = h;
  within = λ P q. q;
  frame = record { slot_kept = λ j o. refl; index_kept = λ id o. refl };
  slots_kept = refl;
}

module _ (g : LinkedLevel) (gs : List LinkedLevel) (frees : List SlotIndex) (p : Matching)
    (r : PriceLevel × Matching) (b : State.PriceLevel × Matching.Matching)
    (x : Across g.cells (cells_of gs)) (run : Run g frees p r b) (rest : List PriceLevel × Matching)
    (base_rest : List State.PriceLevel × Matching.Matching)
    (walk : Walked gs run.left r.1 rest base_rest) where
  walked-Frame : Frame (g.cells ++ cells_of gs) p rest.1
  walked-Frame =
      let v : Within (g.cells ++ cells_of gs) g.cells =
        λ P h. (All-split (λ c. P c.slot c.order.order_id) g.cells (cells_of gs) h).0 in
      let w : Within (g.cells ++ cells_of gs) (cells_of gs) =
        λ P h. (All-split (λ c. P c.slot c.order.order_id) g.cells (cells_of gs) h).1 in
      Frame-trans (g.cells ++ cells_of gs) (g.cells ++ cells_of gs) p r.1 rest.1 (λ P h. h)
        (Frame-grow g.cells _ p r.1 v run.frame)
        (Frame-grow (cells_of gs) _ r.1 rest.1 w walk.frame)

  -- The level stays.
  pub walked_kept : Walked (g ∷ gs) frees p (r.0 ∷ rest.0, rest.1) (b.0 ∷ base_rest.0, base_rest.1)
  walked_kept = record {
    levels = run.level ∷ walk.levels;
    left = walk.left;
    pooled = rw (run.pooled, walk.pooled) refl;
    base = rw (run.base, walk.base) refl;
    agree = walk.agree;
    hold = (
      Holds-Frame (cells_of gs) run.level.cells r.1 rest.1 walk.frame
          (Across-sym run.level.cells (cells_of gs) (
            Across-Within g.cells run.level.cells (cells_of gs) (cells_of gs) run.within (λ P h. h)
              x))
          run.holds,
      Across-Within g.cells run.level.cells (cells_of gs) (cells_of walk.levels) run.within
          walk.within x,
      walk.hold,
    );
    within =
        Within-append g.cells run.level.cells (cells_of gs) (cells_of walk.levels) run.within
          walk.within;
    frame = walked-Frame;
    slots_kept = omega (
      arith,
      length-append g.cells (cells_of gs),
      length-append run.level.cells (cells_of walk.levels),
      run.slots_kept,
      walk.slots_kept,
    );
  }

  -- The level is erased.
  pub walked_erased : run.level.cells ≡ [] → Walked (g ∷ gs) frees p rest base_rest
  walked_erased e = record {
    levels = walk.levels;
    left = walk.left;
    pooled = walk.pooled;
    base = walk.base;
    agree = walk.agree;
    hold = walk.hold;
    within = Within-append g.cells [] (cells_of gs) (cells_of walk.levels) (λ P h. tt) walk.within;
    frame = walked-Frame;
    slots_kept =
        omega (
          arith,
          length-append g.cells (cells_of gs),
          ap length e,
          run.slots_kept,
          walk.slots_kept,
        );
  }
