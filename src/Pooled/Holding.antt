-- ===== src/Pooled/Holding.antt =====
-- Levels in the slots of src/pooled_order_book.cpp, when one of them changes and the rest stay.
use orda_book.Prelude.{
  ℕ, ◌+◌, ◌≡◌, ◌≢◌, refl, sym, ap, false, none, List, [], ◌∷◌, ◌++◌, All, All-append, All-split,
  All-mono, All-both, ◌+◌, length, length-append, arith,
}
use mathlib.Core.List.{append_assoc}
use orda_book.Types.{Price}
use orda_book.Pooled.State.{find_slot}
use orda_book.Pooled.Matching.{Matching}
use orda_book.Pooled.Linked.{Cell, LinkedLevel, Linked-free, Apart}
use orda_book.Pooled.Keys.{Indexed}
use orda_book.Pooled.Matching.Drop.{level_of}
use orda_book.Pooled.Matching.Tracks.{Holds, Frame, Within}
use orda_book.Pooled.Matching.Walk.{
  AllHold, AllHold-Frame, Across, Across-Within, Across-sym, Holds-Frame, Within-append, cells_of,
}

pub cells_of-append : (xs ys : List LinkedLevel) → cells_of (xs ++ ys) ≡ cells_of xs ++ cells_of ys
cells_of-append [] ys = refl
cells_of-append (g ∷ xs) ys = simp (cells_of-append xs ys, append_assoc)

pub cells_of-insert :
    (price : Price) (total : ℕ) (xs ys : List LinkedLevel)
    → cells_of (xs ++ (level_of price total [] ∷ ys)) ≡ cells_of (xs ++ ys)
cells_of-insert price total [] ys = refl
cells_of-insert price total (g ∷ xs) ys = ap (◌++◌ g.cells) (cells_of-insert price total xs ys)

pub Across-levels :
    (F : List Cell) (before after : List LinkedLevel) (g : LinkedLevel)
    → Across F (cells_of before)
    → Across F g.cells
    → Across F (cells_of after)
    → Across F (cells_of (before ++ (g ∷ after)))
Across-levels F [] after g b h a = All-append _ g.cells (cells_of after) h a
Across-levels F (x ∷ xs) after g b h a =
    let (b₀, b₁) = All-split (λ d. All (λ c. Apart c d) F) x.cells (cells_of xs) b in
    All-append _ x.cells (cells_of (xs ++ (g ∷ after))) b₀ (Across-levels F xs after g b₁ h a)

pub Across-unlevels :
    (F : List Cell) (before after : List LinkedLevel) (g : LinkedLevel)
    → Across F (cells_of (before ++ (g ∷ after)))
    → Across F (cells_of before) × Across F g.cells × Across F (cells_of after)
Across-unlevels F [] after g h =
    let (a, b) = All-split (λ d. All (λ c. Apart c d) F) g.cells (cells_of after) h in (tt, a, b)
Across-unlevels F (x ∷ xs) after g h =
    let (a, b) = All-split (λ d. All (λ c. Apart c d) F) x.cells (cells_of (xs ++ (g ∷ after))) h in
    let (u, v, w) = Across-unlevels F xs after g b in (All-append _ x.cells (cells_of xs) a u, v, w)

-- One level among the others.
pub AllHold-here :
    (p : Matching) (before after : List LinkedLevel) (g : LinkedLevel)
    → AllHold p (before ++ (g ∷ after))
    → Holds p g.cells × Across g.cells (cells_of before) × Across g.cells (cells_of after)
AllHold-here p [] after g (h, x, hs) = (h, tt, x)
AllHold-here p (b ∷ bs) after g (h, x, hs) =
    let (u, v, w) = AllHold-here p bs after g hs in
    let (_, y, _) = Across-unlevels b.cells bs after g x in
    (u, All-append _ b.cells (cells_of bs) (Across-sym b.cells g.cells y) v, w)

pub Across-none : (ds : List Cell) → Across [] ds
Across-none [] = tt
Across-none (d ∷ ds) = (tt, Across-none ds)

pub AllHold-insert :
    (p : Matching) (price : Price) (total : ℕ) (xs ys : List LinkedLevel)
    → AllHold p (xs ++ ys)
    → AllHold p (xs ++ (level_of price total [] ∷ ys))
AllHold-insert p price total [] ys h =
    (record { chain = tt; indexed = tt; distinct = tt }, Across-none (cells_of ys), h)
AllHold-insert p price total (g ∷ xs) ys (h, x, hs) =
    (h, rw (cells_of-insert price total xs ys) x, AllHold-insert p price total xs ys hs)

-- The level `g` becomes `g'`, and no slot or id beyond those of `F` is touched.
module _ (F : List Cell) (g g' : LinkedLevel) (after : List LinkedLevel) (p p' : Matching)
    (f : Frame F p p') (w : Within F g'.cells) (h' : Holds p' g'.cells)
    (x : Across F (cells_of after)) where
  pub AllHold-replace :
      (before : List LinkedLevel)
      → Across F (cells_of before)
      → AllHold p (before ++ (g ∷ after))
      → AllHold p' (before ++ (g' ∷ after))
  AllHold-replace [] b (h, y, hs) = (
    h',
    Across-Within F g'.cells (cells_of after) (cells_of after) w (λ P q. q) x,
    AllHold-Frame F after p p' f x hs,
  )
  AllHold-replace (b ∷ bs) c (h, y, hs) =
      let (c₀, c₁) = All-split (λ d. All (λ c. Apart c d) F) b.cells (cells_of bs) c in
      let (u, _, v) = Across-unlevels b.cells bs after g y in
      (
        Holds-Frame F b.cells p p' f c₀ h,
        Across-levels b.cells bs after g' u
            (Across-sym g'.cells b.cells (Across-Within F g'.cells b.cells b.cells w (λ P q. q) c₀))
            v,
        AllHold-replace bs c₁ hs,
      )

pub AllHold-erase :
    (p : Matching) (g : LinkedLevel) (after before : List LinkedLevel)
    → AllHold p (before ++ (g ∷ after))
    → AllHold p (before ++ after)
AllHold-erase p g after [] (h, x, hs) = hs
AllHold-erase p g after (b ∷ bs) (h, x, hs) =
    let (u, _, v) = Across-unlevels b.cells bs after g x in
    (
      h,
      rw (cells_of-append bs after) (All-append _ (cells_of bs) (cells_of after) u v),
      AllHold-erase p g after bs hs,
    )

-- Only the slots and the index are read.
pub AllHold-same :
    (gs : List LinkedLevel) (p p' : Matching)
    → p'.pool.slots ≡ p.pool.slots
    → p'.order_index ≡ p.order_index
    → AllHold p gs
    → AllHold p' gs
AllHold-same gs p p' e f =
    AllHold-Frame [] gs p p'
      (record { slot_kept = λ j o k. e k j; index_kept = λ id o. ap (find_slot id) f })
      (Across-none (cells_of gs))

-- A free slot and a missing id are apart from every cell.
Apart-index :
    (c : Cell) (p : Matching) (cs : List Cell)
    → find_slot c.order.order_id p.order_index ≡ none
    → Indexed p.order_index cs
    → All (λ d. c.order.order_id ≢ d.order.order_id) cs
Apart-index c p [] l h = tt
Apart-index c p (d ∷ cs) l (e, hs) = (
  (λ q.
      let q' : find_slot c.order.order_id p.order_index ≡ find_slot d.order.order_id p.order_index =
        ap (λ id. find_slot id p.order_index) q in
      absurd (cc)),
  Apart-index c p cs l hs,
)

pub fresh-Across :
    (c : Cell) (p : Matching) (gs : List LinkedLevel)
    → (p.pool.slots c.slot).live ≡ false
    → find_slot c.order.order_id p.order_index ≡ none
    → AllHold p gs
    → Across (c ∷ []) (cells_of gs)
fresh-Across c p [] l n h = tt
fresh-Across c p (g ∷ gs) l n (h, x, hs) =
    All-append _ g.cells (cells_of gs)
      (All-both _ _ _ (λ d a b. ((a, b), tt)) g.cells
        (All-mono _ _ (λ d o e. o (sym e)) g.cells
          (Linked-free p.pool.slots 0 0 c.slot g.cells l h.chain))
        (Apart-index c p g.cells n h.indexed))
      (fresh-Across c p gs l n hs)

Indexed-absent :
    (k : ℕ) (p : Matching) (cs : List Cell)
    → find_slot k p.order_index ≡ none
    → Indexed p.order_index cs
    → All (λ c. c.order.order_id ≢ k) cs
Indexed-absent k p [] n h = tt
Indexed-absent k p (c ∷ cs) n (e, hs) = (
  (λ q.
      let q' : find_slot c.order.order_id p.order_index ≡ find_slot k p.order_index =
        ap (λ id. find_slot id p.order_index) q in
      absurd (cc)),
  Indexed-absent k p cs n hs,
)

-- No cell has an id that the index lacks.
pub AllHold-absent :
    (k : ℕ) (p : Matching) (gs : List LinkedLevel)
    → find_slot k p.order_index ≡ none
    → AllHold p gs
    → All (λ c. c.order.order_id ≢ k) (cells_of gs)
AllHold-absent k p [] n h = tt
AllHold-absent k p (g ∷ gs) n (h, x, hs) =
    All-append _ g.cells (cells_of gs) (Indexed-absent k p g.cells n h.indexed)
      (AllHold-absent k p gs n hs)

pub Across-join : (cs cs' ds : List Cell) → Across cs ds → Across cs' ds → Across (cs ++ cs') ds
Across-join cs cs' ds = All-both _ _ _ (λ d. All-append (λ c. Apart c d) cs cs') ds

pub length-levels :
    (before after : List LinkedLevel) (g : LinkedLevel)
    → length (cells_of (before ++ (g ∷ after)))
      ≡ length (cells_of before) + length g.cells + length (cells_of after)
length-levels [] after g = omega (arith, length-append g.cells (cells_of after))
length-levels (b ∷ bs) after g = omega (
  arith,
  length-append b.cells (cells_of (bs ++ (g ∷ after))),
  length-append b.cells (cells_of bs),
  length-levels bs after g,
)

pub Within-levels :
    (before after : List LinkedLevel) (g g' : LinkedLevel)
    → Within g.cells g'.cells
    → Within (cells_of (before ++ (g ∷ after))) (cells_of (before ++ (g' ∷ after)))
Within-levels [] after g g' w = Within-append g.cells g'.cells _ _ w (λ P h. h)
Within-levels (b ∷ bs) after g g' w =
    Within-append b.cells b.cells _ _ (λ P h. h) (Within-levels bs after g g' w)
