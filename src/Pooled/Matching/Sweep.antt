-- ===== src/Pooled/Matching/Sweep.antt =====
-- `match_incoming` of src/pooled_order_book.cpp leaves what that of src/order_book.cpp leaves.
use orda_book.Prelude.{
  ℕ, suc, ltb, if◌then◌else◌, ne→==, ◌==◌, ◌≡◌, refl, ap, inl, inr, ◌⊎◌, Bool-cases, true, false,
  arith, ◌&&◌, List, [], ◌∷◌, length, map,
}
use orda_book.Types.{Price, Side}
use orda_book.Engine.{crosses}
use orda_book.OrderBook.State
use orda_book.OrderBook.Matching
use orda_book.OrderBook.Levels.{is_empty}
use orda_book.Pooled.State.{SlotIndex, PriceLevel}
use orda_book.Pooled.Matching.{Matching, match_levels}
use orda_book.Pooled.Linked.{Cell, LinkedLevel, pooled_level, base_level, orders_of}
use orda_book.Pooled.Matching.Tracks.{Agree, Run}
use orda_book.Pooled.Matching.Rounds.{match_orders-Run}
use orda_book.Pooled.Matching.Walk.{
  AllHold, AllHold-Frame, Across, cells_of, Walked, Walked-stop, walked_kept, walked_erased,
}

pub cells-cases : (cs : List Cell) → (cs ≡ []) ⊎ ((c : Cell) × (ds : List Cell) × (cs ≡ c ∷ ds))
cells-cases [] = inl refl
cells-cases (c ∷ cs) = inr (c, cs, refl)

pub length-orders_of : (cs : List Cell) → length (orders_of cs) ≡ length cs
length-orders_of [] = refl
length-orders_of (c ∷ cs) = ap suc (length-orders_of cs)

-- A level without orders is erased by both loops, any other by neither.
walked_level :
    (g : LinkedLevel) (gs : List LinkedLevel) (frees : List SlotIndex) (p : Matching)
    (r : PriceLevel × Matching) (b : State.PriceLevel × Matching.Matching)
    (rest : List PriceLevel × Matching) (base : List State.PriceLevel × Matching.Matching)
    → Across g.cells (cells_of gs)
    → (run : Run g frees p r b) → Walked gs run.left r.1 rest base
    → Walked
        (g ∷ gs)
        frees
        p
        (if r.0.order_count == 0 then rest.0 else r.0 ∷ rest.0, rest.1)
        (if is_empty b.0.orders then base.0 else b.0 ∷ base.0, base.1)
walked_level g gs frees p r b rest base x run walk = elim (cells-cases run.level.cells) [
  | inl e ↦
      let u : (r.0.order_count == 0) ≡ true = rw (run.pooled, e) refl in
      let v : is_empty b.0.orders ≡ true = rw (run.base, e) refl in
      rw (u, v) (walked_erased g gs frees p r b x run rest base walk e)
  | inr (c, cs, e) ↦
      let u : (r.0.order_count == 0) ≡ false =
        rw (run.pooled, e) (ne→== λ z. absurd (omega arith)) in
      let v : is_empty b.0.orders ≡ false = rw (run.base, e) refl in
      rw (u, v) (walked_kept g gs frees p r b x run rest base walk)
]

module _ (id : ℕ) (side : Side) (price : Price) where
  pub match_levels-Walked :
      (gs : List LinkedLevel) (frees : List SlotIndex) (p : Matching) (b : Matching.Matching)
      → Agree p b frees
      → AllHold p gs
      → Walked gs frees p
          (match_levels id side price (map pooled_level gs) p)
          (Matching.match_levels id side price (map base_level gs) b)
  unfolding match_levels Matching.match_levels
  match_levels-Walked [] frees p b a h = Walked-stop [] frees p b a h
  match_levels-Walked (g ∷ gs) frees p b a (h, x, hs) =
      let test = ltb 0 p.incoming_qty && crosses side price g.price in
      elim (Bool-cases test) [
        | inr n ↦ rw (n, rw a.incoming at n) (Walked-stop (g ∷ gs) frees p b a (h, x, hs))
        | inl t ↦
            let run =
              match_orders-Run id side price (length g.cells) g.price g.total_qty g.cells frees p b
                a h in
            let walk =
              match_levels-Walked gs run.left _ _ run.agree
                (AllHold-Frame g.cells gs p _ run.frame x hs) in
            rw (t, rw a.incoming at t, length-orders_of g.cells)
              (walked_level g gs frees p _ _ _ _ x run walk)
      ]
