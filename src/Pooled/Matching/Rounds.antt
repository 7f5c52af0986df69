-- ===== src/Pooled/Matching/Rounds.antt =====
-- The inner loop of `match_incoming`, in src/pooled_order_book.cpp as in src/order_book.cpp.
use orda_book.Prelude.{ℕ, zero, suc, ltb, ◌≡◌, inl, inr, Bool-cases, List, [], ◌∷◌, ne→==}
use orda_book.Types.{Price, Side}
use orda_book.OrderBook.Matching
use orda_book.OrderBook.State
use orda_book.Pooled.State.{SlotIndex, PriceLevel}
use orda_book.Pooled.Matching.{Matching, match_orders}
use orda_book.Pooled.Linked.{Cell, LinkedLevel, pooled_level, base_level}
use orda_book.Pooled.Matching.Drop.{level_of}
use orda_book.Pooled.Matching.Tracks.{Agree, Holds, Run, Run-trans, Run-stop}
use orda_book.Pooled.Matching.Fill.{fill_front-Run}

module _ (id : ℕ) (side : Side) (price : Price) where
  relevel :
      (fuel : ℕ) (g : LinkedLevel) (frees : List SlotIndex) (level : PriceLevel)
      (base : State.PriceLevel) (p : Matching) (b : Matching.Matching)
      → level ≡ pooled_level g
      → base ≡ base_level g
      → Run g frees p
          (match_orders id side price fuel (pooled_level g) p)
          (Matching.match_orders id side price fuel (base_level g) b)
      → Run g frees p
          (match_orders id side price fuel level p)
          (Matching.match_orders id side price fuel base b)
  relevel fuel g frees level base p b e f run = rw (e, f) run

  pub match_orders-Run :
      (fuel : ℕ) (at : Price) (total : ℕ) (cells : List Cell) (frees : List SlotIndex)
      (p : Matching) (b : Matching.Matching)
      → Agree p b frees
      → Holds p cells
      → Run
          (level_of at total cells)
          frees
          p
          (match_orders id side price fuel (pooled_level (level_of at total cells)) p)
          (Matching.match_orders id side price fuel (base_level (level_of at total cells)) b)
  unfolding match_orders Matching.match_orders
  match_orders-Run zero at total cells frees p b a h = Run-stop _ frees p b a h
  match_orders-Run (suc fuel) at total [] frees p b a h = elim (Bool-cases (ltb 0 p.incoming_qty)) [
    | inl t ↦ rw t (Run-stop _ frees p b a h)
    | inr n ↦ rw n (Run-stop _ frees p b a h)
  ]
  match_orders-Run (suc fuel) at total (c ∷ cs) frees p b a h =
      elim (Bool-cases (ltb 0 p.incoming_qty)) [
        | inr n ↦ rw (n, rw a.incoming at n) (Run-stop _ frees p b a h)
        | inl t ↦
            let run = fill_front-Run id side price at total c cs frees p b a h in
            rw (t, rw a.incoming at t, ne→== h.chain.0)
              (Run-trans _ frees p _ _ _ _ run (
                relevel fuel run.level run.left _ _ _ _ run.pooled run.base (
                  match_orders-Run fuel run.level.price run.level.total_qty run.level.cells run.left
                    _ _ run.agree run.holds)))
      ]
