-- ===== src/Priority/Fills.antt =====
-- Quantities under matching: what is traded, what is left, and how matching runs through two lists.
use orda_book.Prelude.{ℕ, ◌+◌, ◌-◌, min, ◌≡◌, refl, true, List, [], ◌∷◌, ◌++◌, All, arith}
use orda_book.Types.{Price, Side, OrderSnapshot, Trade, EngineStats}
use orda_book.Engine.{crosses, count_trade}
use orda_book.Priority.{total, traded, count_trades, available, fills, left, filled}

pub total-append : (xs ys : List OrderSnapshot) → total (xs ++ ys) ≡ total xs + total ys
unfolding total
total-append [] ys = omega arith
total-append (x ∷ xs) ys = omega (arith, total-append xs ys)

pub traded-append : (xs ys : List Trade) → traded (xs ++ ys) ≡ traded xs + traded ys
unfolding traded
traded-append [] ys = omega arith
traded-append (x ∷ xs) ys = omega (arith, traded-append xs ys)

pub count_trades-append :
    (xs ys : List Trade) (stats : EngineStats)
    → count_trades (xs ++ ys) stats ≡ count_trades ys (count_trades xs stats)
unfolding count_trades
count_trades-append [] ys stats = refl
count_trades-append (x ∷ xs) ys stats = count_trades-append xs ys (count_trade x.qty stats)

-- Trades leave the request counters alone and add up in the traded quantity.
pub traded_qty-count_trades :
    (xs : List Trade) (stats : EngineStats)
    → (count_trades xs stats).traded_qty ≡ stats.traded_qty + traded xs
unfolding count_trades traded count_trade
traded_qty-count_trades [] stats = omega arith
traded_qty-count_trades (x ∷ xs) stats =
    omega (arith, traded_qty-count_trades xs (count_trade x.qty stats))

module _ (side : Side) (price : Price) where
  abbrev pub Crosses : OrderSnapshot → Type 0
  Crosses order = crosses side price order.price ≡ true

  -- What is traded is the incoming quantity as far as the acceptable orders reach.
  pub traded-fills :
      (id qty : ℕ) (xs : List OrderSnapshot)
      → traded (fills side price id qty xs) ≡ min qty (available side price xs)
  unfolding traded fills available
  traded-fills id qty [] = omega arith
  traded-fills id qty (x ∷ xs) = ground (arith, traded-fills id (qty - x.qty) xs)

  -- Matching only ever takes from the orders, and takes what it trades.
  pub total-left :
      (id qty : ℕ) (xs : List OrderSnapshot)
      → total (left side price qty xs) + traded (fills side price id qty xs) ≡ total xs
  unfolding total traded fills left
  total-left id qty [] = refl
  total-left id qty (x ∷ xs) =
      ground (arith, total-left id (qty - x.qty) xs, traded-fills id (qty - x.qty) xs)

  pub fills_zero : (id : ℕ) (xs : List OrderSnapshot) → fills side price id 0 xs ≡ []
  unfolding fills
  fills_zero id [] = refl
  fills_zero id (x ∷ xs) = refl

  pub left_zero : (xs : List OrderSnapshot) → left side price 0 xs ≡ xs
  unfolding left
  left_zero [] = refl
  left_zero (x ∷ xs) = refl

  pub filled_zero : (xs : List OrderSnapshot) → filled side price 0 xs ≡ []
  unfolding filled
  filled_zero [] = refl
  filled_zero (x ∷ xs) = refl

  pub available-All :
      (xs : List OrderSnapshot) → All Crosses xs → available side price xs ≡ total xs
  unfolding available total
  available-All [] c = refl
  available-All (x ∷ xs) c = ground (arith, available-All xs c.1)

  -- Matching a list whose orders all cross, and then another, one after the other.
  pub fills-append :
      (id qty : ℕ) (xs ys : List OrderSnapshot)
      → All Crosses xs
      → fills side price id qty (xs ++ ys)
        ≡ fills side price id qty xs ++ fills side price id (qty - total xs) ys
  unfolding fills total
  fills-append id qty [] ys c = ground arith
  fills-append id qty (x ∷ xs) ys c =
      ground (arith, fills-append id (qty - x.qty) xs ys c.1, fills_zero id ys)

  pub left-append :
      (qty : ℕ) (xs ys : List OrderSnapshot)
      → All Crosses xs
      → left side price qty (xs ++ ys)
        ≡ left side price qty xs ++ left side price (qty - total xs) ys
  unfolding left total
  left-append qty [] ys c = ground arith
  left-append qty (x ∷ xs) ys c = ground (arith, left-append (qty - x.qty) xs ys c.1, left_zero ys)

  pub filled-append :
      (qty : ℕ) (xs ys : List OrderSnapshot)
      → All Crosses xs
      → filled side price qty (xs ++ ys)
        ≡ filled side price qty xs ++ filled side price (qty - total xs) ys
  unfolding filled total
  filled-append qty [] ys c = ground arith
  filled-append qty (x ∷ xs) ys c =
      ground (arith, filled-append (qty - x.qty) xs ys c.1, filled_zero ys)

  pub available-append :
      (xs ys : List OrderSnapshot)
      → All Crosses xs
      → available side price (xs ++ ys) ≡ total xs + available side price ys
  unfolding available total
  available-append [] ys c = omega arith
  available-append (x ∷ xs) ys c = ground (arith, available-append xs ys c.1)
