-- ===== src/Pooled/Entering.antt =====
-- `match_and_rest` of src/pooled_order_book.cpp, the end of an add and of a modify, against that of
-- src/order_book.cpp.
use orda_book.Prelude.{
  ℕ, ◌<◌, ltb, ltb→lt, ◌≡◌, ◌≢◌, ◌∙◌, refl, ap, subst, ◌⊎◌, inl, inr, if◌then◌else◌, Bool,
  Bool-cases, ◌&&◌, true, false, Option, none, some, List, length, arith,
}
use orda_book.Types.{Price, Side, bid, Trade, BookError}
use orda_book.OrderBook.State.{OrderBook}
use orda_book.OrderBook.Operations
use orda_book.OrderBook.Matching
use orda_book.OrderBook.Invariant.{IsValid}
use orda_book.Pooled.State.{PooledOrderBook, find_slot}
use orda_book.Pooled.Matching.{match_incoming}
use orda_book.Pooled.Operations.{Outcome, accept, match_and_rest}
use orda_book.Pooled.Matching.Walk.{cells_of}
use orda_book.Pooled.Matching.Incoming.{Matched, match_incoming-Matched}
use orda_book.Pooled.Represents.{Represents, slot_count, turn, turn-slot_count}
use orda_book.Pooled.Resting.{add_resting_order-Rested}
use orda_book.Pooled.Freeing.{slot_is_free}

-- The pooled engine's outcome beside the baseline's: nothing is thrown, the error and the trades are
-- the same, and the books hold the same orders; the pool has `count` slots.
pub record Simulates (count : ℕ) (o : Option Outcome) (o' : Operations.Outcome) : Type 0 where
  pub outcome : Outcome
  pub result : o ≡ some outcome
  pub same_error : outcome.error ≡ o'.error
  pub same_trades : outcome.trades ≡ o'.trades
  pub represents : Represents bid outcome.book o'.book
  pub slots_kept : slot_count represents ≡ count

pub recount :
    (count count' : ℕ) (o : Option Outcome) (o' : Operations.Outcome)
    → count ≡ count'
    → Simulates count o o'
    → Simulates count' o o'
recount count count' o o' e s = subst (λ n. Simulates n o o') e s

pub Simulates-if :
    (count : ℕ) (t t' : Bool) (x y : Option Outcome) (x' y' : Operations.Outcome)
    → t ≡ t'
    → (t ≡ true → Simulates count x x')
    → (t ≡ false → Simulates count y y')
    → Simulates count (if t then x else y) (if t' then x' else y')
Simulates-if count true true x y x' y' e f g = f refl
Simulates-if count false false x y x' y' e f g = g refl
Simulates-if count true false x y x' y' e f g = cc
Simulates-if count false true x y x' y' e f g = cc

pub accept-Simulates :
    (count : ℕ) (side : Side) (r : Option PooledOrderBook) (p : PooledOrderBook) (b : OrderBook)
    (trades trades' : List Trade)
    → r ≡ some p
    → trades ≡ trades'
    → (rep : Represents side p b) → slot_count rep ≡ count
    → Simulates count
        (accept trades r)
        (record { error = BookError.none; book = b; trades = trades' })
accept-Simulates count side r p b trades trades' e f rep k = record {
  outcome = record { error = BookError.none; book = p; trades = trades };
  result = ap (accept trades) e;
  same_error = refl;
  same_trades = f;
  represents = turn side bid p b rep;
  slots_kept = turn-slot_count side bid p b rep ∙ k;
}

module _ (id : ℕ) (side : Side) (price : Price) (qty : ℕ) (can_rest : Bool) (p : PooledOrderBook)
    (b : OrderBook) (trades : List Trade) (rep : Represents side p b) where
  abbrev matched : ℕ × PooledOrderBook × List Trade
  matched = match_incoming id side price qty p trades

  abbrev base_matched : ℕ × OrderBook × List Trade
  base_matched = Matching.match_incoming id side price qty b trades

  matches : Matched side p b rep matched base_matched
  matches = match_incoming-Matched id side price qty p b trades rep

  -- The books and the trades are those that the two match and rest alike.
  pub match_and_rest-Simulates :
      IsValid b
      → find_slot id p.order_index ≡ none
      → (can_rest ≡ true
          → 0 < matched.0
          → (p.pool.free_head ≢ 0) ⊎ (Matching.max_crossing_qty side price qty b ≢ 0))
      → Simulates
          (slot_count rep)
          (match_and_rest id side price qty can_rest p trades)
          (Operations.match_and_rest id side price qty can_rest b trades)
  unfolding match_and_rest Operations.match_and_rest
  match_and_rest-Simulates v n h = elim (Bool-cases (ltb 0 matched.0 && can_rest)) [
    | inr f ↦
        rw (f, rw matches.remaining at f)
          (accept-Simulates (slot_count rep) side (some matched.1) matched.1 base_matched.1
            matched.2 base_matched.2 refl matches.fills matches.after
            (omega (arith, matches.slots_kept, ap (λ gs. length (cells_of gs)) matches.own_kept)))
    | inl t ↦
        let left : 0 < matched.0 = ltb→lt 0 matched.0 (ground (arith, t)) in
        let rested =
          add_resting_order-Rested id side price matched.0 matched.1 base_matched.1 matches.after
            (matches.index_kept id n)
            (slot_is_free id side price qty p b trades rep v (h (ground (arith, t)) left) left) in
        rw (t, rw matches.remaining at t, ← matches.remaining)
          (accept-Simulates (slot_count rep) side _ rested.book _ matched.2 base_matched.2
            rested.result matches.fills rested.after
            (omega (
              arith,
              matches.slots_kept,
              ap (λ gs. length (cells_of gs)) matches.own_kept,
              rested.own_kept,
              ap (λ gs. length (cells_of gs)) rested.other_kept,
              rested.free_kept,
            )))
  ]
