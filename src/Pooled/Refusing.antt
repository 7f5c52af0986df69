-- ===== src/Pooled/Refusing.antt =====
-- The refusals of `add_order_with_policy` in src/pooled_order_book.cpp, and the quantity that it takes to cross.
use orda_book.Prelude.{
  ℕ, ◌+◌, ◌-◌, min, ◌≡◌, ◌∙◌, refl, sym, ap, ◌⊎◌, inl, inr, if◌then◌else◌, Bool, ◌&&◌, ◌||◌, true,
  false, Option, none, some, List, [], ◌∷◌, map,
}
use orda_book.Types.{Price, Side, bid, Trade, EngineStats, BookError, capacity_exceeded}
use orda_book.Engine.{quantity_add_would_overflow, count_rejected}
use orda_book.OrderBook.State.{OrderBook, find_location}
use orda_book.OrderBook.State
use orda_book.OrderBook.Operations
use orda_book.OrderBook.Matching
use orda_book.OrderBook.Levels
use orda_book.Pooled.State.{PriceLevel, PooledOrderBook, find_level}
use orda_book.Pooled.Matching.{crossing_loop, max_crossing_qty}
use orda_book.Pooled.Operations.{Outcome, reject, level_overflow}
use orda_book.Pooled.Linked.{LinkedLevel, pooled_level, base_level}
use orda_book.Pooled.Split.{find_level-cases, find_level-split, base_find_level-split}
use orda_book.Pooled.Holding.{AllHold-same}
use orda_book.Pooled.Represents.{matching_of, Represents, slot_count}
use orda_book.Pooled.Entering.{Simulates}

-- Either the two go together, or the pooled engine refuses for want of a slot.
pub record Exceeds (p : PooledOrderBook) (trades : List Trade) (o : Option Outcome) : Type 0 where
  pub exhausted : p.pool.free_head ≡ 0
  pub refused : o ≡ some (reject capacity_exceeded p trades)

abbrev pub Follows : ℕ → PooledOrderBook → List Trade → Option Outcome → Operations.Outcome → Type 0
Follows count p trades o o' = Simulates count o o' ⊎ Exceeds p trades o

module _ (count : ℕ) (p : PooledOrderBook) (trades : List Trade) where
  pub Follows-if :
      (t t' : Bool) (x y : Option Outcome) (x' y' : Operations.Outcome)
      → t ≡ t'
      → (t ≡ true → Follows count p trades x x')
      → (t ≡ false → Follows count p trades y y')
      → Follows count p trades (if t then x else y) (if t' then x' else y')
  Follows-if true true x y x' y' e f g = f refl
  Follows-if false false x y x' y' e f g = g refl
  Follows-if true false x y x' y' e f g = cc
  Follows-if false true x y x' y' e f g = cc

crossing_loop-same :
    (side : Side) (price : Price) (qty crossing : ℕ) (gs : List LinkedLevel)
    → crossing_loop side price qty crossing (map pooled_level gs)
      ≡ Matching.crossing_loop side price qty crossing (map base_level gs)
unfolding crossing_loop Matching.crossing_loop
crossing_loop-same side price qty crossing [] = refl
crossing_loop-same side price qty crossing (g ∷ gs) =
    rw (crossing_loop-same side price qty (crossing + min (qty - crossing) g.total_qty) gs) refl

module _ (side : Side) (price : Price) (qty : ℕ) (p : PooledOrderBook) (b : OrderBook)
    (rep : Represents side p b) where
  pub max_crossing_qty-same :
      max_crossing_qty side price qty p ≡ Matching.max_crossing_qty side price qty b
  unfolding max_crossing_qty Matching.max_crossing_qty
  max_crossing_qty-same =
      ap (crossing_loop side price qty 0) rep.other_pooled
      ∙ crossing_loop-same side price qty 0 rep.other
      ∙ ap (Matching.crossing_loop side price qty 0) (sym rep.other_base)

  pub level_overflow-same :
      (n : ℕ) → level_overflow side price n p ≡ Operations.level_overflow side price n b
  unfolding level_overflow Operations.level_overflow
  level_overflow-same n =
      let at : Option PriceLevel → Bool =
        λ o. elim o [ none ↦ false | some l ↦ quantity_add_would_overflow l.total_qty n ] in
      let base_at : Option State.PriceLevel → Bool =
        λ o. elim o [ none ↦ false | some l ↦ quantity_add_would_overflow l.total_qty n ] in
      let same : at (find_level price (map pooled_level rep.own))
          ≡ base_at (Levels.find_level price (map base_level rep.own)) =
        elim (find_level-cases price rep.own) [
          | inl (e, f, _) ↦ ap at e ∙ sym (ap base_at f)
          | inr f ↦
              ap (λ gs. at (find_level price (map pooled_level gs))) f.whole
              ∙ ap at (find_level-split price f.here f.after f.priced f.before f.unpriced)
              ∙ sym (
                  ap base_at
                    (base_find_level-split price f.here f.after f.priced f.before f.unpriced))
              ∙ sym (ap (λ gs. base_at (Levels.find_level price (map base_level gs))) f.whole)
        ] in
      ap (λ ls. at (find_level price ls)) rep.own_pooled
      ∙ same
      ∙ sym (ap (λ ls. base_at (Levels.find_level price ls)) rep.own_base)

  pub overflow_same :
      (can_rest : Bool)
      → ((can_rest && level_overflow side price (qty - max_crossing_qty side price qty p) p)
          || quantity_add_would_overflow p.stats.traded_qty (max_crossing_qty side price qty p))
        ≡ ((can_rest
              && Operations.level_overflow side price
                  (qty - Matching.max_crossing_qty side price qty b)
                  b)
            || quantity_add_would_overflow b.stats.traded_qty
                (Matching.max_crossing_qty side price qty b))
  overflow_same can_rest =
      let level_same : level_overflow side price (qty - max_crossing_qty side price qty p) p
          ≡ Operations.level_overflow side price (qty - Matching.max_crossing_qty side price qty b)
              b =
        ap (λ c. level_overflow side price (qty - c) p) max_crossing_qty-same
        ∙ level_overflow-same (qty - Matching.max_crossing_qty side price qty b) in
      λ t.
        (can_rest && level_same t)
        || quantity_add_would_overflow (rep.agree.counters t).traded_qty (max_crossing_qty-same t)

-- Other counters, the same orders.
unfoldable pub restat-Represents :
    (p : PooledOrderBook) (b : OrderBook) (stats : EngineStats → EngineStats)
    → Represents bid p b
    → Represents bid (record p { stats = stats p.stats }) (record b { stats = stats b.stats })
restat-Represents p b stats r = record {
  own = r.own;
  other = r.other;
  frees = r.frees;
  own_pooled = r.own_pooled;
  other_pooled = r.other_pooled;
  own_base = r.own_base;
  other_base = r.other_base;
  agree = record {
    incoming = refl;
    counters = ap stats r.agree.counters;
    fills = refl;
    keys = r.agree.keys;
    free = r.agree.free;
  };
  own_hold =
      AllHold-same r.own (matching_of 0 [] p)
        (matching_of 0 [] (record p { stats = stats p.stats })) refl refl r.own_hold;
  other_hold =
      AllHold-same r.other (matching_of 0 [] p)
        (matching_of 0 [] (record p { stats = stats p.stats })) refl refl r.other_hold;
  across = r.across;
}

pub restat-slot_count :
    (p : PooledOrderBook) (b : OrderBook) (stats : EngineStats → EngineStats)
    (r : Represents bid p b)
    → slot_count (restat-Represents p b stats r) ≡ slot_count r
unfolding restat-Represents
restat-slot_count p b stats r = refl

pub reject-Simulates :
    (error : BookError) (p : PooledOrderBook) (b : OrderBook) (trades : List Trade)
    (rep : Represents bid p b)
    → Simulates (slot_count rep) (some (reject error p trades)) (Operations.reject error b trades)
unfolding reject Operations.reject restat-Represents
reject-Simulates error p b trades rep = record {
  outcome = reject error p trades;
  result = refl;
  same_error = refl;
  same_trades = refl;
  represents = restat-Represents p b count_rejected rep;
  slots_kept = refl;
}
