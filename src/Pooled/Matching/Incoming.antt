-- ===== src/Pooled/Matching/Incoming.antt =====
-- `match_incoming` of src/pooled_order_book.cpp takes books that hold the same orders to books that
-- hold the same orders.
use orda_book.Prelude.{ℕ, ◌+◌, ◌≡◌, refl, ap, ◌∙◌, none, List, [], length}
use orda_book.Types.{Price, Side, bid, ask, Trade}
use orda_book.Engine.{opposite}
use orda_book.OrderBook.State
use orda_book.OrderBook.State.{OrderBook}
use orda_book.OrderBook.Matching
use orda_book.Pooled.State.{PriceLevel, PooledOrderBook, side_levels, find_slot}
use orda_book.Pooled.Matching.{Matching, match_levels, match_incoming}
use orda_book.Pooled.Matching.Walk.{
  AllHold, AllHold-Frame, Across, Across-Within, Across-sym, cells_of, Walked,
}
use orda_book.Pooled.Matching.Sweep.{match_levels-Walked}
use orda_book.Pooled.Holding.{AllHold-same, AllHold-absent}
use orda_book.Pooled.Represents.{matching_of, base_matching_of, Represents}

pub record Matched (side : Side) (p : PooledOrderBook) (b : OrderBook) (rep : Represents side p b)
    (r : ℕ × PooledOrderBook × List Trade) (r' : ℕ × OrderBook × List Trade) : Type 0 where
  pub remaining : r.0 ≡ r'.0
  pub fills : r.2 ≡ r'.2
  pub after : Represents side r.1 r'.1
  pub own_kept : after.own ≡ rep.own
  pub slots_kept :
      length after.frees + length (cells_of after.other)
      ≡ length rep.frees + length (cells_of rep.other)
  pub index_kept :
      (id : ℕ) → find_slot id p.order_index ≡ none → find_slot id r.1.order_index ≡ none

module _ (id : ℕ) (side : Side) (price : Price) (qty : ℕ) (p : PooledOrderBook) (b : OrderBook)
    (trades : List Trade) (rep : Represents side p b) where
  abbrev start : Matching
  start = matching_of qty trades p

  abbrev base_start : Matching.Matching
  base_start = base_matching_of qty trades b

  abbrev final : List PriceLevel × Matching
  final = match_levels id side price (side_levels (opposite side) p) start

  abbrev base_final : List State.PriceLevel × Matching.Matching
  base_final = Matching.match_levels id side price (State.side_levels (opposite side) b) base_start

  abbrev stopped : Matching
  stopped = record final.1 { incoming_qty = 0; trades = [] }

  walk : Walked rep.other rep.frees start final base_final
  walk =
      rw (rep.other_pooled, rep.other_base)
        (match_levels-Walked id side price rep.other rep.frees start base_start
          (record {
            incoming = refl;
            counters = rep.agree.counters;
            fills = refl;
            keys = rep.agree.keys;
            free = rep.agree.free;
          })
          (AllHold-same rep.other (matching_of 0 [] p) start refl refl rep.other_hold))

  index_kept : (k : ℕ) → find_slot k p.order_index ≡ none → find_slot k final.1.order_index ≡ none
  index_kept k n =
      walk.frame.index_kept k (AllHold-absent k (matching_of 0 [] p) rep.other n rep.other_hold) ∙ n

  own_hold : AllHold final.1 rep.own
  own_hold =
      AllHold-Frame (cells_of rep.other) rep.own start final.1 walk.frame
        (Across-sym (cells_of rep.own) (cells_of rep.other) rep.across)
        (AllHold-same rep.own (matching_of 0 [] p) start refl refl rep.own_hold)

  across : Across (cells_of rep.own) (cells_of walk.levels)
  across =
      Across-Within (cells_of rep.own) (cells_of rep.own) (cells_of rep.other)
        (cells_of walk.levels) (λ P h. h) walk.within rep.across

  -- The books that the matching leaves, whatever the side.
  matched :
      (p' : PooledOrderBook) (b' : OrderBook)
      → side_levels side p' ≡ side_levels side p
      → side_levels (opposite side) p' ≡ final.0
      → State.side_levels side b' ≡ State.side_levels side b
      → State.side_levels (opposite side) b' ≡ base_final.0
      → matching_of 0 [] p' ≡ stopped
      → base_matching_of 0 [] b' ≡ record base_final.1 { incoming_qty = 0; trades = [] }
      → Matched side p b rep
          (final.1.incoming_qty, p', final.1.trades)
          (base_final.1.incoming_qty, b', base_final.1.trades)
  matched p' b' e f g h i j = record {
    remaining = walk.agree.incoming;
    fills = walk.agree.fills;
    after = record {
      own = rep.own;
      other = walk.levels;
      frees = walk.left;
      own_pooled = e ∙ rep.own_pooled;
      other_pooled = f ∙ walk.pooled;
      own_base = g ∙ rep.own_base;
      other_base = h ∙ walk.base;
      agree =
          rw (i, j)
            (record {
              incoming = refl;
              counters = walk.agree.counters;
              fills = refl;
              keys = walk.agree.keys;
              free = walk.agree.free;
            });
      own_hold = rw i (AllHold-same rep.own final.1 stopped refl refl own_hold);
      other_hold = rw i (AllHold-same walk.levels final.1 stopped refl refl walk.hold);
      across = across;
    };
    own_kept = refl;
    slots_kept = walk.slots_kept;
    index_kept = λ k n. ap (λ (m : Matching). find_slot k m.order_index) i ∙ index_kept k n;
  }

-- From books that hold the same orders, the two engines' `match_incoming` leave the same remainder,
-- the same trades and books that hold the same orders. The levels of the incoming side stay, as many
-- slots are free or in use, and an id that the index lacks before it lacks after.
pub match_incoming-Matched :
    (id : ℕ) (side : Side) (price : Price) (qty : ℕ) (p : PooledOrderBook) (b : OrderBook)
    (trades : List Trade) (rep : Represents side p b)
    → Matched side p b rep
        (match_incoming id side price qty p trades)
        (Matching.match_incoming id side price qty b trades)
unfolding match_incoming Matching.match_incoming
match_incoming-Matched id bid price qty p b trades rep =
    matched id bid price qty p b trades rep _ _ refl refl refl refl refl refl
match_incoming-Matched id ask price qty p b trades rep =
    matched id ask price qty p b trades rep _ _ refl refl refl refl refl refl
