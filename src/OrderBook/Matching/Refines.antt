-- ===== src/OrderBook/Matching/Refines.antt =====
-- `match_incoming` as a whole: it fills the orders of the opposite side by price-time priority,
-- and keeps the book well formed.
use orda_book.Prelude.{
  ℕ, ◌+◌, ◌-◌, ◌≤◌, ◌<◌, min, if◌then◌else◌, ◌≡◌, refl, ap, ◌∙◌, none, List, ◌++◌, arith,
}
use orda_book.Types.{Price, Side, bid, ask, OrderSnapshot, Trade}
use orda_book.Engine.{opposite, max_quantity}
use orda_book.Priority.{available, fills, left, filled, count_trades, count_id, has_id}
use orda_book.Priority.Ids.{count_id-left-le, count_id-left-filled}
use orda_book.Priority.Fills.{traded-fills, traded_qty-count_trades}
use orda_book.OrderBook.State.{OrderBook, side_levels, find_location}
use orda_book.OrderBook.View.{append_level_orders, orders, located, erase_locations}
use orda_book.OrderBook.Invariant.{AreLevels, IsValid, count_live, count_live-sides, both_sides}
use orda_book.OrderBook.Index.{find-erase_locations, located-left}
use orda_book.OrderBook.Matching.{match_incoming}
use orda_book.OrderBook.Matching.Walk.{match_levels-IsWalk}
use orda_book.OrderBook.Matching.Keeps.{match_levels-AreLevels}

pub record Matches (id : ℕ) (side : Side) (price : Price) (qty : ℕ) (book : OrderBook)
    (trades : List Trade) (r : ℕ × OrderBook × List Trade) : Type 0 where
  pub remaining : r.0 ≡ qty - available side price (orders (opposite side) book)
  pub resting : orders (opposite side) r.1 ≡ left side price qty (orders (opposite side) book)
  pub own : side_levels side r.1 ≡ side_levels side book
  pub index :
      r.1.order_index
      ≡ erase_locations (filled side price qty (orders (opposite side) book)) book.order_index
  pub stats :
      r.1.stats ≡ count_trades (fills side price id qty (orders (opposite side) book)) book.stats
  pub traded : r.2 ≡ trades ++ fills side price id qty (orders (opposite side) book)
  pub levels : AreLevels (opposite side) (side_levels (opposite side) r.1)

-- Against a side with well-formed levels, `match_incoming` leaves the remainder, the orders, the index,
-- the counters and the trades that price-time priority asks for, and well-formed levels; its own side
-- stays.
pub match_incoming-Matches :
    (id : ℕ) (side : Side) (price : Price) (qty : ℕ) (book : OrderBook) (trades : List Trade)
    → AreLevels (opposite side) (side_levels (opposite side) book)
    → Matches id side price qty book trades (match_incoming id side price qty book trades)
unfolding match_incoming orders
match_incoming-Matches id bid price qty book trades v =
    let w = match_levels-IsWalk id bid price ask book.asks _ v in
    record {
      remaining = λ i. (w.state_after i).incoming_qty;
      resting = w.queue;
      own = refl;
      index = λ i. (w.state_after i).order_index;
      stats = λ i. (w.state_after i).stats;
      traded = λ i. (w.state_after i).trades;
      levels = match_levels-AreLevels id bid price ask book.asks _ v;
    }
match_incoming-Matches id ask price qty book trades v =
    let w = match_levels-IsWalk id ask price bid book.bids _ v in
    record {
      remaining = λ i. (w.state_after i).incoming_qty;
      resting = w.queue;
      own = refl;
      index = λ i. (w.state_after i).order_index;
      stats = λ i. (w.state_after i).stats;
      traded = λ i. (w.state_after i).trades;
      levels = match_levels-AreLevels id ask price bid book.bids _ v;
    }

module _ (id : ℕ) (side : Side) (price : Price) (qty : ℕ) (book : OrderBook) (trades : List Trade)
    (v : IsValid book) (r : ℕ × OrderBook × List Trade)
    (m : Matches id side price qty book trades r)
    (fits : book.stats.traded_qty + min qty (available side price (orders (opposite side) book))
      ≤ max_quantity) where
  abbrev other : List OrderSnapshot
  other = orders (opposite side) book

  own_orders : orders side r.1 ≡ orders side book
  unfolding orders
  own_orders = ap append_level_orders m.own

  pub ids :
      (j : ℕ)
      → count_live j r.1 + (if has_id j (filled side price qty other) then 1 else 0)
        ≡ count_live j book
  ids j =
      rw (count_live-sides side j r.1, count_live-sides side j book, own_orders, m.resting)
        (omega (
          arith,
          v.unique j,
          count_live-sides side j book,
          count_id-left-filled side price j qty other,
        ))

  found :
      (j : ℕ)
      → find_location j r.1.order_index ≡ (
          if has_id j (filled side price qty other) then none else find_location j book.order_index)
  found j = ap (find_location j) m.index ∙ find-erase_locations j _ book.order_index

  own_indexed :
      (j : ℕ)
      → 0 < count_id j (orders side r.1)
      → find_location j r.1.order_index ≡ located j (orders side r.1)
  own_indexed j h =
      rw (found j, own_orders)
        (ground (
          arith,
          h,
          own_orders,
          v.unique j,
          v.indexed side j,
          count_live-sides side j book,
          count_id-left-filled side price j qty other,
        ))

  other_indexed :
      (j : ℕ)
      → 0 < count_id j (orders (opposite side) r.1)
      → find_location j r.1.order_index ≡ located j (orders (opposite side) r.1)
  other_indexed j h =
      rw (found j, m.resting)
        (ground (
          arith,
          h,
          m.resting,
          v.unique j,
          v.indexed (opposite side) j,
          count_live-sides side j book,
          count_id-left-filled side price j qty other,
          count_id-left-le side price j qty other,
          located-left side price j qty other,
        ))

  -- Matching keeps the invariant, as long as the traded quantity fits.
  pub match_incoming-IsValid : IsValid r.1
  match_incoming-IsValid = record {
    sorted =
        both_sides (λ s. AreLevels s (side_levels s r.1)) side (rw m.own (v.sorted side)) m.levels;
    unique = λ j. omega (arith, ids j, v.unique j);
    indexed =
        both_sides
          (λ s.
            (j : ℕ)
            → 0 < count_id j (orders s r.1)
            → find_location j r.1.order_index ≡ located j (orders s r.1))
          side own_indexed other_indexed;
    absent = λ j z. rw (found j) (ground (arith, z, ids j, v.absent j));
    traded_bounded = rw m.stats (
        omega (
          arith,
          traded_qty-count_trades (fills side price id qty other) book.stats,
          traded-fills side price id qty other,
        ));
  }
