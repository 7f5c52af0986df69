-- ===== src/OrderBook/Matching/Level.antt =====
-- The inner loop of `match_incoming` at a level that the incoming price crosses: it fills the level's
-- orders as price-time priority asks.
use orda_book.Prelude.{
  ℕ, zero, suc, ◌-◌, ◌≤◌, ◌<◌, min, ltb, leb, ◌==◌, Bool-cases, lt→ltb, le→leb, ◌≡◌, refl, ap, ◌∙◌,
  inl, inr, true, false, List, [], ◌∷◌, ◌++◌, All, length, arith,
}
use mathlib.Core.List.{append-nil, append_assoc}
use orda_book.Types.{Price, Side, OrderSnapshot, Trade}
use orda_book.Engine.{crosses, count_trade}
use orda_book.Priority.{available, traded, count_trades, fills, left, filled}
use orda_book.Priority.Fills.{fills_zero}
use orda_book.OrderBook.State.{Order, PriceLevel, erase_location}
use orda_book.OrderBook.View.{level_orders, erase_locations}
use orda_book.OrderBook.Matching.{Matching, match_orders}

abbrev pub level_of : Price → ℕ → List Order → PriceLevel
level_of price total_qty orders = record { price = price; total_qty = total_qty; orders = orders }

abbrev pub IsPriced : Price → List Order → Type 0
IsPriced price = All (λ order. order.price ≡ price)

sub_self : (n : ℕ) → n - n ≡ 0
sub_self n = omega arith

module _ (id : ℕ) (side : Side) (price : Price) where
  match_orders_spent :
      (fuel : ℕ) (at : Price) (t : ℕ) (os : List Order) (state : Matching)
      → state.incoming_qty ≡ 0
      → match_orders id side price fuel (level_of at t os) state ≡ (level_of at t os, state)
  unfolding match_orders
  match_orders_spent zero at t os state e = refl
  match_orders_spent (suc fuel) at t [] state e = refl
  match_orders_spent (suc fuel) at t (o ∷ os) state e = rw e

  -- The variables of `match_incoming` after a queue of resting orders.
  abbrev pub after : List OrderSnapshot → Matching → Matching
  after queue state =
      let new = fills side price id state.incoming_qty queue in
      record {
        incoming_qty = state.incoming_qty - available side price queue;
        order_index =
            erase_locations (filled side price state.incoming_qty queue) state.order_index;
        stats = count_trades new state.stats;
        trades = state.trades ++ new;
      }

  abbrev trade_of : Order → ℕ → Trade
  trade_of o qty = record {
    resting_order_id = o.order_id;
    incoming_order_id = id;
    price = o.price;
    qty = qty;
    aggressor_side = side;
  }

  -- After a round that fills the front order whole, and after one that spends the incoming quantity.
  abbrev filled_whole : Order → Matching → Matching
  filled_whole o state = record {
    incoming_qty = state.incoming_qty - o.qty;
    order_index = erase_location o.order_id state.order_index;
    stats = count_trade o.qty state.stats;
    trades = state.trades ++ (trade_of o o.qty ∷ []);
  }

  abbrev filled_part : Order → Matching → Matching
  filled_part o state = record {
    incoming_qty = 0;
    order_index = state.order_index;
    stats = count_trade state.incoming_qty state.stats;
    trades = state.trades ++ (trade_of o state.incoming_qty ∷ []);
  }

  module _ (fuel : ℕ) (at : Price) (t : ℕ) (o : Order) (os : List Order) (state : Matching) where
    round_whole :
        0 < state.incoming_qty
        → o.qty ≤ state.incoming_qty
        → match_orders id side price (suc fuel) (level_of at t (o ∷ os)) state
          ≡ match_orders id side price fuel (level_of at (t - o.qty) os) (filled_whole o state)
    unfolding match_orders
    round_whole more whole =
        let e : min state.incoming_qty o.qty ≡ o.qty = omega arith in
        rw (e, lt→ltb more, sub_self o.qty)

    round_part :
        0 < state.incoming_qty
        → state.incoming_qty < o.qty
        → match_orders id side price (suc fuel) (level_of at t (o ∷ os)) state ≡ (
          level_of at (t - state.incoming_qty) (record o { qty = o.qty - state.incoming_qty } ∷ os),
          filled_part o state,
        )
    unfolding match_orders
    round_part more part =
        let e : min state.incoming_qty o.qty ≡ state.incoming_qty = omega arith in
        let n : (o.qty - state.incoming_qty == 0) ≡ false = ground arith in
        rw (e, lt→ltb more, n, sub_self state.incoming_qty)
          (match_orders_spent fuel at _ _ (filled_part o state) refl)

  -- What price-time priority asks of a walk along a level: which orders are left and with what
  -- total, and the variables afterwards.
  pub record IsAfter (at : Price) (t : ℕ) (os : List Order) (state : Matching)
      (r : PriceLevel × Matching) : Type 0 where
    pub at_price : r.0.price ≡ at
    pub at_total :
        r.0.total_qty ≡ t - traded (fills side price id state.incoming_qty (level_orders at os))
    pub queue : level_orders at r.0.orders ≡ left side price state.incoming_qty (level_orders at os)
    pub state_after : r.1 ≡ after (level_orders at os) state

  module _ (at : Price) (t : ℕ) (state : Matching) where
    IsAfter-empty : IsAfter at t [] state (level_of at t [], state)
    unfolding available traded count_trades fills left filled erase_locations
    IsAfter-empty = record {
      at_price = refl;
      at_total = omega arith;
      queue = refl;
      state_after = ground (arith, append-nil state.trades);
    }

    module _ (o : Order) (os : List Order) where
      IsAfter-spent :
          state.incoming_qty ≡ 0 → IsAfter at t (o ∷ os) state (level_of at t (o ∷ os), state)
      unfolding available traded count_trades fills left filled erase_locations
      IsAfter-spent e = record {
        at_price = refl;
        at_total = ground arith;
        queue = ground arith;
        state_after = ground (arith, append-nil state.trades);
      }

      IsAfter-part :
          0 < state.incoming_qty
          → state.incoming_qty < o.qty
          → o.price ≡ at
          → crosses side price at ≡ true
          → IsAfter at t (o ∷ os) state (
            level_of at
                (t - state.incoming_qty)
                (record o { qty = o.qty - state.incoming_qty } ∷ os),
            filled_part o state,
          )
      unfolding available traded count_trades fills left filled erase_locations
      IsAfter-part more part p c =
          let none_left : state.incoming_qty - o.qty ≡ 0 = omega arith in
          let least : min state.incoming_qty o.qty ≡ state.incoming_qty = omega arith in
          let f = fills_zero side price id (level_orders at os) in
          record {
            at_price = refl;
            at_total = rw (lt→ltb more, c, none_left, f, least) (omega arith);
            queue = ground arith;
            state_after = rw (lt→ltb more, c, none_left, f, least) (ground (arith, p));
          }

      IsAfter-whole :
          (r : PriceLevel × Matching)
          → 0 < state.incoming_qty
          → o.qty ≤ state.incoming_qty
          → o.price ≡ at
          → crosses side price at ≡ true
          → IsAfter at (t - o.qty) os (filled_whole o state) r
          → IsAfter at t (o ∷ os) state r
      unfolding available traded count_trades fills left filled erase_locations
      IsAfter-whole r more whole p c v =
          let q = state.incoming_qty in
          let queue = level_orders at os in
          let rest = fills side price id (q - o.qty) queue in
          let least : min q o.qty ≡ o.qty = omega arith in
          let new : trade_of o o.qty ∷ rest ≡ fills side price id q (level_orders at (o ∷ os)) =
            rw (lt→ltb more, c, least, p) in
          let erased : erase_locations (filled side price (q - o.qty) queue)
                (erase_location o.order_id state.order_index)
              ≡ erase_locations (filled side price q (level_orders at (o ∷ os))) state.order_index =
            rw (lt→ltb more, c, le→leb whole) in
          let spent : q - o.qty - available side price queue
              ≡ q - available side price (level_orders at (o ∷ os)) =
            rw c (omega arith) in
          record {
            at_price = v.at_price;
            at_total = rw (lt→ltb more, c, least) (omega (arith, v.at_total));
            queue = ground (arith, v.queue);
            state_after = v.state_after ∙ λ i. record {
              incoming_qty = spent i;
              order_index = erased i;
              stats = count_trades (new i) state.stats;
              trades =
                  (append_assoc state.trades (trade_of o o.qty ∷ []) rest
                      ∙ ap (◌++◌ state.trades) new)
                    i;
            };
          }

  -- The inner loop leaves the level and the variables that price-time priority asks for.
  pub match_orders-IsAfter :
      (fuel : ℕ) (at : Price) (t : ℕ) (os : List Order) (state : Matching)
      → length os ≤ fuel
      → IsPriced at os
      → crosses side price at ≡ true
      → IsAfter at t os state (match_orders id side price fuel (level_of at t os) state)
  match_orders-IsAfter zero at t [] state h ps c = unfold match_orders in (IsAfter-empty at t state)
  match_orders-IsAfter zero at t (o ∷ os) state h ps c = absurd (omega arith)
  match_orders-IsAfter (suc fuel) at t [] state h ps c =
      unfold match_orders in (IsAfter-empty at t state)
  match_orders-IsAfter (suc fuel) at t (o ∷ os) state h ps c =
      elim (Bool-cases (ltb 0 state.incoming_qty)) [
        | inr spent ↦
            rw (match_orders_spent (suc fuel) at t (o ∷ os) state (ground arith))
              (IsAfter-spent at t state o os (ground arith))
        | inl more ↦ elim (Bool-cases (leb o.qty state.incoming_qty)) [
          | inl whole ↦ rw (round_whole fuel at t o os state (ground arith) (ground arith)) (
              IsAfter-whole at t state o os _ (ground arith) (ground arith) ps.0 c (
                match_orders-IsAfter fuel at (t - o.qty) os (filled_whole o state) (omega arith)
                  ps.1 c))
          | inr part ↦
              rw (round_part fuel at t o os state (ground arith) (ground arith))
                (IsAfter-part at t state o os (ground arith) (ground arith) ps.0 c)
        ]
      ]

  -- Nor does the loop touch anything of an order but its quantity, which stays positive.
  pub match_orders-All :
      (P : Order → Type 0)
      → ((o : Order) (qty : ℕ) → P o → 0 < qty → P (record o { qty = qty }))
      → (fuel : ℕ) (at : Price) (t : ℕ) (os : List Order) (state : Matching) → All P os
      → All P (match_orders id side price fuel (level_of at t os) state).0.orders
  match_orders-All P keep zero at t os state ps = unfold match_orders in ps
  match_orders-All P keep (suc fuel) at t [] state ps = unfold match_orders in tt
  match_orders-All P keep (suc fuel) at t (o ∷ os) state ps =
      elim (Bool-cases (ltb 0 state.incoming_qty)) [
        | inr spent ↦ rw (match_orders_spent (suc fuel) at t (o ∷ os) state (ground arith)) ps
        | inl more ↦ elim (Bool-cases (leb o.qty state.incoming_qty)) [
          | inl whole ↦
              rw (round_whole fuel at t o os state (ground arith) (ground arith))
                (match_orders-All P keep fuel at (t - o.qty) os (filled_whole o state) ps.1)
          | inr part ↦
              rw (round_part fuel at t o os state (ground arith) (ground arith))
                (keep o (o.qty - state.incoming_qty) ps.0 (ground arith), ps.1)
        ]
      ]
