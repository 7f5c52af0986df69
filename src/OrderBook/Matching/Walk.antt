-- ===== src/OrderBook/Matching/Walk.antt =====
-- The outer loop of `match_incoming`: the walk along the levels fills the orders of the side as
-- price-time priority asks, and leaves well-formed levels.
use orda_book.Prelude.{
  ℕ, ◌-◌, ltb, if◌then◌else◌, Bool-cases, ◌≡◌, refl, sym, ap, ◌∙◌, inl, inr, true, false, ◌&&◌,
  List, [], ◌∷◌, ◌++◌, All, All-mono, length, arith,
}
use mathlib.Core.List.{append-nil, append_assoc}
use orda_book.Types.{Price, Side, OrderSnapshot}
use orda_book.Engine.{crosses}
use orda_book.Priority.{available, total, count_trades, fills, left, filled}
use orda_book.Priority.Fills.{
  Crosses, fills-append, left-append, filled-append, available-append, available-All,
  count_trades-append,
}
use orda_book.OrderBook.State.{Order, PriceLevel, OrderIndex, erase_location}
use orda_book.OrderBook.Levels.{is_empty}
use orda_book.OrderBook.View.{level_orders, append_level_orders, erase_locations}
use orda_book.OrderBook.Invariant.{AreLevels}
use orda_book.OrderBook.Matching.{Matching, match_orders, match_levels}
use orda_book.OrderBook.Matching.Level.{after, IsAfter, match_orders-IsAfter}

pub erase_locations-append :
    (xs ys : List ℕ) (index : OrderIndex)
    → erase_locations ys (erase_locations xs index) ≡ erase_locations (xs ++ ys) index
unfolding erase_locations
erase_locations-append [] ys index = refl
erase_locations-append (x ∷ xs) ys index = erase_locations-append xs ys (erase_location x index)

module _ (side : Side) (price : Price) where
  -- All orders of a level that crosses are acceptable.
  pub level_crosses :
      (at : Price) (os : List Order)
      → crosses side price at ≡ true
      → All (Crosses side price) (level_orders at os)
  level_crosses at [] c = tt
  level_crosses at (o ∷ os) c = (c, level_crosses at os c)

module _ (id : ℕ) (side : Side) (price : Price) where
  after-nil : (state : Matching) → state ≡ after id side price [] state
  unfolding available fills filled erase_locations count_trades
  after-nil state = ground (arith, append-nil state.trades)

  -- Two queues one after the other are one queue.
  after-append :
      (xs ys : List OrderSnapshot) (state : Matching)
      → All (Crosses side price) xs
      → after id side price ys (after id side price xs state) ≡ after id side price (xs ++ ys) state
  after-append xs ys state c =
      let q = state.incoming_qty in
      let e = available-All side price xs c in
      let new : fills side price id q xs ++ fills side price id (q - available side price xs) ys
          ≡ fills side price id q (xs ++ ys) =
        rw (e, fills-append side price id q xs ys c) in
      λ i. record {
        incoming_qty =
            (let s : q - available side price xs - available side price ys
                    ≡ q - available side price (xs ++ ys) =
                  omega (arith, e, available-append side price xs ys c) in
                s)
              i;
        order_index =
            (let s : erase_locations (filled side price (q - available side price xs) ys)
                      (erase_locations (filled side price q xs) state.order_index)
                    ≡ erase_locations (filled side price q (xs ++ ys)) state.order_index =
                  rw (e, filled-append side price q xs ys c, erase_locations-append) in
                s)
              i;
        stats =
            (let s : count_trades (fills side price id (q - available side price xs) ys)
                      (count_trades (fills side price id q xs) state.stats)
                    ≡ count_trades (fills side price id q (xs ++ ys)) state.stats =
                  rw (← new, count_trades-append) in
                s)
              i;
        trades =
            (append_assoc state.trades (fills side price id q xs) _ ∙ ap (◌++◌ state.trades) new) i;
      }

  -- Nothing happens where the quantity is spent or the best order is not acceptable.
  after_stop :
      (x : OrderSnapshot) (xs : List OrderSnapshot) (state : Matching)
      → (ltb 0 state.incoming_qty && crosses side price x.price) ≡ false
      → (left side price state.incoming_qty (x ∷ xs) ≡ x ∷ xs)
        × (state ≡ after id side price (x ∷ xs) state)
  unfolding available fills left filled erase_locations count_trades
  after_stop x xs state stop = (ground arith, ground (arith, append-nil state.trades))

  pub record IsWalk (levels : List PriceLevel) (state : Matching) (r : List PriceLevel × Matching)
      : Type 0 where
    pub queue :
        append_level_orders r.0 ≡ left side price state.incoming_qty (append_level_orders levels)
    pub state_after : r.1 ≡ after id side price (append_level_orders levels) state

  unfoldable pub kept : PriceLevel → List PriceLevel → List PriceLevel
  kept level rest = if is_empty level.orders then rest else level ∷ rest

  append_level_orders-kept :
      (level : PriceLevel) (rest : List PriceLevel)
      → append_level_orders (kept level rest)
        ≡ level_orders level.price level.orders ++ append_level_orders rest
  unfolding append_level_orders kept
  append_level_orders-kept level rest = go level.orders refl
    where
      go :
          (os : List Order)
          → level.orders ≡ os
          → append_level_orders (if is_empty level.orders then rest else level ∷ rest)
            ≡ level_orders level.price level.orders ++ append_level_orders rest
      go [] e = rw e
      go (o ∷ os) e = rw e

  -- One round of the outer loop, at a level that the loop's test lets in.
  pub match_levels_round :
      (level : PriceLevel) (levels : List PriceLevel) (state : Matching)
      → (ltb 0 state.incoming_qty && crosses side price level.price) ≡ true
      → let step = match_orders id side price (length level.orders) level state in
        let rest = match_levels id side price levels step.1 in
        match_levels id side price (level ∷ levels) state ≡ (kept step.0 rest.0, rest.1)
  unfolding match_levels kept
  match_levels_round level levels state go = rw go

  pub match_levels_stop :
      (level : PriceLevel) (levels : List PriceLevel) (state : Matching)
      → (ltb 0 state.incoming_qty && crosses side price level.price) ≡ false
      → match_levels id side price (level ∷ levels) state ≡ (level ∷ levels, state)
  unfolding match_levels
  match_levels_stop level levels state stop = rw stop

  level_stop :
      (level : PriceLevel) (levels : List PriceLevel) (state : Matching) (os : List Order)
      → level.orders ≡ os
      → is_empty level.orders ≡ false
      → (ltb 0 state.incoming_qty && crosses side price level.price) ≡ false
      → IsWalk (level ∷ levels) state (level ∷ levels, state)
  unfolding append_level_orders
  level_stop level levels state [] e n stop = cc
  level_stop level levels state (o ∷ os) e n stop =
      let (q, s) =
        after_stop _ (level_orders level.price os ++ append_level_orders levels) state stop in
      record { queue = rw e (sym q); state_after = rw e s }

  IsWalk-round :
      (level : PriceLevel) (levels : List PriceLevel) (state : Matching) (r : PriceLevel × Matching)
      (rest : List PriceLevel × Matching)
      → crosses side price level.price ≡ true
      → IsAfter id side price level.price level.total_qty level.orders state r
      → IsWalk levels r.1 rest
      → IsWalk (level ∷ levels) state (kept r.0 rest.0, rest.1)
  unfolding append_level_orders
  IsWalk-round level levels state r rest c s w =
      let q = state.incoming_qty in
      let here = level_orders level.price level.orders in
      let there = append_level_orders levels in
      let all = level_crosses side price level.price level.orders c in
      let reach : r.1.incoming_qty ≡ q - total here =
        ap (λ (m : Matching). m.incoming_qty) s.state_after
        ∙ ap (λ (n : ℕ). q - n) (available-All side price here all) in
      let at_price : level_orders r.0.price r.0.orders ≡ left side price q here =
        ap (λ (p : Price). level_orders p r.0.orders) s.at_price ∙ s.queue in
      let beyond : append_level_orders rest.0 ≡ left side price (q - total here) there =
        w.queue ∙ ap (λ (n : ℕ). left side price n there) reach in
      record {
        queue =
            append_level_orders-kept r.0 rest.0
            ∙ (λ i. at_price i ++ beyond i)
            ∙ sym (left-append side price q here there all);
        state_after =
            w.state_after
            ∙ ap (after id side price there) s.state_after
            ∙ after-append here there state all;
      }

  -- The outer loop leaves the orders and the variables that price-time priority asks for.
  pub match_levels-IsWalk :
      (resting_side : Side) (levels : List PriceLevel) (state : Matching)
      → AreLevels resting_side levels
      → IsWalk levels state (match_levels id side price levels state)
  match_levels-IsWalk resting_side [] state v = record {
    queue = unfold match_levels append_level_orders left in refl;
    state_after = unfold match_levels append_level_orders in (after-nil state);
  }
  match_levels-IsWalk resting_side (level ∷ levels) state (v, b, vs) =
      elim (Bool-cases (ltb 0 state.incoming_qty && crosses side price level.price)) [
        | inr stop ↦
            rw (match_levels_stop level levels state stop)
              (level_stop level levels state level.orders refl v.occupied stop)
        | inl more ↦
            let c : crosses side price level.price ≡ true = ground (arith, more) in
            let step = match_orders id side price (length level.orders) level state in
            let s =
              match_orders-IsAfter id side price (length level.orders) level.price level.total_qty
                level.orders state (omega arith)
                (All-mono _ _ (λ o r. r.at_price) level.orders v.resting) c in
            rw (match_levels_round level levels state more) (
              IsWalk-round level levels state step _ c s
                (match_levels-IsWalk resting_side levels step.1 vs))
      ]
