-- ===== src/Ladder/Rounds.antt =====
-- The inner loop of `match_incoming` in src/ladder_order_book.cpp.
use orda_book.Prelude.{
  ℕ, zero, suc, ◌-◌, ◌≤◌, ◌<◌, min, ltb, ltb→lt, ◌==◌, ==_iff, ==_refl, ne→==, ◌≡◌, ◌≢◌, refl, sym,
  ap, ◌∙◌, subst, ◌⊎◌, inl, inr, Bool-cases, if◌then◌else◌, true, false, List, [], ◌∷◌, length, All,
  arith,
}
use orda_book.Types.{Price, Side, OrderSnapshot}
use orda_book.Ladder.State.{is_empty}
use orda_book.Ladder.Matching.{Matching, fill_front, match_orders}

abbrev pub IsPositive : OrderSnapshot → Type 0
IsPositive order = 0 < order.qty

-- What the loop at the level in place `index` leaves.
pub record Done (index : ℕ) (before after : Matching) : Type 0 where
  pub less : after.incoming_qty ≤ before.incoming_qty
  pub used :
      0 < before.incoming_qty
      → is_empty (before.book.levels index).orders ≡ false
      → after.incoming_qty < before.incoming_qty
  pub ended : (after.incoming_qty ≡ 0) ⊎ (is_empty (after.book.levels index).orders ≡ true)
  pub positive : All IsPositive (after.book.levels index).orders
  pub others : (i : ℕ) → i ≢ index → after.book.levels i ≡ before.book.levels i
  pub same_price : (i : ℕ) → (after.book.levels i).price ≡ (before.book.levels i).price
  pub same_bids : after.book.bids ≡ before.book.bids
  pub same_asks : after.book.asks ≡ before.book.asks
  pub same_size : after.book.size ≡ before.book.size

module _ (id : ℕ) (side : Side) (price : Price) where
  abbrev filled : ℕ → OrderSnapshot → List OrderSnapshot → List OrderSnapshot
  filled fill_qty resting orders =
      if resting.qty - fill_qty == 0
      then orders
      else record resting { qty = resting.qty - fill_qty } ∷ orders

  fill_front-here :
      (index : ℕ) (resting : OrderSnapshot) (orders : List OrderSnapshot) (state : Matching)
      → ((fill_front id side price index resting orders state).book.levels index).orders
        ≡ filled (min state.incoming_qty resting.qty) resting orders
  unfolding fill_front
  fill_front-here index resting orders state = rw (==_refl index)

  fill_front-there :
      (index : ℕ) (resting : OrderSnapshot) (orders : List OrderSnapshot) (state : Matching) (i : ℕ)
      → i ≢ index
      → (fill_front id side price index resting orders state).book.levels i ≡ state.book.levels i
  unfolding fill_front
  fill_front-there index resting orders state i n = rw (ne→== n)

  fill_front-price :
      (index : ℕ) (resting : OrderSnapshot) (orders : List OrderSnapshot) (state : Matching) (i : ℕ)
      → ((fill_front id side price index resting orders state).book.levels i).price
        ≡ (state.book.levels i).price
  unfolding fill_front
  fill_front-price index resting orders state i = elim (Bool-cases (i == index)) [
    | inl e ↦ rw (e, (==_iff i index).0 e) refl
    | inr n ↦ rw n refl
  ]

  filled-IsPositive :
      (fill_qty : ℕ) (resting : OrderSnapshot) (orders : List OrderSnapshot)
      → All IsPositive orders
      → All IsPositive (filled fill_qty resting orders)
  filled-IsPositive fill_qty resting orders p = elim (Bool-cases (resting.qty - fill_qty == 0)) [
    | inl e ↦ rw e p
    | inr n ↦ rw n (ground (arith, n), p)
  ]

  -- With nothing left to fill the loop stops.
  match_orders_spent :
      (fuel index : ℕ) (state : Matching)
      → state.incoming_qty ≡ 0
      → match_orders id side price fuel index state ≡ state
  unfolding match_orders
  match_orders_spent zero index state z = refl
  match_orders_spent (suc fuel) index state z = go (state.book.levels index).orders
    where
      go :
          (o : List OrderSnapshot)
          → (elim o [
            | [] ↦ state
            | resting ∷ orders ↦
                if ltb 0 state.incoming_qty
                then match_orders id side price fuel index
                    (fill_front id side price index resting orders state)
                else state
          ])
            ≡ state
      go [] = refl
      go (resting ∷ orders) = let f : ltb 0 state.incoming_qty ≡ false = ground (arith, z) in rw f

  -- A first round at an order of a positive quantity, and what is Done after it.
  Done-fill_front :
      (index : ℕ) (resting : OrderSnapshot) (orders : List OrderSnapshot) (state after : Matching)
      → 0 < state.incoming_qty
      → IsPositive resting
      → Done index (fill_front id side price index resting orders state) after
      → Done index state after
  unfolding fill_front
  Done-fill_front index resting orders state after some r d =
      let lt : state.incoming_qty - min state.incoming_qty resting.qty < state.incoming_qty =
        omega arith in
      record {
        less = omega (arith, d.less);
        used = λ _ _. omega (arith, d.less);
        ended = d.ended;
        positive = d.positive;
        others = λ i n. d.others i n ∙ fill_front-there index resting orders state i n;
        same_price = λ i. d.same_price i ∙ fill_front-price index resting orders state i;
        same_bids = d.same_bids;
        same_asks = d.same_asks;
        same_size = d.same_size;
      }

  Done-refl :
      (index : ℕ) (state : Matching)
      → (state.incoming_qty ≡ 0) ⊎ (is_empty (state.book.levels index).orders ≡ true)
      → All IsPositive (state.book.levels index).orders
      → Done index state state
  Done-refl index state ended positive = record {
    less = omega arith;
    used = λ some f. elim ended [ inl z ↦ absurd (omega arith) | inr e ↦ cc ];
    ended = ended;
    positive = positive;
    others = λ i n. refl;
    same_price = λ i. refl;
    same_bids = refl;
    same_asks = refl;
    same_size = refl;
  }

  -- An order that does not use the incoming quantity up is filled whole.
  whole_fill :
      (index : ℕ) (resting : OrderSnapshot) (orders : List OrderSnapshot) (state : Matching)
      → ((fill_front id side price index resting orders state).incoming_qty == 0) ≡ false
      → (resting.qty - min state.incoming_qty resting.qty == 0) ≡ true
  unfolding fill_front
  whole_fill index resting orders state n = ground (arith, n)

  -- One round, and the rounds after it.
  round-Done :
      (fuel index : ℕ) (resting : OrderSnapshot) (orders : List OrderSnapshot) (state : Matching)
      → 0 < state.incoming_qty
      → length orders ≤ fuel
      → IsPositive resting
      → All IsPositive orders
      → ((s : Matching)
          → length (s.book.levels index).orders ≤ fuel
          → All IsPositive (s.book.levels index).orders
          → Done index s (match_orders id side price fuel index s))
      → Done index state (
          match_orders id side price fuel index
            (fill_front id side price index resting orders state))
  round-Done fuel index resting orders state some short r p again =
      let s = fill_front id side price index resting orders state in
      let fill_qty = min state.incoming_qty resting.qty in
      let here = fill_front-here index resting orders state in
      let positive : All IsPositive (s.book.levels index).orders =
        subst (All IsPositive) (sym here) (filled-IsPositive fill_qty resting orders p) in
      Done-fill_front index resting orders state _ some r (elim (Bool-cases (s.incoming_qty == 0)) [
        | inl e ↦
            let z : s.incoming_qty ≡ 0 = (==_iff s.incoming_qty 0).0 e in
            subst (Done index s) (sym (match_orders_spent fuel index s z))
              (Done-refl index s (inl z) positive)
        | inr n ↦
            let whole : (resting.qty - fill_qty == 0) ≡ true =
              whole_fill index resting orders state n in
            let left : (s.book.levels index).orders ≡ orders = here ∙ rw whole in
            again s (rw left short) positive
      ])

  no_length : (orders : List OrderSnapshot) → length orders ≡ 0 → is_empty orders ≡ true
  no_length [] e = refl
  no_length (order ∷ orders) e = absurd (omega arith)

  -- The rounds at a level whose list is known.
  orders-Done :
      (fuel index : ℕ) (state : Matching) (list : List OrderSnapshot)
      → (state.book.levels index).orders ≡ list
      → length list ≤ suc fuel
      → All IsPositive list
      → ((s : Matching)
          → length (s.book.levels index).orders ≤ fuel
          → All IsPositive (s.book.levels index).orders
          → Done index s (match_orders id side price fuel index s))
      → Done index state (elim list [
        | [] ↦ state
        | resting ∷ orders ↦
            if ltb 0 state.incoming_qty
            then match_orders id side price fuel index
                (fill_front id side price index resting orders state)
            else state
      ])
  orders-Done fuel index state [] e short p again =
      Done-refl index state (inr (ap is_empty e)) (rw e tt)
  orders-Done fuel index state (resting ∷ orders) e short (r, p) again =
      elim (Bool-cases (ltb 0 state.incoming_qty)) [
        | inl t ↦ rw t (
            round-Done fuel index resting orders state (ltb→lt 0 state.incoming_qty t) (omega arith)
              r p again)
        | inr f ↦ rw f (Done-refl index state (inl (ground (arith, f))) (rw e (r, p)))
      ]

  -- At a level whose orders have positive quantities, as many rounds as there are orders end the
  -- loop: the level is empty or the incoming quantity used up.
  pub match_orders-Done :
      (fuel index : ℕ) (state : Matching)
      → length (state.book.levels index).orders ≤ fuel
      → All IsPositive (state.book.levels index).orders
      → Done index state (match_orders id side price fuel index state)
  unfolding match_orders
  match_orders-Done zero index state short p =
      Done-refl index state (inr (no_length (state.book.levels index).orders (omega arith))) p
  match_orders-Done (suc fuel) index state short p =
      orders-Done fuel index state (state.book.levels index).orders refl short p
        (λ s. match_orders-Done fuel index s)
