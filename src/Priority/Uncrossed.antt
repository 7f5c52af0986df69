-- ===== src/Priority/Uncrossed.antt =====
-- Queues in which no bid reaches an ask, and orders that offer nothing to trade.
use orda_book.Prelude.{
  ℕ, ◌-◌, ◌<◌, min, ltb, leb, ◌==◌, if_cases, ◌≡◌, refl, Bool, false, ◌&&◌, List, [], ◌∷◌, All,
  All-mono, All-swap, ◌↔◌, arith,
}
use orda_book.Types.{Price, Side, bid, ask, OrderSnapshot, Trade}
use orda_book.Engine.{opposite, ahead, crosses}
use orda_book.Priority.{available, fills, left, rest_order, withdraw}
use orda_book.Priority.Book.{Queues, queue, enter, new}
use orda_book.Priority.Entry.{own-enter, opposite-enter}

abbrev pub ArePositive : List OrderSnapshot → Type 0
ArePositive = All (λ order. 0 < order.qty)

-- No order is ahead of one before it.
abbrev pub IsSorted : Side → List OrderSnapshot → Type 0
IsSorted side [] = Unit {0}
IsSorted side (x ∷ xs) = All (λ y. ahead side y.price x.price ≡ false) xs × IsSorted side xs

-- No order of the second list is acceptable at a price.
abbrev pub OutOfReach : Side → Price → List OrderSnapshot → Type 0
OutOfReach side price = All (λ order. crosses side price order.price ≡ false)

-- No order of the first list, entered on the side, would trade with the second.
abbrev pub Uncrossed : Side → List OrderSnapshot → List OrderSnapshot → Type 0
Uncrossed side own other = All (λ order. OutOfReach side order.price other) own

module _ (side : Side) (price : Price) where
  pub fills_none :
      (id qty : ℕ) (xs : List OrderSnapshot)
      → ArePositive xs
      → min qty (available side price xs) ≡ 0
      → fills side price id qty xs ≡ []
  unfolding fills available
  fills_none id qty [] p h = refl
  fills_none id qty (x ∷ xs) p h = ground (arith, p.0, h)

  pub left_none :
      (qty : ℕ) (xs : List OrderSnapshot)
      → ArePositive xs
      → min qty (available side price xs) ≡ 0
      → left side price qty xs ≡ xs
  unfolding left available
  left_none qty [] p h = refl
  left_none qty (x ∷ xs) p h = ground (arith, p.0, h)

  pub crosses-behind :
      (a b : Price)
      → crosses side price a ≡ false
      → ahead (opposite side) b a ≡ false
      → crosses side price b ≡ false
  crosses-behind a b = go side
    where
      go :
          (s : Side)
          → crosses s price a ≡ false
          → ahead (opposite s) b a ≡ false
          → crosses s price b ≡ false
      go bid h k = unfold crosses ahead in ground arith
      go ask h k = unfold crosses ahead in ground arith

  -- A quantity that all acceptable orders together cannot fill leaves none of them.
  pub left-OutOfReach :
      (qty : ℕ) (xs : List OrderSnapshot)
      → IsSorted (opposite side) xs
      → available side price xs < qty
      → OutOfReach side price (left side price qty xs)
  unfolding left available
  left-OutOfReach qty [] s h = tt
  left-OutOfReach qty (x ∷ xs) s h =
      if_cases (OutOfReach side price) (ltb 0 qty && crosses side price x.price) _ _
        (λ c.
          if_cases (OutOfReach side price) (leb x.qty qty) _ _
            (λ _. left-OutOfReach (qty - x.qty) xs s.1 (ground (arith, h, c)))
            (λ more. absurd (ground (arith, h, c, more))))
        (λ stop.
          let beyond : crosses side price x.price ≡ false = ground (arith, h, stop) in
          (beyond, All-mono _ _ (λ y behind. crosses-behind x.price y.price beyond behind) xs s.0))

-- What all prices of a list have, those of its remains have.
pub left-All :
    (P : Price → Type 0) (side : Side) (price : Price) (qty : ℕ) (xs : List OrderSnapshot)
    → All (λ order. P order.price) xs
    → All (λ order. P order.price) (left side price qty xs)
unfolding left
left-All P side price qty [] h = tt
left-All P side price qty (x ∷ xs) h =
    let Q = All (λ order. P order.price) in
    if_cases Q (ltb 0 qty && crosses side price x.price) _ _
      (λ _.
        if_cases Q (leb x.qty qty) _ _ (λ _. left-All P side price (qty - x.qty) xs h.1) (λ _. h))
      (λ _. h)

pub withdraw-All :
    (P : OrderSnapshot → Type 0) (id : ℕ) (xs : List OrderSnapshot)
    → All P xs
    → All P (withdraw id xs)
unfolding withdraw
withdraw-All P id [] h = tt
withdraw-All P id (x ∷ xs) h =
    if_cases (All P) (x.order_id == id) _ _ (λ _. h.1) (λ _. (h.0, withdraw-All P id xs h.1))

pub rest_order-All :
    (P : OrderSnapshot → Type 0) (side : Side) (order : OrderSnapshot) (xs : List OrderSnapshot)
    → P order
    → All P xs
    → All P (rest_order side order xs)
unfolding rest_order
rest_order-All P side order [] p h = (p, tt)
rest_order-All P side order (x ∷ xs) p h =
    if_cases (All P) (ahead side order.price x.price) _ _ (λ _. (p, h))
      (λ _. (h.0, rest_order-All P side order xs p h.1))

module _ (id : ℕ) (side : Side) (price : Price) (qty : ℕ) (can_rest : Bool) (q : Queues)
    (trades : List Trade) where
  -- Entering an order never leaves its side in reach of the other.
  pub entered-Uncrossed :
      IsSorted (opposite side) (queue (opposite side) q)
      → Uncrossed side (queue side q) (queue (opposite side) q)
      → Uncrossed side
          (queue side (enter id side price qty can_rest q trades).queues)
          (queue (opposite side) (enter id side price qty can_rest q trades).queues)
  entered-Uncrossed s u =
      let other = queue (opposite side) q in
      let rest = qty - available side price other in
      let own : Uncrossed side (queue side q) (left side price qty other) =
        All-mono _ _
          (λ order h. left-All (λ p. crosses side order.price p ≡ false) side price qty other h)
          (queue side q) u in
      rw
        (
          own-enter id side price qty can_rest q trades,
          opposite-enter id side price qty can_rest q trades,
        )
        (if_cases (λ xs. Uncrossed side xs (left side price qty other)) (ltb 0 rest && can_rest) _ _
          (λ more.
            rest_order-All (λ order. OutOfReach side order.price (left side price qty other)) side
              (new id side price qty rest) (queue side q)
              (left-OutOfReach side price qty other s (ground (arith, more))) own)
          (λ _. own))

Uncrossed-swap : (xs ys : List OrderSnapshot) → Uncrossed bid xs ys ↔ Uncrossed ask ys xs
unfolding crosses
Uncrossed-swap xs ys = (
  All-swap (λ b a. crosses bid b.price a.price ≡ false) xs ys,
  All-swap (λ a b. crosses ask a.price b.price ≡ false) ys xs,
)

-- Entering on either side, seen from the bids.
pub enter-Uncrossed :
    (id : ℕ) (side : Side) (price : Price) (qty : ℕ) (can_rest : Bool) (q : Queues)
    (trades : List Trade)
    → ((s : Side) → IsSorted s (queue s q))
    → Uncrossed bid q.bids q.asks
    → Uncrossed bid
        (enter id side price qty can_rest q trades).queues.bids
        (enter id side price qty can_rest q trades).queues.asks
enter-Uncrossed id bid price qty can_rest q trades s u =
    entered-Uncrossed id bid price qty can_rest q trades (s ask) u
enter-Uncrossed id ask price qty can_rest q trades s u =
    (Uncrossed-swap _ _).1
      (entered-Uncrossed id ask price qty can_rest q trades (s bid) ((Uncrossed-swap _ _).0 u))

pub withdraw-IsSorted :
    (side : Side) (id : ℕ) (xs : List OrderSnapshot)
    → IsSorted side xs
    → IsSorted side (withdraw id xs)
unfolding withdraw
withdraw-IsSorted side id [] h = tt
withdraw-IsSorted side id (x ∷ xs) h =
    if_cases (IsSorted side) (x.order_id == id) _ _ (λ _. h.1)
      (λ _. (withdraw-All _ id xs h.0, withdraw-IsSorted side id xs h.1))

pub withdraw-Uncrossed :
    (id : ℕ) (xs ys : List OrderSnapshot)
    → Uncrossed bid xs ys
    → Uncrossed bid (withdraw id xs) (withdraw id ys)
withdraw-Uncrossed id xs ys u =
    All-mono _ _ (λ order h. withdraw-All _ id ys h) (withdraw id xs) (withdraw-All _ id xs u)
