-- ===== src/Priority/Entry.antt =====
-- What entering an order does to either queue and to the quantities.
use orda_book.Prelude.{
  ℕ, ◌+◌, ◌-◌, min, ltb, if◌then◌else◌, ◌≡◌, refl, inl, inr, Bool-cases, Bool, true, ◌&&◌, List, [],
  ◌∷◌, arith,
}
use orda_book.Types.{Price, Side, bid, ask, OrderSnapshot, Trade}
use orda_book.Engine.{opposite}
use orda_book.Priority.{available, fills, left, rest_order, total, traded}
use orda_book.Priority.Fills.{traded-append, traded-fills, total-left}
use orda_book.Priority.Book.{Queues, queue, enter, new}

pub total-rest_order :
    (side : Side) (order : OrderSnapshot) (xs : List OrderSnapshot)
    → total (rest_order side order xs) ≡ order.qty + total xs
unfolding total rest_order
total-rest_order side order [] = refl
total-rest_order side order (x ∷ xs) = ground (arith, total-rest_order side order xs)

pub opposite-enter :
    (id : ℕ) (side : Side) (price : Price) (qty : ℕ) (can_rest : Bool) (q : Queues)
    (trades : List Trade)
    → queue (opposite side) (enter id side price qty can_rest q trades).queues
      ≡ left side price qty (queue (opposite side) q)
unfolding enter
opposite-enter id bid price qty can_rest q trades =
    elim (Bool-cases (ltb 0 (qty - available bid price q.asks) && can_rest)) [
      | inl e ↦ rw e
      | inr e ↦ rw e
    ]
opposite-enter id ask price qty can_rest q trades =
    elim (Bool-cases (ltb 0 (qty - available ask price q.bids) && can_rest)) [
      | inl e ↦ rw e
      | inr e ↦ rw e
    ]

pub own-enter :
    (id : ℕ) (side : Side) (price : Price) (qty : ℕ) (can_rest : Bool) (q : Queues)
    (trades : List Trade)
    → let rest = qty - available side price (queue (opposite side) q) in
      queue side (enter id side price qty can_rest q trades).queues ≡ (
        if ltb 0 rest && can_rest
        then rest_order side (new id side price qty rest) (queue side q)
        else queue side q)
unfolding enter
own-enter id bid price qty can_rest q trades =
    elim (Bool-cases (ltb 0 (qty - available bid price q.asks) && can_rest)) [
      | inl e ↦ rw e
      | inr e ↦ rw e
    ]
own-enter id ask price qty can_rest q trades =
    elim (Bool-cases (ltb 0 (qty - available ask price q.bids) && can_rest)) [
      | inl e ↦ rw e
      | inr e ↦ rw e
    ]

pub traded-enter :
    (id : ℕ) (side : Side) (price : Price) (qty : ℕ) (can_rest : Bool) (q : Queues)
    (trades : List Trade)
    → traded (enter id side price qty can_rest q trades).trades
      ≡ traded trades + min qty (available side price (queue (opposite side) q))
unfolding enter
traded-enter id side price qty can_rest q trades = omega (
  arith,
  traded-append trades (fills side price id qty (queue (opposite side) q)),
  traded-fills side price id qty (queue (opposite side) q),
)

-- What a side and the trades hold after an order that may rest is what they held before and the
-- order's quantity.
pub total-own-enter :
    (id : ℕ) (side : Side) (price : Price) (qty : ℕ) (q : Queues) (trades : List Trade)
    → total (queue side (enter id side price qty true q trades).queues)
        + traded (enter id side price qty true q trades).trades
      ≡ total (queue side q) + qty + traded trades
total-own-enter id side price qty q trades =
    let rest = qty - available side price (queue (opposite side) q) in
    rw (own-enter id side price qty true q trades, traded-enter id side price qty true q trades)
      (ground (arith, total-rest_order side (new id side price qty rest) (queue side q)))

-- What is traded is what the other side gives.
pub total-opposite-enter :
    (id : ℕ) (side : Side) (price : Price) (qty : ℕ) (can_rest : Bool) (q : Queues)
    (trades : List Trade)
    → total (queue (opposite side) (enter id side price qty can_rest q trades).queues)
        + traded (enter id side price qty can_rest q trades).trades
      ≡ total (queue (opposite side) q) + traded trades
total-opposite-enter id side price qty can_rest q trades =
    let xs = queue (opposite side) q in
    rw (opposite-enter id side price qty can_rest q trades) (
      omega (
        arith,
        traded-enter id side price qty can_rest q trades,
        traded-fills side price id qty xs,
        total-left side price id qty xs,
      ))
