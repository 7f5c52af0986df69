-- ===== src/OrderBook/Operations/Entering.antt =====
-- `match_and_rest`, the end of an add and of a modify, enters an order by price-time priority and
-- keeps the invariant.
use orda_book.Prelude.{
  ℕ, ◌+◌, ◌-◌, ◌≤◌, min, ltb, ◌≡◌, refl, ap, ◌∙◌, inl, inr, Bool-cases, if◌then◌else◌, Bool, true,
  ◌&&◌, List, arith,
}
use orda_book.Prelude.Int.{pos, ◌<ℤ◌}
use orda_book.Types.{Price, Side, bid, ask, OrderSnapshot, Trade, BookError}
use orda_book.Engine.{opposite, max_quantity}
use orda_book.Priority.{available, rest_order, total_at}
use orda_book.Priority.Book.{Queues, queue, with_queue, Result, refuse, matched, enter}
use orda_book.OrderBook.State.{OrderBook, side_levels}
use orda_book.OrderBook.Levels.{add_resting_order}
use orda_book.OrderBook.View.{append_level_orders, orders}
use orda_book.OrderBook.Invariant.{AreLevels, IsValid, count_live}
use orda_book.OrderBook.Matching.{match_incoming}
use orda_book.OrderBook.Matching.Refines.{
  Matches, match_incoming-Matches, match_incoming-IsValid, ids,
}
use orda_book.OrderBook.Placement.{
  resting_order, Rests, add_resting_order-Rests, add_resting_order-IsValid,
}
use orda_book.OrderBook.Operations.{Outcome, reject, match_and_rest}

-- What a client sees of a book and of an outcome.
abbrev pub view : OrderBook → Queues
view book = record { bids = orders bid book; asks = orders ask book; stats = book.stats }

unfoldable pub view_outcome : Outcome → Result
view_outcome o = record { error = o.error; queues = view o.book; trades = o.trades }

pub view_outcome-reject :
    (error : BookError) (book : OrderBook) (trades : List Trade)
    → view_outcome (reject error book trades) ≡ refuse error (view book) trades
unfolding view_outcome reject orders
view_outcome-reject error book trades = refl

pub view_outcome-done :
    (book : OrderBook) (q : Queues) (trades : List Trade)
    → view book ≡ q
    → view_outcome (record { error = BookError.none; book = book; trades = trades })
      ≡ record { error = BookError.none; queues = q; trades = trades }
unfolding view_outcome
view_outcome-done book q trades e =
    λ i. record { error = BookError.none; queues = e i; trades = trades }

pub view-sides :
    (side : Side) (book : OrderBook) (q : Queues)
    → orders side book ≡ queue side q
    → orders (opposite side) book ≡ queue (opposite side) q
    → book.stats ≡ q.stats
    → view book ≡ q
view-sides bid book q a b s = λ i. record { bids = a i; asks = b i; stats = s i }
view-sides ask book q a b s = λ i. record { bids = b i; asks = a i; stats = s i }

pub queue-view : (side : Side) (book : OrderBook) → queue side (view book) ≡ orders side book
queue-view bid book = refl
queue-view ask book = refl

pub orders_of_levels :
    (side : Side) (book book' : OrderBook)
    → side_levels side book' ≡ side_levels side book
    → orders side book' ≡ orders side book
unfolding orders
orders_of_levels side book book' e = ap append_level_orders e

queue-with_queue :
    (side : Side) (xs ys : List OrderSnapshot) (q : Queues)
    → (queue side (with_queue side xs q) ≡ xs)
      × (queue (opposite side) (with_queue side xs q) ≡ queue (opposite side) q)
      × (queue side (with_queue (opposite side) xs q) ≡ queue side q)
      × (queue (opposite side) (with_queue (opposite side) xs q) ≡ xs)
      × ((with_queue side xs q).stats ≡ q.stats)
      × ((with_queue (opposite side) xs q).stats ≡ q.stats)
queue-with_queue bid xs ys q = (refl, refl, refl, refl, refl, refl)
queue-with_queue ask xs ys q = (refl, refl, refl, refl, refl, refl)

matched-view :
    (id : ℕ) (side : Side) (price : Price) (qty : ℕ) (book : OrderBook) (trades : List Trade)
    (r : ℕ × OrderBook × List Trade)
    → Matches id side price qty book trades r
    → view r.1 ≡ matched id side price qty (view book)
matched-view id bid price qty book trades r m =
    view-sides bid r.1 _ (orders_of_levels bid book r.1 m.own) m.resting m.stats
matched-view id ask price qty book trades r m =
    view-sides ask r.1 _ (orders_of_levels ask book r.1 m.own) m.resting m.stats

rested-view :
    (id : ℕ) (side : Side) (price : Price) (rest : ℕ) (b b' : OrderBook) (q : Queues)
    → view b ≡ q
    → Rests id side price rest b b'
    → view b'
      ≡ with_queue side
          (rest_order side
            (record { order_id = id; side = side; price = price; qty = rest })
            (queue side q))
          q
rested-view id bid price rest b b' q e r =
    view-sides bid b' _
      (r.joined ∙ ap (λ (p : Queues). rest_order bid (resting_order id bid price rest) p.bids) e)
      (orders_of_levels ask b b' r.other ∙ ap (λ (p : Queues). p.asks) e)
      (r.counters ∙ ap (λ (p : Queues). p.stats) e)
rested-view id ask price rest b b' q e r =
    view-sides ask b' _
      (r.joined ∙ ap (λ (p : Queues). rest_order ask (resting_order id ask price rest) p.asks) e)
      (orders_of_levels bid b b' r.other ∙ ap (λ (p : Queues). p.bids) e)
      (r.counters ∙ ap (λ (p : Queues). p.stats) e)

-- The book after matching, and after resting where there is a remainder that may rest.
entered :
    (id : ℕ) (side : Side) (price : Price) (qty : ℕ) (can_rest : Bool) (book : OrderBook)
    (trades : List Trade)
    → ℕ × OrderBook × List Trade
    → OrderBook
entered id side price qty can_rest book trades r =
    if ltb 0 r.0 && can_rest then add_resting_order id side price r.0 r.1 else r.1

entered-view :
    (id : ℕ) (side : Side) (price : Price) (qty : ℕ) (can_rest : Bool) (book : OrderBook)
    (trades : List Trade) (r : ℕ × OrderBook × List Trade)
    → Matches id side price qty book trades r
    → AreLevels side (side_levels side book)
    → view (entered id side price qty can_rest book trades r) ≡ (
        if ltb 0 r.0 && can_rest
        then with_queue side
            (rest_order side
              (record { order_id = id; side = side; price = price; qty = r.0 })
              (queue side (matched id side price qty (view book))))
            (matched id side price qty (view book))
        else matched id side price qty (view book))
unfolding entered
entered-view id side price qty can_rest book trades r m v =
    let e = matched-view id side price qty book trades r m in
    elim (Bool-cases (ltb 0 r.0 && can_rest)) [
      | inl t ↦ rw t (
          rested-view id side price r.0 r.1 _ _ e
            (add_resting_order-Rests id side price r.0 r.1 (rw m.own v)))
      | inr f ↦ rw f e
    ]

-- The outcome is that of price-time priority.
pub match_and_rest-view :
    (id : ℕ) (side : Side) (price : Price) (qty : ℕ) (can_rest : Bool) (book : OrderBook)
    (trades : List Trade)
    → IsValid book
    → view_outcome (match_and_rest id side price qty can_rest book trades)
      ≡ enter id side price qty can_rest (view book) trades
unfolding match_and_rest enter entered view_outcome
match_and_rest-view id bid price qty can_rest book trades v =
    let r = match_incoming id bid price qty book trades in
    let m = match_incoming-Matches id bid price qty book trades (v.sorted ask) in
    let e = entered-view id bid price qty can_rest book trades r m (v.sorted bid) in
    let after = matched id bid price qty (view book) in
    let remainder = λ (n : ℕ).
      if ltb 0 n && can_rest
      then with_queue bid (rest_order bid (resting_order id bid price n) (orders bid book)) after
      else after in
    λ i. record {
      error = BookError.none;
      queues = (e ∙ ap remainder m.remaining) i;
      trades = m.traded i;
    }
match_and_rest-view id ask price qty can_rest book trades v =
    let r = match_incoming id ask price qty book trades in
    let m = match_incoming-Matches id ask price qty book trades (v.sorted bid) in
    let e = entered-view id ask price qty can_rest book trades r m (v.sorted ask) in
    let after = matched id ask price qty (view book) in
    let remainder = λ (n : ℕ).
      if ltb 0 n && can_rest
      then with_queue ask (rest_order ask (resting_order id ask price n) (orders ask book)) after
      else after in
    λ i. record {
      error = BookError.none;
      queues = (e ∙ ap remainder m.remaining) i;
      trades = m.traded i;
    }

-- An order with a new id may enter if the sums that it makes fit.
pub record MayEnter (id : ℕ) (side : Side) (price : Price) (qty : ℕ) (can_rest : Bool)
    (book : OrderBook) : Type 0 where
  pub fresh : count_live id book ≡ 0
  pub traded_fits :
      book.stats.traded_qty + min qty (available side price (orders (opposite side) book))
      ≤ max_quantity
  pub priced : can_rest ≡ true → pos 0 <ℤ price
  pub level_fits :
      can_rest ≡ true
      → total_at price (orders side book)
          + (qty - available side price (orders (opposite side) book))
        ≤ max_quantity

entered-IsValid :
    (id : ℕ) (side : Side) (price : Price) (qty : ℕ) (can_rest : Bool) (book : OrderBook)
    (trades : List Trade) (r : ℕ × OrderBook × List Trade)
    → IsValid book
    → Matches id side price qty book trades r
    → MayEnter id side price qty can_rest book
    → IsValid (entered id side price qty can_rest book trades r)
unfolding entered
entered-IsValid id side price qty can_rest book trades r v m h =
    let w = match_incoming-IsValid id side price qty book trades v r m h.traded_fits in
    let own = orders_of_levels side book r.1 m.own in
    elim (Bool-cases (ltb 0 r.0 && can_rest)) [
      | inr f ↦ rw f w
      | inl t ↦
          let rests : can_rest ≡ true = ground (arith, t) in
          rw t (
            add_resting_order-IsValid id side price r.0 r.1 w
              (omega (arith, ids id side price qty book trades v r m h.traded_fits id, h.fresh))
              (h.priced rests) (ground (arith, t)) (rw (own, m.remaining) (h.level_fits rests)))
    ]

pub match_and_rest-IsValid :
    (id : ℕ) (side : Side) (price : Price) (qty : ℕ) (can_rest : Bool) (book : OrderBook)
    (trades : List Trade)
    → IsValid book
    → MayEnter id side price qty can_rest book
    → IsValid (match_and_rest id side price qty can_rest book trades).book
unfolding match_and_rest entered
match_and_rest-IsValid id side price qty can_rest book trades v h =
    entered-IsValid id side price qty can_rest book trades _ v
      (match_incoming-Matches id side price qty book trades (v.sorted (opposite side))) h
