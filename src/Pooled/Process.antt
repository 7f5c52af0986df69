-- ===== src/Pooled/Process.antt =====
-- `process` of src/pooled_order_book.cpp against that of src/order_book.cpp, and runs of events.
use orda_book.Prelude.{
  ℕ, ◌≡◌, ◌∙◌, refl, ap, subst, inl, inr, Option, none, some, List, [], ◌∷◌, All,
}
use orda_book.Types.{EventType, add, cancel, modify, Event, Trade, bid}
use orda_book.Engine.{count_add, count_rejected}
use orda_book.OrderBook.State.{OrderBook}
use orda_book.OrderBook.Invariant.{IsValid, restat-IsValid}
use orda_book.OrderBook.Operations
use orda_book.OrderBook.Operations.Process.{InRange, process-IsValid}
use orda_book.Pooled.State.{PooledOrderBook}
use orda_book.Pooled.Operations.{Outcome, reject, dispatch, process}
use orda_book.Pooled.Represents.{Represents, slot_count}
use orda_book.Pooled.Refusing.{Follows, restat-Represents, restat-slot_count}
use orda_book.Pooled.Adding.{add_order_with_policy-Follows}
use orda_book.Pooled.Live.{cancel_order-Simulates}
use orda_book.Pooled.Replacing.{modify_order-Simulates}

-- For every event, in books that hold the same orders, the baseline's valid: the pooled engine
-- throws nothing. Either its error and its trades are those of the baseline engine, the books that
-- the two leave hold the same orders, with the same counters, and the pool has as many slots as
-- before; or no slot is free, and it refuses with capacity_exceeded, counts an add and a rejection,
-- and leaves the trades and all else of the book as they are.
pub process-Follows :
    (event : Event) (p : PooledOrderBook) (b : OrderBook) (trades : List Trade)
    (rep : Represents bid p b)
    → IsValid b
    → Follows
        (slot_count rep)
        (record p { stats = count_add p.stats })
        trades
        (process event p trades)
        (Operations.process event b trades)
unfolding process Operations.process
process-Follows event p b trades rep v = go event.type
  where
    go :
        (t : EventType)
        → Follows
            (slot_count rep)
            (record p { stats = count_add p.stats })
            trades
            (dispatch t event p trades)
            (Operations.dispatch t event b trades)
    go add =
        add_order_with_policy-Follows event.order_id event.side event.price event.qty
          event.order_type event.time_in_force event.post_only p b trades rep v
    go cancel = inl (cancel_order-Simulates event.order_id p b trades rep v)
    go modify =
        inl (modify_order-Simulates event.order_id event.new_price event.new_qty p b trades rep v)

-- The events in turn; none where one throws.
abbrev pub then_run :
    (PooledOrderBook → List Trade → Option (PooledOrderBook × List Trade))
    → Option Outcome
    → Option (PooledOrderBook × List Trade)
then_run next none = none
then_run next (some o) = next o.book o.trades

unfoldable pub pooled_run :
    List Event → PooledOrderBook → List Trade → Option (PooledOrderBook × List Trade)
pooled_run [] book trades = some (book, trades)
pooled_run (event ∷ events) book trades = then_run (pooled_run events) (process event book trades)

-- A result, and a valid book of the baseline engine that holds the same orders.
pub record Represented (count : ℕ) (r : Option (PooledOrderBook × List Trade)) : Type 0 where
  pub book : PooledOrderBook
  pub trades : List Trade
  pub result : r ≡ some (book, trades)
  pub base : OrderBook
  pub base_valid : IsValid base
  pub represents : Represents bid book base
  pub slots_kept : slot_count represents ≡ count

after_event :
    (count : ℕ) (events : List Event) (o : Option Outcome) (outcome : Outcome)
    → o ≡ some outcome
    → Represented count (pooled_run events outcome.book outcome.trades)
    → Represented count (then_run (pooled_run events) o)
after_event count events o outcome e r = record {
  book = r.book;
  trades = r.trades;
  result = ap (then_run (pooled_run events)) e ∙ r.result;
  base = r.base;
  base_valid = r.base_valid;
  represents = r.represents;
  slots_kept = r.slots_kept;
}

Represented-count :
    (count count' : ℕ) (r : Option (PooledOrderBook × List Trade))
    → count ≡ count'
    → Represented count r
    → Represented count' r
Represented-count count count' r e h = subst (λ n. Represented n r) e h

-- From a book that holds the orders of a valid book of the baseline engine, no stream of events whose
-- quantities fit makes the pooled engine throw, and the book after it again holds the orders of a
-- valid book of the baseline engine; no slot of the pool is lost or made.
pub pooled_run-Represented :
    (events : List Event) (p : PooledOrderBook) (b : OrderBook) (trades : List Trade)
    (rep : Represents bid p b)
    → IsValid b
    → All InRange events
    → Represented (slot_count rep) (pooled_run events p trades)
unfolding pooled_run reject
pooled_run-Represented [] p b trades rep v fits = record {
  book = p;
  trades = trades;
  result = refl;
  base = b;
  base_valid = v;
  represents = rep;
  slots_kept = refl;
}
pooled_run-Represented (event ∷ events) p b trades rep v (fit, fits) =
    elim (process-Follows event p b trades rep v) [
      | inl s ↦ after_event (slot_count rep) events (process event p trades) s.outcome s.result (
          Represented-count (slot_count s.represents) (slot_count rep) _ s.slots_kept (
            pooled_run-Represented events s.outcome.book _ s.outcome.trades s.represents
              (process-IsValid event b trades v fit) fits))
      | inr x ↦
          let counted = restat-Represents p b count_add rep in
          let refused =
            restat-Represents (record p { stats = count_add p.stats })
              (record b { stats = count_add b.stats }) count_rejected counted in
          after_event (slot_count rep) events (process event p trades) _ x.refused (
            Represented-count (slot_count refused) (slot_count rep) _
              (restat-slot_count _ _ count_rejected counted ∙ restat-slot_count p b count_add rep)
              (pooled_run-Represented events _ _ trades refused
                (restat-IsValid (record b { stats = count_add b.stats })
                  (count_rejected (count_add b.stats))
                  (restat-IsValid b (count_add b.stats) v (unfold count_add in refl))
                  (unfold count_rejected in refl))
                fits))
    ]
