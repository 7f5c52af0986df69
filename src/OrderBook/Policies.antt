-- ===== src/OrderBook/Policies.antt =====
-- What the order policies of `add_order_with_policy` in src/order_book.cpp promise a client:
-- refusals change nothing, fill-or-kill limit orders are all or nothing, immediate orders do not rest,
-- and post-only orders do not take.
use orda_book.Prelude.{
  ℕ, ◌+◌, ◌≤◌, min, ap, ◌≡◌, ◌≢◌, refl, sym, ◌∙◌, subst, Bool, true, false, ◌&&◌, not, List, arith,
}
use mathlib.Core.List.{append-nil}
use orda_book.Prelude.Int.{ℤ, pos, pos_part}
use orda_book.Types.{
  Price, Side, bid, ask, OrderType, limit, market, TimeInForce, fill_or_kill, EventType, add,
  cancel, modify, Event, Trade, EngineStats, BookError,
}
use orda_book.Engine.{
  opposite, is_market, is_fill_or_kill, is_good_til_cancel, effective_price,
  effective_time_in_force, count_add, count_cancel, count_modify, count_rejected,
}
use orda_book.Priority.{available, fills, traded}
use orda_book.Priority.Fills.{traded-append, traded-fills}
use orda_book.Priority.Book.{Queues, queue, Result, enter, add_to, handle, step}
use orda_book.Priority.Entry.{opposite-enter, own-enter}
use orda_book.Priority.Uncrossed.{ArePositive, fills_none, left_none}
use orda_book.OrderBook.Shown.{orders-ArePositive}
use orda_book.Priority.Admission.{add_to-elim, replace_in-elim, cancel_in-elim}
use orda_book.OrderBook.State.{OrderBook}
use orda_book.OrderBook.View.{orders}
use orda_book.OrderBook.Invariant.{IsValid}
use orda_book.OrderBook.Operations.{process, add_order_with_policy}
use orda_book.OrderBook.Operations.Entering.{view, view_outcome, queue-view}
use orda_book.OrderBook.Operations.AddingView.{add_order_with_policy-view}
use orda_book.OrderBook.Operations.Process.{process-step}

-- A refusal leaves the queues, the trades and the traded quantity alone.
abbrev RefusesWhole : Queues → List Trade → Result → Type 0
RefusesWhole q trades r =
    r.error ≢ BookError.none
    → (r.trades ≡ trades)
      × (r.queues.bids ≡ q.bids)
      × (r.queues.asks ≡ q.asks)
      × (r.queues.stats.traded_qty ≡ q.stats.traded_qty)

step-RefusesWhole :
    (event : Event) (q : Queues) (trades : List Trade) → RefusesWhole q trades (step event q trades)
unfolding step enter count_add count_cancel count_modify count_rejected
step-RefusesWhole event q trades = go event.type
  where
    go : (t : EventType) → RefusesWhole q trades (handle t event q trades)
    go add =
        add_to-elim (RefusesWhole q trades) event.order_id event.side event.price event.qty
          event.order_type event.time_in_force event.post_only q trades
          (λ e ne _. (refl, refl, refl, refl)) (λ _ _ _ _ ne. absurd (ne refl))
    go cancel =
        cancel_in-elim (RefusesWhole q trades) event.order_id q trades
          (λ e ne _. (refl, refl, refl, refl)) (λ ne. absurd (ne refl))
    go modify =
        replace_in-elim (RefusesWhole q trades) event.order_id event.new_price event.new_qty q
          trades (λ e ne _. (refl, refl, refl, refl)) (λ _ _ ne. absurd (ne refl))

-- In a valid book, an event that is answered with an error makes no trade, and leaves the orders of
-- both sides and the traded quantity as they are.
pub process-RefusesWhole :
    (event : Event) (book : OrderBook) (trades : List Trade)
    → IsValid book
    → (process event book trades).error ≢ BookError.none
    → ((process event book trades).trades ≡ trades)
      × (orders bid (process event book trades).book ≡ orders bid book)
      × (orders ask (process event book trades).book ≡ orders ask book)
      × ((process event book trades).book.stats.traded_qty ≡ book.stats.traded_qty)
unfolding view_outcome
process-RefusesWhole event book trades v =
    subst (RefusesWhole (view book) trades) (sym (process-step event book trades v))
      (step-RefusesWhole event (view book) trades)

pub kept_in :
    (side : Side) (book : OrderBook) (stats : EngineStats)
    → queue side (record (view book) { stats = stats }) ≡ queue side (view book)
kept_in bid book stats = refl
kept_in ask book stats = refl

module _ (id : ℕ) (side : Side) (price : Price) (qty : ℤ) (type : OrderType) (tif : TimeInForce)
    (post : Bool) (book : OrderBook) (trades : List Trade) where
  abbrev asked : Result
  asked = add_to id side price qty type tif post (view book) trades

  -- From a property of the result that priority asks for to one of the outcome.
  added :
      (P : Result → Type 0)
      → IsValid book
      → P asked
      → P (view_outcome (add_order_with_policy id side price qty type tif post book trades))
  added P v =
      subst P (sym (add_order_with_policy-view id side price qty type tif post book trades v))

-- Where the order is accepted, all that is asked for has been traded.
abbrev FillsWhole : ℕ → List Trade → Result → Type 0
FillsWhole asked trades r = r.error ≡ BookError.none → traded r.trades ≡ traded trades + asked

-- What a fill-or-kill order of a type has to trade: a limit order all of its quantity, a market order
-- as much of it as the other side has.
abbrev pub fill_or_kill_qty : OrderType → Side → ℕ → OrderBook → ℕ
fill_or_kill_qty limit side qty book = qty
fill_or_kill_qty market side qty book =
    min qty (available side (effective_price market side (pos 0)) (orders (opposite side) book))

all_filled :
    (type : OrderType) (side : Side) (price : Price) (qty : ℕ) (book : OrderBook)
    → let offered =
        available side (effective_price type side price) (orders (opposite side) book) in
      (is_fill_or_kill (effective_time_in_force type fill_or_kill) ≡ true → qty ≤ offered)
      → min qty offered ≡ fill_or_kill_qty type side qty book
all_filled limit side price qty book whole = let w = whole refl in omega arith
all_filled market bid price qty book whole = refl
all_filled market ask price qty book whole = refl

-- In a valid book, a fill-or-kill order that is accepted trades its whole quantity if it is a limit
-- order; a market order trades as much of its quantity as the other side has at any price that it
-- takes, up to the greatest of a buy and down to the least of a sell.
pub add_order_with_policy-FillsWhole :
    (id : ℕ) (side : Side) (price : Price) (qty : ℤ) (type : OrderType) (post : Bool)
    (book : OrderBook) (trades : List Trade)
    → IsValid book
    → (add_order_with_policy id side price qty type fill_or_kill post book trades).error
      ≡ BookError.none
    → traded (add_order_with_policy id side price qty type fill_or_kill post book trades).trades
      ≡ traded trades + fill_or_kill_qty type side (pos_part qty) book
unfolding view_outcome enter
add_order_with_policy-FillsWhole id side price qty type post book trades v =
    let P = FillsWhole (fill_or_kill_qty type side (pos_part qty) book) trades in
    added id side price qty type fill_or_kill post book trades P v (
      add_to-elim P id side price qty type fill_or_kill post (view book) trades
        (λ error ne e. absurd (ne e))
        (λ _ _ whole _ _.
          let xs = queue (opposite side) (record (view book) { stats = count_add book.stats }) in
          let at = effective_price type side price in
          let same : xs ≡ orders (opposite side) book =
            kept_in (opposite side) book (count_add book.stats) ∙ queue-view (opposite side) book in
          omega (
            arith,
            traded-append trades (fills side at id (pos_part qty) xs),
            traded-fills side at id (pos_part qty) xs,
            all_filled type side price (pos_part qty) book (rw same at whole),
            ap (available side at) same,
          )))

-- The order whose remainder may not rest.
abbrev NeverRests : Side → Queues → Result → Type 0
NeverRests side q r = queue side r.queues ≡ queue side q

now_too :
    (type : OrderType) (tif : TimeInForce)
    → not (is_market type) && is_good_til_cancel tif ≡ false
    → not (is_market type) && is_good_til_cancel (effective_time_in_force type tif) ≡ false
now_too limit tif h = h
now_too market tif h = refl

-- In a valid book, a market order and an order that is not good till cancel leave their own side as
-- it is, whatever they trade and whether they are accepted.
pub add_order_with_policy-NeverRests :
    (id : ℕ) (side : Side) (price : Price) (qty : ℤ) (type : OrderType) (tif : TimeInForce)
    (post : Bool) (book : OrderBook) (trades : List Trade)
    → IsValid book
    → not (is_market type) && is_good_til_cancel tif ≡ false
    → orders side (add_order_with_policy id side price qty type tif post book trades).book
      ≡ orders side book
unfolding view_outcome
add_order_with_policy-NeverRests id side price qty type tif post book trades v now =
    let q : Queues = record (view book) { stats = count_add book.stats } in
    let kept : NeverRests side (view book) (asked id side price qty type tif post book trades) =
      add_to-elim (NeverRests side (view book)) id side price qty type tif post (view book) trades
        (λ error ne. kept_in side book (count_rejected (count_add book.stats)))
        (λ _ _ _ _.
          own-enter id side (effective_price type side price) (pos_part qty)
            (not (is_market type) && is_good_til_cancel (effective_time_in_force type tif)) q trades
          ∙ ground (arith, now_too type tif now, kept_in side book (count_add book.stats))) in
    sym (queue-view side _)
    ∙ added id side price qty type tif post book trades (NeverRests side (view book)) v kept
    ∙ queue-view side book

-- No trade, and nothing taken from the other side.
abbrev Quiet : Side → Queues → List Trade → Result → Type 0
Quiet side q trades r =
    (r.trades ≡ trades) × (queue (opposite side) r.queues ≡ queue (opposite side) q)

-- In a valid book, a post-only order never trades, and leaves the other side as it is.
pub add_order_with_policy-Quiet :
    (id : ℕ) (side : Side) (price : Price) (qty : ℤ) (type : OrderType) (tif : TimeInForce)
    (book : OrderBook) (trades : List Trade)
    → IsValid book
    → ((add_order_with_policy id side price qty type tif true book trades).trades ≡ trades)
      × (orders
            (opposite side)
            (add_order_with_policy id side price qty type tif true book trades).book
          ≡ orders (opposite side) book)
unfolding view_outcome enter
add_order_with_policy-Quiet id side price qty type tif book trades v =
    let q : Queues = record (view book) { stats = count_add book.stats } in
    let at = effective_price type side price in
    let same = kept_in (opposite side) book (count_add book.stats) in
    let positive : ArePositive (queue (opposite side) q) =
      rw (same, queue-view (opposite side) book) (orders-ArePositive (opposite side) book v) in
    let P : Result → Type 0 = Quiet side (view book) trades in
    let quiet : P (asked id side price qty type tif true book trades) =
      add_to-elim P id side price qty type tif true (view book) trades
        (λ error ne. (refl, kept_in (opposite side) book (count_rejected (count_add book.stats))))
        (λ _ _ _ passive. (
          rw (fills_none side at id (pos_part qty) _ positive (passive refl)) (append-nil trades),
          opposite-enter id side at (pos_part qty) _ q trades
              ∙ left_none side at (pos_part qty) _ positive (passive refl)
              ∙ same,
        )) in
    let (t, o) = added id side price qty type tif true book trades P v quiet in
    (t, sym (queue-view (opposite side) _) ∙ o ∙ queue-view (opposite side) book)
