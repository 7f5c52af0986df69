-- ===== src/OrderBook/Returns.antt =====
-- An order that rests without a trade can be cancelled, and nothing of it remains.
use orda_book.Prelude.{
  ℕ, ◌-◌, ◌<◌, ◌≤◌, min, ◌≡◌, ◌∙◌, refl, sym, ap, subst, true, false, List, arith,
}
use orda_book.Prelude.Int.{ℤ, pos_part}
use orda_book.Types.{Price, Side, bid, ask, limit, good_til_cancel, Trade, BookError}
use orda_book.Engine.{max_quantity, is_valid_qty, count_add}
use orda_book.Priority.{available, rest_order, withdraw, traded}
use orda_book.Priority.Ids.{withdraw-rest_order, withdraw-absent, count_id-rest_order}
use orda_book.Priority.Entry.{own-enter, opposite-enter, traded-enter}
use orda_book.Priority.Uncrossed.{ArePositive, left_none}
use orda_book.Priority.Book.{Queues, queue, Result, enter, new, add_to, cancel_in, is_live}
use orda_book.Priority.Admission.{add_to-elim}
use orda_book.OrderBook.State.{OrderBook}
use orda_book.OrderBook.View.{orders}
use orda_book.OrderBook.Invariant.{IsValid, both_sides}
use orda_book.OrderBook.Shown.{orders-ArePositive}
use orda_book.OrderBook.Operations.{add_order, cancel_order}
use orda_book.OrderBook.Operations.Entering.{view, view_outcome}
use orda_book.OrderBook.Operations.Adding.{add_order_with_policy-LeavesValid}
use orda_book.OrderBook.Operations.AddingView.{add_order_with_policy-view}
use orda_book.OrderBook.Operations.Replacing.{cancel_order-view}

-- The order is there, and without it the queues are those of before.
pub record Added (id : ℕ) (before after : Queues) : Type 0 where
  pub live : is_live id after ≡ true
  pub bids_back : withdraw id after.bids ≡ before.bids
  pub asks_back : withdraw id after.asks ≡ before.asks

rested-Added :
    (id : ℕ) (side : Side) (price : Price) (qty : ℕ) (q : Queues) (trades : List Trade)
    → is_live id q ≡ false
    → 0 < qty
    → ((s : Side) → ArePositive (queue s q))
    → (enter id side price qty true q trades).trades ≡ trades
    → Added id q (enter id side price qty true q trades).queues
rested-Added id bid price qty q trades free some_qty positive quiet =
    let t : min qty (available bid price q.asks) ≡ 0 =
      omega (arith, traded-enter id bid price qty true q trades, ap traded quiet) in
    let order = new id bid price qty (qty - available bid price q.asks) in
    let own : (enter id bid price qty true q trades).queues.bids ≡ rest_order bid order q.bids =
      own-enter id bid price qty true q trades ∙ ground (arith, t, some_qty) in
    let other : (enter id bid price qty true q trades).queues.asks ≡ q.asks =
      opposite-enter id bid price qty true q trades
      ∙ left_none bid price qty q.asks (positive ask) t in
    record {
      live = rw (own, other) (ground (arith, count_id-rest_order bid id order q.bids));
      bids_back = rw own (withdraw-rest_order bid order q.bids (ground (arith, free)));
      asks_back = rw other (withdraw-absent id q.asks (ground (arith, free)));
    }
rested-Added id ask price qty q trades free some_qty positive quiet =
    let t : min qty (available ask price q.bids) ≡ 0 =
      omega (arith, traded-enter id ask price qty true q trades, ap traded quiet) in
    let order = new id ask price qty (qty - available ask price q.bids) in
    let own : (enter id ask price qty true q trades).queues.asks ≡ rest_order ask order q.asks =
      own-enter id ask price qty true q trades ∙ ground (arith, t, some_qty) in
    let other : (enter id ask price qty true q trades).queues.bids ≡ q.bids =
      opposite-enter id ask price qty true q trades
      ∙ left_none ask price qty q.bids (positive bid) t in
    record {
      live = rw (own, other) (ground (arith, count_id-rest_order ask id order q.asks));
      asks_back = rw own (withdraw-rest_order ask order q.asks (ground (arith, free)));
      bids_back = rw other (withdraw-absent id q.bids (ground (arith, free)));
    }

some_quantity : (qty : ℤ) → is_valid_qty qty ≡ true → 0 < pos_part qty
unfolding is_valid_qty
some_quantity qty h = ground (arith, h)

cancel_in-returns :
    (id : ℕ) (before after : Queues) (trades : List Trade)
    → Added id before after
    → ((cancel_in id after trades).error ≡ BookError.none)
      × ((cancel_in id after trades).queues.bids ≡ before.bids)
      × ((cancel_in id after trades).queues.asks ≡ before.asks)
unfolding cancel_in
cancel_in-returns id before after trades a = rw a.live (refl, a.bids_back, a.asks_back)

-- In a valid book, after an order that `add_order` accepts without a trade, `cancel_order` succeeds,
-- and the orders of both sides are what they were before the add.
pub cancel_order-add_order :
    (id : ℕ) (side : Side) (price : Price) (qty : ℤ) (book : OrderBook) (trades : List Trade)
    → IsValid book
    → pos_part qty ≤ max_quantity
    → (add_order id side price qty book trades).error ≡ BookError.none
    → (add_order id side price qty book trades).trades ≡ trades
    → ((cancel_order id (add_order id side price qty book trades).book trades).error
        ≡ BookError.none)
      × (orders bid (cancel_order id (add_order id side price qty book trades).book trades).book
          ≡ orders bid book)
      × (orders ask (cancel_order id (add_order id side price qty book trades).book trades).book
          ≡ orders ask book)
unfolding add_order view_outcome
cancel_order-add_order id side price qty book trades v fits =
    let o = add_order id side price qty book trades in
    let P : Result → Type 0 =
      λ r. r.error ≡ BookError.none → r.trades ≡ trades → Added id (view book) r.queues in
    let q : Queues = record (view book) { stats = count_add book.stats } in
    let asked : P (add_to id side price qty limit good_til_cancel false (view book) trades) =
      add_to-elim P id side price qty limit good_til_cancel false (view book) trades
        (λ error ne e. absurd (ne e))
        (λ free sized _ _ _ quiet.
          let a =
            rested-Added id side price (pos_part qty) q trades free (some_quantity qty sized)
              (both_sides (λ s. ArePositive (queue s q)) bid (orders-ArePositive bid book v)
                (orders-ArePositive ask book v))
              quiet in
          record { live = a.live; bids_back = a.bids_back; asks_back = a.asks_back }) in
    let added : P (view_outcome o) =
      subst P
        (sym
          (add_order_with_policy-view id side price qty limit good_til_cancel false book trades v))
        asked in
    let valid : IsValid o.book =
      (add_order_with_policy-LeavesValid id side price qty limit good_til_cancel false book trades v
        fits).book_valid in
    λ e quiet.
      subst
        (λ r.
          (r.error ≡ BookError.none)
          × (r.queues.bids ≡ orders bid book)
          × (r.queues.asks ≡ orders ask book))
        (sym (cancel_order-view id o.book trades valid))
        (cancel_in-returns id (view book) (view o.book) trades (added e quiet))
