-- ===== src/Replay.antt =====
-- The replay of a file of events in src/replay_main.cpp: the consumer that stops at the first event
-- that the engine refuses, and in Trace the one that goes on.
pub mod Trace
use orda_book.Prelude.{
  ℕ, ◌+◌, ◌%◌, ◌^◌, ◌≡◌, ◌≢◌, refl, inl, inr, Bool-cases, if◌then◌else◌, Bool, true, false, List,
  [], ◌∷◌, ◌++◌, ap, sym, ◌∙◌, subst, ◌<◌, length, All, arith,
}
use orda_book.Types.{bid, ask, Event, Trade, BookError}
use orda_book.Engine.{increment}
use orda_book.OrderBook.State.{OrderBook}
use orda_book.OrderBook.View.{orders}
use orda_book.OrderBook.Invariant.{IsValid}
use orda_book.OrderBook.Operations.{process}
use orda_book.OrderBook.Operations.Process.{InRange, process-IsValid}
use orda_book.OrderBook.Policies.{process-RefusesWhole}
use orda_book.OrderBook.Runs.{run, empty_book}

-- The variables that the consumer captures.
pub record Replay : Type 0 where
  pub book : OrderBook
  pub trades : List Trade
  pub event_count : ℕ
  pub engine_failed : Bool
  pub failed_line : ℕ
  pub failed_error : BookError

-- The variables as `main` makes them.
abbrev pub new_replay : Replay
new_replay = record {
  book = empty_book;
  trades = [];
  event_count = 0;
  engine_failed = false;
  failed_line = 0;
  failed_error = BookError.none;
}

abbrev pub is_error : BookError → Bool
is_error BookError.none = false
is_error _ = true

unfoldable pub consume : Event → Replay → Replay
consume event replay =
    let o = process event replay.book replay.trades in
    if replay.engine_failed
    then replay
    else if is_error o.error
    then record replay {
      book = o.book;
      trades = o.trades;
      engine_failed = true;
      failed_line = event.line_number;
      failed_error = o.error;
    }
    else record replay {
      book = o.book;
      trades = o.trades;
      event_count = increment replay.event_count;
    }

-- The parser calls the consumer for each event.
unfoldable pub consume_all : List Event → Replay → Replay
consume_all [] replay = replay
consume_all (event ∷ events) replay = consume_all events (consume event replay)

module _ (event : Event) (replay : Replay) where
  -- The replay after an event that the engine refuses, and after one that it accepts.
  abbrev stopped : Replay
  stopped =
      let o = process event replay.book replay.trades in
      record replay {
        book = o.book;
        trades = o.trades;
        engine_failed = true;
        failed_line = event.line_number;
        failed_error = o.error;
      }

  abbrev advanced : Replay
  advanced =
      let o = process event replay.book replay.trades in
      record replay { book = o.book; trades = o.trades; event_count = increment replay.event_count }

  -- The consumer on the value of its two tests.
  abbrev consumed : Bool → Bool → Replay
  consumed failed bad = if failed then replay else if bad then stopped else advanced

  consume-consumed :
      (failed bad : Bool)
      → replay.engine_failed ≡ failed
      → is_error (process event replay.book replay.trades).error ≡ bad
      → consume event replay ≡ consumed failed bad
  unfolding consume
  consume-consumed failed bad f b = λ i. consumed (f i) (b i)

-- After a failure, later events change nothing.
consume_all_failed :
    (events : List Event) (replay : Replay)
    → replay.engine_failed ≡ true
    → consume_all events replay ≡ replay
unfolding consume_all
consume_all_failed [] replay f = refl
consume_all_failed (event ∷ events) replay f =
    ap (consume_all events) (consume-consumed event replay true _ f refl)
    ∙ consume_all_failed events replay f

-- Every event of a list is accepted, each by the book that the events before it leave.
abbrev pub AreAccepted : List Event → OrderBook → List Trade → Type 0
AreAccepted [] book trades = Unit {0}
AreAccepted (event ∷ events) book trades =
    let o = process event book trades in
    (o.error ≡ BookError.none) × AreAccepted events o.book o.trades

-- How a replay stands when its events from `refused` on are left, over the book and the trades of
-- those before: none is left and it has not failed, or the first that is left is refused, the replay
-- has failed with its line and its error, and the later events are not processed.
abbrev pub Stops : List Event → OrderBook → List Trade → Replay → Type 0
Stops [] book trades after =
    (after.engine_failed ≡ false) × (after.book ≡ book) × (after.trades ≡ trades)
Stops (event ∷ events) book trades after =
    let o = process event book trades in
    (o.error ≢ BookError.none)
    × (after.engine_failed ≡ true)
    × (after.failed_line ≡ event.line_number)
    × (after.failed_error ≡ o.error)
    × (after.book ≡ o.book)
    × (after.trades ≡ o.trades)

-- What a replay shows in its end is what the events up to the first refused one make.
pub record Explains (events : List Event) (before after : Replay) : Type 0 where
  pub accepted : List Event
  pub refused : List Event
  pub split : events ≡ accepted ++ refused
  pub all_accepted : AreAccepted accepted before.book before.trades
  pub stops :
      let (book, trades) = run accepted before.book before.trades in Stops refused book trades after
  pub bids : orders bid after.book ≡ orders bid (run accepted before.book before.trades).0
  pub asks : orders ask after.book ≡ orders ask (run accepted before.book before.trades).0
  pub trades : after.trades ≡ (run accepted before.book before.trades).1
  pub counted : after.event_count ≡ (before.event_count + length accepted) % 2 ^ 64

is_error-ne : (error : BookError) → is_error error ≡ true → error ≢ BookError.none
is_error-ne error e n = let x : false ≡ true = sym (ap is_error n) ∙ e in cc

no_error : (error : BookError) → is_error error ≡ false → error ≡ BookError.none
no_error BookError.none e = refl
no_error _ e = cc

-- A replay that has not failed, over a valid book and events whose quantities fit, splits the events
-- into those before the first that the engine refuses, each accepted in its turn, and the rest. It
-- ends with the orders of both sides, the trades and the count that the accepted ones make. If there
-- is no rest it has not failed, and its book is theirs; else it has failed with the line and the error
-- of the refused event, and its book is the one that this event leaves, whatever comes after it.
pub consume_all-Explains :
    (events : List Event) (replay : Replay)
    → replay.engine_failed ≡ false
    → replay.event_count < 2 ^ 64
    → IsValid replay.book
    → All InRange events
    → Explains events replay (consume_all events replay)
unfolding consume_all run increment
consume_all-Explains [] replay f c v r = record {
  accepted = [];
  refused = [];
  split = refl;
  all_accepted = tt;
  stops = (f, refl, refl);
  bids = refl;
  asks = refl;
  trades = refl;
  counted = omega (arith, c);
}
consume_all-Explains (event ∷ events) replay f c v (r, rs) =
    let o = process event replay.book replay.trades in
    elim (Bool-cases (is_error o.error)) [
      | inl bad ↦
          let ne = is_error-ne o.error bad in
          let (t, b, a, _) = process-RefusesWhole event replay.book replay.trades v ne in
          let end : consume_all events (consume event replay) ≡ stopped event replay =
            ap (consume_all events) (consume-consumed event replay false true f bad)
            ∙ consume_all_failed events (stopped event replay) refl in
          subst (Explains (event ∷ events) replay) (sym end) (record {
            accepted = [];
            refused = event ∷ events;
            split = refl;
            all_accepted = tt;
            stops = (ne, refl, refl, refl, refl, refl);
            bids = b;
            asks = a;
            trades = t;
            counted = omega (arith, c);
          })
      | inr good ↦
          let next = advanced event replay in
          let e =
            consume_all-Explains events next f (omega arith)
              (process-IsValid event replay.book replay.trades v r) rs in
          let end : consume_all events (consume event replay) ≡ consume_all events next =
            ap (consume_all events) (consume-consumed event replay false false f good) in
          subst (Explains (event ∷ events) replay) (sym end) (record {
            accepted = event ∷ e.accepted;
            refused = e.refused;
            split = ap (◌∷◌ event) e.split;
            all_accepted = (no_error o.error good, e.all_accepted);
            stops = e.stops;
            bids = e.bids;
            asks = e.asks;
            trades = e.trades;
            counted = omega (arith, e.counted, c);
          })
    ]
