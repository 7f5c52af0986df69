-- ===== src/Replay/Trace.antt =====
-- The trace of src/replay_main.cpp: the consumer that keeps a frame for every event, refused ones too.
use orda_book.Prelude.{
  ℕ, zero, suc, ◌+◌, ◌-◌, ◌≤◌, ◌<◌, min, ◌==◌, ◌≡◌, refl, sym, ap, ◌∙◌, subst, inl, inr, Bool-cases,
  if◌then◌else◌, Bool, true, false, Option, none, some, List, [], ◌∷◌, ◌++◌, length, length-append,
  arith,
}
use orda_book.Prelude.Lists.{take, drop}
use orda_book.Types.{bid, ask, Event, Trade, OrderSnapshot, BookError}
use orda_book.Engine.{increment}
use orda_book.OrderBook.State.{OrderBook}
use orda_book.OrderBook.View.{orders}
use orda_book.OrderBook.Operations.{process}
use orda_book.OrderBook.Runs.{run}

pub record TraceFrame : Type 0 where
  pub step : ℕ
  pub event : Option Event
  pub error : BookError
  pub trades : List Trade
  pub bids : List OrderSnapshot
  pub asks : List OrderSnapshot

-- The variables that the consumer captures.
pub record Trace : Type 0 where
  pub book : OrderBook
  pub trades : List Trade
  pub frames : List TraceFrame
  pub event_count : ℕ
  pub trace_too_large : Bool

abbrev pub maximum_trace_events : ℕ
maximum_trace_events = 500

-- The frame before all events.
abbrev pub first_frame : TraceFrame
first_frame = record {
  step = 0;
  event = none;
  error = BookError.none;
  trades = [];
  bids = [];
  asks = [];
}

-- The frame of one event.
abbrev pub traced_frame : Event → Trace → TraceFrame
traced_frame event trace =
    let o = process event trace.book trace.trades in
    record {
      step = increment trace.event_count;
      event = some event;
      error = o.error;
      trades = drop (length trace.trades) o.trades;
      bids = orders bid o.book;
      asks = orders ask o.book;
    }

abbrev pub traced : Event → Trace → Trace
traced event trace =
    let o = process event trace.book trace.trades in
    record trace {
      book = o.book;
      trades = o.trades;
      frames = trace.frames ++ (traced_frame event trace ∷ []);
      event_count = increment trace.event_count;
    }

unfoldable pub consume_trace : Event → Trace → Trace
consume_trace event trace =
    if trace.trace_too_large
    then trace
    else if trace.event_count == maximum_trace_events
    then record trace { trace_too_large = true }
    else traced event trace

unfoldable pub trace_all : List Event → Trace → Trace
trace_all [] trace = trace
trace_all (event ∷ events) trace = trace_all events (consume_trace event trace)

module _ (event : Event) (trace : Trace) where
  -- The consumer on the value of its two tests.
  abbrev chosen : Bool → Bool → Trace
  chosen failed full =
      if failed
      then trace
      else if full
      then record trace { trace_too_large = true }
      else traced event trace

  consume_trace-chosen :
      (failed full : Bool)
      → trace.trace_too_large ≡ failed
      → (trace.event_count == maximum_trace_events) ≡ full
      → consume_trace event trace ≡ chosen failed full
  unfolding consume_trace
  consume_trace-chosen failed full f b = λ i. chosen (f i) (b i)

-- A trace that is too large stays as it is.
trace_all_large :
    (events : List Event) (trace : Trace)
    → trace.trace_too_large ≡ true
    → trace_all events trace ≡ trace
unfolding trace_all
trace_all_large [] trace f = refl
trace_all_large (event ∷ events) trace f =
    ap (trace_all events) (consume_trace-chosen event trace true _ f refl)
    ∙ trace_all_large events trace f

module _ (book : OrderBook) (trades : List Trade) where
  run_none :
      (n : ℕ) (events : List Event) → n ≡ 0 → run (take n events) book trades ≡ (book, trades)
  unfolding run take
  run_none n events z = ap (λ m. run (take m events) book trades) z

  run_nil : (n : ℕ) → run (take n []) book trades ≡ (book, trades)
  unfolding run take
  run_nil zero = refl
  run_nil (suc n) = refl

  run_one :
      (n k : ℕ) (event : Event) (events : List Event)
      → n ≡ suc k
      → let o = process event book trades in
        run (take n (event ∷ events)) book trades ≡ run (take k events) o.book o.trades
  unfolding run take
  run_one n k event events s = ap (λ m. run (take m (event ∷ events)) book trades) s

-- What a trace of events holds in its end.
pub record Shows (events : List Event) (before after : Trace) : Type 0 where
  pub ran :
      (after.book, after.trades)
      ≡ run (take (maximum_trace_events - before.event_count) events) before.book before.trades
  pub framed :
      length after.frames
      ≡ length before.frames + min (maximum_trace_events - before.event_count) (length events)
  pub complete :
      after.trace_too_large ≡ false → before.event_count + length events ≤ maximum_trace_events
  pub too_large :
      after.trace_too_large ≡ true → maximum_trace_events < before.event_count + length events

-- A trace that is not yet too large and has at most 500 events: more events run the book as far as
-- the limit of 500, whether they are refused or not, with one frame for each, and the trace is too
-- large exactly if there were events past the limit.
pub trace_all-Shows :
    (events : List Event) (trace : Trace)
    → trace.trace_too_large ≡ false
    → trace.event_count ≤ maximum_trace_events
    → Shows events trace (trace_all events trace)
unfolding trace_all run take increment
trace_all-Shows [] trace f c = record {
  ran = sym (run_nil trace.book trace.trades _);
  framed = omega arith;
  complete = λ _. omega (arith, c);
  too_large = λ t. absurd cc;
}
trace_all-Shows (event ∷ events) trace f c =
    elim (Bool-cases (trace.event_count == maximum_trace_events)) [
      | inl full ↦
          let at : trace.event_count ≡ maximum_trace_events = ground arith in
          let large : Trace = record trace { trace_too_large = true } in
          let end : trace_all events (consume_trace event trace) ≡ large =
            ap (trace_all events) (consume_trace-chosen event trace false true f full)
            ∙ trace_all_large events large refl in
          subst (Shows (event ∷ events) trace) (sym end) (record {
            ran = sym (run_none trace.book trace.trades _ (event ∷ events) (omega arith));
            framed = omega arith;
            complete = λ x. absurd cc;
            too_large = λ _. omega arith;
          })
      | inr room ↦
          let next = traced event trace in
          let below : trace.event_count < maximum_trace_events = ground arith in
          let s = trace_all-Shows events next f (omega arith) in
          let end : trace_all events (consume_trace event trace) ≡ trace_all events next =
            ap (trace_all events) (consume_trace-chosen event trace false false f room) in
          subst (Shows (event ∷ events) trace) (sym end) (record {
            ran = s.ran ∙ sym (run_one trace.book trace.trades _ _ event events (omega arith));
            framed =
                omega (arith, s.framed, length-append trace.frames (traced_frame event trace ∷ []));
            complete = λ x. omega (arith, s.complete x);
            too_large = λ x. omega (arith, s.too_large x);
          })
    ]
