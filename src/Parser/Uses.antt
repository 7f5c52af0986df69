-- ===== src/Parser/Uses.antt =====
-- What src/event_parser.cpp hands on, and the replay of it by src/replay_main.cpp.
use orda_book.Prelude.{
  ◌≡◌, refl, sym, ap, ◌∙◌, subst, Bool, true, false, none, some, [], All, arith,
}
use orda_book.Prelude.Lists.{All-mono, All-split}
use orda_book.Types.{bid, ask, Event}
use orda_book.Priority.Uncrossed.{Uncrossed}
use orda_book.OrderBook.View.{orders}
use orda_book.OrderBook.Conservation.{IsUncrossed}
use orda_book.OrderBook.Operations.Process.{InRange}
use orda_book.OrderBook.Runs.{run, empty_book, empty_book-IsValid, run_empty-IsUncrossed}
use orda_book.Replay.{new_replay, consume_all, Explains, consume_all-Explains}
use orda_book.Parser.Tokens.{Bytes}
use orda_book.Parser.Stream.{Scan, parse_event_stream_impl, for_each_event_stream}
use orda_book.Parser.Lines.{lines_of, Outcome, outcome, report, parse_event_stream_impl-outcome}
use orda_book.Parser.Policies.{IsSound}
use orda_book.Parser.Ranges.{outcome-IsSound}

abbrev pub AreSound : Scan → Type 0
AreSound scan = All IsSound scan.seen × All IsSound scan.result.events

report-AreSound :
    (callback : Bool) (o : Outcome) → All IsSound o.0 → AreSound (report callback [] [] o)
report-AreSound true (events, none) s = (s, tt)
report-AreSound true (events, some (line, message)) s = (s, tt)
report-AreSound false (events, none) s = (tt, s)
report-AreSound false (events, some (line, message)) s = (tt, tt)

-- Whatever the text, every event that the parser hands on has all its fields in the range of their types,
-- a market order neither waits nor is post-only, and a post-only order is not fill-or-kill.
pub parse_event_stream_impl-AreSound :
    (input : Bytes) (callback : Bool) → AreSound (parse_event_stream_impl input callback)
parse_event_stream_impl-AreSound input callback =
    subst AreSound (sym (parse_event_stream_impl-outcome input callback))
      (report-AreSound callback (outcome 0 (lines_of input)) (outcome-IsSound 0 (lines_of input)))

Sound-InRange : (event : Event) → IsSound event → InRange event
Sound-InRange event s =
    let (a, _) = s.fits.qty_fits in
    let (b, _) = s.fits.new_qty_fits in
    record { qty_fits = omega arith; new_qty_fits = omega arith }

report-seen : (o : Outcome) → (report true [] [] o).seen ≡ o.0
report-seen (events, none) = refl
report-seen (events, some (line, message)) = refl

-- Whatever the text, the events that it gives to a callback are those of its lines up to the first
-- that is malformed. The replay of them, from a new book, accepts those before the first that the
-- engine refuses, all of them if it refuses none, and ends with the orders of both sides, the trades
-- and the count that these make. It has failed exactly if one is refused, with the line and the error
-- of that event, and its book is the one that this event leaves. No bid of its book reaches an ask.
pub consume_all-for_each_event_stream :
    (input : Bytes)
    → let events = (for_each_event_stream input).seen in
      let after = consume_all events new_replay in
      (events ≡ (outcome 0 (lines_of input)).0)
      × Explains events new_replay after
      × IsUncrossed after.book
unfolding for_each_event_stream
consume_all-for_each_event_stream input =
    let events = (for_each_event_stream input).seen in
    let fits =
      All-mono IsSound InRange Sound-InRange events
        (parse_event_stream_impl-AreSound input true).0 in
    let e = consume_all-Explains events new_replay refl (omega arith) empty_book-IsValid fits in
    let accepted_fits = All-split InRange e.accepted e.refused (subst (All InRange) e.split fits) in
    let u = run_empty-IsUncrossed e.accepted accepted_fits.0 in
    (
      ap (λ scan. scan.seen) (parse_event_stream_impl-outcome input true)
          ∙ report-seen (outcome 0 (lines_of input)),
      e,
      subst (λ o. Uncrossed bid o (orders ask (consume_all events new_replay).book)) (sym e.bids)
          (subst (Uncrossed bid (orders bid (run e.accepted empty_book []).0)) (sym e.asks) u),
    )
