-- ===== src/Parser/Lines.antt =====
-- The loop over the lines of src/event_parser.cpp against the list of the lines.
use orda_book.Prelude.{
  ℕ, zero, suc, ◌≤◌, ◌<◌, ◌==◌, ◌≡◌, refl, sym, ap, ◌∙◌, inl, inr, Bool-cases, if◌then◌else◌, Bool,
  true, false, Option, none, some, List, [], ◌∷◌, ◌++◌, length, arith,
}
use mathlib.Core.List.{append-nil, append_assoc}
use orda_book.Types.{Event}
use orda_book.Engine.{increment}
use orda_book.Parser.Tokens.{Bytes}
use orda_book.Parser.Stream.{
  Message, Line, skipped, parsed, refused, parse_line, split_line, getline, Scan, fail, succeed,
  parse_lines, parse_event_stream_impl,
}

abbrev pub put_first : ℕ → List Bytes → List Bytes
put_first ch [] = (ch ∷ []) ∷ []
put_first ch (line ∷ lines) = (ch ∷ line) ∷ lines

-- The lines of a text; an end of line at its end begins no other line.
unfoldable pub lines_of : Bytes → List Bytes
lines_of [] = []
lines_of (ch ∷ input) =
    let lines = lines_of input in if ch == b'\n' then [] ∷ lines else put_first ch lines

-- The events up to the first line that is refused, and that line with its message.
abbrev pub Outcome : Type 0
Outcome = List Event × Option (ℕ × Message)

abbrev pub put_event : Event → Outcome → Outcome
put_event event (events, error) = (event ∷ events, error)

unfoldable pub outcome : ℕ → List Bytes → Outcome
outcome line_number [] = ([], none)
outcome line_number (line ∷ lines) = elim (parse_line (increment line_number) line) [
  | skipped ↦ outcome (increment line_number) lines
  | refused message ↦ ([], some (increment line_number, message))
  | parsed event ↦ put_event event (outcome (increment line_number) lines)
]

-- With a callback, what it is given and whether all went well; without, the events if all went well.
abbrev pub report : Bool → List Event → List Event → Outcome → Scan
report true seen events (more, none) = record { seen = seen ++ more; result = succeed events }
report true seen events (more, some (line, message)) = record {
  seen = seen ++ more;
  result = fail line message;
}
report false seen events (more, none) = record { seen = seen; result = succeed (events ++ more) }
report false seen events (more, some (line, message)) = record {
  seen = seen;
  result = fail line message;
}

lines-split_line :
    (ch : ℕ) (input : Bytes)
    → lines_of (ch ∷ input) ≡ (split_line (ch ∷ input)).0 ∷ lines_of (split_line (ch ∷ input)).1
unfolding lines_of split_line
lines-split_line ch [] = elim (Bool-cases (ch == b'\n')) [ inl e ↦ rw e | inr e ↦ rw e ]
lines-split_line ch (next ∷ input) = elim (Bool-cases (ch == b'\n')) [
  | inl e ↦ rw e
  | inr e ↦ rw e (ap (put_first ch) (lines-split_line next input))
]

split_line-shorter : (ch : ℕ) (input : Bytes) → length (split_line (ch ∷ input)).1 ≤ length input
unfolding split_line
split_line-shorter ch [] = elim (Bool-cases (ch == b'\n')) [
  | inl e ↦ rw e (omega arith)
  | inr e ↦ rw e (omega arith)
]
split_line-shorter ch (next ∷ input) = elim (Bool-cases (ch == b'\n')) [
  | inl e ↦ rw e (omega arith)
  | inr e ↦ rw e (omega (arith, split_line-shorter next input))
]

report_nil :
    (callback : Bool) (seen events : List Event)
    → report callback seen events ([], none) ≡ record { seen = seen; result = succeed events }
report_nil true seen events = rw append-nil
report_nil false seen events = rw append-nil

report_refused :
    (callback : Bool) (seen events : List Event) (line : ℕ) (message : Message)
    → report callback seen events ([], some (line, message))
      ≡ record { seen = seen; result = fail line message }
report_refused true seen events line message = rw append-nil
report_refused false seen events line message = refl

report-put_event :
    (callback : Bool) (seen events : List Event) (event : Event) (o : Outcome)
    → report callback
        (if callback then seen ++ (event ∷ []) else seen)
        (if callback then events else events ++ (event ∷ []))
        o
      ≡ report callback seen events (put_event event o)
report-put_event true seen events event (more, none) = rw append_assoc
report-put_event true seen events event (more, some (line, message)) = rw append_assoc
report-put_event false seen events event (more, none) = rw append_assoc
report-put_event false seen events event (more, some (line, message)) = refl

-- One round of the loop, on what the line is.
abbrev round : ℕ → Bool → ℕ → Bytes → List Event → List Event → Line → Scan
round fuel callback line_number rest seen events skipped =
    parse_lines fuel callback line_number rest seen events
round fuel callback line_number rest seen events (refused message) = record {
  seen = seen;
  result = fail line_number message;
}
round fuel callback line_number rest seen events (parsed event) =
    parse_lines fuel callback line_number rest (if callback then seen ++ (event ∷ []) else seen)
      (if callback then events else events ++ (event ∷ []))

abbrev pub outcome_of : ℕ → List Bytes → Line → Outcome
outcome_of line_number lines skipped = outcome line_number lines
outcome_of line_number lines (refused message) = ([], some (line_number, message))
outcome_of line_number lines (parsed event) = put_event event (outcome line_number lines)

round-outcome :
    (fuel : ℕ) (callback : Bool) (line_number : ℕ) (rest : Bytes) (seen events : List Event)
    → ((seen events : List Event)
        → parse_lines fuel callback line_number rest seen events
          ≡ report callback seen events (outcome line_number (lines_of rest)))
    → (line : Line)
    → round fuel callback line_number rest seen events line
      ≡ report callback seen events (outcome_of line_number (lines_of rest) line)
round-outcome fuel callback line_number rest seen events again skipped = again seen events
round-outcome fuel callback line_number rest seen events again (refused message) =
    sym (report_refused callback seen events line_number message)
round-outcome fuel callback line_number rest seen events again (parsed event) =
    again _ _ ∙ report-put_event callback seen events event _

parse_lines-outcome :
    (fuel : ℕ) (callback : Bool) (line_number : ℕ) (input : Bytes) (seen events : List Event)
    → length input < fuel
    → parse_lines fuel callback line_number input seen events
      ≡ report callback seen events (outcome line_number (lines_of input))
unfolding parse_lines outcome getline
parse_lines-outcome zero callback line_number input seen events b = absurd (omega arith)
parse_lines-outcome (suc fuel) callback line_number [] seen events b =
    unfold lines_of in sym (report_nil callback seen events)
parse_lines-outcome (suc fuel) callback line_number (ch ∷ input) seen events b =
    let (line, rest) = split_line (ch ∷ input) in
    let n = increment line_number in
    rw (lines-split_line ch input) (
      round-outcome fuel callback n rest seen events
        (λ seen events.
          parse_lines-outcome fuel callback n rest seen events
            (omega (arith, split_line-shorter ch input)))
        (parse_line n line))

-- For every text, the loop over its lines ends of itself: it has read every line, or stopped at the first that is
-- refused, whose number and message it gives. The callback has been given the events of the lines
-- before, in order; without a callback they are in the result, if no line is refused.
pub parse_event_stream_impl-outcome :
    (input : Bytes) (callback : Bool)
    → parse_event_stream_impl input callback ≡ report callback [] [] (outcome 0 (lines_of input))
unfolding parse_event_stream_impl
parse_event_stream_impl-outcome input callback =
    parse_lines-outcome (suc (length input)) callback 0 input [] [] (omega arith)
