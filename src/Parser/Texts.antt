-- ===== src/Parser/Texts.antt =====
-- Whole texts of commands are read back by the functions of src/event_parser.hpp.
use orda_book.Prelude.{
  ℕ, ◌≡◌, refl, ap, ◌∙◌, Bool, true, false, none, List, [], ◌∷◌, ◌++◌, All, arith,
}
use orda_book.Prelude.Lists.{All-append, All-mono}
use orda_book.Types.{Event}
use orda_book.Engine.{increment}
use orda_book.Parser.Tokens.{Bytes, is_delimiter}
use orda_book.Parser.Stream.{
  Line, skipped, parsed, refused, parse_line, succeed, parse_event_stream_impl, parse_event_stream,
  for_each_event_stream,
}
use orda_book.Parser.Lines.{lines_of, put_first, outcome, report, parse_event_stream_impl-outcome}
use orda_book.Parser.Written.{decimal-IsWord, signed_decimal-IsWord, side-IsWord, time-IsWord}
use orda_book.Parser.Options.{market-IsWord, post_only-IsWord}
use orda_book.Parser.Words.{IsDelimiter, IsInner, IsWord, spaced}
use orda_book.Parser.Commands.{
  Command, add_limit, add_market, cancel, modify, comment, post_words, head_word, more_words,
  meaning, InText, IsCommand,
}
use orda_book.Parser.RoundTrip.{text_line, parse_line-text_line}

lines-append :
    (line rest : Bytes) → All InText line → lines_of (line ++ (b'\n' ∷ rest)) ≡ line ∷ lines_of rest
unfolding lines_of
lines-append [] rest t = refl
lines-append (ch ∷ line) rest (t, ts) = rw t (ap (put_first ch) (lines-append line rest ts))

delimiter-InText : (ch : ℕ) → IsDelimiter ch → InText ch
unfolding is_delimiter
delimiter-InText ch d = ground arith

gap-InText : (gap : Bytes) → All IsDelimiter gap → All InText gap
gap-InText gap = All-mono IsDelimiter InText delimiter-InText gap

word-InText : (word : Bytes) → IsWord word → All InText word
word-InText word w = All-mono IsInner InText (λ ch i. i.in_line) word w.inner

post_words-IsWord : (post_only : Bool) → All IsWord (post_words post_only)
post_words-IsWord true = (post_only-IsWord, tt)
post_words-IsWord false = tt

more_words-IsWord : (command : Command) → All IsWord (more_words command)
unfolding more_words
more_words-IsWord (add_limit id side price qty t post_only) = (
  decimal-IsWord id,
  (
    side-IsWord side,
    (
      signed_decimal-IsWord price,
      (signed_decimal-IsWord qty, (time-IsWord t, post_words-IsWord post_only)),
    ),
  ),
)
more_words-IsWord (add_market id side qty t) = (
  decimal-IsWord id,
  (side-IsWord side, (market-IsWord, (signed_decimal-IsWord qty, (time-IsWord t, tt)))),
)
more_words-IsWord (cancel id) = (decimal-IsWord id, tt)
more_words-IsWord (modify id price qty) =
    (decimal-IsWord id, (signed_decimal-IsWord price, (signed_decimal-IsWord qty, tt)))
more_words-IsWord (comment text) = tt

head_word-InText : (command : Command) → IsCommand command → All InText (head_word command)
head_word-InText (add_limit id side price qty t post_only) c = ground arith
head_word-InText (add_market id side qty t) c = ground arith
head_word-InText (cancel id) c = ground arith
head_word-InText (modify id price qty) c = ground arith
head_word-InText (comment text) c = (refl, c)

module _ (first : ℕ) (more : Bytes) (first_delimits : IsDelimiter first)
    (delimits : All IsDelimiter more) where
  spaced-InText :
      (words : List Bytes)
      → All IsWord words
      → All InText (spaced first more first_delimits delimits words)
  spaced-InText [] w = tt
  spaced-InText (word ∷ words) (w, ws) =
      All-append InText (first ∷ more) _ (gap-InText (first ∷ more) (first_delimits, delimits))
        (All-append InText word _ (word-InText word w) (spaced-InText words ws))

  abbrev line_of : Bytes → Command → Bytes
  line_of = text_line first more first_delimits delimits

  line_of-InText :
      (gap : Bytes) (command : Command)
      → All IsDelimiter gap
      → IsCommand command
      → All InText (line_of gap command)
  line_of-InText gap command d c = All-append InText gap _ (gap-InText gap d) (
      All-append InText (head_word command) _ (head_word-InText command c)
        (spaced-InText (more_words command) (more_words-IsWord command)))

  -- Commands, each on a line of its own behind the delimiters that it comes with.
  abbrev pub text_of : List (Bytes × Command) → Bytes
  text_of [] = []
  text_of ((gap, command) ∷ rest) = line_of gap command ++ (b'\n' ∷ text_of rest)

abbrev put_line : Line → List Event → List Event
put_line skipped events = events
put_line (refused message) events = []
put_line (parsed event) events = event ∷ events

-- The events that commands ask for, on lines that follow line `n`.
unfoldable pub asked : ℕ → List (Bytes × Command) → List Event
asked n [] = []
asked n ((gap, command) ∷ rest) =
    put_line (meaning (increment n) command) (asked (increment n) rest)

abbrev pub AreCommands : List (Bytes × Command) → Type 0
AreCommands = All (λ c. All IsDelimiter c.0 × IsCommand c.1)

-- A line that gives what its command means, before lines that are read.
outcome-put_line :
    (n : ℕ) (line : Bytes) (lines : List Bytes) (command : Command) (events : List Event)
    → parse_line (increment n) line ≡ meaning (increment n) command
    → outcome (increment n) lines ≡ (events, none)
    → outcome n (line ∷ lines) ≡ (put_line (meaning (increment n) command) events, none)
unfolding outcome meaning
outcome-put_line n line lines (add_limit id side price qty t post_only) events p o =
    rw (p, outcome, o)
outcome-put_line n line lines (add_market id side qty t) events p o = rw (p, outcome, o)
outcome-put_line n line lines (cancel id) events p o = rw (p, outcome, o)
outcome-put_line n line lines (modify id price qty) events p o = rw (p, outcome, o)
outcome-put_line n line lines (comment text) events p o = rw (p, outcome, o)

module _ (first : ℕ) (more : Bytes) (first_delimits : IsDelimiter first)
    (delimits : All IsDelimiter more) where
  outcome-text_of :
      (n : ℕ) (commands : List (Bytes × Command))
      → AreCommands commands
      → outcome n (lines_of (text_of first more first_delimits delimits commands))
        ≡ (asked n commands, none)
  unfolding asked
  outcome-text_of n [] c = unfold outcome lines_of in refl
  outcome-text_of n ((gap, command) ∷ rest) ((d, c), cs) =
      let line = text_line first more first_delimits delimits gap command in
      let text = text_of first more first_delimits delimits rest in
      ap (outcome n)
        (lines-append line text (line_of-InText first more first_delimits delimits gap command d c))
      ∙ outcome-put_line n line (lines_of text) command (asked (increment n) rest)
          (parse_line-text_line first more first_delimits delimits (increment n) gap command d c)
          (outcome-text_of (increment n) rest cs)

  -- A text of adds, cancels, modifies and comments, with the same delimiters between all words and any delimiters
  -- before the first of a line: it is read without an error, without a callback and with one, and
  -- gives the events that the commands ask for, each with the number of its line.
  pub parse_event_stream-text_of :
      (commands : List (Bytes × Command))
      → AreCommands commands
      → (parse_event_stream (text_of first more first_delimits delimits commands)
          ≡ succeed (asked 0 commands))
        × (for_each_event_stream (text_of first more first_delimits delimits commands)
            ≡ record { seen = asked 0 commands; result = succeed [] })
  unfolding parse_event_stream for_each_event_stream
  parse_event_stream-text_of commands c =
      let text = text_of first more first_delimits delimits commands in
      let back : (callback : Bool)
          → parse_event_stream_impl text callback ≡ report callback [] [] (asked 0 commands, none) =
        λ callback.
          parse_event_stream_impl-outcome text callback
          ∙ ap (report callback [] []) (outcome-text_of 0 commands c) in
      (ap (λ s. s.result) (back false), back true)
