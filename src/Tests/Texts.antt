-- ===== src/Tests/Texts.antt =====
-- Texts that src/event_parser.cpp reads and refuses, and the theorems on them.
use orda_book.Prelude.{◌≡◌, refl, true, some, List, [], ◌∷◌, ◌++◌, arith}
use orda_book.Prelude.Int.{pos, negsuc}
use orda_book.Types.{bid, ask, immediate_or_cancel, good_til_cancel}
use orda_book.OrderBook.Conservation.{IsUncrossed}
use orda_book.Replay.{new_replay, consume_all, Explains}
use orda_book.Prelude.Lists.{take, drop}
use orda_book.Engine.{increment}
use orda_book.Parser.Words.{IsDelimiter}
use orda_book.Parser.Tokens.{
  Bytes, codes, is_delimiter, skip_delimiters, is_blank_or_comment, token_length, next_token, same,
  read_digits, from_digits, parse_unsigned, parse_signed,
}
use orda_book.Parser.Names.{parse_side, parse_time_in_force}
use orda_book.Parser.Stream.{
  end_options, time_option, options_loop, parse_add_options, parse_price, finish_add, add_numbers,
  parse_add, cancel_number, parse_cancel, modify_numbers, parse_modify, parse_line, split_line,
  getline, parse_lines, Message, fail, succeed, parse_event_stream_impl, parse_event_stream,
  for_each_event_stream,
}
use orda_book.Parser.Lines.{lines_of, outcome, report, parse_event_stream_impl-outcome}
use orda_book.Parser.Commands.{Command, add_limit, add_market, cancel, modify, comment}
use orda_book.Parser.Texts.{text_of, asked, AreCommands, parse_event_stream-text_of}
use orda_book.Parser.Uses.{
  AreSound, parse_event_stream_impl-AreSound, consume_all-for_each_event_stream,
}

abbrev sample : Bytes
sample =
    codes "# two quotes"
    ++ (b'\n'
        ∷ (codes "ADD 1,BUY 100 5 POST_ONLY"
            ++ (b'\n' ∷ (codes "  ADD 2 S MARKET 3" ++ (b'\n' ∷ codes "CANCEL 1")))))

abbrev refused_sample : Bytes
refused_sample = codes "CANCEL 1" ++ (b'\n' ∷ codes "ADD 2 SELL MARKET 3 GTC")

refused_line : parse_event_stream refused_sample ≡ fail 2 Message.invalid_add_options
unfolding parse_event_stream parse_event_stream_impl is_delimiter skip_delimiters
    is_blank_or_comment token_length next_token same read_digits from_digits parse_unsigned
    parse_signed take drop parse_side parse_time_in_force end_options time_option options_loop
    parse_add_options parse_price finish_add add_numbers parse_add cancel_number parse_cancel
    modify_numbers parse_modify parse_line increment split_line getline parse_lines
refused_line = refl

smallest : parse_signed (codes "-9223372036854775808") ≡ some (negsuc 9223372036854775807)
unfolding parse_signed from_digits read_digits
smallest = refl

parse_event_stream_impl-outcome_example :
    parse_event_stream_impl refused_sample true
    ≡ report true [] [] (outcome 0 (lines_of refused_sample))
parse_event_stream_impl-outcome_example = parse_event_stream_impl-outcome refused_sample true

parse_event_stream_impl-AreSound_example : AreSound (parse_event_stream_impl sample true)
parse_event_stream_impl-AreSound_example = parse_event_stream_impl-AreSound sample true

consume_all-for_each_event_stream_example :
    let events = (for_each_event_stream sample).seen in
    let after = consume_all events new_replay in
    (events ≡ (outcome 0 (lines_of sample)).0)
    × Explains events new_replay after
    × IsUncrossed after.book
consume_all-for_each_event_stream_example = consume_all-for_each_event_stream sample

abbrev commands : List (Bytes × Command)
commands =
    (b' ' ∷ [], comment (codes "two quotes"))
    ∷ ([], add_limit 1 bid (pos 100) (pos 5) good_til_cancel true)
    ∷ ([], add_market 2 ask (pos 3) immediate_or_cancel)
    ∷ (b'\t' ∷ [], modify 1 (negsuc 4) (pos 6))
    ∷ ([], cancel 1)
    ∷ []

comma : IsDelimiter b','
unfolding is_delimiter
comma = refl

blank : IsDelimiter b' '
unfolding is_delimiter
blank = refl

tab : IsDelimiter b'\t'
unfolding is_delimiter
tab = refl

commands-AreCommands : AreCommands commands
commands-AreCommands = (
  ((blank, tt), ground arith),
  (
    (tt, (omega arith, (omega arith, omega arith), (omega arith, omega arith), refl)),
    (
      (tt, (omega arith, (omega arith, omega arith), refl)),
      (((tab, tt), omega arith), ((tt, omega arith), tt)),
    ),
  ),
)

parse_event_stream-text_of_example :
    (parse_event_stream (text_of b',' (b' ' ∷ []) comma (blank, tt) commands)
      ≡ succeed (asked 0 commands))
    × (for_each_event_stream (text_of b',' (b' ' ∷ []) comma (blank, tt) commands)
        ≡ record { seen = asked 0 commands; result = succeed [] })
parse_event_stream-text_of_example =
    parse_event_stream-text_of b',' (b' ' ∷ []) comma (blank, tt) commands commands-AreCommands
