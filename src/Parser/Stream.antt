-- ===== src/Parser/Stream.antt =====
-- The lines of src/event_parser.cpp and the functions of src/event_parser.hpp. The stream is the list of its bytes.
use orda_book.Prelude.{
  ℕ, zero, suc, ◌==◌, if◌then◌else◌, Bool, true, false, not, ◌&&◌, ◌||◌, Option, none, some, List,
  [], ◌∷◌, ◌++◌, length,
}
use orda_book.Prelude.Int.{ℤ, pos}
use orda_book.Types.{
  bid, EventType, limit, market, TimeInForce, good_til_cancel, immediate_or_cancel, Event,
  ParseResult,
}
use orda_book.Engine.{increment, is_market, is_good_til_cancel, is_fill_or_kill}
use orda_book.Parser.Tokens.{
  Bytes, codes, same, is_empty, is_blank_or_comment, next_token, parse_unsigned, parse_signed,
}
use orda_book.Parser.Names.{parse_side, parse_time_in_force}

-- The messages of `fail`.
pub data Message : Type 0 where
  no_error : Message
  invalid_add : Message
  invalid_side : Message
  extra_add_tokens : Message
  invalid_add_options : Message
  invalid_cancel : Message
  extra_cancel_tokens : Message
  invalid_modify : Message
  extra_modify_tokens : Message
  unknown_command : Message
  failed_to_open : Message

-- An event with its members as they are declared.
abbrev pub default_event : ℕ → Event
default_event line_number = record {
  type = EventType.add;
  order_id = 0;
  side = bid;
  price = pos 0;
  qty = pos 0;
  order_type = limit;
  time_in_force = good_til_cancel;
  post_only = false;
  new_price = pos 0;
  new_qty = pos 0;
  line_number = line_number;
}

-- What follows the loop of `parse_add_options`.
unfoldable pub end_options : Bool → Event → Option Event
end_options saw_time_in_force event =
    let event =
      if is_market event.order_type && not saw_time_in_force
      then record event { time_in_force = immediate_or_cancel }
      else event in
    if event.post_only && is_fill_or_kill event.time_in_force then none else some event

-- A token that is neither POST_ONLY nor LIMIT.
unfoldable pub time_option : Option TimeInForce → Bool → Event → Option Event
time_option none saw_time_in_force event = none
time_option (some time_in_force) saw_time_in_force event =
    if saw_time_in_force
    then none
    else if is_market event.order_type && is_good_til_cancel time_in_force
    then none
    else some (record event { time_in_force = time_in_force })

abbrev pub and_then : Option Event → (Event → Option Event) → Option Event
and_then none f = none
and_then (some event) f = f event

-- The loop of `parse_add_options`. Every round but the last takes a byte off the view.
unfoldable pub options_loop : ℕ → Bytes → Bool → Event → Option Event
options_loop zero view saw_time_in_force event = none
options_loop (suc fuel) view saw_time_in_force event =
    let (option, rest) = next_token view in
    let posted = options_loop fuel rest saw_time_in_force (record event { post_only = true }) in
    let limited = options_loop fuel rest saw_time_in_force event in
    if is_empty option
    then end_options saw_time_in_force event
    else if same option (codes "POST_ONLY")
    then if is_market event.order_type || is_fill_or_kill event.time_in_force then none else posted
    else if same option (codes "LIMIT")
    then if is_market event.order_type then none else limited
    else and_then (time_option (parse_time_in_force option) saw_time_in_force event)
        (options_loop fuel rest true)

unfoldable pub parse_add_options : Bytes → Event → Option Event
parse_add_options view event = options_loop (suc (length view)) view false event

-- What one line gives.
pub data Line : Type 0 where
  skipped : Line
  parsed : Event → Line
  refused : Message → Line

unfoldable pub parse_price : Bytes → Event → Option Event
parse_price price_or_type event =
    if same price_or_type (codes "MARKET")
    then some (record event { order_type = market; price = pos 0 })
    else elim (parse_signed price_or_type) [
      | none ↦ none
      | some price ↦ some (record event { price = price })
    ]

-- The options and the end of an ADD line.
unfoldable pub finish_add : Bytes → Option Event → Line
finish_add view none = refused extra_add_tokens
finish_add view (some event) = elim (parse_add_options view event) [
  | none ↦ refused invalid_add_options
  | some event ↦ parsed event
]

unfoldable pub add_numbers : Option ℕ → Option ℤ → Bytes → Bytes → Bytes → Event → Line
add_numbers (some order_id) (some qty) side price_or_type view event = elim (parse_side side) [
  | none ↦ refused invalid_side
  | some side ↦
      finish_add view
        (parse_price price_or_type (record event { order_id = order_id; qty = qty; side = side }))
]
add_numbers (some order_id) none side price_or_type view event = refused invalid_add
add_numbers none qty side price_or_type view event = refused invalid_add

unfoldable pub parse_add : Bytes → Event → Line
parse_add view event =
    let (order_id, view) = next_token view in
    let (side, view) = next_token view in
    let (price_or_type, view) = next_token view in
    let (qty, view) = next_token view in
    add_numbers (parse_unsigned order_id) (parse_signed qty) side price_or_type view event

unfoldable pub cancel_number : Option ℕ → Bytes → Event → Line
cancel_number none view event = refused invalid_cancel
cancel_number (some order_id) view event =
    if not (is_empty (next_token view).0)
    then refused extra_cancel_tokens
    else parsed (record event { type = EventType.cancel; order_id = order_id })

unfoldable pub parse_cancel : Bytes → Event → Line
parse_cancel view event =
    let (order_id, view) = next_token view in cancel_number (parse_unsigned order_id) view event

unfoldable pub modify_numbers : Option ℕ → Option ℤ → Option ℤ → Bytes → Event → Line
modify_numbers (some order_id) (some new_price) (some new_qty) view event =
    if not (is_empty (next_token view).0)
    then refused extra_modify_tokens
    else parsed (record event {
      type = EventType.modify;
      order_id = order_id;
      new_price = new_price;
      new_qty = new_qty;
    })
modify_numbers (some order_id) (some new_price) none view event = refused invalid_modify
modify_numbers (some order_id) none new_qty view event = refused invalid_modify
modify_numbers none new_price new_qty view event = refused invalid_modify

unfoldable pub parse_modify : Bytes → Event → Line
parse_modify view event =
    let (order_id, view) = next_token view in
    let (new_price, view) = next_token view in
    let (new_qty, view) = next_token view in
    modify_numbers (parse_unsigned order_id) (parse_signed new_price) (parse_signed new_qty) view
      event

unfoldable pub parse_line : ℕ → Bytes → Line
parse_line line_number line =
    let event = default_event line_number in
    let (command, view) = next_token line in
    if is_blank_or_comment line
    then skipped
    else if same command (codes "ADD")
    then parse_add view event
    else if same command (codes "CANCEL")
    then parse_cancel view event
    else if same command (codes "MODIFY")
    then parse_modify view event
    else refused unknown_command

-- The bytes up to the next end of line, and those behind it.
unfoldable pub split_line : Bytes → Bytes × Bytes
split_line [] = ([], [])
split_line (ch ∷ input) =
    if ch == b'\n' then ([], input) else (ch ∷ (split_line input).0, (split_line input).1)

-- `std::getline`, which finds no line at the end of the stream.
unfoldable pub getline : Bytes → Option (Bytes × Bytes)
getline [] = none
getline (ch ∷ input) = some (split_line (ch ∷ input))

-- The events that the callback is given, and the result.
pub record Scan : Type 0 where
  pub seen : List Event
  pub result : ParseResult Message

abbrev pub fail : ℕ → Message → ParseResult Message
fail line_number message = record {
  events = [];
  ok = false;
  error_line = line_number;
  error_message = message;
}

abbrev pub succeed : List Event → ParseResult Message
succeed events = record { events = events; ok = true; error_line = 0; error_message = no_error }

-- The loop over the lines; every round but the last takes a byte off the stream. With a callback the
-- events are `seen`, without they are kept in the result.
unfoldable pub parse_lines : ℕ → Bool → ℕ → Bytes → List Event → List Event → Scan
parse_lines zero callback line_number input seen events = record {
  seen = seen;
  result = succeed events;
}
parse_lines (suc fuel) callback line_number input seen events = elim (getline input) [
  | none ↦ record { seen = seen; result = succeed events }
  | some (line, rest) ↦ elim (parse_line (increment line_number) line) [
    | skipped ↦ parse_lines fuel callback (increment line_number) rest seen events
    | refused message ↦ record { seen = seen; result = fail (increment line_number) message }
    | parsed event ↦
        parse_lines fuel callback (increment line_number) rest
          (if callback then seen ++ (event ∷ []) else seen)
          (if callback then events else events ++ (event ∷ []))
  ]
]

unfoldable pub parse_event_stream_impl : Bytes → Bool → Scan
parse_event_stream_impl input callback = parse_lines (suc (length input)) callback 0 input [] []

unfoldable pub parse_event_stream : Bytes → ParseResult Message
parse_event_stream input = (parse_event_stream_impl input false).result

-- A file that cannot be opened is none.
unfoldable pub parse_event_file : Option Bytes → ParseResult Message
parse_event_file none = fail 0 failed_to_open
parse_event_file (some input) = (parse_event_stream_impl input false).result

unfoldable pub for_each_event_stream : Bytes → Scan
for_each_event_stream input = parse_event_stream_impl input true

unfoldable pub for_each_event_file : Option Bytes → Scan
for_each_event_file none = record { seen = []; result = fail 0 failed_to_open }
for_each_event_file (some input) = parse_event_stream_impl input true
