-- ===== src/Codec/Reader.antt =====
-- Files of binary events: `write_binary_event_file`, `parse_binary_impl` and its two callers in
-- src/binary_event_codec.cpp.
use orda_book.Prelude.{
  ℕ, zero, suc, ltb, ◌==◌, if◌then◌else◌, Bool, true, false, not, ◌&&◌, ◌||◌, List, [], ◌∷◌, ◌++◌,
  length, take, drop,
}
use orda_book.Types.{Event, ParseResult}
use orda_book.Codec.{
  Bytes, magic, header_bytes, record_bytes, binary_event_format_version, get_byte, get_u32,
  make_header, encode_event, decode_event, decoded, failed, Message, no_error, truncated_header,
  invalid_magic, unsupported_format, truncated_record,
}

-- `input.read`: what it puts into the buffer, what it leaves in the file, whether the stream is good
-- afterwards and whether it is at its end. A read that finds too few bytes sets both flags.
pub record Read : Type 0 where
  pub buffer : Bytes
  pub rest : Bytes
  pub good : Bool
  pub eof : Bool

unfoldable pub read : ℕ → Bytes → Read
read count input = record {
  buffer = take count input;
  rest = drop count input;
  good = not (ltb (length input) count);
  eof = ltb (length input) count;
}

-- The events that the callback is given, and the result.
pub record Scan : Type 0 where
  pub seen : List Event
  pub result : ParseResult Message

abbrev pub fail_binary : ℕ → Message → ParseResult Message
fail_binary record_number message = record {
  events = [];
  ok = false;
  error_line = record_number;
  error_message = message;
}

abbrev pub succeed : List Event → ParseResult Message
succeed events = record { events = events; ok = true; error_line = 0; error_message = no_error }

-- The loop over the records. Every round but the last takes a record off the file, so that its
-- length is fuel enough.
unfoldable pub parse_records : ℕ → Bool → ℕ → Bytes → List Event → List Event → Scan
parse_records zero callback record_number input seen events = record {
  seen = seen;
  result = succeed events;
}
parse_records (suc fuel) callback record_number input seen events =
    elim (read record_bytes input).good [
      | true ↦ elim (decode_event (read record_bytes input).buffer (suc record_number)) [
        | failed message ↦ record { seen = seen; result = fail_binary (suc record_number) message }
        | decoded event ↦
            parse_records fuel callback (suc record_number) (read record_bytes input).rest
              (if callback then seen ++ (event ∷ []) else seen)
              (if callback then events else events ++ (event ∷ []))
      ]
      | false ↦
          if not (read record_bytes input).eof
          then record { seen = seen; result = fail_binary (suc record_number) truncated_record }
          else record { seen = seen; result = succeed events }
    ]

unfoldable pub has_magic : ℕ → Bytes → Bytes → Bool
has_magic index [] header = true
has_magic index (char ∷ chars) header =
    get_byte index header == char && has_magic (suc index) chars header

unfoldable pub parse_binary_impl : Bytes → Bool → Scan
parse_binary_impl input callback =
    let header = read header_bytes input in
    if not (length header.buffer == header_bytes)
    then record { seen = []; result = fail_binary 0 truncated_header }
    else if not (has_magic 0 magic header.buffer)
    then record { seen = []; result = fail_binary 0 invalid_magic }
    else if not (get_u32 header.buffer 8 == binary_event_format_version)
        || not (get_u32 header.buffer 12 == record_bytes)
    then record { seen = []; result = fail_binary 0 unsupported_format }
    else parse_records (suc (length header.rest)) callback 0 header.rest [] []

unfoldable pub write_records : List Event → Bytes
write_records [] = []
write_records (event ∷ events) = encode_event event ++ write_records events

-- What the file holds afterwards.
unfoldable pub write_binary_event_file : List Event → Bytes
write_binary_event_file events = make_header ++ write_records events

unfoldable pub parse_binary_event_file : Bytes → ParseResult Message
parse_binary_event_file input = (parse_binary_impl input false).result

unfoldable pub for_each_binary_event_file : Bytes → Scan
for_each_binary_event_file input = parse_binary_impl input true
