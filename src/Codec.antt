-- ===== src/Codec.antt =====
-- The binary event format: src/binary_event_codec.cpp. A byte is a number below 256 and a file the
-- list of its bytes; opening and writing a file succeed.
pub mod Words
pub mod Records
pub mod Reader
pub mod Files
use Prim.Native.Nat.{bit_or}
use orda_book.Prelude.{
  ℕ, zero, suc, ◌+◌, ◌-◌, ◌*◌, ◌/◌, ◌%◌, ◌^◌, ltb, ◌==◌, if◌then◌else◌, Bool, true, false, not,
  ◌&&◌, ◌||◌, List, [], ◌∷◌, ◌++◌, length,
}
use orda_book.Prelude.Int.{ℤ, pos, negsuc}
use orda_book.Types.{
  Side, bid, ask, EventType, add, cancel, modify, OrderType, limit, market, TimeInForce,
  good_til_cancel, immediate_or_cancel, fill_or_kill, Event,
}

abbrev pub Bytes : Type 0
Bytes = List ℕ

abbrev pub magic : Bytes
magic = 79 ∷ 82 ∷ 68 ∷ 65 ∷ 66 ∷ 73 ∷ 78 ∷ 1 ∷ []

abbrev pub header_bytes : ℕ
header_bytes = 16

abbrev pub record_bytes : ℕ
record_bytes = 96

abbrev pub binary_event_format_version : ℕ
binary_event_format_version = 1

-- `bytes[index] = value` and `bytes[index]`; the code stays inside its arrays.
unfoldable pub set_byte : ℕ → ℕ → Bytes → Bytes
set_byte index value [] = []
set_byte zero value (byte ∷ bytes) = value ∷ bytes
set_byte (suc index) value (byte ∷ bytes) = byte ∷ set_byte index value bytes

unfoldable pub get_byte : ℕ → Bytes → ℕ
get_byte index [] = 0
get_byte zero (byte ∷ bytes) = byte
get_byte (suc index) (byte ∷ bytes) = get_byte index bytes

unfoldable pub zeros : ℕ → Bytes
zeros zero = []
zeros (suc count) = 0 ∷ zeros count

-- The loops of `put_u32` and `put_u64`, from `index` on, for `count` more bytes.
unfoldable pub put_loop : ℕ → ℕ → ℕ → ℕ → Bytes → Bytes
put_loop zero index offset value bytes = bytes
put_loop (suc count) index offset value bytes =
    put_loop count (suc index) offset value
      (set_byte (offset + index) (value / 2 ^ (index * 8) % 256) bytes)

-- The loops of `get_u32` and `get_u64`.
unfoldable pub get_loop : ℕ → ℕ → ℕ → Bytes → ℕ → ℕ
get_loop zero index offset bytes value = value
get_loop (suc count) index offset bytes value =
    get_loop count (suc index) offset bytes
      (bit_or value (get_byte (offset + index) bytes * 2 ^ (index * 8)))

abbrev pub put_u32 : Bytes → ℕ → ℕ → Bytes
put_u32 bytes offset value = put_loop 4 0 offset value bytes

abbrev pub put_u64 : Bytes → ℕ → ℕ → Bytes
put_u64 bytes offset value = put_loop 8 0 offset value bytes

abbrev pub get_u32 : Bytes → ℕ → ℕ
get_u32 bytes offset = get_loop 4 0 offset bytes 0

abbrev pub get_u64 : Bytes → ℕ → ℕ
get_u64 bytes offset = get_loop 8 0 offset bytes 0

-- An int64 and a uint64 with the same bits.
unfoldable pub to_unsigned : ℤ → ℕ
to_unsigned (pos n) = n
to_unsigned (negsuc n) = 2 ^ 64 - 1 - n

unfoldable pub to_signed : ℕ → ℤ
to_signed n = if ltb n (2 ^ 63) then pos n else negsuc (2 ^ 64 - 1 - n)

abbrev pub encode_i64 : Bytes → ℕ → ℤ → Bytes
encode_i64 bytes offset value = put_u64 bytes offset (to_unsigned value)

abbrev pub decode_i64 : Bytes → ℕ → ℤ
decode_i64 bytes offset = to_signed (get_u64 bytes offset)

-- The loop that copies the magic into the header.
unfoldable pub put_magic : ℕ → Bytes → Bytes → Bytes
put_magic index [] header = header
put_magic index (char ∷ chars) header = put_magic (suc index) chars (set_byte index char header)

unfoldable pub make_header : Bytes
unfolding zeros put_magic put_loop set_byte
make_header =
    put_u32 (put_u32 (put_magic 0 magic (zeros header_bytes)) 8 binary_event_format_version) 12
      record_bytes

abbrev pub type_code : EventType → ℕ
type_code add = 0
type_code cancel = 1
type_code modify = 2

abbrev pub side_code : Side → ℕ
side_code bid = 0
side_code ask = 1

abbrev pub order_type_code : OrderType → ℕ
order_type_code limit = 0
order_type_code market = 1

abbrev pub time_in_force_code : TimeInForce → ℕ
time_in_force_code good_til_cancel = 0
time_in_force_code immediate_or_cancel = 1
time_in_force_code fill_or_kill = 2

abbrev pub flag_code : Bool → ℕ
flag_code false = 0
flag_code true = 1

unfoldable pub encode_event : Event → Bytes
unfolding zeros put_loop set_byte
encode_event event =
    let b₀ = put_u64 (zeros record_bytes) 0 (type_code event.type) in
    let b₁ = put_u64 b₀ 8 event.order_id in
    let b₂ = put_u64 b₁ 16 (side_code event.side) in
    let b₃ = encode_i64 b₂ 24 event.price in
    let b₄ = encode_i64 b₃ 32 event.qty in
    let b₅ = put_u64 b₄ 40 (order_type_code event.order_type) in
    let b₆ = put_u64 b₅ 48 (time_in_force_code event.time_in_force) in
    let b₇ = put_u64 b₆ 56 (flag_code event.post_only) in
    let b₈ = encode_i64 b₇ 64 event.new_price in
    let b₉ = encode_i64 b₈ 72 event.new_qty in put_u64 b₉ 80 event.line_number

-- The messages of the source, those of a record with its number.
pub data Message : Type 0 where
  no_error : Message
  truncated_header : Message
  invalid_magic : Message
  unsupported_format : Message
  truncated_record : Message
  invalid_enum : ℕ → Message
  invalid_post_only : ℕ → Message
  line_number_overflows : ℕ → Message

pub data Decoded : Type 0 where
  decoded : Event → Decoded
  failed : Message → Decoded

-- The casts, at the codes that pass the test before them.
abbrev pub to_event_type : ℕ → EventType
to_event_type zero = add
to_event_type (suc zero) = cancel
to_event_type (suc (suc n)) = modify

abbrev pub to_order_type : ℕ → OrderType
to_order_type zero = limit
to_order_type (suc n) = market

abbrev pub to_time_in_force : ℕ → TimeInForce
to_time_in_force zero = good_til_cancel
to_time_in_force (suc zero) = immediate_or_cancel
to_time_in_force (suc (suc n)) = fill_or_kill

unfoldable pub decode_event : Bytes → ℕ → Decoded
decode_event record_data record_number =
    let raw_type = get_u64 record_data 0 in
    let raw_side = get_u64 record_data 16 in
    let raw_order_type = get_u64 record_data 40 in
    let raw_tif = get_u64 record_data 48 in
    let raw_post_only = get_u64 record_data 56 in
    let raw_line_number = get_u64 record_data 80 in
    let event : Event = record {
      type = to_event_type raw_type;
      order_id = get_u64 record_data 8;
      side = if raw_side == 0 then bid else ask;
      price = decode_i64 record_data 24;
      qty = decode_i64 record_data 32;
      order_type = to_order_type raw_order_type;
      time_in_force = to_time_in_force raw_tif;
      post_only = not (raw_post_only == 0);
      new_price = decode_i64 record_data 64;
      new_qty = decode_i64 record_data 72;
      line_number = raw_line_number;
    } in
    if ltb 2 raw_type || ltb 1 raw_side || ltb 1 raw_order_type || ltb 2 raw_tif
    then failed (invalid_enum record_number)
    else if ltb 1 raw_post_only
    then failed (invalid_post_only record_number)
    else if ltb (2 ^ 64 - 1) raw_line_number
    then failed (line_number_overflows record_number)
    else decoded event
