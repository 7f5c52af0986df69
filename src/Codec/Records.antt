-- ===== src/Codec/Records.antt =====
-- One record: what `encode_event` writes, `decode_event` reads.
use orda_book.Prelude.{
  ℕ, ◌-◌, ◌^◌, ◌<◌, ◌≤◌, ltb, ◌==◌, ◌≡◌, refl, Bool, true, false, if◌then◌else◌, ◌||◌, not, arith,
  length,
}
use orda_book.Prelude.Int.{ℤ, pos, negsuc, pos_part, neg_part}
use orda_book.Types.{
  Side, bid, ask, EventType, add, cancel, modify, OrderType, limit, market, TimeInForce,
  good_til_cancel, immediate_or_cancel, fill_or_kill, Event,
}
use orda_book.Codec.{
  Bytes, get_u64, get_loop, get_byte, put_loop, set_byte, zeros, encode_event, decode_event,
  decoded, to_unsigned, to_signed, type_code, side_code, order_type_code, time_in_force_code,
  flag_code, to_event_type, to_order_type, to_time_in_force,
}
use orda_book.Codec.Words.{word}

-- The values of an int64.
abbrev pub IsInt64 : ℤ → Type 0
IsInt64 value = (pos_part value < 2 ^ 63) × (neg_part value ≤ 2 ^ 63)

-- The fields of an event are in the range of their C++ types.
pub record Fits (event : Event) : Type 0 where
  pub order_id_fits : event.order_id < 2 ^ 64
  pub price_fits : IsInt64 event.price
  pub qty_fits : IsInt64 event.qty
  pub new_price_fits : IsInt64 event.new_price
  pub new_qty_fits : IsInt64 event.new_qty
  pub line_number_fits : event.line_number < 2 ^ 64

to_signed-to_unsigned : (value : ℤ) → IsInt64 value → to_signed (to_unsigned value) ≡ value
unfolding to_signed to_unsigned
to_signed-to_unsigned (pos n) h = ground (arith, h)
to_signed-to_unsigned (negsuc n) h = ground (arith, h)

to_unsigned-lt : (value : ℤ) → IsInt64 value → to_unsigned value < 2 ^ 64
unfolding to_unsigned
to_unsigned-lt (pos n) h = omega (arith, h.0)
to_unsigned-lt (negsuc n) h = omega arith

pub length-encode_event : (event : Event) → length (encode_event event) ≡ 96
unfolding encode_event
length-encode_event event = refl

type_code-lt : (t : EventType) → type_code t < 3
type_code-lt add = omega arith
type_code-lt cancel = omega arith
type_code-lt modify = omega arith

side_code-lt : (s : Side) → side_code s < 2
side_code-lt bid = omega arith
side_code-lt ask = omega arith

order_type_code-lt : (t : OrderType) → order_type_code t < 2
order_type_code-lt limit = omega arith
order_type_code-lt market = omega arith

time_in_force_code-lt : (t : TimeInForce) → time_in_force_code t < 3
time_in_force_code-lt good_til_cancel = omega arith
time_in_force_code-lt immediate_or_cancel = omega arith
time_in_force_code-lt fill_or_kill = omega arith

flag_code-lt : (b : Bool) → flag_code b < 2
flag_code-lt false = omega arith
flag_code-lt true = omega arith

to_event_type-type_code : (t : EventType) → to_event_type (type_code t) ≡ t
to_event_type-type_code add = refl
to_event_type-type_code cancel = refl
to_event_type-type_code modify = refl

side_code-back : (s : Side) → (if side_code s == 0 then bid else ask) ≡ s
side_code-back bid = refl
side_code-back ask = refl

to_order_type-order_type_code : (t : OrderType) → to_order_type (order_type_code t) ≡ t
to_order_type-order_type_code limit = refl
to_order_type-order_type_code market = refl

to_time_in_force-time_in_force_code :
    (t : TimeInForce) → to_time_in_force (time_in_force_code t) ≡ t
to_time_in_force-time_in_force_code good_til_cancel = refl
to_time_in_force-time_in_force_code immediate_or_cancel = refl
to_time_in_force-time_in_force_code fill_or_kill = refl

flag_code-back : (b : Bool) → not (flag_code b == 0) ≡ b
flag_code-back false = refl
flag_code-back true = refl

-- What the fields of a record say.
record Holds (event : Event) (bytes : Bytes) : Type 0 where
  type_field : get_u64 bytes 0 ≡ type_code event.type
  order_id_field : get_u64 bytes 8 ≡ event.order_id
  side_field : get_u64 bytes 16 ≡ side_code event.side
  price_field : get_u64 bytes 24 ≡ to_unsigned event.price
  qty_field : get_u64 bytes 32 ≡ to_unsigned event.qty
  order_type_field : get_u64 bytes 40 ≡ order_type_code event.order_type
  time_in_force_field : get_u64 bytes 48 ≡ time_in_force_code event.time_in_force
  post_only_field : get_u64 bytes 56 ≡ flag_code event.post_only
  new_price_field : get_u64 bytes 64 ≡ to_unsigned event.new_price
  new_qty_field : get_u64 bytes 72 ≡ to_unsigned event.new_qty
  line_number_field : get_u64 bytes 80 ≡ event.line_number

encode_event-Holds : (event : Event) → Fits event → Holds event (encode_event event)
unfolding encode_event get_loop get_byte put_loop set_byte zeros
encode_event-Holds event f = record {
  type_field = word (type_code event.type) (omega (arith, type_code-lt event.type));
  order_id_field = word event.order_id f.order_id_fits;
  side_field = word (side_code event.side) (omega (arith, side_code-lt event.side));
  price_field = word (to_unsigned event.price) (to_unsigned-lt event.price f.price_fits);
  qty_field = word (to_unsigned event.qty) (to_unsigned-lt event.qty f.qty_fits);
  order_type_field =
      word (order_type_code event.order_type) (omega (arith, order_type_code-lt event.order_type));
  time_in_force_field =
      word (time_in_force_code event.time_in_force)
        (omega (arith, time_in_force_code-lt event.time_in_force));
  post_only_field = word (flag_code event.post_only) (omega (arith, flag_code-lt event.post_only));
  new_price_field =
      word (to_unsigned event.new_price) (to_unsigned-lt event.new_price f.new_price_fits);
  new_qty_field = word (to_unsigned event.new_qty) (to_unsigned-lt event.new_qty f.new_qty_fits);
  line_number_field = word event.line_number f.line_number_fits;
}

tests_pass :
    (event : Event)
    → ltb 2 (type_code event.type)
        || ltb 1 (side_code event.side)
        || ltb 1 (order_type_code event.order_type)
        || ltb 2 (time_in_force_code event.time_in_force)
      ≡ false
tests_pass event = ground (
  arith,
  type_code-lt event.type,
  side_code-lt event.side,
  order_type_code-lt event.order_type,
  time_in_force_code-lt event.time_in_force,
)

Holds-decode_event :
    (event : Event) (bytes : Bytes) (number : ℕ)
    → Fits event
    → Holds event bytes
    → decode_event bytes number ≡ decoded event
unfolding decode_event
Holds-decode_event event bytes number f h =
    let line : ltb (2 ^ 64 - 1) event.line_number ≡ false = ground (arith, f.line_number_fits) in
    let flag : ltb 1 (flag_code event.post_only) ≡ false =
      ground (arith, flag_code-lt event.post_only) in
    rw (
      h.type_field,
      h.order_id_field,
      h.side_field,
      h.price_field,
      h.qty_field,
      h.order_type_field,
      h.time_in_force_field,
      h.post_only_field,
      h.new_price_field,
      h.new_qty_field,
      h.line_number_field,
      tests_pass event,
      flag,
      line,
      to_event_type-type_code event.type,
      side_code-back event.side,
      to_order_type-order_type_code event.order_type,
      to_time_in_force-time_in_force_code event.time_in_force,
      flag_code-back event.post_only,
      to_signed-to_unsigned event.price f.price_fits,
      to_signed-to_unsigned event.qty f.qty_fits,
      to_signed-to_unsigned event.new_price f.new_price_fits,
      to_signed-to_unsigned event.new_qty f.new_qty_fits,
    )

-- An event whose fields are in the range of their types is read back from its record.
pub decode_event-encode_event :
    (event : Event) (number : ℕ)
    → Fits event
    → decode_event (encode_event event) number ≡ decoded event
decode_event-encode_event event number f =
    Holds-decode_event event (encode_event event) number f (encode_event-Holds event f)
