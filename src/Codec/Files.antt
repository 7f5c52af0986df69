-- ===== src/Codec/Files.antt =====
-- Whole files: what is written is read back, with or without a callback.
use mathlib.Core.List.{append-nil, append_assoc}
use orda_book.Prelude.{
  ℕ, zero, suc, ◌<◌, ltb, if◌then◌else◌, ◌≡◌, refl, sym, ap, ◌∙◌, Bool, true, false, not, List, [],
  ◌∷◌, ◌++◌, length, length-append, take-append, drop-append, All, arith,
}
use orda_book.Types.{Event}
use orda_book.Codec.{
  Bytes, record_bytes, header_bytes, make_header, encode_event, get_byte, get_u32, magic,
  binary_event_format_version, get_loop, put_loop, set_byte, zeros, put_magic,
}
use orda_book.Codec.Records.{Fits, decode_event-encode_event, length-encode_event}
use orda_book.Codec.Reader.{
  read, Scan, succeed, parse_records, has_magic, parse_binary_impl, write_records,
  write_binary_event_file, parse_binary_event_file, for_each_binary_event_file,
}

read-append :
    (count : ℕ) (xs ys : Bytes)
    → length xs ≡ count
    → read count (xs ++ ys) ≡ record { buffer = xs; rest = ys; good = true; eof = false }
unfolding read
read-append count xs ys e =
    let long : ltb (length (xs ++ ys)) (length xs) ≡ false = ground (arith, length-append xs ys) in
    rw (← e) λ i. record {
      buffer = take-append xs ys i;
      rest = drop-append xs ys i;
      good = not (long i);
      eof = long i;
    }

read_short :
    (count : ℕ) (xs : Bytes)
    → length xs < count
    → ((read count xs).good ≡ false) × ((read count xs).eof ≡ true)
unfolding read
read_short count xs h = (ground (arith, h), ground (arith, h))

-- What the loop answers after the events that it has read, and those that follow.
abbrev scanned : Bool → List Event → List Event → List Event → Scan
scanned callback seen events more = record {
  seen = if callback then seen ++ more else seen;
  result = succeed (if callback then events else events ++ more);
}

scanned-done :
    (callback : Bool) (seen events : List Event)
    → record { seen = seen; result = succeed events } ≡ scanned callback seen events []
scanned-done true seen events =
    λ i. record { seen = sym (append-nil seen) i; result = succeed events }
scanned-done false seen events =
    λ i. record { seen = seen; result = succeed (sym (append-nil events) i) }

scanned-more :
    (callback : Bool) (event : Event) (more seen events : List Event)
    → scanned callback
        (if callback then seen ++ (event ∷ []) else seen)
        (if callback then events else events ++ (event ∷ []))
        more
      ≡ scanned callback seen events (event ∷ more)
scanned-more true event more seen events =
    λ i. record { seen = append_assoc seen (event ∷ []) more i; result = succeed events }
scanned-more false event more seen events =
    λ i. record { seen = seen; result = succeed (append_assoc events (event ∷ []) more i) }

parse_records-write_records :
    (fuel : ℕ) (callback : Bool) (number : ℕ) (written : List Event) (tail : Bytes)
    (seen events : List Event)
    → All Fits written
    → length tail < record_bytes
    → length (write_records written ++ tail) < fuel
    → parse_records fuel callback number (write_records written ++ tail) seen events
      ≡ scanned callback seen events written
unfolding parse_records write_records
parse_records-write_records zero callback number written tail seen events f t enough =
    absurd (omega (arith, enough))
parse_records-write_records (suc fuel) callback number [] tail seen events f t enough =
    let (bad, ended) = read_short record_bytes tail t in
    rw (bad, ended, parse_records) (scanned-done callback seen events)
parse_records-write_records (suc fuel) callback number (event ∷ written) tail seen events f t
      enough =
    let later = write_records written ++ tail in
    let joined : (encode_event event ++ write_records written) ++ tail
        ≡ encode_event event ++ later =
      append_assoc (encode_event event) (write_records written) tail in
    let r =
      ap (read record_bytes) joined
      ∙ read-append record_bytes (encode_event event) later (length-encode_event event) in
    let good : (read record_bytes (write_records (event ∷ written) ++ tail)).good ≡ true =
      λ i. (r i).good in
    let buffer : (read record_bytes (write_records (event ∷ written) ++ tail)).buffer
        ≡ encode_event event =
      λ i. (r i).buffer in
    let rest : (read record_bytes (write_records (event ∷ written) ++ tail)).rest ≡ later =
      λ i. (r i).rest in
    rw (good, buffer, decode_event-encode_event event (suc number) f.0, rest, parse_records)
      (parse_records-write_records fuel callback (suc number) written tail _ _ f.1 t (
          omega (
            arith,
            enough,
            ap length joined,
            length-append (encode_event event) later,
            length-encode_event event,
          ))
        ∙ scanned-more callback event written seen events)

header_passes :
    (length make_header ≡ header_bytes)
    × (has_magic 0 magic make_header ≡ true)
    × (get_u32 make_header 8 ≡ binary_event_format_version)
    × (get_u32 make_header 12 ≡ record_bytes)
unfolding make_header has_magic get_loop get_byte put_loop set_byte zeros put_magic
header_passes = (refl, refl, refl, refl)

parse_binary_impl-write_binary_event_file :
    (callback : Bool) (written : List Event) (tail : Bytes)
    → All Fits written
    → length tail < record_bytes
    → parse_binary_impl (write_binary_event_file written ++ tail) callback
      ≡ scanned callback [] [] written
unfolding parse_binary_impl write_binary_event_file
parse_binary_impl-write_binary_event_file callback written tail f t =
    let later = write_records written ++ tail in
    let (sized, magical, version, width) = header_passes in
    let joined : (make_header ++ write_records written) ++ tail ≡ make_header ++ later =
      append_assoc make_header (write_records written) tail in
    rw (joined, read-append header_bytes make_header later sized, sized, magical, version, width)
      (parse_records-write_records (suc (length later)) callback 0 written tail [] [] f t
        (omega arith))

-- Events whose fields are in the range of their types are read back from the file that they are
-- written to, without a callback and with one.
pub parse_binary_event_file-write_binary_event_file :
    (written : List Event)
    → All Fits written
    → (parse_binary_event_file (write_binary_event_file written) ≡ succeed written)
      × (for_each_binary_event_file (write_binary_event_file written)
          ≡ record { seen = written; result = succeed [] })
unfolding parse_binary_event_file for_each_binary_event_file
parse_binary_event_file-write_binary_event_file written f =
    let back : (callback : Bool)
        → parse_binary_impl (write_binary_event_file written) callback
          ≡ scanned callback [] [] written =
      λ callback.
        rw (← append-nil (write_binary_event_file written))
          (parse_binary_impl-write_binary_event_file callback written [] f (omega arith)) in
    (λ i. (back false i).result, back true)

-- A file of events whose fields are in range that ends inside a further record, after fewer than its
-- 96 bytes, is read with no error: the result is the events of the whole records, with a callback and
-- without one.
pub parse_binary_event_file-cut :
    (written : List Event) (tail : Bytes)
    → All Fits written
    → length tail < record_bytes
    → let file = write_binary_event_file written ++ tail in
      (parse_binary_event_file file ≡ succeed written)
      × (for_each_binary_event_file file ≡ record { seen = written; result = succeed [] })
unfolding parse_binary_event_file for_each_binary_event_file
parse_binary_event_file-cut written tail f t =
    let back : (callback : Bool)
        → parse_binary_impl (write_binary_event_file written ++ tail) callback
          ≡ scanned callback [] [] written =
      λ callback. parse_binary_impl-write_binary_event_file callback written tail f t in
    (λ i. (back false i).result, back true)
