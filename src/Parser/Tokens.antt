-- ===== src/Parser/Tokens.antt =====
-- Tokens and integers of src/event_parser.cpp. A view into a line is the list of its bytes.
use Prim.Native.Char.{code}
use Prim.Native.String.{String}
use orda_book.Prelude.{
  ℕ, zero, suc, ◌+◌, ◌-◌, ◌*◌, ◌^◌, leb, ◌==◌, if◌then◌else◌, Bool, true, false, ◌&&◌, ◌||◌, Option,
  none, some, List, [], ◌∷◌,
}
use orda_book.Prelude.Lists.{take, drop}
use orda_book.Prelude.Int.{ℤ, pos, negsuc}

abbrev pub Bytes : Type 0
Bytes = List ℕ

-- The bytes of a literal.
abbrev pub codes : String → Bytes
codes String.[] = []
codes (String.◌∷◌ c s) = code c ∷ codes s

-- `==` of two views.
unfoldable pub same : Bytes → Bytes → Bool
same [] [] = true
same (x ∷ xs) (y ∷ ys) = x == y && same xs ys
same _ _ = false

abbrev pub is_empty : Bytes → Bool
is_empty [] = true
is_empty (ch ∷ view) = false

unfoldable pub is_delimiter : ℕ → Bool
is_delimiter ch = ch == b' ' || ch == b'\t' || ch == b'\r' || ch == b','

unfoldable pub skip_delimiters : Bytes → Bytes
skip_delimiters [] = []
skip_delimiters (ch ∷ input) = if is_delimiter ch then skip_delimiters input else ch ∷ input

abbrev pub starts_comment : Bytes → Bool
starts_comment [] = false
starts_comment (ch ∷ line) = ch == b'#'

unfoldable pub is_blank_or_comment : Bytes → Bool
is_blank_or_comment line = is_empty (skip_delimiters line) || starts_comment (skip_delimiters line)

unfoldable pub token_length : Bytes → ℕ
token_length [] = 0
token_length (ch ∷ input) = if is_delimiter ch then 0 else suc (token_length input)

-- The token, and what the call leaves of the view.
unfoldable pub next_token : Bytes → Bytes × Bytes
next_token input =
    let input = skip_delimiters input in
    let length = token_length input in (take length input, drop length input)

abbrev pub is_digit : ℕ → Bool
is_digit ch = leb b'0' ch && leb ch b'9'

-- The longest run of digits as a number after those read so far, and what stands behind it.
unfoldable pub read_digits : ℕ → Bytes → ℕ × Bytes
read_digits value [] = (value, [])
read_digits value (ch ∷ view) =
    if is_digit ch then read_digits (value * 10 + (ch - b'0')) view else (value, ch ∷ view)

abbrev pub starts_digit : Bytes → Bool
starts_digit [] = false
starts_digit (ch ∷ view) = is_digit ch

-- `std::from_chars` of digits that stand for a number up to `limit`: the number and where it stops.
unfoldable pub from_digits : ℕ → Bytes → Option (ℕ × Bytes)
from_digits limit view =
    let (value, rest) = read_digits 0 view in
    if starts_digit view && leb value limit then some (value, rest) else none

abbrev pub negative : ℕ → ℤ
negative zero = pos 0
negative (suc n) = negsuc n

-- The whole token is a number, or there is none.
abbrev pub whole : {A : Type 0} → (ℕ → A) → Option (ℕ × Bytes) → Option A
whole f none = none
whole f (some (value, [])) = some (f value)
whole f (some (value, ch ∷ rest)) = none

-- `parse_integer` for std::uint64_t and for std::int64_t, which also reads a minus sign.
unfoldable pub parse_unsigned : Bytes → Option ℕ
parse_unsigned token = whole (λ n. n) (from_digits (2 ^ 64 - 1) token)

unfoldable pub parse_signed : Bytes → Option ℤ
parse_signed [] = none
parse_signed (ch ∷ token) =
    if ch == b'-'
    then whole negative (from_digits (2 ^ 63) token)
    else whole pos (from_digits (2 ^ 63 - 1) (ch ∷ token))
