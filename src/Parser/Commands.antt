-- ===== src/Parser/Commands.antt =====
-- Lines of text for src/event_parser.cpp, and what each asks for.
use orda_book.Prelude.{ℕ, ◌^◌, ◌<◌, ◌==◌, ◌≡◌, ◌&&◌, Bool, true, false, List, [], ◌∷◌, All}
use orda_book.Prelude.Int.{ℤ}
use orda_book.Types.{Side, EventType, market, TimeInForce}
use orda_book.Engine.{is_good_til_cancel, is_fill_or_kill}
use orda_book.Codec.Records.{IsInt64}
use orda_book.Parser.Tokens.{Bytes, codes}
use orda_book.Parser.Names.{side_to_string, time_in_force_to_string}
use orda_book.Parser.Stream.{default_event, Line, skipped, parsed}
use orda_book.Parser.Decimal.{decimal, signed_decimal}

-- The requests that the text can make, and a comment.
pub data Command : Type 0 where
  add_limit : ℕ → Side → ℤ → ℤ → TimeInForce → Bool → Command
  add_market : ℕ → Side → ℤ → TimeInForce → Command
  cancel : ℕ → Command
  modify : ℕ → ℤ → ℤ → Command
  comment : Bytes → Command

abbrev pub post_words : Bool → List Bytes
post_words true = codes "POST_ONLY" ∷ []
post_words false = []

-- The words of a command: the first, and those after it.
abbrev pub head_word : Command → Bytes
head_word (add_limit id side price qty time_in_force post_only) = codes "ADD"
head_word (add_market id side qty time_in_force) = codes "ADD"
head_word (cancel id) = codes "CANCEL"
head_word (modify id price qty) = codes "MODIFY"
head_word (comment text) = b'#' ∷ text

unfoldable pub more_words : Command → List Bytes
more_words (add_limit id side price qty time_in_force post_only) =
    decimal id
    ∷ side_to_string side
    ∷ signed_decimal price
    ∷ signed_decimal qty
    ∷ time_in_force_to_string time_in_force
    ∷ post_words post_only
more_words (add_market id side qty time_in_force) =
    decimal id
    ∷ side_to_string side
    ∷ codes "MARKET"
    ∷ signed_decimal qty
    ∷ time_in_force_to_string time_in_force
    ∷ []
more_words (cancel id) = decimal id ∷ []
more_words (modify id price qty) = decimal id ∷ signed_decimal price ∷ signed_decimal qty ∷ []
more_words (comment text) = []

-- The event that a command asks for.
unfoldable pub meaning : ℕ → Command → Line
meaning n (add_limit id side price qty time_in_force post_only) = parsed (record (default_event n) {
  order_id = id;
  side = side;
  price = price;
  qty = qty;
  time_in_force = time_in_force;
  post_only = post_only;
})
meaning n (add_market id side qty time_in_force) = parsed (record (default_event n) {
  order_id = id;
  side = side;
  qty = qty;
  order_type = market;
  time_in_force = time_in_force;
})
meaning n (cancel id) = parsed (record (default_event n) { type = EventType.cancel; order_id = id })
meaning n (modify id price qty) = parsed (record (default_event n) {
  type = EventType.modify;
  order_id = id;
  new_price = price;
  new_qty = qty;
})
meaning n (comment text) = skipped

-- A byte of a comment does not end its line.
abbrev pub InText : ℕ → Type 0
InText ch = (ch == b'\n') ≡ false

-- The numbers are in range and the options go together.
abbrev pub IsCommand : Command → Type 0
IsCommand (add_limit id side price qty time_in_force post_only) =
    (id < 2 ^ 64)
    × IsInt64 price
    × IsInt64 qty
    × (post_only && is_fill_or_kill time_in_force ≡ false)
IsCommand (add_market id side qty time_in_force) =
    (id < 2 ^ 64) × IsInt64 qty × (is_good_til_cancel time_in_force ≡ false)
IsCommand (cancel id) = id < 2 ^ 64
IsCommand (modify id price qty) = (id < 2 ^ 64) × IsInt64 price × IsInt64 qty
IsCommand (comment text) = All InText text
