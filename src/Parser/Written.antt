-- ===== src/Parser/Written.antt =====
-- The words of a command are words to src/event_parser.cpp, and are read back one by one.
use orda_book.Prelude.{ℕ, suc, ◌+◌, ◌<◌, ◌==◌, ◌≡◌, refl, ap, false, some, arith}
use orda_book.Prelude.Int.{ℤ, pos, negsuc}
use orda_book.Types.{
  Side, bid, ask, TimeInForce, good_til_cancel, immediate_or_cancel, fill_or_kill,
}
use orda_book.Parser.Tokens.{codes, same, is_empty, is_delimiter}
use orda_book.Parser.Names.{
  side_to_string, parse_side, time_in_force_to_string, parse_time_in_force,
}
use orda_book.Parser.Decimal.{decimal, signed_decimal, decimal-Begins, decimal-All}
use orda_book.Parser.Words.{IsInner, IsWord}

digit-IsInner : (d : ℕ) → d < 10 → IsInner (b'0' + d)
unfolding is_delimiter
digit-IsInner d b = ground arith

pub decimal-IsWord : (n : ℕ) → IsWord (decimal n)
decimal-IsWord n =
    let (ch, more, e, d) = decimal-Begins n in
    record { inner = decimal-All IsInner digit-IsInner n; filled = ap is_empty e }

pub signed_decimal-IsWord : (n : ℤ) → IsWord (signed_decimal n)
unfolding signed_decimal
signed_decimal-IsWord (pos n) = decimal-IsWord n
signed_decimal-IsWord (negsuc n) = record {
  inner = (
    unfold is_delimiter in record { inner = refl; in_line = refl },
    (decimal-IsWord (suc n)).inner,
  );
  filled = refl;
}

-- A price is not the word MARKET.
pub signed_decimal-ne-market : (n : ℤ) → same (signed_decimal n) (codes "MARKET") ≡ false
unfolding signed_decimal same
signed_decimal-ne-market (pos n) =
    let (ch, more, e, d) = decimal-Begins n in
    let other : (ch == b'M') ≡ false = ground arith in rw (e, other)
signed_decimal-ne-market (negsuc n) = refl

pub side-IsWord : (side : Side) → IsWord (side_to_string side)
unfolding side_to_string is_delimiter
side-IsWord bid = ground arith
side-IsWord ask = ground arith

pub time-IsWord : (t : TimeInForce) → IsWord (time_in_force_to_string t)
unfolding time_in_force_to_string is_delimiter
time-IsWord good_til_cancel = ground arith
time-IsWord immediate_or_cancel = ground arith
time-IsWord fill_or_kill = ground arith

pub parse_side-side_to_string : (side : Side) → parse_side (side_to_string side) ≡ some side
unfolding parse_side side_to_string same
parse_side-side_to_string bid = refl
parse_side-side_to_string ask = refl

pub parse_time_in_force-time_in_force_to_string :
    (t : TimeInForce) → parse_time_in_force (time_in_force_to_string t) ≡ some t
unfolding parse_time_in_force time_in_force_to_string same
parse_time_in_force-time_in_force_to_string good_til_cancel = refl
parse_time_in_force-time_in_force_to_string immediate_or_cancel = refl
parse_time_in_force-time_in_force_to_string fill_or_kill = refl
