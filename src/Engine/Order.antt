-- ===== src/Engine/Order.antt =====
-- The comparators of the two maps are strict orders that `crosses` respects.
use orda_book.Prelude.{◌≡◌, true, false, arith}
use orda_book.Prelude.Int.{eqb_ℤ}
use orda_book.Types.{Price, Side, bid, ask}
use orda_book.Engine.{ahead, crosses, opposite}

pub ahead_irrefl : (side : Side) (a : Price) → ahead side a a ≡ false
unfolding ahead
ahead_irrefl bid a = ground arith
ahead_irrefl ask a = ground arith

pub ahead_asymm : (side : Side) (a b : Price) → ahead side a b ≡ true → ahead side b a ≡ false
unfolding ahead
ahead_asymm bid a b h = ground arith
ahead_asymm ask a b h = ground arith

pub ahead_trans :
    (side : Side) (a b c : Price)
    → ahead side a b ≡ true
    → ahead side b c ≡ true
    → ahead side a c ≡ true
unfolding ahead
ahead_trans bid a b c h k = ground arith
ahead_trans ask a b c h k = ground arith

pub ahead_total :
    (side : Side) (a b : Price) → eqb_ℤ a b ≡ false → ahead side a b ≡ false → ahead side b a ≡ true
unfolding ahead
ahead_total bid a b h k = ground arith
ahead_total ask a b h k = ground arith

pub ahead-ne : (side : Side) (a b : Price) → ahead side a b ≡ true → eqb_ℤ b a ≡ false
unfolding ahead
ahead-ne bid a b h = ground arith
ahead-ne ask a b h = ground arith

-- What a price does not cross, no price behind it crosses either.
pub crosses-ahead :
    (side : Side) (price a b : Price)
    → crosses side price a ≡ false
    → ahead (opposite side) a b ≡ true
    → crosses side price b ≡ false
unfolding ahead crosses
crosses-ahead bid price a b h k = ground arith
crosses-ahead ask price a b h k = ground arith
