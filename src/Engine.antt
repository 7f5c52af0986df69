-- ===== src/Engine.antt =====
-- The rules that every engine applies alike (the static members of src/order_book.hpp, `crosses` of
-- src/order_book.cpp, src/quantity_arithmetic.hpp and the counters of EngineStats).
pub mod Order
use orda_book.Prelude.{ℕ, ◌+◌, ◌-◌, ◌%◌, ◌^◌, Bool, true, false, ◌&&◌, ltb}
use orda_book.Prelude.Int.{ℤ, pos, negsuc, ltb_ℤ, leb_ℤ}
use orda_book.Types.{
  Price, Side, bid, ask, OrderType, limit, market, TimeInForce, good_til_cancel, fill_or_kill,
  immediate_or_cancel, EngineStats,
}

-- std::numeric_limits<Quantity>::max(), and of Price the largest and the least.
abbrev pub max_quantity : ℕ
max_quantity = 2 ^ 63 - 1

abbrev pub max_price : Price
max_price = pos (2 ^ 63 - 1)

abbrev pub min_price : Price
min_price = negsuc (2 ^ 63 - 1)

-- The operands are quantities that a book holds, so neither is negative.
unfoldable pub quantity_add_would_overflow : ℕ → ℕ → Bool
quantity_add_would_overflow left right = ltb 0 right && ltb (max_quantity - right) left

unfoldable pub is_valid_price : Price → Bool
is_valid_price price = ltb_ℤ (pos 0) price

unfoldable pub is_valid_qty : ℤ → Bool
is_valid_qty qty = ltb_ℤ (pos 0) qty

abbrev pub opposite : Side → Side
opposite bid = ask
opposite ask = bid

unfoldable pub crosses : Side → Price → Price → Bool
crosses bid incoming_price resting_price = leb_ℤ resting_price incoming_price
crosses ask incoming_price resting_price = leb_ℤ incoming_price resting_price

-- The orders of the two maps: std::greater for bids, std::less for asks.
unfoldable pub ahead : Side → Price → Price → Bool
ahead bid left right = ltb_ℤ right left
ahead ask left right = ltb_ℤ left right

abbrev pub is_market : OrderType → Bool
is_market market = true
is_market limit = false

abbrev pub is_good_til_cancel : TimeInForce → Bool
is_good_til_cancel good_til_cancel = true
is_good_til_cancel immediate_or_cancel = false
is_good_til_cancel fill_or_kill = false

abbrev pub is_fill_or_kill : TimeInForce → Bool
is_fill_or_kill fill_or_kill = true
is_fill_or_kill good_til_cancel = false
is_fill_or_kill immediate_or_cancel = false

-- What a market order is matched as.
abbrev pub effective_price : OrderType → Side → Price → Price
effective_price limit side price = price
effective_price market bid price = max_price
effective_price market ask price = min_price

abbrev pub effective_time_in_force : OrderType → TimeInForce → TimeInForce
effective_time_in_force limit time_in_force = time_in_force
effective_time_in_force market time_in_force = immediate_or_cancel

-- A std::size_t counter goes up by one and wraps.
unfoldable pub increment : ℕ → ℕ
increment counter = (counter + 1) % 2 ^ 64

unfoldable pub count_add : EngineStats → EngineStats
count_add stats = record stats { add_requests = increment stats.add_requests }

unfoldable pub count_cancel : EngineStats → EngineStats
count_cancel stats = record stats { cancel_requests = increment stats.cancel_requests }

unfoldable pub count_modify : EngineStats → EngineStats
count_modify stats = record stats { modify_requests = increment stats.modify_requests }

unfoldable pub count_rejected : EngineStats → EngineStats
count_rejected stats = record stats { rejected_requests = increment stats.rejected_requests }

-- The traded quantity is that of an execution in which the sum keeps to std::int64_t.
unfoldable pub count_trade : ℕ → EngineStats → EngineStats
count_trade fill_qty stats = record stats {
  trades = increment stats.trades;
  traded_qty = stats.traded_qty + fill_qty;
}
