-- ===== src/Parser/Names.antt =====
-- The names that src/types.hpp gives to sides, order types, times in force and errors.
use orda_book.Prelude.{if◌then◌else◌, ◌||◌, Option, none, some}
use orda_book.Types.{
  Side, bid, ask, OrderType, limit, market, TimeInForce, good_til_cancel, immediate_or_cancel,
  fill_or_kill, BookError,
}
use orda_book.Parser.Tokens.{Bytes, codes, same}

unfoldable pub side_to_string : Side → Bytes
side_to_string bid = codes "BUY"
side_to_string ask = codes "SELL"

unfoldable pub parse_side : Bytes → Option Side
parse_side token =
    if same token (codes "B") || same token (codes "BUY") || same token (codes "BID")
    then some bid
    else if same token (codes "S") || same token (codes "SELL") || same token (codes "ASK")
    then some ask
    else none

unfoldable pub order_type_to_string : OrderType → Bytes
order_type_to_string limit = codes "LIMIT"
order_type_to_string market = codes "MARKET"

unfoldable pub time_in_force_to_string : TimeInForce → Bytes
time_in_force_to_string good_til_cancel = codes "GTC"
time_in_force_to_string immediate_or_cancel = codes "IOC"
time_in_force_to_string fill_or_kill = codes "FOK"

unfoldable pub parse_order_type : Bytes → Option OrderType
parse_order_type token =
    if same token (codes "LIMIT")
    then some limit
    else if same token (codes "MARKET")
    then some market
    else none

unfoldable pub parse_time_in_force : Bytes → Option TimeInForce
parse_time_in_force token =
    if same token (codes "GTC")
    then some good_til_cancel
    else if same token (codes "IOC")
    then some immediate_or_cancel
    else if same token (codes "FOK")
    then some fill_or_kill
    else none

unfoldable pub error_to_string : BookError → Bytes
error_to_string BookError.none = codes "none"
error_to_string BookError.duplicate_order_id = codes "duplicate_order_id"
error_to_string BookError.unknown_order_id = codes "unknown_order_id"
error_to_string BookError.invalid_price = codes "invalid_price"
error_to_string BookError.invalid_quantity = codes "invalid_quantity"
error_to_string BookError.quantity_overflow = codes "quantity_overflow"
error_to_string BookError.capacity_exceeded = codes "capacity_exceeded"
error_to_string BookError.price_out_of_range = codes "price_out_of_range"
error_to_string BookError.insufficient_liquidity = codes "insufficient_liquidity"
error_to_string BookError.would_take_liquidity = codes "would_take_liquidity"
