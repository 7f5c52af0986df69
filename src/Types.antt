-- ===== src/Types.antt =====
-- types.hpp: the vocabulary of the engines, the parsers and the replay program.
use orda_book.Prelude.{ℕ, Bool, List}
use orda_book.Prelude.Int.{ℤ}

-- A price is an int64; a market order's stand-in prices are its two ends.
abbrev pub Price : Type 0
Price = ℤ

pub data Side : Type 0 where
  bid ask : Side

pub data EventType : Type 0 where
  add cancel modify : EventType

pub data OrderType : Type 0 where
  limit market : OrderType

pub data TimeInForce : Type 0 where
  good_til_cancel immediate_or_cancel fill_or_kill : TimeInForce

-- An event's quantities are as signed as the input writes them.
pub record Event : Type 0 where
  pub type : EventType
  pub order_id : ℕ
  pub side : Side
  pub price : Price
  pub qty : ℤ
  pub order_type : OrderType
  pub time_in_force : TimeInForce
  pub post_only : Bool
  pub new_price : Price
  pub new_qty : ℤ
  pub line_number : ℕ

pub record Trade : Type 0 where
  pub resting_order_id : ℕ
  pub incoming_order_id : ℕ
  pub price : Price
  pub qty : ℕ
  pub aggressor_side : Side

pub record LevelSnapshot : Type 0 where
  pub price : Price
  pub qty : ℕ
  pub order_count : ℕ

pub record OrderSnapshot : Type 0 where
  pub order_id : ℕ
  pub side : Side
  pub price : Price
  pub qty : ℕ

pub data BookError : Type 0 where
  none : BookError
  duplicate_order_id : BookError
  unknown_order_id : BookError
  invalid_price : BookError
  invalid_quantity : BookError
  quantity_overflow : BookError
  capacity_exceeded : BookError
  price_out_of_range : BookError
  insufficient_liquidity : BookError
  would_take_liquidity : BookError

pub record EngineStats : Type 0 where
  pub add_requests : ℕ
  pub cancel_requests : ℕ
  pub modify_requests : ℕ
  pub rejected_requests : ℕ
  pub trades : ℕ
  pub traded_qty : ℕ

-- What a parser of events returns; its messages are a type of its own.
pub record ParseResult (Message : Type 0) : Type 0 where
  pub events : List Event
  pub ok : Bool
  pub error_line : ℕ
  pub error_message : Message
