-- ===== src/Parser.antt =====
-- The text parser of events, src/event_parser.cpp: Tokens has its readers of tokens and of integers, Names
-- those of src/types.hpp, Stream the lines and the four functions of src/event_parser.hpp.
pub mod Tokens
pub mod Names
pub mod Stream
pub mod Lines
pub mod Numbers
pub mod Policies
pub mod Ranges
pub mod Decimal
pub mod Words
pub mod Commands
pub mod Written
pub mod Options
pub mod Fuel
pub mod RoundTrip
pub mod Texts
pub mod Uses
