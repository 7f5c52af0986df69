-- ===== src/Ladder.antt =====
-- The ladder engine, LadderOrderBook of src/ladder_order_book.hpp and src/ladder_order_book.cpp.
-- State has its members, Bitmaps the words of bits, Matching the loops over the levels, Operations
-- the handlers of events.
pub mod State
pub mod Bitmaps
pub mod Matching
pub mod Operations
pub mod Search
pub mod Summary
pub mod Best
pub mod Marks
pub mod Twice
pub mod Counted
pub mod Rounds
pub mod Stock
pub mod Ending
