-- ===== src/OrderBook.antt =====
-- The baseline engine, src/order_book.hpp and src/order_book.cpp: its state, its operations in the
-- order of the source, and below them what is proved.
pub mod State
pub mod Levels
pub mod View
pub mod Invariant
pub mod Index
pub mod Matching
pub mod Placement
pub mod Withdrawal
pub mod Operations
pub mod Shown
pub mod Policies
pub mod Conservation
pub mod Runs
pub mod Queries
pub mod Returns
