-- ===== src/Pooled.antt =====
-- The pooled engine, src/pooled_order_book.hpp and src/pooled_order_book.cpp: orders in the slots of
-- one array, linked by slot numbers, with a list of the free slots.
pub mod State
pub mod Linked
pub mod Keys
pub mod Appending
pub mod Allocating
pub mod Split
pub mod Holding
pub mod Represents
pub mod Resting
pub mod Freeing
pub mod Entering
pub mod Refusing
pub mod Adding
pub mod Unlinking
pub mod Locating
pub mod Releasing
pub mod Removing
pub mod Leaving
pub mod Live
pub mod Replacing
pub mod View
pub mod Process
pub mod Reserving
pub mod Slots
pub mod Matching
pub mod Operations
