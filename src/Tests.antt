-- ===== src/Tests.antt =====
-- The two engines on concrete books, the queue on concrete turns, and the codec on concrete events.
mod Samples
mod Examples
mod PooledBooks
mod Queues
mod Texts
mod Ladders
