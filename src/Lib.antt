-- ===== src/Lib.antt =====
-- Orda Book: a limit order book with price-time priority, and its proofs.
--
-- The program (src/) holds three engines with one interface, a parser and a binary codec for events,
-- a queue between threads, and programs around them. This library models the
-- three engines, the queue, the codec, the text parser and the replay.
--
-- - Types: src/types.hpp. Prices are integers; order ids, counters and the quantities that a book
--   holds are natural numbers; the quantities of an event are integers, since an event may be wrong.
-- - Engine: the static checks of src/order_book.hpp, `crosses` of src/order_book.cpp and
--   src/quantity_arithmetic.hpp. The bound of a quantity is 2 ^ 63 - 1, and the std::size_t counters
--   wrap at 2 ^ 64.
-- - Priority: what the engines promise, with no levels, index or pointers. A side is the list of its
--   resting orders, best price first and oldest first within a price. Priority.Book handles every
--   event on two such lists. The modules below it have the laws of these lists.
-- - OrderBook: src/order_book.hpp and src/order_book.cpp. State has the private types of the class,
--   Levels has `ensure_level`, `add_resting_order` and `remove_order`, Matching has
--   `max_crossing_qty` and `match_incoming`, Operations has `add_order_with_policy`, `add_order`,
--   `cancel_order`, `modify_order` and `process`, View has `orders`, `levels` and `top_of_book`.
--   A std::map is the list of its levels in its order; a pointer to a level is the level's key, and
--   an iterator into a level's list is the id of its order, since nodes of both containers stay
--   where they are until they are erased; the index is an association list. The operations return
--   the book and the trades beside the error. Invariant says what holds between calls, and the
--   modules after it follow the orders, the index and the levels through each operation.
-- - Pooled: src/pooled_order_book.hpp and src/pooled_order_book.cpp. State has the private types, Slots
--   has `reserve_orders`, `allocate_slot`, `release_slot`, `append_slot`, `unlink_slot`,
--   `add_resting_order` and `remove_order`, Matching has `max_crossing_qty` and `match_incoming`,
--   Operations has the operations and View the queries. The vector of slots is a function from slot
--   numbers, the maps are lists as in OrderBook, and none is what throws. Linked says when slots form
--   the list of a level or the list of the free slots, Represents when the pooled book and a book of
--   the baseline engine hold the same orders, and the modules after it set each operation beside that
--   of the baseline engine.
-- - Ladder: src/ladder_order_book.hpp and src/ladder_order_book.cpp. State has the members,
--   `add_resting_order` and `remove_order`, Bitmaps the bitmaps with `set_occupied`, `clear_occupied` and
--   `best_index`, Matching has `max_crossing_qty` and `match_incoming`, Operations the operations and the
--   queries. A word of a bitmap is its 64 bits, the vector of levels is a function from places.
--   Search, Summary, Best and Marks set the bitmaps beside the set of the marked levels; Twice and Counted show what
--   `max_crossing_qty` counts for a sell; Rounds, Stock and Ending follow the loops of `match_incoming`.
-- - Queue: src/spsc_queue.hpp. Each load or store of `try_push` and `try_pop` that the other thread can
--   see is one turn of its thread, and a list of turns is an interleaving. The model also keeps the
--   values that went in and came out, oldest first. The acquire loads and release stores of the code
--   are what lets a turn see all turns before it. The counters wrap at 2 ^ 64, and the proofs are on
--   runs of fewer turns than that.
-- - Codec: src/binary_event_codec.cpp. Codec has the bytes of a header and of a record, Codec.Reader
--   the loop over the bytes of a file with the two flags of its stream, and the functions of the
--   header. The or of shifted bytes is the or of the code; Codec.Words shows that it is their sum.
-- - Parser: src/event_parser.cpp. Tokens has its readers of tokens and of integers, Names the functions of
--   src/types.hpp between data and their names, Stream the options, the lines and the functions of
--   src/event_parser.hpp. A view is the list of its bytes. Decimal, Words and Commands write what the parser
--   reads, and Uses takes its events to the replay.
-- - Replay: the consumer of events of src/replay_main.cpp, which drives the engine until it refuses.
--   Replay.Trace has the consumer of --trace-json, with its limit of 500 events.
-- - Tests: an engine run on concrete events, and the theorems on them.
--
-- The inner loop of `match_incoming` is recursion on fuel, the number of orders in the level, which
-- is the count that the level keeps in the pooled engine: every
-- round but the last takes an order from the level, and the proofs about the loop show that it ends
-- with the level empty or the incoming quantity used up. The loop over the records of a binary file has
-- the length of the file as fuel, of which every round but the last takes 96. The loops over the lines of a
-- text and over the options of a line have a length as fuel, of which every round but the last takes a
-- byte, and both are shown to end before it is used up. The outer loop of matching in the ladder has the
-- incoming quantity as fuel, the inner loop the count of the orders at the level; Rounds and Ending show
-- that both end. All other loops are
-- recursion on a list or on a count.
--
-- In the baseline and the pooled engine a sum that would pass the bound of a quantity is refused by the
-- code before it is made. The bounds are part of the invariant, so that addition and subtraction of
-- quantities are those of the natural numbers. In the ladder the sum of the traded quantities need not
-- keep to its bound, since its check uses `max_crossing_qty`, which can be too small for a sell; the
-- model adds natural numbers there too, and what the code does past the bound is undefined.
--
-- Not modelled: `reserve_orders` of the baseline and the ladder engine, which only sizes a hash table; `format_book` and the other
-- printing; allocation failure;
-- the arguments and the printing of the replay program, and the programs that only measure or print.
pub mod Prelude
pub mod Types
pub mod Engine
pub mod Priority
pub mod OrderBook
pub mod Pooled
pub mod Ladder
pub mod Queue
pub mod Codec
pub mod Parser
pub mod Replay
pub mod Tests
