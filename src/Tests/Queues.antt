-- ===== src/Tests/Queues.antt =====
-- The theorems on queues of src/spsc_queue.hpp with one slot and with two.
use orda_book.Prelude.{ℕ, ◌+◌, ◌^◌, ◌<◌, ◌≡◌, refl, List, [], ◌∷◌, ◌++◌, length, some, arith}
use orda_book.Queue.{
  Pushing, Popping, Turn, push, pop, Threads, new_queue, write_slot, push_turn, pop_turn, take_turn,
  take_turns,
}
use orda_book.Queue.Order.{get_elem?}
use orda_book.Queue.Fifo.{
  AreQueue, IsFifo, new_queue-IsQueue, take_turns-IsQueue, take_turns-Fifo, take_turns-RaceFree,
}
use orda_book.Queue.Calls.{push-Room, push-Full, pop-Oldest}

abbrev empty_slots : ℕ → ℕ
empty_slots _ = 0

abbrev one_push : List (Turn ℕ)
one_push = push 7 ∷ push 7 ∷ push 7 ∷ push 7 ∷ []

-- Two values go in, and one comes out.
abbrev some_turns : List (Turn ℕ)
some_turns =
    push 7
    ∷ push 7
    ∷ pop
    ∷ push 7
    ∷ pop
    ∷ push 7
    ∷ push 8
    ∷ pop
    ∷ push 8
    ∷ push 8
    ∷ pop
    ∷ pop
    ∷ push 8
    ∷ pop
    ∷ pop
    ∷ []

some_turns_popped : (take_turns 2 some_turns (new_queue empty_slots)).ring.popped ≡ 7 ∷ []
unfolding take_turns push_turn pop_turn write_slot
some_turns_popped = refl

take_turns-Fifo_example : IsFifo 2 (take_turns 2 some_turns (new_queue empty_slots)).ring
take_turns-Fifo_example = take_turns-Fifo 2 empty_slots some_turns (omega arith)

-- The one thread is about to write slot 1, the other to read slot 0.
abbrev both_in : List (Turn ℕ)
both_in = push 7 ∷ push 7 ∷ push 7 ∷ push 7 ∷ push 8 ∷ push 8 ∷ pop ∷ pop ∷ []

both_in-popping : (take_turns 2 both_in (new_queue empty_slots)).popping ≡ Popping.loaded_tail 0 1
unfolding take_turns push_turn pop_turn
both_in-popping = refl

-- The one writes 8, the other reads 7.
take_turns-RaceFree_example :
    let threads = take_turns 2 both_in (new_queue empty_slots) in
    take_turn 2 pop (take_turn 2 (push 8) threads) ≡ take_turn 2 (push 8) (take_turn 2 pop threads)
take_turns-RaceFree_example =
    take_turns-RaceFree 2 empty_slots both_in 8 0 1 (omega arith) both_in-popping

abbrev pushed_one : ℕ → Threads ℕ
pushed_one capacity = take_turns capacity one_push (new_queue empty_slots)

pushed_one-IsQueue : (capacity : ℕ) → AreQueue capacity (pushed_one capacity)
pushed_one-IsQueue capacity =
    take_turns-IsQueue capacity one_push (new_queue empty_slots) (omega arith)
      (new_queue-IsQueue capacity empty_slots)

pushed_one-counts :
    (length (pushed_one 1).ring.pushed ≡ 1)
    × (length (pushed_one 1).ring.popped ≡ 0)
    × (length (pushed_one 2).ring.pushed ≡ 1)
    × (length (pushed_one 2).ring.popped ≡ 0)
    × (get_elem? (pushed_one 2).ring.pushed (length (pushed_one 2).ring.popped) ≡ some 7)
unfolding take_turns push_turn
pushed_one-counts = (refl, refl, refl, refl, refl)

one_small : length (pushed_one 1).ring.pushed < 2 ^ 64
one_small = omega (arith, pushed_one-counts.0)

two_small : length (pushed_one 2).ring.pushed < 2 ^ 64
two_small = omega (arith, pushed_one-counts.2)

two_room : length (pushed_one 2).ring.pushed < length (pushed_one 2).ring.popped + 2
two_room = omega (arith, pushed_one-counts.2, pushed_one-counts.3)

one_full : length (pushed_one 1).ring.pushed ≡ length (pushed_one 1).ring.popped + 1
one_full = omega (arith, pushed_one-counts.0, pushed_one-counts.1)

two_more : length (pushed_one 2).ring.popped < length (pushed_one 2).ring.pushed
two_more = omega (arith, pushed_one-counts.2, pushed_one-counts.3)

push-Room_example :
    (take_turns 2 (push 8 ∷ push 8 ∷ push 8 ∷ push 8 ∷ []) (record {
      ring = (pushed_one 2).ring;
      pushing = Pushing.idle;
      popping = (pushed_one 2).popping;
    })).ring.pushed
    ≡ (pushed_one 2).ring.pushed ++ (8 ∷ [])
push-Room_example =
    push-Room 2 (pushed_one 2).ring (pushed_one 2).pushing (pushed_one 2).popping (omega arith)
      (pushed_one-IsQueue 2) two_small 8 two_room

one_stays_full :
    take_turns 1 (push 8 ∷ push 8 ∷ push 8 ∷ []) (record {
      ring = (pushed_one 1).ring;
      pushing = Pushing.idle;
      popping = (pushed_one 1).popping;
    })
    ≡ record {
      ring = (pushed_one 1).ring;
      pushing = Pushing.idle;
      popping = (pushed_one 1).popping;
    }
one_stays_full =
    push-Full 1 (pushed_one 1).ring (pushed_one 1).pushing (pushed_one 1).popping (omega arith)
      (pushed_one-IsQueue 1) one_small 8 one_full

pop-Oldest_example :
    (take_turns 2 (pop ∷ pop ∷ pop ∷ pop ∷ []) (record {
      ring = (pushed_one 2).ring;
      pushing = (pushed_one 2).pushing;
      popping = Popping.idle;
    })).ring.popped
    ≡ (pushed_one 2).ring.popped ++ (7 ∷ [])
pop-Oldest_example =
    pop-Oldest 2 (pushed_one 2).ring (pushed_one 2).pushing (pushed_one 2).popping (omega arith)
      (pushed_one-IsQueue 2) two_small two_more 7 pushed_one-counts.4
