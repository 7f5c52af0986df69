-- ===== src/Queue.antt =====
-- SpscQueue of src/spsc_queue.hpp: one thread that pushes and one that pops, which take turns at their
-- loads and stores in any order. The two counters are loaded with acquire and stored with release, so
-- that what a thread reads after a load is what the other wrote before the store; the turns assume so.
pub mod Order
pub mod Fifo
pub mod Calls
use orda_book.Prelude.{ℕ, ◌+◌, ◌-◌, ◌%◌, ◌^◌, ◌==◌, if◌then◌else◌, List, [], ◌∷◌, ◌++◌}

-- The counters and the slots, with the values of the calls that have returned true.
pub record Ring (A : Type 0) : Type 0 where
  pub head : ℕ
  pub tail : ℕ
  pub slots : ℕ → A
  pub pushed : List A
  pub popped : List A

-- Where the thread that pushes stands in `try_push`.
pub data Pushing (A : Type 0) : Type 0 where
  idle : Pushing A
  loaded_tail : A → ℕ → Pushing A
  loaded_head : A → ℕ → ℕ → Pushing A
  written : A → ℕ → Pushing A

-- Where the thread that pops stands in `try_pop`.
pub data Popping (A : Type 0) : Type 0 where
  idle : Popping A
  loaded_head : ℕ → Popping A
  loaded_tail : ℕ → ℕ → Popping A
  read : A → ℕ → Popping A

module _ {A : Type 0} (capacity : ℕ) where
  unfoldable pub write_slot : ℕ → A → (ℕ → A) → ℕ → A
  write_slot index value slots = λ i. if i == index then value else slots i

  -- One turn of `try_push`; `value` is the argument of a call that begins.
  unfoldable pub push_turn : A → Pushing A → Ring A → Pushing A × Ring A
  unfolding write_slot
  push_turn value Pushing.idle ring =
      (if capacity == 0 then Pushing.idle else Pushing.loaded_tail value ring.tail, ring)
  push_turn value (Pushing.loaded_tail v tail) ring = (Pushing.loaded_head v tail ring.head, ring)
  push_turn value (Pushing.loaded_head v tail head) ring =
      if (tail + 2 ^ 64 - head) % 2 ^ 64 == capacity then (Pushing.idle, ring) else (
        Pushing.written v tail,
        record ring { slots = write_slot (tail % capacity) v ring.slots },
      )
  push_turn value (Pushing.written v tail) ring =
      (Pushing.idle, record ring { tail = (tail + 1) % 2 ^ 64; pushed = ring.pushed ++ (v ∷ []) })

  -- One turn of `try_pop`.
  unfoldable pub pop_turn : Popping A → Ring A → Popping A × Ring A
  pop_turn Popping.idle ring =
      (if capacity == 0 then Popping.idle else Popping.loaded_head ring.head, ring)
  pop_turn (Popping.loaded_head head) ring = (Popping.loaded_tail head ring.tail, ring)
  pop_turn (Popping.loaded_tail head tail) ring = (
    if head == tail then Popping.idle else Popping.read (ring.slots (head % capacity)) head,
    ring,
  )
  pop_turn (Popping.read v head) ring =
      (Popping.idle, record ring { head = (head + 1) % 2 ^ 64; popped = ring.popped ++ (v ∷ []) })

-- Which thread takes the next turn.
pub data Turn (A : Type 0) : Type 0 where
  push : A → Turn A
  pop : Turn A

pub record Threads (A : Type 0) : Type 0 where
  pub ring : Ring A
  pub pushing : Pushing A
  pub popping : Popping A

-- The queue as its constructor leaves it.
abbrev pub new_queue : {A : Type 0} → (ℕ → A) → Threads A
new_queue slots = record {
  ring = record { head = 0; tail = 0; slots = slots; pushed = []; popped = [] };
  pushing = Pushing.idle;
  popping = Popping.idle;
}

abbrev pub take_turn : {A : Type 0} → ℕ → Turn A → Threads A → Threads A
take_turn capacity (push value) threads =
    let (pushing, ring) = push_turn capacity value threads.pushing threads.ring in
    record { ring = ring; pushing = pushing; popping = threads.popping }
take_turn capacity pop threads =
    let (popping, ring) = pop_turn capacity threads.popping threads.ring in
    record { ring = ring; pushing = threads.pushing; popping = popping }

unfoldable pub take_turns : {A : Type 0} → ℕ → List (Turn A) → Threads A → Threads A
take_turns capacity [] threads = threads
take_turns capacity (turn ∷ turns) threads =
    take_turns capacity turns (take_turn capacity turn threads)
