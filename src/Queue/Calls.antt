-- ===== src/Queue/Calls.antt =====
-- A call of src/spsc_queue.hpp that runs to its end while the other thread waits.
use orda_book.Prelude.{
  ℕ, ◌+◌, ◌-◌, ◌%◌, ◌^◌, ◌≤◌, ◌<◌, ◌==◌, ◌≡◌, ◌≢◌, refl, true, false, some, [], ◌∷◌, ◌++◌, length,
  ne→==, ==_iff, arith,
}
use orda_book.Queue.{Ring, Pushing, Popping, push, pop, push_turn, pop_turn, take_turns}
use orda_book.Queue.Order.{IsQueue, get_elem?}

difference :
    (tail head : ℕ) → head ≤ tail → tail < 2 ^ 64 → (tail + 2 ^ 64 - head) % 2 ^ 64 ≡ tail - head
difference tail head o b = omega arith

module _ {A : Type 0} (capacity : ℕ) (ring : Ring A) (p : Pushing A) (c : Popping A)
    (some_slots : capacity ≢ 0) (q : IsQueue capacity ring p c)
    (b : length ring.pushed < 2 ^ 64) where
  -- In a queue with a slot or more, of fewer than 2 ^ 64 values so far: a call of try_push that
  -- begins where the queue is not full, and that is not interrupted, adds its value behind the others.
  pub push-Room :
      (v : A)
      → length ring.pushed < length ring.popped + capacity
      → (take_turns capacity
          (push v ∷ push v ∷ push v ∷ push v ∷ [])
          (record { ring = ring; pushing = Pushing.idle; popping = c })).ring.pushed
        ≡ ring.pushed ++ (v ∷ [])
  unfolding take_turns push_turn
  push-Room v room =
      let d =
        difference ring.tail ring.head (omega (arith, q.at_head, q.at_tail, q.ordered))
          (omega (arith, q.at_tail)) in
      let open_slot : (ring.tail - ring.head == capacity) ≡ false =
        ne→== (λ z. absurd (omega (arith, z, q.at_head, q.at_tail, q.ordered, room))) in
      rw (ne→== some_slots, d, open_slot) refl

  -- In such a queue a call of try_push that begins where the queue is full, and is not interrupted,
  -- leaves the queue as it is and ends.
  pub push-Full :
      (v : A)
      → length ring.pushed ≡ length ring.popped + capacity
      → take_turns capacity
          (push v ∷ push v ∷ push v ∷ [])
          (record { ring = ring; pushing = Pushing.idle; popping = c })
        ≡ record { ring = ring; pushing = Pushing.idle; popping = c }
  unfolding take_turns push_turn
  push-Full v full =
      let d =
        difference ring.tail ring.head (omega (arith, q.at_head, q.at_tail, q.ordered))
          (omega (arith, q.at_tail)) in
      let no_slot : (ring.tail - ring.head == capacity) ≡ true =
        (==_iff _ capacity).1 (omega (arith, q.at_head, q.at_tail, full)) in
      rw (ne→== some_slots, d, no_slot) refl

  -- In such a queue a call of try_pop that begins where a value is in it, and is not interrupted, gives
  -- the oldest value that has not come out.
  pub pop-Oldest :
      length ring.popped < length ring.pushed
      → (v : A) → get_elem? ring.pushed (length ring.popped) ≡ some v
      → (take_turns capacity
          (pop ∷ pop ∷ pop ∷ pop ∷ [])
          (record { ring = ring; pushing = p; popping = Popping.idle })).ring.popped
        ≡ ring.popped ++ (v ∷ [])
  unfolding take_turns pop_turn
  pop-Oldest more v e =
      let busy : (ring.head == ring.tail) ≡ false =
        ne→== (λ z. absurd (omega (arith, z, q.at_head, q.at_tail, more))) in
      let value : ring.slots (ring.head % capacity) ≡ v =
        let k = q.kept (length ring.popped) (omega arith) more in rw q.at_head (cc) in
      rw (ne→== some_slots, busy, value) refl
