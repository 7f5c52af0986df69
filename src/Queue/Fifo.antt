-- ===== src/Queue/Fifo.antt =====
-- Any turns of the two threads of src/spsc_queue.hpp.
use orda_book.Prelude.{
  ℕ, ◌+◌, ◌-◌, ◌%◌, ◌^◌, ◌≤◌, ◌<◌, ◌==◌, ◌≡◌, refl, sym, ne→==, subst, inl, inr, Bool-cases, false,
  List, [], ◌∷◌, length, length-append, arith,
}
use orda_book.Prelude.Lists.{take}
use orda_book.Queue.{
  Ring, Pushing, Popping, Turn, push, pop, Threads, new_queue, push_turn, pop_turn, take_turn,
  take_turns, write_slot,
}
use orda_book.Queue.Order.{IsQueue, slots_apart, has_room, push_turn-IsQueue, pop_turn-IsQueue}

abbrev pub AreQueue : {A : Type 0} → ℕ → Threads A → Type 0
AreQueue capacity t = IsQueue capacity t.ring t.pushing t.popping

-- What has come out is the front of what has gone in, and the rest fits the slots.
abbrev pub IsFifo : {A : Type 0} → ℕ → Ring A → Type 0
IsFifo capacity ring =
    (ring.popped ≡ take (length ring.popped) ring.pushed)
    × (length ring.popped ≤ length ring.pushed)
    × (length ring.pushed ≤ length ring.popped + capacity)

module _ {A : Type 0} (capacity : ℕ) where
  pushed-push_turn :
      (value : A) (p : Pushing A) (ring : Ring A)
      → length (push_turn capacity value p ring).1.pushed ≤ length ring.pushed + 1
  unfolding push_turn
  pushed-push_turn value Pushing.idle ring = omega arith
  pushed-push_turn value (Pushing.loaded_tail v tail) ring = omega arith
  pushed-push_turn value (Pushing.loaded_head v tail head) ring =
      elim (Bool-cases ((tail + 2 ^ 64 - head) % 2 ^ 64 == capacity)) [
        | inl t ↦ rw t (omega arith)
        | inr f ↦ rw f (omega arith)
      ]
  pushed-push_turn value (Pushing.written v tail) ring =
      omega (arith, length-append ring.pushed (v ∷ []))

  pushed-pop_turn :
      (c : Popping A) (ring : Ring A) → (pop_turn capacity c ring).1.pushed ≡ ring.pushed
  unfolding pop_turn
  pushed-pop_turn Popping.idle ring = refl
  pushed-pop_turn (Popping.loaded_head head) ring = refl
  pushed-pop_turn (Popping.loaded_tail head tail) ring = refl
  pushed-pop_turn (Popping.read v head) ring = refl

  pub take_turns-IsQueue :
      (turns : List (Turn A)) (threads : Threads A)
      → length threads.ring.pushed + length turns < 2 ^ 64
      → AreQueue capacity threads
      → AreQueue capacity (take_turns capacity turns threads)
  unfolding take_turns
  take_turns-IsQueue [] threads b q = q
  take_turns-IsQueue (push value ∷ turns) threads b q =
      take_turns-IsQueue turns (take_turn capacity (push value) threads)
        (omega (arith, pushed-push_turn value threads.pushing threads.ring))
        (push_turn-IsQueue capacity value threads.ring threads.pushing threads.popping (omega arith)
          q)
  take_turns-IsQueue (pop ∷ turns) threads b q =
      take_turns-IsQueue turns (take_turn capacity pop threads)
        (rw (pushed-pop_turn threads.popping threads.ring) (omega arith))
        (pop_turn-IsQueue capacity threads.ring threads.pushing threads.popping (omega arith) q)

  pushed-take_turns :
      (turns : List (Turn A)) (threads : Threads A)
      → length threads.ring.pushed + length turns < 2 ^ 64
      → length (take_turns capacity turns threads).ring.pushed < 2 ^ 64
  unfolding take_turns
  pushed-take_turns [] threads b = omega arith
  pushed-take_turns (push value ∷ turns) threads b =
      pushed-take_turns turns (take_turn capacity (push value) threads)
        (omega (arith, pushed-push_turn value threads.pushing threads.ring))
  pushed-take_turns (pop ∷ turns) threads b =
      pushed-take_turns turns (take_turn capacity pop threads)
        (rw (pushed-pop_turn threads.popping threads.ring) (omega arith))

  pub new_queue-IsQueue : (slots : ℕ → A) → AreQueue capacity (new_queue slots)
  unfolding take
  new_queue-IsQueue slots = record {
    at_head = refl;
    at_tail = refl;
    ordered = omega arith;
    fits = omega arith;
    kept = λ k a b. absurd (omega arith);
    in_order = refl;
    pushing = tt;
    popping = tt;
  }

  -- A new queue of any capacity, and fewer than 2 ^ 64 turns of the two threads in any order: the
  -- values that the calls of try_pop have given are the first that the calls of try_push have taken,
  -- in order, and at most as many as the capacity are in between.
  pub take_turns-Fifo :
      (slots : ℕ → A) (turns : List (Turn A))
      → length turns < 2 ^ 64
      → IsFifo capacity (take_turns capacity turns (new_queue slots)).ring
  take_turns-Fifo slots turns b =
      let q = take_turns-IsQueue turns (new_queue slots) (omega arith) (new_queue-IsQueue slots) in
      (q.in_order, q.ordered, q.fits)

  -- The thread that pops reads a slot that the other does not write.
  read-write_slot :
      (v : A) (ring : Ring A) (tail head pop_head pop_tail : ℕ)
      → length ring.pushed < 2 ^ 64
      → IsQueue capacity ring
          (Pushing.loaded_head v tail head)
          (Popping.loaded_tail pop_head pop_tail)
      → ((tail + 2 ^ 64 - head) % 2 ^ 64 == capacity) ≡ false
      → (pop_head == pop_tail) ≡ false
      → write_slot capacity (tail % capacity) v ring.slots (pop_head % capacity)
        ≡ ring.slots (pop_head % capacity)
  unfolding write_slot
  read-write_slot v ring tail head pop_head pop_tail small q full empty =
      let (at_tail, l, m) = q.pushing in
      let (at_head, n, o) = q.popping in
      let some : pop_head < tail = ground (arith, empty, at_tail, n, o) in
      let room = has_room capacity tail head _ _ at_tail l m small q.ordered full in
      rw (ne→== (slots_apart capacity pop_head tail some (omega (arith, at_tail, at_head, room))))
        refl

  -- A turn of the thread that pushes changes nothing for a thread that is about to read a slot.
  turns_commute :
      (value : A) (ring : Ring A) (p : Pushing A) (pop_head pop_tail : ℕ)
      → length ring.pushed < 2 ^ 64
      → IsQueue capacity ring p (Popping.loaded_tail pop_head pop_tail)
      → let threads : Threads A = record {
        ring = ring;
        pushing = p;
        popping = Popping.loaded_tail pop_head pop_tail;
      } in
        take_turn capacity pop (take_turn capacity (push value) threads)
        ≡ take_turn capacity (push value) (take_turn capacity pop threads)
  unfolding push_turn pop_turn
  turns_commute value ring Pushing.idle pop_head pop_tail small q = refl
  turns_commute value ring (Pushing.loaded_tail v tail) pop_head pop_tail small q = refl
  turns_commute value ring (Pushing.written v tail) pop_head pop_tail small q = refl
  turns_commute value ring (Pushing.loaded_head v tail head) pop_head pop_tail small q =
      elim (Bool-cases ((tail + 2 ^ 64 - head) % 2 ^ 64 == capacity)) [
        | inl full ↦ rw full refl
        | inr room ↦ elim (Bool-cases (pop_head == pop_tail)) [
          | inl empty ↦ rw (room, empty) refl
          | inr some ↦
              rw (room, some, read-write_slot v ring tail head pop_head pop_tail small q room some)
                refl
        ]
      ]

  -- A new queue of any capacity, and fewer than 2 ^ 64 turns in any order, after which the thread that
  -- pops is about to read a slot, if it finds the queue not empty: the next turn of the other thread,
  -- whether or not it writes a slot, and the turn that reads leave the same in either order.
  pub take_turns-RaceFree :
      (slots : ℕ → A) (turns : List (Turn A)) (value : A) (pop_head pop_tail : ℕ)
      → length turns < 2 ^ 64
      → (take_turns capacity turns (new_queue slots)).popping
        ≡ Popping.loaded_tail pop_head pop_tail
      → let threads = take_turns capacity turns (new_queue slots) in
        take_turn capacity pop (take_turn capacity (push value) threads)
        ≡ take_turn capacity (push value) (take_turn capacity pop threads)
  take_turns-RaceFree slots turns value pop_head pop_tail b e =
      let threads = take_turns capacity turns (new_queue slots) in
      let q = take_turns-IsQueue turns (new_queue slots) (omega arith) (new_queue-IsQueue slots) in
      let small = pushed-take_turns turns (new_queue slots) (omega arith) in
      let Commute : Popping A → Type 0 = λ c.
        let t : Threads A = record {
          ring = threads.ring;
          pushing = threads.pushing;
          popping = c;
        } in
        take_turn capacity pop (take_turn capacity (push value) t)
        ≡ take_turn capacity (push value) (take_turn capacity pop t) in
      subst Commute (sym e) (
        turns_commute value threads.ring threads.pushing pop_head pop_tail small
          (subst (IsQueue capacity threads.ring threads.pushing) e q))
