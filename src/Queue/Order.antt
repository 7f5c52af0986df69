-- ===== src/Queue/Order.antt =====
-- The queue of src/spsc_queue.hpp hands on the values in the order in which they came.
use orda_book.Prelude.{
  ℕ, zero, suc, ◌+◌, ◌-◌, ◌%◌, ◌^◌, ◌≤◌, ◌<◌, ◌==◌, ◌≡◌, ◌≢◌, ◌∙◌, refl, sym, ap, ne→==, ==_iff,
  ==_refl, inl, inr, Bool-cases, false, Option, none, some, List, [], ◌∷◌, ◌++◌, length,
  length-append, arith,
}
use orda_book.Prelude.Lists.{take}
use orda_book.Queue.{Ring, Pushing, Popping, write_slot, push_turn, pop_turn}

module _ {A : Type 0} where
  abbrev pub get_elem? : List A → ℕ → Option A
  get_elem? [] i = none
  get_elem? (x ∷ xs) zero = some x
  get_elem? (x ∷ xs) (suc i) = get_elem? xs i

  get_elem?-append :
      (xs ys : List A) (i : ℕ) → i < length xs → get_elem? (xs ++ ys) i ≡ get_elem? xs i
  get_elem?-append [] ys i h = absurd (omega arith)
  get_elem?-append (x ∷ xs) ys zero h = refl
  get_elem?-append (x ∷ xs) ys (suc i) h = get_elem?-append xs ys i (omega arith)

  get_elem?-last : (xs : List A) (x : A) → get_elem? (xs ++ (x ∷ [])) (length xs) ≡ some x
  get_elem?-last [] x = refl
  get_elem?-last (y ∷ xs) x = get_elem?-last xs x

  take-append_le : (xs ys : List A) (n : ℕ) → n ≤ length xs → take n (xs ++ ys) ≡ take n xs
  unfolding take
  take-append_le xs ys zero h = refl
  take-append_le [] ys (suc n) h = absurd (omega arith)
  take-append_le (x ∷ xs) ys (suc n) h = ap (◌∷◌ x) (take-append_le xs ys n (omega arith))

  take-next :
      (xs : List A) (n : ℕ) (x : A)
      → get_elem? xs n ≡ some x
      → take (suc n) xs ≡ take n xs ++ (x ∷ [])
  unfolding take
  take-next [] n x e = cc
  take-next (y ∷ xs) zero x e = cc
  take-next (y ∷ xs) (suc n) x e = ap (◌∷◌ y) (take-next xs n x e)

-- Two counts less than the capacity apart have slots of their own.
pub slots_apart : (capacity k t : ℕ) → k < t → t < k + capacity → k % capacity ≢ t % capacity
slots_apart capacity k t h g e = grind arith

-- What the test of `try_push` finds, where it does not find the queue full.
pub has_room :
    (capacity tail head pushed popped : ℕ)
    → tail ≡ pushed
    → head ≤ popped
    → pushed ≤ head + capacity
    → pushed < 2 ^ 64
    → popped ≤ pushed
    → ((tail + 2 ^ 64 - head) % 2 ^ 64 == capacity) ≡ false
    → pushed < popped + capacity
has_room capacity tail head pushed popped e l m small o f =
    let difference : (tail + 2 ^ 64 - head) % 2 ^ 64 ≡ tail - head = omega arith in
    let full : tail - head ≢ capacity = λ z. let t = (==_iff _ capacity).1 (difference ∙ z) in cc in
    omega (arith, full)

module _ {A : Type 0} (capacity : ℕ) where
  abbrev pub PushingOk : Ring A → Pushing A → Type 0
  PushingOk ring Pushing.idle = Unit {0}
  PushingOk ring (Pushing.loaded_tail v tail) = tail ≡ length ring.pushed
  PushingOk ring (Pushing.loaded_head v tail head) =
      (tail ≡ length ring.pushed)
      × (head ≤ length ring.popped)
      × (length ring.pushed ≤ head + capacity)
  PushingOk ring (Pushing.written v tail) =
      (tail ≡ length ring.pushed)
      × (length ring.pushed < length ring.popped + capacity)
      × (ring.slots (tail % capacity) ≡ v)

  abbrev pub PoppingOk : Ring A → Popping A → Type 0
  PoppingOk ring Popping.idle = Unit {0}
  PoppingOk ring (Popping.loaded_head head) = head ≡ length ring.popped
  PoppingOk ring (Popping.loaded_tail head tail) =
      (head ≡ length ring.popped) × (head ≤ tail) × (tail ≤ length ring.pushed)
  PoppingOk ring (Popping.read v head) =
      (head ≡ length ring.popped)
      × (head < length ring.pushed)
      × (get_elem? ring.pushed head ≡ some v)

  -- The values that are in come after those that have gone out, each in its slot.
  pub record IsQueue (ring : Ring A) (p : Pushing A) (c : Popping A) : Type 0 where
    pub at_head : ring.head ≡ length ring.popped
    pub at_tail : ring.tail ≡ length ring.pushed
    pub ordered : length ring.popped ≤ length ring.pushed
    pub fits : length ring.pushed ≤ length ring.popped + capacity
    pub kept :
        (k : ℕ)
        → length ring.popped ≤ k
        → k < length ring.pushed
        → get_elem? ring.pushed k ≡ some (ring.slots (k % capacity))
    pub in_order : ring.popped ≡ take (length ring.popped) ring.pushed
    pub pushing : PushingOk ring p
    pub popping : PoppingOk ring c

  -- A value more behind the others is nothing to the thread that pops.
  PoppingOk-append :
      (ring ring' : Ring A) (v : A) (c : Popping A)
      → ring'.popped ≡ ring.popped
      → ring'.pushed ≡ ring.pushed ++ (v ∷ [])
      → PoppingOk ring c
      → PoppingOk ring' c
  PoppingOk-append ring ring' v Popping.idle e f h = tt
  PoppingOk-append ring ring' v (Popping.loaded_head head) e f h = rw e h
  PoppingOk-append ring ring' v (Popping.loaded_tail head tail) e f (a, b, d) =
      (rw e a, b, rw f (omega (arith, length-append ring.pushed (v ∷ []))))
  PoppingOk-append ring ring' v (Popping.read w head) e f (a, b, d) = (
    rw e a,
    rw f (omega (arith, length-append ring.pushed (v ∷ []))),
    rw f (get_elem?-append ring.pushed (v ∷ []) head b ∙ d),
  )

  pub push_turn-IsQueue :
      (value : A) (ring : Ring A) (p : Pushing A) (c : Popping A)
      → length ring.pushed + 1 < 2 ^ 64
      → IsQueue ring p c
      → IsQueue (push_turn capacity value p ring).1 (push_turn capacity value p ring).0 c
  unfolding push_turn write_slot
  push_turn-IsQueue value ring Pushing.idle c b q = record {
    at_head = q.at_head;
    at_tail = q.at_tail;
    ordered = q.ordered;
    fits = q.fits;
    kept = q.kept;
    in_order = q.in_order;
    pushing = elim (Bool-cases (capacity == 0)) [ inl t ↦ rw t tt | inr f ↦ rw f q.at_tail ];
    popping = q.popping;
  }
  push_turn-IsQueue value ring (Pushing.loaded_tail v tail) c b q = record {
    at_head = q.at_head;
    at_tail = q.at_tail;
    ordered = q.ordered;
    fits = q.fits;
    kept = q.kept;
    in_order = q.in_order;
    pushing = (q.pushing, omega (arith, q.at_head), omega (arith, q.at_head, q.fits));
    popping = q.popping;
  }
  push_turn-IsQueue value ring (Pushing.loaded_head v tail head) c b q =
      elim (Bool-cases ((tail + 2 ^ 64 - head) % 2 ^ 64 == capacity)) [
        | inl t ↦ rw t (record {
          at_head = q.at_head;
          at_tail = q.at_tail;
          ordered = q.ordered;
          fits = q.fits;
          kept = q.kept;
          in_order = q.in_order;
          pushing = tt;
          popping = q.popping;
        })
        | inr f ↦
            let (e, l, m) = q.pushing in
            let room =
              has_room capacity tail head (length ring.pushed) (length ring.popped) e l m
                (omega (arith, q.ordered, b)) q.ordered f in
            rw f (record {
              at_head = q.at_head;
              at_tail = q.at_tail;
              ordered = q.ordered;
              fits = q.fits;
              kept = λ k a d.
                  let apart : k % capacity ≢ tail % capacity =
                    slots_apart capacity k tail (omega (arith, e)) (omega (arith, e, room)) in
                  rw (ne→== apart) (q.kept k a d);
              in_order = q.in_order;
              pushing = (e, room, rw (==_refl (tail % capacity)) refl);
              popping = q.popping;
            })
      ]
  push_turn-IsQueue value ring (Pushing.written v tail) c b q =
      let (e, room, w) = q.pushing in
      let longer = length-append ring.pushed (v ∷ []) in
      record {
        at_head = q.at_head;
        at_tail = omega (arith, e, longer);
        ordered = omega (arith, q.ordered, longer);
        fits = omega (arith, room, longer);
        kept = λ k a d. elim (Bool-cases (k == length ring.pushed)) [
          | inl t ↦
              let z = (==_iff k (length ring.pushed)).0 t in
              rw (z, ← e, w, e) (get_elem?-last ring.pushed v)
          | inr n ↦
              let less : k < length ring.pushed = ground (arith, n, d, longer) in
              get_elem?-append ring.pushed (v ∷ []) k less ∙ q.kept k a less
        ];
        in_order =
            q.in_order ∙ sym (take-append_le ring.pushed (v ∷ []) (length ring.popped) q.ordered);
        pushing = tt;
        popping =
            PoppingOk-append ring
              (record ring { tail = (tail + 1) % 2 ^ 64; pushed = ring.pushed ++ (v ∷ []) }) v c
              refl refl q.popping;
      }

  -- A value fewer in the queue is nothing to the thread that pushes.
  PushingOk-pop :
      (ring ring' : Ring A) (p : Pushing A)
      → ring'.pushed ≡ ring.pushed
      → ring'.slots ≡ ring.slots
      → length ring.popped ≤ length ring'.popped
      → PushingOk ring p
      → PushingOk ring' p
  PushingOk-pop ring ring' Pushing.idle e f l h = tt
  PushingOk-pop ring ring' (Pushing.loaded_tail v tail) e f l h = rw e h
  PushingOk-pop ring ring' (Pushing.loaded_head v tail head) e f l (a, b, d) =
      (rw e a, omega arith, rw e d)
  PushingOk-pop ring ring' (Pushing.written v tail) e f l (a, b, d) =
      (rw e a, rw e (omega arith), rw f d)

  pub pop_turn-IsQueue :
      (ring : Ring A) (p : Pushing A) (c : Popping A)
      → length ring.pushed < 2 ^ 64
      → IsQueue ring p c
      → IsQueue (pop_turn capacity c ring).1 p (pop_turn capacity c ring).0
  unfolding pop_turn
  pop_turn-IsQueue ring p Popping.idle b q = record {
    at_head = q.at_head;
    at_tail = q.at_tail;
    ordered = q.ordered;
    fits = q.fits;
    kept = q.kept;
    in_order = q.in_order;
    pushing = q.pushing;
    popping = elim (Bool-cases (capacity == 0)) [ inl t ↦ rw t tt | inr f ↦ rw f q.at_head ];
  }
  pop_turn-IsQueue ring p (Popping.loaded_head head) b q = record {
    at_head = q.at_head;
    at_tail = q.at_tail;
    ordered = q.ordered;
    fits = q.fits;
    kept = q.kept;
    in_order = q.in_order;
    pushing = q.pushing;
    popping = (q.popping, omega (arith, q.popping, q.at_tail, q.ordered), omega (arith, q.at_tail));
  }
  pop_turn-IsQueue ring p (Popping.loaded_tail head tail) b q = record {
    at_head = q.at_head;
    at_tail = q.at_tail;
    ordered = q.ordered;
    fits = q.fits;
    kept = q.kept;
    in_order = q.in_order;
    pushing = q.pushing;
    popping = elim (Bool-cases (head == tail)) [
      | inl t ↦ rw t tt
      | inr f ↦
          let (e, l, m) = q.popping in
          let less : head < length ring.pushed = ground (arith, f, l, m) in
          rw f (e, less, q.kept head (omega (arith, e)) less)
    ];
  }
  pop_turn-IsQueue ring p (Popping.read v head) b q =
      let (e, less, w) = q.popping in
      let longer : length (ring.popped ++ (v ∷ [])) ≡ suc (length ring.popped) =
        omega (arith, length-append ring.popped (v ∷ [])) in
      record {
        at_head = omega (arith, e, longer, less);
        at_tail = q.at_tail;
        ordered = omega (arith, e, longer, less);
        fits = omega (arith, q.fits, longer);
        kept = λ k a d. q.kept k (omega (arith, longer)) d;
        in_order =
            ap (◌++ (v ∷ [])) q.in_order
            ∙ sym (take-next ring.pushed (length ring.popped) v (rw e at w))
            ∙ ap (λ n. take n ring.pushed) (sym longer);
        pushing =
            PushingOk-pop ring
              (record ring { head = (head + 1) % 2 ^ 64; popped = ring.popped ++ (v ∷ []) }) p refl
              refl (omega (arith, longer)) q.pushing;
        popping = tt;
      }
