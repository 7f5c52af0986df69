-- ===== src/Ladder/Summary.antt =====
-- `set_occupied` and `clear_occupied` of src/ladder_order_book.cpp: the second bitmap keeps to the first.
use orda_book.Prelude.{
  ℕ, ◌/◌, ◌%◌, ◌<◌, ◌==◌, ◌≡◌, ◌≢◌, sym, ◌∙◌, inl, inr, Bool-cases, if◌then◌else◌, Bool, true,
  false, not, ==_iff, ==_refl, ne→==, arith,
}
use orda_book.Ladder.Bitmaps.{
  Word, Words, set_bit, clear_bit, is_zero, update, Occupied, set_occupied, clear_occupied,
}
use orda_book.Ladder.Search.{is_zero-bit, is_zero-clear_bit}

-- A bit of the second bitmap says whether a word of the first has bits.
pub record IsSummary (occupied : Occupied) : Type 0 where
  pub summary :
      (word : ℕ) → is_zero (occupied.levels word) ≡ not (occupied.words (word / 64) (word % 64))

-- Whether a level is marked.
abbrev pub is_marked : Occupied → ℕ → Bool
is_marked occupied index = occupied.levels (index / 64) (index % 64)

pub is_marked-set_occupied :
    (index : ℕ) (occupied : Occupied) (i : ℕ)
    → is_marked (set_occupied index occupied) i
      ≡ (if i == index then true else is_marked occupied i)
unfolding set_occupied
is_marked-set_occupied index occupied i = ground arith

pub is_marked-clear_occupied :
    (index : ℕ) (occupied : Occupied) (i : ℕ)
    → is_marked (clear_occupied index occupied) i
      ≡ (if i == index then false else is_marked occupied i)
unfolding clear_occupied
is_marked-clear_occupied index occupied i = ground arith

module _ (word : Word) (words : Words) where
  update_here : (q : ℕ) → update q word words q ≡ word
  unfolding update
  update_here q = rw (==_refl q)

  update_there : (q i : ℕ) → i ≢ q → update q word words i ≡ words i
  unfolding update
  update_there q i n = rw (ne→== n)

-- A bit of the second bitmap, where another bit is written.
module _ (words : Words) (q i : ℕ) where
  set_there :
      i ≢ q
      → update (q / 64) (set_bit (q % 64) (words (q / 64))) words (i / 64) (i % 64)
        ≡ words (i / 64) (i % 64)
  unfolding update set_bit
  set_there n = ground arith

  clear_there :
      i ≢ q
      → update (q / 64) (clear_bit (q % 64) (words (q / 64))) words (i / 64) (i % 64)
        ≡ words (i / 64) (i % 64)
  unfolding update clear_bit
  clear_there n = ground arith

set_here :
    (words : Words) (q : ℕ)
    → update (q / 64) (set_bit (q % 64) (words (q / 64))) words (q / 64) (q % 64) ≡ true
unfolding update set_bit
set_here words q = ground arith

clear_here :
    (words : Words) (q : ℕ)
    → update (q / 64) (clear_bit (q % 64) (words (q / 64))) words (q / 64) (q % 64) ≡ false
unfolding update clear_bit
clear_here words q = ground arith

set_bit-here : (b : ℕ) (word : Word) → set_bit b word b ≡ true
unfolding set_bit
set_bit-here b word = rw (==_refl b)

module _ (levels words : Words) (q b : ℕ) (b_fits : b < 64)
    (summary : (i : ℕ) → is_zero (levels i) ≡ not (words (i / 64) (i % 64))) where
  abbrev set_words : Words
  set_words = update (q / 64) (set_bit (q % 64) (words (q / 64))) words

  abbrev clear_words : Words
  clear_words = update (q / 64) (clear_bit (q % 64) (words (q / 64))) words

  set_summary :
      (i : ℕ)
      → is_zero (update q (set_bit b (levels q)) levels i)
        ≡ not ((if levels q b then words else set_words) (i / 64) (i % 64))
  set_summary i = elim (Bool-cases (i == q)) [
    | inl e ↦
        let here : i ≡ q = (==_iff i q).0 e in
        let marked : is_zero (set_bit b (levels q)) ≡ false =
          is_zero-bit (set_bit b (levels q)) b b_fits (set_bit-here b (levels q)) in
        rw (here, update_here (set_bit b (levels q)) levels q, marked)
          (elim (Bool-cases (levels q b)) [
            | inl t ↦ rw t (sym (is_zero-bit (levels q) b b_fits t) ∙ summary q)
            | inr f ↦ rw (f, set_here words q)
          ])
    | inr n ↦
        let there : i ≢ q = λ h. ground (arith, n, h) in
        rw (update_there (set_bit b (levels q)) levels q i there) (elim (Bool-cases (levels q b)) [
          | inl t ↦ rw t (summary i)
          | inr f ↦ rw (f, set_there words q i there) (summary i)
        ])
  ]

  clear_summary :
      (i : ℕ)
      → is_zero (update q (clear_bit b (levels q)) levels i)
        ≡ not ((if is_zero (clear_bit b (levels q)) then clear_words else words) (i / 64) (i % 64))
  clear_summary i = elim (Bool-cases (i == q)) [
    | inl e ↦
        let here : i ≡ q = (==_iff i q).0 e in
        rw (here, update_here (clear_bit b (levels q)) levels q)
          (elim (Bool-cases (is_zero (clear_bit b (levels q)))) [
            | inl z ↦ rw (z, clear_here words q)
            | inr f ↦ rw f (sym (is_zero-clear_bit b (levels q) f) ∙ summary q)
          ])
    | inr n ↦
        let there : i ≢ q = λ h. ground (arith, n, h) in
        rw (update_there (clear_bit b (levels q)) levels q i there)
          (elim (Bool-cases (is_zero (clear_bit b (levels q)))) [
            | inl z ↦ rw (z, clear_there words q i there) (summary i)
            | inr f ↦ rw f (summary i)
          ])
  ]

-- The second bitmap keeps to the first when a level is marked, and when a mark is cleared.
pub set_occupied-IsSummary :
    (index : ℕ) (occupied : Occupied) → IsSummary occupied → IsSummary (set_occupied index occupied)
unfolding set_occupied
set_occupied-IsSummary index occupied s = record {
  summary =
      set_summary occupied.levels occupied.words (index / 64) (index % 64) (omega arith) s.summary;
}

pub clear_occupied-IsSummary :
    (index : ℕ) (occupied : Occupied)
    → IsSummary occupied
    → IsSummary (clear_occupied index occupied)
unfolding clear_occupied
clear_occupied-IsSummary index occupied s = record {
  summary =
      clear_summary occupied.levels occupied.words (index / 64) (index % 64) (omega arith)
        s.summary;
}
