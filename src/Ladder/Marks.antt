-- ===== src/Ladder/Marks.antt =====
-- Any marks and clears of the bitmaps of src/ladder_order_book.cpp, against the set of the marked levels.
use mathlib.Core.Path.{fun_ext}
use orda_book.Prelude.{
  ℕ, ◌==◌, ◌≡◌, refl, ap, ◌∙◌, subst, if◌then◌else◌, Bool, true, false, List, [], ◌∷◌,
}
use orda_book.Types.{Side}
use orda_book.Ladder.Bitmaps.{Occupied, set_occupied, clear_occupied, lowest_from, best_index}
use orda_book.Ladder.State.{no_bits}
use orda_book.Ladder.Summary.{
  IsSummary, is_marked, is_marked-set_occupied, is_marked-clear_occupied, set_occupied-IsSummary,
  clear_occupied-IsSummary,
}
use orda_book.Ladder.Best.{IsBest, best_index-IsBest}

pub data Mark : Type 0 where
  set clear : ℕ → Mark

abbrev pub do_mark : Mark → Occupied → Occupied
do_mark (set index) = set_occupied index
do_mark (clear index) = clear_occupied index

unfoldable pub do_marks : List Mark → Occupied → Occupied
do_marks [] occupied = occupied
do_marks (mark ∷ marks) occupied = do_marks marks (do_mark mark occupied)

-- The set of the levels that are marked last.
unfoldable pub members : List Mark → (ℕ → Bool) → ℕ → Bool
members [] marked = marked
members (set index ∷ marks) marked = members marks (λ i. if i == index then true else marked i)
members (clear index ∷ marks) marked = members marks (λ i. if i == index then false else marked i)

pub is_marked-do_marks :
    (marks : List Mark) (occupied : Occupied)
    → is_marked (do_marks marks occupied) ≡ members marks (is_marked occupied)
unfolding do_marks members
is_marked-do_marks [] occupied = refl
is_marked-do_marks (set index ∷ marks) occupied =
    is_marked-do_marks marks (set_occupied index occupied)
    ∙ ap (members marks) (fun_ext (is_marked-set_occupied index occupied))
is_marked-do_marks (clear index ∷ marks) occupied =
    is_marked-do_marks marks (clear_occupied index occupied)
    ∙ ap (members marks) (fun_ext (is_marked-clear_occupied index occupied))

pub do_marks-IsSummary :
    (marks : List Mark) (occupied : Occupied)
    → IsSummary occupied
    → IsSummary (do_marks marks occupied)
unfolding do_marks
do_marks-IsSummary [] occupied s = s
do_marks-IsSummary (set index ∷ marks) occupied s =
    do_marks-IsSummary marks (set_occupied index occupied) (set_occupied-IsSummary index occupied s)
do_marks-IsSummary (clear index ∷ marks) occupied s =
    do_marks-IsSummary marks (clear_occupied index occupied)
      (clear_occupied-IsSummary index occupied s)

pub no_bits-IsSummary : IsSummary no_bits
unfolding lowest_from
no_bits-IsSummary = record { summary = λ word. refl }

-- After any calls of `set_occupied` and `clear_occupied` on new bitmaps, whichever levels they name and
-- in whatever order, `best_index` finds the lowest level that is marked, for asks, or the highest, for
-- bids, among those that the words hold, and none if none is marked.
pub best_index-do_marks :
    (side : Side) (size : ℕ) (marks : List Mark)
    → IsBest side size (members marks (λ i. false)) (best_index side size (do_marks marks no_bits))
best_index-do_marks side size marks =
    subst (λ m. IsBest side size m (best_index side size (do_marks marks no_bits)))
      (is_marked-do_marks marks no_bits)
      (best_index-IsBest side size (do_marks marks no_bits)
        (do_marks-IsSummary marks no_bits no_bits-IsSummary))
