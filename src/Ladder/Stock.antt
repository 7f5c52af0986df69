-- ===== src/Ladder/Stock.antt =====
-- What the levels and the bitmaps of src/ladder_order_book.cpp keep to: a marked level has orders.
use orda_book.Prelude.{
  ℕ, ◌+◌, ◌<◌, ◌==◌, ◌≡◌, ◌≢◌, refl, sym, ap, ◌∙◌, subst, inl, inr, Bool-cases, ==_iff, ne→==,
  if◌then◌else◌, true, false, Option, none, some, List, [], ◌∷◌, ◌++◌, All, arith, ==_refl, ◌||◌,
}
use orda_book.Prelude.Int.{pos, ltb_ℤ}
use orda_book.Types.{Price, Side, bid, ask, OrderSnapshot}
use orda_book.Ladder.Bitmaps.{Occupied, set_occupied, clear_occupied}
use orda_book.Ladder.State.{
  PriceLevel, LadderOrderBook, side_occupied, no_bits, price_at, new_ladder, set_level, is_empty,
  index_for, add_resting_order,
}
use orda_book.Ladder.Summary.{
  IsSummary, is_marked, is_marked-set_occupied, is_marked-clear_occupied, set_occupied-IsSummary,
  clear_occupied-IsSummary,
}
use orda_book.Ladder.Marks.{no_bits-IsSummary}
use orda_book.Ladder.Rounds.{IsPositive}

-- The levels of a book and the bitmaps of one of its sides: a marked level has orders, no order is
-- of quantity 0, and the prices go up by one.
pub record IsStocked (min_price : Price) (occupied : Occupied) (levels : ℕ → PriceLevel)
    : Type 0 where
  pub summary : IsSummary occupied
  pub stocked : (i : ℕ) → is_marked occupied i ≡ true → is_empty (levels i).orders ≡ false
  pub positive : (i : ℕ) → All IsPositive (levels i).orders
  pub priced : (i : ℕ) → (levels i).price ≡ price_at min_price i

-- The same of a side of a book.
abbrev pub IsReady : Side → LadderOrderBook → Type 0
IsReady side book = IsStocked book.min_price (side_occupied side book) book.levels

pub no_bits-IsStocked :
    (min_price : Price)
    → IsStocked min_price no_bits
        (λ index. record { price = price_at min_price index; total_qty = 0; orders = [] })
no_bits-IsStocked min_price = record {
  summary = no_bits-IsSummary;
  stocked = λ i m. cc;
  positive = λ i. tt;
  priced = λ i. refl;
}

module _ (min_price : Price) (index : ℕ) (before after : ℕ → PriceLevel)
    (others : (i : ℕ) → i ≢ index → after i ≡ before i)
    (same_price : (i : ℕ) → (after i).price ≡ (before i).price)
    (positive_here : All IsPositive (after index).orders) where
  IsPositive-after :
      ((i : ℕ) → All IsPositive (before i).orders) → (i : ℕ) → All IsPositive (after i).orders
  IsPositive-after p i = elim (Bool-cases (i == index)) [
    | inl e ↦ rw ((==_iff i index).0 e) positive_here
    | inr n ↦
        let there : i ≢ index = λ h. ground (arith, n, h) in
        subst (λ level. All IsPositive level.orders) (sym (others i there)) (p i)
  ]

  stocked_there :
      (i : ℕ) → i ≢ index → is_empty (before i).orders ≡ false → is_empty (after i).orders ≡ false
  stocked_there i n s = ap (λ level. is_empty level.orders) (others i n) ∙ s

  -- A change of one level that leaves orders in it.
  pub kept-IsStocked :
      (occupied : Occupied)
      → is_empty (after index).orders ≡ false
      → IsStocked min_price occupied before
      → IsStocked min_price occupied after
  kept-IsStocked occupied full s = record {
    summary = s.summary;
    stocked = λ i m. elim (Bool-cases (i == index)) [
      | inl e ↦ rw ((==_iff i index).0 e) full
      | inr n ↦ stocked_there i (λ h. ground (arith, n, h)) (s.stocked i m)
    ];
    positive = IsPositive-after s.positive;
    priced = λ i. same_price i ∙ s.priced i;
  }

  -- A change of one level whose mark is cleared.
  pub cleared-IsStocked :
      (occupied : Occupied)
      → IsStocked min_price occupied before
      → IsStocked min_price (clear_occupied index occupied) after
  cleared-IsStocked occupied s = record {
    summary = clear_occupied-IsSummary index occupied s.summary;
    stocked = λ i m. elim (Bool-cases (i == index)) [
      | inl e ↦
          let f : is_marked (clear_occupied index occupied) i ≡ false =
            is_marked-clear_occupied index occupied i ∙ rw e refl in
          cc
      | inr n ↦
          let t : is_marked occupied i ≡ true =
            sym (is_marked-clear_occupied index occupied i ∙ rw n refl) ∙ m in
          stocked_there i (λ h. ground (arith, n, h)) (s.stocked i t)
    ];
    positive = IsPositive-after s.positive;
    priced = λ i. same_price i ∙ s.priced i;
  }

  -- A change that leaves orders in a level that is marked.
  pub marked-IsStocked :
      (occupied : Occupied)
      → is_empty (after index).orders ≡ false
      → IsStocked min_price occupied before
      → IsStocked min_price (set_occupied index occupied) after
  marked-IsStocked occupied full s = record {
    summary = set_occupied-IsSummary index occupied s.summary;
    stocked = λ i m. elim (Bool-cases (i == index)) [
      | inl e ↦ rw ((==_iff i index).0 e) full
      | inr n ↦
          let t : is_marked occupied i ≡ true =
            sym (is_marked-set_occupied index occupied i ∙ rw n refl) ∙ m in
          stocked_there i (λ h. ground (arith, n, h)) (s.stocked i t)
    ];
    positive = IsPositive-after s.positive;
    priced = λ i. same_price i ∙ s.priced i;
  }

abbrev IsReadyIfMade : Side → Option LadderOrderBook → Type 0
IsReadyIfMade side none = Unit
IsReadyIfMade side (some book) = IsReady side book

made-IsReady :
    (side : Side) (made : Option LadderOrderBook) (book : LadderOrderBook)
    → made ≡ some book
    → IsReadyIfMade side made
    → IsReady side book
made-IsReady side made book e h = rw e at h

new_ladder-IsReadyIfMade :
    (side : Side) (min_price max_price : Price)
    → IsReadyIfMade side (new_ladder min_price max_price)
unfolding new_ladder
new_ladder-IsReadyIfMade bid min_price max_price =
    elim (Bool-cases (ltb_ℤ min_price (pos 0) || ltb_ℤ max_price min_price)) [
      | inl t ↦ rw t tt
      | inr f ↦ rw f (no_bits-IsStocked min_price)
    ]
new_ladder-IsReadyIfMade ask min_price max_price =
    elim (Bool-cases (ltb_ℤ min_price (pos 0) || ltb_ℤ max_price min_price)) [
      | inl t ↦ rw t tt
      | inr f ↦ rw f (no_bits-IsStocked min_price)
    ]

-- A new book is ready on both sides.
pub new_ladder-IsReady :
    (min_price max_price : Price) (book : LadderOrderBook) (side : Side)
    → new_ladder min_price max_price ≡ some book
    → IsReady side book
new_ladder-IsReady min_price max_price book side e =
    made-IsReady side (new_ladder min_price max_price) book e
      (new_ladder-IsReadyIfMade side min_price max_price)

some_at_end :
    (orders : List OrderSnapshot) (order : OrderSnapshot)
    → is_empty (orders ++ (order ∷ [])) ≡ false
some_at_end [] order = refl
some_at_end (first ∷ orders) order = refl

IsPositive-at_end :
    (orders : List OrderSnapshot) (order : OrderSnapshot)
    → All IsPositive orders
    → IsPositive order
    → All IsPositive (orders ++ (order ∷ []))
IsPositive-at_end [] order p q = (q, tt)
IsPositive-at_end (first ∷ orders) order (r, p) q = (r, IsPositive-at_end orders order p q)

module _ (order : OrderSnapshot) (index : ℕ) (book : LadderOrderBook) where
  -- The levels once the order rests at a place.
  abbrev rested : ℕ → PriceLevel
  rested i =
      if i == index
      then record (book.levels index) {
        orders = (book.levels index).orders ++ (order ∷ []);
        total_qty = (book.levels index).total_qty + order.qty;
      }
      else book.levels i

  rested_there : (i : ℕ) → i ≢ index → rested i ≡ book.levels i
  rested_there i n = rw (ne→== n)

  rested_price : (i : ℕ) → (rested i).price ≡ (book.levels i).price
  rested_price i = elim (Bool-cases (i == index)) [
    | inl e ↦ rw (e, (==_iff i index).0 e) refl
    | inr n ↦ rw n refl
  ]

  rested_some : is_empty (rested index).orders ≡ false
  rested_some = rw (==_refl index) (some_at_end (book.levels index).orders order)

  rested-IsPositive :
      All IsPositive (book.levels index).orders
      → IsPositive order
      → All IsPositive (rested index).orders
  rested-IsPositive p q =
      rw (==_refl index) (IsPositive-at_end (book.levels index).orders order p q)

  rested-IsStocked :
      (occupied : Occupied)
      → IsPositive order
      → IsStocked book.min_price occupied book.levels
      → IsStocked book.min_price occupied rested
        × IsStocked book.min_price (set_occupied index occupied) rested
  rested-IsStocked occupied q s =
      let p = rested-IsPositive (s.positive index) q in
      (
        kept-IsStocked book.min_price index book.levels rested rested_there rested_price p occupied
            rested_some s,
        marked-IsStocked book.min_price index book.levels rested rested_there rested_price p
            occupied rested_some s,
      )

-- An order of a positive quantity that comes to rest, on either side, leaves both sides ready.
pub add_resting_order-IsReady :
    (order_id : ℕ) (side : Side) (price : Price) (qty : ℕ) (book : LadderOrderBook) (other : Side)
    → 0 < qty
    → IsReady other book
    → IsReady other (add_resting_order order_id side price qty book)
unfolding add_resting_order set_level
add_resting_order-IsReady order_id bid price qty book bid q s =
    (rested-IsStocked (record { order_id = order_id; side = bid; price = price; qty = qty })
      (index_for book price) book book.bids q s).1
add_resting_order-IsReady order_id bid price qty book ask q s =
    (rested-IsStocked (record { order_id = order_id; side = bid; price = price; qty = qty })
      (index_for book price) book book.asks q s).0
add_resting_order-IsReady order_id ask price qty book bid q s =
    (rested-IsStocked (record { order_id = order_id; side = ask; price = price; qty = qty })
      (index_for book price) book book.bids q s).0
add_resting_order-IsReady order_id ask price qty book ask q s =
    (rested-IsStocked (record { order_id = order_id; side = ask; price = price; qty = qty })
      (index_for book price) book book.asks q s).1
