-- ===== src/Pooled/Split.antt =====
-- The maps of levels of src/pooled_order_book.hpp, split at the level of a price.
use orda_book.Prelude.{
  ◌≡◌, refl, ap, ◌⊎◌, inl, inr, Bool-cases, true, false, none, some, List, [], ◌∷◌, ◌++◌, All, map,
}
use orda_book.Prelude.Int.{eqb_ℤ}
use orda_book.Types.{Price, Side}
use orda_book.Engine.{ahead}
use orda_book.OrderBook.State
use orda_book.OrderBook.Levels
use orda_book.Pooled.State.{find_level, ensure_level, update_level, erase_level}
use orda_book.Pooled.Linked.{LinkedLevel, pooled_level, base_level}
use orda_book.Pooled.Matching.Drop.{level_of}

abbrev pub Unpriced : Price → List LinkedLevel → Type 0
Unpriced price = All (λ g. eqb_ℤ g.price price ≡ false)

module _ (price : Price) (g : LinkedLevel) (after : List LinkedLevel)
    (priced : eqb_ℤ g.price price ≡ true) where
  pub find_level-split :
      (before : List LinkedLevel)
      → Unpriced price before
      → find_level price (map pooled_level (before ++ (g ∷ after))) ≡ some (pooled_level g)
  unfolding find_level
  find_level-split [] u = rw priced refl
  find_level-split (b ∷ bs) (u, us) = rw u (find_level-split bs us)

  pub base_find_level-split :
      (before : List LinkedLevel)
      → Unpriced price before
      → Levels.find_level price (map base_level (before ++ (g ∷ after))) ≡ some (base_level g)
  unfolding Levels.find_level
  base_find_level-split [] u = rw priced refl
  base_find_level-split (b ∷ bs) (u, us) = rw u (base_find_level-split bs us)

  pub update_level-split :
      (g' : LinkedLevel) (before : List LinkedLevel)
      → Unpriced price before
      → update_level price (pooled_level g') (map pooled_level (before ++ (g ∷ after)))
        ≡ map pooled_level (before ++ (g' ∷ after))
  unfolding update_level
  update_level-split g' [] u = rw priced refl
  update_level-split g' (b ∷ bs) (u, us) =
      rw u (ap (◌∷◌ (pooled_level b)) (update_level-split g' bs us))

  pub base_update_level-split :
      (g' : LinkedLevel) (change : State.PriceLevel → State.PriceLevel) (before : List LinkedLevel)
      → change (base_level g) ≡ base_level g'
      → Unpriced price before
      → Levels.update_level price change (map base_level (before ++ (g ∷ after)))
        ≡ map base_level (before ++ (g' ∷ after))
  unfolding Levels.update_level
  base_update_level-split g' change [] e u = rw (priced, e) refl
  base_update_level-split g' change (b ∷ bs) e (u, us) =
      rw u (ap (◌∷◌ (base_level b)) (base_update_level-split g' change bs e us))

  pub erase_level-split :
      (before : List LinkedLevel)
      → Unpriced price before
      → erase_level price (map pooled_level (before ++ (g ∷ after)))
        ≡ map pooled_level (before ++ after)
  unfolding erase_level
  erase_level-split [] u = rw priced refl
  erase_level-split (b ∷ bs) (u, us) = rw u (ap (◌∷◌ (pooled_level b)) (erase_level-split bs us))

  pub base_erase_level-split :
      (before : List LinkedLevel)
      → Unpriced price before
      → Levels.erase_level price (map base_level (before ++ (g ∷ after)))
        ≡ map base_level (before ++ after)
  unfolding Levels.erase_level
  base_erase_level-split [] u = rw priced refl
  base_erase_level-split (b ∷ bs) (u, us) =
      rw u (ap (◌∷◌ (base_level b)) (base_erase_level-split bs us))

-- Split at the price, where a level has it.
pub record Found (price : Price) (gs : List LinkedLevel) : Type 0 where
  pub before : List LinkedLevel
  pub here : LinkedLevel
  pub after : List LinkedLevel
  pub whole : gs ≡ before ++ (here ∷ after)
  pub unpriced : Unpriced price before
  pub priced : eqb_ℤ here.price price ≡ true

Found-later :
    (price : Price) (g : LinkedLevel) (gs : List LinkedLevel)
    → eqb_ℤ g.price price ≡ false
    → Found price gs
    → Found price (g ∷ gs)
Found-later price g gs n f = record {
  before = g ∷ f.before;
  here = f.here;
  after = f.after;
  whole = ap (◌∷◌ g) f.whole;
  unpriced = (n, f.unpriced);
  priced = f.priced;
}

pub Found-here :
    (price : Price) (g : LinkedLevel) (gs : List LinkedLevel)
    → eqb_ℤ g.price price ≡ true
    → Found price (g ∷ gs)
Found-here price g gs e = record {
  before = [];
  here = g;
  after = gs;
  whole = refl;
  unpriced = tt;
  priced = e;
}

-- `find` gives both engines the level at a price, or neither.
pub find_level-cases :
    (price : Price) (gs : List LinkedLevel)
    → ((find_level price (map pooled_level gs) ≡ none)
        × (Levels.find_level price (map base_level gs) ≡ none)
        × Unpriced price gs)
      ⊎ Found price gs
unfolding find_level Levels.find_level
find_level-cases price [] = inl (refl, refl, tt)
find_level-cases price (g ∷ gs) = elim (Bool-cases (eqb_ℤ g.price price)) [
  | inl e ↦ inr (Found-here price g gs e)
  | inr n ↦ elim (find_level-cases price gs) [
    | inr f ↦ inr (Found-later price g gs n f)
    | inl (a, b, u) ↦ inl (rw n a, rw n b, (n, u))
  ]
]

-- After `ensure_level` there is a level at the price, and the cells are as before.
pub record Ensured (side : Side) (price : Price) (gs : List LinkedLevel) : Type 0 where
  pub levels : List LinkedLevel
  pub pooled : ensure_level side price (map pooled_level gs) ≡ map pooled_level levels
  pub base : Levels.ensure_level side price (map base_level gs) ≡ map base_level levels
  pub found : Found price levels
  pub grown :
      (levels ≡ gs)
      ⊎ ((xs : List LinkedLevel) × (ys : List LinkedLevel) × (gs ≡ xs ++ ys)
          × (levels ≡ xs ++ (level_of price 0 [] ∷ ys)))

pub ensure_level-Ensured :
    (side : Side) (price : Price) (gs : List LinkedLevel)
    → eqb_ℤ price price ≡ true
    → Ensured side price gs
unfolding ensure_level Levels.ensure_level
ensure_level-Ensured side price [] self = record {
  levels = level_of price 0 [] ∷ [];
  pooled = refl;
  base = refl;
  found = Found-here price _ [] self;
  grown = inr ([], [], refl, refl);
}
ensure_level-Ensured side price (g ∷ gs) self = elim (Bool-cases (eqb_ℤ g.price price)) [
  | inl e ↦ record {
    levels = g ∷ gs;
    pooled = rw e refl;
    base = rw e refl;
    found = Found-here price g gs e;
    grown = inl refl;
  }
  | inr n ↦ elim (Bool-cases (ahead side g.price price)) [
    | inr b ↦ record {
      levels = level_of price 0 [] ∷ g ∷ gs;
      pooled = rw (n, b) refl;
      base = rw (n, b) refl;
      found = Found-here price _ (g ∷ gs) self;
      grown = inr ([], g ∷ gs, refl, refl);
    }
    | inl a ↦
        let rest = ensure_level-Ensured side price gs self in
        record {
          levels = g ∷ rest.levels;
          pooled = rw (n, a) (ap (◌∷◌ (pooled_level g)) rest.pooled);
          base = rw (n, a) (ap (◌∷◌ (base_level g)) rest.base);
          found = Found-later price g rest.levels n rest.found;
          grown = elim rest.grown [
            | inl e ↦ inl (ap (◌∷◌ g) e)
            | inr (xs, ys, e, f) ↦ inr (g ∷ xs, ys, ap (◌∷◌ g) e, ap (◌∷◌ g) f)
          ];
        }
  ]
]
