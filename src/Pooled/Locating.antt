-- ===== src/Pooled/Locating.antt =====
-- Where the cell of a live order stands among the levels of its side.
use orda_book.Prelude.{
  ℕ, ◌==◌, ◌≡◌, refl, ap, ◌⊎◌, inl, inr, Bool-cases, false, some, List, [], ◌∷◌, ◌++◌, All, map,
  ==_iff, arith,
}
use orda_book.Prelude.Int.{ℤ, eqb_ℤ, eqb_ℤ_refl, eqb_ℤ→eq}
use orda_book.Types.{Price, Side, OrderSnapshot}
use orda_book.Engine.Order.{ahead-ne}
use orda_book.OrderBook.State.{OrderLocation}
use orda_book.OrderBook.Levels.{order_at, erase_order}
use orda_book.OrderBook.View.{level_orders, append_level_orders, located}
use orda_book.OrderBook.Invariant.{IsResting, AreLevels, Behind}
use orda_book.Pooled.Linked.{Cell, LinkedLevel, base_level, orders_of}
use orda_book.Pooled.Split.{Found}

-- The cell in a list of cells, before any other with its id.
pub record InCells (id : ℕ) (cs : List Cell) : Type 0 where
  pub xs : List Cell
  pub cell : Cell
  pub ys : List Cell
  pub whole : cs ≡ xs ++ (cell ∷ ys)
  pub named : cell.order.order_id ≡ id
  pub others : All (λ c. (c.order.order_id == id) ≡ false) xs

pub record InLevels (side : Side) (id : ℕ) (l : OrderLocation) (gs : List LinkedLevel)
    : Type 0 where
  pub found : Found l.level gs
  pub inside : InCells id found.here.cells
  pub on_side : inside.cell.order.side ≡ side
  pub at_price : inside.cell.order.price ≡ found.here.price

located-cells :
    (id : ℕ) (at : Price) (cs : List Cell) (rest : List OrderSnapshot) (l : OrderLocation)
    → located id (level_orders at (orders_of cs) ++ rest) ≡ some l
    → (InCells id cs × (l.level ≡ at)) ⊎ (located id rest ≡ some l)
unfolding located
located-cells id at [] rest l h = inr h
located-cells id at (c ∷ cs) rest l h = elim (Bool-cases (c.order.order_id == id)) [
  | inl t ↦ inl (
    record {
      xs = [];
      cell = c;
      ys = cs;
      whole = refl;
      named = (==_iff c.order.order_id id).0 t;
      others = tt;
    },
    ground (arith, h, t),
  )
  | inr n ↦ elim (located-cells id at cs rest l (rw n at h)) [
    | inr r ↦ inr r
    | inl (i, e) ↦ inl (
      record {
        xs = c ∷ i.xs;
        cell = i.cell;
        ys = i.ys;
        whole = ap (◌∷◌ c) i.whole;
        named = i.named;
        others = (n, i.others);
      },
      e,
    )
  ]
]

IsResting-at :
    (side : Side) (at : Price) (xs : List Cell) (c : Cell) (ys : List Cell)
    → All (IsResting side at) (orders_of (xs ++ (c ∷ ys)))
    → IsResting side at c.order
IsResting-at side at [] c ys h = h.0
IsResting-at side at (x ∷ xs) c ys h = IsResting-at side at xs c ys h.1

eqb_ℤ_sym : (a b : ℤ) → eqb_ℤ a b ≡ false → eqb_ℤ b a ≡ false
eqb_ℤ_sym a b h = ground arith

Behind-at :
    (side : Side) (at : Price) (before : List LinkedLevel) (g : LinkedLevel)
    (after : List LinkedLevel)
    → Behind side at (map base_level (before ++ (g ∷ after)))
    → eqb_ℤ at g.price ≡ false
Behind-at side at [] g after h = eqb_ℤ_sym g.price at (ahead-ne side at g.price h.0)
Behind-at side at (x ∷ xs) g after h = Behind-at side at xs g after h.1

pub located-InLevels :
    (side : Side) (id : ℕ) (l : OrderLocation) (gs : List LinkedLevel)
    → AreLevels side (map base_level gs)
    → located id (append_level_orders (map base_level gs)) ≡ some l
    → InLevels side id l gs
unfolding append_level_orders
located-InLevels side id l [] v h = unfold located in cc
located-InLevels side id l (g ∷ gs) (v, b, vs) h =
    elim (located-cells id g.price g.cells (append_level_orders (map base_level gs)) l h) [
      | inl (i, e) ↦
          let r = IsResting-at side g.price i.xs i.cell i.ys (rw i.whole at v.resting) in
          record {
            found = record {
              before = [];
              here = g;
              after = gs;
              whole = refl;
              unpriced = tt;
              priced = rw e (eqb_ℤ_refl g.price);
            };
            inside = i;
            on_side = r.on_side;
            at_price = r.at_price;
          }
      | inr r ↦
          let k = located-InLevels side id l gs vs r in
          let at = (eqb_ℤ→eq k.found.here.price l.level k.found.priced) in
          record {
            found = record {
              before = g ∷ k.found.before;
              here = k.found.here;
              after = k.found.after;
              whole = ap (◌∷◌ g) k.found.whole;
              unpriced = (
                rw (← at) (
                    Behind-at side g.price k.found.before k.found.here k.found.after
                      (rw k.found.whole at b)),
                k.found.unpriced,
              );
              priced = k.found.priced;
            };
            inside = k.inside;
            on_side = k.on_side;
            at_price = k.at_price;
          }
    ]

-- What the baseline finds and erases by the id.
pub order_at-cells :
    (id : ℕ) (xs : List Cell) (c : Cell) (ys : List Cell)
    → c.order.order_id ≡ id
    → All (λ x. (x.order.order_id == id) ≡ false) xs
    → (order_at id (orders_of (xs ++ (c ∷ ys))) ≡ c.order)
      × (erase_order id (orders_of (xs ++ (c ∷ ys))) ≡ orders_of (xs ++ ys))
unfolding order_at erase_order
order_at-cells id [] c ys e o = let t = (==_iff c.order.order_id id).1 e in (rw t refl, rw t refl)
order_at-cells id (x ∷ xs) c ys e (n, o) =
    let (a, b) = order_at-cells id xs c ys e o in (rw n a, rw n (ap (◌∷◌ x.order) b))
