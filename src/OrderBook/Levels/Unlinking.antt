-- ===== src/OrderBook/Levels/Unlinking.antt =====
-- An order leaves its level: the level that `remove_order` puts back or erases.
use orda_book.Prelude.{
  ℕ, ◌+◌, ◌==◌, ◌≡◌, refl, ap, ◌∙◌, subst, inl, inr, Bool-cases, if◌then◌else◌, true, false, some,
  List, [], ◌∷◌, ◌++◌, All, arith,
}
use orda_book.Prelude.Int.{eqb_ℤ, eqb_ℤ→eq, eqb_ℤ_refl}
use orda_book.Types.{Price, Side, OrderSnapshot}
use orda_book.Priority.{withdraw, total, count_id}
use orda_book.OrderBook.State.{Order, PriceLevel, OrderLocation}
use orda_book.OrderBook.Levels.{
  find_level, level_at, update_level, erase_level, unlink_order, order_at, erase_order, is_empty,
}
use orda_book.OrderBook.View.{level_orders, located}
use orda_book.OrderBook.Invariant.{IsLevel}

-- What `remove_order` does with the changed level, and the levels that it leaves on the side.
abbrev put_back : Price → PriceLevel → List PriceLevel → List PriceLevel
put_back at level levels =
    if is_empty level.orders
    then erase_level level.price levels
    else update_level at (λ _. level) levels

abbrev pub removed : Price → ℕ → List PriceLevel → List PriceLevel
removed at id levels = put_back at (unlink_order id (level_at at levels)) levels

pub is_empty→nil {ℓ} : {A : Type ℓ} (xs : List A) → is_empty xs ≡ true → xs ≡ []
is_empty→nil [] h = refl
is_empty→nil (x ∷ xs) h = cc

level_at-price : (at : Price) (levels : List PriceLevel) → (level_at at levels).price ≡ at
unfolding level_at find_level
level_at-price at [] = refl
level_at-price at (level ∷ levels) = elim (Bool-cases (eqb_ℤ level.price at)) [
  | inl e ↦ rw (e, level_at) (eqb_ℤ→eq level.price at e)
  | inr n ↦ rw (n, level_at) (level_at-price at levels)
]

pub level_at_here :
    (at : Price) (level : PriceLevel) (levels : List PriceLevel)
    → eqb_ℤ level.price at ≡ true
    → level_at at (level ∷ levels) ≡ level
unfolding level_at find_level
level_at_here at level levels e = rw (e, level_at)

pub level_at_later :
    (at : Price) (level : PriceLevel) (levels : List PriceLevel)
    → eqb_ℤ level.price at ≡ false
    → level_at at (level ∷ levels) ≡ level_at at levels
unfolding level_at find_level
level_at_later at level levels n = rw (n, level_at)

pub removed_here :
    (at : Price) (id : ℕ) (level : PriceLevel) (levels : List PriceLevel)
    → eqb_ℤ level.price at ≡ true
    → removed at id (level ∷ levels)
      ≡ (if is_empty (erase_order id level.orders) then levels else unlink_order id level ∷ levels)
unfolding erase_level update_level unlink_order
removed_here at id level levels e = rw (level_at_here at level levels e, eqb_ℤ_refl level.price, e)

put_back_later :
    (at : Price) (new level : PriceLevel) (levels : List PriceLevel)
    → eqb_ℤ level.price at ≡ false
    → new.price ≡ at
    → put_back at new (level ∷ levels) ≡ level ∷ put_back at new levels
unfolding erase_level update_level
put_back_later at new level levels n p = elim (Bool-cases (is_empty new.orders)) [
  | inl z ↦ rw (z, p, n) (ap (λ (q : Price). level ∷ erase_level q levels) p)
  | inr z ↦ rw (z, n)
]

pub removed_later :
    (at : Price) (id : ℕ) (level : PriceLevel) (levels : List PriceLevel)
    → eqb_ℤ level.price at ≡ false
    → removed at id (level ∷ levels) ≡ level ∷ removed at id levels
removed_later at id level levels n =
    ap (λ (found : PriceLevel). put_back at (unlink_order id found) (level ∷ levels))
      (level_at_later at level levels n)
    ∙ put_back_later at (unlink_order id (level_at at levels)) level levels n
        (unfold unlink_order in (level_at-price at levels))

pub removed-nil : (at : Price) (id : ℕ) → removed at id [] ≡ []
unfolding erase_level update_level unlink_order level_at find_level erase_order
removed-nil at id = refl

pub level_orders-erase_order :
    (at : Price) (id : ℕ) (os : List Order)
    → level_orders at (erase_order id os) ≡ withdraw id (level_orders at os)
unfolding erase_order withdraw
level_orders-erase_order at id [] = refl
level_orders-erase_order at id (o ∷ os) = ground (arith, level_orders-erase_order at id os)

pub total-erase_order :
    (at : Price) (id : ℕ) (os : List Order)
    → total (level_orders at (erase_order id os)) + (order_at id os).qty
      ≡ total (level_orders at os)
unfolding erase_order total order_at
total-erase_order at id [] = refl
total-erase_order at id (o ∷ os) = ground (arith, total-erase_order at id os)

erase_order-All :
    (P : Order → Type 0) (id : ℕ) (os : List Order) → All P os → All P (erase_order id os)
unfolding erase_order
erase_order-All P id [] h = tt
erase_order-All P id (o ∷ os) (h, hs) = elim (Bool-cases (o.order_id == id)) [
  | inl e ↦ rw e hs
  | inr n ↦ rw n (h, erase_order-All P id os hs)
]

pub located-append :
    (id : ℕ) (xs ys : List OrderSnapshot)
    → located id (xs ++ ys) ≡ (if count_id id xs == 0 then located id ys else located id xs)
unfolding located count_id
located-append id [] ys = refl
located-append id (x ∷ xs) ys = ground (arith, located-append id xs ys)

-- What all the prices of a list have, a location in it has.
pub located-All :
    (P : Price → Type 0) (id : ℕ) (xs : List OrderSnapshot) {l : OrderLocation}
    → All (λ order. P order.price) xs
    → located id xs ≡ some l
    → P l.level
unfolding located
located-All P id [] h e = cc
located-All P id (x ∷ xs) {l} (h, hs) e = elim (Bool-cases (x.order_id == id)) [
  | inl t ↦ subst P (ground (arith, t, e)) h
  | inr n ↦ located-All P id xs hs (rw n at e)
]

pub unlink-IsLevel :
    (side : Side) (id : ℕ) (level : PriceLevel)
    → IsLevel side level
    → is_empty (erase_order id level.orders) ≡ false
    → IsLevel side (unlink_order id level)
unfolding unlink_order
unlink-IsLevel side id level v n =
    let t = total-erase_order level.price id level.orders in
    record {
      occupied = n;
      priced = v.priced;
      resting = erase_order-All _ id level.orders v.resting;
      counted = omega (arith, t, v.counted);
      bounded = omega (arith, v.bounded);
    }
