-- ===== src/OrderBook/Index.antt =====
-- The order index against the locations that the view gives, under each change of either.
use orda_book.Prelude.{
  ℕ, ◌-◌, ◌≤◌, ◌<◌, ◌==◌, ◌≡◌, refl, inl, inr, Bool-cases, if◌then◌else◌, false, none, some, List,
  [], ◌∷◌, All, arith,
}
use orda_book.Types.{Price, Side, OrderSnapshot}
use orda_book.Priority.{rest_order, withdraw, count_id}
use orda_book.OrderBook.State.{
  OrderLocation, OrderIndex, find_location, emplace_location, erase_location,
}
use orda_book.OrderBook.View.{located, erase_locations}
use orda_book.Priority.{left, has_id}
use orda_book.Priority.Ids.{count_id-left-le}

pub find-erase_location :
    (j id : ℕ) (index : OrderIndex)
    → find_location j (erase_location id index) ≡ (if id == j then none else find_location j index)
unfolding find_location erase_location
find-erase_location j id [] = ground arith
find-erase_location j id ((key, l) ∷ index) = ground (arith, find-erase_location j id index)

pub find-erase_locations :
    (j : ℕ) (keys : List ℕ) (index : OrderIndex)
    → find_location j (erase_locations keys index)
      ≡ (if has_id j keys then none else find_location j index)
unfolding erase_locations has_id
find-erase_locations j [] index = refl
find-erase_locations j (k ∷ keys) index =
    ground
      (arith, find-erase_locations j keys (erase_location k index), find-erase_location j k index)

pub located-left :
    (side : Side) (price : Price) (j qty : ℕ) (xs : List OrderSnapshot)
    → count_id j xs ≤ 1
    → 0 < count_id j (left side price qty xs)
    → located j (left side price qty xs) ≡ located j xs
unfolding located left count_id
located-left side price j qty [] h k = refl
located-left side price j qty (x ∷ xs) h k = ground (
  arith,
  located-left side price j (qty - x.qty) xs,
  count_id-left-le side price j (qty - x.qty) xs,
)

pub located-rest_order :
    (side : Side) (j : ℕ) (new : OrderSnapshot) (xs : List OrderSnapshot)
    → count_id new.order_id xs ≡ 0
    → located j (rest_order side new xs) ≡ (
        if new.order_id == j
        then some (record { side = new.side; level = new.price; order_it = new.order_id })
        else located j xs)
unfolding located rest_order count_id
located-rest_order side j new [] h = refl
located-rest_order side j new (x ∷ xs) h = ground (arith, located-rest_order side j new xs)

pub find-emplace_location :
    (j id : ℕ) (l : OrderLocation) (index : OrderIndex)
    → find_location id index ≡ none
    → find_location j (emplace_location id l index)
      ≡ (if id == j then some l else find_location j index)
unfolding emplace_location find_location
find-emplace_location j id l index h = rw (h, emplace_location)

pub located-withdraw :
    (id j : ℕ) (xs : List OrderSnapshot)
    → (id == j) ≡ false
    → located j (withdraw id xs) ≡ located j xs
unfolding located withdraw
located-withdraw id j [] h = refl
located-withdraw id j (x ∷ xs) h = ground (arith, located-withdraw id j xs)

pub located-side :
    (side : Side) (id : ℕ) (xs : List OrderSnapshot) {l : OrderLocation}
    → All (λ order. order.side ≡ side) xs
    → located id xs ≡ some l
    → (l.side ≡ side) × (l.order_it ≡ id) × (0 < count_id id xs)
unfolding located count_id
located-side side id [] h e = cc
located-side side id (x ∷ xs) (h, hs) e = elim (Bool-cases (x.order_id == id)) [
  | inl t ↦ (ground (arith, t, e), ground (arith, t, e), ground (arith, t))
  | inr n ↦ let (a, b, c) = located-side side id xs hs (rw n at e) in (a, b, omega arith)
]

pub located-some : (id : ℕ) (xs : List OrderSnapshot) → located id xs ≡ none → count_id id xs ≡ 0
unfolding located count_id
located-some id [] h = refl
located-some id (x ∷ xs) h = ground (arith, located-some id xs)
