-- ===== src/Priority/Ids.antt =====
-- Which orders a list holds, under matching and under the changes of a queue.
use orda_book.Prelude.{ℕ, ◌+◌, ◌-◌, ◌≤◌, ◌==◌, if◌then◌else◌, ◌≡◌, refl, List, [], ◌∷◌, ◌++◌, arith}
use orda_book.Types.{Price, Side, OrderSnapshot}
use orda_book.Priority.{count_id, rest_order, withdraw, left, filled, has_id}

pub count_id-append :
    (j : ℕ) (xs ys : List OrderSnapshot) → count_id j (xs ++ ys) ≡ count_id j xs + count_id j ys
unfolding count_id
count_id-append j [] ys = omega arith
count_id-append j (x ∷ xs) ys = omega (arith, count_id-append j xs ys)

pub count_id-left-le :
    (side : Side) (price : Price) (j qty : ℕ) (xs : List OrderSnapshot)
    → count_id j (left side price qty xs) ≤ count_id j xs
unfolding count_id left
count_id-left-le side price j qty [] = omega arith
count_id-left-le side price j qty (x ∷ xs) =
    ground (arith, count_id-left-le side price j (qty - x.qty) xs)

pub count_id-rest_order :
    (side : Side) (j : ℕ) (new : OrderSnapshot) (xs : List OrderSnapshot)
    → count_id j (rest_order side new xs) ≡ (if new.order_id == j then 1 else 0) + count_id j xs
unfolding count_id rest_order
count_id-rest_order side j new [] = refl
count_id-rest_order side j new (x ∷ xs) = ground (arith, count_id-rest_order side j new xs)

pub count_id-withdraw :
    (id j : ℕ) (xs : List OrderSnapshot)
    → count_id id xs ≤ 1
    → count_id j (withdraw id xs) ≡ (if id == j then 0 else count_id j xs)
unfolding count_id withdraw
count_id-withdraw id j [] h = ground arith
count_id-withdraw id j (x ∷ xs) h = ground (arith, count_id-withdraw id j xs)

pub withdraw-absent : (id : ℕ) (xs : List OrderSnapshot) → count_id id xs ≡ 0 → withdraw id xs ≡ xs
unfolding count_id withdraw
withdraw-absent id [] h = refl
withdraw-absent id (x ∷ xs) h = ground (arith, withdraw-absent id xs)

pub withdraw-append :
    (id : ℕ) (xs ys : List OrderSnapshot)
    → withdraw id (xs ++ ys)
      ≡ (if count_id id xs == 0 then xs ++ withdraw id ys else withdraw id xs ++ ys)
unfolding count_id withdraw
withdraw-append id [] ys = refl
withdraw-append id (x ∷ xs) ys = ground (arith, withdraw-append id xs ys)

-- An order that joined is taken out again.
pub withdraw-rest_order :
    (side : Side) (new : OrderSnapshot) (xs : List OrderSnapshot)
    → count_id new.order_id xs ≡ 0
    → withdraw new.order_id (rest_order side new xs) ≡ xs
unfolding count_id withdraw rest_order
withdraw-rest_order side new [] h = ground arith
withdraw-rest_order side new (x ∷ xs) h = ground (arith, withdraw-rest_order side new xs)

-- Matching drops exactly the orders that it fills whole.
pub count_id-left-filled :
    (side : Side) (price : Price) (j qty : ℕ) (xs : List OrderSnapshot)
    → count_id j xs ≤ 1
    → count_id j (left side price qty xs) + (if has_id j (filled side price qty xs) then 1 else 0)
      ≡ count_id j xs
unfolding count_id left filled has_id
count_id-left-filled side price j qty [] h = refl
count_id-left-filled side price j qty (x ∷ xs) h = ground (
  arith,
  count_id-left-filled side price j (qty - x.qty) xs,
  count_id-left-le side price j (qty - x.qty) xs,
)
