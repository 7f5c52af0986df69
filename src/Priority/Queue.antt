-- ===== src/Priority/Queue.antt =====
-- How an order joins a queue and what it adds to the quantity at its price.
use orda_book.Prelude.{◌+◌, ◌≡◌, refl, ap, true, false, List, [], ◌∷◌, ◌++◌, All, arith}
use orda_book.Prelude.Int.{eqb_ℤ}
use orda_book.Types.{Price, Side, OrderSnapshot}
use orda_book.Engine.{ahead}
use orda_book.Priority.{rest_order, total_at, total}

pub rest_order-append :
    (side : Side) (new : OrderSnapshot) (xs ys : List OrderSnapshot)
    → All (λ order. ahead side new.price order.price ≡ false) xs
    → rest_order side new (xs ++ ys) ≡ xs ++ rest_order side new ys
unfolding rest_order
rest_order-append side new [] ys h = refl
rest_order-append side new (x ∷ xs) ys (h, hs) =
    rw h (ap (◌∷◌ x) (rest_order-append side new xs ys hs))

pub rest_order-front :
    (side : Side) (new : OrderSnapshot) (xs : List OrderSnapshot)
    → All (λ order. ahead side new.price order.price ≡ true) xs
    → rest_order side new xs ≡ new ∷ xs
unfolding rest_order
rest_order-front side new [] h = refl
rest_order-front side new (x ∷ xs) h = rw h.0

pub total_at-append :
    (price : Price) (xs ys : List OrderSnapshot)
    → total_at price (xs ++ ys) ≡ total_at price xs + total_at price ys
unfolding total_at
total_at-append price [] ys = omega arith
total_at-append price (x ∷ xs) ys = omega (arith, total_at-append price xs ys)

pub total_at-none :
    (price : Price) (xs : List OrderSnapshot)
    → All (λ order. eqb_ℤ order.price price ≡ false) xs
    → total_at price xs ≡ 0
unfolding total_at
total_at-none price [] h = refl
total_at-none price (x ∷ xs) h = ground (arith, total_at-none price xs h.1)

pub total_at-All :
    (price : Price) (xs : List OrderSnapshot)
    → All (λ order. eqb_ℤ order.price price ≡ true) xs
    → total_at price xs ≡ total xs
unfolding total_at total
total_at-All price [] h = refl
total_at-All price (x ∷ xs) h = ground (arith, total_at-All price xs h.1)
