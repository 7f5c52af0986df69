-- ===== src/OrderBook/Operations/Adding.antt =====
-- An add of the baseline engine leaves a valid book.
use orda_book.Prelude.{
  ℕ, ◌-◌, ◌≤◌, ltb, ◌==◌, ◌≡◌, refl, if◌then◌else◌, if_cases, Bool, true, false, Option, none, some,
  ◌&&◌, ◌||◌, not, List, arith,
}
use orda_book.Prelude.Int.{ℤ, pos, pos_part, ◌<ℤ◌}
use orda_book.Types.{
  Price, Side, OrderType, limit, market, TimeInForce, Trade, BookError, would_take_liquidity,
  insufficient_liquidity, quantity_overflow, invalid_quantity, duplicate_order_id,
}
use orda_book.Engine.{
  max_quantity, quantity_add_would_overflow, is_valid_price, is_valid_qty, is_market,
  is_good_til_cancel, is_fill_or_kill, effective_price, effective_time_in_force, count_add,
  count_rejected,
}
use orda_book.Priority.{total_at}
use orda_book.OrderBook.State.{OrderLocation, OrderBook, side_levels, find_location}
use orda_book.OrderBook.Levels.Contents.{level_qty-total_at}
use orda_book.OrderBook.View.{orders}
use orda_book.OrderBook.Invariant.{IsValid, count_live, restat-IsValid}
use orda_book.OrderBook.Matching.{max_crossing_qty}
use orda_book.OrderBook.Matching.Crossing.{max_crossing_qty-available}
use orda_book.OrderBook.Operations.Entering.{MayEnter, match_and_rest-IsValid}
use orda_book.OrderBook.Operations.{
  Outcome, reject, match_and_rest, level_overflow, add_checked, add_order_with_policy, is_found,
}
use orda_book.OrderBook.Operations.Checks.{
  would_overflow-le, level_overflow-total_at, find_location-none, total_at-le,
}

is_found→none : (o : Option OrderLocation) → is_found o ≡ false → o ≡ none
is_found→none none e = refl
is_found→none (some l) e = cc

limit_price :
    (type : OrderType) (side : Side) (price : Price) (post : Bool)
    → (not (is_market type) && not (is_valid_price price)) || (is_market type && post) ≡ false
    → is_market type ≡ false
    → pos 0 <ℤ effective_price type side price
unfolding is_valid_price
limit_price limit side price post tests e = ground (arith, tests)
limit_price market side price post tests e = cc

-- The operation leaves a valid book.
pub record LeavesValid (o : Outcome) : Type 0 where
  pub book_valid : IsValid o.book

pub reject-LeavesValid :
    (error : BookError) (book : OrderBook) (trades : List Trade)
    → IsValid book
    → LeavesValid (reject error book trades)
unfolding reject count_rejected
reject-LeavesValid error book trades v = record {
  book_valid = restat-IsValid book (count_rejected book.stats) v refl;
}

pub MayEnter-intro :
    (id : ℕ) (side : Side) (price : Price) (qty : ℕ) (can_rest : Bool) (book : OrderBook)
    → IsValid book
    → count_live id book ≡ 0
    → qty ≤ max_quantity
    → (can_rest ≡ true → pos 0 <ℤ price)
    → (can_rest
          && quantity_add_would_overflow
              (total_at price (orders side book))
              (qty - max_crossing_qty side price qty book))
        || quantity_add_would_overflow book.stats.traded_qty (max_crossing_qty side price qty book)
      ≡ false
    → MayEnter id side price qty can_rest book
MayEnter-intro id side price qty can_rest book v fresh small priced fits =
    let c = max_crossing_qty-available side price qty book v in
    let level_bound : total_at price (orders side book) ≤ max_quantity =
      unfold orders in
      rw (← level_qty-total_at side price (side_levels side book) (v.sorted side))
        (total_at-le side price (side_levels side book) (v.sorted side)) in
    record {
      fresh = fresh;
      traded_fits = rw (← c) (
          would_overflow-le book.stats.traded_qty (max_crossing_qty side price qty book)
            v.traded_bounded (omega (arith, c)) (ground (arith, fits)));
      priced = priced;
      level_fits = λ r.
          let l =
            would_overflow-le (total_at price (orders side book))
              (qty - max_crossing_qty side price qty book) level_bound (omega arith)
              (ground (arith, fits, r)) in
          omega (arith, l, c);
    }

pub add_checked-IsValid :
    (id : ℕ) (side : Side) (price : Price) (qty : ℕ) (m : Bool) (tif : TimeInForce) (post : Bool)
    (book : OrderBook) (trades : List Trade)
    → IsValid book
    → count_live id book ≡ 0
    → qty ≤ max_quantity
    → (m ≡ false → pos 0 <ℤ price)
    → LeavesValid (add_checked id side price qty m tif post book trades)
unfolding add_checked
add_checked-IsValid id side price qty m tif post book trades v fresh small priced =
    let can_rest = not m && is_good_til_cancel tif in
    let crossing = max_crossing_qty side price qty book in
    let unfilled = is_fill_or_kill tif && ltb crossing qty in
    let takes = post && not (crossing == 0) in
    let overflows =
      (can_rest && level_overflow side price (qty - crossing) book)
      || quantity_add_would_overflow book.stats.traded_qty crossing in
    let entered = match_and_rest id side price qty can_rest book trades in
    let fitting = if overflows then reject quantity_overflow book trades else entered in
    let passive = if takes then reject would_take_liquidity book trades else fitting in
    if_cases LeavesValid unfilled _ passive
      (λ _. reject-LeavesValid insufficient_liquidity book trades v)
      λ _.
        if_cases LeavesValid takes _ fitting
          (λ _. reject-LeavesValid would_take_liquidity book trades v)
          λ _.
            if_cases LeavesValid overflows _ entered
              (λ _. reject-LeavesValid quantity_overflow book trades v)
              λ fits. record {
                book_valid = match_and_rest-IsValid id side price qty can_rest book trades v (
                    MayEnter-intro id side price qty can_rest book v fresh small
                      (λ r. priced (ground (arith, r)))
                      (rw (← level_overflow-total_at side price (qty - crossing) book v) fits));
              }

-- An add keeps the invariant, for a quantity in the range of its type.
pub add_order_with_policy-LeavesValid :
    (id : ℕ) (side : Side) (price : Price) (qty : ℤ) (type : OrderType) (tif : TimeInForce)
    (post : Bool) (book : OrderBook) (trades : List Trade)
    → IsValid book
    → pos_part qty ≤ max_quantity
    → LeavesValid (add_order_with_policy id side price qty type tif post book trades)
unfolding add_order_with_policy
add_order_with_policy-LeavesValid id side price qty type tif post book₀ trades v₀ small =
    let book : OrderBook = record book₀ { stats = count_add book₀.stats } in
    let v : IsValid book =
      restat-IsValid book₀ (count_add book₀.stats) v₀ (unfold count_add in refl) in
    let checked =
      add_checked id side (effective_price type side price) (pos_part qty) (is_market type)
        (effective_time_in_force type tif) post book trades in
    let new =
      if is_found (find_location id book.order_index)
      then reject duplicate_order_id book trades
      else checked in
    let sized = if not (is_valid_qty qty) then reject invalid_quantity book trades else new in
    if_cases LeavesValid
      ((not (is_market type) && not (is_valid_price price)) || (is_market type && post)) _ sized
      (λ _. reject-LeavesValid _ book trades v)
      λ tests.
        if_cases LeavesValid (not (is_valid_qty qty)) _ new
          (λ _. reject-LeavesValid invalid_quantity book trades v)
          λ _.
            if_cases LeavesValid (is_found (find_location id book.order_index)) _ checked
              (λ _. reject-LeavesValid duplicate_order_id book trades v)
              λ free.
                add_checked-IsValid id side (effective_price type side price) (pos_part qty)
                  (is_market type) (effective_time_in_force type tif) post book trades v
                  (find_location-none id book v (is_found→none _ free)) small
                  (limit_price type side price post tests)
