-- ===== src/Priority/Admission.antt =====
-- Every request is refused or entered: what is to be shown of the two shapes of a result, under
-- what the tests have found, is shown of the request.
use orda_book.Prelude.{
  ℕ, ◌-◌, ◌≤◌, min, ltb, ◌==◌, if◌then◌else◌, if_cases, ◌≡◌, ◌≢◌, Bool, true, false, ◌&&◌, ◌||◌,
  not, List, arith,
}
use orda_book.Prelude.Int.{ℤ, pos_part}
use orda_book.Types.{
  Price, Side, OrderType, TimeInForce, Trade, BookError, unknown_order_id, duplicate_order_id,
  invalid_price, invalid_quantity, quantity_overflow, insufficient_liquidity, would_take_liquidity,
}
use orda_book.Engine.{
  opposite, quantity_add_would_overflow, is_valid_price, is_valid_qty, is_market,
  is_good_til_cancel, is_fill_or_kill, effective_price, effective_time_in_force, count_add,
  count_cancel, count_modify,
}
use orda_book.Priority.{available, total_at, withdraw}
use orda_book.Priority.Book.{
  Queues, queue, Result, refuse, enter, enter_checked, add_to, cancel_in, replace_in, is_live,
  side_of,
}

module _ {ℓ} (P : Result → Type ℓ) where
  abbrev pub Refused : Queues → List Trade → Type ℓ
  Refused q trades = (error : BookError) → error ≢ BookError.none → P (refuse error q trades)

  pub enter_checked-elim :
      (id : ℕ) (side : Side) (price : Price) (qty : ℕ) (m : Bool) (tif : TimeInForce) (post : Bool)
      (q : Queues) (trades : List Trade)
      → Refused q trades
      → ((is_fill_or_kill tif ≡ true → qty ≤ available side price (queue (opposite side) q))
          → (post ≡ true → min qty (available side price (queue (opposite side) q)) ≡ 0)
          → P (enter id side price qty (not m && is_good_til_cancel tif) q trades))
      → P (enter_checked id side price qty m tif post q trades)
  unfolding enter_checked
  enter_checked-elim id side price qty m tif post q trades refused entered =
      let crossing = min qty (available side price (queue (opposite side) q)) in
      let can_rest = not m && is_good_til_cancel tif in
      let done = enter id side price qty can_rest q trades in
      let overflows =
        (can_rest && quantity_add_would_overflow (total_at price (queue side q)) (qty - crossing))
        || quantity_add_would_overflow q.stats.traded_qty crossing in
      let fitting = if overflows then refuse quantity_overflow q trades else done in
      let takes = post && not (crossing == 0) in
      let passive = if takes then refuse would_take_liquidity q trades else fitting in
      if_cases P (is_fill_or_kill tif && ltb crossing qty) _ passive
        (λ _. refused insufficient_liquidity (λ e. cc))
        λ whole.
          if_cases P takes _ fitting (λ _. refused would_take_liquidity (λ e. cc))
            λ quiet.
              if_cases P overflows _ done (λ _. refused quantity_overflow (λ e. cc))
                λ _. entered (λ f. ground (arith, whole, f)) (λ p. ground (arith, quiet, p))

  pub add_to-elim :
      (id : ℕ) (side : Side) (price : Price) (qty : ℤ) (type : OrderType) (tif : TimeInForce)
      (post : Bool) (q₀ : Queues) (trades : List Trade)
      → let q : Queues = record q₀ { stats = count_add q₀.stats } in
        let price' = effective_price type side price in
        let offered = available side price' (queue (opposite side) q) in
        Refused q trades
        → (is_live id q ≡ false
            → is_valid_qty qty ≡ true
            → (is_fill_or_kill (effective_time_in_force type tif) ≡ true → pos_part qty ≤ offered)
            → (post ≡ true → min (pos_part qty) offered ≡ 0)
            → P (
                enter id side price'
                  (pos_part qty)
                  (not (is_market type) && is_good_til_cancel (effective_time_in_force type tif))
                  q
                  trades))
        → P (add_to id side price qty type tif post q₀ trades)
  unfolding add_to
  add_to-elim id side price qty type tif post q₀ trades refused entered =
      let q : Queues = record q₀ { stats = count_add q₀.stats } in
      let m = is_market type in
      let checked =
        enter_checked id side (effective_price type side price) (pos_part qty) m
          (effective_time_in_force type tif) post q trades in
      let new = if is_live id q then refuse duplicate_order_id q trades else checked in
      let sized = if not (is_valid_qty qty) then refuse invalid_quantity q trades else new in
      let priced =
        if not m && not (is_valid_price price) then refuse invalid_price q trades else sized in
      if_cases P (m && post) _ priced (λ _. refused would_take_liquidity (λ e. cc))
        λ _.
          if_cases P (not m && not (is_valid_price price)) _ sized
            (λ _. refused invalid_price (λ e. cc))
            λ _.
              if_cases P (not (is_valid_qty qty)) _ new (λ _. refused invalid_quantity (λ e. cc))
                λ sized.
                  if_cases P (is_live id q) _ checked (λ _. refused duplicate_order_id (λ e. cc))
                    λ new_id.
                      enter_checked-elim id side (effective_price type side price) (pos_part qty) m
                        (effective_time_in_force type tif) post q trades refused
                        (entered new_id (ground (arith, sized)))

  pub replace_in-elim :
      (id : ℕ) (price : Price) (qty : ℤ) (q₀ : Queues) (trades : List Trade)
      → let q : Queues = record q₀ { stats = count_modify q₀.stats } in
        let without : Queues = record q { bids = withdraw id q.bids; asks = withdraw id q.asks } in
        Refused q trades
        → (is_live id q ≡ true
            → is_valid_price price ≡ true
            → P (enter id (side_of id q) price (pos_part qty) true without trades))
        → P (replace_in id price qty q₀ trades)
  unfolding replace_in
  replace_in-elim id price qty q₀ trades refused entered =
      let q : Queues = record q₀ { stats = count_modify q₀.stats } in
      let side = side_of id q in
      let without : Queues = record q { bids = withdraw id q.bids; asks = withdraw id q.asks } in
      let crossing = min (pos_part qty) (available side price (queue (opposite side) q)) in
      let done = enter id side price (pos_part qty) true without trades in
      let overflows =
        quantity_add_would_overflow (total_at price (queue side without)) (pos_part qty - crossing)
        || quantity_add_would_overflow q.stats.traded_qty crossing in
      let fitting = if overflows then refuse quantity_overflow q trades else done in
      let sized = if not (is_valid_qty qty) then refuse invalid_quantity q trades else fitting in
      let priced = if not (is_valid_price price) then refuse invalid_price q trades else sized in
      if_cases P (not (is_live id q)) _ priced (λ _. refused unknown_order_id (λ e. cc))
        λ live.
          if_cases P (not (is_valid_price price)) _ sized (λ _. refused invalid_price (λ e. cc))
            λ valid.
              if_cases P (not (is_valid_qty qty)) _ fitting
                (λ _. refused invalid_quantity (λ e. cc))
                λ _.
                  if_cases P overflows _ done (λ _. refused quantity_overflow (λ e. cc))
                    λ _. entered (ground (arith, live)) (ground (arith, valid))

  pub cancel_in-elim :
      (id : ℕ) (q₀ : Queues) (trades : List Trade)
      → let q : Queues = record q₀ { stats = count_cancel q₀.stats } in
        let without : Queues = record q { bids = withdraw id q.bids; asks = withdraw id q.asks } in
        Refused q trades
        → P (record { error = BookError.none; queues = without; trades = trades })
        → P (cancel_in id q₀ trades)
  unfolding cancel_in
  cancel_in-elim id q₀ trades refused done =
      let q : Queues = record q₀ { stats = count_cancel q₀.stats } in
      if_cases P (is_live id q) _ _ (λ _. done) (λ _. refused unknown_order_id (λ e. cc))
