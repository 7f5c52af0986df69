-- ===== src/Pooled/Adding.antt =====
-- `add_order_with_policy` of src/pooled_order_book.cpp against that of src/order_book.cpp.
use orda_book.Prelude.{
  ℕ, ◌-◌, ◌<◌, ltb, ◌==◌, ◌≡◌, ◌≢◌, refl, ap, subst, ◌⊎◌, inl, inr, if◌then◌else◌, Bool, Bool-cases,
  ==_iff, ◌&&◌, ◌||◌, not, true, false, Option, Option-cases, none, some, List, arith,
}
use orda_book.Prelude.Int.{ℤ, pos_part}
use orda_book.Types.{
  Price, Side, bid, OrderType, TimeInForce, Trade, BookError, insufficient_liquidity,
  would_take_liquidity, quantity_overflow, duplicate_order_id, invalid_price, invalid_quantity,
}
use orda_book.Engine.{
  opposite, is_good_til_cancel, is_fill_or_kill, is_market, is_valid_price, is_valid_qty,
  effective_price, effective_time_in_force, count_add,
}
use orda_book.OrderBook.State.{OrderBook, find_location}
use orda_book.OrderBook.Operations
use orda_book.OrderBook.Matching.Crossing.{max_crossing_qty-available}
use orda_book.OrderBook.Invariant.{IsValid, restat-IsValid}
use orda_book.Pooled.State.{PooledOrderBook, find_slot}
use orda_book.Pooled.Matching.{max_crossing_qty, match_incoming}
use orda_book.Pooled.Operations.{
  reject, match_and_rest, add_checked, is_found, add_order_with_policy,
}
use orda_book.Pooled.Keys.{find_none, find_some}
use orda_book.Pooled.Represents.{Represents, slot_count, turn, turn-slot_count}
use orda_book.OrderBook.Matching.Refines.{match_incoming-Matches}
use orda_book.Pooled.Matching.Incoming.{match_incoming-Matched}
use orda_book.Pooled.Entering.{Simulates, match_and_rest-Simulates}
use orda_book.Pooled.Refusing.{
  Follows, Follows-if, max_crossing_qty-same, overflow_same, restat-Represents, reject-Simulates,
}

-- What the capacity check leaves: an order that may rest has a free slot, or trades.
has_room :
    (can_rest : Bool) (rest head crossing : ℕ)
    → (can_rest && ltb 0 rest && head == 0 && crossing == 0) ≡ false
    → can_rest ≡ true
    → 0 < rest
    → (head ≢ 0) ⊎ (crossing ≢ 0)
has_room can_rest rest head crossing f t r = elim (Bool-cases (head == 0)) [
  | inr n ↦ inl (ground (arith, n))
  | inl z ↦ inr (ground (arith, f, t, r, z))
]

-- The remainder after the matching is what the checks took to rest.
remainder :
    (id : ℕ) (side : Side) (price : Price) (qty : ℕ) (p : PooledOrderBook) (b : OrderBook)
    (trades : List Trade) (sided : Represents side p b)
    → IsValid b
    → (match_incoming id side price qty p trades).0 ≡ qty - max_crossing_qty side price qty p
remainder id side price qty p b trades sided v =
    let m = match_incoming-Matched id side price qty p b trades sided in
    let w = match_incoming-Matches id side price qty b trades (v.sorted (opposite side)) in
    omega (
      arith,
      m.remaining,
      w.remaining,
      max_crossing_qty-same side price qty p b sided,
      max_crossing_qty-available side price qty b v,
    )

add_checked-enters :
    (id : ℕ) (side : Side) (price : Price) (qty : ℕ) (can_rest : Bool) (p : PooledOrderBook)
    (b : OrderBook) (trades : List Trade) (rep : Represents bid p b)
    → IsValid b
    → find_slot id p.order_index ≡ none
    → (can_rest
        && ltb 0 (qty - max_crossing_qty side price qty p)
        && p.pool.free_head == 0
        && max_crossing_qty side price qty p == 0)
      ≡ false
    → Simulates
        (slot_count rep)
        (match_and_rest id side price qty can_rest p trades)
        (Operations.match_and_rest id side price qty can_rest b trades)
add_checked-enters id side price qty can_rest p b trades rep v n f =
    let sided = turn bid side p b rep in
    subst
      (λ count.
        Simulates count (match_and_rest id side price qty can_rest p trades)
          (Operations.match_and_rest id side price qty can_rest b trades))
      (turn-slot_count bid side p b rep)
      (match_and_rest-Simulates id side price qty can_rest p b trades sided v n (λ t r.
        elim (has_room can_rest (qty - max_crossing_qty side price qty p) p.pool.free_head
          (max_crossing_qty side price qty p) f t
          (rw (remainder id side price qty p b trades sided v) at r)) [
            | inl h ↦ inl h
            | inr c ↦ inr (rw (max_crossing_qty-same side price qty p b sided) at c)
          ]))

-- An add that has passed the checks of its fields and its id.
pub add_checked-Follows :
    (id : ℕ) (side : Side) (price : Price) (qty : ℕ) (market : Bool) (tif : TimeInForce)
    (post : Bool) (p : PooledOrderBook) (b : OrderBook) (trades : List Trade)
    (rep : Represents bid p b)
    → IsValid b
    → find_slot id p.order_index ≡ none
    → Follows
        (slot_count rep)
        p
        trades
        (add_checked id side price qty market tif post p trades)
        (Operations.add_checked id side price qty market tif post b trades)
unfolding add_checked Operations.add_checked
add_checked-Follows id side price qty market tif post p b trades rep v n =
    let sided = turn bid side p b rep in
    let crossing = max_crossing_qty side price qty p in
    let crossing_same = max_crossing_qty-same side price qty p b sided in
    let can_rest = not market && is_good_til_cancel tif in
    let refusal : (error : BookError)
        → Follows (slot_count rep) p trades (some (reject error p trades))
            (Operations.reject error b trades) =
      λ error. inl (reject-Simulates error p b trades rep) in
    Follows-if (slot_count rep) p trades _ _ _ _ _ _
      (ap (λ c. is_fill_or_kill tif && ltb c qty) crossing_same)
      (λ _. refusal insufficient_liquidity)
      λ _.
        Follows-if (slot_count rep) p trades _ _ _ _ _ _
          (ap (λ c. post && not (c == 0)) crossing_same) (λ _. refusal would_take_liquidity)
          λ _.
            Follows-if (slot_count rep) p trades _ _ _ _ _ _
              (overflow_same side price qty p b sided can_rest) (λ _. refusal quantity_overflow)
              λ _.
                elim (Bool-cases
                  (can_rest && ltb 0 (qty - crossing) && p.pool.free_head == 0 && crossing == 0)) [
                    | inl t ↦ rw t (
                        inr (record {
                          exhausted = (==_iff p.pool.free_head 0).0 (ground (arith, t));
                          refused = refl;
                        }))
                    | inr f ↦
                        rw f
                          (inl (add_checked-enters id side price qty can_rest p b trades rep v n f))
                  ]

is_found-same :
    (id : ℕ) (p : PooledOrderBook) (b : OrderBook)
    → Represents bid p b
    → is_found (find_slot id p.order_index) ≡ Operations.is_found (find_location id b.order_index)
is_found-same id p b rep = elim (Option-cases (find_slot id p.order_index)) [
  | inl n ↦ rw (n, find_none id p.order_index b.order_index rep.agree.keys n) refl
  | inr (i, e) ↦
      let (l, f) = find_some id p.order_index b.order_index i rep.agree.keys e in rw (e, f) refl
]

is_found→none : (o : Option ℕ) → is_found o ≡ false → o ≡ none
is_found→none none h = refl
is_found→none (some i) h = cc

-- On books that hold the same orders the two engines add alike, but for a refusal by the pooled
-- engine when it has no free slot.
pub add_order_with_policy-Follows :
    (id : ℕ) (side : Side) (price : Price) (qty : ℤ) (type : OrderType) (tif : TimeInForce)
    (post : Bool) (p : PooledOrderBook) (b : OrderBook) (trades : List Trade)
    (rep : Represents bid p b)
    → IsValid b
    → Follows
        (slot_count rep)
        (record p { stats = count_add p.stats })
        trades
        (add_order_with_policy id side price qty type tif post p trades)
        (Operations.add_order_with_policy id side price qty type tif post b trades)
unfolding add_order_with_policy Operations.add_order_with_policy restat-Represents
add_order_with_policy-Follows id side price qty type tif post p₀ b₀ trades rep₀ v₀ =
    let p : PooledOrderBook = record p₀ { stats = count_add p₀.stats } in
    let b : OrderBook = record b₀ { stats = count_add b₀.stats } in
    let rep = restat-Represents p₀ b₀ count_add rep₀ in
    let v : IsValid b = restat-IsValid b₀ (count_add b₀.stats) v₀ (unfold count_add in refl) in
    let refusal : (error : BookError)
        → Follows (slot_count rep) p trades (some (reject error p trades))
            (Operations.reject error b trades) =
      λ error. inl (reject-Simulates error p b trades rep) in
    let invalid =
      (not (is_market type) && not (is_valid_price price)) || (is_market type && post) in
    let checked =
      add_checked id side (effective_price type side price) (pos_part qty) (is_market type)
        (effective_time_in_force type tif) post p trades in
    let base_checked =
      Operations.add_checked id side (effective_price type side price) (pos_part qty)
        (is_market type) (effective_time_in_force type tif) post b trades in
    let new =
      if is_found (find_slot id p.order_index)
      then some (reject duplicate_order_id p trades)
      else checked in
    let base_new =
      if Operations.is_found (find_location id b.order_index)
      then Operations.reject duplicate_order_id b trades
      else base_checked in
    let sized = if not (is_valid_qty qty) then some (reject invalid_quantity p trades) else new in
    let base_sized =
      if not (is_valid_qty qty) then Operations.reject invalid_quantity b trades else base_new in
    Follows-if (slot_count rep) p trades invalid invalid _ sized _ base_sized refl
      (λ _. refusal (if is_market type && post then would_take_liquidity else invalid_price))
      λ _.
        Follows-if (slot_count rep) p trades (not (is_valid_qty qty)) (not (is_valid_qty qty)) _ new
          _ base_new refl (λ _. refusal invalid_quantity)
          λ _.
            Follows-if (slot_count rep) p trades (is_found (find_slot id p.order_index))
              (Operations.is_found (find_location id b.order_index)) _ checked _ base_checked
              (is_found-same id p b rep) (λ _. refusal duplicate_order_id)
              (λ f.
                add_checked-Follows id side (effective_price type side price) (pos_part qty)
                  (is_market type) (effective_time_in_force type tif) post p b trades rep v
                  (is_found→none (find_slot id p.order_index) f))
