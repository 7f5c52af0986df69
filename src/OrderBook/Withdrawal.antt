-- ===== src/OrderBook/Withdrawal.antt =====
-- `remove_order` on a whole book, and the order that a location stands for.
use orda_book.Prelude.{
  ℕ, ◌<◌, ◌==◌, ◌≡◌, refl, sym, ap, ◌∙◌, subst, inl, inr, Option-cases, if◌then◌else◌, none, some,
  List, [], ◌∷◌, All, All-append, arith,
}
use orda_book.Types.{Price, Side, bid, ask, OrderSnapshot}
use orda_book.Engine.{opposite}
use orda_book.Priority.{withdraw, count_id}
use orda_book.Priority.Ids.{count_id-withdraw}
use orda_book.OrderBook.State.{
  Order, PriceLevel, OrderLocation, OrderBook, side_levels, find_location, erase_location,
}
use orda_book.OrderBook.Levels.{remove_order}
use orda_book.OrderBook.Levels.Removal.{append_level_orders-removed, removed-AreLevels}
use orda_book.OrderBook.View.{level_orders, append_level_orders, orders, located}
use orda_book.OrderBook.Invariant.{
  IsResting, AreLevels, IsValid, count_live, count_live-sides, both_sides,
}
use orda_book.OrderBook.Index.{find-erase_location, located-withdraw, located-side, located-some}

-- Each order of a side says so itself.
level_orders-side :
    (side : Side) (at : Price) (os : List Order)
    → All (IsResting side at) os
    → All (λ (order : OrderSnapshot). order.side ≡ side) (level_orders at os)
level_orders-side side at [] h = tt
level_orders-side side at (o ∷ os) (h, hs) = (h.on_side, level_orders-side side at os hs)

append_level_orders-side :
    (side : Side) (levels : List PriceLevel)
    → AreLevels side levels
    → All (λ (order : OrderSnapshot). order.side ≡ side) (append_level_orders levels)
unfolding append_level_orders
append_level_orders-side side [] v = tt
append_level_orders-side side (level ∷ levels) (v, _, vs) =
    All-append _ (level_orders level.price level.orders) (append_level_orders levels)
      (level_orders-side side level.price level.orders v.resting)
      (append_level_orders-side side levels vs)

-- A location of the index is that of a live order with the id.
pub record IsLive (id : ℕ) (l : OrderLocation) (book : OrderBook) : Type 0 where
  pub found : located id (orders l.side book) ≡ some l
  pub points_at : l.order_it ≡ id
  pub held : 0 < count_id id (orders l.side book)

IsLive-on :
    (side : Side) (id : ℕ) (l : OrderLocation) (book : OrderBook)
    → IsValid book
    → located id (orders side book) ≡ some l
    → IsLive id l book
unfolding orders
IsLive-on side id l book v e =
    let (s, p, h) =
      located-side side id (orders side book)
        (append_level_orders-side side (side_levels side book) (v.sorted side)) e in
    record {
      found = subst (λ t. located id (orders t book) ≡ some l) (sym s) e;
      points_at = p;
      held = subst (λ t. 0 < count_id id (orders t book)) (sym s) h;
    }

pub find_location-IsLive :
    (id : ℕ) (l : OrderLocation) (book : OrderBook)
    → IsValid book
    → find_location id book.order_index ≡ some l
    → IsLive id l book
find_location-IsLive id l book v e = elim (Option-cases (located id (orders bid book))) [
  | inr (b, eb) ↦ IsLive-on bid id l book v (rw (← v.indexed bid id (positive bid b eb)) e)
  | inl nb ↦ elim (Option-cases (located id (orders ask book))) [
    | inr (a, ea) ↦ IsLive-on ask id l book v (rw (← v.indexed ask id (positive ask a ea)) e)
    | inl na ↦
        let none_bid = located-some id (orders bid book) nb in
        let none_ask = located-some id (orders ask book) na in
        let gone =
          v.absent id (rw (count_live-sides bid id book) (omega (arith, none_bid, none_ask))) in
        cc
  ]
]
  where
    positive :
        (s : Side) (k : OrderLocation)
        → located id (orders s book) ≡ some k
        → 0 < count_id id (orders s book)
    positive s k ek =
        (located-side s id (orders s book)
          (unfold orders in append_level_orders-side s (side_levels s book) (v.sorted s)) ek).2

-- The order leaves its side; the other side, the counters and the rest of the index stay.
pub record Withdraws (id : ℕ) (side : Side) (book book' : OrderBook) : Type 0 where
  pub withdrawn : orders side book' ≡ withdraw id (orders side book)
  pub other : side_levels (opposite side) book' ≡ side_levels (opposite side) book
  pub counters : book'.stats ≡ book.stats
  pub index : book'.order_index ≡ erase_location id book.order_index

remove_order-side :
    (id : ℕ) (l : OrderLocation) (side : Side) (book : OrderBook)
    → l.side ≡ side
    → l.order_it ≡ id
    → AreLevels side (side_levels side book)
    → located id (orders side book) ≡ some l
    → Withdraws id side book
        (remove_order id (record { side = side; level = l.level; order_it = id }) book)
      × AreLevels side (
          side_levels side
            (remove_order id (record { side = side; level = l.level; order_it = id }) book))
unfolding remove_order orders
remove_order-side id l bid book s p v e = (
  record {
    withdrawn = append_level_orders-removed bid l.level id book.bids l v e refl;
    other = refl;
    counters = refl;
    index = refl;
  },
  removed-AreLevels bid l.level id book.bids v,
)
remove_order-side id l ask book s p v e = (
  record {
    withdrawn = append_level_orders-removed ask l.level id book.asks l v e refl;
    other = refl;
    counters = refl;
    index = refl;
  },
  removed-AreLevels ask l.level id book.asks v,
)

pub remove_order-Withdraws :
    (id : ℕ) (l : OrderLocation) (book : OrderBook)
    → AreLevels l.side (side_levels l.side book)
    → IsLive id l book
    → Withdraws id l.side book (remove_order id l book)
      × AreLevels l.side (side_levels l.side (remove_order id l book))
remove_order-Withdraws id l book v live =
    subst
      (λ (it : ℕ).
        Withdraws id l.side book
          (remove_order id (record { side = l.side; level = l.level; order_it = it }) book)
        × AreLevels l.side (
            side_levels l.side
              (remove_order id (record { side = l.side; level = l.level; order_it = it }) book)))
      (sym live.points_at) (remove_order-side id l l.side book refl live.points_at v live.found)

module _ (id : ℕ) (side : Side) (book book' : OrderBook) (v : IsValid book)
    (w : Withdraws id side book book') (held : 0 < count_id id (orders side book))
    (levels : AreLevels side (side_levels side book')) where
  other_orders : orders (opposite side) book' ≡ orders (opposite side) book
  unfolding orders
  other_orders = ap append_level_orders w.other

  pub live : (j : ℕ) → count_live j book' ≡ (if id == j then 0 else count_live j book)
  live j =
      rw (count_live-sides side j book', w.withdrawn, other_orders)
        (ground (
          arith,
          v.unique id,
          held,
          count_live-sides side j book,
          count_live-sides side id book,
          count_id-withdraw id j (orders side book),
        ))

  lookup :
      (j : ℕ)
      → find_location j book'.order_index
        ≡ (if id == j then none else find_location j book.order_index)
  lookup j = ap (find_location j) w.index ∙ find-erase_location j id book.order_index

  here_indexed :
      (j : ℕ)
      → 0 < count_id j (orders side book')
      → find_location j book'.order_index ≡ located j (orders side book')
  here_indexed j h =
      rw (lookup j, w.withdrawn)
        (ground (
          arith,
          h,
          w.withdrawn,
          v.unique id,
          v.indexed side j,
          count_live-sides side id book,
          count_id-withdraw id j (orders side book),
          located-withdraw id j (orders side book),
        ))

  there_indexed :
      (j : ℕ)
      → 0 < count_id j (orders (opposite side) book')
      → find_location j book'.order_index ≡ located j (orders (opposite side) book')
  there_indexed j h =
      rw (lookup j, other_orders)
        (ground (
          arith,
          h,
          held,
          other_orders,
          v.unique id,
          v.indexed (opposite side) j,
          count_live-sides side id book,
        ))

  pub Withdraws-IsValid : IsValid book'
  Withdraws-IsValid = record {
    sorted =
        both_sides (λ s. AreLevels s (side_levels s book')) side levels
          (rw w.other (v.sorted (opposite side)));
    unique = λ j. ground (arith, live j, v.unique j);
    indexed =
        both_sides
          (λ s.
            (j : ℕ)
            → 0 < count_id j (orders s book')
            → find_location j book'.order_index ≡ located j (orders s book'))
          side here_indexed there_indexed;
    absent = λ j z. rw (lookup j) (ground (arith, z, live j, v.absent j));
    traded_bounded = rw w.counters v.traded_bounded;
  }

-- In a valid book, removing the order of an id that the index has leaves a valid book in which the id
-- is free.
pub remove_order-IsValid :
    (id : ℕ) (l : OrderLocation) (book : OrderBook)
    → IsValid book
    → find_location id book.order_index ≡ some l
    → IsValid (remove_order id l book) × (count_live id (remove_order id l book) ≡ 0)
remove_order-IsValid id l book v e =
    let at = find_location-IsLive id l book v e in
    let (w, levels) = remove_order-Withdraws id l book (v.sorted l.side) at in
    (
      Withdraws-IsValid id l.side book _ v w at.held levels,
      live id l.side book _ v w at.held levels id ∙ ground arith,
    )
