-- ===== src/Priority.antt =====
-- Price-time priority, as docs/ARCHITECTURE.md and README.md describe it, with no levels, no index
-- and no pointers: one side of a book is the list of its resting orders, best price first and
-- oldest first within a price.
pub mod Fills
pub mod Ids
pub mod Book
pub mod Queue
pub mod Admission
pub mod Uncrossed
pub mod Entry
use orda_book.Prelude.{
  ℕ, ◌+◌, ◌-◌, min, ltb, leb, ◌==◌, if◌then◌else◌, Bool, true, false, ◌&&◌, List, [], ◌∷◌, ◌++◌,
}
use orda_book.Prelude.Int.{eqb_ℤ}
use orda_book.Types.{Price, Side, OrderSnapshot, Trade, EngineStats}
use orda_book.Engine.{crosses, ahead, count_trade}

unfoldable pub total : List OrderSnapshot → ℕ
total [] = 0
total (order ∷ orders) = order.qty + total orders

-- The quantity of the orders at a price.
unfoldable pub total_at : Price → List OrderSnapshot → ℕ
total_at price [] = 0
total_at price (order ∷ orders) =
    (if eqb_ℤ order.price price then order.qty else 0) + total_at price orders

-- How often an id occurs.
unfoldable pub count_id : ℕ → List OrderSnapshot → ℕ
count_id order_id [] = 0
count_id order_id (order ∷ orders) =
    (if order.order_id == order_id then 1 else 0) + count_id order_id orders

unfoldable pub traded : List Trade → ℕ
traded [] = 0
traded (trade ∷ trades) = trade.qty + traded trades

unfoldable pub count_trades : List Trade → EngineStats → EngineStats
count_trades [] stats = stats
count_trades (trade ∷ trades) stats = count_trades trades (count_trade trade.qty stats)

-- Behind every order at the price or a better one, and before the first at a worse price.
unfoldable pub rest_order : Side → OrderSnapshot → List OrderSnapshot → List OrderSnapshot
rest_order side new [] = new ∷ []
rest_order side new (order ∷ orders) =
    if ahead side new.price order.price
    then new ∷ order ∷ orders
    else order ∷ rest_order side new orders

unfoldable pub withdraw : ℕ → List OrderSnapshot → List OrderSnapshot
withdraw order_id [] = []
withdraw order_id (order ∷ orders) =
    if order.order_id == order_id then orders else order ∷ withdraw order_id orders

module _ (incoming_side : Side) (incoming_price : Price) where
  -- What the orders at acceptable prices offer together.
  unfoldable pub available : List OrderSnapshot → ℕ
  available [] = 0
  available (order ∷ orders) =
      if crosses incoming_side incoming_price order.price then order.qty + available orders else 0

  unfoldable pub fills : ℕ → ℕ → List OrderSnapshot → List Trade
  fills incoming_order_id qty [] = []
  fills incoming_order_id qty (order ∷ orders) =
      let rest = fills incoming_order_id (qty - order.qty) orders in
      let trade : Trade = record {
        resting_order_id = order.order_id;
        incoming_order_id = incoming_order_id;
        price = order.price;
        qty = min qty order.qty;
        aggressor_side = incoming_side;
      } in
      if ltb 0 qty && crosses incoming_side incoming_price order.price then trade ∷ rest else []

  -- What an incoming quantity leaves of the orders.
  unfoldable pub left : ℕ → List OrderSnapshot → List OrderSnapshot
  left qty [] = []
  left qty (order ∷ orders) =
      let rest = left (qty - order.qty) orders in
      if ltb 0 qty && crosses incoming_side incoming_price order.price
      then if leb order.qty qty then rest else record order { qty = order.qty - qty } ∷ orders
      else order ∷ orders

  -- The ids of the orders that are filled whole.
  unfoldable pub filled : ℕ → List OrderSnapshot → List ℕ
  filled qty [] = []
  filled qty (order ∷ orders) =
      let rest = filled (qty - order.qty) orders in
      if ltb 0 qty && crosses incoming_side incoming_price order.price && leb order.qty qty
      then order.order_id ∷ rest
      else []

unfoldable pub has_id : ℕ → List ℕ → Bool
has_id order_id [] = false
has_id order_id (key ∷ keys) = if key == order_id then true else has_id order_id keys
