-- ===== src/Pooled/State.antt =====
-- The private types of class PooledOrderBook, its index and its maps of levels.
use orda_book.Prelude.{ℕ, ◌==◌, if◌then◌else◌, Bool, false, Option, none, some, List, [], ◌∷◌}
use orda_book.Prelude.Int.{pos, eqb_ℤ}
use orda_book.Types.{Price, Side, bid, ask, EngineStats}
use orda_book.Engine.{ahead}

-- An index into the slots; 0 is no slot.
abbrev pub SlotIndex : Type 0
SlotIndex = ℕ

pub record OrderSlot : Type 0 where
  pub order_id : ℕ
  pub side : Side
  pub price : Price
  pub qty : ℕ
  pub prev : SlotIndex
  pub next : SlotIndex
  pub free_next : SlotIndex
  pub live : Bool

abbrev pub new_slot : OrderSlot
new_slot = record {
  order_id = 0;
  side = bid;
  price = pos 0;
  qty = 0;
  prev = 0;
  next = 0;
  free_next = 0;
  live = false;
}

-- The vector of slots. The code reads and writes only slots that `reserve_orders` has made.
abbrev pub SlotArray : Type 0
SlotArray = SlotIndex → OrderSlot

-- slots_[slot] = value
unfoldable pub write : SlotIndex → OrderSlot → SlotArray → SlotArray
write slot value slots = λ index. if index == slot then value else slots index

-- A level counts at most the slots there are, which is below 2 ^ 32, so its counter does not wrap.
pub record PriceLevel : Type 0 where
  pub price : Price
  pub total_qty : ℕ
  pub head : SlotIndex
  pub tail : SlotIndex
  pub order_count : ℕ

-- slots_ and free_head_
pub record Pool : Type 0 where
  pub slots : SlotArray
  pub free_head : SlotIndex

abbrev pub SlotMap : Type 0
SlotMap = List (ℕ × SlotIndex)

pub record PooledOrderBook : Type 0 where
  pub bids : List PriceLevel
  pub asks : List PriceLevel
  pub pool : Pool
  pub order_index : SlotMap
  pub stats : EngineStats

abbrev pub side_levels : Side → PooledOrderBook → List PriceLevel
side_levels bid book = book.bids
side_levels ask book = book.asks

abbrev pub with_levels : Side → List PriceLevel → PooledOrderBook → PooledOrderBook
with_levels bid levels book = record book { bids = levels }
with_levels ask levels book = record book { asks = levels }

-- order_index_.find, erase and emplace
unfoldable pub find_slot : ℕ → SlotMap → Option SlotIndex
find_slot order_id [] = none
find_slot order_id ((key, slot) ∷ index) =
    if key == order_id then some slot else find_slot order_id index

unfoldable pub erase_slot : ℕ → SlotMap → SlotMap
erase_slot order_id [] = []
erase_slot order_id ((key, slot) ∷ index) =
    if key == order_id then erase_slot order_id index else (key, slot) ∷ erase_slot order_id index

unfoldable pub emplace_slot : ℕ → SlotIndex → SlotMap → SlotMap
emplace_slot order_id slot index = elim (find_slot order_id index) [
  | some _ ↦ index
  | none ↦ (order_id, slot) ∷ index
]

-- The std::map of a side: `find`, `try_emplace` with the price that `ensure_level` gives, a write
-- through a reference, and `erase`.
unfoldable pub find_level : Price → List PriceLevel → Option PriceLevel
find_level price [] = none
find_level price (level ∷ levels) =
    if eqb_ℤ level.price price then some level else find_level price levels

abbrev pub empty_level : Price → PriceLevel
empty_level price = record { price = price; total_qty = 0; head = 0; tail = 0; order_count = 0 }

unfoldable pub ensure_level : Side → Price → List PriceLevel → List PriceLevel
ensure_level side price [] = empty_level price ∷ []
ensure_level side price (level ∷ levels) =
    if eqb_ℤ level.price price
    then level ∷ levels
    else if ahead side level.price price
    then level ∷ ensure_level side price levels
    else empty_level price ∷ level ∷ levels

unfoldable pub update_level : Price → PriceLevel → List PriceLevel → List PriceLevel
update_level price changed [] = []
update_level price changed (level ∷ levels) =
    if eqb_ℤ level.price price then changed ∷ levels else level ∷ update_level price changed levels

unfoldable pub erase_level : Price → List PriceLevel → List PriceLevel
erase_level price [] = []
erase_level price (level ∷ levels) =
    if eqb_ℤ level.price price then levels else level ∷ erase_level price levels
