-- ===== src/Pooled/Keys.antt =====
-- The index of src/pooled_order_book.cpp beside that of src/order_book.cpp: the same keys under
-- `find`, `erase` and `emplace`.
use orda_book.Prelude.{
  ℕ, ◌==◌, ◌≡◌, ◌≢◌, refl, ap, if◌then◌else◌, Bool, false, ◌||◌, none, some, List, [], ◌∷◌, All,
  ==_iff, ◌∙◌, Bool-cases, Option-cases, inl, inr, arith,
}
use orda_book.OrderBook.State.{
  OrderIndex, find_location, erase_location, emplace_location, OrderLocation,
}
use orda_book.Pooled.State.{SlotIndex, SlotMap, find_slot, erase_slot, emplace_slot}
use orda_book.Pooled.Linked.{Cell}

abbrev pub slot_keys : SlotMap → List ℕ
slot_keys [] = []
slot_keys ((key, slot) ∷ index) = key ∷ slot_keys index

abbrev pub location_keys : OrderIndex → List ℕ
location_keys [] = []
location_keys ((key, location) ∷ index) = key ∷ location_keys index

has_key : ℕ → List ℕ → Bool
has_key id [] = false
has_key id (key ∷ keys) = key == id || has_key id keys

drop_key : ℕ → List ℕ → List ℕ
drop_key id [] = []
drop_key id (key ∷ keys) = if key == id then drop_key id keys else key ∷ drop_key id keys

slot_keys-erase_slot :
    (id : ℕ) (index : SlotMap) → slot_keys (erase_slot id index) ≡ drop_key id (slot_keys index)
unfolding erase_slot drop_key
slot_keys-erase_slot id [] = refl
slot_keys-erase_slot id ((key, slot) ∷ index) = ground (arith, slot_keys-erase_slot id index)

location_keys-erase_location :
    (id : ℕ) (index : OrderIndex)
    → location_keys (erase_location id index) ≡ drop_key id (location_keys index)
unfolding erase_location drop_key
location_keys-erase_location id [] = refl
location_keys-erase_location id ((key, l) ∷ index) =
    ground (arith, location_keys-erase_location id index)

pub erase_keys :
    (id : ℕ) (p : SlotMap) (b : OrderIndex)
    → slot_keys p ≡ location_keys b
    → slot_keys (erase_slot id p) ≡ location_keys (erase_location id b)
erase_keys id p b e = rw (slot_keys-erase_slot id p, location_keys-erase_location id b, e) refl

find_slot-has_key :
    (id : ℕ) (index : SlotMap) → find_slot id index ≡ none → has_key id (slot_keys index) ≡ false
unfolding find_slot has_key
find_slot-has_key id [] h = refl
find_slot-has_key id ((key, slot) ∷ index) h = ground (arith, find_slot-has_key id index)

has_key-find_slot :
    (id : ℕ) (index : SlotMap) → has_key id (slot_keys index) ≡ false → find_slot id index ≡ none
unfolding find_slot has_key
has_key-find_slot id [] h = refl
has_key-find_slot id ((key, slot) ∷ index) h = ground (arith, has_key-find_slot id index)

find_location-has_key :
    (id : ℕ) (index : OrderIndex)
    → find_location id index ≡ none
    → has_key id (location_keys index) ≡ false
unfolding find_location has_key
find_location-has_key id [] h = refl
find_location-has_key id ((key, l) ∷ index) h = ground (arith, find_location-has_key id index)

has_key-find_location :
    (id : ℕ) (index : OrderIndex)
    → has_key id (location_keys index) ≡ false
    → find_location id index ≡ none
unfolding find_location has_key
has_key-find_location id [] h = refl
has_key-find_location id ((key, l) ∷ index) h = ground (arith, has_key-find_location id index)

-- An id is missing from both indexes or from neither.
pub find_none :
    (id : ℕ) (p : SlotMap) (b : OrderIndex)
    → slot_keys p ≡ location_keys b
    → find_slot id p ≡ none
    → find_location id b ≡ none
find_none id p b e h = has_key-find_location id b (rw e at (find_slot-has_key id p h))

pub find_some :
    (id : ℕ) (p : SlotMap) (b : OrderIndex) (i : SlotIndex)
    → slot_keys p ≡ location_keys b
    → find_slot id p ≡ some i
    → (l : OrderLocation) × (find_location id b ≡ some l)
find_some id p b i e h = elim (Option-cases (find_location id b)) [
  | inr f ↦ f
  | inl n ↦
      let m : find_slot id p ≡ none =
        has_key-find_slot id p (rw (← e) at (find_location-has_key id b n)) in
      absurd (cc)
]

pub emplace_keys :
    (id : ℕ) (i : SlotIndex) (l : OrderLocation) (p : SlotMap) (b : OrderIndex)
    → slot_keys p ≡ location_keys b
    → find_slot id p ≡ none
    → slot_keys (emplace_slot id i p) ≡ location_keys (emplace_location id l b)
unfolding emplace_slot emplace_location
emplace_keys id i l p b e h =
    rw (h, emplace_slot) (rw (find_none id p b e h, emplace_location) (ap (◌∷◌ id) e))

pub find-erase_slot :
    (j id : ℕ) (index : SlotMap)
    → find_slot j (erase_slot id index) ≡ (if id == j then none else find_slot j index)
unfolding find_slot erase_slot
find-erase_slot j id [] = ground arith
find-erase_slot j id ((key, i) ∷ index) = ground (arith, find-erase_slot j id index)

pub find-emplace_slot :
    (j id : ℕ) (i : SlotIndex) (index : SlotMap)
    → find_slot id index ≡ none
    → find_slot j (emplace_slot id i index) ≡ (if id == j then some i else find_slot j index)
unfolding emplace_slot find_slot
find-emplace_slot j id i index h = rw (h, emplace_slot) refl

-- The index has each cell's order at the cell's slot.
abbrev pub Indexed : SlotMap → List Cell → Type 0
Indexed index = All (λ c. find_slot c.order.order_id index ≡ some c.slot)

pub Indexed-frame :
    (p p' : SlotMap) (cs : List Cell)
    → All (λ c. find_slot c.order.order_id p' ≡ find_slot c.order.order_id p) cs
    → Indexed p cs
    → Indexed p' cs
Indexed-frame p p' [] f h = tt
Indexed-frame p p' (c ∷ cs) (e, f) (h, hs) = (rw e h, Indexed-frame p p' cs f hs)

pub Indexed-erase_slot :
    (id : ℕ) (p : SlotMap) (cs : List Cell)
    → All (λ c. c.order.order_id ≢ id) cs
    → Indexed p cs
    → Indexed (erase_slot id p) cs
Indexed-erase_slot id p [] n h = tt
Indexed-erase_slot id p (c ∷ cs) (n, ns) (h, hs) =
    let e = find-erase_slot c.order.order_id id p in
    (ground (arith, e), Indexed-erase_slot id p cs ns hs)

pub Indexed-emplace :
    (id : ℕ) (i : SlotIndex) (p : SlotMap) (cs : List Cell)
    → find_slot id p ≡ none
    → Indexed p cs
    → Indexed (emplace_slot id i p) cs
Indexed-emplace id i p [] n h = tt
Indexed-emplace id i p (c ∷ cs) n (h, hs) =
    let e = find-emplace_slot c.order.order_id id i p n in
    (
      elim (Bool-cases (id == c.order.order_id)) [
        | inl t ↦
            let q = (==_iff id c.order.order_id).0 t in
            let z : find_slot id p ≡ find_slot c.order.order_id p = ap (λ k. find_slot k p) q in
            absurd (cc)
        | inr f ↦ e ∙ rw f h
      ],
      Indexed-emplace id i p cs n hs,
    )
