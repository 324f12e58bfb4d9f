-- ===== src/OrderMap.antt =====
-- engine/orderbook/FlatOrderMap.hpp: the open-addressing hash map from order ids to entries.
-- The table is the vector of slots; a pointer into it is the index of its slot. The map has a
-- capacity fixed at construction, and the probe loops make at most `cap` rounds.
pub mod Probe
pub mod Inv
pub mod Write
pub mod Lookup
pub mod Insert
pub mod Laws
pub mod Make
pub mod Total
use event_driven_trading_sys.Base.{
  ℕ, zero, suc, ◌+◌, ◌-◌, ◌*◌, bit_and, Bool, true, false, ◌||◌, ◌==◌, leb, if◌then◌else◌, List,
  Option, none, some, get_elem?, set, replicate, u64_mod,
}

pub record Slot {ℓ} (V : Type ℓ) : Type ℓ where
  pub key : ℕ
  pub value : V

-- The key of an unused slot, and that of an erased one (`UINT64_MAX`).
abbrev pub empty_key : ℕ
empty_key = 0

abbrev pub tombstone_key : ℕ
tombstone_key = u64_mod - 1

-- The keys that no order may have.
abbrev pub is_reserved : ℕ → Bool
is_reserved k = k == empty_key || k == tombstone_key

pub record OrderMap {ℓ} (V : Type ℓ) : Type ℓ where
  pub table : List (Slot V)
  pub count : ℕ
  pub cap : ℕ

-- `(start + 1) & (cap_ - 1)`, and the first index of a key. The loops run only if `0 < cap_`, so
-- the mask does not wrap.
unfoldable pub probe : ℕ → ℕ → ℕ
probe size start = bit_and (start + 1) (size - 1)

unfoldable pub home : ℕ → ℕ → ℕ
home size key = bit_and key (size - 1)

module _ {ℓ} {V : Type ℓ} where
  abbrev pub key_of : Option (Slot V) → ℕ
  key_of none = empty_key
  key_of (some s) = s.key

  -- `table_[i].key`
  unfoldable pub key_at : List (Slot V) → ℕ → ℕ
  key_at t i = key_of (get_elem? t i)

  -- The constructor fills the table with `{EMPTY_KEY, {}}`.
  unfoldable pub make : V → ℕ → OrderMap V
  make blank capacity = record {
    table = replicate capacity (record { key = empty_key; value = blank });
    count = 0;
    cap = capacity;
  }

  -- The loop of `find` and `erase`, with the rounds left and the index: where the key stands.
  unfoldable pub find_loop : List (Slot V) → ℕ → ℕ → ℕ → ℕ → Option ℕ
  find_loop t size key zero idx = none
  find_loop t size key (suc n) idx =
      let rest = find_loop t size key n (probe size idx) in
      if key_at t idx == empty_key then none else if key_at t idx == key then some idx else rest

  -- The loop of `insert`: the slot that takes the key.
  unfoldable pub insert_loop : List (Slot V) → ℕ → ℕ → ℕ → ℕ → Option ℕ
  insert_loop t size key zero idx = none
  insert_loop t size key (suc n) idx =
      let rest = insert_loop t size key n (probe size idx) in
      if is_reserved (key_at t idx) then some idx else if key_at t idx == key then none else rest

  -- `find` returns a pointer to the value in the table, or null.
  unfoldable pub find_slot : OrderMap V → ℕ → Option ℕ
  find_slot m key =
      if is_reserved key then none else find_loop m.table m.cap key m.cap (home m.cap key)

  abbrev pub value_of : Option (Slot V) → Option V
  value_of none = none
  value_of (some s) = some s.value

  -- What such a pointer points at.
  unfoldable pub value_at : OrderMap V → ℕ → Option V
  value_at m i = value_of (get_elem? m.table i)

  abbrev pub read_through : OrderMap V → Option ℕ → Option V
  read_through m none = none
  read_through m (some i) = value_at m i

  unfoldable pub find : OrderMap V → ℕ → Option V
  find m key = read_through m (find_slot m key)

  abbrev put_at : OrderMap V → ℕ → V → Option ℕ → OrderMap V × Bool
  put_at m key value none = (m, false)
  put_at m key value (some i) = (
    record m { table = set m.table i (record { key = key; value = value }); count = m.count + 1 },
    true,
  )

  unfoldable pub insert : OrderMap V → ℕ → V → OrderMap V × Bool
  insert m key value =
      if is_reserved key
      then (m, false)
      else if leb m.cap (m.count * 2)
      then (m, false)
      else put_at m key value (insert_loop m.table m.cap key m.cap (home m.cap key))

  abbrev bury : List (Slot V) → ℕ → Option (Slot V) → List (Slot V)
  bury t i none = t
  bury t i (some s) = set t i (record s { key = tombstone_key })

  abbrev erase_at : OrderMap V → Option ℕ → OrderMap V × Bool
  erase_at m none = (m, false)
  erase_at m (some i) =
      (record m { table = bury m.table i (get_elem? m.table i); count = m.count - 1 }, true)

  unfoldable pub erase : OrderMap V → ℕ → OrderMap V × Bool
  unfolding find_slot
  erase m key = erase_at m (find_slot m key)

  abbrev overwrite : List (Slot V) → ℕ → V → Option (Slot V) → List (Slot V)
  overwrite t i v none = t
  overwrite t i v (some s) = set t i (record s { value = v })

  abbrev store_at : OrderMap V → V → Option ℕ → OrderMap V
  store_at m v none = m
  store_at m v (some i) = record m { table = overwrite m.table i v (get_elem? m.table i) }

  -- A write through the pointer that `find` returned.
  unfoldable pub store : OrderMap V → ℕ → V → OrderMap V
  store m key v = store_at m v (find_slot m key)
