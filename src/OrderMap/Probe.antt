-- ===== src/OrderMap/Probe.antt =====
-- The probe loops of engine/orderbook/FlatOrderMap.hpp, one table at a time and across a write.
use event_driven_trading_sys.Base.{
  ℕ, zero, suc, ◌+◌, ◌-◌, ◌≤◌, ◌<◌, ◌≡◌, refl, ◌≢◌, true, false, ◌==◌, if◌then◌else◌, List, [], ◌∷◌,
  none, some, arith, set, length, get_elem?, get_elem?-set, bit_and-le,
}
use event_driven_trading_sys.OrderMap.{
  Slot, is_reserved, probe, home, key_at, find_loop, insert_loop,
}

pub probe-lt : (size start : ℕ) → 0 < size → probe size start < size
unfolding probe
probe-lt size start h = omega (arith, bit_and-le (start + 1) (size - 1))

pub home-lt : (size key : ℕ) → 0 < size → home size key < size
unfolding home
home-lt size key h = omega (arith, bit_and-le key (size - 1))

module _ {ℓ} {V : Type ℓ} where
  pub key_at-set :
      (t : List (Slot V)) (i j : ℕ) (s : Slot V)
      → i < length t
      → key_at (set t i s) j ≡ (if i == j then s.key else key_at t j)
  unfolding key_at
  key_at-set t i j s h = ground (arith, get_elem?-set t i j s)

  get_elem?-ge : (t : List (Slot V)) (i : ℕ) → length t ≤ i → get_elem? t i ≡ none
  get_elem?-ge [] i h = refl
  get_elem?-ge (x ∷ t) zero h = absurd (omega arith)
  get_elem?-ge (x ∷ t) (suc i) h = get_elem?-ge t i (omega arith)

  -- A key beyond the table would read as empty.
  pub key_at-lt : (t : List (Slot V)) (i : ℕ) → key_at t i ≢ 0 → i < length t
  unfolding key_at
  key_at-lt t i h = ground (arith, get_elem?-ge t i)

  pub find_loop_key :
      (t : List (Slot V)) (size key n idx p : ℕ)
      → find_loop t size key n idx ≡ some p
      → (key_at t p ≡ key)
  unfolding find_loop
  find_loop_key t size key zero idx p h = cc
  find_loop_key t size key (suc n) idx p h =
      ground (arith, find_loop_key t size key n (probe size idx) p)

  pub find_loop-lt :
      (t : List (Slot V)) (size key n idx p : ℕ)
      → 0 < size
      → idx < size
      → find_loop t size key n idx ≡ some p
      → p < size
  unfolding find_loop
  find_loop-lt t size key zero idx p pos b h = ground arith
  find_loop-lt t size key (suc n) idx p pos b h =
      ground (arith, probe-lt size idx pos, find_loop-lt t size key n (probe size idx) p pos)

  pub insert_loop-lt :
      (t : List (Slot V)) (size key n idx p : ℕ)
      → 0 < size
      → idx < size
      → insert_loop t size key n idx ≡ some p
      → p < size
  unfolding insert_loop
  insert_loop-lt t size key zero idx p pos b h = ground arith
  insert_loop-lt t size key (suc n) idx p pos b h =
      ground (arith, probe-lt size idx pos, insert_loop-lt t size key n (probe size idx) p pos)

  -- `insert` takes a slot that holds no order.
  pub insert_loop_free :
      (t : List (Slot V)) (size key n idx p : ℕ)
      → insert_loop t size key n idx ≡ some p
      → is_reserved (key_at t p) ≡ true
  unfolding insert_loop
  insert_loop_free t size key zero idx p h = cc
  insert_loop_free t size key (suc n) idx p h =
      ground (arith, insert_loop_free t size key n (probe size idx) p)

  -- A key that is found stays found at its slot when another slot is written with another key, if
  -- that slot is not left empty.
  pub find_loop_keep :
      (t u : List (Slot V)) (size key n idx p s : ℕ)
      → ((i : ℕ) → p ≢ i → key_at u i ≡ key_at t i)
      → key_at t p ≢ key
      → key_at u p ≢ key
      → key_at u p ≢ 0
      → find_loop t size key n idx ≡ some s
      → find_loop u size key n idx ≡ some s
  unfolding find_loop
  find_loop_keep t u size key zero idx p s same a b c h = h
  find_loop_keep t u size key (suc n) idx p s same a b c h =
      ground (arith, same idx, find_loop_keep t u size key n (probe size idx) p s same a b c)

  -- What `insert` wrote, `find` meets on the same way.
  pub find_loop-insert_loop :
      (t u : List (Slot V)) (size key n idx p : ℕ)
      → ((i : ℕ) → p ≢ i → key_at u i ≡ key_at t i)
      → key_at u p ≡ key
      → is_reserved key ≡ false
      → insert_loop t size key n idx ≡ some p
      → find_loop u size key n idx ≡ some p
  unfolding find_loop insert_loop
  find_loop-insert_loop t u size key zero idx p same k r h = h
  find_loop-insert_loop t u size key (suc n) idx p same k r h = ground (
    arith,
    same idx,
    insert_loop_free t size key n (probe size idx) p,
    find_loop-insert_loop t u size key n (probe size idx) p same k r,
  )

  -- The search reads the keys only.
  pub find_loop-same_keys :
      (t u : List (Slot V)) (size key n idx : ℕ)
      → ((i : ℕ) → key_at u i ≡ key_at t i)
      → find_loop u size key n idx ≡ find_loop t size key n idx
  unfolding find_loop
  find_loop-same_keys t u size key zero idx same = refl
  find_loop-same_keys t u size key (suc n) idx same =
      rw (same idx, find_loop-same_keys t u size key n (probe size idx) same)
