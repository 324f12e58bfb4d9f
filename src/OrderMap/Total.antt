-- ===== src/OrderMap/Total.antt =====
-- `insert` of engine/orderbook/FlatOrderMap.hpp below the load factor: with a capacity that is a
-- power of two the probe visits every slot, so it meets a free one.
use event_driven_trading_sys.Base.{
  ℕ, zero, suc, ◌+◌, ◌-◌, ◌*◌, ◌%◌, ◌^◌, ◌<◌, ◌≡◌, ◌∙◌, ap, subst, inl, inr, true, false, ◌||◌, ◌⊎◌,
  Bool-cases, leb, List, none, some, arith, get_elem?, get_elem?-lt, sum_by-ones, Option-cases,
  dec_lt, one-le-pow, bit_and_mask,
}
use native.Mathlib.Nat.{mod-add-mod, mod-eq_of_lt, mod-eq-sub-mod}
use event_driven_trading_sys.OrderMap.{
  Slot, OrderMap, is_reserved, probe, home, key_at, find_loop, insert_loop, find_slot, find, insert,
}
use event_driven_trading_sys.OrderMap.Probe.{home-lt, probe-lt}
use event_driven_trading_sys.OrderMap.Inv.{total, weight, IsValid, find-none}
use event_driven_trading_sys.OrderMap.Write.{Inserted, cap_pos}
use event_driven_trading_sys.OrderMap.Insert.{insert_at-Inserted}

probe-mod : (bits start : ℕ) → probe (2 ^ bits) start ≡ (start + 1) % 2 ^ bits
unfolding probe
probe-mod bits start = bit_and_mask bits (start + 1)

round_trip : (size i s : ℕ) → i < size → s < size → (d : ℕ) × (d < size) × ((i + d) % size ≡ s)
round_trip size i s hi hs = elim (dec_lt s i) [
  | yes h ↦ (s + size - i, omega arith, wrapped (omega arith))
  | no h ↦ (s - i, omega arith, straight (omega arith))
]
  where
    straight : {n : ℕ} → n ≡ s → n % size ≡ s
    straight e = omega (arith, ap (λ (x : ℕ). x % size) e, mod-eq_of_lt hs)

    back : s + size - size ≡ s
    back = omega arith

    wrapped : {n : ℕ} → n ≡ s + size → n % size ≡ s
    wrapped {n} e = omega (
      arith,
      ap (λ (x : ℕ). x % size) e,
      mod-eq-sub-mod {n = s + size} {m = size} (omega arith),
      ap (λ (x : ℕ). x % size) back,
      mod-eq_of_lt hs,
    )

here : (i size : ℕ) → i < size → (i + 0) % size ≡ i
here i size h = omega (arith, mod-eq_of_lt h, ap (λ (x : ℕ). x % size) plain)
  where
    plain : i + 0 ≡ i
    plain = omega arith

next_position : (bits i d : ℕ) → (i + suc d) % 2 ^ bits ≡ (probe (2 ^ bits) i + d) % 2 ^ bits
next_position bits i d = rw (probe-mod, mod-add-mod) (ap (λ (x : ℕ). x % 2 ^ bits) (omega arith))

next_position_at :
    (bits size i d : ℕ) → size ≡ 2 ^ bits → (i + suc d) % size ≡ (probe size i + d) % size
next_position_at bits size i d e = rw e (next_position bits i d)

-- If neither loop finds anything, every slot on the way holds an order.
all_taken {ℓ} :
    {V : Type ℓ} (t : List (Slot V)) (bits size key n idx d : ℕ)
    → size ≡ 2 ^ bits
    → idx < size
    → insert_loop t size key n idx ≡ none
    → find_loop t size key n idx ≡ none
    → d < n
    → is_reserved (key_at t ((idx + d) % size)) ≡ false
unfolding insert_loop find_loop
all_taken t bits size key zero idx d pw b i f h = absurd (omega arith)
all_taken t bits size key (suc n) idx zero pw b i f h =
    ground (arith, ap (key_at t) (here idx size b))
all_taken t bits size key (suc n) idx (suc d) pw b i f h = ground (
  arith,
  ap (key_at t) (next_position_at bits size idx d pw),
  probe-lt size idx (omega (arith, one-le-pow bits)),
  all_taken t bits size key n (probe size idx) d,
)

-- A probe that finds no free slot and no `k` has seen an order in every slot.
taken_everywhere {ℓ} :
    {V : Type ℓ} {m : OrderMap V} (valid : IsValid m) (k : ℕ)
    → is_reserved k ≡ false
    → find m k ≡ none
    → insert_loop m.table m.cap k m.cap (home m.cap k) ≡ none
    → total (λ _. 1) m ≡ m.cap
unfolding total find_slot key_at
taken_everywhere {V} {m} valid k r absent e =
    sum_by-ones (weight (λ _. 1)) m.table each ∙ valid.sized
  where
    missed : find_loop m.table m.cap k m.cap (home m.cap k) ≡ none
    missed = ground (arith, r, find-none m k absent)

    taken : (i : ℕ) → i < m.cap → is_reserved (key_at m.table i) ≡ false
    taken i h =
        let (d, below, at) =
          round_trip m.cap (home m.cap k) i (home-lt m.cap k (cap_pos valid)) h in
        subst (λ j. is_reserved (key_at m.table j) ≡ false) at
          (all_taken m.table valid.bits m.cap k m.cap (home m.cap k) d valid.cap_pow
            (home-lt m.cap k (cap_pos valid)) e missed below)

    each : (i : ℕ) (x : Slot V) → get_elem? m.table i ≡ some x → weight (λ _. 1) x ≡ 1
    each i x there =
        ground (arith, there, taken i (omega (arith, valid.sized, get_elem?-lt m.table i there)))

-- On a well-formed map below its load factor, tombstones included, `insert` of a new key that is
-- not reserved finds a slot, answers true, adds that order and changes no other.
pub insert-Inserted {ℓ} :
    {V : Type ℓ} {m : OrderMap V} (k : ℕ) (v : V)
    → IsValid m
    → is_reserved k ≡ false
    → find m k ≡ none
    → m.count * 2 < m.cap
    → ((insert m k v).1 ≡ true) × Inserted m k v (insert m k v).0
unfolding insert
insert-Inserted {m} k v valid r absent load =
    elim (Option-cases (insert_loop m.table m.cap k m.cap (home m.cap k))) [
      | inl e ↦ absurd (omega (arith, valid.counted, taken_everywhere valid k r absent e))
      | inr (p, e) ↦ ground (arith, insert_at-Inserted valid k p v r absent e)
    ]

refused {ℓ} :
    {V : Type ℓ} {m : OrderMap V} (k : ℕ) (v : V)
    → (is_reserved k || leb m.cap (m.count * 2)) ≡ true
    → insert m k v ≡ (m, false)
unfolding insert
refused k v e = ground arith

-- `insert` of a new key refuses a reserved key and a table at the load factor, and leaves the table
-- alone then; otherwise it inserts.
pub insert_cases {ℓ} :
    {V : Type ℓ} {m : OrderMap V} (k : ℕ) (v : V)
    → IsValid m
    → find m k ≡ none
    → (((is_reserved k || leb m.cap (m.count * 2)) ≡ true) × (insert m k v ≡ (m, false)))
      ⊎ (((is_reserved k || leb m.cap (m.count * 2)) ≡ false)
          × ((insert m k v).1 ≡ true)
          × Inserted m k v (insert m k v).0)
insert_cases {m} k v valid absent = elim (Bool-cases (is_reserved k || leb m.cap (m.count * 2))) [
  | inl e ↦ inl (e, refused k v e)
  | inr e ↦
      let done = insert-Inserted k v valid (ground (arith, e)) absent (ground (arith, e)) in
      inr (e, done.0, done.1)
]
