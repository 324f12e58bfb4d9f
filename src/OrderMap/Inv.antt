-- ===== src/OrderMap/Inv.antt =====
-- The well-formedness of the table of engine/orderbook/FlatOrderMap.hpp, and what a write to one
-- slot leaves alone.
use event_driven_trading_sys.Base.{
  ℕ, suc, ◌^◌, ◌<◌, ◌≡◌, refl, sym, ◌∙◌, ap, ◌≢◌, inl, inr, true, false, if◌then◌else◌, List, [],
  ◌∷◌, none, some, arith, length, get_elem?, sum_by, Option-cases, dec_lt,
}
use event_driven_trading_sys.OrderMap.{
  Slot, OrderMap, is_reserved, home, key_of, key_at, find_slot, find, value_at, value_of,
}
use event_driven_trading_sys.OrderMap.Probe.{find_loop_key, find_loop_keep}

module _ {ℓ} {V : Type ℓ} where
  -- The weight of the orders in the table: an unused or erased slot has none.
  abbrev pub weight : (V → ℕ) → Slot V → ℕ
  weight g s = if is_reserved s.key then 0 else g s.value

  unfoldable pub total : (V → ℕ) → OrderMap V → ℕ
  total g m = sum_by (weight g) m.table

  -- Every key in the table is found at its own slot, so no key stands there twice.
  abbrev pub IsFindable : OrderMap V → Type 0
  IsFindable m =
      (i : ℕ) → is_reserved (key_at m.table i) ≡ false → find_slot m (key_at m.table i) ≡ some i

  pub record IsValid (m : OrderMap V) : Type 0 where
    pub bits : ℕ
    pub cap_pow : m.cap ≡ 2 ^ bits
    pub sized : length m.table ≡ m.cap
    pub counted : m.count ≡ total (λ _. 1) m
    pub findable : IsFindable m

  pub find_slot_key :
      (m : OrderMap V) (k p : ℕ)
      → find_slot m k ≡ some p
      → (key_at m.table p ≡ k) × (is_reserved k ≡ false)
  unfolding find_slot
  find_slot_key m k p h = ground (arith, find_loop_key m.table m.cap k m.cap (home m.cap k) p)

  -- The slot that a pointer from `find_slot` names.
  pub find_slot_elem :
      (m : OrderMap V) (k p : ℕ)
      → find_slot m k ≡ some p
      → (s : Slot V) × (get_elem? m.table p ≡ some s) × (s.key ≡ k) × (find m k ≡ some s.value)
  unfolding find value_at key_at
  find_slot_elem m k p h = elim (Option-cases (get_elem? m.table p)) [
    | inl e ↦ absurd (ground (arith, find_slot_key m k p h))
    | inr (s, e) ↦ (s, e, ground (arith, find_slot_key m k p h), ground arith)
  ]

  pub find-none : (m : OrderMap V) (k : ℕ) → find m k ≡ none → find_slot m k ≡ none
  find-none m k h = elim (Option-cases (find_slot m k)) [
    | inl e ↦ e
    | inr (p, e) ↦ let (s, _, _, f) = find_slot_elem m k p e in cc
  ]

  pub find-some :
      (m : OrderMap V) (k : ℕ) (v : V)
      → find m k ≡ some v
      → (p : ℕ) × (find_slot m k ≡ some p)
        × (get_elem? m.table p ≡ some (record { key = k; value = v }))
  unfolding find
  find-some m k v h = elim (Option-cases (find_slot m k)) [
    | inl e ↦ absurd (ground arith)
    | inr (p, e) ↦ let (s, a, b, c) = find_slot_elem m k p e in (p, e, ground arith)
  ]

  pub find-reserved : (m : OrderMap V) (k : ℕ) → is_reserved k ≡ true → find m k ≡ none
  unfolding find find_slot
  find-reserved m k h = ground arith

-- A write to the slot `p`: `u` has the slots of `m` elsewhere, and `p` is not left empty.
module _ {ℓ} {V : Type ℓ} (m u : OrderMap V) (p : ℕ) (cap_same : u.cap ≡ m.cap)
    (same : (i : ℕ) → p ≢ i → get_elem? u.table i ≡ get_elem? m.table i)
    (used : key_at u.table p ≢ 0) where
  same_keys : (i : ℕ) → p ≢ i → key_at u.table i ≡ key_at m.table i
  unfolding key_at
  same_keys i h = ap key_of (same i h)

  keep_slot :
      (j s : ℕ)
      → key_at m.table p ≢ j
      → key_at u.table p ≢ j
      → find_slot m j ≡ some s
      → find_slot u j ≡ some s
  unfolding find_slot
  keep_slot j s a b h =
      ground
        (arith, find_loop_keep m.table u.table m.cap j m.cap (home m.cap j) p s same_keys a b used)

  -- An order that stands elsewhere is still found at its slot.
  pub write_findable :
      (i : ℕ)
      → IsFindable m
      → p ≢ i
      → is_reserved (key_at u.table i) ≡ false
      → key_at m.table p ≢ key_at m.table i
      → key_at u.table p ≢ key_at m.table i
      → find_slot u (key_at u.table i) ≡ some i
  write_findable i f ne r a b =
      let e = same_keys i ne in rw e (keep_slot (key_at m.table i) i a b (f i (rw e at r)))

  -- Every other key is looked up as before.
  pub write-find :
      (j : ℕ) → IsFindable m → key_at m.table p ≢ j → key_at u.table p ≢ j → find u j ≡ find m j
  unfolding find value_at
  write-find j f a b = elim (Option-cases (find_slot m j)) [
    | inr (s, e) ↦
        let k = find_slot_key m j s e in
        let ne = λ (q : p ≡ s). a (ap (key_at m.table) q ∙ k.0) in
        rw (e, keep_slot j s a b e) (ap value_of (same s ne))
    | inl e ↦ elim (Option-cases (find_slot u j)) [
      | inl e' ↦ rw (e, e')
      | inr (s, e') ↦ absurd (missing s e e')
    ]
  ]
    where
      missing : (s : ℕ) → find_slot m j ≡ none → find_slot u j ≡ some s → ⊥
      missing s e e' =
          let k = find_slot_key u j s e' in
          let ne = λ (q : p ≡ s). b (ap (key_at u.table) q ∙ k.0) in
          let here = sym (same_keys s ne) ∙ k.0 in ground (arith, f s, here, k)

sum_by-pos {ℓ} :
    {A : Type ℓ} (f : A → ℕ) (xs : List A)
    → 0 < sum_by f xs
    → (i : ℕ) × (x : A) × (get_elem? xs i ≡ some x) × (0 < f x)
sum_by-pos f [] h = absurd (omega arith)
sum_by-pos f (x ∷ xs) h = elim (dec_lt 0 (f x)) [
  | yes p ↦ (0, x, refl, p)
  | no n ↦ let (i, y, e, p) = sum_by-pos f xs (omega arith) in (suc i, y, e, p)
]

-- A positive total comes from an order with a positive weight.
pub total-pos {ℓ} :
    {V : Type ℓ} (g : V → ℕ) (m : OrderMap V)
    → IsValid m
    → 0 < total g m
    → (k : ℕ) × (v : V) × (find m k ≡ some v) × (0 < g v)
unfolding total key_at
total-pos {V} g m valid h =
    let (i, s, there, p) = sum_by-pos (weight g) m.table h in
    (s.key, s.value, found s i there p, ground (arith, p))
  where
    found :
        (s : Slot V) (i : ℕ)
        → get_elem? m.table i ≡ some s
        → 0 < weight g s
        → find m s.key ≡ some s.value
    found s i there p =
        let live : is_reserved s.key ≡ false = ground (arith, p) in
        let key : key_at m.table i ≡ s.key = rw there in
        let (s', here, _, f) =
          find_slot_elem m s.key i (ground (arith, key, live, valid.findable i)) in
        ground (arith, here, there, f)
