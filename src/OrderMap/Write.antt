-- ===== src/OrderMap/Write.antt =====
-- One slot of the table of engine/orderbook/FlatOrderMap.hpp rewritten: what stays well formed, and
-- what each of the map's writes promises of the lookups, the count and the weights.
use event_driven_trading_sys.Base.{
  ℕ, ◌+◌, ◌<◌, ◌≡◌, refl, sym, ◌∙◌, subst, ◌≢◌, ◌⊎◌, inl, inr, true, false, ◌==◌, if◌then◌else◌,
  none, some, arith, set, length, length-set, get_elem?, get_elem?-set, sum_by-set, get_elem?-lt,
  Bool-cases, ℕ_discrete, one-le-pow,
}
use event_driven_trading_sys.OrderMap.{Slot, OrderMap, is_reserved, key_at, find_slot, find}
use event_driven_trading_sys.OrderMap.Probe.{key_at-set}
use event_driven_trading_sys.OrderMap.Inv.{
  weight, total, IsValid, find-reserved, write_findable, write-find,
}

module _ {ℓ} {V : Type ℓ} where
  pub record Inserted (m : OrderMap V) (k : ℕ) (v : V) (u : OrderMap V) : Type ℓ where
    pub valid : IsValid u
    pub cap_same : u.cap ≡ m.cap
    pub count_up : u.count ≡ m.count + 1
    pub lookup : (j : ℕ) → find u j ≡ (if k == j then some v else find m j)
    pub totals : (g : V → ℕ) → total g u ≡ total g m + g v

  pub record Erased (m : OrderMap V) (k : ℕ) (v : V) (u : OrderMap V) : Type ℓ where
    pub valid : IsValid u
    pub cap_same : u.cap ≡ m.cap
    pub count_down : u.count + 1 ≡ m.count
    pub lookup : (j : ℕ) → find u j ≡ (if k == j then none else find m j)
    pub totals : (g : V → ℕ) → total g u + g v ≡ total g m

  pub record Stored (m : OrderMap V) (k : ℕ) (v w : V) (u : OrderMap V) : Type ℓ where
    pub valid : IsValid u
    pub cap_same : u.cap ≡ m.cap
    pub count_same : u.count ≡ m.count
    pub lookup : (j : ℕ) → find u j ≡ (if k == j then some w else find m j)
    pub totals : (g : V → ℕ) → total g u + g v ≡ total g m + g w

  pub cap_pos : {m : OrderMap V} → IsValid m → 0 < m.cap
  cap_pos valid = omega (arith, one-le-pow valid.bits, valid.cap_pow)

-- A table slot rewritten in place.
module _ {ℓ} {V : Type ℓ} (m : OrderMap V) (valid : IsValid m) (p : ℕ) (old new : Slot V) (n : ℕ)
    (there : get_elem? m.table p ≡ some old) (used : new.key ≢ 0) where
  abbrev pub written : OrderMap V
  written = record m { table = set m.table p new; count = n }

  pub within : p < length m.table
  within = get_elem?-lt m.table p there

  pub old_key : key_at m.table p ≡ old.key
  unfolding key_at
  old_key = rw there

  pub new_key : key_at written.table p ≡ new.key
  new_key = ground (arith, key_at-set m.table p p new within)

  pub elsewhere : (i : ℕ) → p ≢ i → get_elem? written.table i ≡ get_elem? m.table i
  elsewhere i h = ground (arith, get_elem?-set m.table p i new within)

  pub slot_new : get_elem? written.table p ≡ some new
  slot_new = ground (arith, get_elem?-set m.table p p new within)

  pub totals-written : (g : V → ℕ) → total g written + weight g old ≡ total g m + weight g new
  unfolding total
  totals-written g = sum_by-set (weight g) m.table p new old there

  -- The table stays well formed if its new key is found, and no other order had it.
  pub written-IsValid :
      (n ≡ total (λ _. 1) written)
      → ((i : ℕ)
          → is_reserved (key_at m.table i) ≡ false
          → p ≢ i
          → (key_at m.table i ≢ old.key) × (key_at m.table i ≢ new.key))
      → (is_reserved new.key ≡ false → find_slot written new.key ≡ some p)
      → IsValid written
  written-IsValid counted apart hit = record {
    bits = valid.bits;
    cap_pow = valid.cap_pow;
    sized = length-set m.table p new ∙ valid.sized;
    counted = counted;
    findable = λ i r. elim (ℕ_discrete p i) [
      | yes e ↦ subst Hit e (λ r. rw new_key (hit (rw new_key at r))) r
      | no ne ↦
          let kept : is_reserved (key_at m.table i) ≡ false =
            ground (arith, r, key_at-set m.table p i new within) in
          let far = apart i kept ne in
          write_findable m written p refl elsewhere (λ z. used (sym new_key ∙ z)) i valid.findable
            ne r (λ z. far.0 (sym z ∙ old_key)) (λ z. far.1 (sym z ∙ new_key))
    ];
  }
    where
      Hit : ℕ → Type 0
      Hit i =
          is_reserved (key_at written.table i) ≡ false
          → find_slot written (key_at written.table i) ≡ some i

  pub lookup-written : (j : ℕ) → j ≢ old.key → j ≢ new.key → find written j ≡ find m j
  lookup-written j a b =
      write-find m written p refl elsewhere (λ z. used (sym new_key ∙ z)) j valid.findable
        (λ z. a (sym z ∙ old_key)) (λ z. b (sym z ∙ new_key))

  -- A write that concerns the order `k` alone leaves every other lookup as it was.
  pub lookup_other :
      (k j : ℕ)
      → (is_reserved old.key ≡ true) ⊎ (old.key ≡ k)
      → (is_reserved new.key ≡ true) ⊎ (new.key ≡ k)
      → k ≢ j
      → find written j ≡ find m j
  lookup_other k j a b ne = elim (Bool-cases (is_reserved j)) [
    | inl r ↦ rw (find-reserved written j r, find-reserved m j r)
    | inr r ↦ lookup-written j (λ z. ground arith) (λ z. ground arith)
  ]
