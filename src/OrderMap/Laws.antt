-- ===== src/OrderMap/Laws.antt =====
-- engine/orderbook/FlatOrderMap.hpp, `erase` and the write through the pointer that `find` returned:
-- what they do to a well-formed table.
use event_driven_trading_sys.Base.{
  ℕ, ◌+◌, ◌-◌, ◌≡◌, refl, ◌∙◌, ap, subst, ◌≢◌, inl, inr, true, false, if◌then◌else◌, Option, none,
  some, arith, set, get_elem?, get_elem?-lt, Option-cases, ℕ_discrete,
}
use event_driven_trading_sys.OrderMap.{
  Slot, OrderMap, tombstone_key, is_reserved, home, key_at, find_slot, find, erase, store,
}
use event_driven_trading_sys.OrderMap.Probe.{key_at-set, find_loop-same_keys}
use event_driven_trading_sys.OrderMap.Inv.{total, IsValid, find_slot_key, find-some}
use event_driven_trading_sys.OrderMap.Write.{
  Erased, Stored, new_key, slot_new, totals-written, written-IsValid, lookup_other,
}
use event_driven_trading_sys.OrderMap.Lookup.{found_at, find_of_none, lookup_if, apart_found}

-- The writes at the slot where a lookup of `k` ends.
module _ {ℓ} {V : Type ℓ} {m : OrderMap V} (valid : IsValid m) (k p : ℕ) (v : V)
    (e : find_slot m k ≡ some p)
    (there : get_elem? m.table p ≡ some (record { key = k; value = v })) where
  abbrev stood : Slot V
  stood = record { key = k; value = v }

  live : is_reserved k ≡ false
  live = (find_slot_key m k p e).1

  live-ne-zero : k ≢ 0
  live-ne-zero z = ground (arith, live)

  abbrev buried : Slot V
  buried = record { key = tombstone_key; value = v }

  abbrev erased : OrderMap V
  erased = record m { table = set m.table p buried; count = m.count - 1 }

  totals-erased : (g : V → ℕ) → total g erased + g v ≡ total g m
  totals-erased g =
      ground (
        arith,
        live,
        totals-written m valid p stood buried (m.count - 1) there (λ z. ground arith) g,
      )

  erased_gone : find_slot erased k ≡ none
  erased_gone = elim (Option-cases (find_slot erased k)) [
    | inl gone ↦ gone
    | inr (q, f) ↦ absurd (elim (ℕ_discrete p q) [
      | yes z ↦ ground (
        arith,
        live,
        ap (key_at erased.table) z,
        find_slot_key erased k q f,
        new_key m valid p stood buried (m.count - 1) there (λ z. ground arith),
      )
      | no ne ↦ ground (
        arith,
        live,
        find_slot_key erased k q f,
        key_at-set m.table p q buried (get_elem?-lt m.table p there),
        apart_found valid k p q e,
      )
    ])
  ]

  erased-Erased : Erased m k v erased
  erased-Erased = record {
    valid =
        written-IsValid m valid p stood buried (m.count - 1) there (λ z. ground arith)
          (omega (arith, valid.counted, totals-erased (λ _. 1)))
          (λ i r ne. (apart_found valid k p i e r ne, λ z. ground arith)) (λ r. ground arith);
    cap_same = refl;
    count_down = omega (arith, valid.counted, totals-erased (λ _. 1));
    lookup = λ j. lookup_if m k j erased none (find_of_none erased k erased_gone) (
        lookup_other m valid p stood buried (m.count - 1) there (λ z. ground arith) k j (inr refl)
          (inl refl));
    totals = totals-erased;
  }

  module _ (w : V) where
    abbrev changed : Slot V
    changed = record { key = k; value = w }

    abbrev stored : OrderMap V
    stored = record m { table = set m.table p changed }

    totals-stored : (g : V → ℕ) → total g stored + g v ≡ total g m + g w
    totals-stored g =
        ground (arith, live, totals-written m valid p stood changed m.count there live-ne-zero g)

    same_key : (i : ℕ) → key_at stored.table i ≡ key_at m.table i
    same_key i = elim (ℕ_discrete p i) [
      | yes z ↦
          subst (λ i. key_at stored.table i ≡ key_at m.table i) z
            (ground (
              arith,
              key_at-set m.table p p changed (get_elem?-lt m.table p there),
              find_slot_key m k p e,
            ))
      | no ne ↦ ground (arith, key_at-set m.table p i changed (get_elem?-lt m.table p there))
    ]

    stored_hit : find_slot stored k ≡ some p
    unfolding find_slot
    stored_hit =
        ap (λ (o : Option ℕ). if is_reserved k then none else o)
          (find_loop-same_keys m.table stored.table m.cap k m.cap (home m.cap k) same_key)
        ∙ e

    stored-Stored : Stored m k v w stored
    stored-Stored = record {
      valid =
          written-IsValid m valid p stood changed m.count there live-ne-zero
            (omega (arith, valid.counted, totals-stored (λ _. 1)))
            (λ i r ne. (apart_found valid k p i e r ne, apart_found valid k p i e r ne))
            (λ r. stored_hit);
      cap_same = refl;
      count_same = refl;
      lookup = λ j.
          lookup_if m k j stored (some w)
            (found_at p stored k w stored_hit
              (slot_new m valid p stood changed m.count there live-ne-zero))
            (lookup_other m valid p stood changed m.count there live-ne-zero k j (inr refl)
              (inr refl));
      totals = totals-stored;
    }

module _ {ℓ} {V : Type ℓ} {m : OrderMap V} (valid : IsValid m) (k : ℕ) (v : V) where
  -- On a well-formed map, `erase` of a key that is there answers true, removes that order and no
  -- other, and leaves the map well formed with one order less.
  pub erase-Erased : find m k ≡ some v → ((erase m k).1 ≡ true) × Erased m k v (erase m k).0
  unfolding erase
  erase-Erased h =
      let (p, e, there) = find-some m k v h in ground (arith, erased-Erased valid k p v e there)

  -- On a well-formed map, a write through the pointer that `find` returned changes the value of
  -- that key and no other, and leaves the map well formed.
  pub store-Stored : (w : V) → find m k ≡ some v → Stored m k v w (store m k w)
  unfolding store
  store-Stored w h =
      let (p, e, there) = find-some m k v h in ground (arith, stored-Stored valid k p v e there w)
