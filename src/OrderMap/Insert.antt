-- ===== src/OrderMap/Insert.antt =====
-- engine/orderbook/FlatOrderMap.hpp, `insert`: what its write at the slot its loop picked does to a
-- well-formed table.
use event_driven_trading_sys.Base.{
  ℕ, ◌+◌, ◌<◌, ◌≡◌, refl, ap, ◌≢◌, inl, inr, true, false, none, some, arith, set, length, get_elem?,
  get_elem?-some,
}
use event_driven_trading_sys.OrderMap.{
  Slot, OrderMap, is_reserved, home, key_at, insert_loop, find_slot, find,
}
use event_driven_trading_sys.OrderMap.Probe.{
  home-lt, key_at-set, insert_loop-lt, insert_loop_free, find_loop-insert_loop,
}
use event_driven_trading_sys.OrderMap.Inv.{total, IsValid, find-none}
use event_driven_trading_sys.OrderMap.Write.{
  Inserted, cap_pos, within, old_key, slot_new, totals-written, written-IsValid, lookup_other,
}
use event_driven_trading_sys.OrderMap.Lookup.{found_at, lookup_if}

module _ {ℓ} {V : Type ℓ} {m : OrderMap V} (valid : IsValid m) (k p : ℕ) where
  abbrev inserted : V → OrderMap V
  inserted v = record m {
    table = set m.table p (record { key = k; value = v });
    count = m.count + 1;
  }

  insert_at_hit :
      (v : V)
      → is_reserved k ≡ false
      → p < length m.table
      → insert_loop m.table m.cap k m.cap (home m.cap k) ≡ some p
      → find_slot (inserted v) k ≡ some p
  unfolding find_slot
  insert_at_hit v r b e =
      rw r (
        find_loop-insert_loop m.table (inserted v).table m.cap k m.cap (home m.cap k) p same hit r
          e)
    where
      same : (i : ℕ) → p ≢ i → key_at (inserted v).table i ≡ key_at m.table i
      same i ne = ground (arith, key_at-set m.table p i (record { key = k; value = v }) b)

      hit : key_at (inserted v).table p ≡ k
      hit = ground (arith, key_at-set m.table p p (record { key = k; value = v }) b)

  insert_at_slot :
      (v : V) (old : Slot V)
      → is_reserved k ≡ false
      → find m k ≡ none
      → insert_loop m.table m.cap k m.cap (home m.cap k) ≡ some p
      → get_elem? m.table p ≡ some old
      → Inserted m k v (inserted v)
  insert_at_slot v old r absent e there = record {
    valid =
        written-IsValid m valid p old new (m.count + 1) there used
          (omega (arith, valid.counted, totals (λ _. 1))) apart (λ _. hit);
    cap_same = refl;
    count_up = refl;
    lookup = λ j.
        lookup_if m k j (inserted v) (some v)
          (found_at p (inserted v) k v hit (slot_new m valid p old new (m.count + 1) there used))
          (lookup_other m valid p old new (m.count + 1) there used k j (inl free) (inr refl));
    totals = totals;
  }
    where
      new : Slot V
      new = record { key = k; value = v }

      used : k ≢ 0
      used = ground arith

      free : is_reserved old.key ≡ true
      free = ground (
        arith,
        insert_loop_free m.table m.cap k m.cap (home m.cap k) p,
        old_key m valid p old new 0 there used,
      )

      hit : find_slot (inserted v) k ≡ some p
      hit = insert_at_hit v r (within m valid p old new 0 there used) e

      totals : (g : V → ℕ) → total g (inserted v) ≡ total g m + g v
      totals g = ground (arith, totals-written m valid p old new (m.count + 1) there used g, free)

      apart :
          (i : ℕ)
          → is_reserved (key_at m.table i) ≡ false
          → p ≢ i
          → (key_at m.table i ≢ old.key) × (key_at m.table i ≢ k)
      apart i live ne = (
        λ z. cc (free, live, ap is_reserved z),
        λ z. cc (find-none m k absent, valid.findable i live, ap (find_slot m) z),
      )

  -- `insert` writes the slot that its loop picked.
  pub insert_at-Inserted :
      (v : V)
      → is_reserved k ≡ false
      → find m k ≡ none
      → insert_loop m.table m.cap k m.cap (home m.cap k) ≡ some p
      → Inserted m k v (inserted v)
  insert_at-Inserted v r absent e =
      let (old, there) = get_elem?-some m.table p bound in insert_at_slot v old r absent e there
    where
      bound : p < length m.table
      bound =
          let pos = cap_pos valid in
          omega (
            arith,
            valid.sized,
            insert_loop-lt m.table m.cap k m.cap (home m.cap k) p pos (home-lt m.cap k pos) e,
          )
