-- ===== src/OrderMap/Lookup.antt =====
-- engine/orderbook/FlatOrderMap.hpp, `find`: what a lookup answers from the slot where its loop ends.
use event_driven_trading_sys.Base.{
  ℕ, ◌≡◌, ap, ◌≢◌, false, ◌==◌, if◌then◌else◌, Option, none, some, arith, get_elem?, ℕ_discrete,
}
use event_driven_trading_sys.OrderMap.{OrderMap, is_reserved, key_at, find_slot, find, value_at}
use event_driven_trading_sys.OrderMap.Inv.{IsValid}

pub found_at {ℓ} :
    {V : Type ℓ} (p : ℕ) (u : OrderMap V) (k : ℕ) (v : V)
    → find_slot u k ≡ some p
    → get_elem? u.table p ≡ some (record { key = k; value = v })
    → find u k ≡ some v
unfolding find value_at
found_at p u k v e there = rw (e, there)

pub find_of_none {ℓ} :
    {V : Type ℓ} (u : OrderMap V) (k : ℕ) → find_slot u k ≡ none → find u k ≡ none
unfolding find
find_of_none u k e = rw e

pub lookup_if {ℓ} :
    {V : Type ℓ} (m : OrderMap V) (k j : ℕ) (u : OrderMap V) (o : Option V)
    → find u k ≡ o
    → (k ≢ j → find u j ≡ find m j)
    → find u j ≡ (if k == j then o else find m j)
lookup_if m k j u o here other = elim (ℕ_discrete k j) [
  | yes e ↦ rw (← e) (ground (arith, here))
  | no ne ↦ ground (arith, other ne)
]

module _ {ℓ} {V : Type ℓ} {m : OrderMap V} (valid : IsValid m) (k p : ℕ) where
  -- The order that a lookup finds stands in one slot only.
  pub apart_found :
      (i : ℕ)
      → find_slot m k ≡ some p
      → is_reserved (key_at m.table i) ≡ false
      → p ≢ i
      → key_at m.table i ≢ k
  apart_found i e r ne z = ne (cc (e, ap (find_slot m) z, valid.findable i r))
