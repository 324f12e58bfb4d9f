-- ===== src/OrderMap/Make.antt =====
-- engine/orderbook/FlatOrderMap.hpp, the constructor: the map it makes.
use event_driven_trading_sys.Base.{
  ℕ, zero, suc, ◌^◌, ◌≡◌, refl, sym, ap, inl, inr, none, arith, replicate, length-replicate,
  sum_by-replicate, Option-cases, Bool-cases,
}
use event_driven_trading_sys.OrderMap.{empty_key, is_reserved, key_at, find_slot, find, make}
use event_driven_trading_sys.OrderMap.Inv.{weight, total, IsValid, find_slot_key, find-reserved}
use event_driven_trading_sys.OrderMap.Lookup.{find_of_none}

key_at-replicate {ℓ} :
    {V : Type ℓ} (blank : V) (n i : ℕ)
    → key_at (replicate n (record { key = empty_key; value = blank })) i ≡ 0
unfolding key_at replicate
key_at-replicate blank zero i = refl
key_at-replicate blank (suc n) zero = refl
key_at-replicate blank (suc n) (suc i) = key_at-replicate blank n i

-- A map made with a capacity that is a power of two is well formed and empty.
pub make-IsValid {ℓ} : {V : Type ℓ} (blank : V) (bits : ℕ) → IsValid (make blank (2 ^ bits))
unfolding make total
make-IsValid blank bits = record {
  bits = bits;
  cap_pow = refl;
  sized = length-replicate (2 ^ bits) _;
  counted = sym (sum_by-replicate (weight (λ _. 1)) (2 ^ bits) _ refl);
  findable = λ i r. cc (r, ap is_reserved (key_at-replicate blank (2 ^ bits) i));
}

-- ... and no order is found in it.
pub find-make {ℓ} : {V : Type ℓ} (blank : V) (n k : ℕ) → find (make blank n) k ≡ none
unfolding make
find-make blank n k = elim (Bool-cases (is_reserved k)) [
  | inl r ↦ find-reserved (make blank n) k r
  | inr r ↦ elim (Option-cases (find_slot (make blank n) k)) [
    | inl e ↦ find_of_none (make blank n) k e
    | inr (p, e) ↦
        absurd (ground (arith, r, find_slot_key (make blank n) k p e, key_at-replicate blank n p))
  ]
]

pub total-make {ℓ} : {V : Type ℓ} (blank : V) (n : ℕ) (g : V → ℕ) → total g (make blank n) ≡ 0
unfolding make total
total-make blank n g = sum_by-replicate (weight g) n _ refl
