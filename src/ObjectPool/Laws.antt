-- ===== src/ObjectPool/Laws.antt =====
-- The ownership of the slots of engine/memory/ObjectPool.hpp: each is free or held by one caller.
use event_driven_trading_sys.Base.{
  ℕ, zero, suc, ◌+◌, ◌-◌, ◌<◌, ◌≡◌, ◌⊎◌, refl, sym, ◌∙◌, ap, inl, inr, ◌==◌, ltb, if◌then◌else◌,
  List, [], ◌∷◌, none, some, arith, get_elem?-some, get_or-some, set, length, length-append,
  length-set, take, take-set, take-suc, take_all, Bool-cases, ==_iff,
}
use native.Mathlib.Numerals.{add-one}
use event_driven_trading_sys.PriceLevel.Laws.{
  occurs, occurs-append, remove_first, occurs-remove_first,
}
use event_driven_trading_sys.ObjectPool.{ObjectPool, all_slots, make, allocate, release}

-- `live` lists the pointers that callers hold. Every slot is on the stack or held, and only once.
pub record IsPool (p : ObjectPool) (live : List ℕ) : Type 0 where
  pub sized : length p.free_list ≡ p.capacity
  pub fits : p.top + length live ≡ p.capacity
  pub owned :
      (i : ℕ)
      → occurs i live + occurs i (take p.top p.free_list) ≡ (if ltb i p.capacity then 1 else 0)

length-all_slots : (n : ℕ) → length (all_slots n) ≡ n
unfolding all_slots
length-all_slots zero = refl
length-all_slots (suc n) = omega (arith, length-append (all_slots n) (n ∷ []), length-all_slots n)

occurs-all_slots : (n i : ℕ) → occurs i (all_slots n) ≡ (if ltb i n then 1 else 0)
unfolding all_slots
occurs-all_slots zero i = ground arith
occurs-all_slots (suc n) i =
    ground (arith, occurs-append i (all_slots n) (n ∷ []), occurs-all_slots n i)

whole : (n : ℕ) → take n (all_slots n) ≡ all_slots n
whole n = ap (λ k. take k (all_slots n)) (sym (length-all_slots n)) ∙ take_all (all_slots n)

length-remove_first :
    (x : ℕ) (xs : List ℕ) → 0 < occurs x xs → length (remove_first x xs) + 1 ≡ length xs
length-remove_first x [] h = absurd (omega arith)
length-remove_first x (y ∷ xs) h = ground (arith, length-remove_first x xs)

-- A new pool has every slot free.
pub make-IsPool : (n : ℕ) → IsPool (make n) []
unfolding make
make-IsPool n = record {
  sized = length-all_slots n;
  fits = omega arith;
  owned = λ i. omega (arith, ap (occurs i) (whole n), occurs-all_slots n i);
}

-- On a pool in which every slot is either free or held once, `allocate` answers null and counts it
-- when every slot is held; else it hands out a slot of the pool that no caller holds; the pool
-- stays such.
pub allocate-IsPool :
    (p : ObjectPool) (live : List ℕ)
    → IsPool p live
    → let r = allocate p in
      ((r.1 ≡ none)
        × (length live ≡ p.capacity)
        × IsPool r.0 live
        × (r.0.exhaustion_count ≡ p.exhaustion_count + 1))
      ⊎ ((x : ℕ) × (r.1 ≡ some x) × (x < p.capacity) × (occurs x live ≡ 0) × IsPool r.0 (x ∷ live))
unfolding allocate
allocate-IsPool p live v = elim (Bool-cases (p.top == 0)) [
  | inl z ↦ inl (
      rw z (
        refl,
        omega (arith, v.fits, (==_iff p.top 0).0 z),
        record { sized = v.sized; fits = v.fits; owned = v.owned },
        refl,
      ))
  | inr left ↦
      let t : ℕ = p.top - 1 in
      let some_left : p.top ≡ suc t = ground arith in
      let (x, there) = get_elem?-some p.free_list t (omega (arith, v.fits, v.sized)) in
      let split = ap (λ n. take n p.free_list) some_left ∙ take-suc p.free_list t x there in
      let counts : (i : ℕ)
          → occurs i (take p.top p.free_list) ≡ occurs i (take t p.free_list) + occurs i (x ∷ []) =
        λ i. ap (occurs i) split ∙ occurs-append i (take t p.free_list) (x ∷ []) in
      inr (
        x,
        rw left (ap some (get_or-some p.free_list t x 0 there)),
        ground (arith, counts x, v.owned x),
        ground (arith, counts x, v.owned x),
        rw left (record {
          sized = v.sized;
          fits = omega (arith, v.fits);
          owned = λ i. omega (arith, counts i, v.owned i);
        }),
      )
]

-- On a pool in which every slot is either free or held once, `release` of a held slot passes its
-- assertion and gives that slot back; the pool stays such.
pub release-IsPool :
    (p : ObjectPool) (live : List ℕ) (x : ℕ)
    → IsPool p live
    → 0 < occurs x live
    → (q : ObjectPool) × (release p x ≡ some q) × IsPool q (remove_first x live)
unfolding release
release-IsPool p live x v held = (
  record p { free_list = set p.free_list p.top x; top = p.top + 1 },
  ground (arith, room),
  record {
    sized = length-set p.free_list p.top x ∙ v.sized;
    fits = omega (arith, v.fits, fewer);
    owned = λ i. ground (
      arith,
      v.owned i,
      v.owned x,
      occurs-remove_first i x live,
      ap (occurs i) (
          ap (λ n. take n (set p.free_list p.top x)) (add-one p.top)
          ∙ take-set p.free_list p.top x room),
      occurs-append i (take p.top p.free_list) (x ∷ []),
    );
  },
)
  where
    fewer : length (remove_first x live) + 1 ≡ length live
    fewer = length-remove_first x live held

    room : p.top < length p.free_list
    room = omega (arith, v.fits, v.sized, fewer)
