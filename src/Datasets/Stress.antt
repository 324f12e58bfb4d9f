-- ===== src/Datasets/Stress.antt =====
-- The array of resting orders in the stress dataset of benchmarks/datasets/gen_datasets.cpp: it holds
-- orders that were written and not cancelled.
use native.Mathlib.Nat.{mod-lt}
use event_driven_trading_sys.Base.{
  ℕ, ◌+◌, ◌-◌, ◌≤◌, ◌<◌, ◌≡◌, refl, sym, ◌∙◌, ◌⊎◌, ==_iff, inl, inr, Bool, true, false, ◌==◌, ltb,
  if◌then◌else◌, Bool-cases, List, [], ◌∷◌, arith,
}
use event_driven_trading_sys.Events.{Event, event_type, new_order, cancel_order}
use event_driven_trading_sys.Datasets.{
  StressState, window, set_resting, drawn_index, cancel_round, order_round,
}

abbrev pub mark : ℕ → Bool → (ℕ → Bool) → ℕ → Bool
mark id b live x = if id == x then b else live x

-- New orders with ids that count up, and cancels of orders that are live: those that came before and
-- were not cancelled since.
abbrev pub AllLive : ℕ → (ℕ → Bool) → List Event → Type 0
AllLive oid live [] = Unit
AllLive oid live (e ∷ es) =
    ((event_type e ≡ new_order)
      × (e.order_id ≡ oid)
      × AllLive (oid + 1) (mark e.order_id true live) es)
    ⊎ ((event_type e ≡ cancel_order)
        × (live e.order_id ≡ true)
        × AllLive oid (mark e.order_id false live) es)

abbrev pub none_live : ℕ → Bool
none_live x = false

-- The array holds live orders, each once.
pub record IsStress (live : ℕ → Bool) (s : StressState) : Type 0 where
  pub room : s.n_resting ≤ window
  pub listed : (j : ℕ) → j < s.n_resting → live (s.resting j) ≡ true
  pub once : (i j : ℕ) → i < s.n_resting → j < s.n_resting → s.resting i ≡ s.resting j → i ≡ j
  pub earlier : (j : ℕ) → j < s.n_resting → s.resting j < s.oid

module _ (rng : ℕ → ℕ) (live : ℕ → Bool) (s : StressState) (v : IsStress live s) where
  pub index-range : 0 < s.n_resting → drawn_index rng s < s.n_resting
  index-range h = mod-lt (rng s.draws) h

  -- Where the entries come from when the last one takes the place of the drawn one.
  moved : ℕ → ℕ
  moved j = if drawn_index rng s == j then s.n_resting - 1 else j

  resting-cancel_round : (j : ℕ) → (cancel_round rng s).resting j ≡ s.resting (moved j)
  unfolding cancel_round moved
  resting-cancel_round j = elim (Bool-cases (drawn_index rng s == j)) [
    | inl e ↦ rw e refl
    | inr e ↦ rw e refl
  ]

  moved-range :
      (j : ℕ)
      → j < s.n_resting - 1
      → (moved j < s.n_resting) × ((drawn_index rng s == moved j) ≡ false)
  unfolding moved
  moved-range j h = (ground (arith, h), ground (arith, h))

  moved_once : (i j : ℕ) → i < s.n_resting - 1 → j < s.n_resting - 1 → moved i ≡ moved j → i ≡ j
  unfolding moved
  moved_once i j hi hj e = ground (arith, hi, hj, e)

  still_live :
      0 < s.n_resting
      → (k : ℕ) → (k < s.n_resting) × ((drawn_index rng s == k) ≡ false)
      → mark (s.resting (drawn_index rng s)) false live (s.resting k) ≡ true
  still_live h k (small, other) = elim (Bool-cases (s.resting (drawn_index rng s) == s.resting k)) [
    | inl e ↦ absurd (
        ground
          (arith, other, v.once (drawn_index rng s) k (index-range h) small ((==_iff _ _).0 e)))
    | inr e ↦ rw e (v.listed k small)
  ]

  pub cancel_round-IsStress :
      0 < s.n_resting
      → IsStress (mark (s.resting (drawn_index rng s)) false live) (cancel_round rng s)
  unfolding cancel_round
  cancel_round-IsStress h = record {
    room = omega (arith, v.room);
    listed = λ j k. rw (resting-cancel_round j) (still_live h (moved j) (moved-range j k));
    once = λ i j hi hj e. moved_once i j hi hj (
        v.once (moved i) (moved j) (moved-range i hi).0 (moved-range j hj).0
          (sym (resting-cancel_round i) ∙ e ∙ resting-cancel_round j));
    earlier = λ j k. rw (resting-cancel_round j) (v.earlier (moved j) (moved-range j k).0);
  }

  kept_live : (j : ℕ) → j < s.n_resting → mark s.oid true live (s.resting j) ≡ true
  kept_live j k = ground (arith, v.listed j k)

  next_resting : ℕ → ℕ
  next_resting = set_resting s.n_resting s.oid s.resting

  listed_next : (j : ℕ) → j < s.n_resting + 1 → mark s.oid true live (next_resting j) ≡ true
  unfolding next_resting
  listed_next j k = elim (Bool-cases (s.n_resting == j)) [
    | inl e ↦ ground (arith, e)
    | inr e ↦ rw e (kept_live j (ground (arith, e, k)))
  ]

  once_next :
      (i j : ℕ)
      → i < s.n_resting + 1
      → j < s.n_resting + 1
      → next_resting i ≡ next_resting j
      → i ≡ j
  unfolding next_resting
  once_next i j hi hj p = ground (arith, v.once i j, v.earlier i, v.earlier j, p, hi, hj)

  earlier_next : (j : ℕ) → j < s.n_resting + 1 → next_resting j < s.oid + 1
  unfolding next_resting
  earlier_next j k = ground (arith, v.earlier j, k)

  pub order_round-IsStress : IsStress (mark s.oid true live) (order_round rng s)
  unfolding order_round next_resting
  order_round-IsStress = elim (Bool-cases (ltb s.n_resting window)) [
    | inl e ↦ rw e (record {
      room = ground (arith, e);
      listed = λ j k. listed_next j k;
      once = λ i j hi hj p. once_next i j hi hj p;
      earlier = λ j k. earlier_next j k;
    })
    | inr e ↦ rw e (record {
      room = v.room;
      listed = λ j k. kept_live j k;
      once = v.once;
      earlier = λ j k. omega (arith, v.earlier j k);
    })
  ]
