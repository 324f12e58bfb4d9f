-- ===== src/Replay/Drain.antt =====
-- The loop `while (controller.next(e))` over engine/replay/VectorReplayController.hpp.
use event_driven_trading_sys.Base.{
  ℕ, zero, suc, ◌+◌, ◌≤◌, ◌<◌, ◌≡◌, refl, sym, ◌∙◌, ap, inl, inr, true, leb, List, [], ◌∷◌, Option,
  none, some, arith, length, get_or, add64, u64_mod, Bool-cases,
}
use native.Mathlib.Numerals.{add-one}
use event_driven_trading_sys.Events.{Event, zero_event}
use event_driven_trading_sys.Replay.{VectorReplay, next, reset, done}

abbrev step_drain :
    VectorReplay × Option Event → List Event × VectorReplay → List Event × VectorReplay
step_drain (c, none) rest = ([], c)
step_drain (c, some e) (es, d) = (e ∷ es, d)

-- The events that the loop sees, on fuel.
abbrev pub drain : ℕ → VectorReplay → List Event × VectorReplay
drain zero c = ([], c)
drain (suc fuel) c = let r = next c in step_drain r (drain fuel r.0)

abbrev pub drop : ℕ → List Event → List Event
drop zero xs = xs
drop (suc n) [] = []
drop (suc n) (x ∷ xs) = drop n xs

drop-cons :
    (xs : List Event) (i : ℕ) → i < length xs → drop i xs ≡ get_or xs i zero_event ∷ drop (suc i) xs
drop-cons [] i h = absurd (omega arith)
drop-cons (x ∷ xs) zero h = refl
drop-cons (x ∷ xs) (suc i) h = drop-cons xs i (omega arith)

drop-all : (xs : List Event) (i : ℕ) → length xs ≤ i → drop i xs ≡ []
drop-all [] zero h = refl
drop-all [] (suc i) h = refl
drop-all (x ∷ xs) zero h = absurd (omega arith)
drop-all (x ∷ xs) (suc i) h = drop-all xs i (omega arith)

-- The rest of the vector, from the cursor.
drain_rest :
    (fuel : ℕ) (c : VectorReplay)
    → length c.events < c.cursor + fuel
    → c.cursor ≤ length c.events
    → c.events_replayed ≡ c.cursor
    → length c.events < u64_mod
    → let r = drain fuel c in
      (r.0 ≡ drop c.cursor c.events)
      × (r.1.cursor ≡ length c.events)
      × (r.1.events_replayed ≡ length c.events)
      × (r.1.events ≡ c.events)
unfolding next
drain_rest zero c enough h same small = absurd (omega arith)
drain_rest (suc fuel) c enough h same small = elim (Bool-cases (leb (length c.events) c.cursor)) [
  | inl e ↦ rw e (sym (drop-all c.events c.cursor (ground arith)), ground arith, ground arith, refl)
  | inr e ↦
      let (a, b, d, f) =
        drain_rest fuel
          (record c { cursor = c.cursor + 1; events_replayed = add64 c.events_replayed 1 })
          (omega arith) (ground arith) (ground arith) small in
      let shorter = ap (λ n. drop n c.events) (add-one c.cursor) in
      rw e (
        ap (◌∷◌ (get_or c.events c.cursor zero_event)) (a ∙ shorter)
            ∙ sym (drop-cons c.events c.cursor (ground arith)),
        b,
        d,
        f,
      )
]

-- After a `reset`, on a vector of fewer than 2^64 events and with fuel for one more round than it
-- has events, the loop over `next` sees every event once, in order; then the controller is done
-- and has counted them all.
pub drain-reset :
    (fuel : ℕ) (c : VectorReplay)
    → length c.events < fuel
    → length c.events < u64_mod
    → let r = drain fuel (reset c) in
      (r.0 ≡ c.events) × (done r.1 ≡ true) × (r.1.events_replayed ≡ length c.events)
unfolding reset done
drain-reset fuel c enough small =
    let (a, b, d, f) = drain_rest fuel (reset c) (omega (arith, enough)) (omega arith) refl small in
    (a, ground (arith, b, ap length f), d)
