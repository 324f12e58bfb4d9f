-- ===== src/AllocationGuard/Count.antt =====
-- What a guard of engine/memory/AllocationGuard.hpp counts.
use event_driven_trading_sys.Base.{
  ℕ, ◌+◌, ◌<◌, ◌≡◌, refl, ◌∙◌, ap, Bool, true, false, List, [], ◌∷◌, Option, arith, length, u64_mod,
}
use event_driven_trading_sys.AllocationGuard.{Globals, guarded_alloc, make_guard, drop_guard, count}

-- A run of allocations: the size and the form of each.
abbrev pub allocations : (ℕ → Option ℕ) → List (ℕ × Bool) → Globals → Globals
unfolding guarded_alloc
allocations malloc [] g = g
allocations malloc ((size, nothrow) ∷ rs) g =
    allocations malloc rs (guarded_alloc malloc size nothrow g).0

module _ (malloc : ℕ → Option ℕ) where
  while_running :
      (rs : List (ℕ × Bool)) (n : ℕ)
      → n + length rs < u64_mod
      → allocations malloc rs (record { engine_running = true; unexpected_alloc_count = n })
        ≡ record { engine_running = true; unexpected_alloc_count = n + length rs }
  unfolding guarded_alloc
  while_running [] n room = ground arith
  while_running (r ∷ rs) n room = ground (arith, while_running rs (n + 1))

  while_stopped :
      (rs : List (ℕ × Bool)) (n : ℕ)
      → allocations malloc rs (record { engine_running = false; unexpected_alloc_count = n })
        ≡ record { engine_running = false; unexpected_alloc_count = n }
  unfolding guarded_alloc
  while_stopped [] n = refl
  while_stopped (r ∷ rs) n = while_stopped rs n

  -- Whatever was allocated before, and for fewer than 2^64 allocations during the life of a guard,
  -- the guard counts exactly those; allocations after it are not counted, and the engine is marked
  -- as not running.
  pub guard-counts :
      (before during after : List (ℕ × Bool)) (g : Globals)
      → length during < u64_mod
      → let alive = allocations malloc during (make_guard (allocations malloc before g)) in
        let dropped = allocations malloc after (drop_guard alive) in
        (count alive ≡ length during)
        × (count dropped ≡ length during)
        × (dropped.engine_running ≡ false)
  unfolding make_guard drop_guard
  guard-counts before during after g room =
      let alive = while_running during 0 (omega (arith, room)) in
      let dropped =
        ap (λ h. allocations malloc after (drop_guard h)) alive
        ∙ while_stopped after (0 + length during) in
      (
        ap count alive ∙ omega arith,
        ap count dropped ∙ omega arith,
        ap (λ h. h.engine_running) dropped,
      )
