-- ===== src/AllocationGuard.antt =====
-- engine/memory/AllocationGuard.hpp and AllocationGuard.cpp: the count of heap allocations while the
-- engine runs. What `malloc` answers is an argument, `none` for null.
pub mod Count
use event_driven_trading_sys.Base.{
  ℕ, Bool, true, false, ◌==◌, if◌then◌else◌, Option, none, some, add64,
}

-- `g_engine_running` and `g_unexpected_alloc_count`.
pub record Globals : Type 0 where
  pub engine_running : Bool
  pub unexpected_alloc_count : ℕ

abbrev pub initial_globals : Globals
initial_globals = record { engine_running = false; unexpected_alloc_count = 0 }

pub data Allocation : Type 0 where
  allocated : ℕ → Allocation
  null : Allocation
  bad_alloc : Allocation

abbrev pub allocation : Bool → Option ℕ → Allocation
allocation nothrow (some ptr) = allocated ptr
allocation nothrow none = if nothrow then null else bad_alloc

abbrev pub count_allocation : Globals → Globals
count_allocation g =
    if g.engine_running
    then record g { unexpected_alloc_count = add64 g.unexpected_alloc_count 1 }
    else g

-- The four forms of `operator new` call this with and without `nothrow`.
unfoldable pub guarded_alloc : (ℕ → Option ℕ) → ℕ → Bool → Globals → Globals × Allocation
guarded_alloc malloc size nothrow g =
    (count_allocation g, allocation nothrow (malloc (if size == 0 then 1 else size)))

-- The constructor, the destructor and `count`.
unfoldable pub make_guard : Globals → Globals
make_guard g = record { engine_running = true; unexpected_alloc_count = 0 }

unfoldable pub drop_guard : Globals → Globals
drop_guard g = record g { engine_running = false }

abbrev pub count : Globals → ℕ
count g = g.unexpected_alloc_count
