-- ===== src/StartupAllocator.antt =====
-- engine/memory/StartupAllocator.hpp and StartupAllocator.cpp: the pools that exist before the engine
-- runs. A null pool is `none`; whether `mlockall` succeeds is an argument. What the slots of a pool
-- hold plays no part, so its element type is left out.
use event_driven_trading_sys.Base.{ℕ, Bool, true, false, if◌then◌else◌, Option, none, some}
use event_driven_trading_sys.ObjectPool.{ObjectPool, make}

pub record Config : Type 0 where
  pub event_pool_size : ℕ
  pub order_pool_size : ℕ
  pub execution_pool_size : ℕ
  pub signal_pool_size : ℕ
  pub attempt_mlockall : Bool

abbrev pub default_config : Config
default_config = record {
  event_pool_size = 65536;
  order_pool_size = 16384;
  execution_pool_size = 16384;
  signal_pool_size = 16384;
  attempt_mlockall = true;
}

pub record StartupReport : Type 0 where
  pub event_pool_capacity : ℕ
  pub order_pool_capacity : ℕ
  pub execution_pool_capacity : ℕ
  pub signal_pool_capacity : ℕ
  pub mlockall_success : Bool

pub record StartupAllocator : Type 0 where
  pub event_pool : Option ObjectPool
  pub order_pool : Option ObjectPool
  pub exec_pool : Option ObjectPool
  pub signal_pool : Option ObjectPool
  pub started : Bool

abbrev pub new_allocator : StartupAllocator
new_allocator = record {
  event_pool = none;
  order_pool = none;
  exec_pool = none;
  signal_pool = none;
  started = false;
}

unfoldable pub start : Bool → Config → StartupAllocator → StartupAllocator × StartupReport
unfolding make
start mlockall_succeeds cfg alloc = (
  record {
    event_pool = some (make cfg.event_pool_size);
    order_pool = some (make cfg.order_pool_size);
    exec_pool = some (make cfg.execution_pool_size);
    signal_pool = some (make cfg.signal_pool_size);
    started = true;
  },
  record {
    event_pool_capacity = cfg.event_pool_size;
    order_pool_capacity = cfg.order_pool_size;
    execution_pool_capacity = cfg.execution_pool_size;
    signal_pool_capacity = cfg.signal_pool_size;
    mlockall_success = if cfg.attempt_mlockall then mlockall_succeeds else false;
  },
)
