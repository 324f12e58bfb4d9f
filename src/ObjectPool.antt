-- ===== src/ObjectPool.antt =====
-- engine/memory/ObjectPool.hpp: a fixed pool of slots and a stack of the free ones. A pointer is
-- the index of its slot in `storage_`; what the slots hold plays no part.
pub mod Laws
use event_driven_trading_sys.Base.{
  ℕ, zero, suc, ◌+◌, ◌-◌, Bool, true, false, ◌==◌, ltb, if◌then◌else◌, List, [], ◌∷◌, ◌++◌, Option,
  none, some, get_or, set, length,
}

pub record ObjectPool : Type 0 where
  pub capacity : ℕ
  pub free_list : List ℕ
  pub top : ℕ
  pub exhaustion_count : ℕ

-- The loop of the constructor: every slot is free, in order.
unfoldable pub all_slots : ℕ → List ℕ
all_slots zero = []
all_slots (suc n) = all_slots n ++ (n ∷ [])

unfoldable pub make : ℕ → ObjectPool
make capacity = record {
  capacity = capacity;
  free_list = all_slots capacity;
  top = capacity;
  exhaustion_count = 0;
}

-- `none` is the null pointer.
unfoldable pub allocate : ObjectPool → ObjectPool × Option ℕ
allocate p =
    if p.top == 0
    then (record p { exhaustion_count = p.exhaustion_count + 1 }, none)
    else (record p { top = p.top - 1 }, some (get_or p.free_list (p.top - 1) 0))

-- `none` is the assertion `top_ < free_list_.size()` failing. A pointer here is not null.
unfoldable pub release : ObjectPool → ℕ → Option ObjectPool
release p obj =
    if ltb p.top (length p.free_list)
    then some (record p { free_list = set p.free_list p.top obj; top = p.top + 1 })
    else none

unfoldable pub available : ObjectPool → ℕ
available p = p.top

unfoldable pub used : ObjectPool → ℕ
used p = p.capacity - p.top
