-- ===== src/StartupValidator.antt =====
-- engine/runtime/StartupValidator.hpp and StartupValidator.cpp: the checks before the engine runs. The
-- clock and the files of the kernel are a record of what they answer.
pub mod Checks
use event_driven_trading_sys.Base.{
  ℕ, Bool, true, false, ◌||◌, ◌==◌, ltb, if◌then◌else◌, List, [], ◌∷◌, ◌++◌, Option, none, some,
}
use event_driven_trading_sys.Text.{codes, decimal, find}
use event_driven_trading_sys.ObjectPool.{ObjectPool}
use event_driven_trading_sys.StartupAllocator.{StartupAllocator, Config}

pub record ValidationResult : Type 0 where
  pub passed : Bool
  pub category : List ℕ
  pub message : List ℕ

pub record ValidationReport : Type 0 where
  pub results : List ValidationResult

-- What the platform answers: the first lines of two files, `none` if there is no line, and two
-- readings of the clock. Linux.
pub record Platform : Type 0 where
  pub version : Option (List ℕ)
  pub is_steady : Bool
  pub first_reading : ℕ
  pub second_reading : ℕ
  pub online_is_open : Bool
  pub online : List ℕ

abbrev pub all_results : List ValidationResult → Bool
all_results [] = true
all_results (r ∷ rs) = if r.passed then all_results rs else false

unfoldable pub all_passed : ValidationReport → Bool
all_passed report = all_results report.results

abbrev pub contains_text : List ℕ → List ℕ → Bool
unfolding find
contains_text wanted line = elim (find wanted line) [ none ↦ false | some pos ↦ true ]

unfoldable pub is_wsl2 : Platform → Bool
is_wsl2 p = elim p.version [
  | none ↦ false
  | some line ↦ contains_text (codes "microsoft") line || contains_text (codes "Microsoft") line
]

abbrev pub push_result : ValidationReport → Bool → List ℕ → List ℕ → ValidationReport
push_result r passed category message = record {
  results = r.results ++ (record { passed = passed; category = category; message = message } ∷ []);
}

abbrev pub pass : ValidationReport → List ℕ → List ℕ → ValidationReport
pass r category message = push_result r true category message

abbrev pub fail : ValidationReport → List ℕ → List ℕ → ValidationReport
fail r category message = push_result r false category message

abbrev pub capacity_of : Option ObjectPool → ℕ
capacity_of none = 0
capacity_of (some pool) = pool.capacity

-- One of the four checks of a pool, with the name of what it holds.
unfoldable pub check_pool : Option ObjectPool → List ℕ → ValidationReport → ValidationReport
unfolding decimal
check_pool pool name report =
    if capacity_of pool == 0
    then fail report (codes "MemoryPools") (name ++ codes " pool has zero capacity")
    else pass report (codes "MemoryPools")
        (name ++ (codes " pool OK (" ++ (decimal (capacity_of pool) ++ codes " slots)")))

unfoldable pub check_pools : StartupAllocator → Config → ValidationReport → ValidationReport
unfolding check_pool
check_pools alloc cfg report =
    let checked = check_pool alloc.signal_pool (codes "StrategySignal") (
      check_pool alloc.exec_pool (codes "ExecutionReport") (
        check_pool alloc.order_pool (codes "Order")
          (check_pool alloc.event_pool (codes "Event") report))) in
    if alloc.started
    then checked
    else fail report (codes "MemoryPools") (codes "StartupAllocator.start() has not been called")

unfoldable pub check_timing : Platform → ValidationReport → ValidationReport
check_timing p report =
    let report' =
      if p.is_steady
      then pass report (codes "Timing") (codes "steady_clock is monotonic")
      else fail report (codes "Timing") (codes "std::chrono::steady_clock is not monotonic") in
    if ltb p.second_reading p.first_reading
    then fail report' (codes "Timing") (codes "steady_clock went backwards — non-monotonic")
    else pass report' (codes "Timing") (codes "steady_clock tick sanity OK")

unfoldable pub check_numa : Platform → ValidationReport → ValidationReport
unfolding is_wsl2
check_numa p report =
    if is_wsl2 p
    then pass report (codes "NUMA") (codes "WSL2 detected — NUMA validation skipped")
    else if p.online_is_open
    then pass report (codes "NUMA") (codes "NUMA nodes online: " ++ p.online)
    else pass report (codes "NUMA") (codes "NUMA sysfs not available — single node assumed")

unfoldable pub validate : Platform → StartupAllocator → Config → ValidationReport
unfolding check_pools check_timing check_numa
validate p alloc cfg =
    check_numa p (check_timing p (check_pools alloc cfg (record { results = [] })))
