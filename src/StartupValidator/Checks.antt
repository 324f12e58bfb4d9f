-- ===== src/StartupValidator/Checks.antt =====
-- What the report of engine/runtime/StartupValidator.cpp says of a started allocator.
use event_driven_trading_sys.Base.{
  ℕ, ◌≤◌, ◌<◌, ◌≡◌, ◌↔◌, refl, sym, ◌∙◌, ap, Bool, true, false, not, ◌&&◌, ◌==◌, ltb, if◌then◌else◌,
  List, [], ◌∷◌, ◌++◌, Option, arith,
}
use event_driven_trading_sys.Text.{codes}
use event_driven_trading_sys.ObjectPool.{ObjectPool, make}
use event_driven_trading_sys.StartupAllocator.{StartupAllocator, Config, start}
use event_driven_trading_sys.StartupValidator.{
  Platform, ValidationReport, ValidationResult, all_results, all_passed, push_result, pass, fail,
  is_wsl2, capacity_of, check_pool, check_pools, check_timing, check_numa, validate,
}

all_results-append :
    (rs : List ValidationResult) (r : ValidationResult)
    → all_results (rs ++ (r ∷ [])) ≡ (all_results rs && r.passed)
all_results-append [] r = ground arith
all_results-append (q ∷ rs) r = ground (arith, all_results-append rs r)

all_passed-push_result :
    (r : ValidationReport) (passed : Bool) (category message : List ℕ)
    → all_passed (push_result r passed category message) ≡ (all_passed r && passed)
unfolding all_passed
all_passed-push_result r passed category message = all_results-append r.results _

-- A test that passes or fails, with any messages.
all_passed-pass_if :
    (b : Bool) (r : ValidationReport) (c m n : List ℕ)
    → all_passed (if b then pass r c m else fail r c n) ≡ (all_passed r && b)
all_passed-pass_if true r c m n = all_passed-push_result r true c m
all_passed-pass_if false r c m n = all_passed-push_result r false c n

all_passed-fail_if :
    (b : Bool) (r : ValidationReport) (c m n : List ℕ)
    → all_passed (if b then fail r c m else pass r c n) ≡ (all_passed r && not b)
all_passed-fail_if true r c m n = all_passed-push_result r false c m
all_passed-fail_if false r c m n = all_passed-push_result r true c n

all_passed-check_pool :
    (pool : Option ObjectPool) (name : List ℕ) (r : ValidationReport)
    → all_passed (check_pool pool name r) ≡ (all_passed r && not (capacity_of pool == 0))
unfolding check_pool
all_passed-check_pool pool name r = all_passed-fail_if (capacity_of pool == 0) r _ _ _

abbrev filled : Option ObjectPool → Bool
filled pool = not (capacity_of pool == 0)

all_passed-four :
    (a b c d : Option ObjectPool) (w x y z : List ℕ) (r : ValidationReport)
    → all_passed (check_pool d z (check_pool c y (check_pool b x (check_pool a w r))))
      ≡ ((((all_passed r && filled a) && filled b) && filled c) && filled d)
all_passed-four a b c d w x y z r =
    let add = λ (q : Option ObjectPool) (t : Bool). t && filled q in
    all_passed-check_pool d z _
    ∙ ap (add d) (
        all_passed-check_pool c y _
        ∙ ap (add c) (all_passed-check_pool b x _ ∙ ap (add b) (all_passed-check_pool a w r)))

if_cong :
    (b : Bool) {x x' y y' : Bool} → x ≡ x' → y ≡ y' → (if b then x else y) ≡ (if b then x' else y')
if_cong true e f = e
if_cong false e f = f

if_same : (b : Bool) {x y z : Bool} → x ≡ z → y ≡ z → (if b then x else y) ≡ z
if_same true e f = e
if_same false e f = f

all_passed-pass : (r : ValidationReport) (c m : List ℕ) → all_passed (pass r c m) ≡ all_passed r
all_passed-pass r c m = all_passed-push_result r true c m ∙ and_true (all_passed r)
  where
    and_true : (b : Bool) → (b && true) ≡ b
    and_true true = refl
    and_true false = refl

-- Not started is a failure, and else every pool must have a slot.
abbrev pools_pass : StartupAllocator → Bool
pools_pass a =
    if a.started
    then (((filled a.event_pool && filled a.order_pool) && filled a.exec_pool)
        && filled a.signal_pool)
    else false

all_passed-if :
    (b : Bool) (r s : ValidationReport)
    → all_passed (if b then r else s) ≡ (if b then all_passed r else all_passed s)
all_passed-if true r s = refl
all_passed-if false r s = refl

all_passed-check_pools :
    (a : StartupAllocator) (cfg : Config)
    → all_passed (check_pools a cfg (record { results = [] })) ≡ pools_pass a
unfolding check_pools all_passed
all_passed-check_pools a cfg =
    all_passed-if a.started _ _
    ∙ if_cong a.started {y = false}
        (all_passed-four a.event_pool a.order_pool a.exec_pool a.signal_pool (codes "Event")
          (codes "Order") (codes "ExecutionReport") (codes "StrategySignal")
          (record { results = [] }))
        refl

all_passed-check_timing :
    (p : Platform) (r : ValidationReport)
    → all_passed (check_timing p r)
      ≡ ((all_passed r && p.is_steady) && not (ltb p.second_reading p.first_reading))
unfolding check_timing
all_passed-check_timing p r =
    all_passed-fail_if (ltb p.second_reading p.first_reading) _ _ _ _
    ∙ ap (λ t. t && not (ltb p.second_reading p.first_reading))
        (all_passed-pass_if p.is_steady r _ _ _)

-- Whatever the files of the kernel hold, this check never fails.
all_passed-check_numa :
    (p : Platform) (r : ValidationReport) → all_passed (check_numa p r) ≡ all_passed r
unfolding check_numa
all_passed-check_numa p r =
    all_passed-if (is_wsl2 p) _ _
    ∙ if_same (is_wsl2 p) (all_passed-pass r _ _) (
        all_passed-if p.online_is_open _ _
        ∙ if_same p.online_is_open (all_passed-pass r _ _) (all_passed-pass r _ _))

-- The report passes exactly when the pools and the clock do.
all_passed-validate :
    (p : Platform) (a : StartupAllocator) (cfg : Config)
    → all_passed (validate p a cfg)
      ≡ ((pools_pass a && p.is_steady) && not (ltb p.second_reading p.first_reading))
unfolding validate
all_passed-validate p a cfg =
    all_passed-check_numa p _
    ∙ all_passed-check_timing p _
    ∙ ap (λ t. (t && p.is_steady) && not (ltb p.second_reading p.first_reading))
        (all_passed-check_pools a cfg)

-- The report on a started allocator passes exactly if all four pools were given at least one slot,
-- the clock is steady, and its second reading is not before the first: neither the success of
-- `mlockall` nor what the files of the kernel hold plays a part.
pub validate-start :
    (p : Platform) (mlockall_succeeds : Bool) (cfg cfg' : Config) (a : StartupAllocator)
    → (all_passed (validate p (start mlockall_succeeds cfg a).0 cfg') ≡ true) ↔ (
        (0 < cfg.event_pool_size)
        × (0 < cfg.order_pool_size)
        × (0 < cfg.execution_pool_size)
        × (0 < cfg.signal_pool_size)
        × (p.is_steady ≡ true)
        × (p.first_reading ≤ p.second_reading))
unfolding start make
validate-start p mlockall_succeeds cfg cfg' a =
    let a' = (start mlockall_succeeds cfg a).0 in
    let e = all_passed-validate p a' cfg' in
    let six =
      six_tests cfg.event_pool_size cfg.order_pool_size cfg.execution_pool_size cfg.signal_pool_size
        p.is_steady p.first_reading p.second_reading in
    (λ passed. six.0 (sym e ∙ passed), λ h. e ∙ six.1 h)
  where
    six_tests :
        (a b c d : ℕ) (s : Bool) (t u : ℕ)
        → ((((((not (a == 0) && not (b == 0)) && not (c == 0)) && not (d == 0)) && s)
              && not (ltb u t))
            ≡ true)
          ↔ ((0 < a) × (0 < b) × (0 < c) × (0 < d) × (s ≡ true) × (t ≤ u))
    six_tests a b c d s t u = ground arith

-- x
pub validate-unstarted :
    (p : Platform) (cfg : Config) (a : StartupAllocator)
    → a.started ≡ false
    → all_passed (validate p a cfg) ≡ false
validate-unstarted p cfg a h = ground (arith, all_passed-validate p a cfg)
