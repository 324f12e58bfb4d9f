-- ===== src/Benchmarks.antt =====
-- benchmarks/BenchmarkRunner.hpp and BenchmarkRunner.cpp: the warm-up and the measurement of a replay
-- through the strategy and the matching engine. A file is the list of its lines, as in FileReplay. The
-- readings of the clock are numbered: `clock i` is what `clock_gettime` gives the `i`-th time.
pub mod Rows
pub mod WarmUp
pub mod Measure
pub mod Run
use event_driven_trading_sys.Base.{
  ℕ, zero, suc, ◌+◌, ◌*◌, ◌%◌, ◌^◌, Bool, true, false, ◌&&◌, ◌==◌, leb, if◌then◌else◌, List, [],
  Option, none, some, add64, sub64, u64_mod,
}
use event_driven_trading_sys.Doubles.{Doubles}
use event_driven_trading_sys.Events.{Event, event_type, new_order, cancel_order}
use event_driven_trading_sys.OrderBook.{OrderBook, make_book}
use event_driven_trading_sys.Matching.{MatchOutput, process_new_order, process_cancel}
use event_driven_trading_sys.Strategy
use event_driven_trading_sys.Strategy.{StrategyEngine, StrategySignal, signal, noop, pass_through}
use event_driven_trading_sys.FileReplay
use event_driven_trading_sys.FileReplay.{FileReplay}
use event_driven_trading_sys.LatencyHistogram
use event_driven_trading_sys.LatencyHistogram.{
  LatencyHistogram, empty_histogram, record_sample, percentile,
}

pub record BenchmarkConfig (Float : Type 0) : Type 0 where
  pub name : List ℕ
  pub dataset_path : List ℕ
  pub binary_dataset : Bool
  pub warmup_min_events : ℕ
  pub warmup_min_seconds : Float

pub record BenchmarkReport (Float : Type 0) : Type 0 where
  pub name : List ℕ
  pub dataset_path : List ℕ
  pub run_timestamp : List ℕ
  pub warmup_events : ℕ
  pub warmup_duration_s : Float
  pub events_processed : ℕ
  pub duration_s : Float
  pub throughput_eps : Float
  pub p50_ns : ℕ
  pub p95_ns : ℕ
  pub p99_ns : ℕ
  pub p999_ns : ℕ
  pub max_ns : ℕ

-- A call may throw; `out_of_fuel` stands for a loop that has not ended.
pub data Outcome (A : Type 0) : Type 0 where
  returned : A → Outcome A
  thrown out_of_fuel : Outcome A

-- The seconds and nanoseconds of a `timespec`.
unfoldable pub now_ns : ℕ × ℕ → ℕ
now_ns (tv_sec, tv_nsec) = (tv_sec * 1_000_000_000 + tv_nsec) % u64_mod

-- What the loops of `run` work on, with the number of the next reading of the clock.
pub record Bench : Type 0 where
  pub rc : FileReplay
  pub book : OrderBook
  pub strategy : StrategyEngine
  pub histogram : LatencyHistogram
  pub count : ℕ
  pub readings : ℕ

abbrev pub book_of : Option (MatchOutput × OrderBook) → Option OrderBook
book_of none = none
book_of (some (out, book)) = some book

-- The matching part of both loops: events of other types are passed over.
unfoldable pub match_event : ℕ → OrderBook → Event → Option OrderBook
match_event fuel book ev =
    if event_type ev == new_order
    then book_of (process_new_order fuel book ev)
    else if event_type ev == cancel_order
    then some (process_cancel book ev).0
    else some book

-- `OrderBook book(1)`
abbrev pub new_book : OrderBook
new_book = make_book 1 65_536 0

module _ {Float : Type 0} (d : Doubles Float) where
  -- `p50()` and the others, with the percentage.
  unfoldable pub percentile_of : LatencyHistogram → Float → ℕ
  unfolding percentile
  percentile_of h p = percentile h (d.to_nat (d.div (d.mul (d.of_nat h.total) p) (d.literal 100 0)))

  -- `static_cast<double>(to - from) * 1e-9`
  abbrev pub seconds : ℕ → ℕ → Float
  seconds from to = d.mul (d.of_nat (sub64 to from)) (d.literal 1 9)

  module _ (clock : ℕ → ℕ × ℕ) (fuel : ℕ) where
    -- The end of a round of the warm-up, with the new book: whether it breaks.
    abbrev pub warmed :
        (Bench → Option Bench) → BenchmarkConfig Float → ℕ → Bench → Option OrderBook → Option Bench
    warmed rest cfg start s none = none
    warmed rest cfg start s (some book) =
        let s' : Bench = record s {
          book = book;
          count = add64 s.count 1;
          readings = s.readings + 1;
        } in
        let elapsed = seconds start (now_ns (clock s.readings)) in
        let more = rest s' in
        if leb cfg.warmup_min_events s'.count && d.le cfg.warmup_min_seconds elapsed
        then some s'
        else more

    abbrev pub warm_signal :
        (Bench → Option Bench)
        → BenchmarkConfig Float
        → ℕ
        → Bench
        → Event
        → StrategySignal
        → Option Bench
    warm_signal rest cfg start s ev noop = rest s
    warm_signal rest cfg start s ev signal = warmed rest cfg start s (match_event fuel s.book ev)

    abbrev pub warm_gate :
        (Bench → Option Bench)
        → BenchmarkConfig Float
        → ℕ
        → Bench
        → Event
        → StrategyEngine × StrategySignal
        → Option Bench
    warm_gate rest cfg start s ev (strategy, sig) =
        warm_signal rest cfg start (record s { strategy = strategy }) ev sig

    abbrev pub warm_next :
        (Bench → Option Bench)
        → BenchmarkConfig Float
        → ℕ
        → Bench
        → FileReplay × Option Event
        → Option Bench
    warm_next rest cfg start s (rc, none) = some (record s { rc = rc })
    warm_next rest cfg start s (rc, some ev) =
        warm_gate rest cfg start (record s { rc = rc }) ev (Strategy.process s.strategy ev)

    -- The warm-up loop, with the rounds left: `none` when they run out.
    unfoldable pub warm_up : ℕ → BenchmarkConfig Float → ℕ → Bench → Option Bench
    unfolding match_event
    warm_up zero cfg start s = none
    warm_up (suc n) cfg start s = warm_next (warm_up n cfg start) cfg start s (FileReplay.next s.rc)

    -- The end of a round of the measurement that began at the time `t0`.
    abbrev pub measured : (Bench → Option Bench) → ℕ → Bench → Option OrderBook → Option Bench
    measured rest t0 s none = none
    measured rest t0 s (some book) = rest (record s {
      book = book;
      histogram = record_sample s.histogram (sub64 (now_ns (clock s.readings)) t0);
      count = add64 s.count 1;
      readings = s.readings + 1;
    })

    abbrev pub measure_signal :
        (Bench → Option Bench) → ℕ → Bench → Event → StrategySignal → Option Bench
    measure_signal rest t0 s ev noop = rest s
    measure_signal rest t0 s ev signal = measured rest t0 s (match_event fuel s.book ev)

    abbrev pub measure_gate :
        (Bench → Option Bench) → ℕ → Bench → Event → StrategyEngine × StrategySignal → Option Bench
    measure_gate rest t0 s ev (strategy, sig) =
        measure_signal rest t0 (record s { strategy = strategy }) ev sig

    abbrev pub measure_next :
        (Bench → Option Bench) → Bench → FileReplay × Option Event → Option Bench
    measure_next rest s (rc, none) = some (record s { rc = rc })
    measure_next rest s (rc, some ev) =
        measure_gate rest (now_ns (clock s.readings))
          (record s { rc = rc; readings = s.readings + 1 }) ev (Strategy.process s.strategy ev)

    -- The measurement loop, with the rounds left: `none` when they run out.
    unfoldable pub measure : ℕ → Bench → Option Bench
    unfolding match_event
    measure zero s = none
    measure (suc n) s = measure_next (measure n) s (FileReplay.next s.rc)

    -- The state before the warm-up, after its first reading of the clock.
    abbrev pub before_warm_up : FileReplay → Bench
    before_warm_up rc = record {
      rc = rc;
      book = new_book;
      strategy = record { strategy = pass_through; signal_count = 0; noop_count = 0 };
      histogram = empty_histogram;
      count = 0;
      readings = 1;
    }

    -- The state before the measurement, after the readings at the end of the warm-up and at its start.
    abbrev pub before_measure : Bench → FileReplay → Bench
    before_measure s rc = record s {
      rc = rc;
      book = new_book;
      count = 0;
      readings = s.readings + 2;
    }

    -- The report, from the states at the ends of the two loops.
    abbrev pub report : BenchmarkConfig Float → List ℕ → Bench → Bench → BenchmarkReport Float
    report cfg run_timestamp w s =
        let warm_end = now_ns (clock w.readings) in
        let meas_start = now_ns (clock (w.readings + 1)) in
        let duration_s = seconds meas_start (now_ns (clock s.readings)) in
        record {
          name = cfg.name;
          dataset_path = cfg.dataset_path;
          run_timestamp = run_timestamp;
          warmup_events = w.count;
          warmup_duration_s = seconds (now_ns (clock 0)) warm_end;
          events_processed = s.count;
          duration_s = duration_s;
          throughput_eps =
              if d.lt (d.literal 0 0) duration_s
              then d.div (d.of_nat s.count) duration_s
              else d.literal 0 0;
          p50_ns = percentile_of s.histogram (d.literal 50 0);
          p95_ns = percentile_of s.histogram (d.literal 95 0);
          p99_ns = percentile_of s.histogram (d.literal 99 0);
          p999_ns = percentile_of s.histogram (d.literal 999 1);
          max_ns = s.histogram.max;
        }

    -- What a run gives: the report, and the runner's histogram.
    abbrev pub finish :
        BenchmarkConfig Float
        → List ℕ
        → Bench
        → Option Bench
        → Outcome (BenchmarkReport Float × LatencyHistogram)
    finish cfg run_timestamp w none = out_of_fuel
    finish cfg run_timestamp w (some s) = returned (report cfg run_timestamp w s, s.histogram)

    abbrev pub run_measure :
        ℕ
        → BenchmarkConfig Float
        → List ℕ
        → Bench
        → Option FileReplay
        → Outcome (BenchmarkReport Float × LatencyHistogram)
    run_measure n cfg run_timestamp w none = thrown
    run_measure n cfg run_timestamp w (some rc) =
        finish cfg run_timestamp w (measure n (before_measure w rc))

    abbrev pub run_reset :
        ℕ
        → BenchmarkConfig Float
        → List ℕ
        → Option (List (List ℕ))
        → Option Bench
        → Outcome (BenchmarkReport Float × LatencyHistogram)
    run_reset n cfg run_timestamp again none = out_of_fuel
    run_reset n cfg run_timestamp again (some w) =
        run_measure n cfg run_timestamp w (FileReplay.reset again w.rc)

    abbrev pub run_open :
        ℕ
        → BenchmarkConfig Float
        → List ℕ
        → Option (List (List ℕ))
        → Option FileReplay
        → Outcome (BenchmarkReport Float × LatencyHistogram)
    run_open n cfg run_timestamp again none = thrown
    run_open n cfg run_timestamp again (some rc) =
        run_reset n cfg run_timestamp again (warm_up n cfg (now_ns (clock 0)) (before_warm_up rc))

    -- `run`, with the file as it is when the controller opens it and when it is opened again, and the
    -- rounds of either loop.
    unfoldable pub run :
        ℕ
        → BenchmarkConfig Float
        → List ℕ
        → Option (List (List ℕ))
        → Option (List (List ℕ))
        → Outcome (BenchmarkReport Float × LatencyHistogram)
    unfolding warm_up measure percentile_of
    run n cfg run_timestamp contents again =
        run_open n cfg run_timestamp again (FileReplay.make_replay contents)
