-- ===== src/Benchmarks/Run.antt =====
-- A whole run of benchmarks/BenchmarkRunner.cpp.
use event_driven_trading_sys.Base.{
  ℕ, ◌+◌, ◌≤◌, ◌<◌, ◌≡◌, refl, sym, subst, ◌∙◌, ap, false, List, some, arith, length,
  length-replicate, replicate, sum_by, sum_by-replicate, u64_mod,
}
use event_driven_trading_sys.Doubles.{Doubles}
use event_driven_trading_sys.OrderBook.{OrderBook}
use event_driven_trading_sys.FileReplay
use event_driven_trading_sys.FileReplay.{FileReplay, count_row, step_row, next_row}
use event_driven_trading_sys.FileReplay.Drain.{rows}
use event_driven_trading_sys.LatencyHistogram.{LatencyHistogram, empty_histogram, bucket_number}
use event_driven_trading_sys.LatencyHistogram.Buckets.{IsHistogram}
use event_driven_trading_sys.Benchmarks.{
  BenchmarkConfig, BenchmarkReport, returned, new_book, measure, before_warm_up, before_measure,
  report, now_ns, run, run_reset, finish,
}
use event_driven_trading_sys.Benchmarks.Rows.{match_all}
use event_driven_trading_sys.Benchmarks.WarmUp.{warm_up-Warmed}
use event_driven_trading_sys.Benchmarks.Measure.{measure-Measured}

empty_histogram-IsHistogram : IsHistogram empty_histogram
unfolding replicate
empty_histogram-IsHistogram = record {
  sized = length-replicate {A = ℕ} bucket_number 0;
  counted = sum_by-replicate (λ c. c) bucket_number 0 refl;
}

empty_total : empty_histogram.total ≡ 0
unfolding replicate
empty_total = refl

none_before : {h : LatencyHistogram} → h ≡ empty_histogram → h.total ≡ 0
none_before e = ap (λ h. h.total) e ∙ empty_total

-- On a file with fewer rows than 2^64 and than the rounds given, the same at both openings, which
-- the matching engine alone processes from a new book, the benchmark returns: it counts every row
-- as processed, the histogram holds exactly one sample per row, also in the sum of its counters,
-- and at most as many events as rows are warm-up.
pub run-counts :
    {Float : Type 0} (d : Doubles Float) (clock : ℕ → ℕ × ℕ) (fuel n : ℕ)
    (cfg : BenchmarkConfig Float) (run_timestamp : List ℕ) (lines : List (List ℕ))
    (last : OrderBook)
    → match_all fuel (rows lines) new_book ≡ some last
    → length (rows lines) < n
    → length (rows lines) < u64_mod
    → (r : BenchmarkReport Float) × (h : LatencyHistogram) × (run d clock fuel n cfg run_timestamp
          (some lines)
          (some lines)
        ≡ returned (r, h))
      × (r.events_processed ≡ length (rows lines))
      × (h.total ≡ length (rows lines))
      × (sum_by (λ c. c) h.counts ≡ length (rows lines))
      × (r.warmup_events ≤ length (rows lines))
unfolding run FileReplay.make_replay FileReplay.reset
run-counts d clock fuel n cfg run_timestamp lines last m enough small =
    let rc = opened lines in
    let (w, warm, k) =
      warm_up-Warmed d clock fuel cfg (now_ns (clock 0)) n (before_warm_up d clock fuel rc) last
        refl refl m enough in
    let (t, measure, done) =
      measure-Measured d clock fuel n (before_measure d clock fuel w rc) last refl k.strategy m
        enough (omega arith)
        (subst (λ h. h.total + length (rows lines) < u64_mod) (sym k.histogram)
          (omega (arith, empty_total)))
        (subst IsHistogram (sym k.histogram) empty_histogram-IsHistogram) in
    (
      report d clock fuel cfg run_timestamp w t,
      t.histogram,
      ap (run_reset d clock fuel n cfg run_timestamp (some lines)) warm
          ∙ ap (finish d clock fuel cfg run_timestamp w) measure,
      omega (arith, done.count),
      omega (arith, done.total, none_before k.histogram),
      omega (arith, done.histogram.counted, done.total, none_before k.histogram),
      omega (arith, k.count),
    )
  where
    opened : List (List ℕ) → FileReplay
    opened lines = record {
      file = lines;
      events_replayed = 0;
      last_timestamp = 0;
      out_of_order_count = 0;
      done = false;
    }
