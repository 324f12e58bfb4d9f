-- ===== src/PerformanceMetrics.antt =====
-- benchmarks/PerformanceMetrics.hpp: the live counters of the engine, and what the dashboard is given of
-- them. The counters are atomic; a snapshot is taken with no other thread between its loads.
use event_driven_trading_sys.Base.{ℕ}
use event_driven_trading_sys.Doubles.{Doubles}
use event_driven_trading_sys.LatencyHistogram
use event_driven_trading_sys.LatencyHistogram.{LatencyHistogram}
use event_driven_trading_sys.Benchmarks.{percentile_of}

pub record PerformanceMetrics : Type 0 where
  pub events_processed : ℕ
  pub total_duration_ns : ℕ
  pub throughput_eps : ℕ
  pub queue_depth : ℕ
  pub pool_exhaustion_count : ℕ
  pub latency : LatencyHistogram

pub record Snapshot (Float : Type 0) : Type 0 where
  pub events_processed : ℕ
  pub throughput_eps : Float
  pub p50_ns : ℕ
  pub p95_ns : ℕ
  pub p99_ns : ℕ
  pub p999_ns : ℕ
  pub max_ns : ℕ
  pub queue_depth : ℕ
  pub pool_exhaustion_count : ℕ

unfoldable pub snapshot : {Float : Type 0} → Doubles Float → PerformanceMetrics → Snapshot Float
unfolding percentile_of
snapshot d m = record {
  events_processed = m.events_processed;
  throughput_eps = d.of_nat m.throughput_eps;
  p50_ns = percentile_of d m.latency (d.literal 50 0);
  p95_ns = percentile_of d m.latency (d.literal 95 0);
  p99_ns = percentile_of d m.latency (d.literal 99 0);
  p999_ns = percentile_of d m.latency (d.literal 999 1);
  max_ns = m.latency.max;
  queue_depth = m.queue_depth;
  pool_exhaustion_count = m.pool_exhaustion_count;
}

unfoldable pub reset : PerformanceMetrics → PerformanceMetrics
unfolding LatencyHistogram.reset
reset m = record {
  events_processed = 0;
  total_duration_ns = 0;
  throughput_eps = 0;
  queue_depth = 0;
  pool_exhaustion_count = 0;
  latency = LatencyHistogram.reset m.latency;
}
