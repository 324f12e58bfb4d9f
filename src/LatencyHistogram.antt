-- ===== src/LatencyHistogram.antt =====
-- benchmarks/LatencyHistogram.hpp: latencies counted in buckets by their binary logarithm. The
-- counters are atomic and each call is one step; `percentile` starts from the target count, which
-- the source computes in floating point.
pub mod Buckets
use event_driven_trading_sys.Base.{
  ℕ, zero, suc, ◌+◌, ◌-◌, ◌/◌, ◌^◌, Bool, true, false, ◌==◌, ltb, if◌then◌else◌, List, get_or, set,
  replicate, add64,
}

abbrev pub bucket_number : ℕ
bucket_number = 64

pub record LatencyHistogram : Type 0 where
  pub counts : List ℕ
  pub total : ℕ
  pub max : ℕ

abbrev pub empty_histogram : LatencyHistogram
unfolding replicate
empty_histogram = record { counts = replicate bucket_number 0; total = 0; max = 0 }

-- `63 - __builtin_clzll(ns)`, the index of the highest bit that is set, over a number of bits.
unfoldable pub highest_bit : ℕ → ℕ → ℕ
highest_bit zero ns = 0
highest_bit (suc bits) ns = let rest = highest_bit bits (ns / 2) in if ltb ns 2 then 0 else suc rest

unfoldable pub bucket_index : ℕ → ℕ
bucket_index ns =
    if ns == 0
    then 0
    else let idx = highest_bit 64 ns in if ltb idx bucket_number then idx else bucket_number - 1

unfoldable pub representative : ℕ → ℕ
representative i = if i == 0 then 1 else let lo = 2 ^ (i - 1) in let hi = 2 ^ i - 1 in (lo + hi) / 2

unfoldable pub record_sample : LatencyHistogram → ℕ → LatencyHistogram
record_sample h ns =
    let i = bucket_index ns in
    record {
      counts = set h.counts i (add64 (get_or h.counts i 0) 1);
      total = add64 h.total 1;
      max = if ltb h.max ns then ns else h.max;
    }

unfoldable pub reset : LatencyHistogram → LatencyHistogram
reset h = empty_histogram

-- The loop of `percentile`, with the rounds left, the index and the sum so far.
unfoldable pub percentile_loop : List ℕ → ℕ → ℕ → ℕ → ℕ → ℕ
percentile_loop counts target zero i cumulative = representative (bucket_number - 1)
percentile_loop counts target (suc n) i cumulative =
    let cumulative' = add64 cumulative (get_or counts i 0) in
    let rest = percentile_loop counts target n (suc i) cumulative' in
    if ltb target cumulative' then representative i else rest

unfoldable pub percentile : LatencyHistogram → ℕ → ℕ
percentile h target = if h.total == 0 then 0 else percentile_loop h.counts target bucket_number 0 0

unfoldable pub bucket_count : LatencyHistogram → ℕ → ℕ
bucket_count h i = if ltb i bucket_number then get_or h.counts i 0 else 0
