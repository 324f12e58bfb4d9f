-- ===== src/LatencyHistogram/Buckets.antt =====
-- The ranges of the buckets of benchmarks/LatencyHistogram.hpp, and the sum of its counters.
use event_driven_trading_sys.Base.{
  ℕ, zero, suc, ◌+◌, ◌-◌, ◌*◌, ◌/◌, ◌^◌, ◌≤◌, ◌<◌, ◌≡◌, ◌∙◌, ap, inl, inr, ltb, some, arith, get_or,
  get_or-some, get_elem?, get_elem?-some, set, length, length-set, sum_by, sum_by-set, sum_by-ge,
  add64, u64_mod, one-le-pow, Bool-cases,
}
use native.Mathlib.Nat.{pow-suc}
use event_driven_trading_sys.LatencyHistogram.{
  LatencyHistogram, bucket_number, highest_bit, bucket_index, representative, record_sample,
}

highest_bit_lem :
    (bits n : ℕ)
    → 0 < n
    → n < 2 ^ bits
    → (highest_bit bits n < bits) × (2 ^ highest_bit bits n ≤ n) × (n < 2 * 2 ^ highest_bit bits n)
unfolding highest_bit
highest_bit_lem zero n pos h = absurd (omega arith)
highest_bit_lem (suc bits) n pos h = elim (Bool-cases (ltb n 2)) [
  | inl e ↦ rw e (omega arith, omega arith, ground arith)
  | inr e ↦
      let (a, b, c) = highest_bit_lem bits (n / 2) (ground arith) (omega (arith, pow-suc 2 bits)) in
      rw e (
        omega arith,
        omega (arith, pow-suc 2 (highest_bit bits (n / 2))),
        omega (arith, pow-suc 2 (highest_bit bits (n / 2))),
      )
]

-- For a positive 64-bit latency the index is that of a bucket, and the latency is at least 2 to
-- that index and less than twice that.
pub bucket_index-range :
    (ns : ℕ)
    → 0 < ns
    → ns < u64_mod
    → (bucket_index ns < bucket_number)
      × (2 ^ bucket_index ns ≤ ns)
      × (ns < 2 * 2 ^ bucket_index ns)
unfolding bucket_index
bucket_index-range ns pos small = ground (arith, highest_bit_lem 64 ns)

representative-lt : (i n : ℕ) → 2 ≤ n → 2 ^ i ≤ n → representative i < n
unfolding representative
representative-lt zero n h k = omega arith
representative-lt (suc i) n h k =
    ground (arith, pow-suc 2 i, ap (λ m. 2 ^ m) (pred_suc i), one-le-pow i)
  where
    pred_suc : (i : ℕ) → suc i - 1 ≡ i
    pred_suc i = omega arith

-- The representative of the bucket of a 64-bit latency of at least 2 is less than the latency.
pub representative-bucket_index :
    (ns : ℕ) → 2 ≤ ns → ns < u64_mod → representative (bucket_index ns) < ns
representative-bucket_index ns h small =
    representative-lt (bucket_index ns) ns h (bucket_index-range ns (omega arith) small).1

bucket_index-lt : (ns : ℕ) → bucket_index ns < bucket_number
unfolding bucket_index
bucket_index-lt ns = ground arith

-- The counters add up to the total.
pub record IsHistogram (h : LatencyHistogram) : Type 0 where
  pub sized : length h.counts ≡ bucket_number
  pub counted : sum_by (λ n. n) h.counts ≡ h.total

-- On a histogram of 64 counters that add up to the total, with a total that does not wrap, a
-- recorded latency keeps that sum, adds one to the total, and the maximum is at least what it was
-- and at least the latency.
pub record_sample-IsHistogram :
    (h : LatencyHistogram) (ns : ℕ)
    → h.total + 1 < u64_mod
    → IsHistogram h
    → let g = record_sample h ns in
      IsHistogram g × (g.total ≡ h.total + 1) × (h.max ≤ g.max) × (ns ≤ g.max)
unfolding record_sample
record_sample-IsHistogram h ns room v = (
  record {
    sized = length-set h.counts (bucket_index ns) _ ∙ v.sized;
    counted =
        ground
          (arith, moved, here, v.counted, sum_by-ge (λ n. n) h.counts (bucket_index ns) x there);
  },
  omega arith,
  ground arith,
  ground arith,
)
  where
    bound : bucket_index ns < length h.counts
    bound = omega (arith, v.sized, bucket_index-lt ns)

    x : ℕ
    x = (get_elem?-some h.counts (bucket_index ns) bound).0

    there : get_elem? h.counts (bucket_index ns) ≡ some x
    there = (get_elem?-some h.counts (bucket_index ns) bound).1

    here : get_or h.counts (bucket_index ns) 0 ≡ x
    here = get_or-some h.counts (bucket_index ns) x 0 there

    moved :
        sum_by
            (λ n. n)
            (set h.counts (bucket_index ns) (add64 (get_or h.counts (bucket_index ns) 0) 1))
          + x
        ≡ sum_by (λ n. n) h.counts + add64 (get_or h.counts (bucket_index ns) 0) 1
    moved = sum_by-set (λ n. n) h.counts (bucket_index ns) _ x there
