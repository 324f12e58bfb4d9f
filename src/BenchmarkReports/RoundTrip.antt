-- ===== src/BenchmarkReports/RoundTrip.antt =====
-- A report that `save_json` of benchmarks/BenchmarkRunner.cpp wrote, read back by `compare_baseline`.
use event_driven_trading_sys.Base.{
  ℕ, ◌^◌, ◌<◌, ◌≡◌, refl, ◌∙◌, ap, true, false, Bool, if◌then◌else◌, List, [], ◌∷◌, ◌++◌, none,
  some, arith,
}
use event_driven_trading_sys.Text.{find, starts_with, decimal, skip_space, scan_unsigned, comma}
use event_driven_trading_sys.Text.Decimal.{scan_unsigned-decimal}
use event_driven_trading_sys.Doubles.{Doubles}
use event_driven_trading_sys.Benchmarks.{BenchmarkReport}
use event_driven_trading_sys.BenchmarkReports.{
  lines_of, quoted, json_line, before_comma, head_lines, tail_lines, percentile_lines, p99_lines,
  throughput_lines, save_json, Baseline, scan_key, scanned_float, scanned_nat, set_throughput,
  set_p99, read_baseline_line, read_baseline_loop, read_baseline,
}
use event_driven_trading_sys.BenchmarkReports.Lines.{
  IsLine, lines_of-unlines, is_line, decimal-IsLine, quoted-IsLine, AreLines-append, field-IsLine,
  text-IsLine, number-IsLine,
}

same_branches {ℓ} : {A : Type ℓ} (c : Bool) (x : A) → (if c then x else x) ≡ x
same_branches true x = refl
same_branches false x = refl

scan_unsigned-space :
    (n : ℕ) → n < 2 ^ 64 → scan_unsigned 64 (32 ∷ before_comma (decimal n)) ≡ some (n, comma ∷ [])
unfolding scan_unsigned skip_space
scan_unsigned-space n h = scan_unsigned-decimal 64 n (comma ∷ []) h (omega arith) refl

module _ {Float : Type 0} (d : Doubles Float) where
  -- A line that holds neither of the two values.
  abbrev IsOther : List ℕ → Type 0
  IsOther line = (scan_key d "throughput" line ≡ none) × (scan_key d "p99" line ≡ none)

  abbrev AreOther : List (List ℕ) → Type 0
  AreOther [] = Unit
  AreOther (l ∷ ls) = IsOther l × AreOther ls

  read_baseline_line-other :
      (base : Baseline d) (line : List ℕ) → IsOther line → read_baseline_line d base line ≡ base
  unfolding read_baseline_line
  read_baseline_line-other base line (t, p) = ground (
    arith,
    ap (λ s. set_throughput d base (scanned_float d s)) t,
    ap (λ s. set_p99 d base (scanned_nat d s)) p,
  )

  read_baseline_loop-others :
      (base : Baseline d) (ks ls : List (List ℕ))
      → AreOther ks
      → read_baseline_loop d base (ks ++ ls) ≡ read_baseline_loop d base ls
  unfolding read_baseline_loop
  read_baseline_loop-others base [] ls h = refl
  read_baseline_loop-others base (k ∷ ks) ls (h, hs) =
      ap (λ b. read_baseline_loop d b (ks ++ ls)) (read_baseline_line-other base k h)
      ∙ read_baseline_loop-others base ks ls hs

  read_baseline_loop-line :
      (base base' : Baseline d) (line : List ℕ) (lines : List (List ℕ))
      → read_baseline_line d base line ≡ base'
      → read_baseline_loop d base (line ∷ lines) ≡ read_baseline_loop d base' lines
  unfolding read_baseline_loop
  read_baseline_loop-line base base' line lines e = ap (λ b. read_baseline_loop d b lines) e

  head_lines-AreOther : (r : BenchmarkReport Float) → AreOther (head_lines d r)
  unfolding scan_key
  head_lines-AreOther r = (
    (refl, refl),
    (
      (refl, refl),
      (
        (refl, refl),
        ((refl, refl), ((refl, refl), ((refl, refl), ((refl, refl), ((refl, refl), tt))))),
      ),
    ),
  )

  tail_lines-AreOther : (r : BenchmarkReport Float) → AreOther (tail_lines d r)
  unfolding scan_key
  tail_lines-AreOther r = ((refl, refl), ((refl, refl), ((refl, refl), tt)))

  percentiles-AreOther : (r : BenchmarkReport Float) → AreOther (percentile_lines d r)
  unfolding scan_key
  percentiles-AreOther r = ((refl, refl), ((refl, refl), tt))

  throughput_line :
      (base : Baseline d) (value : List ℕ) (x : Float)
      → d.scan (32 ∷ value) ≡ some x
      → read_baseline_line d base (json_line "throughput" value) ≡ record base { throughput = x }
  unfolding read_baseline_line scan_key find starts_with
  throughput_line base value x e = same_branches _ _ ∙ ap (set_throughput d base) e

  p99_line :
      (base : Baseline d) (n : ℕ)
      → n < 2 ^ 64
      → read_baseline_line d base (json_line "p99" (before_comma (decimal n)))
        ≡ record base { p99 = n }
  unfolding read_baseline_line scan_key find starts_with
  p99_line base n h =
      ap (λ b. set_p99 d b (scan_unsigned 64 (32 ∷ before_comma (decimal n))))
        (same_branches _ base)
      ∙ ap (set_p99 d base) (scan_unsigned-space n h)

  -- The report's texts and numbers are each on one line.
  pub record IsPrintable (r : BenchmarkReport Float) : Type 0 where
    pub name : IsLine r.name
    pub dataset_path : IsLine r.dataset_path
    pub run_timestamp : IsLine r.run_timestamp
    pub warmup_duration_s : IsLine (d.print r.warmup_duration_s)
    pub duration_s : IsLine (d.print r.duration_s)
    pub throughput_eps : IsLine (d.print r.throughput_eps)
    pub p99_range : r.p99_ns < 2 ^ 64

  save_json-lines :
      (r : BenchmarkReport Float)
      → IsPrintable r
      → lines_of (save_json d r) ≡ head_lines d r ++ throughput_lines d r
  unfolding save_json is_line
  save_json-lines r v = lines_of-unlines (head_lines d r ++ throughput_lines d r) (
      AreLines-append (head_lines d r) (throughput_lines d r)
        (
          (refl, tt),
          (
            text-IsLine "name" (quoted r.name) refl (quoted-IsLine r.name v.name),
            (
              text-IsLine "dataset" (quoted r.dataset_path) refl
                  (quoted-IsLine r.dataset_path v.dataset_path),
              (
                text-IsLine "timestamp" (quoted r.run_timestamp) refl
                    (quoted-IsLine r.run_timestamp v.run_timestamp),
                (
                  number-IsLine "warmup_events" r.warmup_events refl,
                  (
                    text-IsLine "warmup_duration_s" (d.print r.warmup_duration_s) refl
                        v.warmup_duration_s,
                    (
                      number-IsLine "events" r.events_processed refl,
                      (text-IsLine "duration_s" (d.print r.duration_s) refl v.duration_s, tt),
                    ),
                  ),
                ),
              ),
            ),
          ),
        )
        (
          text-IsLine "throughput" (d.print r.throughput_eps) refl v.throughput_eps,
          (
            number-IsLine "p50" r.p50_ns refl,
            (
              number-IsLine "p95" r.p95_ns refl,
              (
                number-IsLine "p99" r.p99_ns refl,
                (
                  number-IsLine "p999" r.p999_ns refl,
                  (
                    field-IsLine "max" (decimal r.max_ns) refl (decimal-IsLine r.max_ns),
                    ((refl, tt), tt),
                  ),
                ),
              ),
            ),
          ),
        ))

  -- From the JSON that `save_json` writes for a report with no end of line in its texts and a
  -- 64-bit 99th percentile, `compare_baseline` reads back that 99th percentile, and as the
  -- throughput the number that the scan of its printed text gives.
  pub read_baseline-save_json :
      (r : BenchmarkReport Float) (x : Float)
      → IsPrintable r
      → d.scan (32 ∷ before_comma (d.print r.throughput_eps)) ≡ some x
      → read_baseline d (save_json d r) ≡ record { throughput = x; p99 = r.p99_ns }
  unfolding read_baseline read_baseline_loop
  read_baseline-save_json r x v e =
      let none_read : Baseline d = record { throughput = d.literal 0 0; p99 = 0 } in
      let one_read : Baseline d = record { throughput = x; p99 = 0 } in
      let both_read : Baseline d = record { throughput = x; p99 = r.p99_ns } in
      ap (read_baseline_loop d none_read) (save_json-lines r v)
      ∙ read_baseline_loop-others none_read (head_lines d r) (throughput_lines d r)
          (head_lines-AreOther r)
      ∙ read_baseline_loop-line none_read one_read _ (percentile_lines d r ++ p99_lines d r)
          (throughput_line none_read (before_comma (d.print r.throughput_eps)) x e)
      ∙ read_baseline_loop-others one_read (percentile_lines d r) (p99_lines d r)
          (percentiles-AreOther r)
      ∙ read_baseline_loop-line one_read both_read _ (tail_lines d r)
          (p99_line one_read r.p99_ns v.p99_range)
      ∙ read_baseline_loop-others both_read (tail_lines d r) [] (tail_lines-AreOther r)
