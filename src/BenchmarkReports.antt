-- ===== src/BenchmarkReports.antt =====
-- The texts of benchmarks/BenchmarkRunner.cpp: the JSON and CSV reports, and the comparison with a
-- baseline that is read back from such JSON. A text is the list of its character codes.
pub mod Lines
pub mod RoundTrip
use Prim.Native.String.{String}
use event_driven_trading_sys.Base.{
  ℕ, Bool, true, false, not, ◌&&◌, ◌==◌, ltb, if◌then◌else◌, List, [], ◌∷◌, ◌++◌, Option, none,
  some,
}
use event_driven_trading_sys.Text.{
  codes, find, decimal, skip_space, scan_literal, scan_unsigned, comma,
}
use event_driven_trading_sys.OrderBook.{is_some}
use event_driven_trading_sys.Doubles.{Doubles}
use event_driven_trading_sys.Benchmarks.{BenchmarkReport}

abbrev pub quote : ℕ
quote = 34

abbrev pub newline : ℕ
newline = 10

-- Lines, each with its end.
unfoldable pub unlines : List (List ℕ) → List ℕ
unlines [] = []
unlines (l ∷ ls) = l ++ (newline ∷ unlines ls)

abbrev pub add_to_line : ℕ → List (List ℕ) → List (List ℕ)
add_to_line c [] = (c ∷ []) ∷ []
add_to_line c (l ∷ ls) = (c ∷ l) ∷ ls

-- What `std::getline` reads of a text, line by line.
unfoldable pub lines_of : List ℕ → List (List ℕ)
lines_of [] = []
lines_of (c ∷ s) = let rest = lines_of s in if c == newline then [] ∷ rest else add_to_line c rest

abbrev pub quoted : List ℕ → List ℕ
quoted s = quote ∷ (s ++ (quote ∷ []))

-- `  "key": value`
abbrev pub json_line : String → List ℕ → List ℕ
json_line key value = 32 ∷ (32 ∷ (quoted (codes key) ++ (58 ∷ (32 ∷ value))))

-- The text of one field and a comma behind it.
abbrev pub before_comma : List ℕ → List ℕ
before_comma value = value ++ (comma ∷ [])

module _ {Float : Type 0} (d : Doubles Float) where
  abbrev pub head_lines : BenchmarkReport Float → List (List ℕ)
  head_lines r =
      codes "{"
      ∷ json_line "name" (before_comma (quoted r.name))
      ∷ json_line "dataset" (before_comma (quoted r.dataset_path))
      ∷ json_line "timestamp" (before_comma (quoted r.run_timestamp))
      ∷ json_line "warmup_events" (before_comma (decimal r.warmup_events))
      ∷ json_line "warmup_duration_s" (before_comma (d.print r.warmup_duration_s))
      ∷ json_line "events" (before_comma (decimal r.events_processed))
      ∷ json_line "duration_s" (before_comma (d.print r.duration_s))
      ∷ []

  abbrev pub tail_lines : BenchmarkReport Float → List (List ℕ)
  tail_lines r =
      json_line "p999" (before_comma (decimal r.p999_ns))
      ∷ json_line "max" (decimal r.max_ns)
      ∷ codes "}"
      ∷ []

  abbrev pub percentile_lines : BenchmarkReport Float → List (List ℕ)
  percentile_lines r =
      json_line "p50" (before_comma (decimal r.p50_ns))
      ∷ json_line "p95" (before_comma (decimal r.p95_ns))
      ∷ []

  -- The lines from the 99th percentile on, and from the throughput on.
  abbrev pub p99_lines : BenchmarkReport Float → List (List ℕ)
  p99_lines r = json_line "p99" (before_comma (decimal r.p99_ns)) ∷ tail_lines r

  abbrev pub throughput_lines : BenchmarkReport Float → List (List ℕ)
  throughput_lines r =
      json_line "throughput" (before_comma (d.print r.throughput_eps))
      ∷ (percentile_lines r ++ p99_lines r)

  -- The file that is written.
  unfoldable pub save_json : BenchmarkReport Float → List ℕ
  unfolding unlines
  save_json r = unlines (head_lines r ++ throughput_lines r)

  abbrev pub csv_header : List ℕ
  csv_header =
      codes
        "name,dataset,timestamp,warmup_events,warmup_s,events,duration_s,throughput,p50,p95,p99,p999,max"

  abbrev pub csv_row : BenchmarkReport Float → List ℕ
  csv_row r =
      before_comma r.name
      ++ (before_comma r.dataset_path
          ++ (before_comma r.run_timestamp
              ++ (before_comma (decimal r.warmup_events)
                  ++ (before_comma (d.print r.warmup_duration_s)
                      ++ (before_comma (decimal r.events_processed)
                          ++ (before_comma (d.print r.duration_s)
                              ++ (before_comma (d.print r.throughput_eps)
                                  ++ (before_comma (decimal r.p50_ns)
                                      ++ (before_comma (decimal r.p95_ns)
                                          ++ (before_comma (decimal r.p99_ns)
                                              ++ (before_comma (decimal r.p999_ns)
                                                  ++ decimal r.max_ns)))))))))))

  -- The file that is there, if any, and behind it what is appended.
  unfoldable pub save_csv : BenchmarkReport Float → Option (List ℕ) → List ℕ
  unfolding unlines
  save_csv r none = unlines (csv_header ∷ csv_row r ∷ [])
  save_csv r (some old) = old ++ unlines (csv_row r ∷ [])

  -- What is looked for in a baseline file, 0 if it is not found.
  pub record Baseline : Type 0 where
    pub throughput : Float
    pub p99 : ℕ

  -- `sscanf` with ` "key": ` and a conversion behind it: the text that is left to convert.
  unfoldable pub scan_key : String → List ℕ → Option (List ℕ)
  unfolding scan_literal skip_space
  scan_key key line = scan_literal (quoted (codes key) ++ (58 ∷ [])) (skip_space line)

  abbrev pub scanned_float : Option (List ℕ) → Option Float
  scanned_float none = none
  scanned_float (some s) = d.scan s

  abbrev pub scanned_nat : Option (List ℕ) → Option (ℕ × List ℕ)
  scanned_nat none = none
  scanned_nat (some s) = scan_unsigned 64 s

  abbrev pub set_throughput : Baseline → Option Float → Baseline
  set_throughput base none = base
  set_throughput base (some x) = record base { throughput = x }

  abbrev pub set_p99 : Baseline → Option (ℕ × List ℕ) → Baseline
  set_p99 base none = base
  set_p99 base (some (n, _)) = record base { p99 = n }

  abbrev pub has_key : String → List ℕ → Bool
  has_key key line = is_some (find (quoted (codes key)) line)

  -- The body of the loop over the lines.
  unfoldable pub read_baseline_line : Baseline → List ℕ → Baseline
  unfolding scan_key
  read_baseline_line base line =
      let base' =
        if has_key "throughput" line
        then set_throughput base (scanned_float (scan_key "throughput" line))
        else base in
      if has_key "p99" line then set_p99 base' (scanned_nat (scan_key "p99" line)) else base'

  unfoldable pub read_baseline_loop : Baseline → List (List ℕ) → Baseline
  unfolding read_baseline_line
  read_baseline_loop base [] = base
  read_baseline_loop base (line ∷ lines) = read_baseline_loop (read_baseline_line base line) lines

  unfoldable pub read_baseline : List ℕ → Baseline
  unfolding read_baseline_loop lines_of
  read_baseline text =
      read_baseline_loop (record { throughput = d.literal 0 0; p99 = 0 }) (lines_of text)

  -- No throughput below, and no 99th percentile above the baseline by more than the threshold.
  abbrev pub throughput_ok : BenchmarkReport Float → Baseline → Float → Bool
  throughput_ok r base threshold =
      if d.lt (d.literal 0 0) base.throughput
      then not (d.lt (d.div r.throughput_eps base.throughput) (d.sub (d.literal 1 0) threshold))
      else true

  abbrev pub p99_ok : BenchmarkReport Float → Baseline → Float → Bool
  p99_ok r base threshold =
      if ltb 0 base.p99
      then not
          (d.lt (d.add (d.literal 1 0) threshold) (d.div (d.of_nat r.p99_ns) (d.of_nat base.p99)))
      else true

  abbrev pub compare_read : BenchmarkReport Float → Baseline → Float → Bool
  compare_read r base threshold = throughput_ok r base threshold && p99_ok r base threshold

  -- With the text of the baseline file, `none` if it cannot be opened.
  unfoldable pub compare_baseline : BenchmarkReport Float → Option (List ℕ) → Float → Bool
  unfolding read_baseline
  compare_baseline r none threshold = true
  compare_baseline r (some text) threshold = compare_read r (read_baseline text) threshold
