-- ===== src/Tests/Bench.antt =====
-- The theorems about the benchmarks at concrete inputs, with numbers of 10^-9 in place of `double`.
use event_driven_trading_sys.Base.{
  ℕ, ◌+◌, ◌-◌, ◌*◌, ◌/◌, ◌^◌, ◌≤◌, ◌<◌, ◌≡◌, ◌∙◌, ap, refl, true, false, List, [], ◌∷◌, Option,
  none, some, arith, length, ltb, leb, sum_by, u64_mod,
}
use event_driven_trading_sys.Text.{codes, decimal, scan_unsigned}
use event_driven_trading_sys.Doubles.{Doubles}
use event_driven_trading_sys.Events.{Event, ask, make_new_order, encode_type, event_type}
use event_driven_trading_sys.OrderMap
use event_driven_trading_sys.OrderBook.{OrderBook, make_book}
use event_driven_trading_sys.OrderBook.Ops.{make_book-IsBook}
use event_driven_trading_sys.Matching.{MatchOutput, process_new_order}
use event_driven_trading_sys.Matching.Conserve.{Account, process_new_order-Account}
use event_driven_trading_sys.LatencyHistogram.{LatencyHistogram}
use event_driven_trading_sys.FileReplay.{read_line, parse_line}
use event_driven_trading_sys.Text.{scan_fields}
use event_driven_trading_sys.FileReplay.Drain.{rows}
use event_driven_trading_sys.Benchmarks.{
  BenchmarkConfig, BenchmarkReport, returned, match_event, new_book, book_of, run,
}
use event_driven_trading_sys.Benchmarks.Rows.{match_all, after_event}
use event_driven_trading_sys.Benchmarks.Run.{run-counts}
use event_driven_trading_sys.BenchmarkReports.{save_json, read_baseline}
use event_driven_trading_sys.BenchmarkReports.Lines.{is_line, is_line-IsLine}
use event_driven_trading_sys.BenchmarkReports.RoundTrip.{read_baseline-save_json}
use event_driven_trading_sys.BenchmarkMain.{
  default_options, parse_args, same_text, dataset_path, exit_code,
}

abbrev first : Option (ℕ × List ℕ) → Option ℕ
first none = none
first (some (n, _)) = some n

abbrev fixed_point : Doubles ℕ
fixed_point = record {
  literal = λ m k. m * 10 ^ 9 / 10 ^ k;
  of_nat = λ n. n * 10 ^ 9;
  to_nat = λ x. x / 10 ^ 9;
  add = λ x y. x + y;
  sub = λ x y. x - y;
  mul = λ x y. x * y / 10 ^ 9;
  div = λ x y. x * 10 ^ 9 / y;
  lt = ltb;
  le = leb;
  print = decimal;
  scan = λ s. first (scan_unsigned 64 s);
}

abbrev pub one_row : List (List ℕ)
one_row = codes "timestamp,symbol_id" ∷ codes "1000,1,1,10060,50,301,1" ∷ []

abbrev pub sale : Event
sale = make_new_order 1_000 1 301 10_060 50 ask

pub one_row-rows : rows one_row ≡ sale ∷ []
unfolding read_line parse_line scan_fields make_new_order encode_type
one_row-rows = refl

pub one_order : length (rows one_row) ≡ 1
one_order = ap length one_row-rows

no_orders : new_book.orders.count ≡ 0
unfolding make_book OrderMap.make
no_orders = refl

sale-small : sale.quantity < u64_mod
unfolding make_new_order
sale-small = omega arith

pub sold :
    (out : MatchOutput) × (b : OrderBook) × (process_new_order 2 new_book sale ≡ some (out, b))
    × Account sale new_book out b
sold =
    process_new_order-Account 2 new_book sale (make_book-IsBook 1 16) sale-small
      (omega (arith, no_orders))

match_event-sale : match_event 2 new_book sale ≡ some sold.1
unfolding match_event event_type make_new_order encode_type
match_event-sale = ap book_of sold.2

match_all-sale : match_all 2 (rows one_row) new_book ≡ some sold.1
match_all-sale =
    ap (λ es. match_all 2 es new_book) one_row-rows
    ∙ ap (after_event (match_all 2 [])) match_event-sale

abbrev config : BenchmarkConfig ℕ
config = record {
  name = codes "small";
  dataset_path = codes "datasets/small.csv";
  binary_dataset = false;
  warmup_min_events = 1_000_000;
  warmup_min_seconds = 10 ^ 9;
}

-- A clock that goes on by a microsecond with every reading.
abbrev clock : ℕ → ℕ × ℕ
clock i = (0, 1_000 * i)

run-counts_example :
    (r : BenchmarkReport ℕ) × (h : LatencyHistogram) × (run fixed_point clock 2 2 config []
        (some one_row)
        (some one_row)
      ≡ returned (r, h))
    × (r.events_processed ≡ length (rows one_row))
    × (h.total ≡ length (rows one_row))
    × (sum_by (λ c. c) h.counts ≡ length (rows one_row))
    × (r.warmup_events ≤ length (rows one_row))
run-counts_example =
    run-counts fixed_point clock 2 2 config [] one_row sold.1 match_all-sale
      (omega (arith, one_order)) (omega (arith, one_order))

abbrev benchmark_report : BenchmarkReport ℕ
benchmark_report = record {
  name = codes "small";
  dataset_path = codes "datasets/small.csv";
  run_timestamp = codes "2026-01-01T00:00:00Z";
  warmup_events = 10_000;
  warmup_duration_s = 5;
  events_processed = 10_000;
  duration_s = 4;
  throughput_eps = 2_500;
  p50_ns = 384;
  p95_ns = 768;
  p99_ns = 1_536;
  p999_ns = 3_072;
  max_ns = 9_000;
}

read_baseline-save_json_example :
    read_baseline fixed_point (save_json fixed_point benchmark_report)
    ≡ record { throughput = 2_500; p99 = 1_536 }
unfolding is_line decimal scan_unsigned
read_baseline-save_json_example =
    read_baseline-save_json fixed_point benchmark_report 2_500
      (record {
        name = is_line-IsLine (codes "small") refl;
        dataset_path = is_line-IsLine (codes "datasets/small.csv") refl;
        run_timestamp = is_line-IsLine (codes "2026-01-01T00:00:00Z") refl;
        warmup_duration_s = is_line-IsLine (decimal 5) refl;
        duration_s = is_line-IsLine (decimal 4) refl;
        throughput_eps = is_line-IsLine (decimal 2_500) refl;
        p99_range = omega arith;
      })
      refl

baseline_flag :
    parse_args
      (codes "medium" ∷ codes "--json" ∷ codes "out.json" ∷ codes "--baseline" ∷ [])
      default_options
    ≡ record {
      dataset = codes "medium";
      check_baseline = true;
      json_out = codes "out.json";
      csv_out = [];
    }
unfolding parse_args same_text
baseline_flag = refl

-- A `--json` with nothing behind it is taken for a dataset.
last_flag :
    parse_args (codes "--json" ∷ []) default_options
    ≡ record default_options { dataset = codes "--json" }
unfolding parse_args same_text
last_flag = refl

large_is_binary : dataset_path (codes "datasets") (codes "large") ≡ codes "datasets/large.bin"
unfolding dataset_path same_text
large_is_binary = refl

regression_fails : exit_code (record default_options { check_baseline = true }) true false ≡ 1
unfolding exit_code
regression_fails = refl
