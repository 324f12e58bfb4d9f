-- ===== src/Tests/Host.antt =====
-- The theorems about the replay of files, the startup and the publisher at concrete inputs.
use event_driven_trading_sys.Base.{
  ℕ, ◌≤◌, ◌<◌, ◌≡◌, ◌↔◌, refl, Bool, true, false, List, [], ◌∷◌, ◌++◌, some, arith, length,
}
use event_driven_trading_sys.Text.{codes, decimal, scan_fields}
use event_driven_trading_sys.Events.{ask}
use event_driven_trading_sys.FileReplay.{FileReplay, reset, read_line, parse_line}
use event_driven_trading_sys.FileReplay.Rows.{Row, IsRow, print_row, row_event, read_line-print_row}
use event_driven_trading_sys.FileReplay.Drain.{rows, descents, drain, drain-reset_file}
use event_driven_trading_sys.StartupAllocator.{default_config, new_allocator}
use event_driven_trading_sys.StartupAllocator as Allocator
use event_driven_trading_sys.StartupValidator.{Platform, all_passed, validate}
use event_driven_trading_sys.StartupValidator.Checks.{validate-start}
use event_driven_trading_sys.SnapshotPublisher.{EngineSnapshot, new_snapshot}
use event_driven_trading_sys.OrderBook.{make_book}
use event_driven_trading_sys.Strategy.{pass_through}
use event_driven_trading_sys.Replay
use event_driven_trading_sys.Replay.{VectorReplay}
use event_driven_trading_sys.ReplayLoop.{Controller, Dashboard, replay_loop, make_demo_events}
use event_driven_trading_sys.ReplayLoop.Published.{shown, expected, engine_run, shown-replay_loop}
use event_driven_trading_sys.Datasets.{gen_csv, gen_stress_csv}
use event_driven_trading_sys.Datasets.Stress.{AllLive, none_live}
use event_driven_trading_sys.Datasets.StressRows.{rows-gen_stress_csv}
use event_driven_trading_sys.Datasets.Quotes.{AllQuotes, rows-gen_csv}

abbrev row : Row
row = record {
  timestamp = 1_000;
  symbol_id = 1;
  kind = 1;
  price = 10_060;
  quantity = 50;
  order_id = 301;
  side = ask;
}

row-IsRow : IsRow row
row-IsRow = record {
  timestamp_range = omega arith;
  symbol_range = omega arith;
  kind_least = omega arith;
  kind_most = omega arith;
  price_range = omega arith;
  quantity_range = omega arith;
  order_range = omega arith;
}

row_text : print_row row ≡ codes "1000,1,1,10060,50,301,1"
unfolding print_row decimal
row_text = refl

read_line-print_row_example :
    (read_line (print_row row) ≡ some (row_event row))
    × (read_line (print_row row ++ (13 ∷ [])) ≡ some (row_event row))
read_line-print_row_example = read_line-print_row row row-IsRow

-- A header, a comment, two rows out of order, a row of an unknown type, and a row with no side.
abbrev file : List (List ℕ)
file =
    codes "timestamp,symbol_id"
    ∷ codes "# orders"
    ∷ codes "1000,1,1,10060,50,301,1"
    ∷ codes "990,1,2,0,0,301"
    ∷ codes "995,1,9,0,0,301,0"
    ∷ []

abbrev blank_replay : FileReplay
blank_replay = record {
  file = [];
  events_replayed = 7;
  last_timestamp = 9;
  out_of_order_count = 3;
  done = true;
}

abbrev fresh_replay : FileReplay
fresh_replay = record {
  file = file;
  events_replayed = 0;
  last_timestamp = 0;
  out_of_order_count = 0;
  done = false;
}

two_rows : length (rows file) ≡ 2
unfolding read_line parse_line scan_fields
two_rows = refl

fresh-reset : reset (some file) blank_replay ≡ some fresh_replay
unfolding reset
fresh-reset = refl

drain-reset_file_example :
    let r = drain 3 fresh_replay in
    (r.0 ≡ rows file)
    × (r.1.done ≡ true)
    × (r.1.events_replayed ≡ length (rows file))
    × (r.1.out_of_order_count ≡ descents 0 (rows file))
drain-reset_file_example =
    drain-reset_file 3 file blank_replay fresh_replay (omega (arith, two_rows))
      (omega (arith, two_rows)) fresh-reset

one_descent : descents 0 (rows file) ≡ 1
unfolding read_line parse_line scan_fields
one_descent = refl

abbrev platform : Platform
platform = record {
  version = some (codes "Linux version 6.1");
  is_steady = true;
  first_reading = 5;
  second_reading = 6;
  online_is_open = true;
  online = codes "0";
}

validate-start_example :
    (all_passed
        (validate platform (Allocator.start false default_config new_allocator).0 default_config)
      ≡ true)
    ↔ ((0 < 65_536)
        × (0 < 16_384)
        × (0 < 16_384)
        × (0 < 16_384)
        × (platform.is_steady ≡ true)
        × (platform.first_reading ≤ platform.second_reading))
validate-start_example = validate-start platform false default_config default_config new_allocator

passes_by_default :
    all_passed
      (validate platform (Allocator.start false default_config new_allocator).0 default_config)
    ≡ true
passes_by_default =
    (validate-start platform false default_config default_config new_allocator).1
      (omega arith, omega arith, omega arith, omega arith, refl, omega arith)

-- In place of `double`, numbers.
abbrev snapshot : EngineSnapshot ℕ
snapshot = new_snapshot 0

-- The vector controller as a replay source, and the demo on a small book.
abbrev vector_source : Controller VectorReplay
vector_source = record {
  next = Replay.next;
  done = Replay.done;
  events_replayed = λ c. c.events_replayed;
  source_name = λ c. codes "demo";
}

abbrev never : ℕ → Bool
never n = false

abbrev no_measure : ℕ → ℕ × ℕ
no_measure n = (0, 0)

abbrev dashboard : Dashboard VectorReplay ℕ
dashboard = record {
  rc = Replay.make_replay make_demo_events;
  book = make_book 1 16 0;
  strategy = record { strategy = pass_through; signal_count = 0; noop_count = 0 };
  snap = snapshot;
  processed = 0;
}

shown-replay_loop_example :
    shown (replay_loop vector_source 0 no_measure never 9 12 dashboard)
    ≡ expected []
        (engine_run vector_source never 9 12 dashboard.rc dashboard.strategy dashboard.book)
shown-replay_loop_example =
    shown-replay_loop vector_source 0 no_measure never 9 12 dashboard (omega arith)

rows-gen_csv_example : (length (rows (gen_csv 3)) ≡ 3) × AllQuotes 1 (rows (gen_csv 3))
rows-gen_csv_example = rows-gen_csv 3 (omega arith)

-- A generator that counts.
abbrev counting : ℕ → ℕ
counting i = i

rows-gen_stress_csv_example :
    (length (rows (gen_stress_csv counting 3)) ≡ 3)
    × AllLive 1 none_live (rows (gen_stress_csv counting 3))
rows-gen_stress_csv_example = rows-gen_stress_csv counting 3 (omega arith)
