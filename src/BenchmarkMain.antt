-- ===== src/BenchmarkMain.antt =====
-- benchmarks/main.cpp: the command line of the benchmark runner, and the exit code. Whether the dataset
-- is there, and what the runner does with it, are arguments.
use event_driven_trading_sys.Base.{
  ℕ, Bool, true, false, ◌&&◌, ◌==◌, if◌then◌else◌, List, [], ◌∷◌, ◌++◌,
}
use event_driven_trading_sys.Text.{codes}
use event_driven_trading_sys.Benchmarks.{BenchmarkConfig}

-- `==` of strings.
unfoldable pub same_text : List ℕ → List ℕ → Bool
same_text [] [] = true
same_text [] (b ∷ t) = false
same_text (a ∷ s) [] = false
same_text (a ∷ s) (b ∷ t) = a == b && same_text s t

pub record Options : Type 0 where
  pub dataset : List ℕ
  pub check_baseline : Bool
  pub json_out : List ℕ
  pub csv_out : List ℕ

abbrev pub default_options : Options
default_options = record {
  dataset = codes "small";
  check_baseline = false;
  json_out = [];
  csv_out = [];
}

-- The loop over the arguments. `--json` and `--csv` take the next one; as the last argument they are
-- taken for a dataset.
unfoldable pub parse_args : List (List ℕ) → Options → Options
unfolding same_text
parse_args [] o = o
parse_args (arg ∷ []) o =
    if same_text arg (codes "--baseline")
    then record o { check_baseline = true }
    else record o { dataset = arg }
parse_args (arg ∷ value ∷ rest) o =
    let flag = parse_args (value ∷ rest) (record o { check_baseline = true }) in
    let json = parse_args rest (record o { json_out = value }) in
    let csv = parse_args rest (record o { csv_out = value }) in
    let other = parse_args (value ∷ rest) (record o { dataset = arg }) in
    if same_text arg (codes "--baseline")
    then flag
    else if same_text arg (codes "--json")
    then json
    else if same_text arg (codes "--csv")
    then csv
    else other

abbrev pub is_binary : List ℕ → Bool
unfolding same_text
is_binary dataset = same_text dataset (codes "large")

-- `datasets_dir + "/" + dataset + ext`
unfoldable pub dataset_path : List ℕ → List ℕ → List ℕ
unfolding same_text
dataset_path dir dataset =
    dir ++ (codes "/" ++ (dataset ++ (if is_binary dataset then codes ".bin" else codes ".csv")))

-- The path of a report: the one of the command line, or the default one.
abbrev pub report_path : List ℕ → List ℕ → List ℕ → List ℕ → List ℕ
report_path [] dir dataset suffix = dir ++ (codes "/" ++ (dataset ++ suffix))
report_path (c ∷ out) dir dataset suffix = c ∷ out

-- The configuration that is run, with the default thresholds of the warm-up.
unfoldable pub config_of : {Float : Type 0} → Float → List ℕ → List ℕ → BenchmarkConfig Float
unfolding dataset_path same_text
config_of one_second dir dataset = record {
  name = dataset;
  dataset_path = dataset_path dir dataset;
  binary_dataset = is_binary dataset;
  warmup_min_events = 1_000_000;
  warmup_min_seconds = one_second;
}

-- The exit code, by whether the dataset is there and the comparison with the baseline passes.
unfoldable pub exit_code : Options → Bool → Bool → ℕ
exit_code o exists passed =
    if exists then if o.check_baseline then (if passed then 0 else 1) else 0 else 1
