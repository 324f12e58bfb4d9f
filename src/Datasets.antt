-- ===== src/Datasets.antt =====
-- benchmarks/datasets/gen_datasets.cpp: the CSV datasets of the benchmarks, as lists of lines, and the
-- events of the binary one.
pub mod Quotes
pub mod Stress
pub mod StressRows
use event_driven_trading_sys.Base.{
  ℕ, zero, suc, ◌+◌, ◌-◌, ◌*◌, ◌/◌, ◌%◌, Bool, ◌&&◌, ◌==◌, ltb, leb, if◌then◌else◌, List, [], ◌∷◌,
  ◌++◌,
}
use event_driven_trading_sys.Text.{codes, decimal, comma}
use event_driven_trading_sys.Events.{
  Event, Side, bid, ask, side_code, zero_event, encode_type, new_order, cancel_order,
}

abbrev pub base_price : ℕ
base_price = 10_000

abbrev pub tick : ℕ
tick = 1

abbrev pub symbol : ℕ
symbol = 1

-- The line, without its end.
unfoldable pub write_csv_order : ℕ → ℕ → ℕ → ℕ → Side → List ℕ
write_csv_order ts order_id price qty side =
    decimal ts
    ++ (comma
        ∷ (decimal symbol
            ++ (comma
                ∷ (decimal new_order
                    ++ (comma
                        ∷ (decimal price
                            ++ (comma
                                ∷ (decimal qty
                                    ++ (comma
                                        ∷ (decimal order_id
                                            ++ (comma ∷ decimal (side_code side))))))))))))

-- The loop of `gen_csv`, with the rounds left.
unfoldable pub gen_csv_loop : ℕ → ℕ → ℕ → ℕ → List (List ℕ)
unfolding write_csv_order
gen_csv_loop zero i ts oid = []
gen_csv_loop (suc n) i ts oid =
    (if i % 2 == 0
      then write_csv_order ts oid (base_price + oid % 100 * tick) 100 ask
      else write_csv_order ts oid (base_price - oid % 100 * tick) 100 bid)
    ∷ gen_csv_loop n (i + 1) (ts + 100) (oid + 1)

unfoldable pub gen_csv : ℕ → List (List ℕ)
unfolding gen_csv_loop
gen_csv n_events =
    codes "timestamp,symbol_id,event_type,price,quantity,order_id,side"
    ∷ gen_csv_loop n_events 0 1_000 1

-- The loop of `gen_binary`: the records written.
unfoldable pub gen_binary_loop : ℕ → ℕ → ℕ → ℕ → List Event
gen_binary_loop zero i ts oid = []
gen_binary_loop (suc n) i ts oid =
    record zero_event {
      timestamp = ts;
      symbol_id = symbol;
      order_id = oid;
      price = base_price + oid % 100 * tick;
      quantity = 100;
      type = encode_type new_order (if i % 2 == 0 then ask else bid);
    }
    ∷ gen_binary_loop n (i + 1) (ts + 10) (oid + 1)

unfoldable pub write_csv_cancel : ℕ → ℕ → List ℕ
write_csv_cancel ts order_id =
    decimal ts
    ++ (comma
        ∷ (decimal symbol
            ++ (comma
                ∷ (decimal cancel_order ++ (codes ",0,0," ++ (decimal order_id ++ codes ",0"))))))

-- The variables of `gen_stress_csv`, with the number of draws from its generator so far.
pub record StressState : Type 0 where
  pub resting : ℕ → ℕ
  pub n_resting : ℕ
  pub oid : ℕ
  pub draws : ℕ

abbrev pub window : ℕ
window = 1_000

abbrev pub set_resting : ℕ → ℕ → (ℕ → ℕ) → ℕ → ℕ
set_resting i id resting j = if i == j then id else resting j

abbrev pub stress_price : Side → ℕ → ℕ
stress_price ask off = base_price + off
stress_price bid off = base_price - off

-- The generator is the sequence of what it draws.
module _ (rng : ℕ → ℕ) where
  abbrev pub does_cancel : StressState → Bool
  does_cancel s = leb (window / 2) s.n_resting && rng s.draws % 4 == 0

  -- The test draws only if there are orders enough.
  abbrev pub after_test : StressState → StressState
  after_test s = record s { draws = if leb (window / 2) s.n_resting then s.draws + 1 else s.draws }

  abbrev pub drawn_index : StressState → ℕ
  drawn_index s = rng s.draws % s.n_resting

  unfoldable pub cancel_round : StressState → StressState
  cancel_round s = record s {
    resting = set_resting (drawn_index s) (s.resting (s.n_resting - 1)) s.resting;
    n_resting = s.n_resting - 1;
    draws = s.draws + 1;
  }

  abbrev pub drawn_side : StressState → Side
  drawn_side s = if rng s.draws % 2 == 0 then ask else bid

  abbrev pub order_line : ℕ → StressState → List ℕ
  order_line ts s =
      write_csv_order ts s.oid (stress_price (drawn_side s) (rng (s.draws + 1) % 50 * tick))
        (50 + rng (s.draws + 2) % 50) (drawn_side s)

  unfoldable pub order_round : StressState → StressState
  order_round s =
      if ltb s.n_resting window
      then record s {
        resting = set_resting s.n_resting s.oid s.resting;
        n_resting = s.n_resting + 1;
        oid = s.oid + 1;
        draws = s.draws + 3;
      }
      else record s { oid = s.oid + 1; draws = s.draws + 3 }

  -- A round of the loop: the line, and the variables after it.
  unfoldable pub stress_round : ℕ → StressState → List ℕ × StressState
  unfolding write_csv_order write_csv_cancel cancel_round order_round
  stress_round ts s =
      if does_cancel s && ltb 0 s.n_resting
      then (
        write_csv_cancel ts (s.resting (drawn_index (after_test s))),
        cancel_round (after_test s),
      )
      else (order_line ts (after_test s), order_round (after_test s))

  -- The loop, with the rounds left.
  unfoldable pub gen_stress_loop : ℕ → ℕ → StressState → List (List ℕ)
  unfolding stress_round
  gen_stress_loop zero ts s = []
  gen_stress_loop (suc n) ts s =
      (stress_round ts s).0 ∷ gen_stress_loop n (ts + 50) (stress_round ts s).1

  abbrev pub stress_start : StressState
  stress_start = record { resting = λ _. 0; n_resting = 0; oid = 1; draws = 0 }

  -- The file of `total` events; the source has 500_000.
  unfoldable pub gen_stress_csv : ℕ → List (List ℕ)
  unfolding gen_stress_loop
  gen_stress_csv total =
      codes "timestamp,symbol_id,event_type,price,quantity,order_id,side"
      ∷ gen_stress_loop total 1_000 stress_start
