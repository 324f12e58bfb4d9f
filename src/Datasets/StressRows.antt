-- ===== src/Datasets/StressRows.antt =====
-- The stress dataset of benchmarks/datasets/gen_datasets.cpp, read back by the replay of files.
use event_driven_trading_sys.Base.{
  ℕ, zero, suc, ◌+◌, ◌*◌, ◌%◌, ◌^◌, ◌<◌, ◌≡◌, refl, subst, ap, inl, inr, Bool, true, false, ◌&&◌,
  ltb, Bool-cases, List, ◌∷◌, some, length, arith,
}
use event_driven_trading_sys.Text.{decimal}
use event_driven_trading_sys.Events.{Side, bid, ask, new_order, cancel_order}
use event_driven_trading_sys.Events.Codec.{event_type-encode_type}
use event_driven_trading_sys.FileReplay.{read_line}
use event_driven_trading_sys.FileReplay.Rows.{Row, print_row, row_event, read_line-print_row}
use event_driven_trading_sys.FileReplay.Drain.{rows}
use event_driven_trading_sys.Datasets.{
  StressState, window, symbol, tick, stress_price, drawn_side, write_csv_cancel, does_cancel,
  after_test, drawn_index, cancel_round, order_line, order_round, stress_round, gen_stress_loop,
  gen_stress_csv, stress_start,
}
use event_driven_trading_sys.Datasets.Quotes.{order_row, read_line-write_csv_order}
use event_driven_trading_sys.Datasets.Stress.{
  mark, AllLive, none_live, IsStress, index-range, cancel_round-IsStress, order_round-IsStress,
}

abbrev cancel_row : ℕ → ℕ → Row
cancel_row ts oid = record {
  timestamp = ts;
  symbol_id = symbol;
  kind = cancel_order;
  price = 0;
  quantity = 0;
  order_id = oid;
  side = bid;
}

read_line-write_csv_cancel :
    (ts oid : ℕ)
    → ts < 2 ^ 64
    → oid < 2 ^ 64
    → read_line (write_csv_cancel ts oid) ≡ some (row_event (cancel_row ts oid))
unfolding write_csv_cancel print_row decimal
read_line-write_csv_cancel ts oid ht ho =
    (read_line-print_row (cancel_row ts oid) (record {
      timestamp_range = ht;
      symbol_range = omega arith;
      kind_least = omega arith;
      kind_most = omega arith;
      price_range = omega arith;
      quantity_range = omega arith;
      order_range = ho;
    })).0

after_test-IsStress :
    (rng : ℕ → ℕ) (live : ℕ → Bool) (s : StressState)
    → IsStress live s
    → IsStress live (after_test rng s)
after_test-IsStress rng live s v = record {
  room = v.room;
  listed = v.listed;
  once = v.once;
  earlier = v.earlier;
}

stress_price-small : (side : Side) (off : ℕ) → off < 50 → stress_price side off < 2 ^ 64
stress_price-small bid off h = omega (arith, h)
stress_price-small ask off h = omega (arith, h)

-- The file that is left, read: as many events as rounds, and every cancel names a live order.
abbrev IsRead : ℕ → ℕ → (ℕ → Bool) → List (List ℕ) → Type 0
IsRead n oid live lines = (length (rows lines) ≡ n) × AllLive oid live (rows lines)

cons-order :
    (rng : ℕ → ℕ) (n ts : ℕ) (s : StressState) (live : ℕ → Bool) (lines : List (List ℕ))
    → ts < 2 ^ 64
    → s.oid < 2 ^ 64
    → IsRead n (s.oid + 1) (mark s.oid true live) lines
    → IsRead (suc n) s.oid live (order_line rng ts s ∷ lines)
cons-order rng n ts s live lines ht ho k =
    let side = drawn_side rng s in
    let price = stress_price side (rng (s.draws + 1) % 50 * tick) in
    let qty = 50 + rng (s.draws + 2) % 50 in
    let read =
      read_line-write_csv_order ts s.oid price qty side ht ho
        (stress_price-small side (rng (s.draws + 1) % 50 * tick) (omega arith)) (omega arith) in
    let kind =
      event_type-encode_type (row_event (order_row ts s.oid price qty side)) new_order side
        (omega arith) refl in
    rw (read, rows) (ap suc k.0, inl (kind.0, refl, k.1))

cons-cancel :
    (n ts oid id : ℕ) (live : ℕ → Bool) (lines : List (List ℕ))
    → ts < 2 ^ 64
    → id < 2 ^ 64
    → live id ≡ true
    → IsRead n oid (mark id false live) lines
    → IsRead (suc n) oid live (write_csv_cancel ts id ∷ lines)
cons-cancel n ts oid id live lines ht hi h k =
    let kind =
      event_type-encode_type (row_event (cancel_row ts id)) cancel_order bid (omega arith) refl in
    rw (read_line-write_csv_cancel ts id ht hi, rows) (ap suc k.0, inr (kind.0, h, k.1))

oid-order_round : (rng : ℕ → ℕ) (s : StressState) → (order_round rng s).oid ≡ s.oid + 1
unfolding order_round
oid-order_round rng s = elim (Bool-cases (ltb s.n_resting window)) [
  | inl e ↦ rw e refl
  | inr e ↦ rw e refl
]

rows-gen_stress_loop :
    (rng : ℕ → ℕ) (n ts : ℕ) (s : StressState) (live : ℕ → Bool)
    → IsStress live s
    → ts + 50 * n < 2 ^ 64
    → s.oid + n < 2 ^ 64
    → IsRead n s.oid live (gen_stress_loop rng n ts s)
unfolding gen_stress_loop stress_round cancel_round
rows-gen_stress_loop rng zero ts s live v ht ho = (refl, tt)
rows-gen_stress_loop rng (suc n) ts s live v ht ho =
    let s' = after_test rng s in
    let v' = after_test-IsStress rng live s v in
    elim (Bool-cases (does_cancel rng s && ltb 0 s.n_resting)) [
      | inl e ↦
          let some_rest : 0 < s.n_resting = ground (arith, e) in
          let id = s.resting (drawn_index rng s') in
          let h = index-range rng live s' v' some_rest in
          rw e (
            cons-cancel n ts s.oid id live _ (omega (arith, ht))
              (omega (arith, v.earlier (drawn_index rng s') h, ho))
              (v.listed (drawn_index rng s') h)
              (rows-gen_stress_loop rng n (ts + 50) (cancel_round rng s') (mark id false live)
                (cancel_round-IsStress rng live s' v' some_rest) (omega (arith, ht))
                (omega (arith, ho))))
      | inr e ↦ rw e (
          cons-order rng n ts s' live _ (omega (arith, ht)) (omega (arith, ho)) (
            subst
              (λ oid.
                IsRead n oid (mark s.oid true live)
                  (gen_stress_loop rng n (ts + 50) (order_round rng s')))
              (oid-order_round rng s')
              (rows-gen_stress_loop rng n (ts + 50) (order_round rng s') (mark s.oid true live)
                (order_round-IsStress rng live s' v') (omega (arith, ht))
                (omega (arith, ho, oid-order_round rng s')))))
    ]

-- Whatever numbers are drawn, and for timestamps that fit 64 bits, the replay of files reads from
-- the CSV of `total` events that `gen_stress_csv` writes exactly `total` events: new orders, with
-- ids that count up from 1, and cancels, each of an order that came before it and was not
-- cancelled since.
pub rows-gen_stress_csv :
    (rng : ℕ → ℕ) (total : ℕ)
    → 1_000 + 50 * total < 2 ^ 64
    → (length (rows (gen_stress_csv rng total)) ≡ total)
      × AllLive 1 none_live (rows (gen_stress_csv rng total))
unfolding gen_stress_csv read_line
rows-gen_stress_csv rng total h =
    rows-gen_stress_loop rng total 1_000 (stress_start rng) none_live
      (record {
        room = omega arith;
        listed = λ j k. absurd (omega (arith, k));
        once = λ i j hi hj e. absurd (omega (arith, hi));
        earlier = λ j k. absurd (omega (arith, k));
      })
      (omega (arith, h)) (omega (arith, h))
