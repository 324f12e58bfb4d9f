-- ===== src/Benchmarks/Measure.antt =====
-- The measurement loop of benchmarks/BenchmarkRunner.cpp.
use event_driven_trading_sys.Base.{
  ℕ, zero, suc, ◌+◌, ◌<◌, ◌≡◌, sym, ◌∙◌, ap, true, false, List, [], ◌∷◌, some, some-injective,
  arith, length, u64_mod, add64, sub64,
}
use event_driven_trading_sys.Doubles.{Doubles}
use event_driven_trading_sys.Events.{Event}
use event_driven_trading_sys.OrderBook.{OrderBook}
use event_driven_trading_sys.Strategy.{signal, counted}
use event_driven_trading_sys.FileReplay
use event_driven_trading_sys.FileReplay.{FileReplay, count_row, step_row, next_row}
use event_driven_trading_sys.FileReplay.Drain.{rows}
use event_driven_trading_sys.LatencyHistogram.{record_sample}
use event_driven_trading_sys.LatencyHistogram.Buckets.{IsHistogram, record_sample-IsHistogram}
use event_driven_trading_sys.Benchmarks.{
  Bench, match_event, measure, measure_next, measure_gate, measured, now_ns, run,
}
use event_driven_trading_sys.Benchmarks.Rows.{
  match_all, no_row, a_row, next-NextRow, Passes, process-pass, Matched, match_all-Matched,
}

module _ {Float : Type 0} (d : Doubles Float) (clock : ℕ → ℕ × ℕ) (fuel : ℕ) where
  -- The state after a round of the measurement.
  abbrev timed : Bench → Event → List (List ℕ) → OrderBook → Bench
  timed s ev lines book = record {
    rc = count_row s.rc ev lines;
    book = book;
    strategy = counted s.strategy signal;
    histogram =
        record_sample s.histogram
          (sub64 (now_ns (clock (s.readings + 1))) (now_ns (clock s.readings)));
    count = add64 s.count 1;
    readings = s.readings + 1 + 1;
  }

  measure-row :
      (n : ℕ) (s : Bench) (ev : Event) (lines : List (List ℕ)) (book : OrderBook)
      → Passes s
      → FileReplay.next s.rc ≡ (count_row s.rc ev lines, some ev)
      → match_event fuel s.book ev ≡ some book
      → measure d clock fuel (suc n) s ≡ measure d clock fuel n (timed s ev lines book)
  unfolding measure
  measure-row n s ev lines book pass e m =
      ap (measure_next d clock fuel (measure d clock fuel n) s) e
      ∙ ap
          (measure_gate d clock fuel (measure d clock fuel n) (now_ns (clock s.readings))
            (record s { rc = count_row s.rc ev lines; readings = s.readings + 1 }) ev)
          (process-pass s.strategy ev pass)
      ∙ ap
          (measured d clock fuel (measure d clock fuel n) (now_ns (clock s.readings)) (record s {
            rc = count_row s.rc ev lines;
            readings = s.readings + 1;
            strategy = counted s.strategy signal;
          }))
          m

  -- The measurement loop counts the rows, times each of them, and leaves the book of the engine alone.
  pub record Measured (s t : Bench) (last : OrderBook) : Type 0 where
    pub book : t.book ≡ last
    pub count : t.count ≡ s.count + length (rows s.rc.file)
    pub total : t.histogram.total ≡ s.histogram.total + length (rows s.rc.file)
    pub histogram : IsHistogram t.histogram

  timed-IsHistogram :
      (s : Bench) (ev : Event) (lines : List (List ℕ)) (book : OrderBook)
      → s.histogram.total + 1 < u64_mod
      → IsHistogram s.histogram
      → IsHistogram (timed s ev lines book).histogram
        × ((timed s ev lines book).histogram.total ≡ s.histogram.total + 1)
  timed-IsHistogram s ev lines book room v =
      let r =
        record_sample-IsHistogram s.histogram
          (sub64 (now_ns (clock (s.readings + 1))) (now_ns (clock s.readings))) room v in
      (r.0, r.1)

  timed-Measured :
      (s t : Bench) (ev : Event) (lines : List (List ℕ)) (book last : OrderBook)
      → rows s.rc.file ≡ ev ∷ rows lines
      → s.count + 1 < u64_mod
      → s.histogram.total + 1 < u64_mod
      → IsHistogram s.histogram
      → Measured (timed s ev lines book) t last
      → Measured s t last
  timed-Measured s t ev lines book last first c room v m = record {
    book = m.book;
    count = omega (arith, m.count, ap length first);
    total = omega (arith, m.total, ap length first, (timed-IsHistogram s ev lines book room v).1);
    histogram = m.histogram;
  }

  pub measure-Measured :
      (n : ℕ) (s : Bench) (last : OrderBook)
      → s.rc.done ≡ false
      → Passes s
      → match_all fuel (rows s.rc.file) s.book ≡ some last
      → length (rows s.rc.file) < n
      → s.count + length (rows s.rc.file) < u64_mod
      → s.histogram.total + length (rows s.rc.file) < u64_mod
      → IsHistogram s.histogram
      → (t : Bench) × (measure d clock fuel n s ≡ some t) × Measured s t last
  unfolding measure
  measure-Measured zero s last open_file pass m enough c room v = absurd (omega arith)
  measure-Measured (suc n) s last open_file pass m enough c room v =
      elim (next-NextRow s.rc open_file) [
        | no_row empty e ↦ (
          record s { rc = record (s.rc) { file = []; done = true } },
          ap (measure_next d clock fuel (measure d clock fuel n) s) e,
          record {
            book = some-injective s.book last (ap (λ es. match_all fuel es s.book) (sym empty) ∙ m);
            count = omega (arith, ap length empty);
            total = omega (arith, ap length empty);
            histogram = v;
          },
        )
        | a_row ev lines first e ↦
            let k : Matched fuel ev (rows lines) s.book last =
              match_all-Matched fuel ev (rows lines) s.book last
                (ap (λ es. match_all fuel es s.book) (sym first) ∙ m) in
            let more : length (rows s.rc.file) ≡ suc (length (rows lines)) = ap length first in
            let sample : IsHistogram (timed s ev lines k.next).histogram
                × ((timed s ev lines k.next).histogram.total ≡ s.histogram.total + 1) =
              timed-IsHistogram s ev lines k.next (omega arith) v in
            let (t, run, done) =
              measure-Measured n (timed s ev lines k.next) last open_file pass k.others
                (omega arith) (omega arith) (omega (arith, sample)) sample.0 in
            (
              t,
              measure-row n s ev lines k.next pass e k.first ∙ run,
              timed-Measured s t ev lines k.next last first (omega arith) (omega arith) v done,
            )
      ]
