-- ===== src/Benchmarks/WarmUp.antt =====
-- The warm-up loop of benchmarks/BenchmarkRunner.cpp.
use event_driven_trading_sys.Base.{
  ℕ, zero, suc, ◌+◌, ◌≤◌, ◌<◌, ◌≡◌, refl, sym, ◌∙◌, ap, ◌⊎◌, inl, inr, true, false, Bool, ◌&&◌, leb,
  List, [], some, arith, length, add64, Bool-cases,
}
use event_driven_trading_sys.Doubles.{Doubles}
use event_driven_trading_sys.Events.{Event}
use event_driven_trading_sys.OrderBook.{OrderBook}
use event_driven_trading_sys.Strategy.{signal, counted}
use event_driven_trading_sys.FileReplay
use event_driven_trading_sys.FileReplay.{FileReplay, count_row, step_row, next_row}
use event_driven_trading_sys.FileReplay.Drain.{rows}
use event_driven_trading_sys.Benchmarks.{
  BenchmarkConfig, Bench, match_event, warm_up, warm_next, warm_gate, warmed, seconds, now_ns, run,
}
use event_driven_trading_sys.Benchmarks.Rows.{
  match_all, no_row, a_row, next-NextRow, Passes, process-pass, Matched, match_all-Matched,
}

module _ {Float : Type 0} (d : Doubles Float) (clock : ℕ → ℕ × ℕ) (fuel : ℕ) where
  -- The state after a round of the warm-up.
  abbrev warm : Bench → Event → List (List ℕ) → OrderBook → Bench
  warm s ev lines book = record s {
    rc = count_row s.rc ev lines;
    book = book;
    strategy = counted s.strategy signal;
    count = add64 s.count 1;
    readings = s.readings + 1;
  }

  -- The warm-up leaves the histogram alone and counts at most the rows.
  pub record Warmed (s t : Bench) : Type 0 where
    pub histogram : t.histogram ≡ s.histogram
    pub strategy : Passes t
    pub count : t.count ≤ s.count + length (rows s.rc.file)

  module _ (cfg : BenchmarkConfig Float) (start : ℕ) where
    warm_up-row :
        (n : ℕ) (s : Bench) (ev : Event) (lines : List (List ℕ)) (book : OrderBook)
        → Passes s
        → FileReplay.next s.rc ≡ (count_row s.rc ev lines, some ev)
        → match_event fuel s.book ev ≡ some book
        → (warm_up d clock fuel (suc n) cfg start s ≡ some (warm s ev lines book))
          ⊎ (warm_up d clock fuel (suc n) cfg start s
              ≡ warm_up d clock fuel n cfg start (warm s ev lines book))
    unfolding warm_up
    warm_up-row n s ev lines book pass e m =
        let R = warm_up d clock fuel n cfg start in
        let round : warm_up d clock fuel (suc n) cfg start s
            ≡ warmed d clock fuel R cfg start (before_warm s ev lines) (some book) =
          ap (warm_next d clock fuel R cfg start s) e
          ∙ ap (warm_gate d clock fuel R cfg start (record s { rc = count_row s.rc ev lines }) ev)
              (process-pass s.strategy ev pass)
          ∙ ap (warmed d clock fuel R cfg start (before_warm s ev lines)) m in
        elim (Bool-cases (breaks s)) [
          | inl b ↦ inl (round ∙ rw b refl)
          | inr b ↦ inr (round ∙ rw b refl)
        ]
      where
        before_warm : Bench → Event → List (List ℕ) → Bench
        before_warm s ev lines = record s {
          rc = count_row s.rc ev lines;
          strategy = counted s.strategy signal;
        }

        breaks : Bench → Bool
        breaks s =
            leb cfg.warmup_min_events (add64 s.count 1)
            && d.le cfg.warmup_min_seconds (seconds d start (now_ns (clock s.readings)))

    pub warm_up-Warmed :
        (n : ℕ) (s : Bench) (last : OrderBook)
        → s.rc.done ≡ false
        → Passes s
        → match_all fuel (rows s.rc.file) s.book ≡ some last
        → length (rows s.rc.file) < n
        → (t : Bench) × (warm_up d clock fuel n cfg start s ≡ some t) × Warmed s t
    unfolding warm_up
    warm_up-Warmed zero s last open_file pass m enough = absurd (omega arith)
    warm_up-Warmed (suc n) s last open_file pass m enough = elim (next-NextRow s.rc open_file) [
      | no_row empty e ↦ (
        record s { rc = record (s.rc) { file = []; done = true } },
        ap (warm_next d clock fuel (warm_up d clock fuel n cfg start) cfg start s) e,
        record { histogram = refl; strategy = pass; count = omega arith },
      )
      | a_row ev lines first e ↦
          let k : Matched fuel ev (rows lines) s.book last =
            match_all-Matched fuel ev (rows lines) s.book last
              (ap (λ es. match_all fuel es s.book) (sym first) ∙ m) in
          let more : length (rows s.rc.file) ≡ suc (length (rows lines)) = ap length first in
          elim (warm_up-row n s ev lines k.next pass e k.first) [
            | inl stop ↦ (
              warm s ev lines k.next,
              stop,
              record { histogram = refl; strategy = pass; count = omega arith },
            )
            | inr on ↦
                let (t, run, w) =
                  warm_up-Warmed n (warm s ev lines k.next) last open_file pass k.others
                    (omega arith) in
                (
                  t,
                  on ∙ run,
                  record {
                    histogram = w.histogram;
                    strategy = w.strategy;
                    count = omega (arith, w.count);
                  },
                )
          ]
    ]
