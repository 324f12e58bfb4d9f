-- ===== src/Benchmarks/Rows.antt =====
-- The rows of a dataset of benchmarks/BenchmarkRunner.cpp: how its loops read them, and the matching
-- engine alone over them.
use event_driven_trading_sys.Base.{
  ℕ, ◌≡◌, sym, ◌∙◌, ap, inl, inr, true, false, List, [], ◌∷◌, Option, none, some, Option-cases,
}
use event_driven_trading_sys.Events.{Event}
use event_driven_trading_sys.OrderBook.{OrderBook}
use event_driven_trading_sys.Strategy
use event_driven_trading_sys.Strategy.{StrategyEngine, pass_through, on_event, signal, counted}
use event_driven_trading_sys.FileReplay
use event_driven_trading_sys.FileReplay.{FileReplay, count_row, step_row, next_row}
use event_driven_trading_sys.FileReplay.Drain.{rows, rows_of, next-open, next_row-rows}
use event_driven_trading_sys.Benchmarks.{Bench, match_event}

abbrev pub after_event : (OrderBook → Option OrderBook) → Option OrderBook → Option OrderBook
after_event rest none = none
after_event rest (some book) = rest book

-- The matching engine alone over a list of events.
abbrev pub match_all : ℕ → List Event → OrderBook → Option OrderBook
match_all fuel [] book = some book
match_all fuel (e ∷ es) book = after_event (match_all fuel es) (match_event fuel book e)

-- What `next` does on an open controller, by the rows that are left.
pub data NextRow (c : FileReplay) : Type 0 where
  no_row :
      rows c.file ≡ [] → FileReplay.next c ≡ (record c { file = []; done = true }, none) → NextRow c
  a_row :
      (e : Event) (lines : List (List ℕ))
      → rows c.file ≡ e ∷ rows lines
      → FileReplay.next c ≡ (count_row c e lines, some e)
      → NextRow c

pub next-NextRow : (c : FileReplay) → c.done ≡ false → NextRow c
next-NextRow c open_file = elim (Option-cases (next_row c.file)) [
  | inl e ↦ no_row (next_row-rows c.file ∙ ap rows_of e) (next-open c open_file ∙ ap (step_row c) e)
  | inr ((out, lines), e) ↦
      a_row out lines (next_row-rows c.file ∙ ap rows_of e)
        (next-open c open_file ∙ ap (step_row c) e)
]

-- A strategy engine that lets every event pass.
abbrev pub Passes : Bench → Type 0
Passes s = s.strategy.strategy ≡ pass_through

pub process-pass :
    (en : StrategyEngine) (e : Event)
    → en.strategy ≡ pass_through
    → Strategy.process en e ≡ (counted en signal, signal)
unfolding Strategy.process on_event
process-pass en e pass = ap (λ st. (counted en (on_event st e), on_event st e)) pass

-- The engine matched all events of a list: so it did the first.
pub record Matched (fuel : ℕ) (e : Event) (es : List Event) (book last : OrderBook) : Type 0 where
  pub next : OrderBook
  pub first : match_event fuel book e ≡ some next
  pub others : match_all fuel es next ≡ some last

pub match_all-Matched :
    (fuel : ℕ) (e : Event) (es : List Event) (book last : OrderBook)
    → match_all fuel (e ∷ es) book ≡ some last
    → Matched fuel e es book last
match_all-Matched fuel e es book last h = elim (Option-cases (match_event fuel book e)) [
  | inl n ↦ cc (n, h)
  | inr (next, f) ↦ record {
    next = next;
    first = f;
    others = ap (after_event (match_all fuel es)) (sym f) ∙ h;
  }
]
