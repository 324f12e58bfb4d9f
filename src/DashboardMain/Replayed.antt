-- ===== src/DashboardMain/Replayed.antt =====
-- The replay thread of dashboard/websocket/main.cpp over a whole file, with no signal.
use event_driven_trading_sys.Base.{
  ℕ, zero, suc, ◌+◌, ◌≤◌, ◌<◌, ◌≡◌, refl, sym, subst, ◌∙◌, ap, Bool, true, false, List, [], ◌∷◌,
  Option, none, some, some-injective, Option-cases, inl, inr, arith, length, u64_mod,
}
use event_driven_trading_sys.Events.{Event}
use event_driven_trading_sys.OrderBook.{OrderBook}
use event_driven_trading_sys.Strategy.{pass_through, signal, counted}
use event_driven_trading_sys.FileReplay
use event_driven_trading_sys.FileReplay.{FileReplay, count_row}
use event_driven_trading_sys.FileReplay.Drain.{rows}
use event_driven_trading_sys.ReplayLoop.{
  Controller, Dashboard, replay_loop, handle_routed, gate, handle_next, observe, publish,
  report_replay,
}
use event_driven_trading_sys.SnapshotPublisher.{update_replay}
use event_driven_trading_sys.Benchmarks.Rows.{no_row, a_row, next-NextRow, process-pass}
use event_driven_trading_sys.PriceLevel.{max_orders}
use event_driven_trading_sys.OrderBook.Ops.{IsBook}
use event_driven_trading_sys.ReplayLoop.Engine.{engine_step, route-engine_step}
use event_driven_trading_sys.DashboardMain.Room.{
  AllPositive, arrivals, quantities, engine_all, after_step, first_book, engine_all-returns,
  first_book-Fits,
}
use event_driven_trading_sys.DashboardMain.{
  Source, csv, csv_step, source, done, events_replayed, source_name, choose_source, replay_thread,
  start_dashboard, reported,
}

-- A replay source gives these events, one with each call, and then is in the last state.
pub data Serves {C : Type 0} (source : Controller C) : C → List Event → C → Type 0 where
  ended : (c last : C) → source.next c ≡ (last, none) → Serves source c [] last
  serves :
      (c rest last : C) (e : Event) (es : List Event)
      → source.next c ≡ (rest, some e)
      → Serves source rest es last
      → Serves source c (e ∷ es) last

abbrev pub no_signal : ℕ → Bool
no_signal n = false

module _ {C Float : Type 0} (source : Controller C) (zero_float : Float)
    (measure : ℕ → Float × Float) (fuel : ℕ) where
  abbrev loop : ℕ → Dashboard C Float → Option (Dashboard C Float)
  loop = replay_loop source zero_float measure no_signal fuel

  -- The dashboard after a round.
  abbrev routed : Dashboard C Float → C → Event → OrderBook → List Event → Dashboard C Float
  routed d rc e book events =
      publish source zero_float measure no_signal fuel
        (record (observe source zero_float measure no_signal fuel rc e d) {
          strategy = counted d.strategy signal;
        })
        book events

  loop-round :
      (n : ℕ) (d : Dashboard C Float) (rc : C) (e : Event) (book : OrderBook) (events : List Event)
      → d.strategy.strategy ≡ pass_through
      → source.next d.rc ≡ (rc, some e)
      → engine_step fuel d.book e ≡ some (book, events)
      → loop (suc n) d ≡ loop n (routed d rc e book events)
  unfolding replay_loop
  loop-round n d rc e book events pass next r =
      ap (handle_next source zero_float measure no_signal fuel (loop n) d) next
      ∙ ap
          (gate source zero_float measure no_signal fuel (loop n)
            (observe source zero_float measure no_signal fuel rc e d) e)
          (process-pass d.strategy e pass)
      ∙ ap
          (handle_routed source zero_float measure no_signal fuel (loop n)
            (record (observe source zero_float measure no_signal fuel rc e d) {
              strategy = counted d.strategy signal;
            }))
          (route-engine_step fuel d.book e ∙ r)

  pub loop-Serves :
      (n : ℕ) (c rc : C) (es : List Event) (d : Dashboard C Float) (last : OrderBook)
      → Serves source c es rc
      → d.rc ≡ c
      → d.strategy.strategy ≡ pass_through
      → engine_all fuel es d.book ≡ some last
      → length es < n
      → (t : Dashboard C Float) × (loop n d ≡ some t) × (t.rc ≡ rc) × (t.book ≡ last)
  unfolding replay_loop
  loop-Serves zero c rc es d last s at pass m enough = absurd (omega arith)
  loop-Serves (suc n) c rc [] d last (ended _ _ e) at pass m enough = (
    record d { rc = rc },
    ap (handle_next source zero_float measure no_signal fuel (loop n) d) (ap source.next at ∙ e),
    refl,
    some-injective d.book last m,
  )
  loop-Serves (suc n) c rc (e ∷ es) d last (serves _ next _ _ _ step s) at pass m enough =
      elim (Option-cases (engine_step fuel d.book e)) [
        | inl r ↦ cc (r, m)
        | inr ((book, events), r) ↦
            let (t, run, at_end, book_end) =
              loop-Serves n next rc es (routed d next e book events) last s refl pass
                (ap (after_step (engine_all fuel es)) (sym r) ∙ m) (omega (arith, enough)) in
            (
              t,
              loop-round n d next e book events pass (ap source.next at ∙ step) r ∙ run,
              at_end,
              book_end,
            )
      ]

-- The state of the controller at the end of the file.
pub record AtEnd (c last : FileReplay) : Type 0 where
  pub closed : last.done ≡ true
  pub replayed : last.events_replayed ≡ c.events_replayed + length (rows c.file)

csv-Serves :
    (path : List ℕ) (n : ℕ) (c : FileReplay)
    → c.done ≡ false
    → length (rows c.file) < n
    → c.events_replayed + length (rows c.file) < u64_mod
    → (last : FileReplay) × Serves source (csv path c) (rows c.file) (csv path last) × AtEnd c last
csv-Serves path zero c open_file enough small = absurd (omega arith)
csv-Serves path (suc n) c open_file enough small = elim (next-NextRow c open_file) [
  | no_row empty e ↦ (
    record c { file = []; done = true },
    subst (λ es. Serves source (csv path c) es (csv path (record c { file = []; done = true })))
        (sym empty) (ended _ _ (ap (csv_step path) e)),
    record { closed = refl; replayed = omega (arith, ap length empty) },
  )
  | a_row ev lines first e ↦
      let more : length (rows c.file) ≡ suc (length (rows lines)) = ap length first in
      let (last, s, k) =
        csv-Serves path n (count_row c ev lines) open_file (omega arith) (omega arith) in
      (
        last,
        subst (λ es. Serves source (csv path c) es (csv path last)) (sym first)
            (serves _ _ _ ev (rows lines) (ap (csv_step path) e) s),
        record { closed = k.closed; replayed = omega (arith, k.replayed) },
      )
]

-- For a file given as the argument, with no signal, the replay thread of the dashboard returns, if
-- it has fewer than 2^64 rows, at most 16 of them name the same price, their quantities add up to
-- less than 2^64, those of modifies are positive, and there is fuel for one round of the matching
-- loop per row and two more, and for one round more than there are rows of the thread's loop. Then
-- the book is the one to which the matching engine alone comes with new orders, cancels and
-- modifies by the number of their type, and it is in order; and the snapshot shows the replay of
-- that path as done, with every row counted.
pub replay_thread-shows :
    {Float : Type 0} (zero_float : Float) (measure : ℕ → Float × Float) (fuel n : ℕ) (path : List ℕ)
    (lines : List (List ℕ))
    → AllPositive (rows lines)
    → ((p : ℕ) → arrivals p (rows lines) ≤ max_orders)
    → quantities (rows lines) < u64_mod
    → length (rows lines) + 2 ≤ fuel
    → length (rows lines) < n
    → length (rows lines) < u64_mod
    → (rc : Source) × (d : Dashboard Source Float) × (choose_source (some (path, some lines))
        ≡ some rc)
      × (replay_thread zero_float measure no_signal fuel n rc ≡ some d)
      × (engine_all fuel (rows lines) first_book ≡ some d.book)
      × IsBook d.book
      × (d.snap.replay.done ≡ true)
      × (d.snap.replay.events_replayed ≡ length (rows lines))
      × (d.snap.replay.source_name ≡ path)
unfolding choose_source replay_thread FileReplay.make_replay update_replay
replay_thread-shows zero_float measure fuel n path lines pos few room matching enough small =
    let c = new_file lines in
    let (last, m, v) =
      engine_all-returns fuel (rows lines) first_book
        (first_book-Fits fuel (rows lines) pos few room matching) in
    let (e, s, k) = csv-Serves path n c refl enough (omega arith) in
    let (t, run, at, book) =
      loop-Serves source zero_float measure fuel n (csv path c) (csv path e) (rows lines)
        (start_dashboard zero_float measure no_signal fuel (csv path c)) last s refl refl m
        enough in
    (
      csv path c,
      report_replay source zero_float measure no_signal fuel t,
      refl,
      ap (reported zero_float measure no_signal fuel) run,
      m ∙ ap some (sym book),
      subst IsBook (sym book) v,
      ap done at ∙ k.closed,
      omega (arith, ap events_replayed at, k.replayed),
      ap source_name at,
    )
  where
    new_file : List (List ℕ) → FileReplay
    new_file lines = record {
      file = lines;
      events_replayed = 0;
      last_timestamp = 0;
      out_of_order_count = 0;
      done = false;
    }
