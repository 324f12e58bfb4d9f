-- ===== src/FileReplay/Drain.antt =====
-- The loop `while (controller.next(e))` over engine/replay/SequentialReplayController.cpp.
use event_driven_trading_sys.Base.{
  ℕ, zero, suc, ◌+◌, ◌≤◌, ◌<◌, ◌≡◌, refl, sym, subst, ◌∙◌, ap, inl, inr, true, false, ltb,
  if◌then◌else◌, List, [], ◌∷◌, Option, none, some, some-injective, some-injective, arith, length,
  u64_mod, Option-cases,
}
use event_driven_trading_sys.Events.{Event}
use event_driven_trading_sys.FileReplay.{
  FileReplay, read_line, next_row, count_row, step_row, next, reset, make_replay,
}

-- The events of the lines that hold one.
abbrev pub rows : List (List ℕ) → List Event
rows [] = []
rows (line ∷ lines) = elim (read_line line) [ none ↦ rows lines | some e ↦ e ∷ rows lines ]

-- How many events have an earlier timestamp than the one before them.
abbrev pub descents : ℕ → List Event → ℕ
descents last [] = 0
descents last (e ∷ es) =
    if ltb e.timestamp last then suc (descents e.timestamp es) else descents e.timestamp es

abbrev step_drain : FileReplay × Option Event → List Event × FileReplay → List Event × FileReplay
step_drain (c, none) rest = ([], c)
step_drain (c, some e) (es, d) = (e ∷ es, d)

-- The events that the loop sees, on fuel.
abbrev pub drain : ℕ → FileReplay → List Event × FileReplay
drain zero c = ([], c)
drain (suc fuel) c = let r = next c in step_drain r (drain fuel r.0)

abbrev pub rows_of : Option (Event × List (List ℕ)) → List Event
rows_of none = []
rows_of (some (e, lines)) = e ∷ rows lines

pub next_row-rows : (lines : List (List ℕ)) → rows lines ≡ rows_of (next_row lines)
unfolding next_row
next_row-rows [] = refl
next_row-rows (line ∷ lines) = elim (Option-cases (read_line line)) [
  | inl skipped ↦ rw (skipped, rows, next_row) (next_row-rows lines)
  | inr (e, read) ↦ rw (read, rows, next_row) refl
]

descents-le : (last : ℕ) (es : List Event) → descents last es ≤ length es
descents-le last [] = omega arith
descents-le last (e ∷ es) = ground (arith, descents-le e.timestamp es)

-- The counters have room for the events that are left.
record HasRoom (c : FileReplay) : Type 0 where
  replayed : c.events_replayed + length (rows c.file) < u64_mod
  out_of_order : c.out_of_order_count + length (rows c.file) < u64_mod

record Drained (c : FileReplay) (r : List Event × FileReplay) : Type 0 where
  seen : r.0 ≡ rows c.file
  finished : r.1.done ≡ true
  replayed : r.1.events_replayed ≡ c.events_replayed + length (rows c.file)
  out_of_order :
      r.1.out_of_order_count ≡ c.out_of_order_count + descents c.last_timestamp (rows c.file)

-- One call of `next` on a controller that is not done.
pub next-open : (c : FileReplay) → c.done ≡ false → next c ≡ step_row c (next_row c.file)
unfolding next
next-open c open_file = ap (λ b. if b then (c, none) else step_row c (next_row c.file)) open_file

drain-next :
    (fuel : ℕ) (c : FileReplay) (r : Option (Event × List (List ℕ)))
    → c.done ≡ false
    → next_row c.file ≡ r
    → drain (suc fuel) c ≡ step_drain (step_row c r) (drain fuel (step_row c r).0)
drain-next fuel c r open_file e =
    ap (λ s. step_drain s (drain fuel s.0)) (next-open c open_file ∙ ap (step_row c) e)

count_row-Drained :
    (c : FileReplay) (out : Event) (lines : List (List ℕ)) (r : List Event × FileReplay)
    → rows c.file ≡ out ∷ rows lines
    → HasRoom c
    → Drained (count_row c out lines) r
    → Drained c (out ∷ r.0, r.1)
count_row-Drained c out lines r e room d = record {
  seen = ap (◌∷◌ out) d.seen ∙ sym e;
  finished = d.finished;
  replayed = rw e (ground (arith, d.replayed, ap length e, room.replayed));
  out_of_order = rw e (ground (arith, d.out_of_order, ap length e, room.out_of_order));
}

count_row-HasRoom :
    (c : FileReplay) (out : Event) (lines : List (List ℕ))
    → rows c.file ≡ out ∷ rows lines
    → HasRoom c
    → HasRoom (count_row c out lines)
count_row-HasRoom c out lines e room = record {
  replayed = ground (arith, ap length e, room.replayed);
  out_of_order = ground (arith, ap length e, room.out_of_order);
}

drain_rest :
    (fuel : ℕ) (c : FileReplay)
    → c.done ≡ false
    → length (rows c.file) < fuel
    → HasRoom c
    → Drained c (drain fuel c)
drain_rest zero c open_file enough room = absurd (omega arith)
drain_rest (suc fuel) c open_file enough room = elim (Option-cases (next_row c.file)) [
  | inl e ↦
      let empty : rows c.file ≡ [] = next_row-rows c.file ∙ ap rows_of e in
      subst (Drained c) (sym (drain-next fuel c none open_file e)) (record {
        seen = sym empty;
        finished = refl;
        replayed = rw empty (omega arith);
        out_of_order = rw empty (omega arith);
      })
  | inr ((out, lines), e) ↦
      let first : rows c.file ≡ out ∷ rows lines = next_row-rows c.file ∙ ap rows_of e in
      let rest =
        drain_rest fuel (count_row c out lines) open_file (omega (arith, ap length first))
          (count_row-HasRoom c out lines first room) in
      subst (Drained c) (sym (drain-next fuel c (some (out, lines)) open_file e))
        (count_row-Drained c out lines (drain fuel (count_row c out lines)) first room rest)
]

-- After a `reset` that finds the file, with fewer than 2^64 rows and fuel for more rounds than
-- there are rows, the loop over `next` sees the event of every row once, in the order of the file;
-- then the controller is done, has counted the rows, and has counted as out of order those with an
-- earlier timestamp than the row before.
pub drain-reset_file :
    (fuel : ℕ) (lines : List (List ℕ)) (c d : FileReplay)
    → length (rows lines) < fuel
    → length (rows lines) < u64_mod
    → reset (some lines) c ≡ some d
    → let r = drain fuel d in
      (r.0 ≡ rows lines)
      × (r.1.done ≡ true)
      × (r.1.events_replayed ≡ length (rows lines))
      × (r.1.out_of_order_count ≡ descents 0 (rows lines))
unfolding reset make_replay
drain-reset_file fuel lines c d enough small e =
    let start = opened lines in
    let room : HasRoom start = record { replayed = omega arith; out_of_order = omega arith } in
    let r =
      subst (λ s. Drained start (drain fuel s)) (some-injective start d e)
        (drain_rest fuel start refl enough room) in
    (r.seen, r.finished, r.replayed ∙ omega arith, r.out_of_order ∙ omega arith)
  where
    opened : List (List ℕ) → FileReplay
    opened lines = record {
      file = lines;
      events_replayed = 0;
      last_timestamp = 0;
      out_of_order_count = 0;
      done = false;
    }
