-- ===== src/PostgresWriter/Drain.antt =====
-- `flush` and the destructor of engine/persistence/PostgresWriter.cpp: what has been executed by then.
use mathlib.Core.List.{append-nil}
use event_driven_trading_sys.Base.{
  ℕ, zero, suc, ◌≡◌, ◌⊎◌, refl, sym, subst, ◌∙◌, ap, inl, inr, Bool, true, false, ◌||◌, ◌==◌,
  if◌then◌else◌, List, [], ◌∷◌, ◌++◌, Option, none, some, Option-cases, length, arith,
}
use event_driven_trading_sys.PostgresWriter.{
  Cmd, shutdown, Statement, Writer, make_writer, enqueue, handle, writer_step, write_next, Steps,
  write, shutdown_cmd, flush_cmd,
}
use event_driven_trading_sys.PostgresWriter.Order.{
  statements, flags, has_shutdown, is_shutdown, IsWriter, Steps-IsWriter, statements-append,
  flags-append, has_shutdown-append, handle_lem, send-IsWriter, writer_step-IsWriter,
}

abbrev pub contains : ℕ → List ℕ → Bool
contains d [] = false
contains d (c ∷ cs) = c == d || contains d cs

contains-append : (d : ℕ) (xs ys : List ℕ) → contains d xs ≡ true → contains d (xs ++ ys) ≡ true
contains-append d [] ys h = ground arith
contains-append d (x ∷ xs) ys h = ground (arith, contains-append d xs ys)

-- Two ways to cut a list: the first cut is not behind the second, or it is.
record Before (xs zs : List Cmd) : Type 0 where
  rest : List Cmd
  joined : zs ≡ xs ++ rest

record Behind (xs zs : List Cmd) (c : Cmd) : Type 0 where
  rest : List Cmd
  joined : xs ≡ zs ++ (c ∷ rest)

cuts :
    (xs ys zs ws : List Cmd) (c : Cmd) → xs ++ ys ≡ zs ++ (c ∷ ws) → Before xs zs ⊎ Behind xs zs c
cuts [] ys zs ws c e = inl (record { rest = zs; joined = refl })
cuts (x ∷ xs) ys [] ws c e = inr (record { rest = xs; joined = ap (λ a. a ∷ xs) (cc e) })
cuts (x ∷ xs) ys (z ∷ zs) ws c e = elim (cuts xs ys zs ws c (cc e)) [
  | inl b ↦ inl (record { rest = b.rest; joined = cc })
  | inr b ↦ inr (record { rest = b.rest; joined = cc })
]

-- In every schedule of a writer that has a connection, when the flag of a flush is set that no
-- earlier flush has, the statements handed to the database start with those of all commands
-- enqueued before the flush, in their order. Whether the database executed them plays no part.
pub flush-executed :
    (before after : List Cmd) (done : ℕ) (w : Writer)
    → Steps (make_writer true) (before ++ (flush_cmd done ∷ after)) w
    → contains done (flags before) ≡ false
    → contains done w.flushed ≡ true
    → (more : List Statement) × (w.executed ≡ statements true before ++ more)
flush-executed before after done w steps fresh seen =
    let h = Steps-IsWriter true steps in
    let mine = flush_cmd done in
    elim (cuts h.taken w.queue before after mine (sym h.split)) [
      | inl b ↦
          let known : contains done (flags before) ≡ true =
            ap (contains done) (ap flags b.joined ∙ flags-append h.taken b.rest)
            ∙ contains-append done (flags h.taken) (flags b.rest)
                (sym (ap (contains done) h.acknowledged) ∙ seen) in
          absurd (impossible (contains done (flags before)) known fresh)
      | inr b ↦ (
        statements true (mine ∷ b.rest),
        h.done ∙ ap (statements true) b.joined ∙ statements-append true before (mine ∷ b.rest),
      )
    ]
  where
    impossible : (b : Bool) → b ≡ true → b ≡ false → ⊥
    impossible b e f = cc

abbrev pub resume : Writer → (Writer → Writer) → Option Writer → Writer
resume w k none = w
resume w k (some v) = k v

-- The rounds of the loop, on fuel.
unfoldable pub run : ℕ → Writer → Writer
unfolding writer_step
run zero w = w
run (suc n) w = resume w (run n) (writer_step w)

pub run-Steps : {w v : Writer} {sent : List Cmd} (n : ℕ) → Steps w sent v → Steps w sent (run n v)
unfolding run
run-Steps zero s = s
run-Steps {w} {v} {sent} (suc n) s = elim (Option-cases (writer_step v)) [
  | inl e ↦ subst (Steps w sent) (sym (ap (resume v (run n)) e)) s
  | inr (u, e) ↦ subst (Steps w sent) (sym (ap (resume v (run n)) e)) (run-Steps n (write s e))
]

run-IsWriter :
    {connected : Bool} {sent : List Cmd} (n : ℕ) (w : Writer)
    → IsWriter connected sent w
    → IsWriter connected sent (run n w)
unfolding run
run-IsWriter zero w h = h
run-IsWriter {connected} {sent} (suc n) w h = elim (Option-cases (writer_step w)) [
  | inl e ↦ subst (IsWriter connected sent) (sym (ap (resume w (run n)) e)) h
  | inr (v, e) ↦
      subst (IsWriter connected sent) (sym (ap (resume w (run n)) e))
        (run-IsWriter n v (writer_step-IsWriter w v e h))
]

writer_step-going :
    (w : Writer) (cmd : Cmd) (cmds : List Cmd)
    → w.queue ≡ cmd ∷ cmds
    → w.stopped ≡ false
    → writer_step w ≡ some (handle cmd.kind cmd (record w { queue = cmds }))
unfolding writer_step
writer_step-going w cmd cmds e going =
    ap (λ b. if b then none else write_next w.queue w) going ∙ ap (λ q. write_next q w) e

or_parts : (a b : Bool) → (a || b) ≡ false → (a ≡ false) × (b ≡ false)
or_parts a b h = ground arith

run_all :
    (cmds : List Cmd) (w : Writer)
    → w.queue ≡ cmds ++ (shutdown_cmd ∷ [])
    → has_shutdown cmds ≡ false
    → w.stopped ≡ false
    → (run (suc (length cmds)) w).queue ≡ []
unfolding run
run_all [] w e none_yet going =
    ap (λ o. (resume w (λ v. v) o).queue) (writer_step-going w shutdown_cmd [] e going)
    ∙ (handle_lem shutdown shutdown_cmd (record w { queue = [] })).1
run_all (cmd ∷ cmds) w e none_yet going =
    let rest = cmds ++ (shutdown_cmd ∷ []) in
    let later = or_parts (is_shutdown cmd.kind) (has_shutdown cmds) none_yet in
    let v = handle cmd.kind cmd (record w { queue = rest }) in
    let after = handle_lem cmd.kind cmd (record w { queue = rest }) in
    ap (λ o. (resume w (run (suc (length cmds))) o).queue) (writer_step-going w cmd rest e going)
    ∙ run_all cmds v after.1 later.1 (after.4 ∙ ap (λ b. b || is_shutdown cmd.kind) going ∙ later.0)

-- From any state that a schedule without a shutdown reaches, once the destructor has sent its
-- shutdown, one round of the writer per command left and one more empty the queue and stop the
-- writer, with the statements of all commands executed and all flushes acknowledged.
pub run-shutdown :
    (connected : Bool) (sent : List Cmd) (w : Writer)
    → Steps (make_writer connected) sent w
    → has_shutdown sent ≡ false
    → let v = run (suc (length w.queue)) (enqueue shutdown_cmd w) in
      (v.queue ≡ [])
      × (v.stopped ≡ true)
      × (v.executed ≡ statements connected sent)
      × (v.flushed ≡ flags sent)
unfolding enqueue
run-shutdown connected sent w steps none_yet =
    let h = Steps-IsWriter connected steps in
    let fin =
      run-IsWriter (suc (length w.queue)) (enqueue shutdown_cmd w)
        (send-IsWriter w shutdown_cmd h) in
    let parts =
      or_parts (has_shutdown h.taken) (has_shutdown w.queue)
        (sym (ap has_shutdown h.split ∙ has_shutdown-append h.taken w.queue) ∙ none_yet) in
    let empty = run_all w.queue (enqueue shutdown_cmd w) refl parts.1 (h.returned ∙ parts.0) in
    let all : fin.taken ≡ sent ++ (shutdown_cmd ∷ []) =
      sym (fin.split ∙ ap (λ q. fin.taken ++ q) empty ∙ append-nil fin.taken) in
    (
      empty,
      fin.returned
          ∙ ap has_shutdown all
          ∙ has_shutdown-append sent (shutdown_cmd ∷ [])
          ∙ or_true (has_shutdown sent),
      fin.done
          ∙ ap (statements connected) all
          ∙ statements-append connected sent (shutdown_cmd ∷ [])
          ∙ ap (λ t. statements connected sent ++ t) (no_statement connected)
          ∙ append-nil (statements connected sent),
      fin.acknowledged
          ∙ ap flags all
          ∙ flags-append sent (shutdown_cmd ∷ [])
          ∙ append-nil (flags sent),
    )
  where
    or_true : (b : Bool) → (b || true) ≡ true
    or_true true = refl
    or_true false = refl

    no_statement : (b : Bool) → statements b (shutdown_cmd ∷ []) ≡ []
    no_statement true = refl
    no_statement false = refl
