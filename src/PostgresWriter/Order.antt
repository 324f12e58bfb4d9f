-- ===== src/PostgresWriter/Order.antt =====
-- What the writer thread of engine/persistence/PostgresWriter.cpp has done, whatever the schedule.
use mathlib.Core.List.{append-nil, append_assoc}
use event_driven_trading_sys.Base.{
  ℕ, ◌≡◌, refl, sym, subst, ◌∙◌, ap, Bool, true, false, ◌||◌, if◌then◌else◌, List, [], ◌∷◌, ◌++◌,
  Option, none, some, some-injective, arith,
}
use event_driven_trading_sys.PostgresWriter.{
  Cmd, Kind, trade, begin_run, end_run, flush, shutdown, Statement, Writer, make_writer, enqueue,
  handle, writer_step, write_next, Steps, start, send, write, trade_statement, begin_run_statement,
  end_run_statement, acknowledge,
}

-- The statement of a command, none for a flush or a shutdown.
abbrev pub statement_of : Kind → Cmd → List Statement
statement_of trade cmd = trade_statement cmd ∷ []
statement_of begin_run cmd = begin_run_statement cmd ∷ []
statement_of end_run cmd = end_run_statement cmd ∷ []
statement_of flush cmd = []
statement_of shutdown cmd = []

-- The statements of a run of commands, in order, if there is a connection.
abbrev pub statements : Bool → List Cmd → List Statement
statements connected [] = []
statements connected (cmd ∷ cmds) =
    (if connected then statement_of cmd.kind cmd else []) ++ statements connected cmds

abbrev pub flag_of : Kind → Option ℕ → List ℕ
flag_of flush (some done) = done ∷ []
flag_of _ _ = []

-- The flags of the flushes among a run of commands.
abbrev pub flags : List Cmd → List ℕ
flags [] = []
flags (cmd ∷ cmds) = flag_of cmd.kind cmd.flush_done ++ flags cmds

abbrev pub is_shutdown : Kind → Bool
is_shutdown shutdown = true
is_shutdown _ = false

abbrev pub has_shutdown : List Cmd → Bool
has_shutdown [] = false
has_shutdown (cmd ∷ cmds) = is_shutdown cmd.kind || has_shutdown cmds

-- The commands taken so far are the first of those sent; what was executed and acknowledged is
-- theirs, and the thread has returned exactly if a shutdown is among them.
pub record IsWriter (connected : Bool) (sent : List Cmd) (w : Writer) : Type 0 where
  pub taken : List Cmd
  pub link : w.connected ≡ connected
  pub split : sent ≡ taken ++ w.queue
  pub done : w.executed ≡ statements connected taken
  pub acknowledged : w.flushed ≡ flags taken
  pub returned : w.stopped ≡ has_shutdown taken

pub statements-append :
    (b : Bool) (xs ys : List Cmd) → statements b (xs ++ ys) ≡ statements b xs ++ statements b ys
statements-append b [] ys = refl
statements-append b (x ∷ xs) ys =
    ap (λ t. (if b then statement_of x.kind x else []) ++ t) (statements-append b xs ys)
    ∙ sym (append_assoc _ (statements b xs) (statements b ys))

pub flags-append : (xs ys : List Cmd) → flags (xs ++ ys) ≡ flags xs ++ flags ys
flags-append [] ys = refl
flags-append (x ∷ xs) ys =
    ap (λ t. flag_of x.kind x.flush_done ++ t) (flags-append xs ys)
    ∙ sym (append_assoc _ (flags xs) (flags ys))

pub has_shutdown-append :
    (xs ys : List Cmd) → has_shutdown (xs ++ ys) ≡ (has_shutdown xs || has_shutdown ys)
has_shutdown-append [] ys = refl
has_shutdown-append (x ∷ xs) ys = ground (arith, has_shutdown-append xs ys)

acknowledge_lem :
    (o : Option ℕ) (w : Writer)
    → ((acknowledge o w).connected ≡ w.connected)
      × ((acknowledge o w).queue ≡ w.queue)
      × ((acknowledge o w).executed ≡ w.executed ++ (if w.connected then [] else []))
      × ((acknowledge o w).flushed ≡ w.flushed ++ flag_of flush o)
      × ((acknowledge o w).stopped ≡ (w.stopped || false))
acknowledge_lem none w = ground (arith, append-nil w.flushed, append-nil w.executed)
acknowledge_lem (some done) w = ground (arith, append-nil w.executed)

-- What one command does.
pub handle_lem :
    (k : Kind) (cmd : Cmd) (w : Writer)
    → ((handle k cmd w).connected ≡ w.connected)
      × ((handle k cmd w).queue ≡ w.queue)
      × ((handle k cmd w).executed ≡ w.executed ++ (if w.connected then statement_of k cmd else []))
      × ((handle k cmd w).flushed ≡ w.flushed ++ flag_of k cmd.flush_done)
      × ((handle k cmd w).stopped ≡ (w.stopped || is_shutdown k))
unfolding handle
handle_lem trade cmd w = ground (arith, append-nil w.flushed, append-nil w.executed)
handle_lem begin_run cmd w = ground (arith, append-nil w.flushed, append-nil w.executed)
handle_lem end_run cmd w = ground (arith, append-nil w.flushed, append-nil w.executed)
handle_lem flush cmd w = acknowledge_lem cmd.flush_done w
handle_lem shutdown cmd w = ground (arith, append-nil w.flushed, append-nil w.executed)

take-IsWriter :
    {connected : Bool} {sent : List Cmd} (w : Writer) (cmd : Cmd) (cmds : List Cmd)
    → w.queue ≡ cmd ∷ cmds
    → IsWriter connected sent w
    → IsWriter connected sent (handle cmd.kind cmd (record w { queue = cmds }))
take-IsWriter {connected} {sent} w cmd cmds e h =
    let after = handle_lem cmd.kind cmd (record w { queue = cmds }) in
    let own = λ (b : Bool). if b then statement_of cmd.kind cmd else [] in
    record {
      taken = h.taken ++ (cmd ∷ []);
      link = after.0 ∙ h.link;
      split =
          h.split
          ∙ ap (λ t. h.taken ++ t) e
          ∙ sym (append_assoc h.taken (cmd ∷ []) cmds)
          ∙ ap (λ q. (h.taken ++ (cmd ∷ [])) ++ q) (sym after.1);
      done =
          after.2
          ∙ ap (λ t. t ++ own w.connected) h.done
          ∙ ap (λ b. statements connected h.taken ++ own b) h.link
          ∙ sym (ap (λ t. statements connected h.taken ++ t) (append-nil (own connected)))
          ∙ sym (statements-append connected h.taken (cmd ∷ []));
      acknowledged =
          after.3
          ∙ ap (λ t. t ++ flag_of cmd.kind cmd.flush_done) h.acknowledged
          ∙ sym (ap (λ t. flags h.taken ++ t) (append-nil (flag_of cmd.kind cmd.flush_done)))
          ∙ sym (flags-append h.taken (cmd ∷ []));
      returned =
          after.4
          ∙ ap (λ b. b || is_shutdown cmd.kind) h.returned
          ∙ ap (λ b. has_shutdown h.taken || b) (sym (or_false (is_shutdown cmd.kind)))
          ∙ sym (has_shutdown-append h.taken (cmd ∷ []));
    }
  where
    or_false : (b : Bool) → (b || false) ≡ b
    or_false true = refl
    or_false false = refl

pub send-IsWriter :
    {connected : Bool} {sent : List Cmd} (w : Writer) (cmd : Cmd)
    → IsWriter connected sent w
    → IsWriter connected (sent ++ (cmd ∷ [])) (enqueue cmd w)
unfolding enqueue
send-IsWriter w cmd h = record {
  taken = h.taken;
  link = h.link;
  split = ap (λ t. t ++ (cmd ∷ [])) h.split ∙ append_assoc h.taken w.queue (cmd ∷ []);
  done = h.done;
  acknowledged = h.acknowledged;
  returned = h.returned;
}

pub writer_step-IsWriter :
    {connected : Bool} {sent : List Cmd} (w v : Writer)
    → writer_step w ≡ some v
    → IsWriter connected sent w
    → IsWriter connected sent v
unfolding writer_step
writer_step-IsWriter {connected} {sent} w v e h = next w.queue refl (ground (arith, e))
  where
    next : (q : List Cmd) → w.queue ≡ q → write_next q w ≡ some v → IsWriter connected sent v
    next [] eq f = cc
    next (cmd ∷ cmds) eq f =
        subst (IsWriter connected sent) (some-injective _ v f) (take-IsWriter w cmd cmds eq h)

-- In every schedule of enqueuing threads and the writer's rounds on a new writer, the commands
-- taken are the first of those sent, in order; the statements executed are exactly theirs, none
-- without a connection; the flushes acknowledged are exactly theirs; and the writer has returned
-- exactly if a shutdown is among them.
pub Steps-IsWriter :
    (connected : Bool) {sent : List Cmd} {w : Writer}
    → Steps (make_writer connected) sent w
    → IsWriter connected sent w
Steps-IsWriter connected start = record {
  taken = [];
  link = refl;
  split = refl;
  done = refl;
  acknowledged = refl;
  returned = refl;
}
Steps-IsWriter connected (send s cmd) = send-IsWriter _ cmd (Steps-IsWriter connected s)
Steps-IsWriter connected (write s e) = writer_step-IsWriter _ _ e (Steps-IsWriter connected s)
