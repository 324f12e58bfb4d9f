-- ===== src/PostgresWriter.antt =====
-- engine/persistence/PostgresWriter.hpp and PostgresWriter.cpp, built with PostgreSQL: the queue of
-- commands, the thread that drains it, and the statements that it sends. Whether the connection
-- succeeded and the numbers drawn for an identifier are arguments; a statement is its text and its
-- parameters, and what the server answers is only logged. A flag that `flush` waits for is a number.
pub mod Uuid
pub mod Order
pub mod Drain
pub mod Row
use event_driven_trading_sys.Base.{
  ℕ, ◌+◌, ◌%◌, ◌^◌, Bool, true, false, if◌then◌else◌, List, [], ◌∷◌, ◌++◌, Option, none, some,
  bit_and, bit_or, ◌≡◌,
}
use event_driven_trading_sys.Text.{codes, decimal, hex}
use event_driven_trading_sys.Events.{Event, event_side, side_code}

abbrev pub dash : List ℕ
dash = 45 ∷ []

-- With the six numbers that the generator draws.
unfoldable pub gen_uuid_v4 : ℕ → ℕ → ℕ → ℕ → ℕ → ℕ → List ℕ
unfolding hex
gen_uuid_v4 a b c d e1 e2 =
    let version = bit_or (bit_and c 0x0FFF) 0x4000 in
    let variant = bit_or (bit_and d 0x3FFF) 0x8000 in
    hex 8 a
    ++ (dash
        ++ (hex 4 (bit_and b 0xFFFF)
            ++ (dash
                ++ (hex 4 version
                    ++ (dash ++ (hex 4 variant ++ (dash ++ (hex 8 e1 ++ hex 4 (e2 % 2 ^ 16)))))))))

pub data Kind : Type 0 where
  trade begin_run end_run flush shutdown : Kind

pub record Cmd : Type 0 where
  pub kind : Kind
  pub run_id : List ℕ
  pub replay_file : List ℕ
  pub timestamp : ℕ
  pub symbol_id : ℕ
  pub order_id : ℕ
  pub price : ℕ
  pub quantity : ℕ
  pub side : ℕ
  pub event_count : ℕ
  pub flush_done : Option ℕ

-- `Cmd cmd;`
abbrev pub blank_cmd : Cmd
blank_cmd = record {
  kind = shutdown;
  run_id = [];
  replay_file = [];
  timestamp = 0;
  symbol_id = 0;
  order_id = 0;
  price = 0;
  quantity = 0;
  side = 0;
  event_count = 0;
  flush_done = none;
}

pub record Statement : Type 0 where
  pub text : List ℕ
  pub params : List (List ℕ)

pub record Writer : Type 0 where
  pub connected : Bool
  pub queue : List Cmd
  pub executed : List Statement
  pub flushed : List ℕ
  pub stopped : Bool

-- The constructor, and the connection at the start of the thread.
abbrev pub make_writer : Bool → Writer
make_writer connection_ok = record {
  connected = connection_ok;
  queue = [];
  executed = [];
  flushed = [];
  stopped = false;
}

unfoldable pub enqueue : Cmd → Writer → Writer
enqueue cmd w = record w { queue = w.queue ++ (cmd ∷ []) }

unfoldable pub begin_run_statement : Cmd → Statement
begin_run_statement cmd = record {
  text =
      codes "INSERT INTO replay_runs(run_id, started_at, replay_file) VALUES($1::uuid, now(), $2)";
  params = cmd.run_id ∷ cmd.replay_file ∷ [];
}

unfoldable pub end_run_statement : Cmd → Statement
end_run_statement cmd = record {
  text = codes "UPDATE replay_runs SET ended_at = now(), event_count = $1 WHERE run_id = $2::uuid";
  params = decimal cmd.event_count ∷ cmd.run_id ∷ [];
}

unfoldable pub trade_statement : Cmd → Statement
trade_statement cmd = record {
  text =
      codes "INSERT INTO executions(timestamp, symbol_id, order_id, price, quantity, side, run_id)"
      ++ codes " VALUES($1,$2,$3,$4,$5,$6,$7::uuid)";
  params =
      decimal cmd.timestamp
      ∷ decimal cmd.symbol_id
      ∷ decimal cmd.order_id
      ∷ decimal cmd.price
      ∷ decimal cmd.quantity
      ∷ decimal cmd.side
      ∷ cmd.run_id
      ∷ [];
}

-- Without a connection nothing is sent.
unfoldable pub exec : Statement → Writer → Writer
exec statement w = if w.connected then record w { executed = w.executed ++ (statement ∷ []) } else w

abbrev pub acknowledge : Option ℕ → Writer → Writer
acknowledge none w = w
acknowledge (some done) w = record w { flushed = w.flushed ++ (done ∷ []) }

-- The `switch` of the loop.
unfoldable pub handle : Kind → Cmd → Writer → Writer
unfolding exec
handle shutdown cmd w = record w { stopped = true }
handle flush cmd w = acknowledge cmd.flush_done w
handle begin_run cmd w = exec (begin_run_statement cmd) w
handle end_run cmd w = exec (end_run_statement cmd) w
handle trade cmd w = exec (trade_statement cmd) w

abbrev pub write_next : List Cmd → Writer → Option Writer
write_next [] w = none
write_next (cmd ∷ cmds) w = some (handle cmd.kind cmd (record w { queue = cmds }))

-- One round of the loop. `none`: the thread waits, or has returned.
unfoldable pub writer_step : Writer → Option Writer
writer_step w = if w.stopped then none else write_next w.queue w

-- What the public calls enqueue.
unfoldable pub begin_run_cmd : List ℕ → List ℕ → Cmd
begin_run_cmd run_id replay_file = record blank_cmd {
  kind = begin_run;
  run_id = run_id;
  replay_file = replay_file;
}

unfoldable pub end_run_cmd : List ℕ → ℕ → Cmd
end_run_cmd run_id event_count = record blank_cmd {
  kind = end_run;
  run_id = run_id;
  event_count = event_count;
}

unfoldable pub write_trade_cmd : Event → List ℕ → Cmd
unfolding event_side
write_trade_cmd e run_id = record blank_cmd {
  kind = trade;
  run_id = run_id;
  timestamp = e.timestamp;
  symbol_id = e.symbol_id;
  order_id = e.order_id;
  price = e.price;
  quantity = e.quantity;
  side = side_code (event_side e);
}

unfoldable pub flush_cmd : ℕ → Cmd
flush_cmd done = record blank_cmd { kind = flush; flush_done = some done }

-- What the destructor enqueues.
abbrev pub shutdown_cmd : Cmd
shutdown_cmd = blank_cmd

-- What can happen next: a thread enqueues a command, or the writer takes one. The list is what
-- was enqueued.
pub data Steps (w : Writer) : List Cmd → Writer → Type 0 where
  start : Steps w [] w
  send :
      {sent : List Cmd} {v : Writer}
      → Steps w sent v
      → (cmd : Cmd) → Steps w (sent ++ (cmd ∷ [])) (enqueue cmd v)
  write :
      {sent : List Cmd} {v u : Writer} → Steps w sent v → writer_step v ≡ some u → Steps w sent u
