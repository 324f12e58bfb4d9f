-- ===== src/Tests/Wire.antt =====
-- The theorems about the dashboard's sockets and about persistence at concrete inputs.
use event_driven_trading_sys.Base.{
  ℕ, zero, suc, ◌+◌, ◌^◌, ◌≤◌, ◌<◌, ◌≡◌, refl, ap, Bool, true, false, not, ◌&&◌, ◌==◌, List, [],
  ◌∷◌, ◌++◌, map, some, arith, take, get_elem?, length, replicate,
}
use event_driven_trading_sys.Text.{codes, starts_with}
use event_driven_trading_sys.Base64.{base64_encode}
use event_driven_trading_sys.Base64.RoundTrip.{base64_decode, base64_decode-base64_encode}
use event_driven_trading_sys.Sha1.{sha1}
use event_driven_trading_sys.WsServer.{
  marker, crlf, tolower, extract_ws_key, compute_accept, text_frame, Server, broadcast, disconnect,
}
use event_driven_trading_sys.WsServer.Key.{IsAbsent, extract_ws_key_lem}
use event_driven_trading_sys.WsServer.Frame.{read_frame, read_frame-text_frame}
use event_driven_trading_sys.WsServer.Clients.{times_closed, broadcast-disconnect_closes_twice}
use event_driven_trading_sys.Events.{make_new_order, event_side, side_code}
use event_driven_trading_sys.PostgresWriter.{
  gen_uuid_v4, Cmd, Statement, Writer, make_writer, enqueue, Steps, start, send, begin_run_cmd,
  write_trade_cmd, flush_cmd, shutdown_cmd, trade_statement, handle,
}
use event_driven_trading_sys.PostgresWriter.Row.{read_number, trade_statement-write_trade_cmd}
use event_driven_trading_sys.PostgresWriter.Order.{statements, flags, IsWriter, Steps-IsWriter}
use event_driven_trading_sys.PostgresWriter.Drain.{
  flush-executed, run, contains, run-Steps, run-shutdown,
}
use event_driven_trading_sys.Tests.{buyer}

-- The examples of RFC 4648 and RFC 6455.
encodes_foobar : base64_encode (codes "foobar") ≡ codes "Zm9vYmFy"
unfolding base64_encode
encodes_foobar = refl

digest_abc :
    sha1 (codes "abc")
    ≡ 0xA9 ∷ 0x99 ∷ 0x3E ∷ 0x36 ∷ 0x47 ∷ 0x06 ∷ 0x81 ∷ 0x6A ∷ 0xBA ∷ 0x3E ∷ 0x25 ∷ 0x71 ∷ 0x78
      ∷ 0x50 ∷ 0xC2 ∷ 0x6C ∷ 0x9C ∷ 0xD0 ∷ 0xD8 ∷ 0x9D ∷ []
unfolding sha1
digest_abc = refl

accepts_sample :
    compute_accept (codes "dGhlIHNhbXBsZSBub25jZQ==") ≡ codes "s3pPLMBiTxaQ9kYGzzhZRbK+xOo="
unfolding compute_accept
accepts_sample = refl

base64_decode-base64_encode_example :
    base64_decode (base64_encode (codes "foobar")) ≡ codes "foobar"
base64_decode-base64_encode_example = base64_decode-base64_encode (codes "foobar") (omega arith)

abbrev greeting : List ℕ
greeting = codes "{}"

read_frame-text_frame_example :
    read_frame (text_frame greeting ++ (7 ∷ [])) ≡ some (greeting, 7 ∷ [])
read_frame-text_frame_example = read_frame-text_frame greeting (7 ∷ []) (omega arith)

-- A request line, and a header with a capital in its name and two spaces before its value.
abbrev request_line : List ℕ
request_line = codes "GET / HTTP/1.1" ++ crlf

abbrev header_name : List ℕ
header_name = codes "Sec-WebSocket-Key:"

header-matches : map tolower header_name ≡ marker
unfolding tolower
header-matches = refl

abbrev all_absent : ℕ → List ℕ → Bool
unfolding starts_with
all_absent zero s = true
all_absent (suc n) [] = false
all_absent (suc n) (c ∷ s) = not (starts_with marker (c ∷ s)) && all_absent n s

all_absent-IsAbsent : (n : ℕ) (s : List ℕ) → all_absent n s ≡ true → IsAbsent marker n s
unfolding starts_with
all_absent-IsAbsent zero s h i k = absurd (omega (arith, k))
all_absent-IsAbsent (suc n) [] h i k = cc
all_absent-IsAbsent (suc n) (c ∷ s) h zero k = ground arith
all_absent-IsAbsent (suc n) (c ∷ s) h (suc i) k =
    all_absent-IsAbsent n s (ground arith) i (omega (arith, k))

abbrev request : List ℕ
unfolding replicate
request = request_line ++ (header_name ++ (replicate 2 32 ++ (codes "abc" ++ (crlf ++ crlf))))

no_earlier : IsAbsent marker (length request_line) (map tolower request)
unfolding tolower replicate starts_with
no_earlier = all_absent-IsAbsent (length request_line) (map tolower request) refl

extract_ws_key_lem_example : extract_ws_key request ≡ codes "abc"
unfolding replicate
extract_ws_key_lem_example =
    extract_ws_key_lem request_line header_name 2 (codes "abc") crlf header-matches no_earlier refl
      (refl, (refl, (refl, tt)))

-- Three clients, of which the second does not answer.
abbrev server : Server
server = record { listen_fd = some 3; running = true; clients = 5 ∷ 6 ∷ 7 ∷ []; closed = [] }

abbrev sends : ℕ → List ℕ → Bool
sends fd frame = not (fd == 6)

broadcast_drops : (broadcast sends greeting server).clients ≡ 5 ∷ 7 ∷ []
unfolding broadcast
broadcast_drops = refl

broadcast-disconnect_closes_twice_example :
    0 + 2 ≤ times_closed 6 (disconnect 6 (broadcast sends greeting server)).closed
unfolding times_closed
broadcast-disconnect_closes_twice_example =
    broadcast-disconnect_closes_twice sends greeting server 6 refl refl

uuid_text :
    gen_uuid_v4 0xdeadbeef 0x12345 0xfffff 0xffffffff 1 0x20003
    ≡ codes "deadbeef-2345-4fff-bfff-000000010003"
unfolding gen_uuid_v4
uuid_text = refl

abbrev run_id : List ℕ
run_id = codes "r1"

buyer-fields :
    (buyer.timestamp < 100)
    × (buyer.symbol_id < 100)
    × (buyer.order_id < 2 ^ 60)
    × (buyer.price < 2 ^ 60)
    × (buyer.quantity < 100)
unfolding make_new_order
buyer-fields = omega arith

trade_statement-write_trade_cmd_example :
    let params = (trade_statement (write_trade_cmd buyer run_id)).params in
    (map read_number (take 6 params)
      ≡ some buyer.timestamp
        ∷ some buyer.symbol_id
        ∷ some buyer.order_id
        ∷ some buyer.price
        ∷ some buyer.quantity
        ∷ some (side_code (event_side buyer))
        ∷ [])
    × (get_elem? params 6 ≡ some run_id)
trade_statement-write_trade_cmd_example =
    trade_statement-write_trade_cmd buyer run_id (omega (arith, buyer-fields))
      (omega (arith, buyer-fields)) (omega (arith, buyer-fields)) (omega (arith, buyer-fields))
      (omega (arith, buyer-fields))

-- A run with one trade and a flush, all of it written.
abbrev before : List Cmd
before = begin_run_cmd run_id (codes "a.csv") ∷ write_trade_cmd buyer run_id ∷ []

abbrev sent_to : List Cmd → Writer → Writer
unfolding enqueue
sent_to [] w = w
sent_to (cmd ∷ cmds) w = sent_to cmds (enqueue cmd w)

abbrev waiting : Writer
waiting = sent_to (before ++ (flush_cmd 9 ∷ [])) (make_writer true)

waiting-Steps : Steps (make_writer true) (before ++ (flush_cmd 9 ∷ [])) waiting
unfolding enqueue
waiting-Steps =
    send (send (send start (begin_run_cmd run_id (codes "a.csv"))) (write_trade_cmd buyer run_id))
      (flush_cmd 9)

Steps-IsWriter_example : IsWriter true (before ++ (flush_cmd 9 ∷ [])) waiting
Steps-IsWriter_example = Steps-IsWriter true waiting-Steps

-- The writer has taken all three commands.
written : Writer
written = run 3 waiting

written-flushed : written.flushed ≡ 9 ∷ []
unfolding written run handle enqueue begin_run_cmd write_trade_cmd flush_cmd
written-flushed = refl

flush-executed_example :
    (more : List Statement) × (written.executed ≡ statements true before ++ more)
unfolding written begin_run_cmd write_trade_cmd
flush-executed_example =
    flush-executed before [] 9 written (run-Steps 3 waiting-Steps) refl
      (ap (contains 9) written-flushed)

run-shutdown_example :
    let v = run (suc (length waiting.queue)) (enqueue shutdown_cmd waiting) in
    (v.queue ≡ [])
    × (v.stopped ≡ true)
    × (v.executed ≡ statements true (before ++ (flush_cmd 9 ∷ [])))
    × (v.flushed ≡ flags (before ++ (flush_cmd 9 ∷ [])))
unfolding begin_run_cmd write_trade_cmd flush_cmd
run-shutdown_example = run-shutdown true (before ++ (flush_cmd 9 ∷ [])) waiting waiting-Steps refl
