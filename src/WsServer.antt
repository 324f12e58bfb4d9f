-- ===== src/WsServer.antt =====
-- dashboard/websocket/WsServer.cpp: the handshake, the frames and the set of clients. A text is the
-- list of its character codes, a socket its descriptor. What `recv` and `send` answer is an argument:
-- the chunks received, in order, and whether a send succeeds. `closed` lists the calls of `close`.
pub mod Key
pub mod Frame
pub mod Clients
use event_driven_trading_sys.Base.{
  ℕ, zero, suc, ◌+◌, ◌-◌, ◌*◌, ◌/◌, ◌^◌, Bool, true, false, not, ◌&&◌, ◌==◌, ltb, leb,
  if◌then◌else◌, List, [], ◌∷◌, ◌++◌, map, Option, none, some, length, take, drop, bit_and,
}
use event_driven_trading_sys.Text.{codes, find}
use event_driven_trading_sys.Base64.{base64_encode}
use event_driven_trading_sys.Sha1.{sha1}

abbrev pub ws_guid : List ℕ
ws_guid = codes "258EAFA5-E914-47DA-95CA-C5AB0DC85B11"

abbrev pub marker : List ℕ
marker = codes "sec-websocket-key:"

abbrev pub crlf : List ℕ
crlf = 13 ∷ 10 ∷ []

abbrev pub blank_line : List ℕ
blank_line = 13 ∷ 10 ∷ 13 ∷ 10 ∷ []

-- `std::tolower` in the C locale.
unfoldable pub tolower : ℕ → ℕ
tolower c = if leb 65 c && leb c 90 then c + 32 else c

-- `while (pos < req.size() && req[pos] == ' ') ++pos;`, on the text from `pos` on.
unfoldable pub skip_spaces : List ℕ → List ℕ
skip_spaces [] = []
skip_spaces (c ∷ s) = if c == 32 then skip_spaces s else c ∷ s

-- The text up to the end of its line, or all of it.
unfoldable pub to_line_end : List ℕ → List ℕ
unfolding find
to_line_end s = elim (find crlf s) [ none ↦ s | some end ↦ take end s ]

unfoldable pub extract_ws_key : List ℕ → List ℕ
unfolding find tolower skip_spaces to_line_end
extract_ws_key req = elim (find marker (map tolower req)) [
  | none ↦ []
  | some pos ↦ to_line_end (skip_spaces (drop (pos + length marker) req))
]

unfoldable pub compute_accept : List ℕ → List ℕ
unfolding sha1 base64_encode
compute_accept key = base64_encode (sha1 (key ++ ws_guid))

-- The loop that stores the length, most significant byte first, with the rounds left.
unfoldable pub length_bytes : ℕ → ℕ → List ℕ
length_bytes zero n = []
length_bytes (suc i) n = bit_and (n / 2 ^ (i * 8)) 0xFF ∷ length_bytes i n

unfoldable pub frame_length : ℕ → List ℕ
unfolding length_bytes
frame_length n =
    if ltb n 126
    then (n ∷ [])
    else if ltb n 65536
    then (126 ∷ bit_and (n / 2 ^ 8) 0xFF ∷ bit_and n 0xFF ∷ [])
    else (127 ∷ length_bytes 8 n)

unfoldable pub text_frame : List ℕ → List ℕ
unfolding frame_length
text_frame msg = 0x81 ∷ (frame_length (length msg) ++ msg)

pub record Server : Type 0 where
  pub listen_fd : Option ℕ
  pub running : Bool
  pub clients : List ℕ
  pub closed : List ℕ

abbrev pub close : ℕ → Server → Server
close fd s = record s { closed = s.closed ++ (fd ∷ []) }

-- `clients_.erase(std::remove(...), ...)`
unfoldable pub remove : ℕ → List ℕ → List ℕ
remove fd [] = []
remove fd (c ∷ cs) = if c == fd then remove fd cs else c ∷ remove fd cs

-- `socket`, then `bind` and `listen`: the descriptor if the first succeeds, and whether the others do.
unfoldable pub start : Option ℕ → Bool → Server → Server × Bool
start none bound s = (record s { listen_fd = none }, false)
start (some fd) bound s =
    if bound
    then (record s { listen_fd = some fd; running = true }, true)
    else (close fd (record s { listen_fd = none }), false)

abbrev pub close_listener : Option ℕ → Server → Server
close_listener none s = s
close_listener (some fd) s = close fd (record s { listen_fd = none })

unfoldable pub stop : Server → Server
stop s =
    let s' = close_listener s.listen_fd (record s { running = false }) in
    record s' { clients = []; closed = s'.closed ++ s'.clients }

abbrev pub max_request : ℕ
max_request = 8192

abbrev pub is_some : Option ℕ → Bool
is_some none = false
is_some (some i) = true

-- The loop over `recv`: `none` closes the socket. An empty chunk, or no more of them, is an answer
-- of 0 or less.
unfoldable pub read_request : List (List ℕ) → List ℕ → Option (List ℕ)
unfolding find
read_request [] req = if is_some (find blank_line req) then some req else none
read_request (chunk ∷ chunks) req =
    let rest = read_request chunks (req ++ chunk) in
    let received = if ltb max_request (length (req ++ chunk)) then none else rest in
    if is_some (find blank_line req) then some req else if length chunk == 0 then none else received

abbrev pub response : List ℕ → List ℕ
unfolding compute_accept
response key =
    codes "HTTP/1.1 101 Switching Protocols"
    ++ crlf
    ++ (codes "Upgrade: websocket" ++ crlf)
    ++ (codes "Connection: Upgrade" ++ crlf)
    ++ (codes "Sec-WebSocket-Accept: " ++ compute_accept key ++ blank_line)

-- The handshake up to `clients_.push_back`, with what was received and how much `send` wrote.
unfoldable pub handshake : List (List ℕ) → (List ℕ → Option ℕ) → ℕ → Server → Server
unfolding read_request extract_ws_key
handshake chunks send fd s = elim (read_request chunks []) [
  | none ↦ close fd s
  | some req ↦
      let key = extract_ws_key req in
      let joined = record s { clients = s.clients ++ (fd ∷ []) } in
      let answered : Server = elim (send (response key)) [
        | none ↦ close fd s
        | some sent ↦ if sent == length (response key) then joined else close fd s
      ] in
      if length key == 0 then close fd s else answered
]

-- The end of a client's thread, when its drain loop has left.
unfoldable pub disconnect : ℕ → Server → Server
unfolding remove
disconnect fd s = close fd (record s { clients = remove fd s.clients })

-- The clients that the frame could not be sent to.
unfoldable pub dead_clients : (ℕ → List ℕ → Bool) → List ℕ → List ℕ → List ℕ
dead_clients sends frame [] = []
dead_clients sends frame (fd ∷ fds) =
    if sends fd frame then dead_clients sends frame fds else fd ∷ dead_clients sends frame fds

unfoldable pub drop_clients : List ℕ → Server → Server
unfolding disconnect
drop_clients [] s = s
drop_clients (fd ∷ fds) s = drop_clients fds (disconnect fd s)

unfoldable pub broadcast : (ℕ → List ℕ → Bool) → List ℕ → Server → Server
unfolding dead_clients drop_clients text_frame
broadcast sends msg s = drop_clients (dead_clients sends (text_frame msg) s.clients) s

abbrev pub client_count : Server → ℕ
client_count s = length s.clients
