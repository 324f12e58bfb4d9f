-- ===== src/DashboardServer/Life.antt =====
-- Every schedule of the threads of dashboard/websocket/DashboardServer.cpp: the thread of `run` with its
-- event loop, the broadcast thread, and callers of `stop`.
use event_driven_trading_sys.Base.{
  ℕ, ◌+◌, ◌≡◌, ◌⊎◌, Bool, true, false, if◌then◌else◌, List, [], ◌∷◌, ◌++◌, ◌&&◌,
}
use event_driven_trading_sys.DashboardServer.{
  DashboardServer, Task, publish, close_socket, not_running, started, serving, not_started,
  checking, sleeping, finished, new_server, stop, begin_run, listen, check_running, wake_up,
  run_deferred,
}

-- Runs from a new server whose port is bound or not, with the texts that the broadcast thread made.
pub data Steps (bound : Bool) : List (List ℕ) → DashboardServer → Type 0 where
  fresh : Steps bound [] new_server
  begins :
      {made : List (List ℕ)} {s : DashboardServer}
      → Steps bound made s
      → s.phase ≡ not_running
      → Steps bound made (begin_run s)
  listens :
      {made : List (List ℕ)} {s : DashboardServer}
      → Steps bound made s
      → s.phase ≡ started
      → Steps bound made (listen bound s)
  checks :
      {made : List (List ℕ)} {s : DashboardServer}
      → Steps bound made s
      → s.broadcast ≡ checking
      → Steps bound made (check_running s)
  wakes :
      {made : List (List ℕ)} {s : DashboardServer} (json : List ℕ)
      → Steps bound made s
      → s.broadcast ≡ sleeping
      → Steps bound (if s.running then made ++ (json ∷ []) else made) (wake_up json s)
  stops :
      {made : List (List ℕ)} {s : DashboardServer} → Steps bound made s → Steps bound made (stop s)
  loops :
      {made : List (List ℕ)} {s : DashboardServer}
      → Steps bound made s
      → s.phase ≡ serving
      → Steps bound made (run_deferred s)

-- The texts that wait, and whether the closing of the socket does.
abbrev pub waiting : List Task → List (List ℕ)
waiting [] = []
waiting (publish json ∷ ts) = json ∷ waiting ts
waiting (close_socket ∷ ts) = waiting ts

abbrev pub closes : List Task → Bool
closes [] = false
closes (publish json ∷ ts) = closes ts
closes (close_socket ∷ ts) = true

abbrev pub count_of : Bool → ℕ
count_of b = if b then 1 else 0

abbrev pub is_serving : DashboardServer → Bool
is_serving s = elim (s.phase) [ not_running ↦ false | started ↦ false | serving ↦ true ]

abbrev pub is_finished : DashboardServer → Bool
is_finished s = elim (s.broadcast) [
  | not_started ↦ false
  | checking ↦ false
  | sleeping ↦ false
  | finished ↦ true
]

-- Nothing has happened before the event loop is there.
pub record IsIdle (made : List (List ℕ)) (s : DashboardServer) : Type 0 where
  pub broadcast : s.broadcast ≡ not_started
  pub deferred : s.deferred ≡ []
  pub listening : s.listening ≡ false
  pub closed : s.closed ≡ 0
  pub none_made : made ≡ []
  pub sent : s.sent ≡ []

-- The socket is closed once at most, and only if it was bound; the texts go out in order; and once the
-- broadcast thread has ended, the socket is closed or will be by a closure that waits.
pub record IsServer (bound : Bool) (made : List (List ℕ)) (s : DashboardServer) : Type 0 where
  pub idle : is_serving s ≡ false → IsIdle made s
  pub has_loop : s.has_loop ≡ is_serving s
  pub sockets : s.closed + count_of s.listening ≡ count_of (bound && is_serving s)
  pub order : s.sent ++ waiting s.deferred ≡ made
  pub ending :
      is_finished s ≡ true
      → (s.running ≡ false) × ((closes s.deferred ≡ true) ⊎ (s.listening ≡ false))
