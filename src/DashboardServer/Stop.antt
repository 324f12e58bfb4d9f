-- ===== src/DashboardServer/Stop.antt =====
-- What a call of `stop` of dashboard/websocket/DashboardServer.cpp leads to.
use event_driven_trading_sys.Base.{
  ℕ, zero, suc, length, ◌≡◌, refl, sym, subst, ◌∙◌, ap, ◌⊎◌, inl, inr, Bool, true, false, List, [],
  ◌∷◌, arith,
}
use event_driven_trading_sys.DashboardServer.{
  defer, perform, DashboardServer, Task, publish, close_socket, serving, stop, run_deferred,
  next_task,
}
use event_driven_trading_sys.DashboardServer.Life.{Steps, closes, count_of, IsServer}
use event_driven_trading_sys.DashboardServer.Schedule.{
  Steps-IsServer, loops-IsServer, stops-IsServer, will_close,
}

-- The event loop runs closures that wait, as many as given.
abbrev pub drain : ℕ → DashboardServer → DashboardServer
drain zero s = s
drain (suc n) s = drain n (run_deferred s)

phase-perform : (task : Task) (s : DashboardServer) → (perform task s).phase ≡ s.phase
unfolding perform
phase-perform (publish json) s = refl
phase-perform close_socket s = ground arith

deferred-perform : (task : Task) (s : DashboardServer) → (perform task s).deferred ≡ s.deferred
unfolding perform
deferred-perform (publish json) s = refl
deferred-perform close_socket s = ground arith

-- The closures that wait close the socket if it is open.
perform-closes :
    (task : Task) (tasks : List Task) (s : DashboardServer)
    → (closes (task ∷ tasks) ≡ true) ⊎ (s.listening ≡ false)
    → (closes tasks ≡ true) ⊎ ((perform task s).listening ≡ false)
unfolding perform
perform-closes (publish json) tasks s h = h
perform-closes close_socket tasks s h = inr (ground arith)

run_deferred-cons :
    (task : Task) (tasks : List Task) (s : DashboardServer)
    → s.deferred ≡ task ∷ tasks
    → run_deferred s ≡ perform task (record s { deferred = tasks })
unfolding run_deferred
run_deferred-cons task tasks s e = ap (λ ts. next_task ts s) e

drain-closes :
    (bound : Bool) (made : List (List ℕ)) (ts : List Task) (s : DashboardServer)
    → s.deferred ≡ ts
    → s.phase ≡ serving
    → IsServer bound made s
    → (closes ts ≡ true) ⊎ (s.listening ≡ false)
    → let t = drain (length ts) s in
      IsServer bound made t × (t.phase ≡ serving) × (t.listening ≡ false)
drain-closes bound made [] s e p v (inl c) = cc c
drain-closes bound made [] s e p v (inr l) = (v, p, l)
drain-closes bound made (task ∷ tasks) s e p v c =
    let round = run_deferred-cons task tasks s e in
    drain-closes bound made tasks (run_deferred s)
      (ap (λ t. t.deferred) round ∙ deferred-perform task (record s { deferred = tasks }))
      (ap (λ t. t.phase) round ∙ phase-perform task (record s { deferred = tasks }) ∙ p)
      (loops-IsServer bound made s v p)
      (subst (λ t. (closes tasks ≡ true) ⊎ (t.listening ≡ false)) (sym round)
        (perform-closes task tasks (record s { deferred = tasks }) c))

stop-serving :
    (s : DashboardServer)
    → s.running ≡ true
    → s.has_loop ≡ true
    → stop s ≡ defer close_socket (record s { running = false })
unfolding stop
stop-serving s on loop = ground arith

serving_loop :
    (bound : Bool) (made : List (List ℕ)) (s : DashboardServer)
    → IsServer bound made s
    → s.phase ≡ serving
    → s.has_loop ≡ true
serving_loop bound made s v p = v.has_loop ∙ rw p refl

closed-bound :
    (bound : Bool) (made : List (List ℕ)) (t : DashboardServer)
    → IsServer bound made t
    → t.phase ≡ serving
    → t.listening ≡ false
    → t.closed ≡ count_of bound
closed-bound bound made t v p l = ground (arith, v.sockets, p, l)

-- In every schedule, a call of `stop` on a server that runs and whose event loop is there leads to
-- a closed listen socket once the event loop has run the closures that wait: it was closed once if
-- the port was bound, and never if not.
pub stop-closes :
    (bound : Bool) {made : List (List ℕ)} (s : DashboardServer)
    → Steps bound made s
    → s.phase ≡ serving
    → s.running ≡ true
    → let t = drain (length (stop s).deferred) (stop s) in
      (t.listening ≡ false) × (t.closed ≡ count_of bound)
stop-closes bound {made} s st p on =
    let v = Steps-IsServer bound st in
    let e = stop-serving s on (serving_loop bound made s v p) in
    let (w, phase, shut) =
      drain-closes bound made (stop s).deferred (stop s) refl (ap (λ t. t.phase) e ∙ p)
        (stops-IsServer bound made s v)
        (inl (ap (λ t. closes t.deferred) e ∙ will_close bound made s v)) in
    (shut, closed-bound bound made (drain (length (stop s).deferred) (stop s)) w phase shut)
