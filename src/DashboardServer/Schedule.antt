-- ===== src/DashboardServer/Schedule.antt =====
-- What every schedule of the threads of dashboard/websocket/DashboardServer.cpp keeps.
use mathlib.Core.List.{append-nil, append_assoc}
use event_driven_trading_sys.Base.{
  ℕ, ◌+◌, ◌≡◌, refl, sym, subst, ◌∙◌, ap, ◌≢◌, ◌⊎◌, inl, inr, Bool, true, false, if◌then◌else◌,
  Bool-cases, List, [], ◌∷◌, ◌++◌, ◌||◌, arith,
}
use event_driven_trading_sys.DashboardServer.{
  defer, leave, perform, DashboardServer, Task, publish, close_socket, not_running, started,
  serving, not_started, checking, sleeping, new_server, stop, begin_run, listen, check_running,
  wake_up, run_deferred, next_task,
}
use event_driven_trading_sys.DashboardServer.Life.{
  Steps, fresh, begins, listens, checks, wakes, stops, loops, waiting, closes, is_serving, IsIdle,
  IsServer,
}

waiting-append : (ts us : List Task) → waiting (ts ++ us) ≡ waiting ts ++ waiting us
waiting-append [] us = refl
waiting-append (publish json ∷ ts) us = ap (◌∷◌ json) (waiting-append ts us)
waiting-append (close_socket ∷ ts) us = waiting-append ts us

closes-append : (ts us : List Task) → closes (ts ++ us) ≡ (closes ts || closes us)
closes-append [] us = refl
closes-append (publish json ∷ ts) us = closes-append ts us
closes-append (close_socket ∷ ts) us = refl

module _ (bound : Bool) (made : List (List ℕ)) (s : DashboardServer)
    (v : IsServer bound made s) where
  begins-IsServer : s.phase ≡ not_running → IsServer bound made (begin_run s)
  unfolding begin_run
  begins-IsServer e =
      let i = v.idle (rw e refl) in
      record {
        idle = λ _. record {
          broadcast = i.broadcast;
          deferred = i.deferred;
          listening = i.listening;
          closed = i.closed;
          none_made = i.none_made;
          sent = i.sent;
        };
        has_loop = v.has_loop ∙ rw e refl;
        sockets = v.sockets ∙ rw e refl;
        order = v.order;
        ending = λ h. ground (arith, i.broadcast, h);
      }

  listens-IsServer : s.phase ≡ started → IsServer bound made (listen bound s)
  unfolding listen
  listens-IsServer e =
      let i = v.idle (rw e refl) in
      record {
        idle = λ h. cc h;
        has_loop = refl;
        sockets = ground (arith, i.closed);
        order = v.order;
        ending = λ h. cc h;
      }

  halted : IsServer bound made (record s { running = false })
  halted = record {
    idle = λ h.
        let i = v.idle h in
        record {
          broadcast = i.broadcast;
          deferred = i.deferred;
          listening = i.listening;
          closed = i.closed;
          none_made = i.none_made;
          sent = i.sent;
        };
    has_loop = v.has_loop;
    sockets = v.sockets;
    order = v.order;
    ending = λ h. (refl, (v.ending h).1);
  }

  -- A thread of the broadcast runs only beside the event loop.
  serves : s.broadcast ≢ not_started → is_serving s ≡ true
  serves ne = elim (Bool-cases (is_serving s)) [
    | inl e ↦ e
    | inr e ↦ absurd (ne (v.idle e).broadcast)
  ]

  order_closing : s.sent ++ waiting (s.deferred ++ (close_socket ∷ [])) ≡ made
  order_closing =
      ap (λ ts. s.sent ++ ts)
        (waiting-append s.deferred (close_socket ∷ []) ∙ append-nil (waiting s.deferred))
      ∙ v.order

  pub will_close : closes (s.deferred ++ (close_socket ∷ [])) ≡ true
  will_close = ground (arith, closes-append s.deferred (close_socket ∷ []))

  deferred-IsServer : is_serving s ≡ true → IsServer bound made (defer close_socket s)
  deferred-IsServer on = record {
    idle = λ h. cc (on, h);
    has_loop = v.has_loop;
    sockets = v.sockets;
    order = order_closing;
    ending = λ h. ((v.ending h).0, inl will_close);
  }

  leave-IsServer : is_serving s ≡ true → s.running ≡ false → IsServer bound made (leave s)
  leave-IsServer on off = record {
    idle = λ h. cc (on, h);
    has_loop = v.has_loop;
    sockets = v.sockets;
    order = order_closing;
    ending = λ h. (off, inl will_close);
  }

  sleeps-IsServer : is_serving s ≡ true → IsServer bound made (record s { broadcast = sleeping })
  sleeps-IsServer on = record {
    idle = λ h. cc (on, h);
    has_loop = v.has_loop;
    sockets = v.sockets;
    order = v.order;
    ending = λ h. cc h;
  }

  publishes-IsServer :
      (json : List ℕ)
      → is_serving s ≡ true
      → IsServer bound
          (made ++ (json ∷ []))
          (defer (publish json) (record s { broadcast = checking }))
  publishes-IsServer json on = record {
    idle = λ h. cc (on, h);
    has_loop = v.has_loop;
    sockets = v.sockets;
    order =
        ap (λ ts. s.sent ++ ts) (waiting-append s.deferred (publish json ∷ []))
        ∙ sym (append_assoc s.sent (waiting s.deferred) (json ∷ []))
        ∙ ap (λ ts. ts ++ (json ∷ [])) v.order;
    ending = λ h. cc h;
  }

  checks-IsServer : s.broadcast ≡ checking → IsServer bound made (check_running s)
  unfolding check_running
  checks-IsServer e =
      let on : is_serving s ≡ true = serves (λ z. cc (e, z)) in
      ground (arith, sleeps-IsServer on, leave-IsServer on)

  wakes-IsServer :
      (json : List ℕ)
      → s.broadcast ≡ sleeping
      → IsServer bound (if s.running then made ++ (json ∷ []) else made) (wake_up json s)
  unfolding wake_up
  wakes-IsServer json e =
      let on : is_serving s ≡ true = serves (λ z. cc (e, z)) in
      ground (arith, publishes-IsServer json on, leave-IsServer on)

  abbrev closed_if : Bool → List Task → DashboardServer
  closed_if b tasks =
      if b
      then record s { listening = false; deferred = tasks; closed = s.closed + 1 }
      else record s { deferred = tasks }

  perform-IsServer :
      (task : Task) (tasks : List Task)
      → is_serving s ≡ true
      → s.deferred ≡ task ∷ tasks
      → IsServer bound made (perform task (record s { deferred = tasks }))
  unfolding perform
  perform-IsServer (publish json) tasks on e = record {
    idle = λ h. cc (on, h);
    has_loop = v.has_loop;
    sockets = v.sockets;
    order =
        append_assoc s.sent (json ∷ []) (waiting tasks)
        ∙ ap (λ ts. s.sent ++ waiting ts) (sym e)
        ∙ v.order;
    ending = λ h.
        ((v.ending h).0, subst (λ ts. (closes ts ≡ true) ⊎ (s.listening ≡ false)) e (v.ending h).1);
  }
  perform-IsServer close_socket tasks on e =
      let order = ap (λ ts. s.sent ++ waiting ts) (sym e) ∙ v.order in
      elim (Bool-cases s.listening) [
        | inl l ↦ subst (IsServer bound made) (sym (ap (λ b. closed_if b tasks) l)) (record {
          idle = λ h. cc (on, h);
          has_loop = v.has_loop;
          sockets = ground (arith, v.sockets);
          order = order;
          ending = λ h. ((v.ending h).0, inr refl);
        })
        | inr l ↦ subst (IsServer bound made) (sym (ap (λ b. closed_if b tasks) l)) (record {
          idle = λ h. cc (on, h);
          has_loop = v.has_loop;
          sockets = v.sockets;
          order = order;
          ending = λ h. ((v.ending h).0, inr l);
        })
      ]

module _ (bound : Bool) (made : List (List ℕ)) (s : DashboardServer)
    (v : IsServer bound made s) where
  pub stops-IsServer : IsServer bound made (stop s)
  unfolding stop
  stops-IsServer = ground (
    arith,
    v,
    halted bound made s v,
    deferred-IsServer bound made (record s { running = false }) (halted bound made s v),
    v.has_loop,
  )

  pub loops-IsServer : s.phase ≡ serving → IsServer bound made (run_deferred s)
  unfolding run_deferred
  loops-IsServer e = at s.deferred refl
    where
      at : (ts : List Task) → s.deferred ≡ ts → IsServer bound made (next_task ts s)
      at [] d = v
      at (task ∷ tasks) d = perform-IsServer bound made s v task tasks (rw e refl) d

IsIdle-new : IsIdle [] new_server
IsIdle-new = record {
  broadcast = refl;
  deferred = refl;
  listening = refl;
  closed = refl;
  none_made = refl;
  sent = refl;
}

-- In every schedule of the event loop, the broadcast thread and calls of `stop` on a new server,
-- nothing happens before the event loop is there; the listen socket is closed at most once, and
-- only if its port was bound; the texts go out in the order in which they were made, none lost;
-- and once the broadcast thread has ended, the server is not running and its socket is closed or
-- will be by a closure that waits.
pub Steps-IsServer :
    (bound : Bool) {made : List (List ℕ)} {s : DashboardServer}
    → Steps bound made s
    → IsServer bound made s
Steps-IsServer bound fresh = record {
  idle = λ _. IsIdle-new;
  has_loop = refl;
  sockets = ground arith;
  order = refl;
  ending = λ h. cc h;
}
Steps-IsServer bound (begins st e) = begins-IsServer bound _ _ (Steps-IsServer bound st) e
Steps-IsServer bound (listens st e) = listens-IsServer bound _ _ (Steps-IsServer bound st) e
Steps-IsServer bound (checks st e) = checks-IsServer bound _ _ (Steps-IsServer bound st) e
Steps-IsServer bound (wakes json st e) = wakes-IsServer bound _ _ (Steps-IsServer bound st) json e
Steps-IsServer bound (stops st) = stops-IsServer bound _ _ (Steps-IsServer bound st)
Steps-IsServer bound (loops st e) = loops-IsServer bound _ _ (Steps-IsServer bound st) e
