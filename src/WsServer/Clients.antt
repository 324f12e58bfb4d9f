-- ===== src/WsServer/Clients.antt =====
-- The set of clients of dashboard/websocket/WsServer.cpp under broadcasts and disconnects.
use event_driven_trading_sys.Base.{
  ℕ, suc, ◌+◌, ◌≤◌, ◌≡◌, refl, sym, ◌∙◌, ap, inl, inr, Bool, true, false, not, ◌&&◌, ◌||◌, ◌==◌,
  if◌then◌else◌, Bool-cases, List, [], ◌∷◌, ◌++◌, arith, ==_iff,
}
use mathlib.Core.List.{append-nil, append_assoc}
use event_driven_trading_sys.WsServer.{
  Server, remove, disconnect, dead_clients, drop_clients, broadcast, text_frame,
}

-- The clients that a send reached.
unfoldable pub reached : (ℕ → List ℕ → Bool) → List ℕ → List ℕ → List ℕ
reached sends frame [] = []
reached sends frame (fd ∷ fds) =
    if sends fd frame then fd ∷ reached sends frame fds else reached sends frame fds

abbrev pub contains : ℕ → List ℕ → Bool
contains fd [] = false
contains fd (c ∷ cs) = c == fd || contains fd cs

-- A list with every client of another removed.
abbrev remove_all : List ℕ → List ℕ → List ℕ
unfolding remove
remove_all [] cs = cs
remove_all (fd ∷ fds) cs = remove_all fds (remove fd cs)

remove_all-nil : (fds : List ℕ) → remove_all fds [] ≡ []
unfolding remove
remove_all-nil [] = refl
remove_all-nil (fd ∷ fds) = remove_all-nil fds

remove_all-cons :
    (fds : List ℕ) (c : ℕ) (cs : List ℕ)
    → remove_all fds (c ∷ cs)
      ≡ (if contains c fds then remove_all fds cs else c ∷ remove_all fds cs)
unfolding remove
remove_all-cons [] c cs = refl
remove_all-cons (fd ∷ fds) c cs = ground (arith, remove_all-cons fds c (remove fd cs))

contains-dead_clients :
    (sends : ℕ → List ℕ → Bool) (frame : List ℕ) (c : ℕ) (cs : List ℕ)
    → contains c (dead_clients sends frame cs) ≡ (contains c cs && not (sends c frame))
unfolding dead_clients
contains-dead_clients sends frame c [] = refl
contains-dead_clients sends frame c (d ∷ cs) = elim (Bool-cases (d == c)) [
  | inl same ↦ rw (← (==_iff d c).0 same) (ground (arith, contains-dead_clients sends frame d cs))
  | inr other ↦ ground (arith, contains-dead_clients sends frame c cs)
]

remove_all-dead_clients :
    (sends : ℕ → List ℕ → Bool) (frame : List ℕ) (fds cs : List ℕ)
    → ((c : ℕ) → contains c cs ≡ true → contains c fds ≡ true)
    → remove_all (dead_clients sends frame fds) cs ≡ reached sends frame cs
unfolding reached
remove_all-dead_clients sends frame fds [] h = remove_all-nil _
remove_all-dead_clients sends frame fds (c ∷ cs) h = ground (
  arith,
  remove_all-cons (dead_clients sends frame fds) c cs,
  contains-dead_clients sends frame c fds,
  h c,
  remove_all-dead_clients sends frame fds cs (λ d k. h d (ground (arith, k))),
)

drop_clients_lem :
    (fds : List ℕ) (s : Server)
    → ((drop_clients fds s).clients ≡ remove_all fds s.clients)
      × ((drop_clients fds s).closed ≡ s.closed ++ fds)
      × ((drop_clients fds s).running ≡ s.running)
      × ((drop_clients fds s).listen_fd ≡ s.listen_fd)
unfolding drop_clients disconnect
drop_clients_lem [] s = (refl, sym (append-nil s.closed), refl, refl)
drop_clients_lem (fd ∷ fds) s =
    let ih = drop_clients_lem fds (disconnect fd s) in
    (ih.0, ih.1 ∙ append_assoc s.closed (fd ∷ []) fds, ih.2, ih.3)

pub broadcast_lem :
    (sends : ℕ → List ℕ → Bool) (msg : List ℕ) (s : Server)
    → ((broadcast sends msg s).clients ≡ reached sends (text_frame msg) s.clients)
      × ((broadcast sends msg s).closed ≡ s.closed ++ dead_clients sends (text_frame msg) s.clients)
      × ((broadcast sends msg s).running ≡ s.running)
      × ((broadcast sends msg s).listen_fd ≡ s.listen_fd)
unfolding broadcast
broadcast_lem sends msg s =
    let frame = text_frame msg in
    let dropped = drop_clients_lem (dead_clients sends frame s.clients) s in
    (
      dropped.0 ∙ remove_all-dead_clients sends frame s.clients s.clients (λ c h. h),
      dropped.1,
      dropped.2,
      dropped.3,
    )

-- How often a descriptor is closed.
unfoldable pub times_closed : ℕ → List ℕ → ℕ
times_closed fd [] = 0
times_closed fd (c ∷ cs) = if c == fd then suc (times_closed fd cs) else times_closed fd cs

times_closed-append :
    (fd : ℕ) (xs ys : List ℕ) → times_closed fd (xs ++ ys) ≡ times_closed fd xs + times_closed fd ys
unfolding times_closed
times_closed-append fd [] ys = omega arith
times_closed-append fd (x ∷ xs) ys = ground (arith, times_closed-append fd xs ys)

contains-times_closed : (fd : ℕ) (xs : List ℕ) → contains fd xs ≡ true → 1 ≤ times_closed fd xs
unfolding times_closed
contains-times_closed fd [] h = ground arith
contains-times_closed fd (x ∷ xs) h = ground (arith, contains-times_closed fd xs)

-- The descriptor of a client that `broadcast` could not send to is closed at least twice by the
-- time the thread of that client has ended too.
pub broadcast-disconnect_closes_twice :
    (sends : ℕ → List ℕ → Bool) (msg : List ℕ) (s : Server) (fd : ℕ)
    → contains fd s.clients ≡ true
    → sends fd (text_frame msg) ≡ false
    → times_closed fd s.closed + 2 ≤ times_closed fd (disconnect fd (broadcast sends msg s)).closed
unfolding disconnect times_closed
broadcast-disconnect_closes_twice sends msg s fd h fails =
    let frame = text_frame msg in
    let dead = dead_clients sends frame s.clients in
    let closed = (broadcast sends msg s).closed in
    let once : 1 ≤ times_closed fd dead =
      contains-times_closed fd dead
        (ground (arith, contains-dead_clients sends frame fd s.clients)) in
    let last : times_closed fd (fd ∷ []) ≡ 1 = ground arith in
    omega (
      arith,
      times_closed-append fd closed (fd ∷ []),
      times_closed-append fd s.closed dead,
      ap (times_closed fd) (broadcast_lem sends msg s).1,
      once,
      last,
    )
