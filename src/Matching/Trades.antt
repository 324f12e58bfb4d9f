-- ===== src/Matching/Trades.antt =====
-- The events that `MatchingEngine::process_new_order` (engine/matching/MatchingEngine.cpp) puts
-- out: their prices against the aggressor's limit, and their quantities.
use event_driven_trading_sys.Base.{
  ℕ, zero, suc, ◌+◌, ◌≤◌, ◌<◌, ◌≡◌, refl, inl, inr, Bool, true, false, ◌&&◌, ◌==◌, leb, min,
  if◌then◌else◌, some, arith, u64_mod, sub64, Bool-cases, Option-cases, List, [], ◌∷◌, ◌++◌, length,
  length-append, sum_by, sum_by-append,
}
use event_driven_trading_sys.Events.{
  Side, bid, ask, Event, event_side, event_type, trade_execution, cancel_order,
  make_trade_execution, make_cancel_order,
}
use event_driven_trading_sys.Events.Codec.{event_type-encode_type}
use event_driven_trading_sys.OrderBook.{OrderBook, OrderEntry, find_order}
use event_driven_trading_sys.Matching.{
  stp_triggered, Progress, max_events, push, fill, fill_level, stop_self_trade, is_self_trade,
  match_round, match_loop, crosses, best_opposite,
}

-- A price that the aggressor's limit allows.
abbrev pub is_within : Side → ℕ → ℕ → Bool
is_within bid limit price = leb price limit
is_within ask limit price = leb limit price

abbrev pub is_trade : Event → Bool
is_trade x = event_type x == trade_execution

-- An event that is no trade beyond the limit.
abbrev pub is_fair : Event → Event → Bool
is_fair e x = if is_trade x then is_within (event_side e) e.price x.price else true

abbrev pub all_fair : Event → List Event → Bool
all_fair e [] = true
all_fair e (x ∷ xs) = is_fair e x && all_fair e xs

abbrev trade_quantity : Event → ℕ
trade_quantity x = if is_trade x then x.quantity else 0

-- The quantity of the trades of a list of events.
abbrev pub traded : List Event → ℕ
traded xs = sum_by trade_quantity xs

-- What the events say of the progress.
pub record IsTraded (e : Event) (s : Progress) : Type 0 where
  pub fair : all_fair e s.out.events ≡ true
  pub size : length s.out.events ≤ max_events
  pub sum : traded s.out.events + s.remaining ≤ e.quantity
  pub exact : length s.out.events < max_events → traded s.out.events + s.remaining ≡ e.quantity
  pub stopped : s.stp_hit ≡ true → s.out.result ≡ stp_triggered

all_fair-append :
    (e : Event) (xs ys : List Event) → all_fair e (xs ++ ys) ≡ (all_fair e xs && all_fair e ys)
all_fair-append e [] ys = refl
all_fair-append e (x ∷ xs) ys = ground (arith, all_fair-append e xs ys)

is_trade-make_trade_execution : (t s i p q : ℕ) → is_trade (make_trade_execution t s i p q) ≡ true
unfolding make_trade_execution
is_trade-make_trade_execution t s i p q = ground (
  arith,
  event_type-encode_type (make_trade_execution t s i p q) trade_execution bid (omega arith) refl,
)

is_trade-make_cancel_order : (t s i : ℕ) → is_trade (make_cancel_order t s i) ≡ false
unfolding make_cancel_order
is_trade-make_cancel_order t s i =
    ground
      (arith, event_type-encode_type (make_cancel_order t s i) cancel_order bid (omega arith) refl)

-- A pushed event and the quantity it stands for.
pushed :
    (e x : Event) (s : Progress) (left : ℕ)
    → is_fair e x ≡ true
    → trade_quantity x + left ≡ s.remaining
    → IsTraded e s
    → IsTraded e (record s { out = push s.out x; remaining = left })
unfolding push
pushed e x s left ok q t = record {
  stopped = λ h. ground (arith, t.stopped, h);
  fair = ground (arith, all_fair-append e s.out.events (x ∷ []), t.fair, ok);
  size = ground (arith, length-append s.out.events (x ∷ []), t.size);
  sum = ground (arith, sum_by-append trade_quantity s.out.events (x ∷ []), t.sum, q);
  exact = λ h. ground (
    arith,
    length-append s.out.events (x ∷ []),
    sum_by-append trade_quantity s.out.events (x ∷ []),
    t.exact,
    q,
    h,
  );
}

fill-IsTraded :
    (e : Event) (p : ℕ) (s : Progress) (id : ℕ) (o : OrderEntry)
    → is_within (event_side e) e.price p ≡ true
    → s.remaining < u64_mod
    → IsTraded e s
    → IsTraded e (fill e p s id o)
unfolding fill make_trade_execution
fill-IsTraded e p s id o ok small t =
    let q : ℕ = min s.remaining o.quantity in
    let x : Event = make_trade_execution e.timestamp e.symbol_id e.order_id p q in
    let trade : is_trade x ≡ true =
      is_trade-make_trade_execution e.timestamp e.symbol_id e.order_id p q in
    let u =
      pushed e x s (sub64 s.remaining q) (ground (arith, trade, ok)) (ground (arith, trade, small))
        t in
    record { fair = u.fair; size = u.size; sum = u.sum; exact = u.exact; stopped = u.stopped }

stop_self_trade-IsTraded :
    (e : Event) (s : Progress) → IsTraded e s → IsTraded e (stop_self_trade e s)
unfolding stop_self_trade
stop_self_trade-IsTraded e s t =
    let x : Event = make_cancel_order e.timestamp e.symbol_id e.order_id in
    let other : is_trade x ≡ false =
      is_trade-make_cancel_order e.timestamp e.symbol_id e.order_id in
    let u = pushed e x s s.remaining (ground (arith, other)) (ground (arith, other)) t in
    record { fair = u.fair; size = u.size; sum = u.sum; exact = u.exact; stopped = λ _. refl }

fill_level-IsTraded :
    (e : Event) (p : ℕ) (snap : List ℕ) (s : Progress)
    → is_within (event_side e) e.price p ≡ true
    → s.remaining < u64_mod
    → e.quantity < u64_mod
    → IsTraded e s
    → IsTraded e (fill_level e p snap s)
unfolding fill_level
fill_level-IsTraded e p [] s ok small all t = t
fill_level-IsTraded e p (id ∷ snap) s ok small all t = elim (Bool-cases (s.remaining == 0)) [
  | inl z ↦ rw (fill_level, z) t
  | inr z ↦ elim (Option-cases (find_order s.book id)) [
    | inl f ↦ rw (fill_level, z, f) (fill_level-IsTraded e p snap s ok small all t)
    | inr (o, f) ↦ elim (Bool-cases (is_self_trade e.order_id id)) [
      | inl self ↦ rw (fill_level, z, f, self) (stop_self_trade-IsTraded e s t)
      | inr other ↦
          let u = fill-IsTraded e p s id o ok small t in
          rw (fill_level, z, f, other)
            (fill_level-IsTraded e p snap (fill e p s id o) ok (omega (arith, u.sum, all)) all u)
    ]
  ]
]

crosses-is_within :
    (b : OrderBook) (side : Side) (price : ℕ)
    → crosses b side price ≡ true
    → is_within side price (best_opposite b side) ≡ true
unfolding crosses best_opposite
crosses-is_within b bid price h = ground arith
crosses-is_within b ask price h = ground arith

match_round-IsTraded :
    (e : Event) (s : Progress)
    → crosses s.book (event_side e) e.price ≡ true
    → e.quantity < u64_mod
    → IsTraded e s
    → IsTraded e (match_round e s)
unfolding match_round
match_round-IsTraded e s c all t =
    fill_level-IsTraded e _ _ s (crosses-is_within s.book (event_side e) e.price c)
      (omega (arith, t.sum)) all t

-- The loop keeps what the events say.
pub match_loop-IsTraded :
    (fuel : ℕ) (e : Event) (s t : Progress)
    → e.quantity < u64_mod
    → IsTraded e s
    → match_loop fuel e s ≡ some t
    → IsTraded e t
unfolding match_loop
match_loop-IsTraded zero e s t small u h = ground arith
match_loop-IsTraded (suc fuel) e s t small u h =
    ground (arith, match_round-IsTraded e s, match_loop-IsTraded fuel e (match_round e s) t)
