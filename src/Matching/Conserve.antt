-- ===== src/Matching/Conserve.antt =====
-- What `MatchingEngine::process_new_order` (engine/matching/MatchingEngine.cpp) does to the
-- quantity of the book and of the aggressor, and the prices it trades at.
use event_driven_trading_sys.Base.{
  ℕ, ◌+◌, ◌-◌, ◌≤◌, ◌<◌, ◌≡◌, refl, ap, inl, inr, true, ltb, some, arith, u64_mod, Bool-cases,
  length,
}
use event_driven_trading_sys.Events.{Event}
use event_driven_trading_sys.OrderBook.{OrderBook, insert}
use event_driven_trading_sys.OrderBook.Ops.{IsBook, out_of_range, refused, rested, insert-Insertion}
use event_driven_trading_sys.OrderBook.Supply.{supply, supply-rest_order}
use event_driven_trading_sys.Matching
use event_driven_trading_sys.Matching.{
  MatchOutput, MatchResult, Progress, max_events, match_loop, rest_remainder, remainder,
  process_new_order, finish, start,
}
use event_driven_trading_sys.Matching.Loop.{Kept}
use event_driven_trading_sys.Matching.Rounds.{match_loop-IsDone}
use event_driven_trading_sys.Matching.Trades.{IsTraded, traded, all_fair, match_loop-IsTraded}

-- An accounting of an order of a quantity that left events and a book: what was executed, and what rests.
pub record Account (e : Event) (b : OrderBook) (out : MatchOutput) (b' : OrderBook) : Type 0 where
  pub executed : ℕ
  pub rests : ℕ
  pub within : executed + rests ≤ e.quantity
  pub balance : supply b' + executed ≡ supply b + rests
  pub complete : out.result ≡ Matching.ok → executed + rests ≡ e.quantity
  pub reported : traded out.events ≤ executed
  pub all_reported : length out.events < max_events → traded out.events ≡ executed
  pub fair : all_fair e out.events ≡ true

start-IsTraded : (b : OrderBook) (e : Event) → IsTraded e (start b e)
start-IsTraded b e = record {
  fair = refl;
  size = omega arith;
  sum = omega arith;
  exact = λ _. omega arith;
  stopped = λ h. ground arith;
}

-- The accounting of an outcome of the loop, with what went to the book.
account :
    (b : OrderBook) (e : Event) (t : Progress) (out : MatchOutput) (b' : OrderBook) (rests : ℕ)
    → Kept (start b e) t
    → IsTraded e t
    → out.events ≡ t.out.events
    → rests ≤ t.remaining
    → supply b' ≡ supply t.book + rests
    → (out.result ≡ Matching.ok → rests ≡ t.remaining)
    → Account e b out b'
account b e t out b' rests k u same le up full = record {
  executed = e.quantity - t.remaining;
  rests = rests;
  within = omega (arith, k.left, le);
  balance = omega (arith, k.left, k.supplied, up);
  complete = λ ok. omega (arith, full ok, k.left);
  reported = ground (arith, same, u.sum);
  all_reported = λ h. ground (arith, same, u.exact, h);
  fair = ground (arith, same, u.fair);
}

-- The outcome of the insertion of the remainder.
abbrev outcome : Event → Progress → MatchOutput × OrderBook
outcome e t = Matching.rested t (insert t.book (remainder e t.remaining))

insert-Account :
    (b : OrderBook) (e : Event) (t : Progress)
    → Kept (start b e) t
    → IsTraded e t
    → Account e b (outcome e t).0 (outcome e t).1
insert-Account b e t k u =
    elim (insert-Insertion t.book (remainder e t.remaining) k.book.consistent.map) [
      | out_of_range _ i ↦
          rw i
            (account b e t _ _ 0 k u refl (omega arith) (omega arith) (λ ok. absurd (ground arith)))
      | refused _ _ i ↦
          rw i
            (account b e t _ _ 0 k u refl (omega arith) (omega arith) (λ ok. absurd (ground arith)))
      | rested m _ _ _ ins i ↦ rw i (
          account b e t _ _ t.remaining k u refl (omega arith)
            (supply-rest_order t.book m (remainder e t.remaining) ins) (λ ok. refl))
    ]

rest_remainder-Account :
    (b : OrderBook) (e : Event) (t : Progress)
    → Kept (start b e) t
    → IsTraded e t
    → Account e b (rest_remainder e t).0 (rest_remainder e t).1
unfolding rest_remainder
rest_remainder-Account b e t k u = elim (Bool-cases t.stp_hit) [
  | inl h ↦ rw h (
      account b e t _ _ 0 k u refl (omega arith) (omega arith)
        (λ ok. absurd (ground (arith, u.stopped))))
  | inr h ↦ elim (Bool-cases (ltb 0 t.remaining)) [
    | inl l ↦ rw (h, l) (insert-Account b e t k u)
    | inr l ↦
        rw (h, l) (account b e t _ _ 0 k u refl (omega arith) (omega arith) (λ ok. ground arith))
  ]
]

-- On a book in order, for an aggressor of a 64-bit quantity and fuel for one round per resting
-- order and two more, `process_new_order` returns, and the quantities balance: what was executed
-- and what rests make up at most the order, and all of it if the result is `Ok`; the resting
-- quantity of the book is lower by what was executed and higher by what rests; the trades report
-- at most what was executed, and all of it if the array of events is not full; and no trade is at
-- a price beyond the order's limit.
pub process_new_order-Account :
    (fuel : ℕ) (b : OrderBook) (e : Event)
    → IsBook b
    → e.quantity < u64_mod
    → b.orders.count + 2 ≤ fuel
    → (out : MatchOutput) × (b' : OrderBook) × (process_new_order fuel b e ≡ some (out, b'))
      × Account e b out b'
unfolding process_new_order
process_new_order-Account fuel b e v small enough =
    let (t, run, k, done) = match_loop-IsDone fuel e (start b e) small v enough in
    (
      (rest_remainder e t).0,
      (rest_remainder e t).1,
      ap (finish e) run,
      rest_remainder-Account b e t k
          (match_loop-IsTraded fuel e (start b e) t small (start-IsTraded b e) run),
    )
