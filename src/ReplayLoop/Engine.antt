-- ===== src/ReplayLoop/Engine.antt =====
-- What one event does to the book, by the number of its type in engine/events/Event.hpp: 1 is a new
-- order, 2 a cancel and 3 a modify. It stands apart from the tests of dashboard/websocket/main.cpp.
use event_driven_trading_sys.Base.{
  ℕ, ◌%◌, ◌^◌, ◌≡◌, ◌==◌, Bool-cases, inl, inr, refl, if◌then◌else◌, List, [], Option, none, some,
}
use event_driven_trading_sys.Events.{Event, event_type}
use event_driven_trading_sys.OrderBook.{OrderBook, cancel, modify}
use event_driven_trading_sys.Matching.{
  MatchOutput, process_new_order, process_cancel, process_modify,
}
use event_driven_trading_sys.ReplayLoop.{route, matched}

pub data Request : Type 0 where
  place take_back change nothing : Request

abbrev pub request_of : Event → Request
request_of e =
    if e.type % 2 ^ 16 == 1
    then place
    else if e.type % 2 ^ 16 == 2
    then take_back
    else if e.type % 2 ^ 16 == 3
    then change
    else nothing

abbrev pub with_events : Option (MatchOutput × OrderBook) → Option (OrderBook × List Event)
with_events none = none
with_events (some (out, book)) = some (book, out.events)

-- The book after a request, and the events put out.
abbrev pub serve : ℕ → OrderBook → Event → Request → Option (OrderBook × List Event)
serve fuel book e place = with_events (process_new_order fuel book e)
serve fuel book e take_back = some ((cancel book e.order_id).0, [])
serve fuel book e change = some ((modify book e.order_id e.price e.quantity).0, [])
serve fuel book e nothing = some (book, [])

abbrev pub engine_step : ℕ → OrderBook → Event → Option (OrderBook × List Event)
engine_step fuel book e = serve fuel book e (request_of e)

with_events-matched : (r : Option (MatchOutput × OrderBook)) → matched r ≡ with_events r
with_events-matched none = refl
with_events-matched (some (out, book)) = refl

pub route-engine_step :
    (fuel : ℕ) (book : OrderBook) (e : Event) → route fuel book e ≡ engine_step fuel book e
unfolding route event_type process_cancel process_modify
route-engine_step fuel book e = elim (Bool-cases (e.type % 2 ^ 16 == 1)) [
  | inl a ↦ rw a (with_events-matched (process_new_order fuel book e))
  | inr a ↦ elim (Bool-cases (e.type % 2 ^ 16 == 2)) [
    | inl b ↦ rw (a, b) refl
    | inr b ↦ elim (Bool-cases (e.type % 2 ^ 16 == 3)) [
      | inl c ↦ rw (a, b, c) refl
      | inr c ↦ rw (a, b, c) refl
    ]
  ]
]
