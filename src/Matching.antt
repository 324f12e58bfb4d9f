-- ===== src/Matching.antt =====
-- engine/matching/MatchingEngine.hpp and MatchingEngine.cpp: price-time matching of one incoming
-- order against a book, and the layout of an order id.
pub mod OrderId
pub mod Loop
pub mod Rounds
pub mod Trades
pub mod Growth
pub mod Served
pub mod Priority
pub mod Process
pub mod Ghost
pub mod Conserve
use event_driven_trading_sys.Base.{
  ℕ, zero, suc, ◌+◌, ◌-◌, ◌*◌, ◌/◌, ◌%◌, ◌^◌, min, bit_or, Bool, true, false, not, ◌&&◌, ◌||◌, ◌==◌,
  ltb, if◌then◌else◌, List, [], ◌∷◌, ◌++◌, Option, none, some, length, take, sub64,
}
use event_driven_trading_sys.Events.{
  Side, bid, ask, is_bid, Event, event_side, make_cancel_order, make_trade_execution,
}
use event_driven_trading_sys.PriceLevel.{max_orders}
use event_driven_trading_sys.OrderBook
use event_driven_trading_sys.OrderBook.{
  OrderBook, OrderBookResult, OrderEntry, has_bid, has_ask, order_ids_at, find_order, reduce,
}

-- `order_id >> 48`
unfoldable pub participant_of : ℕ → ℕ
participant_of order_id = order_id / 2 ^ 48 % 2 ^ 16

-- `(participant_id << 48) | (sequence & 0x0000FFFFFFFFFFFF)`, of a 16-bit participant.
unfoldable pub make_order_id : ℕ → ℕ → ℕ
make_order_id participant_id sequence = bit_or (participant_id * 2 ^ 48) (sequence % 2 ^ 48)

pub data MatchResult : Type 0 where
  ok stp_triggered order_rejected : MatchResult

abbrev pub max_events : ℕ
max_events = 16

-- `events` is the part of the array that is in use; its length is `event_count`.
pub record MatchOutput : Type 0 where
  pub result : MatchResult
  pub events : List Event

abbrev pub empty_output : MatchOutput
empty_output = record { result = ok; events = [] }

-- An event beyond the array is dropped.
unfoldable pub push : MatchOutput → Event → MatchOutput
push out e =
    if ltb (length out.events) max_events
    then record out { events = out.events ++ (e ∷ []) }
    else out

-- `event_span().empty()`
abbrev pub is_nil : List Event → Bool
is_nil [] = true
is_nil (e ∷ es) = false

unfoldable pub empty : MatchOutput → Bool
empty out = is_nil out.events

unfoldable pub is_self_trade : ℕ → ℕ → Bool
unfolding participant_of
is_self_trade aggressor_id resting_id =
    let ap = participant_of aggressor_id in not (ap == 0) && ap == participant_of resting_id

abbrev pub opposite : Side → Side
opposite bid = ask
opposite ask = bid

-- What the loops change: the book, the output, the quantity left, and whether STP was hit.
pub record Progress : Type 0 where
  pub book : OrderBook
  pub out : MatchOutput
  pub remaining : ℕ
  pub stp_hit : Bool

-- One fill: a trade at the level's price, and the resting order reduced.
unfoldable pub fill : Event → ℕ → Progress → ℕ → OrderEntry → Progress
fill aggressor match_price s resting_id resting =
    let fill_qty = min s.remaining resting.quantity in
    record s {
      book = (reduce s.book resting_id fill_qty).0;
      out = push s.out (
          make_trade_execution aggressor.timestamp aggressor.symbol_id aggressor.order_id
            match_price fill_qty);
      remaining = sub64 s.remaining fill_qty;
    }

-- A self-trade: the aggressor is cancelled, and both loops end.
unfoldable pub stop_self_trade : Event → Progress → Progress
stop_self_trade aggressor s = record s {
  out =
      record (push s.out
        (make_cancel_order aggressor.timestamp aggressor.symbol_id aggressor.order_id)) {
          result = stp_triggered;
        };
  stp_hit = true;
}

-- The inner loop, over the snapshot of the level's ids.
unfoldable pub fill_level : Event → ℕ → List ℕ → Progress → Progress
fill_level aggressor match_price [] s = s
fill_level aggressor match_price (resting_id ∷ snap) s = elim (s.remaining == 0) [
  | true ↦ s
  | false ↦ elim (find_order s.book resting_id) [
    | none ↦ fill_level aggressor match_price snap s
    | some resting ↦ elim (is_self_trade aggressor.order_id resting_id) [
      | true ↦ stop_self_trade aggressor s
      | false ↦
          fill_level aggressor match_price snap (fill aggressor match_price s resting_id resting)
    ]
  ]
]

-- `break` of the outer loop: the best opposite price does not cross.
unfoldable pub crosses : OrderBook → Side → ℕ → Bool
crosses b bid price = not (not (has_ask b) || ltb price b.best_ask)
crosses b ask price = not (not (has_bid b) || ltb b.best_bid price)

unfoldable pub best_opposite : OrderBook → Side → ℕ
best_opposite b bid = b.best_ask
best_opposite b ask = b.best_bid

-- One round of the outer loop, at the best opposite price.
unfoldable pub match_round : Event → Progress → Progress
match_round aggressor s =
    let side = event_side aggressor in
    let match_price = best_opposite s.book side in
    fill_level aggressor match_price
      (take max_orders (order_ids_at s.book match_price (opposite side))) s

-- The outer loop, `while (remaining_qty > 0)`, with fuel: `none` means that the fuel ran out.
unfoldable pub match_loop : ℕ → Event → Progress → Option Progress
match_loop zero aggressor s = none
match_loop (suc fuel) aggressor s =
    elim (ltb 0 s.remaining && crosses s.book (event_side aggressor) aggressor.price) [
      | false ↦ some s
      | true ↦
          let s' = match_round aggressor s in
          elim s'.stp_hit [ true ↦ some s' | false ↦ match_loop fuel aggressor s' ]
    ]

abbrev pub is_ok : OrderBookResult → Bool
is_ok OrderBookResult.ok = true
is_ok OrderBookResult.price_out_of_range = false
is_ok OrderBookResult.order_not_found = false
is_ok OrderBookResult.order_already_exists = false

abbrev pub rested : Progress → OrderBook × OrderBookResult → MatchOutput × OrderBook
rested s (b, r) = (if is_ok r then s.out else record (s.out) { result = order_rejected }, b)

-- What is left of the aggressor, as a resting order.
abbrev pub remainder : Event → ℕ → OrderEntry
remainder aggressor quantity = record {
  order_id = aggressor.order_id;
  price = aggressor.price;
  quantity = quantity;
  timestamp = aggressor.timestamp;
  side = event_side aggressor;
}

-- What follows the loop: after STP the output as it is, else the rest of the order goes to the book.
unfoldable pub rest_remainder : Event → Progress → MatchOutput × OrderBook
rest_remainder aggressor s =
    if s.stp_hit
    then (s.out, s.book)
    else if ltb 0 s.remaining
    then rested s (OrderBook.insert s.book (remainder aggressor s.remaining))
    else (s.out, s.book)

abbrev pub finish : Event → Option Progress → Option (MatchOutput × OrderBook)
finish aggressor none = none
finish aggressor (some s) = some (rest_remainder aggressor s)

-- The first state of the loop.
abbrev pub start : OrderBook → Event → Progress
start book aggressor = record {
  book = book;
  out = empty_output;
  remaining = aggressor.quantity;
  stp_hit = false;
}

unfoldable pub process_new_order : ℕ → OrderBook → Event → Option (MatchOutput × OrderBook)
process_new_order fuel book aggressor =
    finish aggressor (match_loop fuel aggressor (start book aggressor))

unfoldable pub process_cancel : OrderBook → Event → OrderBook × OrderBookResult
process_cancel book event = OrderBook.cancel book event.order_id

unfoldable pub process_modify : OrderBook → Event → OrderBook × OrderBookResult
process_modify book event = OrderBook.modify book event.order_id event.price event.quantity
