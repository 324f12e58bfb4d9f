-- ===== src/Tests.antt =====
-- Concrete books on which the theorems about engine/orderbook and engine/matching are applied.
mod Book
mod Match
mod Parts
mod Wire
mod Host
mod Bench
mod Server
mod Thread
use event_driven_trading_sys.Base.{
  ℕ, ◌+◌, ◌*◌, ◌^◌, ◌<◌, ◌≡◌, refl, Option, none, some, arith, replicate,
}
use event_driven_trading_sys.Events.{Side, bid, ask, Event, make_new_order, encode_type}
use event_driven_trading_sys.OrderMap
use event_driven_trading_sys.PriceLevel
use event_driven_trading_sys.PriceLevel.{empty_level}
use event_driven_trading_sys.OrderBook.{
  OrderBook, OrderEntry, ok, make_book, insert, level, price_index, price_in_range, rest_order,
  raise_best, set_level, add_to_level,
}
use event_driven_trading_sys.OrderBook.Levels.{HasRoom}
use event_driven_trading_sys.OrderBook.Ops.{IsBook, make_book-IsBook, insert-IsBook}

abbrev pub empty_book : OrderBook
empty_book = make_book 1 4 0

-- Ten to sell at 199_999.
abbrev pub offer : OrderEntry
offer = record { order_id = 2 ^ 48 + 1; price = 199_999; quantity = 10; timestamp = 5; side = ask }

abbrev pub book : OrderBook
book = (insert empty_book offer).0

pub room_anywhere : (p q : ℕ) (s : Side) → q < 100 → HasRoom (level empty_book p s) q
unfolding level make_book empty_level replicate
room_anywhere p q bid h = record { slot = omega arith; no_wrap = omega arith }
room_anywhere p q ask h = record { slot = omega arith; no_wrap = omega arith }

pub book-IsBook : IsBook book
book-IsBook =
    insert-IsBook empty_book offer (make_book-IsBook 1 2) (omega arith) (omega arith)
      (λ r. room_anywhere 199_999 10 ask (omega arith))

pub book-count : (book.orders.count ≡ 1) × (book.orders.cap ≡ 8)
unfolding insert make_book rest_order raise_best set_level add_to_level level price_index
    price_in_range empty_level replicate OrderMap.make OrderMap.insert OrderMap.find
    OrderMap.find_slot OrderMap.find_loop OrderMap.insert_loop OrderMap.home OrderMap.probe
    OrderMap.key_at OrderMap.value_at PriceLevel.push
book-count = (refl, refl)

pub book-offer : OrderMap.find book.orders (2 ^ 48 + 1) ≡ some offer
unfolding insert make_book rest_order raise_best set_level add_to_level level price_index
    price_in_range empty_level replicate OrderMap.make OrderMap.insert OrderMap.find
    OrderMap.find_slot OrderMap.find_loop OrderMap.insert_loop OrderMap.home OrderMap.probe
    OrderMap.key_at OrderMap.value_at PriceLevel.push
book-offer = refl

pub book-quotes : (book.best_bid ≡ 0) × (book.best_ask ≡ 199_999)
unfolding insert make_book rest_order raise_best set_level add_to_level level price_index
    price_in_range empty_level replicate OrderMap.make OrderMap.insert OrderMap.find
    OrderMap.find_slot OrderMap.find_loop OrderMap.insert_loop OrderMap.home OrderMap.probe
    OrderMap.key_at OrderMap.value_at PriceLevel.push
book-quotes = (refl, refl)

-- Room for a small order on every level of the book.
pub room_in_book : (p q : ℕ) (s : Side) → q < 100 → HasRoom (level book p s) q
unfolding insert make_book rest_order raise_best set_level add_to_level level price_index
    price_in_range empty_level replicate OrderMap.make OrderMap.insert OrderMap.find
    OrderMap.find_slot OrderMap.find_loop OrderMap.insert_loop OrderMap.home OrderMap.probe
    OrderMap.key_at OrderMap.value_at PriceLevel.push
room_in_book p q bid h = record { slot = omega arith; no_wrap = omega arith }
room_in_book p q ask h = record { slot = ground arith; no_wrap = ground arith }

-- Four to buy at up to 200_000, from another participant.
abbrev pub buyer : Event
buyer = make_new_order 7 1 (2 * 2 ^ 48 + 1) 200_000 4 bid
