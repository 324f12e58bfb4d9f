-- ===== src/Tests/Match.antt =====
-- The theorems about engine/matching, and about the ids and the events, at concrete inputs.
use event_driven_trading_sys.Base.{
  ℕ, zero, suc, ◌+◌, ◌^◌, ◌<◌, ◌≡◌, ap, ◌∙◌, refl, ◌⊎◌, inr, true, [], none, some, arith, replicate,
  u64_mod,
}
use event_driven_trading_sys.Events.{ask, event_side, encode_type, make_new_order}
use event_driven_trading_sys.OrderMap
use event_driven_trading_sys.PriceLevel
use event_driven_trading_sys.PriceLevel.{PriceLevel, ids, empty_level}
use event_driven_trading_sys.OrderBook.{
  OrderBook, OrderEntry, add_to_level, insert, cancel, make_book, rest_order, raise_best, set_level,
  level, price_index, price_in_range, unlink, lower_best, take_from_level, order_ids_at, has_ask,
}
use event_driven_trading_sys.OrderBook.{find_order}
use event_driven_trading_sys.OrderBook.Ops.{IsBook, insert-IsBook}
use event_driven_trading_sys.Matching.{
  MatchOutput, Progress, process_new_order, match_loop, start, crosses, best_opposite, opposite,
}
use event_driven_trading_sys.Matching.Loop.{Kept}
use event_driven_trading_sys.Matching.Rounds.{IsDone, match_loop-IsDone}
use event_driven_trading_sys.Matching.Process.{
  process_new_order-IsBook, process_new_order-IsUncrossed,
}
use event_driven_trading_sys.Matching.Conserve.{Account, process_new_order-Account}
use event_driven_trading_sys.Matching.Ghost.{match_loop-Ghost}
use event_driven_trading_sys.Matching.Served.{IsAhead}
use event_driven_trading_sys.Matching.Priority.{process_new_order-IsAhead}
use event_driven_trading_sys.Tests.{
  offer, book, book-IsBook, book-count, book-quotes, buyer, room_in_book,
}

buyer-small : buyer.quantity < u64_mod
unfolding make_new_order
buyer-small = omega arith

process_new_order-IsUncrossed_example :
    (out : MatchOutput) × (b : OrderBook) × (process_new_order 3 book buyer ≡ some (out, b))
    × (b.best_bid < b.best_ask)
process_new_order-IsUncrossed_example =
    process_new_order-IsUncrossed 3 book buyer book-IsBook (omega (arith, book-quotes)) buyer-small
      (omega (arith, book-count))

process_new_order-Account_example :
    (out : MatchOutput) × (b : OrderBook) × (process_new_order 3 book buyer ≡ some (out, b))
    × Account buyer book out b
process_new_order-Account_example =
    process_new_order-Account 3 book buyer book-IsBook buyer-small (omega (arith, book-count))

buyer-room : buyer.quantity < 100
unfolding make_new_order
buyer-room = omega arith

process_new_order-IsBook_example :
    (out : MatchOutput) × (b : OrderBook) × (process_new_order 3 book buyer ≡ some (out, b))
    × IsBook b
process_new_order-IsBook_example =
    process_new_order-IsBook 3 book buyer book-IsBook buyer-small
      (λ r. room_in_book buyer.price buyer.quantity (event_side buyer) buyer-room)
      (omega (arith, book-count))

match_loop-IsDone_example :
    (t : Progress) × (match_loop 3 buyer (start book buyer) ≡ some t)
    × Kept (start book buyer) t
    × IsDone buyer t
match_loop-IsDone_example =
    match_loop-IsDone 3 buyer (start book buyer) buyer-small book-IsBook (omega (arith, book-count))

abbrev trader : ℕ
trader = 3

-- A level with 16 orders of one.
abbrev full_level : PriceLevel
full_level = record { total_quantity = 16; order_ids = replicate 16 7; count = 16 }

-- The n-th order of a queue of orders of one at 199_999.
abbrev single : ℕ → OrderEntry
single n = record { order_id = n; price = 199_999; quantity = 1; timestamp = 5; side = ask }

abbrev insert_all : ℕ → OrderBook → OrderBook
insert_all zero b = b
insert_all (suc n) b = insert_all n (insert b (single (suc n))).0

abbrev cancel_all : ℕ → OrderBook → OrderBook
cancel_all zero b = b
cancel_all (suc n) b = cancel_all n (cancel b (suc (suc n))).0

-- 17 orders on one level, of which 16 are cancelled.
abbrev ghost_book : OrderBook
ghost_book = cancel_all 16 (insert_all 17 (make_book 1 32 0))

ghost-level : (order_ids_at ghost_book 199_999 ask ≡ []) × (ghost_book.best_ask ≡ 199_999)
unfolding insert cancel make_book rest_order raise_best set_level add_to_level level price_index
    price_in_range empty_level replicate OrderMap.make OrderMap.insert OrderMap.find
    OrderMap.find_slot OrderMap.find_loop OrderMap.insert_loop OrderMap.home OrderMap.probe
    OrderMap.key_at OrderMap.value_at PriceLevel.push unlink lower_best take_from_level
    PriceLevel.remove PriceLevel.index_loop PriceLevel.shift_loop OrderMap.erase order_ids_at ids
ghost-level = (refl, refl)

-- The loop's hypotheses on the book of 16 cancelled orders and a buyer at 200_000.
ghost-crosses : crosses (start ghost_book buyer).book (event_side buyer) buyer.price ≡ true
unfolding crosses has_ask event_side make_new_order encode_type
ghost-crosses = ground (arith, ghost-level)

ghost-empty :
    order_ids_at
      (start ghost_book buyer).book
      (best_opposite (start ghost_book buyer).book (event_side buyer))
      (opposite (event_side buyer))
    ≡ []
unfolding best_opposite event_side make_new_order encode_type
ghost-empty = ap (λ p. order_ids_at ghost_book p ask) (ghost-level.1) ∙ ghost-level.0

buyer-pos : 0 < buyer.quantity
unfolding make_new_order
buyer-pos = omega arith

match_loop-Ghost_example : match_loop 1000 buyer (start ghost_book buyer) ≡ none
match_loop-Ghost_example =
    match_loop-Ghost 1000 buyer (start ghost_book buyer) buyer-pos refl ghost-crosses ghost-empty

-- Two offers in one queue.
abbrev second_offer : OrderEntry
second_offer = record offer { order_id = 2 ^ 48 + 2; quantity = 5 }

abbrev two_offers : OrderBook
two_offers = (insert book second_offer).0

two_offers-IsBook : IsBook two_offers
two_offers-IsBook =
    insert-IsBook book second_offer book-IsBook (omega arith) (omega arith)
      (λ r. room_in_book 199_999 5 ask (omega arith))

two_offers-finds :
    (two_offers.orders.count ≡ 2)
    × (find_order two_offers buyer.order_id ≡ none)
    × (find_order two_offers (2 ^ 48 + 1) ≡ some offer)
    × (find_order two_offers (2 ^ 48 + 2) ≡ some second_offer)
unfolding insert make_book rest_order raise_best set_level add_to_level level price_index
    price_in_range empty_level replicate find_order OrderMap.make OrderMap.insert OrderMap.find
    OrderMap.find_slot OrderMap.find_loop OrderMap.insert_loop OrderMap.home OrderMap.probe
    OrderMap.key_at OrderMap.value_at PriceLevel.push make_new_order
two_offers-finds = (refl, refl, refl, refl)

first-IsAhead : IsAhead two_offers (2 ^ 48 + 1) offer (2 ^ 48 + 2) second_offer
unfolding insert make_book rest_order raise_best set_level add_to_level level price_index
    price_in_range empty_level replicate OrderMap.make OrderMap.insert OrderMap.find
    OrderMap.find_slot OrderMap.find_loop OrderMap.insert_loop OrderMap.home OrderMap.probe
    OrderMap.key_at OrderMap.value_at PriceLevel.push ids
first-IsAhead = (refl, inr (refl, omega arith))

process_new_order-IsAhead_example :
    (out : MatchOutput) × (b : OrderBook) × (process_new_order 4 two_offers buyer ≡ some (out, b))
    × ((find_order b (2 ^ 48 + 1) ≡ none) ⊎ (find_order b (2 ^ 48 + 2) ≡ some second_offer))
process_new_order-IsAhead_example =
    process_new_order-IsAhead 4 two_offers buyer (2 ^ 48 + 1) (2 ^ 48 + 2) offer second_offer
      two_offers-IsBook buyer-small (omega (arith, two_offers-finds)) two_offers-finds.1
      two_offers-finds.2 two_offers-finds.3 first-IsAhead
