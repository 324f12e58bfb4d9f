-- ===== src/Tests/Book.antt =====
-- The theorems about the book of engine/orderbook at concrete books and orders.
use event_driven_trading_sys.Base.{
  ℕ, ◌+◌, ◌*◌, ◌^◌, ◌<◌, ◌≡◌, refl, true, false, ◌==◌, if◌then◌else◌, some, arith, replicate,
}
use event_driven_trading_sys.Events.{ask}
use event_driven_trading_sys.OrderMap
use event_driven_trading_sys.OrderMap.Inv.{IsValid}
use event_driven_trading_sys.OrderMap.Make.{make-IsValid, find-make}
use event_driven_trading_sys.OrderMap.Write.{Inserted}
use event_driven_trading_sys.OrderMap.Total.{insert-Inserted}
use event_driven_trading_sys.PriceLevel.{empty_level, push}
use event_driven_trading_sys.PriceLevel.Laws.{IsLevel, ids-push}
use event_driven_trading_sys.Base.{take}
use event_driven_trading_sys.OrderBook.{max_price}
use event_driven_trading_sys.OrderBook.Depth.{top_bids, top_asks}
use event_driven_trading_sys.OrderBook.DepthRows.{all_bids, all_asks, top_bids-take}
use event_driven_trading_sys.OrderBook.{ok, insert, cancel, modify, make_book}
use event_driven_trading_sys.OrderBook.Ops.{
  IsBook, make_book-IsBook, insert-IsBook, cancel-IsBook, is_refused,
}
use event_driven_trading_sys.OrderBook.Modify.{modify-IsBook, modify-find}
use event_driven_trading_sys.OrderBook.Rests.{Answer, insert-Answer}
use event_driven_trading_sys.Tests.{
  empty_book, offer, book, book-IsBook, book-count, book-offer, room_anywhere, room_in_book,
}

insert-IsBook_example : IsBook (insert empty_book offer).0
insert-IsBook_example =
    insert-IsBook empty_book offer (make_book-IsBook 1 2) (omega arith) (omega arith)
      (λ r. room_anywhere 199_999 10 ask (omega arith))

insert-Answer_example : Answer empty_book offer
insert-Answer_example =
    insert-Answer empty_book offer (make_book-IsBook 1 2)
      (λ r. room_anywhere 199_999 10 ask (omega arith))

cancel-IsBook_example : IsBook (cancel book (2 ^ 48 + 1)).0
cancel-IsBook_example = cancel-IsBook book (2 ^ 48 + 1) book-IsBook

modify-IsBook_example : IsBook (modify book (2 ^ 48 + 1) 150_000 7).0
modify-IsBook_example =
    modify-IsBook book (2 ^ 48 + 1) 150_000 7 book-IsBook (omega arith) (omega arith)
      (λ o f r. room_in_book 150_000 7 o.side (omega arith))

modify-find_example :
    ((modify book (2 ^ 48 + 1) 150_000 7).1 ≡ ok)
    × ((j : ℕ)
        → OrderMap.find (modify book (2 ^ 48 + 1) 150_000 7).0.orders j ≡ (
            if 2 ^ 48 + 1 == j
            then some (record offer { price = 150_000; quantity = 7 })
            else OrderMap.find book.orders j))
modify-find_example =
    modify-find book (2 ^ 48 + 1) 150_000 7 offer book-IsBook (omega arith, omega arith)
      (omega (arith, book-count)) book-offer

not_refused : is_refused empty_book offer ≡ false
unfolding make_book OrderMap.make OrderMap.find OrderMap.find_slot OrderMap.find_loop OrderMap.home
    OrderMap.probe OrderMap.key_at replicate
not_refused = refl

-- A map of four slots.
abbrev map : OrderMap.OrderMap ℕ
map = OrderMap.make 0 4

abbrev map_5 : OrderMap.OrderMap ℕ
map_5 = (OrderMap.insert map 5 9).0

map-IsValid : IsValid map
map-IsValid = make-IsValid 0 2

map-load : map.count * 2 < map.cap
unfolding OrderMap.make
map-load = omega arith

make-IsValid_example : IsValid {V = ℕ} (OrderMap.make 7 4)
make-IsValid_example = make-IsValid 7 2

insert-Inserted_example : ((OrderMap.insert map 5 9).1 ≡ true) × Inserted map 5 9 map_5
insert-Inserted_example = insert-Inserted 5 9 map-IsValid refl (find-make 0 4 5) map-load

map_5-find : OrderMap.find map_5 5 ≡ some 9
map_5-find = (insert-Inserted 5 9 map-IsValid refl (find-make 0 4 5) map-load).1.lookup 5

map_5-IsValid : IsValid map_5
map_5-IsValid = (insert-Inserted 5 9 map-IsValid refl (find-make 0 4 5) map-load).1.valid

nine : IsLevel (push empty_level 9).0
unfolding empty_level replicate
nine = (ids-push empty_level 9 (record { sized = refl; fits = omega arith }) (omega arith)).0

top_bids-take_example :
    (top_bids book 10 ≡ take 10 (all_bids book max_price))
    × (top_asks book 10 ≡ take 10 (all_asks book max_price 1))
top_bids-take_example = top_bids-take book 10 book-IsBook
