-- ===== src/Matching/Process.antt =====
-- `MatchingEngine::process_new_order` (engine/matching/MatchingEngine.cpp) as a whole: it returns,
-- the book stays in order, and a book that was not crossed is not crossed after it.
use event_driven_trading_sys.Base.{ℕ, ◌+◌, ◌≤◌, ◌<◌, ◌≡◌, ap, false, some, arith, u64_mod}
use event_driven_trading_sys.Events.{Event, event_side}
use event_driven_trading_sys.OrderMap
use event_driven_trading_sys.OrderBook.{
  OrderBook, OrderEntry, has_bid, has_ask, level, rest_order, raise_best, insert, add_to_level,
}
use event_driven_trading_sys.OrderBook.Levels.{HasRoom}
use event_driven_trading_sys.OrderBook.Inv.{InRange}
use event_driven_trading_sys.OrderBook.Ops.{
  IsBook, insert-IsBook, out_of_range, refused, rested, insert-Insertion,
}
use event_driven_trading_sys.OrderBook.Reads.{best_bid-set_level}
use event_driven_trading_sys.OrderBook.Shrink.{HasRoom-IsWithin}
use event_driven_trading_sys.Matching.{
  start, MatchOutput, Progress, crosses, rest_remainder, remainder, process_new_order, finish,
}
use event_driven_trading_sys.Matching.Loop.{Kept}
use event_driven_trading_sys.Matching.Rounds.{IsDone, match_loop-IsDone}

-- The best bid is below the best ask.
abbrev pub IsUncrossed : OrderBook → Type 0
IsUncrossed b = b.best_bid < b.best_ask

-- An order in range that does not cross rests without crossing the book.
rest_order-IsUncrossed :
    (b : OrderBook) (u : OrderMap.OrderMap OrderEntry) (o : OrderEntry)
    → IsUncrossed b
    → InRange o.price
    → crosses b o.side o.price ≡ false
    → IsUncrossed (rest_order (record b { orders = u }) o)
unfolding rest_order raise_best crosses has_bid has_ask
rest_order-IsUncrossed b u o h r free = ground (
  arith,
  best_bid-set_level (record b { orders = u }) o.price o.side
      (add_to_level (level (record b { orders = u }) o.price o.side) o),
)

insert-IsUncrossed :
    (b : OrderBook) (o : OrderEntry)
    → IsBook b
    → IsUncrossed b
    → crosses b o.side o.price ≡ false
    → IsUncrossed (insert b o).0
insert-IsUncrossed b o v h free = elim (insert-Insertion b o v.consistent.map) [
  | out_of_range _ e ↦ rw e h
  | refused _ _ e ↦ rw e h
  | rested u range _ _ _ e ↦ rw e (rest_order-IsUncrossed b u o h range free)
]

-- What follows the loop keeps the book in order, if the loop did.
pub rest_remainder-IsBook :
    (b : OrderBook) (e : Event) (t : Progress)
    → Kept (start b e) t
    → e.quantity < u64_mod
    → (InRange e.price → HasRoom (level b e.price (event_side e)) e.quantity)
    → IsBook (rest_remainder e t).1
unfolding rest_remainder
rest_remainder-IsBook b e t k small room =
    ground (arith, k.book, insert-IsBook t.book (remainder e t.remaining) k.book, k.left, left_room)
  where
    left_room : InRange e.price → HasRoom (level t.book e.price (event_side e)) t.remaining
    left_room r =
        HasRoom-IsWithin _ _ e.quantity t.remaining (k.levels (event_side e) e.price r) k.left
          (room r)

rest_remainder-IsUncrossed :
    (e : Event) (t : Progress)
    → IsBook t.book
    → IsUncrossed t.book
    → IsDone e t
    → IsUncrossed (rest_remainder e t).1
unfolding rest_remainder
rest_remainder-IsUncrossed e t v h done =
    ground (arith, insert-IsUncrossed t.book (remainder e t.remaining) v h)

-- On a book in order, for an aggressor of a 64-bit quantity with room on its own level if its
-- price is in range, and fuel for one round per resting order and two more, `process_new_order`
-- returns and leaves the book in order.
pub process_new_order-IsBook :
    (fuel : ℕ) (b : OrderBook) (e : Event)
    → IsBook b
    → e.quantity < u64_mod
    → (InRange e.price → HasRoom (level b e.price (event_side e)) e.quantity)
    → b.orders.count + 2 ≤ fuel
    → (out : MatchOutput) × (b' : OrderBook) × (process_new_order fuel b e ≡ some (out, b'))
      × IsBook b'
unfolding process_new_order
process_new_order-IsBook fuel b e v small room enough =
    let (t, run, k, done) = match_loop-IsDone fuel e (start b e) small v enough in
    (
      (rest_remainder e t).0,
      (rest_remainder e t).1,
      ap (finish e) run,
      rest_remainder-IsBook b e t k small room,
    )

-- On a book in order whose best bid is below its best ask, for an aggressor of a 64-bit quantity
-- and fuel for one round per resting order and two more, `process_new_order` returns, and the best
-- bid of the new book is below its best ask again.
pub process_new_order-IsUncrossed :
    (fuel : ℕ) (b : OrderBook) (e : Event)
    → IsBook b
    → b.best_bid < b.best_ask
    → e.quantity < u64_mod
    → b.orders.count + 2 ≤ fuel
    → (out : MatchOutput) × (b' : OrderBook) × (process_new_order fuel b e ≡ some (out, b'))
      × (b'.best_bid < b'.best_ask)
unfolding process_new_order
process_new_order-IsUncrossed fuel b e v h small enough =
    let (t, run, k, done) = match_loop-IsDone fuel e (start b e) small v enough in
    (
      (rest_remainder e t).0,
      (rest_remainder e t).1,
      ap (finish e) run,
      rest_remainder-IsUncrossed e t k.book (omega (arith, h, k.quotes.bids, k.quotes.asks)) done,
    )
