-- ===== src/Matching/Ghost.antt =====
-- The limit of 16 orders per level (engine/orderbook/OrderBook.hpp) seen from the loop of
-- engine/matching/MatchingEngine.cpp: what `OrderBook::insert` does to a full level, and what
-- the loop does on a level with quantity and no order.
use event_driven_trading_sys.Base.{
  ℕ, zero, suc, ◌≤◌, ◌<◌, ◌≡◌, refl, true, false, none, arith, add64, [],
}
use event_driven_trading_sys.Events.{Event, event_side}
use event_driven_trading_sys.PriceLevel.{PriceLevel, ids, push, max_orders}
use event_driven_trading_sys.OrderBook.{OrderEntry, add_to_level, order_ids_at}
use event_driven_trading_sys.Matching.{
  Progress, fill_level, match_round, match_loop, crosses, best_opposite, opposite,
}

-- A further order on a level whose array is full adds its quantity to the level and leaves the
-- level's ids as they were.
pub add_to_level-full :
    (l : PriceLevel) (o : OrderEntry)
    → max_orders ≤ l.count
    → ((add_to_level l o).total_quantity ≡ add64 l.total_quantity o.quantity)
      × (ids (add_to_level l o) ≡ ids l)
unfolding add_to_level push ids
add_to_level-full l o full = ground arith

idle_round :
    (e : Event) (s : Progress)
    → order_ids_at s.book (best_opposite s.book (event_side e)) (opposite (event_side e)) ≡ []
    → match_round e s ≡ s
unfolding match_round fill_level
idle_round e s h = rw h refl

-- For a crossing aggressor with quantity left, on a book whose best opposite level lists no order,
-- the matching loop runs out of any fuel: it never ends.
pub match_loop-Ghost :
    (fuel : ℕ) (e : Event) (s : Progress)
    → 0 < s.remaining
    → s.stp_hit ≡ false
    → crosses s.book (event_side e) e.price ≡ true
    → order_ids_at s.book (best_opposite s.book (event_side e)) (opposite (event_side e)) ≡ []
    → match_loop fuel e s ≡ none
unfolding match_loop
match_loop-Ghost zero e s pos on cross ghost = refl
match_loop-Ghost (suc fuel) e s pos on cross ghost =
    ground (arith, idle_round e s ghost, match_loop-Ghost fuel e s)
