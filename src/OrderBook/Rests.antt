-- ===== src/OrderBook/Rests.antt =====
-- What `insert` of engine/orderbook/OrderBook.cpp answers, and what an order that rests changes.
use event_driven_trading_sys.Base.{
  ℕ, ◌+◌, ◌≡◌, refl, ◌∙◌, ap, true, false, not, ◌&&◌, ◌==◌, ltb, if◌then◌else◌, [], ◌∷◌, ◌++◌,
  arith, add64,
}
use event_driven_trading_sys.Events.{Side, bid, ask, is_bid}
use event_driven_trading_sys.OrderMap
use event_driven_trading_sys.OrderMap.Write.{Inserted}
use event_driven_trading_sys.PriceLevel.{PriceLevel, ids}
use event_driven_trading_sys.PriceLevel.Laws.{
  IsLevel, ids-push, total_quantity-push, ids-total_quantity, IsLevel-total_quantity,
}
use event_driven_trading_sys.OrderBook.Levels.{same_side, HasRoom}
use event_driven_trading_sys.OrderBook.Inv.{InRange, IsConsistent, level-set_level, level-orders}
use event_driven_trading_sys.OrderBook.Reads.{
  same_side_self, best_bid-set_level, best_bid-raise_best,
}
use event_driven_trading_sys.OrderBook.Modify.{orders-rest_order}
use event_driven_trading_sys.OrderBook.Ops.{
  IsBook, out_of_range, refused, rested, insert-Insertion, is_refused,
}
use event_driven_trading_sys.OrderBook.{
  OrderBook, OrderEntry, ok, price_out_of_range, order_already_exists, insert, rest_order,
  raise_best, set_level, add_to_level, level, price_index, price_in_range,
}

-- From `b` to `c` the order `o` came to rest: it is in the map and last in the queue of its level,
-- whose quantity it adds to; it is the best price of its side if it is better than the one before;
-- and nothing else changed.
pub record IsRested (b : OrderBook) (o : OrderEntry) (c : OrderBook) : Type 0 where
  pub orders : Inserted b.orders o.order_id o c.orders
  pub queue : ids (level c o.price o.side) ≡ ids (level b o.price o.side) ++ (o.order_id ∷ [])
  pub quantity :
      (level c o.price o.side).total_quantity ≡ (level b o.price o.side).total_quantity + o.quantity
  pub others :
      (s : Side) (p : ℕ)
      → InRange p
      → (same_side o.side s && o.price == p) ≡ false
      → level c p s ≡ level b p s
  pub frame : (c.symbol_id ≡ b.symbol_id) × (c.tick_shift ≡ b.tick_shift)
  pub best_bid :
      c.best_bid ≡ (if is_bid o.side && ltb b.best_bid o.price then o.price else b.best_bid)
  pub best_ask :
      c.best_ask ≡ (if not (is_bid o.side) && ltb o.price b.best_ask then o.price else b.best_ask)

-- What `insert` did, by what it answered.
pub data Answer (b : OrderBook) (o : OrderEntry) : Type 0 where
  range_refused : price_in_range o.price ≡ false → insert b o ≡ (b, price_out_of_range) → Answer b o
  id_refused :
      price_in_range o.price ≡ true
      → is_refused b o ≡ true
      → insert b o ≡ (b, order_already_exists)
      → Answer b o
  rests :
      (c : OrderBook)
      → InRange o.price
      → is_refused b o ≡ false
      → insert b o ≡ (c, ok)
      → IsRested b o c
      → Answer b o

level-raise_best :
    (b : OrderBook) (o : OrderEntry) (p : ℕ) (s : Side) → level (raise_best b o) p s ≡ level b p s
unfolding raise_best level price_index
level-raise_best b o p s = ground arith

-- The levels of a book in which an order came to rest.
pub level-rest_order :
    (b : OrderBook) (u : OrderMap.OrderMap OrderEntry) (o : OrderEntry) (p : ℕ) (s : Side)
    → b.tick_shift ≡ 0
    → InRange o.price
    → InRange p
    → level (rest_order (record b { orders = u }) o) p s ≡ (
        if same_side o.side s && o.price == p
        then add_to_level (level b o.price o.side) o
        else level b p s)
unfolding rest_order
level-rest_order b u o p s ticks range k =
    let b' : OrderBook = record b { orders = u } in
    let l = add_to_level (level b' o.price o.side) o in
    level-raise_best (set_level b' o.price o.side l) o p s
    ∙ level-set_level b' o.price o.side l p s ticks range k
    ∙ rw (level-orders b u o.price o.side, level-orders b u p s) refl

frame-set_level :
    (b : OrderBook) (p : ℕ) (s : Side) (l : PriceLevel)
    → ((set_level b p s l).symbol_id ≡ b.symbol_id)
      × ((set_level b p s l).tick_shift ≡ b.tick_shift)
unfolding set_level
frame-set_level b p bid l = (refl, refl)
frame-set_level b p ask l = (refl, refl)

frame-raise_best :
    (b : OrderBook) (o : OrderEntry)
    → ((raise_best b o).symbol_id ≡ b.symbol_id) × ((raise_best b o).tick_shift ≡ b.tick_shift)
unfolding raise_best
frame-raise_best b o = ground arith

frame-rest_order :
    (b : OrderBook) (u : OrderMap.OrderMap OrderEntry) (o : OrderEntry)
    → let c = rest_order (record b { orders = u }) o in
      (c.symbol_id ≡ b.symbol_id) × (c.tick_shift ≡ b.tick_shift)
unfolding rest_order
frame-rest_order b u o =
    let b' : OrderBook = record b { orders = u } in
    let l = add_to_level (level b' o.price o.side) o in
    let raised = frame-raise_best (set_level b' o.price o.side l) o in
    let kept = frame-set_level b' o.price o.side l in (raised.0 ∙ kept.0, raised.1 ∙ kept.1)

best-rest_order :
    (b : OrderBook) (u : OrderMap.OrderMap OrderEntry) (o : OrderEntry)
    → let c = rest_order (record b { orders = u }) o in
      (c.best_bid ≡ (if is_bid o.side && ltb b.best_bid o.price then o.price else b.best_bid))
      × (c.best_ask
          ≡ (if not (is_bid o.side) && ltb o.price b.best_ask then o.price else b.best_ask))
unfolding rest_order
best-rest_order b u o =
    let b' : OrderBook = record b { orders = u } in
    let l = add_to_level (level b' o.price o.side) o in
    let raised = best_bid-raise_best (set_level b' o.price o.side l) o in
    let kept = best_bid-set_level b' o.price o.side l in
    (
      raised.0 ∙ ap (λ x. if is_bid o.side && ltb x o.price then o.price else x) kept.0,
      raised.1 ∙ ap (λ x. if not (is_bid o.side) && ltb o.price x then o.price else x) kept.1,
    )

add_to_level_lem :
    (l : PriceLevel) (o : OrderEntry)
    → IsLevel l
    → HasRoom l o.quantity
    → (ids (add_to_level l o) ≡ ids l ++ (o.order_id ∷ []))
      × ((add_to_level l o).total_quantity ≡ l.total_quantity + o.quantity)
unfolding add_to_level
add_to_level_lem l o v room =
    let q = add64 l.total_quantity o.quantity in
    (
      (ids-push (record l { total_quantity = q }) o.order_id (IsLevel-total_quantity l q v)
            room.slot).1
          ∙ ap (λ xs. xs ++ (o.order_id ∷ [])) (ids-total_quantity l q),
      total_quantity-push (record l { total_quantity = q }) o.order_id
          ∙ omega (arith, room.no_wrap),
    )

rest_order-IsRested :
    (b : OrderBook) (u : OrderMap.OrderMap OrderEntry) (o : OrderEntry)
    → IsConsistent b
    → InRange o.price
    → HasRoom (level b o.price o.side) o.quantity
    → Inserted b.orders o.order_id o u
    → IsRested b o (rest_order (record b { orders = u }) o)
rest_order-IsRested b u o v range room ins =
    let c = rest_order (record b { orders = u }) o in
    let own : level c o.price o.side ≡ add_to_level (level b o.price o.side) o =
      level-rest_order b u o o.price o.side v.ticks range range
      ∙ ground (arith, same_side_self o.side) in
    let added =
      add_to_level_lem (level b o.price o.side) o (v.agrees o.side o.price range).array room in
    record {
      orders = rw orders-rest_order ins;
      queue = ap ids own ∙ added.0;
      quantity = ap (λ l. l.total_quantity) own ∙ added.1;
      others = λ s p k far. level-rest_order b u o p s v.ticks range k ∙ rw far refl;
      frame = frame-rest_order b u o;
      best_bid = (best-rest_order b u o).0;
      best_ask = (best-rest_order b u o).1;
    }

-- On a book in order, with room on the order's level if its price is in range, `insert` answers in
-- one of three ways. For a price out of range, and for an id that is in the map or reserved or a
-- map at its load factor, it refuses the order and leaves the book as it was. Else it answers
-- `Ok`: the map gains the order and no other change; the id is last in the queue of its level,
-- whose quantity grows by the order's; every other level in range stays; the order's price is the
-- best of its side if it is better than the one before, and the best price of the other side
-- stays.
pub insert-Answer :
    (b : OrderBook) (o : OrderEntry)
    → IsBook b
    → (InRange o.price → HasRoom (level b o.price o.side) o.quantity)
    → Answer b o
insert-Answer b o v room = elim (insert-Insertion b o v.consistent.map) [
  | out_of_range r e ↦ range_refused r e
  | refused r h e ↦ id_refused r h e
  | rested u range free absent ins e ↦
      rests (rest_order (record b { orders = u }) o) range free e
        (rest_order-IsRested b u o v.consistent range (room range) ins)
]
