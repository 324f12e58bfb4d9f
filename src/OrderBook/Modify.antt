-- ===== src/OrderBook/Modify.antt =====
-- `OrderBook::modify` (engine/orderbook/OrderBook.cpp): a cancel and an insert under the same id.
use event_driven_trading_sys.Base.{
  ℕ, ◌+◌, ◌*◌, ◌≤◌, ◌<◌, ◌≡◌, refl, ◌∙◌, ap, inl, inr, true, false, ◌==◌, if◌then◌else◌, none, some,
  arith, u64_mod, Bool-cases, Option-cases,
}
use event_driven_trading_sys.OrderMap
use event_driven_trading_sys.OrderMap.Inv.{find-reserved}
use event_driven_trading_sys.OrderMap.Laws.{erase-Erased}
use event_driven_trading_sys.OrderMap.Write.{Erased}
use event_driven_trading_sys.OrderBook.{
  OrderBook, OrderEntry, ok, price_in_range, level, modify, insert, unlink, rest_order,
}
use event_driven_trading_sys.OrderBook.Levels.{HasRoom}
use event_driven_trading_sys.OrderBook.Inv.{InRange, orders-set_level}
use event_driven_trading_sys.OrderBook.Ops.{
  IsBook, insert-IsBook, unlink-IsBook, out_of_range, refused, rested, insert-Insertion, is_refused,
}
use event_driven_trading_sys.OrderBook.Shrink.{unlink-Shrinks, HasRoom-IsWithin}
use event_driven_trading_sys.OrderBook.Supply.{orders-raise_best}
use event_driven_trading_sys.OrderBook.Widen.{orders-lower_best}

-- On a book in order, `modify` to a positive 64-bit quantity, with room for it on the level of the
-- order's side if the new price is in range, leaves the book in order, whatever it answers.
pub modify-IsBook :
    (b : OrderBook) (id price quantity : ℕ)
    → IsBook b
    → 0 < quantity
    → quantity < u64_mod
    → ((o : OrderEntry)
        → OrderMap.find b.orders id ≡ some o
        → InRange price
        → HasRoom (level b price o.side) quantity)
    → IsBook (modify b id price quantity).0
unfolding modify
modify-IsBook b id price quantity v pos small room = elim (Bool-cases (price_in_range price)) [
  | inr e ↦ rw e v
  | inl e ↦ elim (Option-cases (OrderMap.find b.orders id)) [
    | inl f ↦ rw (e, f) v
    | inr (o, f) ↦
        rw (e, f)
          (insert-IsBook (unlink b id o) (record o { price = price; quantity = quantity })
            (unlink-IsBook b id o v f) pos small
            (λ r.
              HasRoom-IsWithin _ _ quantity quantity
                (unlink-Shrinks b id o v.consistent f o.side price r) (omega arith) (room o f r)))
  ]
]

pub orders-unlink :
    (b : OrderBook) (id : ℕ) (o : OrderEntry)
    → (unlink b id o).orders ≡ (OrderMap.erase b.orders id).0
unfolding unlink
orders-unlink b id o = orders-lower_best _ o.price o.side ∙ orders-set_level _ o.price o.side _

pub orders-rest_order :
    (b : OrderBook) (u : OrderMap.OrderMap OrderEntry) (o : OrderEntry)
    → (rest_order (record b { orders = u }) o).orders ≡ u
unfolding rest_order
orders-rest_order b u o = orders-raise_best _ o ∙ orders-set_level _ o.price o.side _

-- On a book in order, an order that is not refused, at a price in range, is answered `Ok` and
-- found under its id after `insert`, and every other order is as before.
pub insert-find :
    (b : OrderBook) (o : OrderEntry)
    → IsBook b
    → InRange o.price
    → is_refused b o ≡ false
    → let r = insert b o in
      (r.1 ≡ ok)
      × ((j : ℕ)
          → OrderMap.find r.0.orders j
            ≡ (if o.order_id == j then some o else OrderMap.find b.orders j))
unfolding price_in_range
insert-find b o v range free = elim (insert-Insertion b o v.consistent.map) [
  | out_of_range h _ ↦ absurd (ground (arith, h, range))
  | refused _ h _ ↦ absurd (ground (arith, h, free))
  | rested u _ _ _ ins e ↦ rw e (refl, λ j. rw orders-rest_order (ins.lookup j))
]

-- On a book in order whose map is filled at most as far as `insert` can fill it, `modify` of a
-- resting order to a price in range answers `Ok`: the order keeps its id, side and timestamp, has
-- the new price and quantity, and every other order is as before.
pub modify-find :
    (b : OrderBook) (id price quantity : ℕ) (o : OrderEntry)
    → IsBook b
    → InRange price
    → b.orders.count * 2 ≤ b.orders.cap + 1
    → OrderMap.find b.orders id ≡ some o
    → let r = modify b id price quantity in
      (r.1 ≡ ok)
      × ((j : ℕ)
          → OrderMap.find r.0.orders j ≡ (
              if id == j
              then some (record o { price = price; quantity = quantity })
              else OrderMap.find b.orders j))
unfolding modify price_in_range
modify-find b id price quantity o v range load found =
    let answer =
      insert-find (unlink b id o) (record o { price = price; quantity = quantity })
        (unlink-IsBook b id o v found) range accepted in
    rw (in_range, found) (answer.0, λ j. answer.1 j ∙ others j)
  where
    er : Erased b.orders id o (OrderMap.erase b.orders id).0
    er = (erase-Erased v.consistent.map id o found).1

    own : o.order_id ≡ id
    own = (v.consistent.entries id o found).own

    in_range : price_in_range price ≡ true
    in_range = ground arith

    live : OrderMap.is_reserved id ≡ false
    live = ground (arith, find-reserved b.orders id, found)

    gone :
        (j : ℕ)
        → OrderMap.find (unlink b id o).orders j
          ≡ (if id == j then none else OrderMap.find b.orders j)
    gone j = ap (λ m. OrderMap.find m j) (orders-unlink b id o) ∙ er.lookup j

    accepted : is_refused (unlink b id o) (record o { price = price; quantity = quantity }) ≡ false
    accepted = ground (
      arith,
      gone o.order_id,
      own,
      ap OrderMap.is_reserved own,
      live,
      er.count_down,
      er.cap_same,
      load,
      ap (λ m. m.count) (orders-unlink b id o),
      ap (λ m. m.cap) (orders-unlink b id o),
    )

    others :
        (j : ℕ)
        → (if o.order_id == j
            then some (record o { price = price; quantity = quantity })
            else OrderMap.find (unlink b id o).orders j)
          ≡ (if id == j
              then some (record o { price = price; quantity = quantity })
              else OrderMap.find b.orders j)
    others j = ground (arith, gone j, own)
