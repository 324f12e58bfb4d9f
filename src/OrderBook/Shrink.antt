-- ===== src/OrderBook/Shrink.antt =====
-- Taking quantity out of a book of engine/orderbook/OrderBook.cpp leaves room: no level gains an
-- order or quantity.
use event_driven_trading_sys.Base.{
  ℕ, ◌≤◌, ◌<◌, ◌≡◌, subst, inl, inr, ◌&&◌, ◌==◌, leb, some, arith, u64_mod, sub64, Bool-cases,
  Option-cases,
}
use event_driven_trading_sys.Events.{Side}
use event_driven_trading_sys.OrderMap
use event_driven_trading_sys.PriceLevel.{PriceLevel}
use event_driven_trading_sys.PriceLevel.Laws.{total_quantity-remove, count-remove}
use event_driven_trading_sys.OrderBook.Levels.{same_side, HasRoom}
use event_driven_trading_sys.OrderBook.Inv.{
  InRange, IsConsistent, level-set_level, level-orders, same_level,
}
use event_driven_trading_sys.OrderBook.Ops.{quantity-le-level}
use event_driven_trading_sys.OrderBook.{
  OrderBook, OrderEntry, set_level, lower_best, unlink, shrink, reduce, cancel,
  update_best_bid_from, update_best_ask_from, take_from_level, level, price_index,
}

-- One level holds at most what another holds.
pub record IsWithin (l k : PriceLevel) : Type 0 where
  pub orders : l.count ≤ k.count
  pub quantity : l.total_quantity ≤ k.total_quantity

-- No level of `c` holds more than the same level of `b`.
abbrev pub Shrinks : OrderBook → OrderBook → Type 0
Shrinks b c = (s : Side) (p : ℕ) → InRange p → IsWithin (level c p s) (level b p s)

pub IsWithin-refl : (l : PriceLevel) → IsWithin l l
IsWithin-refl l = record { orders = omega arith; quantity = omega arith }

pub IsWithin-trans : (l k j : PriceLevel) → IsWithin l k → IsWithin k j → IsWithin l j
IsWithin-trans l k j v w = record {
  orders = omega (arith, v.orders, w.orders);
  quantity = omega (arith, v.quantity, w.quantity);
}

pub level-lower_best :
    (b : OrderBook) (p : ℕ) (s : Side) (q : ℕ) (t : Side)
    → level (lower_best b p s) q t ≡ level b q t
unfolding lower_best update_best_bid_from update_best_ask_from level price_index
level-lower_best b p s q t = ground arith

-- A level replaced by a smaller one.
set_level-Shrinks :
    (b : OrderBook) (u : OrderMap.OrderMap OrderEntry) (p : ℕ) (s : Side) (l : PriceLevel)
    → b.tick_shift ≡ 0
    → InRange p
    → IsWithin l (level b p s)
    → Shrinks b (set_level (record b { orders = u }) p s l)
set_level-Shrinks b u p s l e r within t q k =
    rw (level-set_level (record b { orders = u }) p s l q t e r k)
      (elim (Bool-cases (same_side s t && p == q)) [
        | inl h ↦
            let (st, pq) = same_level s t p q h in
            rw h (
              subst (λ w. IsWithin l (level b q w)) st
                (subst (λ w. IsWithin l (level b w s)) pq within))
        | inr h ↦ rw (h, level-orders b u q t) (IsWithin-refl _)
      ])

take_from_level-IsWithin :
    (l : PriceLevel) (id q : ℕ)
    → q ≤ l.total_quantity
    → l.total_quantity < u64_mod
    → IsWithin (take_from_level l id q) l
unfolding take_from_level
take_from_level-IsWithin l id q h k = record {
  orders = count-remove _ id;
  quantity =
      omega
        (arith, total_quantity-remove (record l { total_quantity = sub64 l.total_quantity q }) id);
}

pub unlink-Shrinks :
    (b : OrderBook) (id : ℕ) (o : OrderEntry)
    → IsConsistent b
    → OrderMap.find b.orders id ≡ some o
    → Shrinks b (unlink b id o)
unfolding unlink
unlink-Shrinks b id o c found t q k = rw level-lower_best (
    set_level-Shrinks b _ o.price o.side _ c.ticks r
      (take_from_level-IsWithin _ id o.quantity (quantity-le-level b id o c found)
        (c.agrees o.side o.price r).bounded)
      t q k)
  where
    r : InRange o.price
    r = (c.entries id o found).in_range

shrink-Shrinks :
    (b : OrderBook) (id : ℕ) (o : OrderEntry) (n : ℕ)
    → IsConsistent b
    → OrderMap.find b.orders id ≡ some o
    → n ≤ o.quantity
    → Shrinks b (shrink b id o n)
unfolding shrink
shrink-Shrinks b id o n c found le = set_level-Shrinks b _ o.price o.side _ c.ticks r (record {
  orders = omega arith;
  quantity = omega (arith, quantity-le-level b id o c found, (c.agrees o.side o.price r).bounded);
})
  where
    r : InRange o.price
    r = (c.entries id o found).in_range

-- `reduce` takes nothing from any level but quantity and orders.
pub reduce-Shrinks : (b : OrderBook) (id q : ℕ) → IsConsistent b → Shrinks b (reduce b id q).0
unfolding reduce cancel
reduce-Shrinks b id q c = elim (Option-cases (OrderMap.find b.orders id)) [
  | inl e ↦ rw e (λ s p r. IsWithin-refl _)
  | inr (o, e) ↦ rw e (elim (Bool-cases (leb o.quantity q)) [
    | inl h ↦ rw (h, e) (unlink-Shrinks b id o c e)
    | inr h ↦ rw h (shrink-Shrinks b id o q c e (ground (arith, h)))
  ])
]

-- Room for an order stays.
pub HasRoom-IsWithin :
    (l k : PriceLevel) (q r : ℕ) → IsWithin l k → r ≤ q → HasRoom k q → HasRoom l r
HasRoom-IsWithin l k q r w le room = record {
  slot = omega (arith, w.orders, room.slot);
  no_wrap = omega (arith, w.quantity, room.no_wrap);
}
