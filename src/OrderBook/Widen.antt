-- ===== src/OrderBook/Widen.antt =====
-- Taking quantity out of a book of engine/orderbook/OrderBook.cpp: the best prices move apart only,
-- and the map loses at most the one order.
use event_driven_trading_sys.Base.{
  ℕ, suc, ◌+◌, ◌-◌, ◌≤◌, ◌≡◌, ◌∙◌, ap, inl, inr, some, arith, sub64, Option-cases,
}
use event_driven_trading_sys.Events.{Side}
use event_driven_trading_sys.OrderMap.{OrderMap}
use event_driven_trading_sys.OrderMap
use event_driven_trading_sys.OrderMap.Laws.{erase-Erased, store-Stored}
use event_driven_trading_sys.OrderMap.Write.{Erased, Stored}
use event_driven_trading_sys.PriceLevel.{PriceLevel}
use event_driven_trading_sys.OrderBook.Inv.{IsConsistent, orders-set_level}
use event_driven_trading_sys.OrderBook.Best.{scan_bid_lem, scan_ask_lem}
use event_driven_trading_sys.OrderBook.Reads.{best_bid-set_level, best_bid-lower_best}
use event_driven_trading_sys.OrderBook.{
  OrderBook, OrderEntry, set_level, lower_best, unlink, shrink, max_price, reduce, cancel,
  update_best_bid_from, update_best_ask_from, take_from_level, level,
}

-- The best bid of `c` is not above that of `b`, and its best ask not below.
pub record Widens (b c : OrderBook) : Type 0 where
  pub bids : c.best_bid ≤ b.best_bid
  pub asks : b.best_ask ≤ c.best_ask

pub orders-lower_best : (b : OrderBook) (p : ℕ) (s : Side) → (lower_best b p s).orders ≡ b.orders
unfolding lower_best update_best_bid_from update_best_ask_from
orders-lower_best b p s = ground arith

lower_best-Widens : (b : OrderBook) (p : ℕ) (s : Side) → p ≤ max_price → Widens b (lower_best b p s)
lower_best-Widens b p s h = record {
  bids = ground (arith, best_bid-lower_best b p s, (scan_bid_lem b p).0);
  asks =
      ground (
        arith,
        best_bid-lower_best b p s,
        (scan_ask_lem b (max_price - p) (suc p) (omega arith)).0,
      );
}

-- `unlink` removes its order from the map, and widens the spread.
pub unlink-Widens :
    (b : OrderBook) (id : ℕ) (o : OrderEntry)
    → IsConsistent b
    → OrderMap.find b.orders id ≡ some o
    → Widens b (unlink b id o) × ((unlink b id o).orders.count + 1 ≡ b.orders.count)
unfolding unlink
unlink-Widens b id o c found = (
  record { bids = omega (arith, kept, w.bids); asks = omega (arith, kept, w.asks) },
  ground (arith, count, er.count_down),
)
  where
    x : OrderBook
    x =
        set_level (record b { orders = (OrderMap.erase b.orders id).0 }) o.price o.side
          (take_from_level (level b o.price o.side) id o.quantity)

    w : Widens x (lower_best x o.price o.side)
    w = lower_best-Widens x o.price o.side (c.entries id o found).in_range.1

    kept : (x.best_bid ≡ b.best_bid) × (x.best_ask ≡ b.best_ask)
    kept =
        best_bid-set_level (record b { orders = (OrderMap.erase b.orders id).0 }) o.price o.side _

    er : Erased b.orders id o (OrderMap.erase b.orders id).0
    er = (erase-Erased c.map id o found).1

    count : (lower_best x o.price o.side).orders.count ≡ (OrderMap.erase b.orders id).0.count
    count =
        ap (λ m. m.count) (orders-lower_best x o.price o.side ∙ orders-set_level _ o.price o.side _)

shrink-Widens :
    (b : OrderBook) (id : ℕ) (o : OrderEntry) (q : ℕ)
    → IsConsistent b
    → OrderMap.find b.orders id ≡ some o
    → Widens b (shrink b id o q) × ((shrink b id o q).orders.count ≡ b.orders.count)
unfolding shrink
shrink-Widens b id o q c found = (
  record { bids = omega (arith, kept); asks = omega (arith, kept) },
  ap (λ m. m.count) (orders-set_level _ o.price o.side _) ∙ st.count_same,
)
  where
    smaller : OrderEntry
    smaller = record o { quantity = sub64 o.quantity q }

    l : PriceLevel
    l = level b o.price o.side

    kept :
        ((set_level
            (record b { orders = OrderMap.store b.orders id smaller })
            o.price
            o.side
            (record l { total_quantity = sub64 l.total_quantity q })).best_bid
          ≡ b.best_bid)
        × ((set_level
              (record b { orders = OrderMap.store b.orders id smaller })
              o.price
              o.side
              (record l { total_quantity = sub64 l.total_quantity q })).best_ask
            ≡ b.best_ask)
    kept =
        best_bid-set_level (record b { orders = OrderMap.store b.orders id smaller }) o.price o.side
          _

    st : Stored b.orders id o smaller (OrderMap.store b.orders id smaller)
    st = store-Stored c.map id o smaller found

-- On a consistent book, `reduce` raises no best bid, lowers no best ask and adds no order.
pub reduce-Widens :
    (b : OrderBook) (id q : ℕ)
    → IsConsistent b
    → Widens b (reduce b id q).0 × ((reduce b id q).0.orders.count ≤ b.orders.count)
unfolding reduce cancel
reduce-Widens b id q c = elim (Option-cases (OrderMap.find b.orders id)) [
  | inl e ↦ rw e (record { bids = omega arith; asks = omega arith }, omega arith)
  | inr (o, e) ↦ rw e (ground (arith, e, unlink-Widens b id o c e, shrink-Widens b id o q c e))
]

pub reduce_all :
    (b : OrderBook) (id q : ℕ) (o : OrderEntry)
    → IsConsistent b
    → OrderMap.find b.orders id ≡ some o
    → o.quantity ≤ q
    → (reduce b id q).0.orders.count + 1 ≡ b.orders.count
unfolding reduce cancel
reduce_all b id q o c found le = ground (arith, unlink-Widens b id o c found)
