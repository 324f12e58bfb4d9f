-- ===== src/OrderBook/Supply.antt =====
-- The resting quantity of a whole book of engine/orderbook/OrderBook.cpp, and what the operations
-- make of it.
use event_driven_trading_sys.Base.{ℕ, ◌+◌, ◌≤◌, ◌≡◌, ◌∙◌, ap, some, arith, sub64}
use event_driven_trading_sys.OrderMap
use event_driven_trading_sys.OrderMap.Inv.{total}
use event_driven_trading_sys.OrderMap.Laws.{erase-Erased, store-Stored}
use event_driven_trading_sys.OrderMap.Write.{Inserted, Stored}
use event_driven_trading_sys.OrderBook.Inv.{IsConsistent, orders-set_level}
use event_driven_trading_sys.OrderBook.Widen.{orders-lower_best}
use event_driven_trading_sys.OrderBook.{
  OrderBook, OrderEntry, raise_best, rest_order, unlink, shrink, reduce, cancel,
}

abbrev pub quantity_of_order : OrderEntry → ℕ
quantity_of_order o = o.quantity

-- The quantity that rests in the book.
abbrev pub supply : OrderBook → ℕ
supply b = total quantity_of_order b.orders

supply-unlink :
    (b : OrderBook) (id : ℕ) (o : OrderEntry)
    → IsConsistent b
    → OrderMap.find b.orders id ≡ some o
    → supply (unlink b id o) + o.quantity ≡ supply b
unfolding unlink
supply-unlink b id o c found =
    ap (λ m. total quantity_of_order m + o.quantity)
      (orders-lower_best _ o.price o.side ∙ orders-set_level _ o.price o.side _)
    ∙ (erase-Erased c.map id o found).1.totals quantity_of_order

supply-shrink :
    (b : OrderBook) (id : ℕ) (o : OrderEntry) (q : ℕ)
    → IsConsistent b
    → OrderMap.find b.orders id ≡ some o
    → q ≤ o.quantity
    → supply (shrink b id o q) + q ≡ supply b
unfolding shrink
supply-shrink b id o q c found le =
    ap (λ m. total quantity_of_order m + q) (orders-set_level _ o.price o.side _)
    ∙ ground (arith, (c.entries id o found).small, st.totals quantity_of_order)
  where
    st :
        Stored b.orders id o
          (record o { quantity = sub64 o.quantity q })
          (OrderMap.store b.orders id (record o { quantity = sub64 o.quantity q }))
    st = store-Stored c.map id o (record o { quantity = sub64 o.quantity q }) found

-- On a consistent book, `reduce` of a resting order by at most its quantity takes exactly that
-- quantity out of the book.
pub supply-reduce :
    (b : OrderBook) (id q : ℕ) (o : OrderEntry)
    → IsConsistent b
    → OrderMap.find b.orders id ≡ some o
    → q ≤ o.quantity
    → supply (reduce b id q).0 + q ≡ supply b
unfolding reduce cancel
supply-reduce b id q o c found le =
    ground (arith, found, supply-unlink b id o c found, supply-shrink b id o q c found le)

pub orders-raise_best : (b : OrderBook) (o : OrderEntry) → (raise_best b o).orders ≡ b.orders
unfolding raise_best
orders-raise_best b o = ground arith

-- An order that rests adds its quantity.
pub supply-rest_order :
    (b : OrderBook) (u : OrderMap.OrderMap OrderEntry) (o : OrderEntry)
    → Inserted b.orders o.order_id o u
    → supply (rest_order (record b { orders = u }) o) ≡ supply b + o.quantity
unfolding rest_order
supply-rest_order b u o ins =
    ap (total quantity_of_order) (orders-raise_best _ o ∙ orders-set_level _ o.price o.side _)
    ∙ ins.totals quantity_of_order
