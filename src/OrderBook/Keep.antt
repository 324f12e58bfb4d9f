-- ===== src/OrderBook/Keep.antt =====
-- The steps of `insert`, `cancel`, `modify` and `reduce` (engine/orderbook/OrderBook.cpp) keep a
-- book consistent.
use event_driven_trading_sys.Base.{
  ℕ, suc, ◌-◌, ◌<◌, ◌≡◌, refl, sym, ◌∙◌, true, ◌==◌, if◌then◌else◌, Option, none, some, arith,
  sub64,
}
use event_driven_trading_sys.Events.{Side, bid, ask}
use event_driven_trading_sys.OrderMap.{OrderMap}
use event_driven_trading_sys.OrderMap
use event_driven_trading_sys.OrderMap.Write.{Inserted, Erased, Stored}
use event_driven_trading_sys.OrderMap.Laws.{erase-Erased, store-Stored}
use event_driven_trading_sys.OrderBook.Levels.{
  same_side, rests_at, HasRoom, insert_here, insert_elsewhere, erase_here, erase_elsewhere,
  store_here, store_elsewhere,
}
use event_driven_trading_sys.OrderBook.Inv.{
  IsEntry, IsConsistent, set_level-IsConsistent, best-IsConsistent,
}
use event_driven_trading_sys.OrderBook.{
  OrderBook, OrderEntry, level, raise_best, rest_order, price_index, scan_bid, scan_ask, max_price,
  lower_best, unlink, shrink, update_best_bid_from, update_best_ask_from,
}

same_side_self : (s : Side) → same_side s s ≡ true
same_side_self bid = refl
same_side_self ask = refl

pub rests_at_self : (o : OrderEntry) → rests_at o.side o.price o ≡ true
rests_at_self o = ground (arith, same_side_self o.side)

raise_best-IsConsistent :
    (b : OrderBook) (o : OrderEntry) → IsConsistent b → IsConsistent (raise_best b o)
unfolding raise_best
raise_best-IsConsistent b o c =
    ground
      (arith, best-IsConsistent b o.price b.best_ask c, best-IsConsistent b b.best_bid o.price c)

lower_best-IsConsistent :
    (b : OrderBook) (p : ℕ) (s : Side) → IsConsistent b → IsConsistent (lower_best b p s)
unfolding lower_best update_best_bid_from update_best_ask_from
lower_best-IsConsistent b p s c = ground (
  arith,
  best-IsConsistent b (scan_bid b p) b.best_ask c,
  best-IsConsistent b b.best_bid (scan_ask b (max_price - p) (suc p)) c,
)

IsEntry-if :
    (k id : ℕ) (o x : OrderEntry) {rest : Option OrderEntry}
    → (if k == id then some o else rest) ≡ some x
    → IsEntry k o
    → (rest ≡ some x → IsEntry id x)
    → IsEntry id x
IsEntry-if k id o x e en other = ground arith

-- The level and the orders after `insert` took an order.
pub rest_order-IsConsistent :
    (b : OrderBook) (u : OrderMap OrderEntry) (o : OrderEntry)
    → IsConsistent b
    → Inserted b.orders o.order_id o u
    → OrderMap.find b.orders o.order_id ≡ none
    → IsEntry o.order_id o
    → HasRoom (level b o.price o.side) o.quantity
    → IsConsistent (rest_order (record b { orders = u }) o)
unfolding rest_order level price_index
rest_order-IsConsistent b u o c ins absent en room = raise_best-IsConsistent _ o (
    set_level-IsConsistent b u o.price o.side _ c en.in_range ins.valid entries
      (insert_here o.side o.price o.order_id o _ ins absent refl (rests_at_self o) room
        (c.agrees o.side o.price en.in_range))
      (λ t q far a. insert_elsewhere t q o.order_id o _ ins absent far a))
  where
    entries : (id : ℕ) (x : OrderEntry) → OrderMap.find u id ≡ some x → IsEntry id x
    entries id x e = IsEntry-if o.order_id id o x (sym (ins.lookup id) ∙ e) en (c.entries id x)

-- The level and the orders after an order left the book.
pub unlink-IsConsistent :
    (b : OrderBook) (id : ℕ) (o : OrderEntry)
    → IsConsistent b
    → OrderMap.find b.orders id ≡ some o
    → IsConsistent (unlink b id o)
unfolding unlink level price_index
unlink-IsConsistent b id o c found = lower_best-IsConsistent _ o.price o.side (
    set_level-IsConsistent b _ o.price o.side _ c en.in_range er.valid
      (λ j x e. c.entries j x (ground (arith, er.lookup j)))
      (erase_here o.side o.price id o _ er found (rests_at_self o)
        (c.agrees o.side o.price en.in_range))
      (λ t q far a. erase_elsewhere t q id o _ er found far a))
  where
    en : IsEntry id o
    en = c.entries id o found

    er : Erased b.orders id o (OrderMap.erase b.orders id).0
    er = (erase-Erased c.map id o found).1

-- The level and the orders after a partial fill.
pub shrink-IsConsistent :
    (b : OrderBook) (id : ℕ) (o : OrderEntry) (q : ℕ)
    → IsConsistent b
    → OrderMap.find b.orders id ≡ some o
    → q < o.quantity
    → IsConsistent (shrink b id o q)
unfolding shrink level price_index
shrink-IsConsistent b id o q c found less =
    set_level-IsConsistent b _ o.price o.side _ c en.in_range st.valid
      (λ j x e.
        IsEntry-if id j (record o { quantity = sub64 o.quantity q }) x (sym (st.lookup j) ∙ e)
          (ground (arith, en)) (c.entries j x))
      (store_here o.side o.price id o _ q (omega arith) en.small st found (rests_at_self o)
        (c.agrees o.side o.price en.in_range))
      (λ t r far a. store_elsewhere t r id o _ (sub64 o.quantity q) st found far a)
  where
    en : IsEntry id o
    en = c.entries id o found

    st :
        Stored b.orders id o
          (record o { quantity = sub64 o.quantity q })
          (OrderMap.store b.orders id (record o { quantity = sub64 o.quantity q }))
    st = store-Stored c.map id o (record o { quantity = sub64 o.quantity q }) found
