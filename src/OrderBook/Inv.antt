-- ===== src/OrderBook/Inv.antt =====
-- The consistency of a book of engine/orderbook/OrderBook.cpp with a tick shift of 0: every level
-- agrees with the map of orders.
use event_driven_trading_sys.Base.{
  ℕ, ◌-◌, ◌≤◌, ◌<◌, ◌≡◌, refl, ◌∙◌, subst, inl, inr, true, false, ◌&&◌, ◌==◌, if◌then◌else◌, some,
  arith, u64_mod, Bool-cases,
}
use event_driven_trading_sys.Events.{Side, bid, ask}
use event_driven_trading_sys.OrderMap.{OrderMap}
use event_driven_trading_sys.OrderMap
use event_driven_trading_sys.OrderMap.Inv.{IsValid}
use event_driven_trading_sys.PriceLevel.{PriceLevel}
use event_driven_trading_sys.OrderBook.Levels.{same_side, Agrees}
use event_driven_trading_sys.OrderBook.{
  OrderBook, OrderEntry, max_price, min_price, price_index, level, set_level,
}

abbrev pub InRange : ℕ → Type 0
InRange p = (min_price ≤ p) × (p ≤ max_price)

-- What the book knows of an order that it holds under an id.
pub record IsEntry (id : ℕ) (o : OrderEntry) : Type 0 where
  pub own : o.order_id ≡ id
  pub in_range : InRange o.price
  pub positive : 0 < o.quantity
  pub small : o.quantity < u64_mod

pub record IsConsistent (b : OrderBook) : Type 0 where
  pub ticks : b.tick_shift ≡ 0
  pub map : IsValid b.orders
  pub entries : (id : ℕ) (o : OrderEntry) → OrderMap.find b.orders id ≡ some o → IsEntry id o
  pub agrees : (s : Side) (p : ℕ) → InRange p → Agrees b.orders s p (level b p s)

pub price_index-zero :
    (b : OrderBook) (p : ℕ) → b.tick_shift ≡ 0 → InRange p → price_index b p ≡ p - 1
unfolding price_index
price_index-zero b p e h = rw e (omega arith)

-- A write to one level is read back there and nowhere else.
pub level-set_level :
    (b : OrderBook) (p : ℕ) (s : Side) (l : PriceLevel) (q : ℕ) (t : Side)
    → b.tick_shift ≡ 0
    → InRange p
    → InRange q
    → level (set_level b p s l) q t ≡ (if same_side s t && p == q then l else level b q t)
unfolding level set_level price_index
level-set_level b p bid l q bid e h k =
    ground (arith, price_index-zero b p e h, price_index-zero b q e k)
level-set_level b p bid l q ask e h k = refl
level-set_level b p ask l q bid e h k = refl
level-set_level b p ask l q ask e h k =
    ground (arith, price_index-zero b p e h, price_index-zero b q e k)

pub same_level : (s t : Side) (p q : ℕ) → (same_side s t && p == q) ≡ true → (s ≡ t) × (p ≡ q)
same_level bid bid p q e = ground arith
same_level bid ask p q e = ground arith
same_level ask bid p q e = ground arith
same_level ask ask p q e = ground arith

pub tick_shift-set_level :
    (b : OrderBook) (p : ℕ) (s : Side) (l : PriceLevel)
    → (set_level b p s l).tick_shift ≡ b.tick_shift
unfolding set_level
tick_shift-set_level b p bid l = refl
tick_shift-set_level b p ask l = refl

pub orders-set_level :
    (b : OrderBook) (p : ℕ) (s : Side) (l : PriceLevel) → (set_level b p s l).orders ≡ b.orders
unfolding set_level
orders-set_level b p bid l = refl
orders-set_level b p ask l = refl

pub level-orders :
    (b : OrderBook) (u : OrderMap OrderEntry) (p : ℕ) (s : Side)
    → level (record b { orders = u }) p s ≡ level b p s
unfolding level price_index
level-orders b u p s = refl

-- New orders and one new level, which agree.
pub set_level-IsConsistent :
    (b : OrderBook) (u : OrderMap OrderEntry) (p : ℕ) (s : Side) (l : PriceLevel)
    → IsConsistent b
    → InRange p
    → IsValid u
    → ((id : ℕ) (o : OrderEntry) → OrderMap.find u id ≡ some o → IsEntry id o)
    → Agrees u s p l
    → ((t : Side) (q : ℕ)
        → (same_side s t && p == q) ≡ false
        → Agrees b.orders t q (level b q t)
        → Agrees u t q (level b q t))
    → IsConsistent (set_level (record b { orders = u }) p s l)
set_level-IsConsistent b u p s l c r valid entries here elsewhere = record {
  ticks = tick_shift-set_level (record b { orders = u }) p s l ∙ c.ticks;
  map = rw orders-set_level valid;
  entries = rw orders-set_level entries;
  agrees = λ t q k.
      rw (level-set_level (record b { orders = u }) p s l q t c.ticks r k)
        (rw orders-set_level (at t q k));
}
  where
    at :
        (t : Side) (q : ℕ)
        → InRange q
        → Agrees u t q (if same_side s t && p == q then l else level (record b { orders = u }) q t)
    at t q k = elim (Bool-cases (same_side s t && p == q)) [
      | inl e ↦
          let (st, pq) = same_level s t p q e in
          rw e (subst (λ w. Agrees u w q l) st (subst (λ w. Agrees u s w l) pq here))
      | inr e ↦ rw (e, level-orders b u q t) (elsewhere t q e (c.agrees t q k))
    ]

-- The best prices play no part.
pub best-IsConsistent :
    (b : OrderBook) (x y : ℕ)
    → IsConsistent b
    → IsConsistent (record b { best_bid = x; best_ask = y })
unfolding level price_index
best-IsConsistent b x y c = record {
  ticks = c.ticks;
  map = c.map;
  entries = c.entries;
  agrees = λ s p r. c.agrees s p r;
}
