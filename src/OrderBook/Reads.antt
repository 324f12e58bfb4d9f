-- ===== src/OrderBook/Reads.antt =====
-- What the steps of engine/orderbook/OrderBook.cpp that write a level or a best price leave to read:
-- the quantity at every price, and the two best prices.
use event_driven_trading_sys.Base.{
  ℕ, suc, ◌-◌, ◌≤◌, ◌≡◌, refl, ◌⊎◌, inl, inr, true, not, ◌&&◌, ◌==◌, ltb, if◌then◌else◌, arith,
}
use event_driven_trading_sys.Events.{Side, bid, ask, is_bid}
use event_driven_trading_sys.OrderMap.{OrderMap}
use event_driven_trading_sys.PriceLevel.{PriceLevel}
use event_driven_trading_sys.OrderBook.Levels.{same_side}
use event_driven_trading_sys.OrderBook.Inv.{InRange, level-set_level}
use event_driven_trading_sys.OrderBook.Best.{IsTopBid, IsLowAsk, quantity_of}
use event_driven_trading_sys.OrderBook.{
  OrderBook, OrderEntry, level, price_index, set_level, raise_best, lower_best,
  update_best_bid_from, update_best_ask_from, scan_bid, scan_ask, max_price,
}

-- A quantity at every price, with another function for the same prices.
pub IsTopBid-same :
    (q r : ℕ → ℕ) (best : ℕ)
    → best ≤ max_price
    → ((i : ℕ) → InRange i → r i ≡ q i)
    → IsTopBid q best
    → IsTopBid r best
IsTopBid-same q r best le same t = record {
  bound = t.bound;
  live = λ k. ground (arith, same best, t.live);
  top = λ i k l. ground (arith, same i, t.top i);
}

pub IsLowAsk-same :
    (q r : ℕ → ℕ) (best : ℕ) → ((i : ℕ) → InRange i → r i ≡ q i) → IsLowAsk q best → IsLowAsk r best
IsLowAsk-same q r best same t = record {
  bound = t.bound;
  live = λ k. ground (arith, same best, t.live, t.bound);
  low = λ i k l. ground (arith, same i, t.low i);
}

-- A book whose orders and one level changed.
module _ (b : OrderBook) (u : OrderMap OrderEntry) (p : ℕ) (s : Side) (l : PriceLevel)
    (ticks : b.tick_shift ≡ 0) (range : InRange p) where
  abbrev pub changed : OrderBook
  changed = set_level (record b { orders = u }) p s l

  pub quantity_read :
      (t : Side) (i : ℕ)
      → InRange i
      → quantity_of changed t i
        ≡ (if same_side s t && p == i then l.total_quantity else quantity_of b t i)
  unfolding level price_index
  quantity_read t i k =
      ground (arith, level-set_level (record b { orders = u }) p s l i t ticks range k)

-- `raise_best` and `lower_best` change a best price only.
pub quantity-raise_best :
    (b : OrderBook) (o : OrderEntry) (t : Side) (i : ℕ)
    → quantity_of (raise_best b o) t i ≡ quantity_of b t i
unfolding raise_best level price_index
quantity-raise_best b o t i = ground arith

pub quantity-lower_best :
    (b : OrderBook) (p : ℕ) (s t : Side) (i : ℕ)
    → quantity_of (lower_best b p s) t i ≡ quantity_of b t i
unfolding lower_best update_best_bid_from update_best_ask_from level price_index
quantity-lower_best b p s t i = ground arith

pub same_side_self : (s : Side) → same_side s s ≡ true
same_side_self bid = refl
same_side_self ask = refl

pub Side-cases : (s : Side) → (s ≡ bid) ⊎ (s ≡ ask)
Side-cases bid = inl refl
Side-cases ask = inr refl

pub best_bid-set_level :
    (b : OrderBook) (p : ℕ) (s : Side) (l : PriceLevel)
    → ((set_level b p s l).best_bid ≡ b.best_bid) × ((set_level b p s l).best_ask ≡ b.best_ask)
unfolding set_level
best_bid-set_level b p bid l = (refl, refl)
best_bid-set_level b p ask l = (refl, refl)

pub best_bid-raise_best :
    (b : OrderBook) (o : OrderEntry)
    → ((raise_best b o).best_bid
        ≡ (if is_bid o.side && ltb b.best_bid o.price then o.price else b.best_bid))
      × ((raise_best b o).best_ask
          ≡ (if not (is_bid o.side) && ltb o.price b.best_ask then o.price else b.best_ask))
unfolding raise_best
best_bid-raise_best b o = ground arith

pub best_bid-lower_best :
    (b : OrderBook) (p : ℕ) (s : Side)
    → ((lower_best b p s).best_bid ≡ (
        if (quantity_of b s p == 0) && (is_bid s && p == b.best_bid)
        then scan_bid b p
        else b.best_bid))
      × ((lower_best b p s).best_ask ≡ (
          if (quantity_of b s p == 0) && (not (is_bid s) && p == b.best_ask)
          then scan_ask b (max_price - p) (suc p)
          else b.best_ask))
unfolding lower_best update_best_bid_from update_best_ask_from
best_bid-lower_best b p s = ground arith
