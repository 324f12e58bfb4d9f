-- ===== src/OrderBook/Quotes.antt =====
-- The steps of engine/orderbook/OrderBook.cpp keep the best prices, and with them the whole
-- invariant of a book.
use event_driven_trading_sys.Base.{
  ℕ, suc, ◌-◌, ◌<◌, ◌≡◌, refl, sym, subst, fun_ext, ◌≢◌, inl, inr, not, ◌&&◌, ◌==◌, ltb,
  if◌then◌else◌, arith, Bool-cases,
}
use event_driven_trading_sys.Events.{Side, bid, ask, is_bid}
use event_driven_trading_sys.OrderMap.{OrderMap}
use event_driven_trading_sys.PriceLevel.{PriceLevel}
use event_driven_trading_sys.OrderBook.Inv.{InRange}
use event_driven_trading_sys.OrderBook.Best.{
  IsTopBid, IsLowAsk, IsBest, quantity_of, raise_bid, raise_ask, hold_bid, hold_ask, drop_bid,
  drop_ask,
}
use event_driven_trading_sys.OrderBook.{
  OrderBook, OrderEntry, set_level, raise_best, lower_best, scan_bid, scan_ask, max_price,
}
use event_driven_trading_sys.OrderBook.Reads.{
  changed, IsTopBid-same, IsLowAsk-same, quantity_read, quantity-raise_best, quantity-lower_best,
  same_side_self, Side-cases, best_bid-raise_best, best_bid-set_level, best_bid-lower_best,
}

module _ (b : OrderBook) (u : OrderMap OrderEntry) (p : ℕ) (s : Side) (l : PriceLevel)
    (ticks : b.tick_shift ≡ 0) (range : InRange p) (best : IsBest b) where
  abbrev after : OrderBook
  after = changed b u p s l ticks range

  same_bids : s ≡ bid → (i : ℕ) → InRange i → p ≢ i → quantity_of after bid i ≡ quantity_of b bid i
  same_bids e i k ne = ground (arith, quantity_read b u p s l ticks range bid i k)

  same_asks : s ≡ ask → (i : ℕ) → InRange i → p ≢ i → quantity_of after ask i ≡ quantity_of b ask i
  same_asks e i k ne = ground (arith, quantity_read b u p s l ticks range ask i k)

  other_bids : s ≡ ask → IsTopBid (quantity_of after bid) b.best_bid
  other_bids e =
      IsTopBid-same (quantity_of b bid) (quantity_of after bid) b.best_bid best.bids.bound
        (λ i k. ground (arith, quantity_read b u p s l ticks range bid i k)) best.bids

  other_asks : s ≡ bid → IsLowAsk (quantity_of after ask) b.best_ask
  other_asks e =
      IsLowAsk-same (quantity_of b ask) (quantity_of after ask) b.best_ask
        (λ i k. ground (arith, quantity_read b u p s l ticks range ask i k)) best.asks

  here_quantity : quantity_of after s p ≡ l.total_quantity
  here_quantity = ground (arith, quantity_read b u p s l ticks range s p range, same_side_self s)

  raised_bids :
      0 < l.total_quantity
      → IsTopBid (quantity_of after bid) (if is_bid s && ltb b.best_bid p then p else b.best_bid)
  raised_bids pos = elim (Side-cases s) [
    | inl e ↦ subst (IsTopBid (quantity_of after bid)) (ground (arith, e)) (
        raise_bid (quantity_of b bid) (quantity_of after bid) p range (same_bids e) b.best_bid
          (ground (arith, here_quantity, e)) best.bids)
    | inr e ↦ subst (IsTopBid (quantity_of after bid)) (ground (arith, e)) (other_bids e)
  ]

  raised_asks :
      0 < l.total_quantity
      → IsLowAsk
          (quantity_of after ask)
          (if not (is_bid s) && ltb p b.best_ask then p else b.best_ask)
  raised_asks pos = elim (Side-cases s) [
    | inr e ↦ subst (IsLowAsk (quantity_of after ask)) (ground (arith, e)) (
        raise_ask (quantity_of b ask) (quantity_of after ask) p range (same_asks e) b.best_ask
          (ground (arith, here_quantity, e)) best.asks)
    | inl e ↦ subst (IsLowAsk (quantity_of after ask)) (ground (arith, e)) (other_asks e)
  ]

  lowered_bids :
      0 < quantity_of b s p
      → IsTopBid (quantity_of after bid) (
          if (quantity_of after s p == 0) && (is_bid s && p == b.best_bid)
          then scan_bid after p
          else b.best_bid)
  lowered_bids pos = elim (Side-cases s) [
    | inr e ↦ subst (IsTopBid (quantity_of after bid)) (ground (arith, e)) (other_bids e)
    | inl e ↦ elim (Bool-cases ((quantity_of after s p == 0) && (p == b.best_bid))) [
      | inl z ↦ subst (IsTopBid (quantity_of after bid)) (ground (arith, e, z)) (
          drop_bid (quantity_of b bid) (quantity_of after bid) p range (same_bids e) after
            b.best_bid (λ _. refl) (ground (arith, z)) best.bids)
      | inr z ↦ subst (IsTopBid (quantity_of after bid)) (ground (arith, e, z)) (
          hold_bid (quantity_of b bid) (quantity_of after bid) p range (same_bids e) b.best_bid
            (ground (arith, e, z)) (ground (arith, e, pos)) best.bids)
    ]
  ]

  lowered_asks :
      0 < quantity_of b s p
      → IsLowAsk (quantity_of after ask) (
          if (quantity_of after s p == 0) && (not (is_bid s) && p == b.best_ask)
          then scan_ask after (max_price - p) (suc p)
          else b.best_ask)
  lowered_asks pos = elim (Side-cases s) [
    | inl e ↦ subst (IsLowAsk (quantity_of after ask)) (ground (arith, e)) (other_asks e)
    | inr e ↦ elim (Bool-cases ((quantity_of after s p == 0) && (p == b.best_ask))) [
      | inl z ↦ subst (IsLowAsk (quantity_of after ask)) (ground (arith, e, z)) (
          drop_ask (quantity_of b ask) (quantity_of after ask) p range (same_asks e) after
            b.best_ask (λ _. refl) (ground (arith, z)) (ground (arith, e, z)) best.asks)
      | inr z ↦ subst (IsLowAsk (quantity_of after ask)) (ground (arith, e, z)) (
          hold_ask (quantity_of b ask) (quantity_of after ask) p range (same_asks e) b.best_ask
            (ground (arith, e, z)) (ground (arith, e, pos)) best.asks)
    ]
  ]

  pub held : 0 < quantity_of b s p → 0 < l.total_quantity → IsBest after
  held pos left = record {
    bids =
        subst (IsTopBid (quantity_of after bid)) (ground (arith, here_quantity, kept))
          (lowered_bids pos);
    asks =
        subst (IsLowAsk (quantity_of after ask)) (ground (arith, here_quantity, kept))
          (lowered_asks pos);
  }
    where
      kept : (after.best_bid ≡ b.best_bid) × (after.best_ask ≡ b.best_ask)
      kept = best_bid-set_level (record b { orders = u }) p s l

  pub lowered : 0 < quantity_of b s p → IsBest (lower_best after p s)
  lowered pos = record {
    bids = subst (IsTopBid _) (ground (arith, kept, best_bid-lower_best after p s)) (
        subst (λ f. IsTopBid f chosen_bid) (sym (fun_ext (quantity-lower_best after p s bid)))
          (lowered_bids pos));
    asks = subst (IsLowAsk _) (ground (arith, kept, best_bid-lower_best after p s)) (
        subst (λ f. IsLowAsk f chosen_ask) (sym (fun_ext (quantity-lower_best after p s ask)))
          (lowered_asks pos));
  }
    where
      kept : (after.best_bid ≡ b.best_bid) × (after.best_ask ≡ b.best_ask)
      kept = best_bid-set_level (record b { orders = u }) p s l

      chosen_bid : ℕ
      chosen_bid =
          if (quantity_of after s p == 0) && (is_bid s && p == b.best_bid)
          then scan_bid after p
          else b.best_bid

      chosen_ask : ℕ
      chosen_ask =
          if (quantity_of after s p == 0) && (not (is_bid s) && p == b.best_ask)
          then scan_ask after (max_price - p) (suc p)
          else b.best_ask

-- The book after `insert` took an order.
pub raised :
    (b : OrderBook) (u : OrderMap OrderEntry) (o : OrderEntry) (l : PriceLevel)
    → b.tick_shift ≡ 0
    → InRange o.price
    → IsBest b
    → 0 < l.total_quantity
    → IsBest (raise_best (set_level (record b { orders = u }) o.price o.side l) o)
raised b u o l ticks range best pos = record {
  bids = subst (IsTopBid _) (ground (arith, kept, best_bid-raise_best x o)) (
      subst
        (λ f. IsTopBid f (if is_bid o.side && ltb b.best_bid o.price then o.price else b.best_bid))
        (sym (fun_ext (quantity-raise_best x o bid)))
        (raised_bids b u o.price o.side l ticks range best pos));
  asks = subst (IsLowAsk _) (ground (arith, kept, best_bid-raise_best x o)) (
      subst
        (λ f.
          IsLowAsk f
            (if not (is_bid o.side) && ltb o.price b.best_ask then o.price else b.best_ask))
        (sym (fun_ext (quantity-raise_best x o ask)))
        (raised_asks b u o.price o.side l ticks range best pos));
}
  where
    x : OrderBook
    x = set_level (record b { orders = u }) o.price o.side l

    kept : (x.best_bid ≡ b.best_bid) × (x.best_ask ≡ b.best_ask)
    kept = best_bid-set_level (record b { orders = u }) o.price o.side l
