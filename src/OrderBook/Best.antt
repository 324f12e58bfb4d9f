-- ===== src/OrderBook/Best.antt =====
-- The best prices of a book of engine/orderbook/OrderBook.cpp: the highest bid level and the lowest
-- ask level with quantity, kept by every step.
use event_driven_trading_sys.Base.{
  ℕ, zero, suc, ◌+◌, ◌-◌, ◌≤◌, ◌<◌, ◌≡◌, sym, ◌∙◌, subst, ◌≢◌, ◌⊎◌, inl, inr, ltb, ltb→lt,
  if◌then◌else◌, arith, Bool-cases, ℕ_discrete, dec_lt,
}
use event_driven_trading_sys.Events.{Side, bid, ask}
use event_driven_trading_sys.OrderBook.Inv.{InRange}
use event_driven_trading_sys.OrderBook.{OrderBook, level, scan_bid, scan_ask, max_price, min_price}

-- `best` is the highest price with quantity, 0 if there is none.
pub record IsTopBid (quantity : ℕ → ℕ) (best : ℕ) : Type 0 where
  pub bound : best ≤ max_price
  pub live : 0 < best → 0 < quantity best
  pub top : (p : ℕ) → InRange p → best < p → quantity p ≡ 0

-- `best` is the lowest price with quantity, `MAX_PRICE + 1` if there is none.
pub record IsLowAsk (quantity : ℕ → ℕ) (best : ℕ) : Type 0 where
  pub bound : (min_price ≤ best) × (best ≤ max_price + 1)
  pub live : best ≤ max_price → 0 < quantity best
  pub low : (p : ℕ) → InRange p → p < best → quantity p ≡ 0

abbrev pub quantity_of : OrderBook → Side → ℕ → ℕ
quantity_of b s p = (level b p s).total_quantity

pub record IsBest (b : OrderBook) : Type 0 where
  pub bids : IsTopBid (quantity_of b bid) b.best_bid
  pub asks : IsLowAsk (quantity_of b ask) b.best_ask

-- The scans stop at the first level with quantity.
pub scan_bid_lem :
    (b : OrderBook) (n : ℕ)
    → (scan_bid b n ≤ n)
      × (0 < scan_bid b n → 0 < quantity_of b bid (scan_bid b n))
      × ((p : ℕ) → scan_bid b n < p → p ≤ n → quantity_of b bid p ≡ 0)
unfolding scan_bid level
scan_bid_lem b zero = (omega arith, λ h. absurd (omega arith), λ p h k. absurd (omega arith))
scan_bid_lem b (suc n) = elim (Bool-cases (ltb 0 (quantity_of b bid (suc n)))) [
  | inl e ↦ rw e (omega arith, λ _. ltb→lt _ _ e, λ p h k. absurd (omega arith))
  | inr e ↦
      let (le, live, top) = scan_bid_lem b n in
      rw e (
        omega arith,
        live,
        λ p h k. elim (ℕ_discrete p (suc n)) [
          | yes z ↦ rw z (ground (arith, e))
          | no ne ↦ top p h (omega arith)
        ],
      )
]

pub scan_ask_lem :
    (b : OrderBook) (n p : ℕ)
    → p + n ≡ max_price + 1
    → (p ≤ scan_ask b n p)
      × (scan_ask b n p ≤ max_price + 1)
      × (scan_ask b n p ≤ max_price → 0 < quantity_of b ask (scan_ask b n p))
      × ((q : ℕ) → p ≤ q → q < scan_ask b n p → quantity_of b ask q ≡ 0)
unfolding scan_ask level
scan_ask_lem b zero p h =
    (omega arith, omega arith, λ k. absurd (omega arith), λ q k l. absurd (omega arith))
scan_ask_lem b (suc n) p h = elim (Bool-cases (ltb 0 (quantity_of b ask p))) [
  | inl e ↦ rw e (omega arith, omega arith, λ _. ltb→lt _ _ e, λ q k l. absurd (omega arith))
  | inr e ↦
      let (ge, le, live, low) = scan_ask_lem b n (suc p) (omega arith) in
      rw e (
        omega arith,
        le,
        live,
        λ q k l. elim (ℕ_discrete q p) [
          | yes z ↦ rw z (ground (arith, e))
          | no ne ↦ low q (omega arith) l
        ],
      )
]

-- A quantity that changed at one price.
module _ (q r : ℕ → ℕ) (p : ℕ) (h : InRange p)
    (same : (i : ℕ) → InRange i → p ≢ i → r i ≡ q i) where
  pub raise_bid :
      (best : ℕ) → 0 < r p → IsTopBid q best → IsTopBid r (if ltb best p then p else best)
  raise_bid best pos t = record {
    bound = ground (arith, t.bound);
    live = λ k. ground (arith, same best, t.live);
    top = λ i k l. ground (arith, same i, t.top i, t.top p, h);
  }

  pub raise_ask :
      (best : ℕ) → 0 < r p → IsLowAsk q best → IsLowAsk r (if ltb p best then p else best)
  raise_ask best pos t = record {
    bound = ground (arith, t.bound);
    live = λ k. ground (arith, same best, t.live);
    low = λ i k l. ground (arith, same i, t.low i, t.low p, h);
  }

  -- The best level keeps quantity, or is not the changed one.
  pub hold_bid : (best : ℕ) → (r p ≢ 0) ⊎ (p ≢ best) → 0 < q p → IsTopBid q best → IsTopBid r best
  hold_bid best alive pos t = record {
    bound = t.bound;
    live = λ k. ground (arith, same best, t.live);
    top = λ i k l. ground (arith, same i, t.top i, t.top p, h);
  }

  pub hold_ask : (best : ℕ) → (r p ≢ 0) ⊎ (p ≢ best) → 0 < q p → IsLowAsk q best → IsLowAsk r best
  hold_ask best alive pos t = record {
    bound = t.bound;
    live = λ k. ground (arith, same best, t.live);
    low = λ i k l. ground (arith, same i, t.low i, t.low p, h);
  }

  -- The best level ran empty: the scan finds the next one.
  pub drop_bid :
      (b : OrderBook) (best : ℕ)
      → ((i : ℕ) → quantity_of b bid i ≡ r i)
      → p ≡ best
      → IsTopBid q best
      → IsTopBid r (scan_bid b p)
  drop_bid b best reads e t =
      let (le, live, top) = scan_bid_lem b p in
      record {
        bound = omega arith;
        live = λ k. subst (λ n. 0 < n) (reads _) (live k);
        top = λ i k l. elim (dec_lt p i) [
          | yes far ↦ ground (arith, same i, t.top i, k)
          | no near ↦ sym (reads i) ∙ top i l (omega arith)
        ];
      }

  pub drop_ask :
      (b : OrderBook) (best : ℕ)
      → ((i : ℕ) → quantity_of b ask i ≡ r i)
      → p ≡ best
      → r p ≡ 0
      → IsLowAsk q best
      → IsLowAsk r (scan_ask b (max_price - p) (suc p))
  drop_ask b best reads e gone t =
      let (ge, le, live, low) = scan_ask_lem b (max_price - p) (suc p) (omega arith) in
      record {
        bound = omega arith;
        live = λ k. subst (λ n. 0 < n) (reads _) (live k);
        low = λ i k l. elim (dec_lt p i) [
          | yes far ↦ sym (reads i) ∙ low i (omega arith) l
          | no near ↦ ground (arith, same i, t.low i, k)
        ];
      }
