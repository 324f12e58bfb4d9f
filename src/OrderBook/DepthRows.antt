-- ===== src/OrderBook/DepthRows.antt =====
-- What `top_bids` and `top_asks` of engine/orderbook/OrderBook.cpp list, against all levels of a side.
use event_driven_trading_sys.Base.{
  ℕ, zero, suc, ◌+◌, ◌-◌, ◌≤◌, ◌≡◌, refl, sym, ◌∙◌, ap, inl, inr, ◌==◌, ltb, leb, if◌then◌else◌,
  Bool-cases, ==_iff, List, [], ◌∷◌, take, arith,
}
use event_driven_trading_sys.OrderBook.{
  OrderBook, min_price, max_price, price_index, has_bid, has_ask,
}
use event_driven_trading_sys.Events.{bid, ask}
use event_driven_trading_sys.OrderBook.{level}
use event_driven_trading_sys.OrderBook.Best.{IsTopBid, IsLowAsk, quantity_of}
use event_driven_trading_sys.OrderBook.Ops.{IsBook}
use event_driven_trading_sys.OrderBook.Depth.{DepthEntry, bids_loop, top_bids, asks_loop, top_asks}

-- Every level with a quantity, from a price down to 1.
unfoldable pub all_bids : OrderBook → ℕ → List DepthEntry
all_bids b zero = []
all_bids b (suc p) =
    let total = (b.bid_levels (price_index b (suc p))).total_quantity in
    if ltb 0 total then record { price = suc p; quantity = total } ∷ all_bids b p else all_bids b p

-- Every level with a quantity, from a price up, as many prices as given.
unfoldable pub all_asks : OrderBook → ℕ → ℕ → List DepthEntry
all_asks b zero p = []
all_asks b (suc n) p =
    let total = (b.ask_levels (price_index b p)).total_quantity in
    if ltb 0 total
    then record { price = p; quantity = total } ∷ all_asks b n (suc p)
    else all_asks b n (suc p)

bids_loop-take : (b : OrderBook) (room p : ℕ) → bids_loop b room p ≡ take room (all_bids b p)
unfolding bids_loop all_bids
bids_loop-take b zero zero = refl
bids_loop-take b (suc room) zero = refl
bids_loop-take b zero (suc p) = refl
bids_loop-take b (suc room) (suc p) =
    elim (Bool-cases (ltb 0 (b.bid_levels (price_index b (suc p))).total_quantity)) [
      | inl e ↦ rw e (
          ap
            (λ rs.
              record {
                price = suc p;
                quantity = (b.bid_levels (price_index b (suc p))).total_quantity;
              }
              ∷ rs)
            (bids_loop-take b room p))
      | inr e ↦ rw e (bids_loop-take b (suc room) p)
    ]

asks_loop-take : (b : OrderBook) (n room p : ℕ) → asks_loop b n room p ≡ take room (all_asks b n p)
unfolding asks_loop all_asks
asks_loop-take b zero zero p = refl
asks_loop-take b zero (suc room) p = refl
asks_loop-take b (suc n) zero p = refl
asks_loop-take b (suc n) (suc room) p =
    elim (Bool-cases (ltb 0 (b.ask_levels (price_index b p)).total_quantity)) [
      | inl e ↦ rw e (
          ap
            (λ rs.
              record { price = p; quantity = (b.ask_levels (price_index b p)).total_quantity } ∷ rs)
            (asks_loop-take b n room (suc p)))
      | inr e ↦ rw e (asks_loop-take b n (suc room) (suc p))
    ]

-- Above the best bid every level is empty, and below the best ask.
all_bids-best :
    (b : OrderBook) (p : ℕ)
    → b.best_bid ≤ p
    → p ≤ max_price
    → IsTopBid (quantity_of b bid) b.best_bid
    → all_bids b p ≡ all_bids b b.best_bid
unfolding all_bids level
all_bids-best b zero h k t = ap (all_bids b) {x = 0} (omega arith)
all_bids-best b (suc p) h k t = elim (Bool-cases (b.best_bid == suc p)) [
  | inl e ↦ ap (all_bids b) (sym ((==_iff b.best_bid (suc p)).0 e))
  | inr e ↦
      let empty = t.top (suc p) (omega arith) (ground (arith, e)) in
      rw empty (all_bids-best b p (ground (arith, e)) (omega arith) t)
]

all_asks-best :
    (b : OrderBook) (n p : ℕ)
    → 1 ≤ p
    → p ≤ b.best_ask
    → n + p ≡ max_price + 1
    → IsLowAsk (quantity_of b ask) b.best_ask
    → all_asks b n p ≡ all_asks b (max_price + 1 - b.best_ask) b.best_ask
unfolding all_asks level
all_asks-best b zero p h k e t = ap (λ m. all_asks b m b.best_ask) {x = 0} (omega (arith, t.bound))
all_asks-best b (suc n) p h k e t = elim (Bool-cases (p == b.best_ask)) [
  | inl f ↦
      let here : p ≡ b.best_ask = (==_iff p b.best_ask).0 f in
      let left : suc n ≡ max_price + 1 - b.best_ask = omega arith in
      ap (λ m. all_asks b m p) left ∙ ap (all_asks b (max_price + 1 - b.best_ask)) here
  | inr f ↦
      let empty = t.low p (omega arith) (ground (arith, f)) in
      rw empty (all_asks-best b n (suc p) (omega arith) (ground (arith, f)) (omega arith) t)
]

take-nil : (n : ℕ) → take {A = DepthEntry} n [] ≡ []
take-nil zero = refl
take-nil (suc n) = refl

top_bids_lem : (b : OrderBook) (n : ℕ) → top_bids b n ≡ take n (all_bids b b.best_bid)
unfolding top_bids has_bid all_bids
top_bids_lem b n = elim (Bool-cases (leb min_price b.best_bid)) [
  | inl e ↦ rw e (bids_loop-take b n b.best_bid)
  | inr e ↦
      let none_there : 0 ≡ b.best_bid = ground (arith, e) in
      rw e (sym (take-nil n) ∙ ap (λ p. take n (all_bids b p)) none_there)
]

top_asks_lem :
    (b : OrderBook) (n : ℕ)
    → top_asks b n ≡ take n (all_asks b (max_price + 1 - b.best_ask) b.best_ask)
unfolding top_asks has_ask all_asks
top_asks_lem b n = elim (Bool-cases (leb b.best_ask max_price)) [
  | inl e ↦ rw e (asks_loop-take b (max_price + 1 - b.best_ask) n b.best_ask)
  | inr e ↦
      let none_there : 0 ≡ max_price + 1 - b.best_ask = ground (arith, e) in
      rw e (sym (take-nil n) ∙ ap (λ m. take n (all_asks b m b.best_ask)) none_there)
]

-- On a book in order, `top_bids` and `top_asks` give the first `n` of all levels of their side
-- with a quantity: from the highest price down for the bids, from the lowest up for the asks.
pub top_bids-take :
    (b : OrderBook) (n : ℕ)
    → IsBook b
    → (top_bids b n ≡ take n (all_bids b max_price))
      × (top_asks b n ≡ take n (all_asks b max_price 1))
top_bids-take b n h =
    let t = h.best.bids in
    let u = h.best.asks in
    (
      top_bids_lem b n ∙ sym (ap (take n) (all_bids-best b max_price t.bound (omega arith) t)),
      top_asks_lem b n
          ∙ sym (ap (take n) (all_asks-best b max_price 1 (omega arith) u.bound.0 (omega arith) u)),
    )
