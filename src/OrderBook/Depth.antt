-- ===== src/OrderBook/Depth.antt =====
-- `top_bids` and `top_asks` of engine/orderbook/OrderBook.cpp: the best `n` price levels.
use event_driven_trading_sys.Base.{ℕ, zero, suc, ◌+◌, ◌-◌, ltb, not, if◌then◌else◌, List, [], ◌∷◌}
use event_driven_trading_sys.OrderBook.{OrderBook, max_price, price_index, has_bid, has_ask}

pub record DepthEntry : Type 0 where
  pub price : ℕ
  pub quantity : ℕ

-- The loop of `top_bids`: the room left in the result and the price, which goes down to 1.
unfoldable pub bids_loop : OrderBook → ℕ → ℕ → List DepthEntry
bids_loop b room zero = []
bids_loop b zero (suc p) = []
bids_loop b (suc room) (suc p) =
    let total = (b.bid_levels (price_index b (suc p))).total_quantity in
    let taken = record { price = suc p; quantity = total } ∷ bids_loop b room p in
    let skipped = bids_loop b (suc room) p in if ltb 0 total then taken else skipped

unfoldable pub top_bids : OrderBook → ℕ → List DepthEntry
unfolding has_bid
top_bids b n = if not (has_bid b) then [] else bids_loop b n b.best_bid

-- The loop of `top_asks`: the rounds left up to `MAX_PRICE`, the room left and the price.
unfoldable pub asks_loop : OrderBook → ℕ → ℕ → ℕ → List DepthEntry
asks_loop b zero room p = []
asks_loop b (suc n) zero p = []
asks_loop b (suc n) (suc room) p =
    let total = (b.ask_levels (price_index b p)).total_quantity in
    let taken = record { price = p; quantity = total } ∷ asks_loop b n room (suc p) in
    let skipped = asks_loop b n (suc room) (suc p) in if ltb 0 total then taken else skipped

unfoldable pub top_asks : OrderBook → ℕ → List DepthEntry
unfolding has_ask
top_asks b n = if not (has_ask b) then [] else asks_loop b (max_price + 1 - b.best_ask) n b.best_ask
