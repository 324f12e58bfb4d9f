-- ===== src/OrderBook.antt =====
-- engine/orderbook/OrderBook.hpp and OrderBook.cpp: the book of one symbol. A vector of price
-- levels is its size and a function from the index; every function of the book returns the new
-- book. References and pointers into the book are resolved at each use.
pub mod Depth
pub mod DepthRows
pub mod Levels
pub mod Inv
pub mod Keep
pub mod Best
pub mod Reads
pub mod Quotes
pub mod Ops
pub mod Widen
pub mod Shrink
pub mod Supply
pub mod Modify
pub mod Taken
pub mod Rests
use event_driven_trading_sys.Base.{
  ℕ, zero, suc, ◌+◌, ◌-◌, ◌*◌, ◌/◌, ◌^◌, Bool, true, false, not, ◌&&◌, ◌==◌, ltb, leb,
  if◌then◌else◌, List, [], Option, none, some, add64, sub64,
}
use event_driven_trading_sys.Events.{Side, bid, ask, is_bid}
use event_driven_trading_sys.OrderMap.{OrderMap}
use event_driven_trading_sys.OrderMap
use event_driven_trading_sys.PriceLevel.{PriceLevel, empty_level}
use event_driven_trading_sys.PriceLevel

pub data OrderBookResult : Type 0 where
  ok price_out_of_range order_not_found order_already_exists : OrderBookResult

pub record OrderEntry : Type 0 where
  pub order_id : ℕ
  pub price : ℕ
  pub quantity : ℕ
  pub timestamp : ℕ
  pub side : Side

-- The value of an unused slot of the map, `{}`.
abbrev pub blank_entry : OrderEntry
blank_entry = record { order_id = 0; price = 0; quantity = 0; timestamp = 0; side = bid }

abbrev pub min_price : ℕ
min_price = 1

abbrev pub max_price : ℕ
max_price = 200_000

abbrev pub num_levels : ℕ
num_levels = max_price - min_price + 1

pub record OrderBook : Type 0 where
  pub symbol_id : ℕ
  pub tick_shift : ℕ
  pub levels : ℕ
  pub bid_levels : ℕ → PriceLevel
  pub ask_levels : ℕ → PriceLevel
  pub orders : OrderMap OrderEntry
  pub best_bid : ℕ
  pub best_ask : ℕ

-- The constructor. `levels` is the size of both vectors.
unfoldable pub make_book : ℕ → ℕ → ℕ → OrderBook
make_book symbol_id max_orders tick_shift = record {
  symbol_id = symbol_id;
  tick_shift = tick_shift;
  levels = num_levels / 2 ^ tick_shift;
  bid_levels = λ _. empty_level;
  ask_levels = λ _. empty_level;
  orders = OrderMap.make blank_entry (max_orders * 2);
  best_bid = 0;
  best_ask = max_price + 1;
}

unfoldable pub has_bid : OrderBook → Bool
has_bid b = leb min_price b.best_bid

unfoldable pub has_ask : OrderBook → Bool
has_ask b = leb b.best_ask max_price

unfoldable pub spread : OrderBook → ℕ
unfolding has_bid has_ask
spread b = if has_bid b && has_ask b then sub64 b.best_ask b.best_bid else 0

unfoldable pub price_in_range : ℕ → Bool
price_in_range price = leb min_price price && leb price max_price

-- `(price - MIN_PRICE) >> tick_shift_`
unfoldable pub price_index : OrderBook → ℕ → ℕ
price_index b price = sub64 price min_price / 2 ^ b.tick_shift

unfoldable pub level : OrderBook → ℕ → Side → PriceLevel
level b price side =
    if is_bid side then b.bid_levels (price_index b price) else b.ask_levels (price_index b price)

abbrev pub update : (ℕ → PriceLevel) → ℕ → PriceLevel → ℕ → PriceLevel
update f i l j = if i == j then l else f j

-- A write through the reference that `level` returned.
unfoldable pub set_level : OrderBook → ℕ → Side → PriceLevel → OrderBook
set_level b price bid l = record b { bid_levels = update b.bid_levels (price_index b price) l }
set_level b price ask l = record b { ask_levels = update b.ask_levels (price_index b price) l }

-- The loop of `update_best_bid_from`: down from a price to `MIN_PRICE`, 0 if no level has quantity.
unfoldable pub scan_bid : OrderBook → ℕ → ℕ
scan_bid b zero = 0
scan_bid b (suc p) =
    let rest = scan_bid b p in
    if ltb 0 (b.bid_levels (price_index b (suc p))).total_quantity then suc p else rest

-- The loop of `update_best_ask_from`, with the rounds left up to `MAX_PRICE` and the price.
unfoldable pub scan_ask : OrderBook → ℕ → ℕ → ℕ
scan_ask b zero p = max_price + 1
scan_ask b (suc n) p =
    let rest = scan_ask b n (suc p) in
    if ltb 0 (b.ask_levels (price_index b p)).total_quantity then p else rest

unfoldable pub update_best_bid_from : OrderBook → ℕ → OrderBook
update_best_bid_from b price = record b { best_bid = scan_bid b price }

unfoldable pub update_best_ask_from : OrderBook → ℕ → OrderBook
update_best_ask_from b price = record b { best_ask = scan_ask b (max_price - price) (suc price) }

-- The last statement of `insert`: a better price becomes the best.
unfoldable pub raise_best : OrderBook → OrderEntry → OrderBook
raise_best b o =
    if is_bid o.side && ltb b.best_bid o.price
    then record b { best_bid = o.price }
    else if not (is_bid o.side) && ltb o.price b.best_ask
    then record b { best_ask = o.price }
    else b

-- `lvl.total_quantity += quantity; lvl.push(id)`. The result of `push` is not looked at.
unfoldable pub add_to_level : PriceLevel → OrderEntry → PriceLevel
add_to_level l o =
    (PriceLevel.push (record l { total_quantity = add64 l.total_quantity o.quantity }) o.order_id).0

-- `insert` after the map took the order.
unfoldable pub rest_order : OrderBook → OrderEntry → OrderBook
rest_order b o = raise_best (set_level b o.price o.side (add_to_level (level b o.price o.side) o)) o

abbrev pub is_some {ℓ} : {A : Type ℓ} → Option A → Bool
is_some none = false
is_some (some a) = true

unfoldable pub insert : OrderBook → OrderEntry → OrderBook × OrderBookResult
insert b o =
    if not (price_in_range o.price)
    then (b, price_out_of_range)
    else if is_some (OrderMap.find b.orders o.order_id)
    then (b, order_already_exists)
    else let (orders', inserted) = OrderMap.insert b.orders o.order_id o in
      if not inserted
      then (record b { orders = orders' }, order_already_exists)
      else (rest_order (record b { orders = orders' }) o, ok)

-- `if (lvl.total_quantity == 0)` at the end of `cancel`, for the level of a removed order.
unfoldable pub lower_best : OrderBook → ℕ → Side → OrderBook
lower_best b price side =
    if (level b price side).total_quantity == 0
    then if is_bid side && price == b.best_bid
      then update_best_bid_from b price
      else if not (is_bid side) && price == b.best_ask
      then update_best_ask_from b price
      else b
    else b

-- `lvl.total_quantity -= qty; lvl.remove(order_id)`
unfoldable pub take_from_level : PriceLevel → ℕ → ℕ → PriceLevel
take_from_level l id quantity =
    PriceLevel.remove (record l { total_quantity = sub64 l.total_quantity quantity }) id

-- What `cancel` and `modify` do with the entry `o` that they found under the id.
unfoldable pub unlink : OrderBook → ℕ → OrderEntry → OrderBook
unlink b id o =
    let b' =
      set_level (record b { orders = (OrderMap.erase b.orders id).0 }) o.price o.side
        (take_from_level (level b o.price o.side) id o.quantity) in
    lower_best b' o.price o.side

abbrev pub cancel_found : OrderBook → ℕ → Option OrderEntry → OrderBook × OrderBookResult
cancel_found b id none = (b, order_not_found)
cancel_found b id (some o) = (unlink b id o, ok)

unfoldable pub cancel : OrderBook → ℕ → OrderBook × OrderBookResult
cancel b id = cancel_found b id (OrderMap.find b.orders id)

abbrev pub modify_found : OrderBook → ℕ → ℕ → ℕ → Option OrderEntry → OrderBook × OrderBookResult
modify_found b id new_price new_quantity none = (b, order_not_found)
modify_found b id new_price new_quantity (some old) =
    insert (unlink b id old) (record old { price = new_price; quantity = new_quantity })

unfoldable pub modify : OrderBook → ℕ → ℕ → ℕ → OrderBook × OrderBookResult
modify b id new_price new_quantity =
    if not (price_in_range new_price)
    then (b, price_out_of_range)
    else modify_found b id new_price new_quantity (OrderMap.find b.orders id)

-- `reduce` below the full quantity: the level and the entry shrink in place.
unfoldable pub shrink : OrderBook → ℕ → OrderEntry → ℕ → OrderBook
shrink b id o quantity =
    let l = level b o.price o.side in
    set_level
      (record b {
        orders = OrderMap.store b.orders id (record o { quantity = sub64 o.quantity quantity });
      })
      o.price o.side (record l { total_quantity = sub64 l.total_quantity quantity })

abbrev pub reduce_found : OrderBook → ℕ → ℕ → Option OrderEntry → OrderBook × OrderBookResult
reduce_found b id quantity none = (b, order_not_found)
reduce_found b id quantity (some o) =
    if leb o.quantity quantity then cancel b id else (shrink b id o quantity, ok)

unfoldable pub reduce : OrderBook → ℕ → ℕ → OrderBook × OrderBookResult
reduce b id quantity = reduce_found b id quantity (OrderMap.find b.orders id)

unfoldable pub quantity_at : OrderBook → ℕ → Side → ℕ
quantity_at b price side =
    if not (price_in_range price) then 0 else (level b price side).total_quantity

unfoldable pub order_ids_at : OrderBook → ℕ → Side → List ℕ
order_ids_at b price side =
    if not (price_in_range price) then [] else PriceLevel.ids (level b price side)

unfoldable pub find_order : OrderBook → ℕ → Option OrderEntry
find_order b id = OrderMap.find b.orders id
