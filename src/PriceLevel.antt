-- ===== src/PriceLevel.antt =====
-- `PriceLevel` of engine/orderbook/OrderBook.hpp: the resting quantity of one price and the ids of
-- its orders, oldest first, in an array of 16.
pub mod Laws
use event_driven_trading_sys.Base.{
  ℕ, zero, suc, ◌+◌, ◌-◌, Bool, true, false, ◌==◌, ltb, leb, if◌then◌else◌, List, Option, none,
  some, get_or, set, take, replicate,
}

abbrev pub max_orders : ℕ
max_orders = 16

pub record PriceLevel : Type 0 where
  pub total_quantity : ℕ
  pub order_ids : List ℕ
  pub count : ℕ

-- `PriceLevel{}`
unfoldable pub empty_level : PriceLevel
unfolding replicate
empty_level = record { total_quantity = 0; order_ids = replicate max_orders 0; count = 0 }

-- The span of the ids in use.
unfoldable pub ids : PriceLevel → List ℕ
ids l = take l.count l.order_ids

-- `order_ids[count++] = id`, refused when the array is full.
unfoldable pub push : PriceLevel → ℕ → PriceLevel × Bool
push l id =
    if leb max_orders l.count
    then (l, false)
    else (record l { order_ids = set l.order_ids l.count id; count = l.count + 1 }, true)

-- The outer loop of `remove`, with the rounds left and the index: where the id stands.
unfoldable pub index_loop : List ℕ → ℕ → ℕ → ℕ → Option ℕ
index_loop xs id zero i = none
index_loop xs id (suc n) i =
    let rest = index_loop xs id n (suc i) in if get_or xs i 0 == id then some i else rest

-- The inner loop, `for (j = i; j + 1 < count; ++j) order_ids[j] = order_ids[j + 1]`. A fuel of
-- `count` rounds is enough, since `j` grows.
unfoldable pub shift_loop : List ℕ → ℕ → ℕ → ℕ → List ℕ
shift_loop xs count zero j = xs
shift_loop xs count (suc n) j =
    let rest = shift_loop (set xs j (get_or xs (suc j) 0)) count n (suc j) in
    if ltb (suc j) count then rest else xs

abbrev remove_at : PriceLevel → Option ℕ → PriceLevel
remove_at l none = l
remove_at l (some i) = record l {
  order_ids = shift_loop l.order_ids l.count l.count i;
  count = l.count - 1;
}

unfoldable pub remove : PriceLevel → ℕ → PriceLevel
remove l id = remove_at l (index_loop l.order_ids id l.count 0)
