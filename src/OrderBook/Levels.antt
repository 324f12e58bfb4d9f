-- ===== src/OrderBook/Levels.antt =====
-- What a price level of engine/orderbook/OrderBook.cpp holds, in terms of the map of orders: its
-- quantity is the sum over the orders that rest there, and its ids are theirs.
use event_driven_trading_sys.Base.{
  ℕ, ◌+◌, ◌≤◌, ◌<◌, ◌≡◌, ap, Bool, true, false, ◌&&◌, ◌==◌, if◌then◌else◌, Option, none, some,
  arith, [], ◌∷◌, ◌++◌, u64_mod, add64, sub64,
}
use event_driven_trading_sys.Events.{Side, bid, ask}
use event_driven_trading_sys.OrderMap.{OrderMap}
use event_driven_trading_sys.OrderMap
use event_driven_trading_sys.OrderMap.Inv.{total}
use event_driven_trading_sys.OrderMap.Write.{Inserted, Erased, Stored}
use event_driven_trading_sys.PriceLevel.{PriceLevel, ids, push, remove, max_orders}
use event_driven_trading_sys.PriceLevel.Laws.{
  IsLevel, occurs, occurs-append, occurs-remove_first, ids-push, ids-remove, remove_first,
  total_quantity-push, total_quantity-remove, ids-total_quantity, IsLevel-total_quantity,
}
use event_driven_trading_sys.OrderBook.{OrderEntry, add_to_level, take_from_level}

abbrev pub same_side : Side → Side → Bool
same_side bid bid = true
same_side bid ask = false
same_side ask bid = false
same_side ask ask = true

-- The order rests on the level of a side and a price.
abbrev pub rests_at : Side → ℕ → OrderEntry → Bool
rests_at side price o = same_side o.side side && o.price == price

abbrev pub quantity_if : Side → ℕ → OrderEntry → ℕ
quantity_if side price o = if rests_at side price o then o.quantity else 0

abbrev pub listed_if : Side → ℕ → Option OrderEntry → ℕ
listed_if side price none = 0
listed_if side price (some o) = if rests_at side price o then 1 else 0

-- The level `l` of a side and a price agrees with the orders `m`.
pub record Agrees (m : OrderMap OrderEntry) (side : Side) (price : ℕ) (l : PriceLevel)
    : Type 0 where
  pub array : IsLevel l
  pub sum : l.total_quantity ≡ total (quantity_if side price) m
  pub bounded : l.total_quantity < u64_mod
  pub listed : (id : ℕ) → occurs id (ids l) ≡ listed_if side price (OrderMap.find m id)

-- A level has room for one more order of a quantity: an id fits, and the sum does not wrap.
pub record HasRoom (l : PriceLevel) (quantity : ℕ) : Type 0 where
  pub slot : l.count < max_orders
  pub no_wrap : l.total_quantity + quantity < u64_mod

module _ (side : Side) (price : ℕ) {m u : OrderMap OrderEntry} (k : ℕ) (o : OrderEntry) where
  -- A new order on another level.
  pub insert_elsewhere :
      (l : PriceLevel)
      → Inserted m k o u
      → OrderMap.find m k ≡ none
      → rests_at side price o ≡ false
      → Agrees m side price l
      → Agrees u side price l
  insert_elsewhere l ins absent other a = record {
    array = a.array;
    sum = ground (arith, ins.totals (quantity_if side price), other, a.sum);
    bounded = a.bounded;
    listed = λ id. ground (arith, ins.lookup id, a.listed id, other, absent, a.listed k);
  }

  -- A new order on this level.
  pub insert_here :
      (l : PriceLevel)
      → Inserted m k o u
      → OrderMap.find m k ≡ none
      → o.order_id ≡ k
      → rests_at side price o ≡ true
      → HasRoom l o.quantity
      → Agrees m side price l
      → Agrees u side price (add_to_level l o)
  unfolding add_to_level
  insert_here l ins absent own here room a = record {
    array = pushed.0;
    sum = ground (
      arith,
      total_quantity-push raised o.order_id,
      ins.totals (quantity_if side price),
      here,
      a.sum,
      room,
    );
    bounded = ground (arith, total_quantity-push raised o.order_id, room);
    listed = λ id. ground (
      arith,
      ap (occurs id) (pushed.1),
      ap (occurs id) (ids-total_quantity l (add64 l.total_quantity o.quantity)),
      occurs-append id (ids raised) (o.order_id ∷ []),
      ins.lookup id,
      a.listed id,
      here,
      own,
      absent,
      a.listed k,
    );
  }
    where
      raised : PriceLevel
      raised = record l { total_quantity = add64 l.total_quantity o.quantity }

      pushed :
          IsLevel (push raised o.order_id).0
          × (ids (push raised o.order_id).0 ≡ ids raised ++ (o.order_id ∷ []))
      pushed = ids-push raised o.order_id (IsLevel-total_quantity l _ a.array) room.slot

  -- An erased order of another level.
  pub erase_elsewhere :
      (l : PriceLevel)
      → Erased m k o u
      → OrderMap.find m k ≡ some o
      → rests_at side price o ≡ false
      → Agrees m side price l
      → Agrees u side price l
  erase_elsewhere l er found other a = record {
    array = a.array;
    sum = ground (arith, er.totals (quantity_if side price), other, a.sum);
    bounded = a.bounded;
    listed = λ id. ground (arith, er.lookup id, a.listed id, other, found, a.listed k);
  }

  -- An erased order of this level.
  pub erase_here :
      (l : PriceLevel)
      → Erased m k o u
      → OrderMap.find m k ≡ some o
      → rests_at side price o ≡ true
      → Agrees m side price l
      → Agrees u side price (take_from_level l k o.quantity)
  unfolding take_from_level
  erase_here l er found here a = record {
    array = removed.0;
    sum = ground (
      arith,
      total_quantity-remove lowered k,
      er.totals (quantity_if side price),
      here,
      a.sum,
      a.bounded,
    );
    bounded = ground (arith, total_quantity-remove lowered k);
    listed = λ id. ground (
      arith,
      ap (occurs id) (removed.1),
      ap (occurs id) (ids-total_quantity l (sub64 l.total_quantity o.quantity)),
      occurs-remove_first id k (ids lowered),
      er.lookup id,
      a.listed id,
      here,
      found,
      a.listed k,
    );
  }
    where
      lowered : PriceLevel
      lowered = record l { total_quantity = sub64 l.total_quantity o.quantity }

      removed : IsLevel (remove lowered k) × (ids (remove lowered k) ≡ remove_first k (ids lowered))
      removed = ids-remove lowered k (IsLevel-total_quantity l _ a.array)

  -- An order of another level with a new quantity.
  pub store_elsewhere :
      (l : PriceLevel) (q : ℕ)
      → Stored m k o (record o { quantity = q }) u
      → OrderMap.find m k ≡ some o
      → rests_at side price o ≡ false
      → Agrees m side price l
      → Agrees u side price l
  store_elsewhere l q st found other a = record {
    array = a.array;
    sum = ground (arith, st.totals (quantity_if side price), other, a.sum);
    bounded = a.bounded;
    listed = λ id. ground (arith, st.lookup id, a.listed id, other, found, a.listed k);
  }

  -- An order of this level that loses the quantity `q`.
  pub store_here :
      (l : PriceLevel) (q : ℕ)
      → q ≤ o.quantity
      → o.quantity < u64_mod
      → Stored m k o (record o { quantity = sub64 o.quantity q }) u
      → OrderMap.find m k ≡ some o
      → rests_at side price o ≡ true
      → Agrees m side price l
      → Agrees u side price (record l { total_quantity = sub64 l.total_quantity q })
  store_here l q le small st found here a = record {
    array = IsLevel-total_quantity l _ a.array;
    sum = ground (arith, st.totals (quantity_if side price), here, a.sum, a.bounded);
    bounded = omega arith;
    listed = λ id. ground (
      arith,
      ap (occurs id) (ids-total_quantity l (sub64 l.total_quantity q)),
      st.lookup id,
      a.listed id,
      here,
      found,
      a.listed k,
    );
  }
