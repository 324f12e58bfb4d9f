-- ===== src/OrderBook/Ops.antt =====
-- `insert`, `cancel`, `modify` and `reduce` of engine/orderbook/OrderBook.cpp keep the invariant of
-- a book on every branch.
use event_driven_trading_sys.Base.{
  ℕ, suc, ◌*◌, ◌^◌, ◌≤◌, ◌<◌, ◌≡◌, refl, sym, subst, inl, inr, Bool, true, false, ◌||◌, leb, none,
  some, arith, u64_mod, add64, Bool-cases, Option-cases,
}
use native.Mathlib.Nat.{pow-suc}
use event_driven_trading_sys.Events.{Side, bid, ask}
use event_driven_trading_sys.OrderMap.{OrderMap}
use event_driven_trading_sys.OrderMap
use event_driven_trading_sys.OrderMap.Inv.{IsValid}
use event_driven_trading_sys.OrderMap.Write.{Inserted}
use event_driven_trading_sys.OrderMap.Make.{make-IsValid, find-make, total-make}
use event_driven_trading_sys.OrderMap.Laws.{erase-Erased}
use event_driven_trading_sys.OrderMap.Total.{insert_cases}
use event_driven_trading_sys.PriceLevel.{PriceLevel, empty_level, ids}
use event_driven_trading_sys.PriceLevel.Laws.{total_quantity-push}
use event_driven_trading_sys.OrderBook.Levels.{quantity_if, Agrees, HasRoom}
use event_driven_trading_sys.OrderBook.Inv.{InRange, IsEntry, IsConsistent}
use event_driven_trading_sys.OrderBook.Keep.{
  rest_order-IsConsistent, unlink-IsConsistent, shrink-IsConsistent, rests_at_self,
}
use event_driven_trading_sys.OrderBook.Best.{IsBest, quantity_of}
use event_driven_trading_sys.OrderBook.Quotes.{held, lowered, raised}
use event_driven_trading_sys.OrderBook.{
  OrderBook, OrderEntry, ok, price_out_of_range, order_already_exists, make_book, blank_entry,
  level, price_index, price_in_range, is_some, rest_order, unlink, shrink, add_to_level, insert,
  cancel, reduce,
}

-- A book with a tick shift of 0 is in order: map, levels and best prices agree.
pub record IsBook (b : OrderBook) : Type 0 where
  pub consistent : IsConsistent b
  pub best : IsBest b

empty_level-Agrees :
    (n : ℕ) (s : Side) (p : ℕ) → Agrees (OrderMap.make blank_entry n) s p empty_level
unfolding empty_level ids
empty_level-Agrees n s p = record {
  array = record { sized = refl; fits = omega arith };
  sum = sym (total-make blank_entry n (quantity_if s p));
  bounded = omega arith;
  listed = λ id. ground (arith, find-make blank_entry n id);
}

-- A new book with a tick shift of 0, over a capacity that is a power of two, is in order.
pub make_book-IsBook : (symbol_id k : ℕ) → IsBook (make_book symbol_id (2 ^ k) 0)
unfolding make_book level price_index empty_level
make_book-IsBook symbol_id k = record {
  consistent = record {
    ticks = refl;
    map = valid;
    entries = λ id o e. cc (find-make blank_entry (2 ^ k * 2) id, e);
    agrees = λ s p r. at s p;
  };
  best = record {
    bids = record { bound = omega arith; live = λ h. absurd (omega arith); top = λ p r h. refl };
    asks = record {
      bound = (omega arith, omega arith);
      live = λ h. absurd (omega arith);
      low = λ p r h. refl;
    };
  };
}
  where
    valid : IsValid (OrderMap.make blank_entry (2 ^ k * 2))
    valid =
        subst (λ n. IsValid (OrderMap.make blank_entry n)) (omega (arith, pow-suc 2 k))
          (make-IsValid blank_entry (suc k))

    at :
        (s : Side) (p : ℕ)
        → Agrees
            (make_book symbol_id (2 ^ k) 0).orders
            s
            p
            (level (make_book symbol_id (2 ^ k) 0) p s)
    at bid p = empty_level-Agrees (2 ^ k * 2) bid p
    at ask p = empty_level-Agrees (2 ^ k * 2) ask p

-- A resting order is part of the quantity of its level.
pub quantity-le-level :
    (b : OrderBook) (id : ℕ) (o : OrderEntry)
    → IsConsistent b
    → OrderMap.find b.orders id ≡ some o
    → o.quantity ≤ quantity_of b o.side o.price
quantity-le-level b id o c found = ground (
  arith,
  (erase-Erased c.map id o found).1.totals (quantity_if o.side o.price),
  rests_at_self o,
  (c.agrees o.side o.price (c.entries id o found).in_range).sum,
)

pub unlink-IsBook :
    (b : OrderBook) (id : ℕ) (o : OrderEntry)
    → IsBook b
    → OrderMap.find b.orders id ≡ some o
    → IsBook (unlink b id o)
unfolding unlink level price_index
unlink-IsBook b id o v found = record {
  consistent = unlink-IsConsistent b id o v.consistent found;
  best =
      lowered b _ o.price o.side _ v.consistent.ticks (v.consistent.entries id o found).in_range
        v.best
        (omega (
          arith,
          quantity-le-level b id o v.consistent found,
          (v.consistent.entries id o found).positive,
        ));
}

shrink-IsBook :
    (b : OrderBook) (id : ℕ) (o : OrderEntry) (q : ℕ)
    → IsBook b
    → OrderMap.find b.orders id ≡ some o
    → q < o.quantity
    → IsBook (shrink b id o q)
unfolding shrink level price_index
shrink-IsBook b id o q v found less = record {
  consistent = shrink-IsConsistent b id o q v.consistent found less;
  best =
      held b _ o.price o.side _ v.consistent.ticks en.in_range v.best
        (omega (arith, le, en.positive))
        (omega (arith, le, (v.consistent.agrees o.side o.price en.in_range).bounded));
}
  where
    en : IsEntry id o
    en = v.consistent.entries id o found

    le : o.quantity ≤ quantity_of b o.side o.price
    le = quantity-le-level b id o v.consistent found

total-add_to_level :
    (l : PriceLevel) (o : OrderEntry)
    → (add_to_level l o).total_quantity ≡ add64 l.total_quantity o.quantity
unfolding add_to_level
total-add_to_level l o = total_quantity-push _ o.order_id

rest_order-IsBook :
    (b : OrderBook) (u : OrderMap OrderEntry) (o : OrderEntry)
    → IsBook b
    → Inserted b.orders o.order_id o u
    → OrderMap.find b.orders o.order_id ≡ none
    → IsEntry o.order_id o
    → HasRoom (level b o.price o.side) o.quantity
    → IsBook (rest_order (record b { orders = u }) o)
unfolding rest_order level price_index
rest_order-IsBook b u o v ins absent en room = record {
  consistent = rest_order-IsConsistent b u o v.consistent ins absent en room;
  best =
      raised b u o _ v.consistent.ticks en.in_range v.best
        (ground (arith, total-add_to_level (level b o.price o.side) o, room, en.positive));
}

-- The order is refused by the map of the book: its id is there or reserved, or the map is full.
abbrev pub is_refused : OrderBook → OrderEntry → Bool
is_refused b o =
    is_some (OrderMap.find b.orders o.order_id)
    || (OrderMap.is_reserved o.order_id || leb b.orders.cap (b.orders.count * 2))

-- What `insert` did.
pub data Insertion (b : OrderBook) (o : OrderEntry) : Type 0 where
  out_of_range :
      price_in_range o.price ≡ false → insert b o ≡ (b, price_out_of_range) → Insertion b o
  refused :
      price_in_range o.price ≡ true
      → is_refused b o ≡ true
      → insert b o ≡ (b, order_already_exists)
      → Insertion b o
  rested :
      (u : OrderMap OrderEntry)
      → InRange o.price
      → is_refused b o ≡ false
      → OrderMap.find b.orders o.order_id ≡ none
      → Inserted b.orders o.order_id o u
      → insert b o ≡ (rest_order (record b { orders = u }) o, ok)
      → Insertion b o

-- The cases of `insert`, by its continuation.
pub insert-Insertion : (b : OrderBook) (o : OrderEntry) → IsValid b.orders → Insertion b o
unfolding insert price_in_range
insert-Insertion b o valid = elim (Bool-cases (price_in_range o.price)) [
  | inr e ↦ out_of_range e (ground (arith, e))
  | inl e ↦ elim (Option-cases (OrderMap.find b.orders o.order_id)) [
    | inr (x, f) ↦ refused e (ground (arith, f)) (ground (arith, e, f))
    | inl f ↦ elim (insert_cases o.order_id o valid f) [
      | inl (full, g) ↦ refused e (ground (arith, f, full)) (ground (arith, e, f, g))
      | inr (room, g, ins) ↦
          rested (OrderMap.insert b.orders o.order_id o).0 (ground (arith, e))
            (ground (arith, f, room)) f ins (ground (arith, e, f, g))
    ]
  ]
]

-- `insert` of an order with a positive 64-bit quantity, with room on its level if its price is in
-- range, keeps the book in order, whatever it answers.
pub insert-IsBook :
    (b : OrderBook) (o : OrderEntry)
    → IsBook b
    → 0 < o.quantity
    → o.quantity < u64_mod
    → (InRange o.price → HasRoom (level b o.price o.side) o.quantity)
    → IsBook (insert b o).0
insert-IsBook b o v pos small room = elim (insert-Insertion b o v.consistent.map) [
  | out_of_range _ e ↦ rw e v
  | refused _ _ e ↦ rw e v
  | rested u range _ absent ins e ↦ rw e (
      rest_order-IsBook b u o v ins absent
        (record { own = refl; in_range = range; positive = pos; small = small }) (room range))
]

-- On a book in order, `cancel` of any id leaves the book in order.
pub cancel-IsBook : (b : OrderBook) (id : ℕ) → IsBook b → IsBook (cancel b id).0
unfolding cancel
cancel-IsBook b id v = elim (Option-cases (OrderMap.find b.orders id)) [
  | inl e ↦ rw e v
  | inr (o, e) ↦ rw e (unlink-IsBook b id o v e)
]

-- On a book in order, `reduce` of any id by any quantity leaves the book in order.
pub reduce-IsBook : (b : OrderBook) (id q : ℕ) → IsBook b → IsBook (reduce b id q).0
unfolding reduce
reduce-IsBook b id q v = elim (Option-cases (OrderMap.find b.orders id)) [
  | inl e ↦ rw e v
  | inr (o, e) ↦ rw e (ground (arith, cancel-IsBook b id v, shrink-IsBook b id o q v e))
]
