-- ===== src/Matching/Growth.antt =====
-- How much one event of engine/matching/MatchingEngine.cpp can add to a book: one order at its price,
-- and its quantity on any level.
use event_driven_trading_sys.Base.{
  ℕ, ◌+◌, ◌≤◌, ◌<◌, ◌≡◌, ap, ◌&&◌, ◌==◌, ltb, if◌then◌else◌, some, true, arith, u64_mod, Bool-cases,
  Option-cases, inl, inr,
}
use event_driven_trading_sys.Events.{Event, Side, event_side}
use event_driven_trading_sys.OrderMap
use event_driven_trading_sys.OrderMap.Laws.{erase-Erased}
use event_driven_trading_sys.PriceLevel.{PriceLevel, push}
use event_driven_trading_sys.OrderBook.Levels.{same_side, HasRoom}
use event_driven_trading_sys.OrderBook.Inv.{InRange, same_level}
use event_driven_trading_sys.OrderBook.Shrink.{Shrinks, unlink-Shrinks}
use event_driven_trading_sys.OrderBook.Rests.{level-rest_order}
use event_driven_trading_sys.OrderBook.Modify.{orders-rest_order, orders-unlink}
use event_driven_trading_sys.OrderBook.Ops.{
  IsBook, out_of_range, refused, rested, insert-Insertion, unlink-IsBook,
}
use event_driven_trading_sys.OrderBook.{
  OrderBook, OrderEntry, insert, add_to_level, unlink, cancel, modify, level, price_in_range,
}
use event_driven_trading_sys.Matching.{
  MatchOutput, Progress, process_new_order, rest_remainder, remainder, finish, start,
}
use event_driven_trading_sys.Matching.Loop.{Kept}
use event_driven_trading_sys.Matching.Rounds.{match_loop-IsDone}
use event_driven_trading_sys.Matching.Process.{rest_remainder-IsBook}

pub record Grows (price quantity : ℕ) (b c : OrderBook) : Type 0 where
  pub ids :
      (s : Side) (p : ℕ)
      → InRange p
      → (level c p s).count ≤ (level b p s).count + (if price == p then 1 else 0)
  pub sums :
      (s : Side) (p : ℕ)
      → InRange p
      → (level c p s).total_quantity ≤ (level b p s).total_quantity + quantity
  pub orders : c.orders.count ≤ b.orders.count + 1

Shrinks-Grows :
    (price quantity : ℕ) (b c : OrderBook)
    → Shrinks b c
    → c.orders.count ≤ b.orders.count + 1
    → Grows price quantity b c
Shrinks-Grows price quantity b c h k = record {
  ids = λ s p r. omega (arith, (h s p r).orders);
  sums = λ s p r. omega (arith, (h s p r).quantity);
  orders = k;
}

pub same-Grows : (price quantity : ℕ) (b : OrderBook) → Grows price quantity b b
same-Grows price quantity b = record {
  ids = λ s p r. omega arith;
  sums = λ s p r. omega arith;
  orders = omega arith;
}

-- A book that shrank first.
after-Grows :
    (price quantity less : ℕ) (b c d : OrderBook)
    → Shrinks b c
    → c.orders.count ≤ b.orders.count
    → less ≤ quantity
    → Grows price less c d
    → Grows price quantity b d
after-Grows price quantity less b c d h k le g = record {
  ids = λ s p r. omega (arith, (h s p r).orders, g.ids s p r);
  sums = λ s p r. omega (arith, (h s p r).quantity, g.sums s p r);
  orders = omega (arith, g.orders);
}

add_to_level-grown :
    (l : PriceLevel) (o : OrderEntry)
    → ((add_to_level l o).count ≤ l.count + 1)
      × ((add_to_level l o).total_quantity ≤ l.total_quantity + o.quantity)
unfolding add_to_level push
add_to_level-grown l o = (ground arith, ground arith)

grown_at :
    (b : OrderBook) (o : OrderEntry) (s : Side) (p : ℕ)
    → let l : PriceLevel =
        (if same_side o.side s && o.price == p
          then add_to_level (level b o.price o.side) o
          else level b p s) in
      (l.count ≤ (level b p s).count + (if o.price == p then 1 else 0))
      × (l.total_quantity ≤ (level b p s).total_quantity + o.quantity)
grown_at b o s p = elim (Bool-cases (same_side o.side s && o.price == p)) [
  | inl h ↦
      let (st, pq) = same_level o.side s o.price p h in
      let e : level b o.price o.side ≡ level b p s = cc (st, pq) in
      let own : (o.price == p) ≡ true = ground (arith, pq) in
      let grown = add_to_level-grown (level b o.price o.side) o in
      rw (h, own)
        (
          omega (arith, grown, ap (λ l. l.count) e),
          omega (arith, grown, ap (λ l. l.total_quantity) e),
        )
  | inr h ↦ rw h (omega arith, omega arith)
]

insert-Grows :
    (b : OrderBook) (o : OrderEntry) → IsBook b → Grows o.price o.quantity b (insert b o).0
insert-Grows b o v = elim (insert-Insertion b o v.consistent.map) [
  | out_of_range _ e ↦ rw e (same-Grows o.price o.quantity b)
  | refused _ _ e ↦ rw e (same-Grows o.price o.quantity b)
  | rested u range _ _ ins e ↦ rw e (record {
    ids = λ s p r. rw (level-rest_order b u o p s v.consistent.ticks range r) (grown_at b o s p).0;
    sums = λ s p r. rw (level-rest_order b u o p s v.consistent.ticks range r) (grown_at b o s p).1;
    orders = rw orders-rest_order (omega (arith, ins.count_up));
  })
]

pub orders-unlink_fewer :
    (b : OrderBook) (id : ℕ) (o : OrderEntry)
    → IsBook b
    → OrderMap.find b.orders id ≡ some o
    → (unlink b id o).orders.count ≤ b.orders.count
orders-unlink_fewer b id o v found =
    rw orders-unlink (omega (arith, (erase-Erased v.consistent.map id o found).1.count_down))

pub cancel-Grows :
    (b : OrderBook) (id price quantity : ℕ) → IsBook b → Grows price quantity b (cancel b id).0
unfolding cancel
cancel-Grows b id price quantity v = elim (Option-cases (OrderMap.find b.orders id)) [
  | inl e ↦ rw e (same-Grows price quantity b)
  | inr (o, e) ↦ rw e (
      Shrinks-Grows price quantity b (unlink b id o) (unlink-Shrinks b id o v.consistent e)
        (omega (arith, orders-unlink_fewer b id o v e)))
]

pub modify-Grows :
    (b : OrderBook) (id price quantity : ℕ)
    → IsBook b
    → Grows price quantity b (modify b id price quantity).0
unfolding modify
modify-Grows b id price quantity v = elim (Bool-cases (price_in_range price)) [
  | inr e ↦ rw e (same-Grows price quantity b)
  | inl e ↦ elim (Option-cases (OrderMap.find b.orders id)) [
    | inl f ↦ rw (e, f) (same-Grows price quantity b)
    | inr (o, f) ↦
        rw (e, f)
          (after-Grows price quantity quantity b (unlink b id o) _
            (unlink-Shrinks b id o v.consistent f) (orders-unlink_fewer b id o v f) (omega arith)
            (insert-Grows (unlink b id o) (record o { price = price; quantity = quantity })
              (unlink-IsBook b id o v f)))
  ]
]

rest_remainder-Grows :
    (b : OrderBook) (e : Event) (t : Progress)
    → Kept (start b e) t
    → Grows e.price e.quantity b (rest_remainder e t).1
unfolding rest_remainder
rest_remainder-Grows b e t k =
    let shrunk = Shrinks-Grows e.price e.quantity b t.book k.levels (omega (arith, k.count)) in
    let grown =
      after-Grows e.price e.quantity t.remaining b t.book _ k.levels k.count k.left
        (insert-Grows t.book (remainder e t.remaining) k.book) in
    elim (Bool-cases t.stp_hit) [
      | inl h ↦ rw h shrunk
      | inr h ↦ elim (Bool-cases (ltb 0 t.remaining)) [
        | inl m ↦ rw (h, m) grown
        | inr m ↦ rw (h, m) shrunk
      ]
    ]

-- On a book in order, for an aggressor with room, `process_new_order` returns, the book is in order,
-- and it grew by at most one order and the aggressor's quantity.
pub process_new_order-Grows :
    (fuel : ℕ) (b : OrderBook) (e : Event)
    → IsBook b
    → e.quantity < u64_mod
    → (InRange e.price → HasRoom (level b e.price (event_side e)) e.quantity)
    → b.orders.count + 2 ≤ fuel
    → (out : MatchOutput) × (c : OrderBook) × (process_new_order fuel b e ≡ some (out, c))
      × IsBook c
      × Grows e.price e.quantity b c
unfolding process_new_order
process_new_order-Grows fuel b e v small room enough =
    let (t, run, k, done) = match_loop-IsDone fuel e (start b e) small v enough in
    (
      (rest_remainder e t).0,
      (rest_remainder e t).1,
      ap (finish e) run,
      rest_remainder-IsBook b e t k small room,
      rest_remainder-Grows b e t k,
    )
