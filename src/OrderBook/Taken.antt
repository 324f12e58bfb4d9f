-- ===== src/OrderBook/Taken.antt =====
-- What `reduce` of engine/orderbook/OrderBook.cpp leaves of the orders and of the queues of ids.
use event_driven_trading_sys.Base.{
  ℕ, ◌≡◌, refl, ◌∙◌, ap, inl, inr, true, false, ◌&&◌, ◌==◌, leb, if◌then◌else◌, List, Option, none,
  some, sub64, Bool-cases,
}
use event_driven_trading_sys.Events.{Side}
use event_driven_trading_sys.OrderMap
use event_driven_trading_sys.OrderMap.Write.{Erased, Stored}
use event_driven_trading_sys.OrderMap.Laws.{erase-Erased, store-Stored}
use event_driven_trading_sys.PriceLevel.{PriceLevel, ids}
use event_driven_trading_sys.PriceLevel.Laws.{
  remove_first, ids-remove, ids-total_quantity, IsLevel-total_quantity,
}
use event_driven_trading_sys.OrderBook.Levels.{same_side}
use event_driven_trading_sys.OrderBook.Inv.{
  InRange, IsConsistent, level-set_level, level-orders, orders-set_level, same_level,
}
use event_driven_trading_sys.OrderBook.Shrink.{level-lower_best}
use event_driven_trading_sys.OrderBook.Modify.{orders-unlink}
use event_driven_trading_sys.OrderBook.{
  OrderBook, OrderEntry, set_level, unlink, shrink, reduce, cancel, take_from_level, level,
}

-- What is left of an order after a quantity was taken from it.
abbrev pub left_of : OrderEntry → ℕ → Option OrderEntry
left_of o q = if leb o.quantity q then none else some (record o { quantity = sub64 o.quantity q })

-- The order leaves the queue of its level only with its whole quantity.
abbrev pub queue_after : OrderEntry → ℕ → ℕ → Side → ℕ → List ℕ → List ℕ
queue_after o id q side price xs =
    if leb o.quantity q && (same_side o.side side && o.price == price)
    then remove_first id xs
    else xs

pub record Taken (b c : OrderBook) (id q : ℕ) (o : OrderEntry) : Type 0 where
  pub lookup :
      (j : ℕ)
      → OrderMap.find c.orders j ≡ (if id == j then left_of o q else OrderMap.find b.orders j)
  pub queues :
      (s : Side) (p : ℕ)
      → InRange p
      → ids (level c p s) ≡ queue_after o id q s p (ids (level b p s))

module _ (b : OrderBook) (id q : ℕ) (o : OrderEntry) (c : IsConsistent b)
    (found : OrderMap.find b.orders id ≡ some o) where
  range : InRange o.price
  range = (c.entries id o found).in_range

  ids-take_from_level :
      ids (take_from_level (level b o.price o.side) id o.quantity)
      ≡ remove_first id (ids (level b o.price o.side))
  unfolding take_from_level
  ids-take_from_level =
      let l = level b o.price o.side in
      (ids-remove (record l { total_quantity = sub64 l.total_quantity o.quantity }) id
        (IsLevel-total_quantity l _ (c.agrees o.side o.price range).array)).1
      ∙ ap (remove_first id) (ids-total_quantity l _)

  -- The ids after a level was replaced.
  ids-set_level :
      (u : OrderMap.OrderMap OrderEntry) (l : PriceLevel) (s : Side) (p : ℕ)
      → InRange p
      → ids (level (set_level (record b { orders = u }) o.price o.side l) p s)
        ≡ (if same_side o.side s && o.price == p then ids l else ids (level b p s))
  ids-set_level u l s p r = elim (Bool-cases (same_side o.side s && o.price == p)) [
    | inl h ↦
        rw (level-set_level (record b { orders = u }) o.price o.side l p s c.ticks range r)
          (rw h refl)
    | inr h ↦
        rw (level-set_level (record b { orders = u }) o.price o.side l p s c.ticks range r)
          (rw (h, level-orders b u p s) refl)
  ]

  level-same :
      (s : Side) (p : ℕ)
      → (same_side o.side s && o.price == p) ≡ true
      → level b o.price o.side ≡ level b p s
  level-same s p h =
      let (st, pq) = same_level o.side s o.price p h in
      ap (λ t. level b o.price t) st ∙ ap (λ n. level b n s) pq

  -- The level's ids without the order, on its own level.
  ids-removed :
      (s : Side) (p : ℕ)
      → (if same_side o.side s && o.price == p
          then ids (take_from_level (level b o.price o.side) id o.quantity)
          else ids (level b p s))
        ≡ (if same_side o.side s && o.price == p
            then remove_first id (ids (level b p s))
            else ids (level b p s))
  ids-removed s p = elim (Bool-cases (same_side o.side s && o.price == p)) [
    | inl h ↦ rw h (ids-take_from_level ∙ ap (λ l. remove_first id (ids l)) (level-same s p h))
    | inr h ↦ rw h refl
  ]

  -- A level that has less quantity and the same ids.
  ids-lowered :
      (n : ℕ) (s : Side) (p : ℕ)
      → (if same_side o.side s && o.price == p
          then ids (record (level b o.price o.side) { total_quantity = n })
          else ids (level b p s))
        ≡ ids (level b p s)
  ids-lowered n s p = elim (Bool-cases (same_side o.side s && o.price == p)) [
    | inl h ↦ rw h (ids-total_quantity (level b o.price o.side) n ∙ ap ids (level-same s p h))
    | inr h ↦ rw h refl
  ]

  unlink-Taken : leb o.quantity q ≡ true → Taken b (unlink b id o) id q o
  unfolding unlink
  unlink-Taken all = record {
    lookup = λ j. rw all (ap (λ m. OrderMap.find m j) (orders-unlink b id o) ∙ er.lookup j);
    queues = λ s p r. rw all (
        ap ids (level-lower_best _ o.price o.side p s) ∙ ids-set_level _ _ s p r ∙ ids-removed s p);
  }
    where
      er : Erased b.orders id o (OrderMap.erase b.orders id).0
      er = (erase-Erased c.map id o found).1

  shrink-Taken : leb o.quantity q ≡ false → Taken b (shrink b id o q) id q o
  unfolding shrink
  shrink-Taken some_left = record {
    lookup = λ j.
        rw some_left
          (ap (λ m. OrderMap.find m j) (orders-set_level _ o.price o.side _) ∙ st.lookup j);
    queues = λ s p r. rw some_left (ids-set_level _ _ s p r ∙ ids-lowered _ s p);
  }
    where
      smaller : OrderEntry
      smaller = record o { quantity = sub64 o.quantity q }

      st : Stored b.orders id o smaller (OrderMap.store b.orders id smaller)
      st = store-Stored c.map id o smaller found

  -- `reduce` takes the quantity from that order and from no other, and the order leaves the queue
  -- of its level, and no other order does, if nothing of it is left.
  pub reduce-Taken : Taken b (reduce b id q).0 id q o
  unfolding reduce cancel
  reduce-Taken = elim (Bool-cases (leb o.quantity q)) [
    | inl h ↦ rw (found, h, found) (unlink-Taken h)
    | inr h ↦ rw (found, h) (shrink-Taken h)
  ]
