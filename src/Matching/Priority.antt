-- ===== src/Matching/Priority.antt =====
-- Price-time priority of `MatchingEngine::process_new_order` (engine/matching/MatchingEngine.cpp): its
-- loops serve the resting orders by price, and at a price by their place in the queue.
use event_driven_trading_sys.Base.{
  ℕ, zero, suc, ◌+◌, ◌≤◌, ◌<◌, ◌≡◌, refl, sym, subst, ◌∙◌, ap, ◌≢◌, ◌⊎◌, inl, inr, true, false,
  ◌&&◌, ◌==◌, ltb, leb, leb→le, min, List, [], ◌∷◌, ◌++◌, take, drop, none, some, some-injective,
  arith, u64_mod, Bool-cases, Option-cases,
}
use event_driven_trading_sys.Events.{Side, bid, ask, Event, event_side}
use event_driven_trading_sys.OrderMap
use event_driven_trading_sys.PriceLevel.{ids, max_orders}
use event_driven_trading_sys.PriceLevel.Laws.{occurs, remove_first}
use event_driven_trading_sys.OrderBook.{
  OrderBook, OrderEntry, level, find_order, order_ids_at, insert, price_in_range,
}
use event_driven_trading_sys.OrderBook.Levels.{same_side, listed_if}
use event_driven_trading_sys.OrderBook.Inv.{InRange, same_level}
use event_driven_trading_sys.OrderBook.Ops.{IsBook, out_of_range, refused, rested, insert-Insertion}
use event_driven_trading_sys.OrderBook.Modify.{orders-rest_order}
use event_driven_trading_sys.OrderBook.Taken.{reduce-Taken}
use event_driven_trading_sys.OrderBook.Reads.{same_side_self}
use event_driven_trading_sys.OrderBook.Widen.{Widens}
use event_driven_trading_sys.Matching.{
  Progress, fill, fill_level, stop_self_trade, is_self_trade, match_round, match_loop, crosses,
  best_opposite, opposite, start, MatchOutput, process_new_order, rest_remainder, remainder, finish,
}
use event_driven_trading_sys.Matching.Loop.{Kept, fill-Kept, fill_level_done}
use event_driven_trading_sys.Matching.Rounds.{
  match_loop-IsDone, crosses-live, match_round-Kept, picked, skipped,
}
use event_driven_trading_sys.Matching.Served.{
  and_right, Served, Served-refl, Served-trans, IsAhead, is_better, best_price, reduce-Served,
}

-- A level that is at least as good as the best price, with the ids that its queue starts with.
record Front (b : OrderBook) (p : ℕ) (side : Side) (snap rest : List ℕ) : Type 0 where
  range : InRange p
  best : is_better side (best_price b side) p ≡ false
  queue : ids (level b p side) ≡ snap ++ rest

-- The first id of a queue is that of an order on its level.
Front-order :
    (b : OrderBook) (p id : ℕ) (side : Side) (snap rest : List ℕ)
    → IsBook b
    → Front b p side (id ∷ snap) rest
    → (o : OrderEntry) × (find_order b id ≡ some o) × (o.side ≡ side) × (o.price ≡ p)
unfolding find_order
Front-order b p id side snap rest v f = elim (Option-cases (OrderMap.find b.orders id)) [
  | inl e ↦ absurd (ground (arith, listed, e))
  | inr (o, e) ↦
      let (s, q) = same_level o.side side o.price p (ground (arith, listed, e)) in (o, e, s, q)
]
  where
    listed : suc (occurs id (snap ++ rest)) ≡ listed_if side p (OrderMap.find b.orders id)
    listed = ground (arith, ap (occurs id) f.queue, (v.consistent.agrees side p f.range).listed id)

best-Widens :
    (b c : OrderBook) (p : ℕ) (side : Side)
    → Widens b c
    → is_better side (best_price b side) p ≡ false
    → is_better side (best_price c side) p ≡ false
best-Widens b c p bid w h = ground (arith, w.bids)
best-Widens b c p ask w h = ground (arith, w.asks)

removed_first : (id : ℕ) (xs : List ℕ) → remove_first id (id ∷ xs) ≡ xs
removed_first id xs = ground arith

-- The level behind its first order, if nothing of that is left.
fill-Front :
    (e : Event) (p id : ℕ) (side : Side) (snap rest : List ℕ) (s : Progress) (o : OrderEntry)
    → IsBook s.book
    → find_order s.book id ≡ some o
    → o.side ≡ side
    → o.price ≡ p
    → o.quantity ≤ s.remaining
    → Kept s (fill e p s id o)
    → Front s.book p side (id ∷ snap) rest
    → Front (fill e p s id o).book p side snap rest
unfolding fill find_order
fill-Front e p id side snap rest s o v found at_side at_price all k f = record {
  range = f.range;
  best = best-Widens s.book _ p side k.quotes f.best;
  queue =
      (reduce-Taken s.book id (min s.remaining o.quantity) o v.consistent found).queues side p
        f.range
      ∙ rw own (ap (remove_first id) f.queue ∙ removed_first id (snap ++ rest));
}
  where
    own :
        (leb o.quantity (min s.remaining o.quantity) && (same_side o.side side && o.price == p))
        ≡ true
    own = ground (arith, ap (λ t. same_side t side) at_side, same_side_self side)

fill-Served :
    (e : Event) (p id : ℕ) (side : Side) (snap rest : List ℕ) (s : Progress) (o : OrderEntry)
    → IsBook s.book
    → find_order s.book id ≡ some o
    → o.side ≡ side
    → o.price ≡ p
    → Front s.book p side (id ∷ snap) rest
    → Served s.book (fill e p s id o).book
unfolding fill
fill-Served e p id side snap rest s o v found at_side at_price f =
    reduce-Served s.book id (min s.remaining o.quantity) o (snap ++ rest) v found
      (subst (λ t. is_better t (best_price s.book t) o.price ≡ false) (sym at_side)
        (subst (λ n. is_better side (best_price s.book side) n ≡ false) (sym at_price) f.best))
      (ap (λ t. ids (level s.book o.price t)) at_side
        ∙ ap (λ n. ids (level s.book n side)) at_price
        ∙ f.queue)

-- A fill that leaves something of the order uses up the aggressor.
fill_partial :
    (e : Event) (p id : ℕ) (s : Progress) (o : OrderEntry)
    → s.remaining < u64_mod
    → leb o.quantity s.remaining ≡ false
    → (fill e p s id o).remaining ≡ 0
unfolding fill
fill_partial e p id s o small part = ground arith

fill_level-Served :
    (e : Event) (p : ℕ) (side : Side) (snap rest : List ℕ) (s : Progress)
    → s.remaining < u64_mod
    → IsBook s.book
    → Front s.book p side snap rest
    → Served s.book (fill_level e p snap s).book
unfolding fill_level stop_self_trade
fill_level-Served e p side [] rest s small v f = Served-refl s.book
fill_level-Served e p side (id ∷ snap) rest s small v f = elim (Bool-cases (s.remaining == 0)) [
  | inl z ↦ rw (fill_level, z) (Served-refl s.book)
  | inr z ↦
      let (o, found, at_side, at_price) = Front-order s.book p id side snap rest v f in
      let k = fill-Kept e p s id o small v found in
      let served = fill-Served e p id side snap rest s o v found at_side at_price f in
      elim (Bool-cases (is_self_trade e.order_id id)) [
        | inl t ↦ rw (fill_level, z, found, t) (Served-refl s.book)
        | inr t ↦
            rw (fill_level, z, found, t)
              (Served-trans s.book (fill e p s id o).book _ served
                (elim (Bool-cases (leb o.quantity s.remaining)) [
                  | inl all ↦
                      fill_level-Served e p side snap rest (fill e p s id o) (omega (arith, k.left))
                        k.book
                        (fill-Front e p id side snap rest s o v found at_side at_price
                          (leb→le _ _ all) k f)
                  | inr part ↦
                      subst (λ u. Served (fill e p s id o).book u.book)
                        (sym (
                          fill_level_done e p snap (fill e p s id o)
                            (fill_partial e p id s o small part)))
                        (Served-refl _)
                ]))
      ]
]

take-drop {ℓ} : {A : Type ℓ} (n : ℕ) (xs : List A) → xs ≡ take n xs ++ drop n xs
take-drop zero xs = refl
take-drop (suc n) [] = refl
take-drop (suc n) (x ∷ xs) = ap (◌∷◌ x) (take-drop n xs)

best_opposite-Front :
    (b : OrderBook) (side : Side)
    → is_better (opposite side) (best_price b (opposite side)) (best_opposite b side) ≡ false
unfolding best_opposite
best_opposite-Front b bid = ground arith
best_opposite-Front b ask = ground arith

order_ids_at-range :
    (b : OrderBook) (p : ℕ) (side : Side) → InRange p → order_ids_at b p side ≡ ids (level b p side)
unfolding order_ids_at price_in_range
order_ids_at-range b p side r = ground arith

match_round-Served :
    (e : Event) (s : Progress)
    → s.remaining < u64_mod
    → IsBook s.book
    → crosses s.book (event_side e) e.price ≡ true
    → Served s.book (match_round e s).book
unfolding match_round
match_round-Served e s small v c =
    let side = event_side e in
    let p = best_opposite s.book side in
    let range = (crosses-live s.book side e.price v c).0 in
    let xs = order_ids_at s.book p (opposite side) in
    fill_level-Served e p (opposite side) (take max_orders xs) (drop max_orders xs) s small v
      (record {
        range = range;
        best = best_opposite-Front s.book side;
        queue = sym (order_ids_at-range s.book p (opposite side) range) ∙ take-drop max_orders xs;
      })

match_loop-Served :
    (fuel : ℕ) (e : Event) (s t : Progress)
    → s.remaining < u64_mod
    → IsBook s.book
    → match_loop fuel e s ≡ some t
    → Served s.book t.book
unfolding match_loop
match_loop-Served zero e s t small v h = ground arith
match_loop-Served (suc fuel) e s t small v h =
    elim (Bool-cases (ltb 0 s.remaining && crosses s.book (event_side e) e.price)) [
      | inr stop ↦
          subst (λ u. Served s.book u.book) (some-injective s t (rw (match_loop, stop) at h))
            (Served-refl s.book)
      | inl go ↦
          let s' = match_round e s in
          let first : Served s.book (match_round e s).book =
            match_round-Served e s small v (and_right _ _ go) in
          let k = match_round-Kept e s small v in
          elim (Bool-cases s'.stp_hit) [
            | inl hit ↦
                let run : match_loop (suc fuel) e s ≡ some s' =
                  rw (match_loop, go) (picked s'.stp_hit _ _ hit) in
                subst (λ u. Served s.book u.book) (some-injective s' t (sym run ∙ h)) first
            | inr on ↦
                let run : match_loop (suc fuel) e s ≡ match_loop fuel e s' =
                  rw (match_loop, go) (skipped s'.stp_hit _ _ on) in
                Served-trans s.book s'.book t.book first
                  (match_loop-Served fuel e s' t (omega (arith, k.left)) k.book (sym run ∙ h))
          ]
    ]

-- `insert` leaves every order under another id as it was.
insert-other :
    (b : OrderBook) (o : OrderEntry) (id : ℕ)
    → IsBook b
    → o.order_id ≢ id
    → OrderMap.find (insert b o).0.orders id ≡ OrderMap.find b.orders id
insert-other b o id v ne = elim (insert-Insertion b o v.consistent.map) [
  | out_of_range _ e ↦ rw e refl
  | refused _ _ e ↦ rw e refl
  | rested u _ _ _ ins e ↦ rw (e, orders-rest_order) (ground (arith, ins.lookup id))
]

rest_remainder-other :
    (e : Event) (t : Progress) (id : ℕ)
    → IsBook t.book
    → e.order_id ≢ id
    → find_order (rest_remainder e t).1 id ≡ find_order t.book id
unfolding rest_remainder find_order
rest_remainder-other e t id v ne =
    ground (arith, insert-other t.book (remainder e t.remaining) id v ne)

-- The aggressor's id is new, so that it is not one of an order of the book.
other_id :
    (b : OrderBook) (e : Event) (id : ℕ) (o : OrderEntry)
    → find_order b e.order_id ≡ none
    → find_order b id ≡ some o
    → e.order_id ≢ id
other_id b e id o fresh found same = cc (ap (find_order b) same, fresh, found)

rest_remainder-Served :
    (b : OrderBook) (e : Event) (t : Progress) (x y : ℕ) (o r : OrderEntry)
    → IsBook t.book
    → Served b t.book
    → find_order b e.order_id ≡ none
    → find_order b x ≡ some o
    → find_order b y ≡ some r
    → IsAhead b x o y r
    → (find_order (rest_remainder e t).1 x ≡ none) ⊎ (find_order (rest_remainder e t).1 y ≡ some r)
rest_remainder-Served b e t x y o r v k fresh fx fy a = elim (k.order x y o r fx fy a) [
  | inl gone ↦ inl (rest_remainder-other e t x v (other_id b e x o fresh fx) ∙ gone)
  | inr (stays, _) ↦ inr (rest_remainder-other e t y v (other_id b e y r fresh fy) ∙ stays)
]

-- On a book in order, for an aggressor of a 64-bit quantity with an id that is not in the book,
-- and fuel for one round per resting order and two more, `process_new_order` returns; and of two
-- resting orders of a side of which one is ahead, at a better price or at the same price and
-- earlier in the queue of its level, the one ahead is gone or the other is as it was.
pub process_new_order-IsAhead :
    (fuel : ℕ) (b : OrderBook) (e : Event) (x y : ℕ) (o r : OrderEntry)
    → IsBook b
    → e.quantity < u64_mod
    → b.orders.count + 2 ≤ fuel
    → find_order b e.order_id ≡ none
    → find_order b x ≡ some o
    → find_order b y ≡ some r
    → IsAhead b x o y r
    → (out : MatchOutput) × (b' : OrderBook) × (process_new_order fuel b e ≡ some (out, b'))
      × ((find_order b' x ≡ none) ⊎ (find_order b' y ≡ some r))
unfolding process_new_order
process_new_order-IsAhead fuel b e x y o r v small enough fresh fx fy a =
    let (t, run, k, done) = match_loop-IsDone fuel e (start b e) small v enough in
    let served = match_loop-Served fuel e (start b e) t small v run in
    (
      (rest_remainder e t).0,
      (rest_remainder e t).1,
      ap (finish e) run,
      rest_remainder-Served b e t x y o r k.book served fresh fx fy a,
    )
