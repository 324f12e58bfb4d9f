-- ===== src/Matching/Rounds.antt =====
-- The outer loop of `MatchingEngine::process_new_order` (engine/matching/MatchingEngine.cpp): it
-- ends on every book in order, and why it ended.
use event_driven_trading_sys.Base.{
  ℕ, zero, suc, ◌+◌, ◌≤◌, ◌<◌, ◌≡◌, refl, ◌∙◌, ap, ◌⊎◌, ◌≢◌, ℕ_discrete, inl, inr, Bool, true,
  false, ◌&&◌, ltb, some, arith, u64_mod, Bool-cases, Option-cases, List, [], ◌∷◌, take,
}
use event_driven_trading_sys.Events.{Side, bid, ask, Event, event_side}
use event_driven_trading_sys.OrderMap
use event_driven_trading_sys.OrderMap.Inv.{total-pos}
use event_driven_trading_sys.PriceLevel.{ids, max_orders}
use event_driven_trading_sys.PriceLevel.Laws.{occurs}
use event_driven_trading_sys.OrderBook.{
  OrderBook, OrderEntry, has_bid, has_ask, find_order, order_ids_at, price_in_range, level,
}
use event_driven_trading_sys.OrderBook.Levels.{quantity_if, listed_if, Agrees}
use event_driven_trading_sys.OrderBook.Inv.{InRange, IsConsistent}
use event_driven_trading_sys.OrderBook.Best.{quantity_of}
use event_driven_trading_sys.OrderBook.Ops.{IsBook}
use event_driven_trading_sys.Matching.{
  Progress, match_round, match_loop, crosses, best_opposite, opposite,
}
use event_driven_trading_sys.Matching.Loop.{
  Kept, Kept-refl, Kept-trans, fill_level-Kept, fill_level_progress,
}

-- A level with quantity has a first id, and it is an order of the book.
first_order :
    (b : OrderBook) (s : Side) (p : ℕ)
    → IsConsistent b
    → InRange p
    → 0 < quantity_of b s p
    → (id : ℕ) × (snap : List ℕ) × (o : OrderEntry) × (take max_orders (order_ids_at b p s)
        ≡ id ∷ snap)
      × (find_order b id ≡ some o)
unfolding order_ids_at find_order price_in_range
first_order b s p c r pos = first (ids (level b p s)) a.listed refl
  where
    a : Agrees b.orders s p (level b p s)
    a = c.agrees s p r

    first :
        (xs : List ℕ)
        → ((id : ℕ) → occurs id xs ≡ listed_if s p (OrderMap.find b.orders id))
        → ids (level b p s) ≡ xs
        → (id : ℕ) × (snap : List ℕ) × (o : OrderEntry) × (take max_orders (order_ids_at b p s)
            ≡ id ∷ snap)
          × (find_order b id ≡ some o)
    first [] listed e =
        let (k, v, f, w) = total-pos (quantity_if s p) b.orders c.map (omega (arith, a.sum, pos)) in
        absurd (ground (arith, listed k, f, w))
    first (x ∷ xs) listed e = elim (Option-cases (OrderMap.find b.orders x)) [
      | inl f ↦ absurd (ground (arith, listed x, f))
      | inr (o, f) ↦ (x, take 15 xs, o, ground (arith, ap (take max_orders) e), f)
    ]

-- If the aggressor crosses, the best opposite price is a level with quantity.
pub crosses-live :
    (b : OrderBook) (side : Side) (price : ℕ)
    → IsBook b
    → crosses b side price ≡ true
    → InRange (best_opposite b side) × (0 < quantity_of b (opposite side) (best_opposite b side))
unfolding crosses best_opposite has_ask has_bid
crosses-live b bid price v h = ground (arith, v.best.asks.bound, v.best.asks.live)
crosses-live b ask price v h = ground (arith, v.best.bids.bound, v.best.bids.live)

pub match_round-Kept :
    (e : Event) (s : Progress) → s.remaining < u64_mod → IsBook s.book → Kept s (match_round e s)
unfolding match_round
match_round-Kept e s small v = fill_level-Kept e _ _ s small v

match_round_progress :
    (e : Event) (s : Progress)
    → 0 < s.remaining
    → s.remaining < u64_mod
    → IsBook s.book
    → crosses s.book (event_side e) e.price ≡ true
    → let t = match_round e s in
      (t.stp_hit ≡ true) ⊎ (t.remaining ≡ 0) ⊎ (t.book.orders.count < s.book.orders.count)
unfolding match_round
match_round_progress e s pos small v c =
    let side = event_side e in
    let (r, live) = crosses-live s.book side e.price v c in
    let (id, snap, o, first, found) =
      first_order s.book (opposite side) (best_opposite s.book side) v.consistent r live in
    rw first (fill_level_progress e (best_opposite s.book side) id snap s o pos small v found)

pub picked {ℓ} :
    {A : Type ℓ} (b : Bool) (x y : A) → b ≡ true → (elim b [ true ↦ x | false ↦ y ]) ≡ x
picked true x y h = refl
picked false x y h = ground arith

pub skipped {ℓ} :
    {A : Type ℓ} (b : Bool) (x y : A) → b ≡ false → (elim b [ true ↦ x | false ↦ y ]) ≡ y
skipped true x y h = ground arith
skipped false x y h = refl

-- Why the loop ended.
abbrev pub IsDone : Event → Progress → Type 0
IsDone e t =
    (t.stp_hit ≡ true) ⊎ (t.remaining ≡ 0) ⊎ (crosses t.book (event_side e) e.price ≡ false)

match_loop_done :
    (fuel : ℕ) (e : Event) (s : Progress)
    → 0 < fuel
    → s.remaining ≡ 0
    → match_loop fuel e s ≡ some s
unfolding match_loop
match_loop_done zero e s h z = absurd (omega arith)
match_loop_done (suc fuel) e s h z = rw z

stopped :
    (e : Event) (s : Progress)
    → (ltb 0 s.remaining && crosses s.book (event_side e) e.price) ≡ false
    → IsDone e s
stopped e s h = elim (ℕ_discrete s.remaining 0) [
  | yes z ↦ inr (inl z)
  | no n ↦ inr (inr (ground arith))
]

-- From a book in order, with a 64-bit quantity left and fuel for one round per resting order and
-- two more, the matching loop returns; it leaves the book in order with quotes that only moved
-- apart, levels that only shrank and as much resting quantity less as the aggressor lost; and it
-- ended since STP was hit, nothing was left, or the best opposite price does not cross.
pub match_loop-IsDone :
    (fuel : ℕ) (e : Event) (s : Progress)
    → s.remaining < u64_mod
    → IsBook s.book
    → s.book.orders.count + 2 ≤ fuel
    → (t : Progress) × (match_loop fuel e s ≡ some t) × Kept s t × IsDone e t
unfolding match_loop
match_loop-IsDone zero e s small v enough = absurd (omega arith)
match_loop-IsDone (suc fuel) e s small v enough =
    elim (Bool-cases (ltb 0 s.remaining && crosses s.book (event_side e) e.price)) [
      | inr stop ↦ (s, rw (match_loop, stop) refl, Kept-refl s v, stopped e s stop)
      | inl go ↦
          let s' = match_round e s in
          let k = match_round-Kept e s small v in
          elim (Bool-cases s'.stp_hit) [
            | inl hit ↦ (s', rw (match_loop, go) (picked s'.stp_hit _ _ hit), k, inl hit)
            | inr on ↦ elim (ℕ_discrete s'.remaining 0) [
              | yes z ↦ (
                s',
                rw (match_loop, go)
                    (skipped s'.stp_hit _ _ on ∙ match_loop_done fuel e s' (omega arith) z),
                k,
                inr (inl z),
              )
              | no more ↦
                  let (t, run, kept, done) =
                    match_loop-IsDone fuel e s' (omega (arith, k.left)) k.book
                      (fewer s' on more (ground (arith, match_round_progress e s, go))) in
                  (
                    t,
                    rw (match_loop, go) (skipped s'.stp_hit _ _ on ∙ run),
                    Kept-trans s s' t k kept,
                    done,
                  )
            ]
          ]
    ]
  where
    fewer :
        (s' : Progress)
        → s'.stp_hit ≡ false
        → s'.remaining ≢ 0
        → (s'.stp_hit ≡ true) ⊎ (s'.remaining ≡ 0) ⊎ (s'.book.orders.count < s.book.orders.count)
        → s'.book.orders.count + 2 ≤ fuel
    fewer s' on more p = ground arith
