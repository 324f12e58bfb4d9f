-- ===== src/Matching/Loop.antt =====
-- The loops of `MatchingEngine::process_new_order` (engine/matching/MatchingEngine.cpp): what one
-- fill, one level and the whole loop keep, and that each round makes progress.
use event_driven_trading_sys.Base.{
  ℕ, ◌+◌, ◌≤◌, ◌<◌, ◌≡◌, refl, ◌∙◌, ap, ◌⊎◌, inl, inr, true, false, ◌==◌, min, some, arith, u64_mod,
  Bool-cases, Option-cases, dec_lt, List, [], ◌∷◌,
}
use event_driven_trading_sys.Events.{Event}
use event_driven_trading_sys.OrderBook.{OrderEntry, find_order}
use event_driven_trading_sys.OrderBook.Ops.{IsBook, reduce-IsBook}
use event_driven_trading_sys.OrderBook.Widen.{Widens, reduce-Widens, reduce_all}
use event_driven_trading_sys.OrderBook.Shrink.{
  Shrinks, IsWithin-refl, IsWithin-trans, reduce-Shrinks,
}
use event_driven_trading_sys.OrderBook.Supply.{supply, supply-reduce}
use event_driven_trading_sys.Matching.{Progress, fill, fill_level, stop_self_trade, is_self_trade}

-- What the loops keep: a book in order, quotes that only widen, and fewer orders and quantity.
pub record Kept (s t : Progress) : Type 0 where
  pub book : IsBook t.book
  pub quotes : Widens s.book t.book
  pub count : t.book.orders.count ≤ s.book.orders.count
  pub levels : Shrinks s.book t.book
  pub supplied : supply t.book + s.remaining ≡ supply s.book + t.remaining
  pub left : t.remaining ≤ s.remaining

pub Kept-refl : (s : Progress) → IsBook s.book → Kept s s
Kept-refl s v = record {
  book = v;
  quotes = record { bids = omega arith; asks = omega arith };
  levels = λ p q r. IsWithin-refl _;
  supplied = refl;
  count = omega arith;
  left = omega arith;
}

pub Kept-trans : (s t u : Progress) → Kept s t → Kept t u → Kept s u
Kept-trans s t u k l = record {
  book = l.book;
  quotes = record {
    bids = omega (arith, k.quotes.bids, l.quotes.bids);
    asks = omega (arith, k.quotes.asks, l.quotes.asks);
  };
  count = omega (arith, k.count, l.count);
  levels = λ p q r. IsWithin-trans _ _ _ (l.levels p q r) (k.levels p q r);
  supplied = omega (arith, k.supplied, l.supplied);
  left = omega (arith, k.left, l.left);
}

pub fill-Kept :
    (e : Event) (p : ℕ) (s : Progress) (id : ℕ) (o : OrderEntry)
    → s.remaining < u64_mod
    → IsBook s.book
    → find_order s.book id ≡ some o
    → Kept s (fill e p s id o)
unfolding fill find_order
fill-Kept e p s id o small v found = record {
  book = reduce-IsBook s.book id (min s.remaining o.quantity) v;
  quotes = (reduce-Widens s.book id (min s.remaining o.quantity) v.consistent).0;
  count = (reduce-Widens s.book id (min s.remaining o.quantity) v.consistent).1;
  supplied = omega (
    arith,
    supply-reduce s.book id (min s.remaining o.quantity) o v.consistent found (omega arith),
  );
  levels = reduce-Shrinks s.book id (min s.remaining o.quantity) v.consistent;
  left = omega arith;
}

-- A fill uses up the aggressor or removes the resting order.
fill_progress :
    (e : Event) (p : ℕ) (s : Progress) (id : ℕ) (o : OrderEntry)
    → s.remaining < u64_mod
    → IsBook s.book
    → find_order s.book id ≡ some o
    → ((fill e p s id o).remaining ≡ 0)
      ⊎ ((fill e p s id o).book.orders.count < s.book.orders.count)
unfolding fill find_order
fill_progress e p s id o small v found = elim (dec_lt s.remaining o.quantity) [
  | yes h ↦ inl (omega arith)
  | no h ↦ inr (
      omega (
        arith,
        reduce_all s.book id (min s.remaining o.quantity) o v.consistent found (omega arith),
      ))
]

stopped-Kept : (e : Event) (s : Progress) → IsBook s.book → Kept s (stop_self_trade e s)
unfolding stop_self_trade
stopped-Kept e s v = record {
  book = v;
  quotes = record { bids = omega arith; asks = omega arith };
  levels = λ p q r. IsWithin-refl _;
  supplied = refl;
  count = omega arith;
  left = omega arith;
}

pub fill_level-Kept :
    (e : Event) (p : ℕ) (snap : List ℕ) (s : Progress)
    → s.remaining < u64_mod
    → IsBook s.book
    → Kept s (fill_level e p snap s)
unfolding fill_level
fill_level-Kept e p [] s small v = Kept-refl s v
fill_level-Kept e p (id ∷ snap) s small v = elim (Bool-cases (s.remaining == 0)) [
  | inl z ↦ rw (fill_level, z) (Kept-refl s v)
  | inr z ↦ elim (Option-cases (find_order s.book id)) [
    | inl f ↦ rw (fill_level, z, f) (fill_level-Kept e p snap s small v)
    | inr (o, f) ↦ elim (Bool-cases (is_self_trade e.order_id id)) [
      | inl t ↦ rw (fill_level, z, f, t) (stopped-Kept e s v)
      | inr t ↦
          let k = fill-Kept e p s id o small v f in
          rw (fill_level, z, f, t)
            (Kept-trans s (fill e p s id o) _ k
              (fill_level-Kept e p snap (fill e p s id o) (omega (arith, k.left)) k.book))
    ]
  ]
]

pub fill_level_done :
    (e : Event) (p : ℕ) (snap : List ℕ) (s : Progress) → s.remaining ≡ 0 → fill_level e p snap s ≡ s
unfolding fill_level
fill_level_done e p [] s z = refl
fill_level_done e p (id ∷ snap) s z = rw z

-- A level whose first id is an order makes progress.
pub fill_level_progress :
    (e : Event) (p id : ℕ) (snap : List ℕ) (s : Progress) (o : OrderEntry)
    → 0 < s.remaining
    → s.remaining < u64_mod
    → IsBook s.book
    → find_order s.book id ≡ some o
    → let t = fill_level e p (id ∷ snap) s in
      (t.stp_hit ≡ true) ⊎ (t.remaining ≡ 0) ⊎ (t.book.orders.count < s.book.orders.count)
unfolding fill_level stop_self_trade
fill_level_progress e p id snap s o pos small v found =
    elim (Bool-cases (is_self_trade e.order_id id)) [
      | inl t ↦ rw (fill_level, positive, found, t) (inl refl)
      | inr t ↦
          rw (fill_level, positive, found, t)
            (elim (fill_progress e p s id o small v found) [
              | inl done ↦ inr (
                  inl (
                    ap (λ u. u.remaining) (fill_level_done e p snap (fill e p s id o) done) ∙ done))
              | inr fewer ↦ inr (
                  inr (
                    omega (
                      arith,
                      fewer,
                      (fill_level-Kept e p snap (fill e p s id o) (omega (arith, k.left))
                          k.book).count,
                    )))
            ])
    ]
  where
    positive : (s.remaining == 0) ≡ false
    positive = ground arith

    k : Kept s (fill e p s id o)
    k = fill-Kept e p s id o small v found
