-- ===== src/Matching/Served.antt =====
-- The order in which resting orders are served: by price, then by their place in the queue of their
-- level. What one fill of engine/matching/MatchingEngine.cpp does to it.
use event_driven_trading_sys.Base.{
  ℕ, suc, ◌<◌, ◌≡◌, refl, sym, subst, ◌∙◌, ap, ◌≢◌, ◌⊎◌, inl, inr, true, false, Bool, ◌&&◌, ◌==◌,
  ltb, leb, if◌then◌else◌, List, [], ◌∷◌, none, some, arith, Bool-cases, ℕ_discrete, sub64,
  some-injective,
}
use event_driven_trading_sys.Events.{Side, bid, ask}
use event_driven_trading_sys.PriceLevel.{ids}
use event_driven_trading_sys.PriceLevel.Laws.{remove_first}
use event_driven_trading_sys.OrderBook.{OrderBook, OrderEntry, level, find_order, reduce}
use event_driven_trading_sys.OrderBook.Levels.{same_side}
use event_driven_trading_sys.OrderBook.Inv.{InRange, same_level}
use event_driven_trading_sys.OrderBook.Best.{IsBest, quantity_of}
use event_driven_trading_sys.OrderBook.Ops.{IsBook, quantity-le-level}
use event_driven_trading_sys.OrderBook.Taken.{Taken, left_of, reduce-Taken}

-- A price that is served before another: the higher bid, the lower ask.
abbrev pub is_better : Side → ℕ → ℕ → Bool
is_better bid p q = ltb q p
is_better ask p q = ltb p q

abbrev pub best_price : OrderBook → Side → ℕ
best_price b bid = b.best_bid
best_price b ask = b.best_ask

-- The place of an id in a queue.
abbrev pub position : ℕ → List ℕ → ℕ
position id [] = 0
position id (x ∷ xs) = if x == id then 0 else suc (position id xs)

abbrev pub queue_of : OrderBook → OrderEntry → List ℕ
queue_of b o = ids (level b o.price o.side)

-- The order `o` with the id `x` is ahead of the order `r` with the id `y`: on the same side, at a
-- better price, or at the same price and earlier in the queue.
abbrev pub IsAhead : OrderBook → ℕ → OrderEntry → ℕ → OrderEntry → Type 0
IsAhead b x o y r =
    (o.side ≡ r.side)
    × ((is_better o.side o.price r.price ≡ true)
        ⊎ ((o.price ≡ r.price) × (position x (queue_of b o) < position y (queue_of b o))))

-- From `b` to `c` orders only lose quantity, and none does while one ahead of it is left.
pub record Served (b c : OrderBook) : Type 0 where
  pub entries :
      (id : ℕ) (o : OrderEntry)
      → find_order b id ≡ some o
      → (find_order c id ≡ none) ⊎ ((q : ℕ) × (find_order c id ≡ some (record o { quantity = q })))
  pub gone : (id : ℕ) → find_order b id ≡ none → find_order c id ≡ none
  pub order :
      (x y : ℕ) (o r : OrderEntry)
      → find_order b x ≡ some o
      → find_order b y ≡ some r
      → IsAhead b x o y r
      → (find_order c x ≡ none) ⊎ ((find_order c y ≡ some r) × IsAhead c x o y r)

pub Served-refl : (b : OrderBook) → Served b b
Served-refl b = record {
  entries = λ id o f. inr (o.quantity, f);
  gone = λ id f. f;
  order = λ x y o r fx fy a. inr (fy, a);
}

pub Served-trans : (b c d : OrderBook) → Served b c → Served c d → Served b d
Served-trans b c d k l = record {
  entries = λ id o f. elim (k.entries id o f) [
    | inl n ↦ inl (l.gone id n)
    | inr (q, g) ↦ l.entries id (record o { quantity = q }) g
  ];
  gone = λ id f. l.gone id (k.gone id f);
  order = λ x y o r fx fy a. elim (k.order x y o r fx fy a) [
    | inl n ↦ inl (l.gone x n)
    | inr (fy', a') ↦ elim (k.entries x o fx) [
      | inl n ↦ inl (l.gone x n)
      | inr (q, fx') ↦ l.order x y (record o { quantity = q }) r fx' fy' a'
    ]
  ];
}

-- No order has a better price than the best one.
not-better :
    (b : OrderBook) (id : ℕ) (o : OrderEntry)
    → IsBook b
    → find_order b id ≡ some o
    → is_better o.side o.price (best_price b o.side) ≡ false
unfolding find_order
not-better b id o v f = at o.side refl
  where
    above : IsBest b
    above = v.best

    range : InRange o.price
    range = (v.consistent.entries id o f).in_range

    live : 0 < quantity_of b o.side o.price
    live =
        omega
          (arith, quantity-le-level b id o v.consistent f, (v.consistent.entries id o f).positive)

    at : (s : Side) → s ≡ o.side → is_better s o.price (best_price b s) ≡ false
    at bid e =
        ground (arith, above.bids.top o.price range, live, ap (λ t. quantity_of b t o.price) e)
    at ask e =
        ground (arith, above.asks.low o.price range, live, ap (λ t. quantity_of b t o.price) e)

same_order :
    (b : OrderBook) (x y : ℕ) (o r : OrderEntry)
    → x ≡ y
    → find_order b x ≡ some o
    → find_order b y ≡ some r
    → o ≡ r
same_order b x y o r e f g = some-injective o r (sym f ∙ ap (find_order b) e ∙ g)

position-cons_other : (x z : ℕ) (xs : List ℕ) → z ≢ x → position x (z ∷ xs) ≡ suc (position x xs)
position-cons_other x z xs ne = ground arith

better_chain :
    (s : Side) (p q best : ℕ)
    → is_better s p q ≡ true
    → is_better s best q ≡ false
    → is_better s p best ≡ true
better_chain bid p q best h k = ground arith
better_chain ask p q best h k = ground arith

pub and_right : (b c : Bool) → (b && c) ≡ true → c ≡ true
and_right true c h = h
and_right false c h = cc

-- A fill of the first order at the best price.
module _ (b : OrderBook) (z q : ℕ) (o : OrderEntry) (snap : List ℕ) (v : IsBook b)
    (found : find_order b z ≡ some o)
    (front : is_better o.side (best_price b o.side) o.price ≡ false)
    (queue : queue_of b o ≡ z ∷ snap) where
  abbrev after : OrderBook
  after = (reduce b z q).0

  taken : Taken b after z q o
  unfolding find_order
  taken = reduce-Taken b z q o v.consistent found

  untouched : (j : ℕ) → z ≢ j → find_order after j ≡ find_order b j
  unfolding find_order
  untouched j ne = ground (arith, taken.lookup j)

  filled : find_order after z ≡ left_of o q
  unfolding find_order
  filled = ground (arith, taken.lookup z)

  same_queue :
      (ox : OrderEntry) → ox.side ≡ o.side → ox.price ≡ o.price → queue_of b ox ≡ queue_of b o
  same_queue ox side price =
      ap (λ t. ids (level b ox.price t)) side ∙ ap (λ p. ids (level b p o.side)) price

  position_first : position z (z ∷ snap) ≡ 0
  position_first = ground arith

  removed_first : remove_first z (z ∷ snap) ≡ snap
  removed_first = ground arith

  -- Nothing is ahead of it.
  none_ahead : (x : ℕ) (ox : OrderEntry) → find_order b x ≡ some ox → IsAhead b x ox z o → ⊥
  none_ahead x ox fx (side, inl better) = cc (
    better_chain ox.side ox.price o.price (best_price b ox.side) better
        (subst (λ s. is_better s (best_price b s) o.price ≡ false) (sym side) front),
    not-better b x ox v fx,
  )
  none_ahead x ox fx (side, inr (price, before)) =
      omega (arith, before, ap (position z) (same_queue ox side price ∙ queue), position_first)

  shifted :
      (x y : ℕ) (xs : List ℕ)
      → xs ≡ z ∷ snap
      → z ≢ x
      → z ≢ y
      → position x xs < position y xs
      → position x (remove_first z xs) < position y (remove_first z xs)
  shifted x y xs e nx ny before =
      rw (e, removed_first)
        (omega (
          arith,
          before,
          ap (position x) e,
          ap (position y) e,
          position-cons_other x z snap nx,
          position-cons_other y z snap ny,
        ))

  -- Two other orders keep their places.
  places :
      (x y : ℕ) (ox : OrderEntry)
      → InRange ox.price
      → z ≢ x
      → z ≢ y
      → position x (queue_of b ox) < position y (queue_of b ox)
      → position x (queue_of after ox) < position y (queue_of after ox)
  places x y ox r nx ny before =
      rw (taken.queues ox.side ox.price r)
        (elim (Bool-cases (leb o.quantity q && (same_side o.side ox.side && o.price == ox.price))) [
          | inr h ↦ rw h before
          | inl h ↦
              let same = same_level o.side ox.side o.price ox.price (and_right _ _ h) in
              rw h (
                shifted x y (queue_of b ox) (same_queue ox (sym same.0) (sym same.1) ∙ queue) nx ny
                  before)
        ])

  stays-IsAhead :
      (x y : ℕ) (ox r : OrderEntry)
      → InRange ox.price
      → z ≢ x
      → z ≢ y
      → IsAhead b x ox y r
      → IsAhead after x ox y r
  stays-IsAhead x y ox r range nx ny (side, inl better) = (side, inl better)
  stays-IsAhead x y ox r range nx ny (side, inr (price, before)) =
      (side, inr (price, places x y ox range nx ny before))

  in_range : (x : ℕ) (ox : OrderEntry) → find_order b x ≡ some ox → InRange ox.price
  unfolding find_order
  in_range x ox fx = (v.consistent.entries x ox fx).in_range

  -- A partial fill leaves every queue as it is.
  same_places :
      (ox : OrderEntry)
      → InRange ox.price
      → leb o.quantity q ≡ false
      → queue_of after ox ≡ queue_of b ox
  same_places ox range part = taken.queues ox.side ox.price range ∙ rw part refl

  part-IsAhead :
      (x y : ℕ) (ox r : OrderEntry)
      → InRange ox.price
      → leb o.quantity q ≡ false
      → IsAhead b x ox y r
      → IsAhead after x ox y r
  part-IsAhead x y ox r range part (side, inl better) = (side, inl better)
  part-IsAhead x y ox r range part (side, inr (price, before)) =
      (side, inr (price, rw (same_places ox range part) before))

  kept-IsAhead :
      (x y : ℕ) (ox r : OrderEntry)
      → find_order b x ≡ some ox
      → find_order b y ≡ some r
      → IsAhead b x ox y r
      → (find_order after x ≡ none) ⊎ ((find_order after y ≡ some r) × IsAhead after x ox y r)
  kept-IsAhead x y ox r fx fy a = elim (ℕ_discrete z y) [
    | yes e ↦ absurd (
        none_ahead x ox fx (
          subst (λ s. IsAhead b x ox z s) (same_order b y z r o (sym e) fy found)
            (subst (λ n. IsAhead b x ox n r) (sym e) a)))
    | no ny ↦ elim (ℕ_discrete z x) [
      | no nx ↦ inr (untouched y ny ∙ fy, stays-IsAhead x y ox r (in_range x ox fx) nx ny a)
      | yes e ↦ elim (Bool-cases (leb o.quantity q)) [
        | inl all ↦ inl (ap (find_order after) (sym e) ∙ filled ∙ rw all refl)
        | inr part ↦ inr (untouched y ny ∙ fy, part-IsAhead x y ox r (in_range x ox fx) part a)
      ]
    ]
  ]

  kept_entry :
      (id : ℕ) (x : OrderEntry)
      → find_order b id ≡ some x
      → (find_order after id ≡ none)
        ⊎ ((n : ℕ) × (find_order after id ≡ some (record x { quantity = n })))
  kept_entry id x f = elim (ℕ_discrete z id) [
    | no ne ↦ inr (x.quantity, untouched id ne ∙ f)
    | yes e ↦ elim (Bool-cases (leb o.quantity q)) [
      | inl all ↦ inl (ap (find_order after) (sym e) ∙ filled ∙ rw all refl)
      | inr part ↦ inr (
        sub64 o.quantity q,
        ap (find_order after) (sym e)
            ∙ filled
            ∙ rw part (
                ap (λ (y : OrderEntry). some (record y { quantity = sub64 o.quantity q }))
                  (same_order b z id o x e found f)),
      )
    ]
  ]

  -- The first order at the best price is served first.
  pub reduce-Served : Served b after
  reduce-Served = record {
    entries = kept_entry;
    gone = λ id f. elim (ℕ_discrete z id) [
      | no ne ↦ untouched id ne ∙ f
      | yes e ↦ cc (ap (find_order b) e, found, f)
    ];
    order = kept-IsAhead;
  }
