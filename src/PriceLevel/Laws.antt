-- ===== src/PriceLevel/Laws.antt =====
-- The array of `PriceLevel` (engine/orderbook/OrderBook.hpp) as a FIFO list of ids.
use event_driven_trading_sys.Base.{
  ℕ, zero, suc, ◌+◌, ◌-◌, ◌≤◌, ◌<◌, ◌≡◌, refl, sym, ap, ◌∙◌, inl, inr, false, ◌==◌, if◌then◌else◌,
  List, [], ◌∷◌, ◌++◌, Option, none, some, arith, length, get_or, set, take, take-set, length-set,
  Bool-cases,
}
use mathlib.Core.Option
use native.Mathlib.Numerals.{add-one}
use event_driven_trading_sys.PriceLevel.{
  PriceLevel, max_orders, ids, push, index_loop, shift_loop, remove, remove_at,
}

-- A level's array has room for 16 ids and does not hold more.
pub record IsLevel (l : PriceLevel) : Type 0 where
  pub sized : length l.order_ids ≡ max_orders
  pub fits : l.count ≤ max_orders

-- The list without the first occurrence of an id.
abbrev pub remove_first : ℕ → List ℕ → List ℕ
remove_first id [] = []
remove_first id (x ∷ xs) = if x == id then xs else x ∷ remove_first id xs

-- How often an id stands in a list.
abbrev pub occurs : ℕ → List ℕ → ℕ
occurs id [] = 0
occurs id (x ∷ xs) = (if x == id then 1 else 0) + occurs id xs

pub occurs-append : (id : ℕ) (xs ys : List ℕ) → occurs id (xs ++ ys) ≡ occurs id xs + occurs id ys
occurs-append id [] ys = omega arith
occurs-append id (x ∷ xs) ys = omega (arith, occurs-append id xs ys)

pub occurs-remove_first :
    (id k : ℕ) (xs : List ℕ)
    → occurs id (remove_first k xs) ≡ (if k == id then occurs id xs - 1 else occurs id xs)
occurs-remove_first id k [] = ground arith
occurs-remove_first id k (x ∷ xs) = ground (arith, occurs-remove_first id k xs)

-- Both loops skip an element below their index.
index_loop-cons :
    (x : ℕ) (xs : List ℕ) (id n i : ℕ)
    → index_loop (x ∷ xs) id n (suc i) ≡ Option.map suc (index_loop xs id n i)
unfolding index_loop
index_loop-cons x xs id zero i = refl
index_loop-cons x xs id (suc n) i = ground (arith, index_loop-cons x xs id n (suc i))

shift_loop-cons :
    (x : ℕ) (xs : List ℕ) (count n j : ℕ)
    → shift_loop (x ∷ xs) (suc count) n (suc j) ≡ x ∷ shift_loop xs count n j
unfolding shift_loop
shift_loop-cons x xs count zero j = refl
shift_loop-cons x xs count (suc n) j =
    ground (arith, shift_loop-cons x (set xs j (get_or xs (suc j) 0)) count n (suc j))

-- Shifting from the front drops the front.
take-shift_loop :
    (xs : List ℕ) (x count n : ℕ)
    → count ≤ length xs
    → count ≤ n
    → take count (shift_loop (x ∷ xs) (suc count) n 0) ≡ take count xs
unfolding shift_loop
take-shift_loop xs x zero n h k = refl
take-shift_loop xs x (suc count) zero h k = absurd (omega arith)
take-shift_loop [] x (suc count) (suc n) h k = absurd (omega arith)
take-shift_loop (y ∷ xs) x (suc count) (suc n) h k =
    ground (arith, shift_loop-cons y (y ∷ xs) (suc count) n 0, take-shift_loop xs y count n)

Removes : List ℕ → ℕ → ℕ → ℕ → Option ℕ → Type 0
Removes xs id count n none = remove_first id (take count xs) ≡ take count xs
Removes xs id count n (some i) =
    (i < count) × (take (count - 1) (shift_loop xs count n i) ≡ remove_first id (take count xs))

Removes-cons :
    (x : ℕ) (xs : List ℕ) (id count n : ℕ) (o : Option ℕ)
    → (x == id) ≡ false
    → count ≤ n
    → Removes xs id count n o
    → Removes (x ∷ xs) id (suc count) n (Option.map suc o)
unfolding Removes
Removes-cons x xs id count n none ne k r = ground (arith, r)
Removes-cons x xs id zero n (some i) ne k r = absurd (omega arith)
Removes-cons x xs id (suc count) n (some i) ne k r =
    ground (arith, r, shift_loop-cons x xs (suc count) n i)

remove_loops :
    (xs : List ℕ) (id count n : ℕ)
    → count ≤ length xs
    → count ≤ n
    → Removes xs id count n (index_loop xs id count 0)
unfolding Removes index_loop
remove_loops xs id zero n h k = refl
remove_loops [] id (suc count) n h k = absurd (omega arith)
remove_loops (x ∷ xs) id (suc count) n h k = elim (Bool-cases (x == id)) [
  | inl e ↦ ground (arith, e, take-shift_loop xs x count n)
  | inr e ↦
      rw (e, index_loop-cons x xs id count 0)
        (Removes-cons x xs id count n (index_loop xs id count 0) e (omega arith)
          (remove_loops xs id count n (omega arith) (omega arith)))
]

length-shift_loop : (xs : List ℕ) (count n j : ℕ) → length (shift_loop xs count n j) ≡ length xs
unfolding shift_loop
length-shift_loop xs count zero j = refl
length-shift_loop xs count (suc n) j = ground (
  arith,
  length-set xs j (get_or xs (suc j) 0),
  length-shift_loop (set xs j (get_or xs (suc j) 0)) count n (suc j),
)

-- On a level's array with room, `push` appends the id to the list of the level's ids.
pub ids-push :
    (l : PriceLevel) (id : ℕ)
    → IsLevel l
    → l.count < max_orders
    → IsLevel (push l id).0 × (ids (push l id).0 ≡ ids l ++ (id ∷ []))
unfolding push ids
ids-push l id v h = ground (
  arith,
  length-set l.order_ids l.count id,
  take-set l.order_ids l.count id,
  ap (λ (n : ℕ). take n (set l.order_ids l.count id)) (add-one l.count),
)

-- On a level's array, `remove` drops the first occurrence of the id from the list of the level's
-- ids and keeps the order of the rest.
pub ids-remove :
    (l : PriceLevel) (id : ℕ)
    → IsLevel l
    → IsLevel (remove l id) × (ids (remove l id) ≡ remove_first id (ids l))
unfolding remove ids Removes
ids-remove l id v =
    found (index_loop l.order_ids id l.count 0)
      (remove_loops l.order_ids id l.count l.count (omega arith) (omega arith))
  where
    found :
        (o : Option ℕ)
        → Removes l.order_ids id l.count l.count o
        → IsLevel (remove_at l o) × (ids (remove_at l o) ≡ remove_first id (ids l))
    found none r = (v, sym r)
    found (some i) r = (
      record {
        sized = length-shift_loop l.order_ids l.count l.count i ∙ v.sized;
        fits = omega arith;
      },
      r.1,
    )

-- `push` and `remove` leave the quantity alone, and the quantity plays no part in the ids.
pub total_quantity-push :
    (l : PriceLevel) (id : ℕ) → (push l id).0.total_quantity ≡ l.total_quantity
unfolding push
total_quantity-push l id = ground arith

pub total_quantity-remove :
    (l : PriceLevel) (id : ℕ) → (remove l id).total_quantity ≡ l.total_quantity
unfolding remove
total_quantity-remove l id = ground arith

pub ids-total_quantity : (l : PriceLevel) (q : ℕ) → ids (record l { total_quantity = q }) ≡ ids l
unfolding ids
ids-total_quantity l q = refl

pub IsLevel-total_quantity :
    (l : PriceLevel) (q : ℕ) → IsLevel l → IsLevel (record l { total_quantity = q })
IsLevel-total_quantity l q v = record { sized = v.sized; fits = v.fits }

pub count-remove : (l : PriceLevel) (id : ℕ) → (remove l id).count ≤ l.count
unfolding remove
count-remove l id = ground arith
