-- ===== src/SnapshotPublisher/Trades.antt =====
-- The recent trades of dashboard/websocket/SnapshotPublisher.hpp.
use mathlib.Core.List.{append-nil, append_assoc}
use event_driven_trading_sys.Base.{
  ℕ, zero, suc, ◌+◌, ◌-◌, ◌≤◌, ◌≡◌, refl, sym, ◌∙◌, ap, inl, inr, true, false, ltb, Bool-cases,
  List, [], ◌∷◌, ◌++◌, map, length, length-append, drop, arith,
}
use event_driven_trading_sys.Events.{Event}
use event_driven_trading_sys.SnapshotPublisher.{
  TradeEvent, EngineSnapshot, max_trades, trade_of, trim, push_trade,
}

-- The last entries of a list, at most as many as given.
abbrev pub last {ℓ} : {A : Type ℓ} → ℕ → List A → List A
last n xs = drop (length xs - n) xs

module _ {ℓ} {A : Type ℓ} where
  drop-nil : (n : ℕ) → drop {A = A} n [] ≡ []
  drop-nil zero = refl
  drop-nil (suc n) = refl

  drop-drop : (m n : ℕ) (xs : List A) → drop m (drop n xs) ≡ drop (m + n) xs
  drop-drop m zero xs = ap (λ k. drop k xs) (omega arith)
  drop-drop m (suc n) [] = drop-nil m ∙ sym (drop-nil (m + suc n))
  drop-drop m (suc n) (x ∷ xs) =
      drop-drop m n xs ∙ ap (λ k. drop k (x ∷ xs)) {x = suc (m + n)} (omega arith)

  drop-append_left : (k : ℕ) (xs ys : List A) → k ≤ length xs → drop k (xs ++ ys) ≡ drop k xs ++ ys
  drop-append_left zero xs ys h = refl
  drop-append_left (suc k) [] ys h = absurd (omega arith)
  drop-append_left (suc k) (x ∷ xs) ys h = drop-append_left k xs ys (omega arith)

  length-drop : (k : ℕ) (xs : List A) → length (drop k xs) ≡ length xs - k
  length-drop zero xs = omega arith
  length-drop (suc k) [] = omega arith
  length-drop (suc k) (x ∷ xs) = omega (arith, length-drop k xs)

  pub length-last : (n : ℕ) (xs : List A) → length (last n xs) ≤ n
  length-last n xs = omega (arith, length-drop (length xs - n) xs)

  -- What falls out of the window before more is appended falls out afterwards too.
  pub last-last_append : (n : ℕ) (xs ys : List A) → last n (last n xs ++ ys) ≡ last n (xs ++ ys)
  last-last_append n xs ys =
      let k = length xs - n in
      let m = length (drop k xs ++ ys) - n in
      let window = length-append (drop k xs) ys in
      ap (λ zs. drop m zs) (sym (drop-append_left k xs ys (omega arith)))
      ∙ drop-drop m k (xs ++ ys)
      ∙ ap (λ j. drop j (xs ++ ys))
          (omega (arith, length-append (drop k xs) ys, length-append xs ys, length-drop k xs))

trim_lem : (ts : List TradeEvent) → trim ts ≡ last max_trades ts
unfolding trim
trim_lem [] = refl
trim_lem (t ∷ ts) = elim (Bool-cases (ltb max_trades (length (t ∷ ts)))) [
  | inl e ↦ rw e (trim_lem ts ∙ ap (λ m. drop m (t ∷ ts)) (over (length ts) e))
  | inr e ↦ rw e (ap (λ m. drop m (t ∷ ts)) (fits (length (t ∷ ts)) e))
]
  where
    over : (n : ℕ) → ltb max_trades (suc n) ≡ true → suc (n - max_trades) ≡ suc n - max_trades
    over n e = ground arith

    fits : (n : ℕ) → ltb max_trades n ≡ false → 0 ≡ n - max_trades
    fits n e = ground arith

module _ {Float : Type 0} where
  -- Calls of `push_trade`, in order.
  abbrev pub push_trades : List Event → EngineSnapshot Float → EngineSnapshot Float
  push_trades [] snap = snap
  push_trades (e ∷ es) snap = push_trades es (push_trade e snap)

  -- From a snapshot with at most 50 recent trades, after any number of calls of `push_trade` the
  -- recent trades are the last 50 of the old ones and the pushed ones together, in order.
  pub recent_trades-push_trades :
      (es : List Event) (snap : EngineSnapshot Float)
      → length snap.recent_trades ≤ max_trades
      → (push_trades es snap).recent_trades
        ≡ last max_trades (snap.recent_trades ++ map trade_of es)
  unfolding push_trade
  recent_trades-push_trades [] snap h =
      let short : 0 ≡ length snap.recent_trades - max_trades = omega arith in
      ap (λ k. drop k snap.recent_trades) short
      ∙ ap (last max_trades) (sym (append-nil snap.recent_trades))
  recent_trades-push_trades (e ∷ es) snap h =
      let old = snap.recent_trades ++ (trade_of e ∷ []) in
      recent_trades-push_trades es (push_trade e snap)
        (rw (trim_lem old) (length-last max_trades old))
      ∙ ap (λ ts. last max_trades (ts ++ map trade_of es)) (trim_lem old)
      ∙ last-last_append max_trades old (map trade_of es)
      ∙ ap (last max_trades) (append_assoc snap.recent_trades (trade_of e ∷ []) (map trade_of es))
