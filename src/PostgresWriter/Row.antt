-- ===== src/PostgresWriter/Row.antt =====
-- The row that engine/persistence/PostgresWriter.cpp inserts for a trade.
use mathlib.Core.List.{append-nil}
use event_driven_trading_sys.Base.{
  ℕ, ◌^◌, ◌<◌, ◌≡◌, refl, sym, ◌∙◌, ap, List, [], ◌∷◌, map, Option, none, some, take, get_elem?,
  arith,
}
use event_driven_trading_sys.Text.{decimal, scan_unsigned}
use event_driven_trading_sys.Text.Decimal.{scan_unsigned-decimal}
use event_driven_trading_sys.Events.{Event, Side, bid, ask, event_side, side_code}
use event_driven_trading_sys.PostgresWriter.{trade_statement, write_trade_cmd}

abbrev whole : Option (ℕ × List ℕ) → Option ℕ
whole (some (n, [])) = some n
whole _ = none

-- The number that a text is in full.
abbrev pub read_number : List ℕ → Option ℕ
read_number s = whole (scan_unsigned 64 s)

read_number-decimal : (n : ℕ) → n < 2 ^ 64 → read_number (decimal n) ≡ some n
read_number-decimal n h =
    ap read_number (sym (append-nil (decimal n)))
    ∙ ap whole (scan_unsigned-decimal 64 n [] h (omega arith) tt)

side_code-small : (s : Side) → side_code s < 2 ^ 64
side_code-small bid = omega arith
side_code-small ask = omega arith

-- For an event whose fields are in their ranges, the first six parameters of the statement that
-- `write_trade` leads to are read as numbers to be its timestamp, symbol, order id, price,
-- quantity and side, and the seventh is the run's id.
pub trade_statement-write_trade_cmd :
    (e : Event) (run_id : List ℕ)
    → e.timestamp < 2 ^ 64
    → e.symbol_id < 2 ^ 32
    → e.order_id < 2 ^ 64
    → e.price < 2 ^ 64
    → e.quantity < 2 ^ 64
    → let params = (trade_statement (write_trade_cmd e run_id)).params in
      (map read_number (take 6 params)
        ≡ some e.timestamp
          ∷ some e.symbol_id
          ∷ some e.order_id
          ∷ some e.price
          ∷ some e.quantity
          ∷ some (side_code (event_side e))
          ∷ [])
      × (get_elem? params 6 ≡ some run_id)
unfolding trade_statement write_trade_cmd
trade_statement-write_trade_cmd e run_id ht hs ho hp hq = (
  six (read_number-decimal e.timestamp ht) (read_number-decimal e.symbol_id (omega arith))
      (read_number-decimal e.order_id ho) (read_number-decimal e.price hp)
      (read_number-decimal e.quantity hq)
      (read_number-decimal (side_code (event_side e)) (side_code-small (event_side e))),
  refl,
)
  where
    six :
        {a b c d f g a' b' c' d' f' g' : Option ℕ}
        → a ≡ a'
        → b ≡ b'
        → c ≡ c'
        → d ≡ d'
        → f ≡ f'
        → g ≡ g'
        → a ∷ b ∷ c ∷ d ∷ f ∷ g ∷ [] ≡ a' ∷ b' ∷ c' ∷ d' ∷ f' ∷ g' ∷ []
    six p q r s t u = λ i. p i ∷ q i ∷ r i ∷ s i ∷ t i ∷ u i ∷ []
