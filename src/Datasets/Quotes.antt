-- ===== src/Datasets/Quotes.antt =====
-- The generated CSV, read back by the replay of files.
use native.Mathlib.Numerals.{add-one}
use event_driven_trading_sys.Base.{
  ℕ, zero, suc, ◌+◌, ◌-◌, ◌*◌, ◌%◌, ◌^◌, ◌≤◌, ◌<◌, ◌≡◌, refl, sym, subst, ◌∙◌, ap, inl, inr, ◌==◌,
  Bool-cases, ==_iff, List, [], ◌∷◌, some, length, arith,
}
use event_driven_trading_sys.Text.{decimal}
use event_driven_trading_sys.Events.{
  Event, Side, bid, ask, side_code, event_type, event_side, new_order,
}
use event_driven_trading_sys.Events.Codec.{event_type-encode_type}
use event_driven_trading_sys.FileReplay.{read_line}
use event_driven_trading_sys.FileReplay.Rows.{
  Row, print_row, row_event, six_fields, read_line-print_row,
}
use event_driven_trading_sys.FileReplay.Drain.{rows}
use event_driven_trading_sys.Datasets.{
  base_price, tick, symbol, write_csv_order, gen_csv_loop, gen_csv,
}

abbrev pub order_row : ℕ → ℕ → ℕ → ℕ → Side → Row
order_row ts oid price qty side = record {
  timestamp = ts;
  symbol_id = symbol;
  kind = new_order;
  price = price;
  quantity = qty;
  order_id = oid;
  side = side;
}

decimal-side_code : (s : Side) → decimal (side_code s) ≡ (48 + side_code s) ∷ []
unfolding decimal
decimal-side_code bid = refl
decimal-side_code ask = refl

write_csv_order-print_row :
    (ts oid price qty : ℕ) (side : Side)
    → write_csv_order ts oid price qty side ≡ print_row (order_row ts oid price qty side)
unfolding write_csv_order print_row
write_csv_order-print_row ts oid price qty side =
    ap (six_fields (order_row ts oid price qty side)) (decimal-side_code side)

-- Asks above the base price and bids at or below it, less than 100 ticks away.
abbrev pub IsQuote : Side → ℕ → Type 0
IsQuote ask price = (base_price < price) × (price < base_price + 100)
IsQuote bid price = (price ≤ base_price) × (base_price < price + 100)

-- New orders with ids that count up, at prices that cannot cross.
abbrev pub AllQuotes : ℕ → List Event → Type 0
AllQuotes oid [] = Unit
AllQuotes oid (e ∷ es) =
    (e.order_id ≡ oid)
    × (event_type e ≡ new_order)
    × IsQuote (event_side e) e.price
    × AllQuotes (suc oid) es

-- A line that is written for an order is read back as it.
pub read_line-write_csv_order :
    (ts oid price qty : ℕ) (side : Side)
    → ts < 2 ^ 64
    → oid < 2 ^ 64
    → price < 2 ^ 64
    → qty < 2 ^ 64
    → read_line (write_csv_order ts oid price qty side)
      ≡ some (row_event (order_row ts oid price qty side))
read_line-write_csv_order ts oid price qty side ht ho hp hq =
    ap read_line (write_csv_order-print_row ts oid price qty side)
    ∙ (read_line-print_row (order_row ts oid price qty side) (record {
      timestamp_range = ht;
      symbol_range = omega arith;
      kind_least = omega arith;
      kind_most = omega arith;
      price_range = hp;
      quantity_range = hq;
      order_range = ho;
    })).0

row-IsQuote :
    (ts oid price : ℕ) (side : Side) (es : List Event)
    → IsQuote side price
    → AllQuotes (suc oid) es
    → AllQuotes oid (row_event (order_row ts oid price 100 side) ∷ es)
row-IsQuote ts oid price side es h k =
    let read =
      event_type-encode_type (row_event (order_row ts oid price 100 side)) new_order side
        (omega arith) refl in
    (refl, read.0, subst (λ s. IsQuote s price) (sym read.1) h, k)

-- A line in front of lines that have been read.
one-AllQuotes :
    (n ts oid price : ℕ) (side : Side) (lines : List (List ℕ))
    → ts < 2 ^ 64
    → oid < 2 ^ 64
    → price < 2 ^ 64
    → IsQuote side price
    → (length (rows lines) ≡ n) × AllQuotes (oid + 1) (rows lines)
    → let all = rows (write_csv_order ts oid price 100 side ∷ lines) in
      (length all ≡ suc n) × AllQuotes oid all
one-AllQuotes n ts oid price side lines ht ho hp h k =
    let read = read_line-write_csv_order ts oid price 100 side ht ho hp (omega arith) in
    let next = subst (λ o. AllQuotes o (rows lines)) (add-one oid) k.1 in
    rw (read, rows) (ap suc k.0, row-IsQuote ts oid price side (rows lines) h next)

-- The rounds of the loop that are left.
rows-gen_csv_loop :
    (n i ts oid : ℕ)
    → oid ≡ i + 1
    → ts ≡ 1_000 + 100 * i
    → 1_000 + 100 * (i + n) < 2 ^ 64
    → (length (rows (gen_csv_loop n i ts oid)) ≡ n) × AllQuotes oid (rows (gen_csv_loop n i ts oid))
unfolding gen_csv_loop
rows-gen_csv_loop zero i ts oid e f h = (refl, tt)
rows-gen_csv_loop (suc n) i ts oid e f h =
    let lines = gen_csv_loop n (i + 1) (ts + 100) (oid + 1) in
    let rest =
      rows-gen_csv_loop n (i + 1) (ts + 100) (oid + 1) (omega arith) (omega arith)
        (omega (arith, h)) in
    let above = base_price + oid % 100 * tick in
    let below = base_price - oid % 100 * tick in
    elim (Bool-cases (i % 2 == 0)) [
      | inl even ↦
          let odd_id : i % 2 ≡ 0 = (==_iff (i % 2) 0).0 even in
          rw even (
            one-AllQuotes n ts oid above ask lines (omega (arith, h)) (omega (arith, h))
              (omega arith) (omega arith) rest)
      | inr odd ↦ rw odd (
          one-AllQuotes n ts oid below bid lines (omega (arith, h)) (omega (arith, h)) (omega arith)
            (omega arith) rest)
    ]

-- For timestamps that fit 64 bits, the replay of files reads from the CSV of `n` events that
-- `gen_csv` writes exactly `n` new orders, with ids that count up from 1, asks above the base
-- price and bids at or below it, all within 100 ticks: no two of them cross.
pub rows-gen_csv :
    (n : ℕ)
    → 1_000 + 100 * n < 2 ^ 64
    → (length (rows (gen_csv n)) ≡ n) × AllQuotes 1 (rows (gen_csv n))
unfolding gen_csv read_line
rows-gen_csv n h = rows-gen_csv_loop n 0 1_000 1 (omega arith) (omega arith) (omega (arith, h))
