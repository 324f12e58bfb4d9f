-- ===== src/FileReplay/Rows.antt =====
-- The rows of engine/replay/SequentialReplayController.cpp: a row that is written out is read back.
use mathlib.Core.List.{append_assoc}
use event_driven_trading_sys.Base.{
  ℕ, ◌+◌, ◌%◌, ◌^◌, ◌≤◌, ◌<◌, ◌≡◌, refl, sym, ◌∙◌, ap, true, false, ◌==◌, ltb, if◌then◌else◌, List,
  [], ◌∷◌, ◌++◌, some, arith,
}
use event_driven_trading_sys.Events.{
  Event, Side, bid, ask, zero_event, encode_type, side_code, side_of_bit,
}
use event_driven_trading_sys.Text.{decimal, comma, scan_fields, is_digit}
use event_driven_trading_sys.Text.Decimal.{scan_unsigned-decimal, decimal-Digits}
use event_driven_trading_sys.FileReplay.{
  field_widths, event_of_fields, parse_line, strip_return, parse_row, read_line,
}

-- What the file format says of an event.
pub record Row : Type 0 where
  pub timestamp : ℕ
  pub symbol_id : ℕ
  pub kind : ℕ
  pub price : ℕ
  pub quantity : ℕ
  pub order_id : ℕ
  pub side : Side

abbrev pub row_event : Row → Event
row_event r = record zero_event {
  timestamp = r.timestamp;
  symbol_id = r.symbol_id;
  type = encode_type r.kind r.side;
  price = r.price;
  quantity = r.quantity;
  order_id = r.order_id;
}

pub record IsRow (r : Row) : Type 0 where
  pub timestamp_range : r.timestamp < 2 ^ 64
  pub symbol_range : r.symbol_id < 2 ^ 32
  pub kind_least : 1 ≤ r.kind
  pub kind_most : r.kind ≤ 5
  pub price_range : r.price < 2 ^ 64
  pub quantity_range : r.quantity < 2 ^ 64
  pub order_range : r.order_id < 2 ^ 64

-- The first six fields, each with the comma behind it, and the side.
unfoldable pub six_fields : Row → List ℕ → List ℕ
six_fields r s =
    decimal r.timestamp
    ++ (comma
        ∷ (decimal r.symbol_id
            ++ (comma
                ∷ (decimal r.kind
                    ++ (comma
                        ∷ (decimal r.price
                            ++ (comma
                                ∷ (decimal r.quantity
                                    ++ (comma ∷ (decimal r.order_id ++ (comma ∷ s)))))))))))

unfoldable pub print_row : Row → List ℕ
unfolding six_fields
print_row r = six_fields r ((48 + side_code r.side) ∷ [])

scan_field :
    (bits n : ℕ) (widths s : List ℕ)
    → n < 2 ^ bits
    → n < 10 ^ 20
    → scan_fields (bits ∷ widths) (decimal n ++ (comma ∷ s)) ≡ n ∷ scan_fields widths s
unfolding scan_fields
scan_field bits n widths s h k =
    rw (scan_unsigned-decimal bits n (comma ∷ s) h k refl, scan_fields) refl

scan_side : (side : Side) → scan_fields (32 ∷ []) ((48 + side_code side) ∷ []) ≡ side_code side ∷ []
unfolding scan_fields
scan_side bid = refl
scan_side ask = refl

scan_six :
    (r : Row) (s : List ℕ)
    → IsRow r
    → scan_fields field_widths (six_fields r s)
      ≡ r.timestamp
        ∷ r.symbol_id
        ∷ r.kind
        ∷ r.price
        ∷ r.quantity
        ∷ r.order_id
        ∷ scan_fields (32 ∷ []) s
unfolding six_fields
scan_six r s h =
    scan_field 64 r.timestamp _ _ h.timestamp_range (omega arith)
    ∙ ap (λ t. r.timestamp ∷ t)
        (scan_field 32 r.symbol_id _ _ h.symbol_range (omega arith)
          ∙ ap (λ t. r.symbol_id ∷ t)
              (scan_field 32 r.kind _ _ (omega arith) (omega arith)
                ∙ ap (λ t. r.kind ∷ t)
                    (scan_field 64 r.price _ _ h.price_range (omega arith)
                      ∙ ap (λ t. r.price ∷ t)
                          (scan_field 64 r.quantity _ _ h.quantity_range (omega arith)
                            ∙ ap (λ t. r.quantity ∷ t)
                                (scan_field 64 r.order_id _ _ h.order_range (omega arith))))))

side_of_side_code : (side : Side) → side_of_bit (side_code side % 2) ≡ side
side_of_side_code bid = refl
side_of_side_code ask = refl

event_of_row :
    (r : Row)
    → IsRow r
    → event_of_fields (
        r.timestamp
        ∷ r.symbol_id
        ∷ r.kind
        ∷ r.price
        ∷ r.quantity
        ∷ r.order_id
        ∷ side_code r.side
        ∷ [])
      ≡ some (row_event r)
unfolding event_of_fields
event_of_row r h =
    let least : ltb r.kind 1 ≡ false = ground arith in
    let most : ltb 5 r.kind ≡ false = ground arith in
    rw (least, most)
      (ap
        (λ side. some (record zero_event {
          timestamp = r.timestamp;
          symbol_id = r.symbol_id;
          type = encode_type r.kind side;
          price = r.price;
          quantity = r.quantity;
          order_id = r.order_id;
        }))
        (side_of_side_code r.side))

parse_line-print_row : (r : Row) → IsRow r → parse_line (print_row r) ≡ some (row_event r)
unfolding parse_line print_row
parse_line-print_row r h =
    ap event_of_fields (
      scan_six r ((48 + side_code r.side) ∷ []) h
      ∙ ap (λ t. r.timestamp ∷ r.symbol_id ∷ r.kind ∷ r.price ∷ r.quantity ∷ r.order_id ∷ t)
          (scan_side r.side))
    ∙ event_of_row r h

strip_return-end :
    (s : List ℕ) (c : ℕ) → strip_return (s ++ (c ∷ [])) ≡ (if c == 13 then s else s ++ (c ∷ []))
unfolding strip_return
strip_return-end [] c = refl
strip_return-end (d ∷ []) c = ground arith
strip_return-end (d ∷ e ∷ s) c = ap (◌∷◌ d) (strip_return-end (e ∷ s) c) ∙ ground arith

six_fields-append : (r : Row) (s t : List ℕ) → six_fields r (s ++ t) ≡ six_fields r s ++ t
unfolding six_fields
six_fields-append r s t = simp append_assoc

strip_return-print_row : (r : Row) → strip_return (print_row r) ≡ print_row r
unfolding print_row
strip_return-print_row r =
    ap strip_return (six_fields-append r [] _)
    ∙ strip_return-end (six_fields r []) (48 + side_code r.side)
    ∙ not_return r.side
    ∙ sym (six_fields-append r [] _)
  where
    not_return :
        (side : Side)
        → (if 48 + side_code side == 13
            then six_fields r []
            else six_fields r [] ++ ((48 + side_code side) ∷ []))
          ≡ six_fields r [] ++ ((48 + side_code side) ∷ [])
    not_return bid = refl
    not_return ask = refl

parse_row-digit : (c : ℕ) (s : List ℕ) → is_digit c ≡ true → parse_row (c ∷ s) ≡ parse_line (c ∷ s)
parse_row-digit c s h = let comment : (c == 35) ≡ false = ground arith in rw (comment, h) refl

parse_row-print_row : (r : Row) → parse_row (print_row r) ≡ parse_line (print_row r)
unfolding print_row six_fields
parse_row-print_row r =
    let d = decimal-Digits r.timestamp in rw d.parts (parse_row-digit d.first _ d.digit)

-- The row that the file format has for an event, with an event type from 1 to 5 and fields in
-- their ranges, is read back by the loop over the lines as that event, with and without a carriage
-- return at its end.
pub read_line-print_row :
    (r : Row)
    → IsRow r
    → (read_line (print_row r) ≡ some (row_event r))
      × (read_line (print_row r ++ (13 ∷ [])) ≡ some (row_event r))
unfolding read_line
read_line-print_row r h =
    let parsed = parse_row-print_row r ∙ parse_line-print_row r h in
    (
      ap parse_row (strip_return-print_row r) ∙ parsed,
      ap parse_row (strip_return-end (print_row r) 13) ∙ parsed,
    )
