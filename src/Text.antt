-- ===== src/Text.antt =====
-- Texts as lists of character codes, with what the program uses of the C and C++ libraries for them:
-- `std::string::find`, the decimal and hexadecimal output of `printf` and `std::to_string`, and the
-- unsigned conversions of `sscanf`.
pub mod Decimal
use Prim.Native.Char.{code}
use Prim.Native.String.{String}
use event_driven_trading_sys.Base.{
  ℕ, zero, suc, ◌+◌, ◌-◌, ◌*◌, ◌/◌, ◌%◌, ◌^◌, Bool, true, false, ◌&&◌, ◌||◌, ◌==◌, ltb, leb,
  if◌then◌else◌, List, [], ◌∷◌, ◌++◌, Option, none, some,
}

-- The codes of a literal.
abbrev pub codes : String → List ℕ
codes String.[] = []
codes (String.◌∷◌ c s) = code c ∷ codes s

unfoldable pub starts_with : List ℕ → List ℕ → Bool
starts_with [] s = true
starts_with (p ∷ ps) [] = false
starts_with (p ∷ ps) (c ∷ s) = p == c && starts_with ps s

abbrev pub shift : Option ℕ → Option ℕ
shift none = none
shift (some i) = some (suc i)

-- The first position, `none` for `npos`.
unfoldable pub find : List ℕ → List ℕ → Option ℕ
unfolding starts_with
find pattern_text [] = if starts_with pattern_text [] then some 0 else none
find pattern_text (c ∷ s) =
    if starts_with pattern_text (c ∷ s) then some 0 else shift (find pattern_text s)

-- The decimal digits of a number, at most as many as the fuel.
unfoldable pub decimal_digits : ℕ → ℕ → List ℕ
decimal_digits zero n = []
decimal_digits (suc f) n =
    let longer = decimal_digits f (n / 10) ++ ((48 + n % 10) ∷ []) in
    if ltb n 10 then ((48 + n) ∷ []) else longer

-- `%PRIu64`, `%u` and `std::to_string`: a 64-bit number has at most 20 digits.
unfoldable pub decimal : ℕ → List ℕ
unfolding decimal_digits
decimal n = decimal_digits 20 n

abbrev pub hex_digit : ℕ → ℕ
hex_digit d = if ltb d 10 then 48 + d else 87 + d

-- `%0<k>x` of a number below `16 ^ k`.
unfoldable pub hex : ℕ → ℕ → List ℕ
hex zero n = []
hex (suc k) n = hex k (n / 16) ++ (hex_digit (n % 16) ∷ [])

abbrev pub is_digit : ℕ → Bool
is_digit c = leb 48 c && leb c 57

-- `std::isspace` in the C locale.
abbrev pub is_space : ℕ → Bool
is_space c = c == 32 || (leb 9 c && leb c 13)

unfoldable pub skip_space : List ℕ → List ℕ
skip_space [] = []
skip_space (c ∷ s) = if is_space c then skip_space s else c ∷ s

-- The digits at the head of a text, read on from a value.
unfoldable pub scan_digits : ℕ → List ℕ → ℕ × List ℕ
scan_digits v [] = (v, [])
scan_digits v (c ∷ s) =
    let more = scan_digits (v * 10 + (c - 48)) s in if is_digit c then more else (v, c ∷ s)

-- At least one digit.
unfoldable pub scan_some_digits : List ℕ → Option (ℕ × List ℕ)
unfolding scan_digits
scan_some_digits [] = none
scan_some_digits (c ∷ s) = if is_digit c then some (scan_digits 0 (c ∷ s)) else none

abbrev pub negated : ℕ → Option (ℕ × List ℕ) → Option (ℕ × List ℕ)
negated m none = none
negated m (some (v, s)) = some ((m - v % m) % m, s)

abbrev pub reduced : ℕ → Option (ℕ × List ℕ) → Option (ℕ × List ℕ)
reduced m none = none
reduced m (some (v, s)) = some (v % m, s)

-- A number with its sign; a minus sign negates in the unsigned type.
unfoldable pub scan_signed : ℕ → List ℕ → Option (ℕ × List ℕ)
unfolding scan_some_digits
scan_signed m [] = none
scan_signed m (c ∷ s) =
    if c == 43
    then reduced m (scan_some_digits s)
    else if c == 45
    then negated m (scan_some_digits s)
    else reduced m (scan_some_digits (c ∷ s))

-- `%u` (32 bits) and `%SCNu64` (64 bits): white space is skipped. A value out of range, for which
-- the result is undefined, is reduced.
unfoldable pub scan_unsigned : ℕ → List ℕ → Option (ℕ × List ℕ)
unfolding scan_signed skip_space
scan_unsigned bits s = scan_signed (2 ^ bits) (skip_space s)

abbrev pub comma : ℕ
comma = 44

-- The text behind a comma.
abbrev pub after_comma : List ℕ → Option (List ℕ)
after_comma [] = none
after_comma (c ∷ s) = if c == comma then some s else none

-- `sscanf` of unsigned fields of the given widths with commas between them: the values stored.
unfoldable pub scan_fields : List ℕ → List ℕ → List ℕ
unfolding scan_unsigned
scan_fields [] s = []
scan_fields (bits ∷ widths) s = elim (scan_unsigned bits s) [
  | none ↦ []
  | some (v, rest) ↦ v ∷ elim (after_comma rest) [ none ↦ [] | some s' ↦ scan_fields widths s' ]
]

-- `sscanf` of plain characters: the text behind them.
unfoldable pub scan_literal : List ℕ → List ℕ → Option (List ℕ)
scan_literal [] s = some s
scan_literal (p ∷ ps) [] = none
scan_literal (p ∷ ps) (c ∷ s) = let more = scan_literal ps s in if p == c then more else none
