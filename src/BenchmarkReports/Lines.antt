-- ===== src/BenchmarkReports/Lines.antt =====
-- The texts that `save_json` of benchmarks/BenchmarkRunner.cpp writes, line by line.
use Prim.Native.String.{String}
use event_driven_trading_sys.Base.{
  ℕ, ◌+◌, ◌≡◌, refl, ◌∙◌, ap, zero, suc, ◌/◌, ◌%◌, ltb, inl, inr, true, false, not, ◌&&◌, Bool,
  ◌==◌, List, [], ◌∷◌, ◌++◌, arith, Bool-cases,
}
use event_driven_trading_sys.Text.{codes, decimal, decimal_digits, comma}
use event_driven_trading_sys.BenchmarkReports.{
  quote, newline, unlines, lines_of, quoted, json_line, before_comma, add_to_line,
}

-- A text on one line.
abbrev pub IsLine : List ℕ → Type 0
IsLine [] = Unit
IsLine (c ∷ s) = ((c == newline) ≡ false) × IsLine s

abbrev pub AreLines : List (List ℕ) → Type 0
AreLines [] = Unit
AreLines (l ∷ ls) = IsLine l × AreLines ls

lines_of-line : (l s : List ℕ) → IsLine l → lines_of (l ++ (newline ∷ s)) ≡ l ∷ lines_of s
unfolding lines_of
lines_of-line [] s h = refl
lines_of-line (c ∷ l) s (h, k) = rw h (ap (add_to_line c) (lines_of-line l s k))

pub lines_of-unlines : (ls : List (List ℕ)) → AreLines ls → lines_of (unlines ls) ≡ ls
unfolding lines_of unlines
lines_of-unlines [] h = refl
lines_of-unlines (l ∷ ls) (h, k) =
    lines_of-line l (unlines ls) h ∙ ap (◌∷◌ l) (lines_of-unlines ls k)

IsLine-append : (s t : List ℕ) → IsLine s → IsLine t → IsLine (s ++ t)
IsLine-append [] t h k = k
IsLine-append (c ∷ s) t (h, hs) k = (h, IsLine-append s t hs k)

decimal_digits-IsLine : (f n : ℕ) → IsLine (decimal_digits f n)
unfolding decimal_digits
decimal_digits-IsLine zero n = tt
decimal_digits-IsLine (suc f) n = elim (Bool-cases (ltb n 10)) [
  | inl short ↦ rw short (ground arith, tt)
  | inr long ↦ rw long (
      IsLine-append (decimal_digits f (n / 10)) ((48 + n % 10) ∷ [])
        (decimal_digits-IsLine f (n / 10)) (ground arith, tt))
]

pub decimal-IsLine : (n : ℕ) → IsLine (decimal n)
unfolding decimal
decimal-IsLine n = decimal_digits-IsLine 20 n

before_comma-IsLine : (s : List ℕ) → IsLine s → IsLine (before_comma s)
before_comma-IsLine s h = IsLine-append s (comma ∷ []) h (refl, tt)

pub quoted-IsLine : (s : List ℕ) → IsLine s → IsLine (quoted s)
quoted-IsLine s h = (refl, IsLine-append s (quote ∷ []) h (refl, tt))

unfoldable pub is_line : List ℕ → Bool
is_line [] = true
is_line (c ∷ s) = not (c == newline) && is_line s

pub is_line-IsLine : (s : List ℕ) → is_line s ≡ true → IsLine s
unfolding is_line
is_line-IsLine [] h = tt
is_line-IsLine (c ∷ s) h = (ground (arith, h), is_line-IsLine s (ground (arith, h)))

pub AreLines-append : (ks ls : List (List ℕ)) → AreLines ks → AreLines ls → AreLines (ks ++ ls)
AreLines-append [] ls h k = k
AreLines-append (l ∷ ks) ls (h, hs) k = (h, AreLines-append ks ls hs k)

-- A line of the report, with a key and a value on one line.
pub field-IsLine :
    (key : String) (value : List ℕ)
    → is_line (codes key) ≡ true
    → IsLine value
    → IsLine (json_line key value)
field-IsLine key value h k = (
  refl,
  (
    refl,
    IsLine-append (quoted (codes key)) (58 ∷ (32 ∷ value))
        (quoted-IsLine (codes key) (is_line-IsLine (codes key) h)) (refl, (refl, k)),
  ),
)

pub text-IsLine :
    (key : String) (value : List ℕ)
    → is_line (codes key) ≡ true
    → IsLine value
    → IsLine (json_line key (before_comma value))
text-IsLine key value h k = field-IsLine key (before_comma value) h (before_comma-IsLine value k)

pub number-IsLine :
    (key : String) (n : ℕ)
    → is_line (codes key) ≡ true
    → IsLine (json_line key (before_comma (decimal n)))
number-IsLine key n h = text-IsLine key (decimal n) h (decimal-IsLine n)
