-- ===== src/Text/Decimal.antt =====
-- A number that is printed in decimal is read back by `sscanf`.
use native.Mathlib.Nat.{pow-suc, mod-eq_of_lt}
use mathlib.Core.List.{append_assoc}
use event_driven_trading_sys.Base.{
  ℕ, zero, suc, ◌+◌, ◌/◌, ◌%◌, ◌^◌, ◌<◌, ◌≡◌, refl, sym, ◌∙◌, ap, inl, inr, true, false, ◌==◌, ltb,
  Bool-cases, List, [], ◌∷◌, ◌++◌, some, arith,
}
use event_driven_trading_sys.Text.{
  decimal_digits, decimal, is_digit, is_space, scan_digits, scan_some_digits, scan_signed,
  scan_unsigned, skip_space,
}

scan_digits-decimal_digits :
    (f n : ℕ) (s : List ℕ) → n < 10 ^ f → scan_digits 0 (decimal_digits f n ++ s) ≡ scan_digits n s
unfolding decimal_digits scan_digits
scan_digits-decimal_digits zero zero s h = refl
scan_digits-decimal_digits zero (suc n) s h = absurd (omega arith)
scan_digits-decimal_digits (suc f) n s h = elim (Bool-cases (ltb n 10)) [
  | inl short ↦ rw short (ground arith)
  | inr long ↦ rw long (
      ap (scan_digits 0) (append_assoc (decimal_digits f (n / 10)) ((48 + n % 10) ∷ []) s)
      ∙ scan_digits-decimal_digits f (n / 10) ((48 + n % 10) ∷ s) (omega (arith, pow-suc 10 f))
      ∙ ground arith)
]

-- The text does not go on with a digit.
abbrev pub EndsNumber : List ℕ → Type 0
EndsNumber [] = Unit
EndsNumber (c ∷ s) = is_digit c ≡ false

scan_digits-end : (v : ℕ) (s : List ℕ) → EndsNumber s → scan_digits v s ≡ (v, s)
unfolding scan_digits
scan_digits-end v [] h = refl
scan_digits-end v (c ∷ s) h = rw h

-- The first digit apart from the others.
pub record Digits (s : List ℕ) : Type 0 where
  pub first : ℕ
  pub rest : List ℕ
  pub parts : s ≡ first ∷ rest
  pub digit : is_digit first ≡ true

decimal_digits-Digits : (f n : ℕ) → Digits (decimal_digits (suc f) n)
unfolding decimal_digits
decimal_digits-Digits zero n = elim (Bool-cases (ltb n 10)) [
  | inl short ↦ record { first = 48 + n; rest = []; parts = rw short; digit = ground arith }
  | inr long ↦ record { first = 48 + n % 10; rest = []; parts = rw long; digit = ground arith }
]
decimal_digits-Digits (suc f) n = elim (Bool-cases (ltb n 10)) [
  | inl short ↦ record { first = 48 + n; rest = []; parts = rw short; digit = ground arith }
  | inr long ↦
      let d = decimal_digits-Digits f (n / 10) in
      record {
        first = d.first;
        rest = d.rest ++ ((48 + n % 10) ∷ []);
        parts = rw long (ap (λ t. t ++ ((48 + n % 10) ∷ [])) d.parts);
        digit = d.digit;
      }
]

pub decimal-Digits : (n : ℕ) → Digits (decimal n)
unfolding decimal
decimal-Digits n = decimal_digits-Digits 19 n

-- From a digit on, the scan goes straight to the digits.
scan_unsigned-digit :
    (bits c : ℕ) (s : List ℕ) (v : ℕ) (rest : List ℕ)
    → is_digit c ≡ true
    → v < 2 ^ bits
    → scan_digits 0 (c ∷ s) ≡ (v, rest)
    → scan_unsigned bits (c ∷ s) ≡ some (v, rest)
unfolding scan_unsigned scan_signed skip_space scan_some_digits
scan_unsigned-digit bits c s v rest d h e =
    let space : is_space c ≡ false = ground arith in
    let plus : (c == 43) ≡ false = ground arith in
    let minus : (c == 45) ≡ false = ground arith in
    rw (space, scan_signed, plus, minus, scan_some_digits, d)
      (ap (λ (p : ℕ × List ℕ). some (p.0 % 2 ^ bits, p.1)) (rw d at e)
        ∙ ap (λ w. some (w, rest)) (mod-eq_of_lt h))

pub scan_unsigned-decimal :
    (bits n : ℕ) (s : List ℕ)
    → n < 2 ^ bits
    → n < 10 ^ 20
    → EndsNumber s
    → scan_unsigned bits (decimal n ++ s) ≡ some (n, s)
unfolding decimal
scan_unsigned-decimal bits n s h k stop =
    let d = decimal_digits-Digits 19 n in
    ap (λ t. scan_unsigned bits (t ++ s)) d.parts
    ∙ scan_unsigned-digit bits d.first (d.rest ++ s) n s d.digit h (
        ap (λ t. scan_digits 0 (t ++ s)) (sym d.parts)
        ∙ scan_digits-decimal_digits 20 n s k
        ∙ scan_digits-end n s stop)
