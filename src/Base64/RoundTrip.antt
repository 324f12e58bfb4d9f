-- ===== src/Base64/RoundTrip.antt =====
-- Decoding after RFC 4648, and that it gives back what dashboard/websocket/base64.hpp encoded.
use event_driven_trading_sys.Base.{
  ℕ, zero, suc, ◌+◌, ◌-◌, ◌*◌, ◌/◌, ◌%◌, ◌^◌, ◌<◌, ◌≡◌, refl, ◌∙◌, ap, Bool, true, false, not, ◌&&◌,
  ◌==◌, leb, if◌then◌else◌, List, [], ◌∷◌, ◌++◌, Option, none, some, get_or, arith, bit_and_mask,
  bit_or, bit_or_fields,
}
use event_driven_trading_sys.Base64.{table, group, digit, encode_group, base64_encode}

-- The value of a character, after table 1 of RFC 4648: A to Z, a to z, 0 to 9, + and /.
abbrev pub sextet : ℕ → ℕ
sextet c =
    if leb 65 c && leb c 90
    then c - 65
    else if leb 97 c && leb c 122
    then c - 97 + 26
    else if leb 48 c && leb c 57
    then c - 48 + 52
    else if c == 43
    then 62
    else if c == 47
    then 63
    else 64

-- The equals sign.
abbrev pub equals_sign : ℕ
equals_sign = 61

-- Four characters stand for three bytes, less one for each padding character at the end.
abbrev pub decode_group : ℕ → ℕ → ℕ → ℕ → List ℕ
decode_group p q r s =
    let b = sextet p * 2 ^ 18 + sextet q * 2 ^ 12 in
    let b' = b + sextet r * 2 ^ 6 in
    let b'' = b' + sextet s in
    if r == equals_sign
    then (b / 2 ^ 16 ∷ [])
    else if s == equals_sign
    then (b' / 2 ^ 16 ∷ b' / 2 ^ 8 % 256 ∷ [])
    else (b'' / 2 ^ 16 ∷ b'' / 2 ^ 8 % 256 ∷ b'' % 256 ∷ [])

unfoldable pub base64_decode : List ℕ → List ℕ
base64_decode (p ∷ q ∷ r ∷ s ∷ text) = decode_group p q r s ++ base64_decode text
base64_decode _ = []

abbrev pub IsBytes : List ℕ → Type 0
IsBytes [] = Unit
IsBytes (x ∷ xs) = (x < 256) × IsBytes xs

-- The n-th character of the program's table has the value n, and is not the equals sign.
abbrev is_digit : ℕ → Bool
is_digit n = sextet (get_or table n 0) == n && not (get_or table n 0 == equals_sign)

abbrev all_below : ℕ → (ℕ → Bool) → Bool
all_below zero p = true
all_below (suc n) p = p n && all_below n p

below-all_below : (n i : ℕ) (p : ℕ → Bool) → all_below n p ≡ true → i < n → p i ≡ true
below-all_below zero i p h lt = absurd (omega arith)
below-all_below (suc n) i p h lt = ground (arith, below-all_below n i p)

alphabet : all_below 64 is_digit ≡ true
alphabet = refl

both : (a b : ℕ) (c : Bool) → (a == b && not c) ≡ true → (a ≡ b) × (c ≡ false)
both a b c h = ground arith

digit_below :
    (i : ℕ) → i < 64 → (sextet (get_or table i 0) ≡ i) × ((get_or table i 0 == equals_sign) ≡ false)
digit_below i lt = both _ i _ (below-all_below 64 i is_digit alphabet lt)

sextet-digit :
    (b shift : ℕ)
    → (sextet (digit b shift) ≡ b / 2 ^ shift % 64) × ((digit b shift == equals_sign) ≡ false)
unfolding digit
sextet-digit b shift = rw (bit_and_mask 6 (b / 2 ^ shift)) (digit_below _ (omega arith))

group-sum : (x y z : ℕ) → y < 256 → z < 256 → group x (some y) (some z) ≡ x * 2 ^ 16 + y * 2 ^ 8 + z
unfolding group
group-sum x y z h k =
    ap (λ w. bit_or w (z * 2 ^ 0)) (bit_or_fields 16 x (y * 2 ^ 8) (omega arith))
    ∙ ap (λ w. bit_or w (z * 2 ^ 0)) (pair x y)
    ∙ bit_or_fields 8 (x * 2 ^ 8 + y) (z * 2 ^ 0) (omega arith)
    ∙ omega arith
  where
    pair : (x y : ℕ) → x * 2 ^ 16 + y * 2 ^ 8 ≡ (x * 2 ^ 8 + y) * 2 ^ 8
    pair x y = omega arith

abbrev or_zero : Option ℕ → ℕ
or_zero none = 0
or_zero (some x) = x

-- A missing byte is a zero byte.
group-or_zero :
    (x : ℕ) (y z : Option ℕ) → group x y z ≡ group x (some (or_zero y)) (some (or_zero z))
unfolding group
group-or_zero x none none = refl
group-or_zero x none (some z) = refl
group-or_zero x (some y) none = refl
group-or_zero x (some y) (some z) = refl

one-group :
    (x : ℕ) (text : List ℕ)
    → x < 256
    → base64_decode (encode_group x none none ++ text) ≡ x ∷ base64_decode text
unfolding base64_decode encode_group
one-group x text h =
    let b = group x none none in
    ground (arith, group-or_zero x none none, group-sum x 0 0, sextet-digit b 18, sextet-digit b 12)

two-group :
    (x y : ℕ) (text : List ℕ)
    → x < 256
    → y < 256
    → base64_decode (encode_group x (some y) none ++ text) ≡ x ∷ y ∷ base64_decode text
unfolding base64_decode encode_group
two-group x y text h k =
    let b = group x (some y) none in
    ground (
      arith,
      group-or_zero x (some y) none,
      group-sum x y 0,
      sextet-digit b 18,
      sextet-digit b 12,
      sextet-digit b 6,
    )

three-group :
    (x y z : ℕ) (text : List ℕ)
    → x < 256
    → y < 256
    → z < 256
    → base64_decode (encode_group x (some y) (some z) ++ text) ≡ x ∷ y ∷ z ∷ base64_decode text
unfolding base64_decode encode_group
three-group x y z text h k l =
    let b = group x (some y) (some z) in
    ground (
      arith,
      group-sum x y z,
      sextet-digit b 18,
      sextet-digit b 12,
      sextet-digit b 6,
      sextet-digit b 0,
    )

-- A decoder after RFC 4648, with the values of the characters in its table 1, gets the bytes back
-- from what `base64_encode` made of them, whatever their number.
pub base64_decode-base64_encode :
    (bytes : List ℕ) → IsBytes bytes → base64_decode (base64_encode bytes) ≡ bytes
unfolding base64_encode base64_decode
base64_decode-base64_encode [] h = refl
base64_decode-base64_encode (x ∷ []) h = one-group x [] h.0
base64_decode-base64_encode (x ∷ y ∷ []) h = two-group x y [] h.0 h.1.0
base64_decode-base64_encode (x ∷ y ∷ z ∷ bytes) h =
    three-group x y z (base64_encode bytes) (h.0) (h.1.0) (h.1.1.0)
    ∙ ap (λ t. x ∷ y ∷ z ∷ t) (base64_decode-base64_encode bytes (h.1.1.1))
