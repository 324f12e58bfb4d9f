-- ===== src/Base64.antt =====
-- dashboard/websocket/base64.hpp: base64 of a byte array. A byte is a number, a text the list of its
-- character codes.
pub mod RoundTrip
use event_driven_trading_sys.Base.{
  ℕ, ◌*◌, ◌/◌, ◌^◌, List, [], ◌∷◌, ◌++◌, Option, none, some, get_or, bit_and, bit_or,
}
use event_driven_trading_sys.Text.{codes}

abbrev pub table : List ℕ
table = codes "ABCDEFGHIJKLMNOPQRSTUVWXYZabcdefghijklmnopqrstuvwxyz0123456789+/"

abbrev pub padding : ℕ
padding = 61

-- `i + k < len ? data[i + k] << shift : 0`
abbrev pub byte_or_zero : Option ℕ → ℕ → ℕ
byte_or_zero none shift = 0
byte_or_zero (some x) shift = x * 2 ^ shift

unfoldable pub group : ℕ → Option ℕ → Option ℕ → ℕ
group x y z = bit_or (bit_or (x * 2 ^ 16) (byte_or_zero y 8)) (byte_or_zero z 0)

-- `tbl[(b >> shift) & 0x3F]`
unfoldable pub digit : ℕ → ℕ → ℕ
digit b shift = get_or table (bit_and (b / 2 ^ shift) 0x3f) 0

-- `i + k < len ? tbl[...] : '='`
abbrev pub digit_or_padding : Option ℕ → ℕ → ℕ → ℕ
digit_or_padding none b shift = padding
digit_or_padding (some x) b shift = digit b shift

-- One round of the loop: a byte, and the two that may follow it.
unfoldable pub encode_group : ℕ → Option ℕ → Option ℕ → List ℕ
unfolding digit group
encode_group x y z =
    let b = group x y z in
    digit b 18 ∷ digit b 12 ∷ digit_or_padding y b 6 ∷ digit_or_padding z b 0 ∷ []

unfoldable pub base64_encode : List ℕ → List ℕ
unfolding encode_group
base64_encode [] = []
base64_encode (x ∷ []) = encode_group x none none
base64_encode (x ∷ y ∷ []) = encode_group x (some y) none
base64_encode (x ∷ y ∷ z ∷ bytes) = encode_group x (some y) (some z) ++ base64_encode bytes
