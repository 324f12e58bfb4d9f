-- ===== src/WsServer/Frame.antt =====
-- The frames of dashboard/websocket/WsServer.cpp, read back after RFC 6455 section 5.2.
use event_driven_trading_sys.Base.{
  ℕ, ◌+◌, ◌*◌, ◌/◌, ◌%◌, ◌^◌, ◌<◌, ◌≡◌, refl, ap, inl, inr, true, ◌==◌, ltb, leb, ltb→lt,
  if◌then◌else◌, Bool-cases, List, [], ◌∷◌, ◌++◌, Option, none, some, length, take, drop, arith,
  bit_and, bit_and_mask,
}
use event_driven_trading_sys.WsServer.{text_frame}

-- The payload of the length that the header gives, and the bytes behind it.
unfoldable pub payload : ℕ → List ℕ → Option (List ℕ × List ℕ)
payload n bytes = if leb n (length bytes) then some (take n bytes, drop n bytes) else none

unfoldable pub long_payload : List ℕ → Option (List ℕ × List ℕ)
unfolding payload
long_payload (a ∷ b ∷ c ∷ d ∷ e ∷ f ∷ g ∷ h ∷ bytes) =
    payload
      (a * 2 ^ 56 + b * 2 ^ 48 + c * 2 ^ 40 + d * 2 ^ 32 + e * 2 ^ 24 + f * 2 ^ 16 + g * 2 ^ 8 + h)
      bytes
long_payload _ = none

unfoldable pub medium_payload : List ℕ → Option (List ℕ × List ℕ)
unfolding payload
medium_payload (a ∷ b ∷ bytes) = payload (a * 2 ^ 8 + b) bytes
medium_payload _ = none

-- An unmasked text frame that is not continued.
unfoldable pub read_frame : List ℕ → Option (List ℕ × List ℕ)
unfolding payload medium_payload long_payload
read_frame (head ∷ n ∷ bytes) =
    if head == 0x81
    then (if n == 127
        then long_payload bytes
        else if n == 126
        then medium_payload bytes
        else if ltb n 126
        then payload n bytes
        else none)
    else none
read_frame _ = none

take-append :
    (xs ys : List ℕ) → (take (length xs) (xs ++ ys) ≡ xs) × (drop (length xs) (xs ++ ys) ≡ ys)
take-append [] ys = (refl, refl)
take-append (x ∷ xs) ys = (ap (◌∷◌ x) (take-append xs ys).0, (take-append xs ys).1)

length-le-append : (xs ys : List ℕ) → leb (length xs) (length (xs ++ ys)) ≡ true
length-le-append [] ys = ground arith
length-le-append (x ∷ xs) ys = ground (arith, length-le-append xs ys)

payload_lem :
    (n : ℕ) (msg rest : List ℕ) → n ≡ length msg → payload n (msg ++ rest) ≡ some (msg, rest)
unfolding payload
payload_lem n msg rest e = rw (e, length-le-append msg rest) (ground (arith, take-append msg rest))

-- A byte of the length, and the length as the sum of its bytes.
low_byte : (n shift : ℕ) → bit_and (n / 2 ^ shift) 0xFF ≡ n / 2 ^ shift % 256
low_byte n shift = bit_and_mask 8 (n / 2 ^ shift)

medium-length : (n : ℕ) → n < 65536 → bit_and (n / 2 ^ 8) 0xFF * 2 ^ 8 + bit_and n 0xFF ≡ n
medium-length n h = omega (arith, low_byte n 8, bit_and_mask 8 n)

long-length :
    (n : ℕ)
    → n < 2 ^ 64
    → (bit_and (n / 2 ^ 56) 0xFF * 2 ^ 56
        + bit_and (n / 2 ^ 48) 0xFF * 2 ^ 48
        + bit_and (n / 2 ^ 40) 0xFF * 2 ^ 40
        + bit_and (n / 2 ^ 32) 0xFF * 2 ^ 32
        + bit_and (n / 2 ^ 24) 0xFF * 2 ^ 24
        + bit_and (n / 2 ^ 16) 0xFF * 2 ^ 16
        + bit_and (n / 2 ^ 8) 0xFF * 2 ^ 8
        + bit_and (n / 2 ^ 0) 0xFF)
      ≡ n
long-length n h = omega (
  arith,
  low_byte n 56,
  low_byte n 48,
  low_byte n 40,
  low_byte n 32,
  low_byte n 24,
  low_byte n 16,
  low_byte n 8,
  low_byte n 0,
)

-- A reader of unmasked text frames after RFC 6455 gets back from `text_frame` the text, of fewer
-- than 2^64 characters and in any of the three forms of the length, and the bytes behind the
-- frame.
pub read_frame-text_frame :
    (msg rest : List ℕ)
    → length msg < 2 ^ 64
    → read_frame (text_frame msg ++ rest) ≡ some (msg, rest)
unfolding read_frame text_frame
read_frame-text_frame msg rest h = elim (Bool-cases (ltb (length msg) 126)) [
  | inl short ↦ rw short (ground (arith, payload_lem (length msg) msg rest refl))
  | inr long ↦ rw long (elim (Bool-cases (ltb (length msg) 65536)) [
    | inl medium ↦
        rw medium (payload_lem _ msg rest (medium-length (length msg) (ltb→lt _ _ medium)))
    | inr large ↦ rw large (payload_lem _ msg rest (long-length (length msg) h))
  ])
]
