-- ===== src/Sha1/Padding.antt =====
-- The padding and the digest of dashboard/websocket/sha1.hpp.
use event_driven_trading_sys.Base.{
  ℕ, zero, suc, ◌+◌, ◌-◌, ◌*◌, ◌/◌, ◌%◌, ◌^◌, ◌≤◌, ◌<◌, ◌≡◌, refl, ◌∙◌, List, [], ◌∷◌, ◌++◌, length,
  length-append, length-set, length-replicate, set, replicate, arith, bit_and, bit_and_mask,
}
use event_driven_trading_sys.Base64.RoundTrip.{IsBytes}
use event_driven_trading_sys.Sha1.{
  pad_loop, padded_size, write_length, padded_message, sha1, word_bytes, blocks, initial,
}

-- Before the size is reached it is less than 64 away.
pad_loop_lem :
    (fuel p : ℕ)
    → (120 - p % 64) % 64 < fuel
    → (pad_loop fuel p % 64 ≡ 56) × (p ≤ pad_loop fuel p) × (pad_loop fuel p < p + 64)
unfolding pad_loop
pad_loop_lem zero p h = absurd (omega arith)
pad_loop_lem (suc fuel) p h = ground (arith, pad_loop_lem fuel (p + 1))

length-write_length :
    (bit_len padded n i : ℕ) (msg : List ℕ)
    → length (write_length bit_len padded n i msg) ≡ length msg
unfolding write_length
length-write_length bit_len padded zero i msg = refl
length-write_length bit_len padded (suc n) i msg =
    length-write_length bit_len padded n (suc i) _ ∙ length-set msg (padded - 8 + i) _

padded_size_lem :
    (len : ℕ)
    → (padded_size len % 64 ≡ 0) × (len + 9 ≤ padded_size len) × (padded_size len < len + 73)
unfolding padded_size
padded_size_lem len = omega (arith, pad_loop_lem 64 (len + 1) (omega arith))

pub length-padded_message :
    (bytes : List ℕ)
    → (length (padded_message bytes) % 64 ≡ 0)
      × (length bytes + 9 ≤ length (padded_message bytes))
      × (length (padded_message bytes) < length bytes + 73)
unfolding padded_message
length-padded_message bytes =
    let padded = padded_size (length bytes) in
    let msg = bytes ++ replicate (padded - length bytes) 0 in
    omega (
      arith,
      length-write_length (length bytes * 8 % 2 ^ 64) padded 8 0 (set msg (length bytes) 0x80),
      length-set msg (length bytes) 0x80,
      length-append bytes (replicate (padded - length bytes) 0),
      length-replicate {A = ℕ} (padded - length bytes) 0,
      padded_size_lem (length bytes),
    )

IsBytes-append : (xs ys : List ℕ) → IsBytes xs → IsBytes ys → IsBytes (xs ++ ys)
IsBytes-append [] ys h k = k
IsBytes-append (x ∷ xs) ys h k = (h.0, IsBytes-append xs ys h.1 k)

word_bytes-IsBytes : (x : ℕ) → IsBytes (word_bytes x)
word_bytes-IsBytes x =
    omega (arith, low_byte (x / 2 ^ 24), low_byte (x / 2 ^ 16), low_byte (x / 2 ^ 8), low_byte x)
  where
    low_byte : (y : ℕ) → bit_and y 0xFF ≡ y % 256
    low_byte y = bit_and_mask 8 y

-- The digest is 20 bytes.
pub length-sha1 : (bytes : List ℕ) → (length (sha1 bytes) ≡ 20) × IsBytes (sha1 bytes)
unfolding sha1
length-sha1 bytes =
    let h = blocks (padded_message bytes) (padded_size (length bytes) / 64) 0 initial in
    let de = word_bytes h.d ++ word_bytes h.e in
    let cde = word_bytes h.c ++ de in
    let bcde = word_bytes h.b ++ cde in
    let de_bytes =
      IsBytes-append (word_bytes h.d) (word_bytes h.e) (word_bytes-IsBytes h.d)
        (word_bytes-IsBytes h.e) in
    let cde_bytes = IsBytes-append (word_bytes h.c) de (word_bytes-IsBytes h.c) de_bytes in
    let bcde_bytes = IsBytes-append (word_bytes h.b) cde (word_bytes-IsBytes h.b) cde_bytes in
    (refl, IsBytes-append (word_bytes h.a) bcde (word_bytes-IsBytes h.a) bcde_bytes)
