-- ===== src/Sha1.antt =====
-- dashboard/websocket/sha1.hpp: SHA-1 over a list of bytes. A `uint32_t` is a number below 2^32.
pub mod Padding
use event_driven_trading_sys.Base.{
  ℕ, zero, suc, ◌+◌, ◌-◌, ◌*◌, ◌/◌, ◌%◌, ◌^◌, ltb, ◌==◌, if◌then◌else◌, List, [], ◌∷◌, ◌++◌, length,
  get_or, set, replicate, bit_and, bit_or, bit_xor,
}

abbrev pub u32_mod : ℕ
u32_mod = 2 ^ 32

abbrev pub add32 : ℕ → ℕ → ℕ
add32 a b = (a + b) % u32_mod

-- `~x`
abbrev pub not32 : ℕ → ℕ
not32 x = u32_mod - 1 - x

unfoldable pub rotl : ℕ → ℕ → ℕ
rotl x n = bit_or (x * 2 ^ n % u32_mod) (x / 2 ^ (32 - n))

-- `while (padded % 64 != 56) ++padded;`, on fuel.
unfoldable pub pad_loop : ℕ → ℕ → ℕ
pad_loop zero padded = padded
pad_loop (suc fuel) padded =
    let rest = pad_loop fuel (padded + 1) in if padded % 64 == 56 then padded else rest

-- The size of the padded message. Every residue comes up within 64 rounds.
unfoldable pub padded_size : ℕ → ℕ
unfolding pad_loop
padded_size len = pad_loop 64 (len + 1) + 8

-- The loop that stores the bit length, most significant byte first, with the rounds left.
unfoldable pub write_length : ℕ → ℕ → ℕ → ℕ → List ℕ → List ℕ
write_length bit_len padded zero i msg = msg
write_length bit_len padded (suc n) i msg =
    write_length bit_len padded n (suc i)
      (set msg (padded - 8 + i) (bit_len / 2 ^ (56 - i * 8) % 256))

unfoldable pub padded_message : List ℕ → List ℕ
unfolding padded_size write_length replicate
padded_message bytes =
    let len = length bytes in
    let padded = padded_size len in
    let msg = bytes ++ replicate (padded - len) 0 in
    write_length (len * 8 % 2 ^ 64) padded 8 0 (set msg len 0x80)

-- `w[i]` for i below 16.
unfoldable pub word_at : List ℕ → ℕ → ℕ → ℕ
word_at msg off i =
    bit_or
      (bit_or
        (bit_or (get_or msg (off + i * 4) 0 * 2 ^ 24) (get_or msg (off + i * 4 + 1) 0 * 2 ^ 16))
        (get_or msg (off + i * 4 + 2) 0 * 2 ^ 8))
      (get_or msg (off + i * 4 + 3) 0)

unfoldable pub load_words : List ℕ → ℕ → ℕ → ℕ → List ℕ
unfolding word_at
load_words msg off zero i = []
load_words msg off (suc n) i = word_at msg off i ∷ load_words msg off n (suc i)

-- The loop from 16 to 79; `w` holds the words below `i`.
unfoldable pub extend_words : ℕ → ℕ → List ℕ → List ℕ
unfolding rotl
extend_words zero i w = w
extend_words (suc n) i w =
    let t =
      bit_xor (bit_xor (bit_xor (get_or w (i - 3) 0) (get_or w (i - 8) 0)) (get_or w (i - 14) 0))
        (get_or w (i - 16) 0) in
    extend_words n (suc i) (w ++ (rotl t 1 ∷ []))

pub record State : Type 0 where
  pub a : ℕ
  pub b : ℕ
  pub c : ℕ
  pub d : ℕ
  pub e : ℕ

abbrev pub choose : State → ℕ
choose s = bit_or (bit_and s.b s.c) (bit_and (not32 s.b) s.d)

abbrev pub parity : State → ℕ
parity s = bit_xor (bit_xor s.b s.c) s.d

abbrev pub majority : State → ℕ
majority s = bit_or (bit_or (bit_and s.b s.c) (bit_and s.b s.d)) (bit_and s.c s.d)

-- `f` and `k` of a round.
abbrev pub round_terms : ℕ → State → ℕ × ℕ
round_terms i s =
    if ltb i 20
    then (choose s, 0x5A827999)
    else if ltb i 40
    then (parity s, 0x6ED9EBA1)
    else if ltb i 60
    then (majority s, 0x8F1BBCDC)
    else (parity s, 0xCA62C1D6)

unfoldable pub round : ℕ → ℕ → State → State
unfolding rotl
round i w s =
    let (f, k) = round_terms i s in
    record {
      a = add32 (add32 (add32 (add32 (rotl s.a 5) f) s.e) k) w;
      b = s.a;
      c = rotl s.b 30;
      d = s.c;
      e = s.d;
    }

-- The loop over the words, with the index of the first of them.
unfoldable pub rounds : List ℕ → ℕ → State → State
unfolding round
rounds [] i s = s
rounds (w ∷ ws) i s = rounds ws (suc i) (round i w s)

unfoldable pub add_state : State → State → State
add_state h s = record {
  a = add32 h.a s.a;
  b = add32 h.b s.b;
  c = add32 h.c s.c;
  d = add32 h.d s.d;
  e = add32 h.e s.e;
}

-- The loop over the blocks of 64 bytes, with the blocks left.
unfoldable pub blocks : List ℕ → ℕ → ℕ → State → State
unfolding rounds add_state load_words extend_words
blocks msg zero off h = h
blocks msg (suc n) off h =
    let w = extend_words 64 16 (load_words msg off 16 0) in
    blocks msg n (off + 64) (add_state h (rounds w 0 h))

abbrev pub initial : State
initial = record { a = 0x67452301; b = 0xEFCDAB89; c = 0x98BADCFE; d = 0x10325476; e = 0xC3D2E1F0 }

abbrev pub word_bytes : ℕ → List ℕ
word_bytes x =
    bit_and (x / 2 ^ 24) 0xFF
    ∷ bit_and (x / 2 ^ 16) 0xFF
    ∷ bit_and (x / 2 ^ 8) 0xFF
    ∷ bit_and x 0xFF
    ∷ []

unfoldable pub sha1 : List ℕ → List ℕ
unfolding padded_message blocks padded_size
sha1 bytes =
    let h = blocks (padded_message bytes) (padded_size (length bytes) / 64) 0 initial in
    word_bytes h.a ++ (word_bytes h.b ++ (word_bytes h.c ++ (word_bytes h.d ++ word_bytes h.e)))
