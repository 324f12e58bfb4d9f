-- ===== src/PostgresWriter/Uuid.antt =====
-- The identifiers that engine/persistence/PostgresWriter.cpp makes for a run.
use event_driven_trading_sys.Base.{
  ℕ, zero, suc, true, false, Bool-cases, ◌==◌, ==_iff, length-append, ◌+◌, ◌*◌, ◌/◌, ◌%◌, ◌^◌, ◌≤◌,
  ◌<◌, ◌≡◌, ◌⊎◌, refl, ◌∙◌, ap, inl, inr, List, [], ◌∷◌, ◌++◌, length, arith, bit_and, bit_or,
  bit_or_comm, bit_and_mask, bit_or_fields, ltb,
}
use event_driven_trading_sys.Text.{hex, hex_digit}
use event_driven_trading_sys.PostgresWriter.{gen_uuid_v4}

version_field : (c : ℕ) → bit_or (bit_and c 0x0FFF) 0x4000 ≡ 4 * 2 ^ 12 + c % 2 ^ 12
version_field c =
    bit_or_comm (bit_and c 0x0FFF) 0x4000
    ∙ ap (bit_or 0x4000) (bit_and_mask 12 c)
    ∙ bit_or_fields 12 4 (c % 2 ^ 12) (omega arith)

variant_field : (d : ℕ) → bit_or (bit_and d 0x3FFF) 0x8000 ≡ 2 * 2 ^ 14 + d % 2 ^ 14
variant_field d =
    bit_or_comm (bit_and d 0x3FFF) 0x8000
    ∙ ap (bit_or 0x8000) (bit_and_mask 14 d)
    ∙ bit_or_fields 14 2 (d % 2 ^ 14) (omega arith)

-- A digit, or a letter from a to f.
abbrev pub IsHex : ℕ → Type 0
IsHex c = ((48 ≤ c) × (c ≤ 57)) ⊎ ((97 ≤ c) × (c ≤ 102))

abbrev pub AllHex : List ℕ → Type 0
AllHex [] = Unit
AllHex (c ∷ s) = IsHex c × AllHex s

-- RFC 4122: five groups of hexadecimal digits with dashes between them. The third starts with the
-- version 4, the fourth with the variant: 8, 9, a or b.
pub record IsUuid (t : List ℕ) : Type 0 where
  pub time_low : List ℕ
  pub time_mid : List ℕ
  pub time_high : List ℕ
  pub clock : List ℕ
  pub node : List ℕ
  pub variant : ℕ
  pub groups :
      t
      ≡ time_low
        ++ (45
            ∷ (time_mid
                ++ (45 ∷ (b'4' ∷ (time_high ++ (45 ∷ (variant ∷ (clock ++ (45 ∷ node)))))))))
  pub lengths :
      (length time_low ≡ 8)
      × (length time_mid ≡ 4)
      × (length time_high ≡ 3)
      × (length clock ≡ 3)
      × (length node ≡ 12)
  pub digits : AllHex time_low × AllHex time_mid × AllHex time_high × AllHex clock × AllHex node
  pub of_variant : (variant ≡ b'8') ⊎ ((variant ≡ b'9') ⊎ ((variant ≡ b'a') ⊎ (variant ≡ b'b')))

hex_digit-IsHex : (d : ℕ) → d < 16 → IsHex (hex_digit d)
hex_digit-IsHex d h = elim (Bool-cases (ltb d 10)) [
  | inl e ↦ rw e (inl (omega arith, digit d e))
  | inr e ↦ rw e (inr (letter d e, omega arith))
]
  where
    digit : (d : ℕ) → ltb d 10 ≡ true → 48 + d ≤ 57
    digit d e = ground arith

    letter : (d : ℕ) → ltb d 10 ≡ false → 97 ≤ 87 + d
    letter d e = ground arith

AllHex-append : (s t : List ℕ) → AllHex s → AllHex t → AllHex (s ++ t)
AllHex-append [] t h k = k
AllHex-append (c ∷ s) t h k = (h.0, AllHex-append s t h.1 k)

hex_lem : (k n : ℕ) → (length (hex k n) ≡ k) × AllHex (hex k n)
unfolding hex
hex_lem zero n = (refl, tt)
hex_lem (suc k) n =
    let rest = hex_lem k (n / 16) in
    let last = hex_digit (n % 16) ∷ [] in
    (
      omega (arith, length-append (hex k (n / 16)) last, rest.0),
      AllHex-append (hex k (n / 16)) last rest.1 (hex_digit-IsHex (n % 16) (omega arith), tt),
    )

-- The first of four digits apart from the others.
hex-four : (n : ℕ) → hex 4 n ≡ hex_digit (n / 16 / 16 / 16 % 16) ∷ hex 3 n
unfolding hex
hex-four n = refl

four_variants :
    (v : ℕ)
    → 8 ≤ v
    → v < 12
    → (hex_digit v ≡ b'8') ⊎ ((hex_digit v ≡ b'9') ⊎ ((hex_digit v ≡ b'a') ⊎ (hex_digit v ≡ b'b')))
four_variants v h k = elim (Bool-cases (v == 8)) [
  | inl e ↦ inl (ap hex_digit ((==_iff v 8).0 e))
  | inr e ↦ elim (Bool-cases (v == 9)) [
    | inl f ↦ inr (inl (ap hex_digit ((==_iff v 9).0 f)))
    | inr f ↦ elim (Bool-cases (v == 10)) [
      | inl g ↦ inr (inr (inl (ap hex_digit ((==_iff v 10).0 g))))
      | inr g ↦ inr (inr (inr (ap hex_digit {y = 11} (eleven v h k e f g))))
    ]
  ]
]
  where
    eleven :
        (v : ℕ) → 8 ≤ v → v < 12 → (v == 8) ≡ false → (v == 9) ≡ false → (v == 10) ≡ false → v ≡ 11
    eleven v h k e f g = ground arith

-- Five groups with dashes between them.
abbrev five : List ℕ → List ℕ → List ℕ → List ℕ → List ℕ → List ℕ
five p q r s t = p ++ (45 ∷ (q ++ (45 ∷ (r ++ (45 ∷ (s ++ (45 ∷ t)))))))

-- Whatever numbers are drawn, `gen_uuid_v4` gives five groups of 8, 4, 4, 4 and 12 hexadecimal
-- digits with dashes between them, the third starting with the version 4 and the fourth with a
-- variant digit 8, 9, a or b.
pub gen_uuid_v4-IsUuid : (a b c d e1 e2 : ℕ) → IsUuid (gen_uuid_v4 a b c d e1 e2)
unfolding gen_uuid_v4
gen_uuid_v4-IsUuid a b c d e1 e2 =
    let version = bit_or (bit_and c 0x0FFF) 0x4000 in
    let variant = bit_or (bit_and d 0x3FFF) 0x8000 in
    let four : hex 4 version ≡ b'4' ∷ hex 3 version =
      hex-four version
      ∙ ap (λ x. hex_digit x ∷ hex 3 version) {y = 4} (omega (arith, version_field c)) in
    let node = hex 8 e1 ++ hex 4 (e2 % 2 ^ 16) in
    let first = variant / 16 / 16 / 16 % 16 in
    record {
      time_low = hex 8 a;
      time_mid = hex 4 (bit_and b 0xFFFF);
      time_high = hex 3 version;
      clock = hex 3 variant;
      node = node;
      variant = hex_digit first;
      groups =
          ap (λ t. five (hex 8 a) (hex 4 (bit_and b 0xFFFF)) t (hex 4 variant) node) four
          ∙ ap (λ t. five (hex 8 a) (hex 4 (bit_and b 0xFFFF)) (b'4' ∷ hex 3 version) t node)
              (hex-four variant);
      lengths = (
        (hex_lem 8 a).0,
        (hex_lem 4 (bit_and b 0xFFFF)).0,
        (hex_lem 3 version).0,
        (hex_lem 3 variant).0,
        omega (
          arith,
          length-append (hex 8 e1) (hex 4 (e2 % 2 ^ 16)),
          hex_lem 8 e1,
          hex_lem 4 (e2 % 2 ^ 16),
        ),
      );
      digits = (
        (hex_lem 8 a).1,
        (hex_lem 4 (bit_and b 0xFFFF)).1,
        (hex_lem 3 version).1,
        (hex_lem 3 variant).1,
        AllHex-append (hex 8 e1) (hex 4 (e2 % 2 ^ 16)) (hex_lem 8 e1).1 (hex_lem 4 (e2 % 2 ^ 16)).1,
      );
      of_variant =
          four_variants first (omega (arith, variant_field d)) (omega (arith, variant_field d));
    }
