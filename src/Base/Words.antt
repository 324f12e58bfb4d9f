-- ===== src/Base/Words.antt =====
-- Unsigned 64-bit words as native numbers: arithmetic wraps by `%`, shifts are `/` and `*`.
-- Laws of `&` with a low mask and of `|` of disjoint fields.
use Prim.Native.Nat.{
  ℕ, zero, suc, ◌+◌, ◌-◌, ◌*◌, ◌/◌, ◌%◌, ◌^◌, ◌≤◌, ◌<◌, min, max, bit_and, bit_or, digits,
  bit_and-bitwise, bit_or-bitwise,
}
use mathlib.Core.Path.{◌≡◌, refl, ap, sym, ◌∙◌}
use native.Mathlib.Nat.{pow-suc, mul-one}
use native.Mathlib.Omega.{arith}

abbrev pub u64_mod : ℕ
u64_mod = 2 ^ 64

abbrev pub add64 : ℕ → ℕ → ℕ
add64 a b = (a + b) % u64_mod

abbrev pub sub64 : ℕ → ℕ → ℕ
sub64 a b = (a + u64_mod - b) % u64_mod

-- A fold over the binary digits depends on its fuel only while that is below the first number.
module _ (f : ℕ → ℕ) (g : ℕ → ℕ → ℕ) where
  digits-zero : (fuel b : ℕ) → digits f g fuel 0 b ≡ f b
  digits-zero zero b = refl
  digits-zero (suc fuel) b = refl

  digits_enough :
      (fuel more b a : ℕ) → a ≤ fuel → a ≤ more → digits f g fuel a b ≡ digits f g more a b
  digits_enough fuel more b zero h k = digits-zero fuel b ∙ sym (digits-zero more b)
  digits_enough zero more b (suc a) h k = absurd (omega arith)
  digits_enough (suc fuel) zero b (suc a) h k = absurd (omega arith)
  digits_enough (suc fuel) (suc more) b (suc a) h k =
      omega (arith, digits_enough fuel more (b / 2) (suc a / 2) (omega arith) (omega arith))

-- The lowest bit apart from the rest.
pub bit_and_step : (a b : ℕ) → min (a % 2) (b % 2) + 2 * bit_and (a / 2) (b / 2) ≡ bit_and a b
bit_and_step zero b = omega (arith, bit_and-bitwise 0 (b / 2), bit_and-bitwise 0 b)
bit_and_step (suc a) b =
    let half = suc a / 2 in
    omega (
      arith,
      digits_enough (λ _. 0) min a half (b / 2) half (omega arith) (omega arith),
      bit_and-bitwise half (b / 2),
      bit_and-bitwise (suc a) b,
    )

bit_and-le_fuel : (n a b : ℕ) → b ≤ n → bit_and a b ≤ b
bit_and-le_fuel zero a zero h = elim_zero a
  where
    step : (n a : ℕ) → a ≤ n → bit_and a 0 ≤ 0
    step zero zero h = omega (arith, bit_and-bitwise 0 0)
    step zero (suc a) h = absurd (omega arith)
    step (suc n) zero h = omega (arith, bit_and-bitwise 0 0)
    step (suc n) (suc a) h = omega (arith, bit_and_step (suc a) 0, step n (suc a / 2) (omega arith))

    elim_zero : (a : ℕ) → bit_and a 0 ≤ 0
    elim_zero a = step a a (omega arith)
bit_and-le_fuel zero a (suc b) h = absurd (omega arith)
bit_and-le_fuel (suc n) a zero h = bit_and-le_fuel n a 0 (omega arith)
bit_and-le_fuel (suc n) a (suc b) h =
    omega (arith, bit_and_step a (suc b), bit_and-le_fuel n (a / 2) (suc b / 2) (omega arith))

-- A masked value is at most the mask, whatever the mask is.
pub bit_and-le : (a b : ℕ) → bit_and a b ≤ b
bit_and-le a b = bit_and-le_fuel b a b (omega arith)

pub one-le-pow : (k : ℕ) → 1 ≤ 2 ^ k
one-le-pow zero = omega arith
one-le-pow (suc k) = omega (arith, one-le-pow k, pow-suc 2 k)

mod-double : (m a : ℕ) → 1 ≤ m → a % (2 * m) ≡ a / 2 % m * 2 + a % 2
mod-double m a h = grind arith

-- A mask of `k` low bits is the remainder by `2 ^ k`.
pub bit_and_mask : (k a : ℕ) → bit_and a (2 ^ k - 1) ≡ a % 2 ^ k
bit_and_mask zero a = omega (arith, bit_and-le a 0)
bit_and_mask (suc k) a = omega (
  arith,
  one-le-pow k,
  pow-suc 2 k,
  bit_and_step a (2 ^ suc k - 1),
  bit_and_mask k (a / 2),
  mod-double (2 ^ k) a (one-le-pow k),
  half_mask,
  mod_mask,
  mod-eq,
)
  where
    half_mask : bit_and (a / 2) ((2 ^ suc k - 1) / 2) ≡ bit_and (a / 2) (2 ^ k - 1)
    half_mask = ap (bit_and (a / 2)) (omega (arith, one-le-pow k, pow-suc 2 k))

    mod_mask : (2 ^ suc k - 1) % 2 ≡ 1
    mod_mask = omega (arith, one-le-pow k, pow-suc 2 k)

    mod-eq : a % 2 ^ suc k ≡ a % (2 * 2 ^ k)
    mod-eq = ap (λ (m : ℕ). a % m) (omega (arith, pow-suc 2 k))

bit_or_step : (a b : ℕ) → max (a % 2) (b % 2) + 2 * bit_or (a / 2) (b / 2) ≡ bit_or a b
bit_or_step zero b = omega (arith, bit_or-bitwise 0 (b / 2), bit_or-bitwise 0 b)
bit_or_step (suc a) b =
    let half = suc a / 2 in
    omega (
      arith,
      digits_enough (λ c. c) max a half (b / 2) half (omega arith) (omega arith),
      bit_or-bitwise half (b / 2),
      bit_or-bitwise (suc a) b,
    )

bit_or_comm_fuel : (n a b : ℕ) → a ≤ n → b ≤ n → bit_or a b ≡ bit_or b a
bit_or_comm_fuel zero zero zero h k = refl
bit_or_comm_fuel zero zero (suc b) h k = absurd (omega arith)
bit_or_comm_fuel zero (suc a) b h k = absurd (omega arith)
bit_or_comm_fuel (suc n) zero zero h k = refl
bit_or_comm_fuel (suc n) (suc a) b h k = omega (
  arith,
  bit_or_step (suc a) b,
  bit_or_step b (suc a),
  bit_or_comm_fuel n (suc a / 2) (b / 2) (omega arith) (omega arith),
)
bit_or_comm_fuel (suc n) zero (suc b) h k = omega (
  arith,
  bit_or_step 0 (suc b),
  bit_or_step (suc b) 0,
  bit_or_comm_fuel n 0 (suc b / 2) (omega arith) (omega arith),
)

pub bit_or_comm : (a b : ℕ) → bit_or a b ≡ bit_or b a
bit_or_comm a b = bit_or_comm_fuel (a + b) a b (omega arith) (omega arith)

bit_or-zero : (n a : ℕ) → a ≤ n → bit_or a 0 ≡ a
bit_or-zero n zero h = refl
bit_or-zero zero (suc a) h = absurd (omega arith)
bit_or-zero (suc n) (suc a) h =
    omega (arith, bit_or_step (suc a) 0, bit_or-zero n (suc a / 2) (omega arith))

-- A field above `k` bits and a value of `k` bits do not overlap: `|` is their sum.
pub bit_or_fields : (k q r : ℕ) → r < 2 ^ k → bit_or (q * 2 ^ k) r ≡ q * 2 ^ k + r
bit_or_fields zero q r h = rw mul-one (ground (arith, bit_or-zero q q))
bit_or_fields (suc k) q r h = omega (
  arith,
  shifted,
  bit_or_step (q * 2 ^ suc k) r,
  ap (λ (t : ℕ). bit_or t (r / 2)) half_field,
  bit_or_fields k q (r / 2) (omega (arith, pow-suc 2 k)),
)
  where
    shifted : q * 2 ^ suc k ≡ q * 2 ^ k * 2
    shifted = omega (arith, ap (λ (t : ℕ). q * t) (pow-suc 2 k))

    half_field : q * 2 ^ suc k / 2 ≡ q * 2 ^ k
    half_field = omega (arith, shifted)
