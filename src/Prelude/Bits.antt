-- ===== src/Prelude/Bits.antt =====
-- The last bits of a number, the most significant one first.
use zerosats.Prelude.Bytes.{Bytes}
use zerosats.Prelude.Lists.{length, All}
use Prim.Native.Nat.{ℕ, zero, suc, ◌+◌, ◌*◌, ◌/◌, ◌%◌, ◌^◌, ◌≤◌, ◌<◌}
use mathlib.Core.Path.{◌≡◌, refl, sym, ap, ◌∙◌}
use mathlib.Core.List.{[], ◌∷◌}
use native.Mathlib.Omega.{arith}
use native.Mathlib.Nat.{mod-add-div, mod-eq_of_lt, mul-add-mod_self_right}

-- `lsb(count).to_bitvec()`, as zeros and ones, for a count of at most 256, which a tree of depth at
-- most 257 asks for; the code subtracts the count from the 256 bits of an element, so it panics or
-- wraps around above.
abbrev pub to_bits : ℕ → ℕ → Bytes
to_bits zero e = []
to_bits (suc n) e = e / 2 ^ n % 2 ∷ to_bits n e

pub length-to_bits : (n e : ℕ) → length (to_bits n e) ≡ n
length-to_bits zero e = refl
length-to_bits (suc n) e = ap suc (length-to_bits n e)

pub to_bits-le : (n e : ℕ) → All (λ b. b ≤ 1) (to_bits n e)
to_bits-le zero e = tt
to_bits-le (suc n) e = (omega arith, to_bits-le n e)

low_lt : (m b r : ℕ) → b ≤ 1 → r < m → b * m + r < 2 * m
low_lt m zero r h l = omega arith
low_lt m (suc zero) r h l = omega arith
low_lt m (suc (suc b)) r h l = omega arith

mul_split : (m q : ℕ) → m * q ≡ q / 2 * (2 * m) + q % 2 * m
mul_split m q =
    let parts : q ≡ q / 2 * 2 + q % 2 = omega arith in ap (λ x. m * x) parts ∙ omega arith

-- One more bit
mod_double : (e m : ℕ) → 0 < m → e % (2 * m) ≡ e / m % 2 * m + e % m
mod_double e m h =
    let parts : e ≡ e / m / 2 * (2 * m) + (e / m % 2 * m + e % m) =
      omega (arith, mod-add-div e m, mul_split m (e / m)) in
    ap (λ x. x % (2 * m)) parts
    ∙ mul-add-mod_self_right (e / m / 2) (2 * m) (e / m % 2 * m + e % m)
    ∙ mod-eq_of_lt (low_lt m (e / m % 2) (e % m) (omega arith) (omega arith))

pow_pos : (n : ℕ) → 0 < 2 ^ n
pow_pos zero = omega arith
pow_pos (suc n) = omega (arith, pow_pos n)

mod_bit : (n e : ℕ) → e % 2 ^ suc n ≡ e / 2 ^ n % 2 * 2 ^ n + e % 2 ^ n
mod_bit n e =
    let double : 2 ^ suc n ≡ 2 * 2 ^ n = omega arith in
    ap (λ m. e % m) double ∙ mod_double e (2 ^ n) (pow_pos n)

-- Numbers with the same last bits are the same up to a power of two.
pub to_bits_injective : (n a b : ℕ) → to_bits n a ≡ to_bits n b → a % 2 ^ n ≡ b % 2 ^ n
to_bits_injective zero a b h = omega arith
to_bits_injective (suc n) a b h =
    let first : a / 2 ^ n % 2 ≡ b / 2 ^ n % 2 = cc h in
    let rest : to_bits n a ≡ to_bits n b = cc h in
    mod_bit n a
    ∙ ap (λ x. x * 2 ^ n + a % 2 ^ n) first
    ∙ ap (λ x. b / 2 ^ n % 2 * 2 ^ n + x) (to_bits_injective n a b rest)
    ∙ sym (mod_bit n b)
