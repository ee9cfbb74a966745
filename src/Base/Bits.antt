-- ===== src/Base/Bits.antt =====
-- `|` and `&` on words: a `|` of numbers with no digit in common is a sum, and `& 0xFF` is the
-- remainder by 256.
use Prim.Native.Nat.{
  ℕ, zero, suc, ◌+◌, ◌*◌, ◌/◌, ◌%◌, ◌^◌, ◌≤◌, ◌<◌, min, max, bit_or, bit_and, digits,
  bit_or-bitwise, bit_and-bitwise,
}
use mathlib.Core.Path.{◌≡◌, refl, ap, sym, ◌∙◌}
use native.Mathlib.Nat.{pow-suc, mul_assoc}
use native.Mathlib.Omega.{arith}

double : (k x a : ℕ) → x ≡ a * 2 ^ suc k → x ≡ a * 2 ^ k * 2
double k x a e = e ∙ ap (λ (t : ℕ). a * t) (pow-suc 2 k) ∙ sym (mul_assoc a (2 ^ k) 2)

-- The digits of `x`, a multiple of `2 ^ k`, joined with those of `b`, which has at most `k`.
joined :
    (count k x a b : ℕ)
    → x ≡ a * 2 ^ k
    → b < 2 ^ k
    → x ≤ count
    → digits (λ rest. rest) max count x b ≡ x + b
joined zero k zero a b e h le = omega arith
joined zero k (suc x) a b e h le = absurd (omega arith)
joined (suc count) k zero a b e h le = omega arith
joined (suc count) zero (suc x) a b e h le =
    let half =
      joined count zero (suc x / 2) (suc x / 2) (b / 2) (omega arith) (omega arith) (omega arith) in
    omega (arith, half)
joined (suc count) (suc k) (suc x) a b e h le =
    let even = double k (suc x) a e in
    let power = pow-suc 2 k in
    let half =
      joined count k (suc x / 2) a (b / 2) (omega (arith, even)) (omega (arith, power))
        (omega arith) in
    omega (arith, half, even)

-- `(a << k) | b` where `b` has at most `k` bits.
pub bit_or-shift : (k a b : ℕ) → b < 2 ^ k → bit_or (a * 2 ^ k) b ≡ a * 2 ^ k + b
bit_or-shift k a b h =
    let x = a * 2 ^ k in bit_or-bitwise x b ∙ joined x k x a b refl h (omega arith)

abbrev ones : ℕ → ℕ
ones zero = 0
ones (suc k) = ones k * 2 + 1

abbrev low : ℕ → ℕ → ℕ
low zero x = 0
low (suc k) x = low k (x / 2) * 2 + x % 2

low-zero : (k : ℕ) → low k 0 ≡ 0
low-zero zero = refl
low-zero (suc k) = omega (arith, low-zero k)

masked : (count k x m : ℕ) → m ≡ ones k → x ≤ count → digits (λ rest. zero) min count x m ≡ low k x
masked zero k zero m e le = sym (low-zero k)
masked zero k (suc x) m e le = absurd (omega arith)
masked (suc count) k zero m e le = sym (low-zero k)
masked (suc count) zero (suc x) m e le =
    omega (arith, masked count zero (suc x / 2) (m / 2) (omega arith) (omega arith))
masked (suc count) (suc k) (suc x) m e le =
    omega (arith, masked count k (suc x / 2) (m / 2) (omega arith) (omega arith))

low_four : (x : ℕ) → low 4 x ≡ x % 16
low_four x = omega arith

-- `a & 0xFF`
pub bit_and-byte : (a : ℕ) → bit_and a 0xff ≡ a % 256
bit_and-byte a =
    let high = low_four (a / 2 / 2 / 2 / 2) in
    bit_and-bitwise a 255 ∙ masked a 8 a 255 refl (omega arith) ∙ omega (arith, high)
