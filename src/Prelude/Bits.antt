-- ===== src/Prelude/Bits.antt =====
-- `bit_and` with a mask of six bits, and `bit_or` into six bits that are clear.
use Prim.Native.Nat.{
  ℕ, zero, suc, ◌+◌, ◌*◌, ◌/◌, ◌≤◌, ◌<◌, min, max, bit_and, bit_or, digits, bit_and-bitwise,
  bit_or-bitwise,
}
use mathlib.Core.Path.{◌≡◌, refl, ◌∙◌}
use native.Mathlib.Omega.{arith}

-- A number shifted to the left.
abbrev shifted : ℕ → ℕ → ℕ
shifted zero a = a
shifted (suc k) a = shifted k a * 2

-- Below the bits of a shifted number there is room for as many.
or_shifted :
    (k n a x c : ℕ) → x ≤ n → x ≡ shifted k a → c < shifted k 1 → digits (λ b. b) max n x c ≡ x + c
or_shifted k n a zero c room s h = omega (arith, zero_digits n)
  where
    zero_digits : (n : ℕ) → digits (λ b. b) max n zero c ≡ c
    zero_digits zero = refl
    zero_digits (suc n) = refl
or_shifted k zero a (suc x) c room s h = absurd (omega arith)
or_shifted zero (suc n) a (suc x) c room s h =
    omega
      (arith, or_shifted zero n (suc x / 2) (suc x / 2) (c / 2) (omega arith) refl (omega arith))
or_shifted (suc k) (suc n) a (suc x) c room s h =
    omega (arith, or_shifted k n a (suc x / 2) (c / 2) (omega arith) (omega arith) (omega arith))

pub bit_or_sextet : (a c : ℕ) → c < 64 → bit_or (a * 64) c ≡ a * 64 + c
bit_or_sextet a c h =
    bit_or-bitwise (a * 64) c ∙ or_shifted 6 (a * 64) a (a * 64) c (omega arith) (omega arith) h

-- A number whose bits are all set.
abbrev ones : ℕ → ℕ
ones zero = 0
ones (suc k) = suc (ones k * 2)

and_ones : (k n x : ℕ) → x ≤ n → x ≤ ones k → digits (λ b. 0) min n x (ones k) ≡ x
and_ones k zero zero room h = refl
and_ones k (suc n) zero room h = refl
and_ones k zero (suc x) room h = absurd (omega arith)
and_ones zero (suc n) (suc x) room h = absurd (omega arith)
and_ones (suc k) (suc n) (suc x) room h =
    let half : suc (ones k * 2) / 2 ≡ ones k = omega arith in
    rw half (omega (arith, and_ones k n (suc x / 2) (omega arith) (omega arith)))

pub bit_and_sextet : (x : ℕ) → x < 64 → bit_and x 0x3f ≡ x
bit_and_sextet x h = bit_and-bitwise x 0x3f ∙ and_ones 6 x x (omega arith) (omega arith)
