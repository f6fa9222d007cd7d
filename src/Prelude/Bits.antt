-- ===== src/Prelude/Bits.antt =====
-- The binary digits of a number, and how `&`, `|` and `^` act on them.
use Prim.Native.Nat.{ℕ, zero, suc, ◌+◌, ◌*◌, ◌/◌, ◌%◌, ◌^◌, ◌≤◌, ◌<◌, min, max}
use Prim.Native.Nat.{
  bit_and, bit_or, bit_xor, digits, bitwise, differ, bit_and-bitwise, bit_or-bitwise,
  bit_xor-bitwise,
}
use mathlib.Core.Path.{◌≡◌, refl, sym, ap, ◌∙◌}
use native.Mathlib.Omega.{arith}
use native.Mathlib.Nat.{pow-succ'}

-- The digit of weight 2 ^ k.
unfoldable pub bit : ℕ → ℕ → ℕ
bit zero x = x % 2
bit (suc k) x = bit k (x / 2)

-- The native operations recurse on the digits with a count for fuel. Any fuel from the first number
-- on gives the same, and so an operation acts on the lowest digits and on the halves. `z` is the
-- operation of 0 and `f` that of two digits.
module _ (z : ℕ → ℕ) (f : ℕ → ℕ → ℕ) where
  digits-zero : (fuel b : ℕ) → digits z f fuel 0 b ≡ z b
  digits-zero zero b = refl
  digits-zero (suc fuel) b = refl

  fuel_enough : (bound fuel a b : ℕ) → a ≤ bound → a ≤ fuel → digits z f fuel a b ≡ bitwise z f a b
  fuel_enough bound fuel zero b h k = digits-zero fuel b
  fuel_enough zero fuel (suc a) b h k = absurd (omega arith)
  fuel_enough (suc bound) zero (suc a) b h k = absurd (omega arith)
  fuel_enough (suc bound) (suc fuel) (suc a) b h k =
      let given = fuel_enough bound fuel (suc a / 2) (b / 2) (omega arith) (omega arith) in
      let least = fuel_enough bound a (suc a / 2) (b / 2) (omega arith) (omega arith) in
      ap (λ t. t * 2 + f (suc a % 2) (b % 2)) (given ∙ sym least)

  lowest_digit :
      ((b : ℕ) → z b ≡ z (b / 2) * 2 + f 0 (b % 2))
      → (a b : ℕ) → bitwise z f a b ≡ bitwise z f (a / 2) (b / 2) * 2 + f (a % 2) (b % 2)
  lowest_digit start zero b = start b
  lowest_digit start (suc a) b =
      ap (λ t. t * 2 + f (suc a % 2) (b % 2))
        (fuel_enough a a (suc a / 2) (b / 2) (omega arith) (omega arith))

differ-digits : (c d : ℕ) → c < 2 → d < 2 → differ c d ≡ (c + d) % 2
differ-digits zero zero h k = refl
differ-digits zero (suc zero) h k = refl
differ-digits (suc zero) zero h k = refl
differ-digits (suc zero) (suc zero) h k = refl
differ-digits zero (suc (suc d)) h k = absurd (omega arith)
differ-digits (suc zero) (suc (suc d)) h k = absurd (omega arith)
differ-digits (suc (suc c)) d h k = absurd (omega arith)

and_halves : (x y : ℕ) → bit_and x y ≡ bit_and (x / 2) (y / 2) * 2 + min (x % 2) (y % 2)
and_halves x y = simp bit_and-bitwise (lowest_digit (λ w. 0) min (λ w. omega arith) x y)

or_halves : (x y : ℕ) → bit_or x y ≡ bit_or (x / 2) (y / 2) * 2 + max (x % 2) (y % 2)
or_halves x y = simp bit_or-bitwise (lowest_digit (λ w. w) max (λ w. omega arith) x y)

xor_halves : (x y : ℕ) → bit_xor x y ≡ bit_xor (x / 2) (y / 2) * 2 + (x % 2 + y % 2) % 2
xor_halves x y = simp bit_xor-bitwise (
    omega (
      arith,
      lowest_digit (λ w. w) differ
          (λ w. omega (arith, differ-digits 0 (w % 2) (omega arith) (omega arith))) x y,
      differ-digits (x % 2) (y % 2) (omega arith) (omega arith),
    ))

-- Each digit of the result comes from the digits at its place.
pub bit-and : (k a b : ℕ) → bit k (bit_and a b) ≡ min (bit k a) (bit k b)
unfolding bit
bit-and zero a b = omega (arith, and_halves a b)
bit-and (suc k) a b =
    let half : bit_and a b / 2 ≡ bit_and (a / 2) (b / 2) = omega (arith, and_halves a b) in
    rw half (bit-and k (a / 2) (b / 2))

pub bit-or : (k a b : ℕ) → bit k (bit_or a b) ≡ max (bit k a) (bit k b)
unfolding bit
bit-or zero a b = omega (arith, or_halves a b)
bit-or (suc k) a b =
    let half : bit_or a b / 2 ≡ bit_or (a / 2) (b / 2) = omega (arith, or_halves a b) in
    rw half (bit-or k (a / 2) (b / 2))

pub bit-xor : (k a b : ℕ) → bit k (bit_xor a b) ≡ (bit k a + bit k b) % 2
unfolding bit
bit-xor zero a b = omega (arith, xor_halves a b)
bit-xor (suc k) a b =
    let half : bit_xor a b / 2 ≡ bit_xor (a / 2) (b / 2) = omega (arith, xor_halves a b) in
    rw half (bit-xor k (a / 2) (b / 2))

bit_and-zero : (x fuel : ℕ) → x ≤ fuel → bit_and x 0 ≡ 0
bit_and-zero zero fuel h = refl
bit_and-zero (suc x) zero h = absurd (omega arith)
bit_and-zero (suc x) (suc fuel) h =
    omega (arith, and_halves (suc x) 0, bit_and-zero (suc x / 2) fuel (omega arith))

bit_and-double : (x w : ℕ) → bit_and x (2 * w) ≡ bit_and (x / 2) w * 2
bit_and-double x w =
    let half : 2 * w / 2 ≡ w = omega arith in
    let step : bit_and x (2 * w) ≡ bit_and (x / 2) (2 * w / 2) * 2 =
      omega (arith, and_halves x (2 * w)) in
    rw half at step

bit_and-one : (x : ℕ) → bit_and x 1 ≡ x % 2
bit_and-one x = omega (arith, and_halves x 1, bit_and-zero (x / 2) (x / 2) (omega arith))

mul_assoc_two : (a w : ℕ) → a * w * 2 ≡ a * (2 * w)
mul_assoc_two a w = omega arith

-- A mask of one bit takes that digit.
pub bit_and-pow : (k x : ℕ) → bit_and x (2 ^ k) ≡ bit k x * 2 ^ k
unfolding bit
bit_and-pow zero x = omega (arith, bit_and-one x)
bit_and-pow (suc k) x = rw (pow-succ' 2 k) (
    bit_and-double x (2 ^ k)
    ∙ ap (λ t. t * 2) (bit_and-pow k (x / 2))
    ∙ mul_assoc_two (bit k (x / 2)) (2 ^ k))

pub bit_7 : (x : ℕ) → bit 7 x ≡ x / 128 % 2
unfolding bit
bit_7 x = omega arith

bit_and-low : (a b : ℕ) → b < 1 → bit_and a b ≡ 0
bit_and-low a zero h = bit_and-zero a a (omega arith)
bit_and-low a (suc b) h = absurd (omega arith)

-- The results keep within the width.
pub bit_and-lt : (k a b : ℕ) → b < 2 ^ k → bit_and a b < 2 ^ k
bit_and-lt zero a b h = omega (arith, bit_and-low a b h)
bit_and-lt (suc k) a b h = omega (
  arith,
  pow-succ' 2 k,
  and_halves a b,
  bit_and-lt k (a / 2) (b / 2) (omega (arith, pow-succ' 2 k)),
)

pub bit_or-lt : (k a b : ℕ) → a < 2 ^ k → b < 2 ^ k → bit_or a b < 2 ^ k
bit_or-lt zero zero zero h g = omega arith
bit_or-lt zero zero (suc b) h g = absurd (omega arith)
bit_or-lt zero (suc a) b h g = absurd (omega arith)
bit_or-lt (suc k) a b h g = omega (
  arith,
  pow-succ' 2 k,
  or_halves a b,
  bit_or-lt k (a / 2) (b / 2) (omega (arith, pow-succ' 2 k)) (omega (arith, pow-succ' 2 k)),
)

bit_or-low : (a b : ℕ) → a < 1 → bit_or a b ≡ b
bit_or-low zero b h = rw bit_or-bitwise
bit_or-low (suc a) b h = absurd (omega arith)

-- Numbers whose digits are at different places.
pub bit_or-add : (k a b : ℕ) → a < 2 ^ k → bit_or a (b * 2 ^ k) ≡ a + b * 2 ^ k
bit_or-add zero a b h = omega (arith, bit_or-low a (b * 1) h)
bit_or-add (suc k) a b h =
    let half : b * 2 ^ suc k ≡ b * 2 ^ k * 2 = rw (pow-succ' 2 k) (omega arith) in
    let halved : b * 2 ^ suc k / 2 ≡ b * 2 ^ k = omega (arith, half) in
    omega (
      arith,
      half,
      or_halves a (b * 2 ^ suc k),
      ap (bit_or (a / 2)) halved,
      bit_or-add k (a / 2) b (omega (arith, pow-succ' 2 k)),
    )
