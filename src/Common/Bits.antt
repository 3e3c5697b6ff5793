-- ===== src/Common/Bits.antt =====
-- Bits of machine words. `bit w i` is `(w >> i) & 1`; the native `bit_or` and `bit_and` act bit
-- by bit.
use Prim.Native.Nat.{
  ℕ, zero, suc, ◌+◌, ◌-◌, ◌*◌, ◌/◌, ◌%◌, ◌^◌, ◌≤◌, ◌<◌, min, max, bit_and, bit_or, digits,
  bit_and-bitwise, bit_or-bitwise,
}
use mathlib.Core.Path.{◌≡◌, refl, sym, ap, ap₂, ◌∙◌}
use mathlib.Core.Logic.{◌≢◌}
use native.Mathlib.Nat.{pow-suc}
use native.Mathlib.Omega.{arith}

unfoldable pub bit : ℕ → ℕ → ℕ
bit w zero = w % 2
bit w (suc i) = bit (w / 2) i

-- `digits z f` is the bitwise operation of `f`, where `z` is what is left once the first number has
-- run out; its first number counts the rounds.
module _ (z : ℕ → ℕ) (f : ℕ → ℕ → ℕ) where
  digits-zero : (rounds b : ℕ) → digits z f rounds 0 b ≡ z b
  digits-zero zero b = refl
  digits-zero (suc rounds) b = refl

  digits-rounds :
      (a many few b : ℕ) → a ≤ few → few ≤ many → digits z f many a b ≡ digits z f few a b
  digits-rounds zero many few b h k = digits-zero many b ∙ sym (digits-zero few b)
  digits-rounds (suc a) many zero b h k = absurd (omega arith)
  digits-rounds (suc a) zero (suc few) b h k = absurd (omega arith)
  digits-rounds (suc a) (suc many) (suc few) b h k =
      ap (λ (d : ℕ). d * 2 + f (suc a % 2) (b % 2))
        (digits-rounds (suc a / 2) many few (b / 2) (omega arith) (omega arith))

  -- The operation works on the lowest digits and on the halves.
  halves :
      (op : ℕ → ℕ → ℕ)
      → ((a b : ℕ) → op a b ≡ digits z f a a b)
      → ((b : ℕ) → z b ≡ z (b / 2) * 2 + f 0 (b % 2))
      → (a b : ℕ) → op a b ≡ op (a / 2) (b / 2) * 2 + f (a % 2) (b % 2)
  halves op is_op end zero b =
      is_op 0 b ∙ end b ∙ ap (λ (d : ℕ). d * 2 + f 0 (b % 2)) (sym (is_op 0 (b / 2)))
  halves op is_op end (suc a) b =
      is_op (suc a) b
      ∙ ap (λ (d : ℕ). d * 2 + f (suc a % 2) (b % 2))
          (digits-rounds (suc a / 2) a (suc a / 2) (b / 2) (omega arith) (omega arith)
            ∙ sym (is_op (suc a / 2) (b / 2)))

pub bit_or_halves : (v w : ℕ) → bit_or v w ≡ bit_or (v / 2) (w / 2) * 2 + max (v % 2) (w % 2)
bit_or_halves = halves (λ b. b) max bit_or bit_or-bitwise (λ b. omega arith)

pub bit_and_halves : (v w : ℕ) → bit_and v w ≡ bit_and (v / 2) (w / 2) * 2 + min (v % 2) (w % 2)
bit_and_halves = halves (λ b. 0) min bit_and bit_and-bitwise (λ b. omega arith)

zero-bit_and : (b : ℕ) → bit_and 0 b ≡ 0
zero-bit_and b = bit_and-bitwise 0 b

zero-bit_or : (b : ℕ) → bit_or 0 b ≡ b
zero-bit_or b = bit_or-bitwise 0 b

bit_or-half : (a b : ℕ) → bit_or a b / 2 ≡ bit_or (a / 2) (b / 2)
bit_or-half a b = omega (arith, bit_or_halves a b)

bit_and-half : (a b : ℕ) → bit_and a b / 2 ≡ bit_and (a / 2) (b / 2)
bit_and-half a b = omega (arith, bit_and_halves a b)

-- Each bit of `a | b` is the greater of the two bits.
pub bit-bit_or : (a b i : ℕ) → bit (bit_or a b) i ≡ max (bit a i) (bit b i)
unfolding bit
bit-bit_or a b zero = omega (arith, bit_or_halves a b)
bit-bit_or a b (suc i) = rw (bit_or-half a b) (bit-bit_or (a / 2) (b / 2) i)

-- Each bit of `a & b` is the lesser of the two bits.
pub bit-bit_and : (a b i : ℕ) → bit (bit_and a b) i ≡ min (bit a i) (bit b i)
unfolding bit
bit-bit_and a b zero = omega (arith, bit_and_halves a b)
bit-bit_and a b (suc i) = rw (bit_and-half a b) (bit-bit_and (a / 2) (b / 2) i)

pub bit-lt : (w i : ℕ) → bit w i < 2
unfolding bit
bit-lt w zero = omega arith
bit-lt w (suc i) = bit-lt (w / 2) i

pub bit-zero : (i : ℕ) → bit 0 i ≡ 0
unfolding bit
bit-zero zero = refl
bit-zero (suc i) = bit-zero i

pow-half : (b : ℕ) → 2 ^ suc b / 2 ≡ 2 ^ b
pow-half b = omega (arith, pow-suc 2 b)

pub pow-pos : (k : ℕ) → 0 < 2 ^ k
pow-pos zero = omega arith
pow-pos (suc k) = omega (arith, pow-suc 2 k, pow-pos k)

pub pow-lt : (k n : ℕ) → k < n → 2 ^ k < 2 ^ n
pow-lt k zero h = absurd (omega arith)
pow-lt zero (suc n) h = omega (arith, pow-suc 2 n, pow-pos n)
pow-lt (suc k) (suc n) h = omega (arith, pow-suc 2 k, pow-suc 2 n, pow-lt k n (omega arith))

-- `1 << b` has bit `b` and no other.
pub bit-pow_self : (b : ℕ) → bit (2 ^ b) b ≡ 1
unfolding bit
bit-pow_self zero = refl
bit-pow_self (suc b) = rw (pow-half b) (bit-pow_self b)

pub bit-pow_ne : (b i : ℕ) → b ≢ i → bit (2 ^ b) i ≡ 0
unfolding bit
bit-pow_ne zero zero h = absurd (h refl)
bit-pow_ne zero (suc i) h = bit-zero i
bit-pow_ne (suc b) zero h = omega (arith, pow-suc 2 b)
bit-pow_ne (suc b) (suc i) h = rw (pow-half b) (bit-pow_ne b i (λ e. h (ap suc e)))

-- The complement within `n` bits flips each of them.
pub bit-complement : (n x i : ℕ) → x < 2 ^ n → i < n → bit (2 ^ n - 1 - x) i ≡ 1 - bit x i
unfolding bit
bit-complement zero x i h k = absurd (omega arith)
bit-complement (suc n) x zero h k = omega (arith, pow-suc 2 n)
bit-complement (suc n) x (suc i) h k =
    let half : (2 ^ suc n - 1 - x) / 2 ≡ 2 ^ n - 1 - x / 2 = omega (arith, pow-suc 2 n) in
    rw half (bit-complement n (x / 2) i (omega (arith, pow-suc 2 n)) (omega arith))

-- A word of `n` bits stays one.
pub bit_or-lt : (n a b : ℕ) → a < 2 ^ n → b < 2 ^ n → bit_or a b < 2 ^ n
bit_or-lt zero a b h k =
    let a0 : a ≡ 0 = omega arith in
    let b0 : b ≡ 0 = omega arith in rw (a0, b0) (omega (arith, zero-bit_or 0))
bit_or-lt (suc n) a b h k = omega (
  arith,
  bit_or_halves a b,
  pow-suc 2 n,
  bit_or-lt n (a / 2) (b / 2) (omega (arith, pow-suc 2 n)) (omega (arith, pow-suc 2 n)),
)

pub bit_and-le : (n a b : ℕ) → a ≤ n → bit_and a b ≤ a
bit_and-le zero a b h = let a0 : a ≡ 0 = omega arith in rw a0 (omega (arith, zero-bit_and b))
bit_and-le (suc n) zero b h = omega (arith, zero-bit_and b)
bit_and-le (suc n) (suc a) b h =
    omega (arith, bit_and_halves (suc a) b, bit_and-le n (suc a / 2) (b / 2) (omega arith))

-- Two words of `n` bits with the same bits are equal.
pub bit_ext : (n a b : ℕ) → a < 2 ^ n → b < 2 ^ n → ((i : ℕ) → i < n → bit a i ≡ bit b i) → a ≡ b
unfolding bit
bit_ext zero a b h k same = omega arith
bit_ext (suc n) a b h k same =
    let halves : a / 2 ≡ b / 2 =
      bit_ext n (a / 2) (b / 2) (omega (arith, pow-suc 2 n)) (omega (arith, pow-suc 2 n))
        (λ i l. same (suc i) (omega arith)) in
    omega (arith, halves, same zero (omega arith))

bit_or-zero_below : (n a : ℕ) → a ≤ n → bit_or a 0 ≡ a
bit_or-zero_below n zero h = zero-bit_or 0
bit_or-zero_below zero (suc a) h = absurd (omega arith)
bit_or-zero_below (suc n) (suc a) h =
    omega (arith, bit_or_halves (suc a) 0, bit_or-zero_below n (suc a / 2) (omega arith))

pub bit_or-zero : (a : ℕ) → bit_or a 0 ≡ a
bit_or-zero a = bit_or-zero_below a a (omega arith)

-- Or-ing a power of two into a multiple of the next one adds it.
pub bit_or-pow : (k q : ℕ) → bit_or (q * 2 ^ suc k) (2 ^ k) ≡ q * 2 ^ suc k + 2 ^ k
bit_or-pow zero q =
    let h : q * 2 ^ 1 / 2 ≡ q = omega arith in
    omega (arith, bit_or_halves (q * 2 ^ 1) (2 ^ 0), ap (λ (t : ℕ). bit_or t 0) h, bit_or-zero q)
bit_or-pow (suc k) q =
    let twice : q * 2 ^ suc (suc k) ≡ q * 2 ^ suc k * 2 =
      omega (arith, ap (λ (t : ℕ). q * t) (pow-suc 2 (suc k))) in
    let h : q * 2 ^ suc (suc k) / 2 ≡ q * 2 ^ suc k = omega (arith, twice) in
    omega (
      arith,
      bit_or_halves (q * 2 ^ suc (suc k)) (2 ^ suc k),
      ap₂ bit_or h (pow-half k),
      bit_or-pow k q,
      twice,
      pow-suc 2 k,
    )
