-- ===== src/Common/Bytes.antt =====
-- Little-endian words in a list of bytes. A read past the end gives 0, a write past it is dropped.
use Prim.Native.Nat.{ℕ, ◌+◌, ◌*◌, ◌/◌, ◌%◌, ◌^◌, ◌<◌}
use mathlib.Core.Path.{◌≡◌, ◌∙◌}
use mathlib.Core.Logic.{◌≢◌}
use mathlib.Core.List.{List}
use native.Mathlib.Omega.{arith}
use learning_os_project.Common.Lists.{
  length, get_or, set, length-set, get_or-set_self, get_or-set_ne,
}

abbrev pub byte_at : List ℕ → ℕ → ℕ
byte_at bytes i = get_or bytes i 0

unfoldable pub word16_at : List ℕ → ℕ → ℕ
word16_at bytes i = byte_at bytes i + byte_at bytes (i + 1) * 256

unfoldable pub word32_at : List ℕ → ℕ → ℕ
unfolding word16_at
word32_at bytes i = word16_at bytes i + word16_at bytes (i + 2) * 65536

-- `*(u16int *)(bytes + i) = v`
unfoldable pub put16 : List ℕ → ℕ → ℕ → List ℕ
put16 bytes i v = set (set bytes i (v % 256)) (i + 1) (v / 256 % 256)

unfoldable pub put32 : List ℕ → ℕ → ℕ → List ℕ
unfolding put16
put32 bytes i v = put16 (put16 bytes i v) (i + 2) (v / 65536)

pub length-put16 : (bytes : List ℕ) (i v : ℕ) → length (put16 bytes i v) ≡ length bytes
unfolding put16
length-put16 bytes i v = length-set (set bytes i (v % 256)) (i + 1) _ ∙ length-set bytes i _

pub word16_at-put16 :
    (bytes : List ℕ) (i v : ℕ) → i + 1 < length bytes → word16_at (put16 bytes i v) i ≡ v % 2 ^ 16
unfolding word16_at put16
word16_at-put16 bytes i v h =
    let first = set bytes i (v % 256) in
    let low =
      get_or-set_ne first {i = i + 1} {j = i} (v / 256 % 256) 0 (λ e. omega arith)
      ∙ get_or-set_self bytes i (v % 256) 0 (omega arith) in
    let high =
      get_or-set_self first (i + 1) (v / 256 % 256) 0
        (omega (arith, length-set bytes i (v % 256))) in
    omega (arith, low, high)

-- A word that does not meet the one written stays.
pub word16_at-put16_ne :
    (bytes : List ℕ) (i j v : ℕ)
    → i ≢ j
    → i + 1 ≢ j
    → i ≢ j + 1
    → word16_at (put16 bytes i v) j ≡ word16_at bytes j
unfolding word16_at put16
word16_at-put16_ne bytes i j v h k l =
    let first = set bytes i (v % 256) in
    let low =
      get_or-set_ne first {i = i + 1} {j = j} (v / 256 % 256) 0 k
      ∙ get_or-set_ne bytes {i = i} {j = j} (v % 256) 0 h in
    let high =
      get_or-set_ne first {i = i + 1} {j = j + 1} (v / 256 % 256) 0 (λ e. h (omega arith))
      ∙ get_or-set_ne bytes {i = i} {j = j + 1} (v % 256) 0 l in
    omega (arith, low, high)
