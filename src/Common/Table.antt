-- ===== src/Common/Table.antt =====
-- A statement about every number of a small range, by evaluation.
use Prim.Native.Nat.{ℕ, zero, suc, ◌<◌}
use mathlib.Core.Path.{◌≡◌}
use mathlib.Core.Bool.{Bool, true, ◌&&◌}
use native.Mathlib.Decide.{dec_lt}
use native.Mathlib.Omega.{arith}

unfoldable pub holds_below : (ℕ → Bool) → ℕ → Bool
holds_below test zero = true
holds_below test (suc bound) = holds_below test bound && test bound

pub holds_below-at :
    (test : ℕ → Bool) (bound : ℕ)
    → holds_below test bound ≡ true
    → (k : ℕ) → k < bound
    → test k ≡ true
unfolding holds_below
holds_below-at test zero e k lt = absurd (omega arith)
holds_below-at test (suc bound) e k lt = elim (dec_lt k bound) [
  | yes less ↦ holds_below-at test bound (ground arith) k less
  | no last ↦
      let same : bound ≡ k = omega arith in
      let here : test bound ≡ true = ground arith in rw same at here
]
