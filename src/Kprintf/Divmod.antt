-- ===== src/Kprintf/Divmod.antt =====
-- The shift-and-subtract division of kprintf.c is the division of numbers.
use native.Mathlib.Nat.{
  pow-suc, add-mul-div_left, div-eq_of_lt, mod-eq_of_lt, add-mul-mod_self_left,
}
use learning_os_project.Common.{
  ℕ, zero, suc, ◌+◌, ◌-◌, ◌*◌, ◌/◌, ◌%◌, ◌^◌, ◌≤◌, ◌<◌, ◌≡◌, refl, ap, ap₂, ◌∙◌, sym, false, ◌&&◌,
  arith, bit_or, ltb, leb, ◌==◌, Bool-cases, ne→==, leb→le, inl, inr,
}
use learning_os_project.Common.Bits.{bit_or-pow, pow-pos}
use learning_os_project.Kprintf.{double64, scale_up, scale_down, u64_divmod}

scale_down_done : (fuel n denom quotient : ℕ) → scale_down fuel n denom 0 quotient ≡ (quotient, n)
unfolding scale_down
scale_down_done zero n denom quotient = refl
scale_down_done (suc fuel) n denom quotient = refl

-- `current` is `2 ^ k` and `denom` is `base * 2 ^ k`; what is left of `n` is below twice that.
record AtBit (k n base denom current m quotient : ℕ) : Type 0 where
  base_pos : 0 < base
  denom_eq : denom ≡ base * 2 ^ k
  current_eq : current ≡ 2 ^ k
  quotient_eq : quotient ≡ m * 2 ^ suc k
  small : n < 2 * denom

or-is-add :
    {k n base denom current m quotient : ℕ}
    → AtBit k n base denom current m quotient
    → bit_or quotient current ≡ quotient + current
or-is-add {k} {m} a = rw (a.quotient_eq, a.current_eq) (bit_or-pow k m)

module _ {k n base denom current m quotient : ℕ}
    (a : AtBit (suc k) n base denom current m quotient) where
  denom-half : denom ≡ base * 2 ^ k * 2
  denom-half = omega (arith, ap (λ (t : ℕ). base * t) (pow-suc 2 k), a.denom_eq)

  quotient-half : quotient ≡ m * 2 ^ suc k * 2
  quotient-half = omega (arith, ap (λ (t : ℕ). m * t) (pow-suc 2 (suc k)), a.quotient_eq)

  AtBit-skip : n < denom → AtBit k n base (denom / 2) (current / 2) (2 * m) quotient
  AtBit-skip h = omega (arith, denom-half, quotient-half, pow-suc 2 k, a)

  AtBit-take :
      denom ≤ n
      → AtBit k (n - denom) base (denom / 2) (current / 2) (2 * m + 1) (bit_or quotient current)
  AtBit-take h = omega (arith, denom-half, quotient-half, pow-suc 2 k, or-is-add a, a)

take_result :
    {k n base denom current m quotient : ℕ}
    → AtBit k n base denom current m quotient
    → denom ≤ n
    → (bit_or quotient current + (n - denom) / base ≡ quotient + n / base)
      × ((n - denom) % base ≡ n % base)
take_result {k} {n} {base} {denom} a h =
    let e : n - denom + base * 2 ^ k ≡ n = omega arith in
    (
      omega (arith, or-is-add a, rw e at (add-mul-div_left (n - denom) (2 ^ k) a.base_pos)),
      sym (rw e at (add-mul-mod_self_left (n - denom) base (2 ^ k))),
    )

current-ne :
    {k n base denom current m quotient : ℕ}
    → AtBit k n base denom current m quotient
    → (current == 0) ≡ false
current-ne {k} a = ne→== _ _ (omega (arith, a.current_eq, pow-pos k))

scale_down_lem :
    (fuel k n base denom current m quotient : ℕ)
    → AtBit k n base denom current m quotient
    → k < fuel
    → scale_down fuel n denom current quotient ≡ (quotient + n / base, n % base)
unfolding scale_down
scale_down_lem zero k n base denom current m quotient a h = absurd (omega arith)
scale_down_lem (suc fuel) zero n base denom current m quotient a h =
    let half : current / 2 ≡ 0 = omega arith in
    elim (Bool-cases (leb denom n)) [
      | inl e ↦
          let le : denom ≤ n = leb→le _ _ e in
          let r = take_result a le in
          rw (current-ne a, scale_down, e, half, scale_down_done)
            (ap₂ (λ x y. (x, y))
              (omega (arith, r.0, div-eq_of_lt {n = n - denom} {m = base} (omega arith)))
              (omega (arith, r.1, mod-eq_of_lt {n = n - denom} {m = base} (omega arith))))
      | inr e ↦
          rw (current-ne a, scale_down, e, half, scale_down_done)
            (ap₂ (λ x y. (x, y)) (omega (arith, div-eq_of_lt {n = n} {m = base} (ground arith)))
              (omega (arith, mod-eq_of_lt {n = n} {m = base} (ground arith))))
    ]
scale_down_lem (suc fuel) (suc k) n base denom current m quotient a h =
    elim (Bool-cases (leb denom n)) [
      | inl e ↦
          let le : denom ≤ n = leb→le _ _ e in
          let r = take_result a le in
          rw (current-ne a, scale_down, e)
            (scale_down_lem fuel k (n - denom) base (denom / 2) (current / 2) (2 * m + 1)
                (bit_or quotient current) (AtBit-take a le) (omega arith)
              ∙ ap₂ (λ x y. (x, y)) r.0 r.1)
      | inr e ↦
          rw (current-ne a, scale_down, e)
            (scale_down_lem fuel k n base (denom / 2) (current / 2) (2 * m) quotient
              (AtBit-skip a (ground arith)) (omega arith))
    ]

-- Where the first loop stops: `denom` is `base * 2 ^ j`, `current` is `2 ^ j`.
record Scaled (n base : ℕ) (s : ℕ × ℕ) (j : ℕ) : Type 0 where
  denom_eq : s.0 ≡ base * 2 ^ j
  current_eq : s.1 ≡ 2 ^ j
  bits : j < 64
  enough : n < 2 * s.0

le-mul : (b t : ℕ) → 0 < b → t ≤ b * t
le-mul zero t h = absurd (omega arith)
le-mul (suc b) t h = omega arith

stops :
    (denom n : ℕ)
    → 0 < denom
    → n < 2 ^ 64
    → denom < 2 ^ 64
    → (ltb denom (double64 denom) && leb (double64 denom) n) ≡ false
    → n < 2 * denom
stops denom n hp hn hd e = elim (Bool-cases (ltb denom (double64 denom))) [
  | inl p ↦ elim (Bool-cases (leb (double64 denom) n)) [
    | inl q ↦ cc (sym (ap₂ ◌&&◌ p q) ∙ e)
    | inr q ↦ ground arith
  ]
  | inr p ↦ ground arith
]

scale_up_lem :
    (fuel k n base denom current : ℕ)
    → 0 < base
    → n < 2 ^ 64
    → k + fuel ≡ 64
    → denom < 2 ^ 64
    → denom ≡ base * 2 ^ k
    → current ≡ 2 ^ k
    → (j : ℕ) × Scaled n base (scale_up fuel n denom current) j
unfolding scale_up
scale_up_lem zero k n base denom current hb hn hf hd ed ec =
    let k64 : k ≡ 64 = omega arith in absurd (omega (arith, rw k64 at ed))
scale_up_lem (suc fuel) k n base denom current hb hn hf hd ed ec =
    elim (Bool-cases (ltb denom (double64 denom) && leb (double64 denom) n)) [
      | inl e ↦
          let grows : denom < double64 denom = ground arith in
          rw (e, scale_up)
            (scale_up_lem fuel (suc k) n base (double64 denom) (double64 current) hb hn
              (omega arith) (omega arith)
              (omega (arith, grows, ap (λ (t : ℕ). base * t) (pow-suc 2 k)))
              (omega (arith, grows, pow-suc 2 k, le-mul base (2 ^ k) hb)))
      | inr e ↦
          let ends : n < 2 * denom =
            stops denom n (omega (arith, le-mul base (2 ^ k) hb, pow-pos k)) hn hd e in
          rw (e, scale_up)
            (k, record { denom_eq = ed; current_eq = ec; bits = omega arith; enough = ends })
    ]

-- For a 64-bit `n` and a 32-bit base that is not 0, `u64_divmod` returns the quotient `n /
-- base`, and stores the rest `n % base`.
pub u64_divmod_lem :
    (n base : ℕ) → n < 2 ^ 64 → 0 < base → base < 2 ^ 32 → u64_divmod n base ≡ (n / base, n % base)
unfolding u64_divmod
u64_divmod_lem n base hn hb hw =
    let (j, s) = scale_up_lem 64 0 n base base 1 hb hn refl (omega arith) (omega arith) refl in
    let start : AtBit j n base (scale_up 64 n base 1).0 (scale_up 64 n base 1).1 0 0 = record {
      base_pos = hb;
      denom_eq = s.denom_eq;
      current_eq = s.current_eq;
      quotient_eq = omega arith;
      small = s.enough;
    } in
    rw
      (
        ne→== base 0 (omega arith),
        scale_down_lem 65 j n base (scale_up 64 n base 1).0 (scale_up 64 n base 1).1 0 0 start
            (omega (arith, s.bits)),
      )
      (ap₂ (λ x y. (x, y)) (omega arith) (omega arith))
