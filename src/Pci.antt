-- ===== src/Pci.antt =====
-- src/net/pci.c: the search for a device on the PCI bus. `config address` is the word that
-- `outl(0xCF8, address); inl(0xCFC)` gives.
use Prim.Native.Nat.{bit_and, bit_or}
use learning_os_project.Common.{
  ℕ, zero, suc, ◌+◌, ◌*◌, ◌/◌, ◌%◌, ◌^◌, ◌≤◌, ◌<◌, ◌≡◌, sym, ◌∙◌, Bool, true, false, ◌&&◌, Option,
  none, some, ◌==◌, arith, Bool-cases, Option-cases, some-inj, ==_iff, inl, inr, dec_lt, subst,
}

unfoldable pub config_address : ℕ → ℕ → ℕ → ℕ → ℕ
config_address bus slot func offset =
    bit_or (bit_or (bit_or (bit_or (2 ^ 31) (bus * 2 ^ 16)) (slot * 2 ^ 11)) (func * 2 ^ 8))
      (bit_and offset 0xFC)

clash : true ≡ false → ⊥
clash e = cc

module _ (config : ℕ → ℕ) where
  unfoldable pub pci_read_dword : ℕ → ℕ → ℕ → ℕ → ℕ
  pci_read_dword bus slot func offset = config (config_address bus slot func offset)

  -- No device answers there.
  abbrev pub is_absent : ℕ → Bool
  is_absent val = val % 2 ^ 16 == 0xFFFF

  abbrev pub is_device : ℕ → ℕ → ℕ → Bool
  is_device vendor device val = (val % 2 ^ 16 == vendor) && (val / 2 ^ 16 % 2 ^ 16 == device)

  -- The functions that are left of a slot: without function 0 there is none.
  unfoldable pub find_func : ℕ → ℕ → ℕ → ℕ → ℕ → ℕ → Option ℕ
  find_func vendor device bus slot zero func = none
  find_func vendor device bus slot (suc n) func =
      let val = pci_read_dword bus slot func 0 in
      elim (is_absent val) [
        | true ↦ elim (func == 0) [
          | true ↦ none
          | false ↦ find_func vendor device bus slot n (func + 1)
        ]
        | false ↦ elim (is_device vendor device val) [
          | true ↦ some func
          | false ↦ find_func vendor device bus slot n (func + 1)
        ]
      ]

  unfoldable pub find_slot : ℕ → ℕ → ℕ → ℕ → ℕ → Option (ℕ × ℕ)
  unfolding find_func
  find_slot vendor device bus zero slot = none
  find_slot vendor device bus (suc n) slot = elim (find_func vendor device bus slot 8 0) [
    | some func ↦ some (slot, func)
    | none ↦ find_slot vendor device bus n (slot + 1)
  ]

  unfoldable pub find_bus : ℕ → ℕ → ℕ → ℕ → Option (ℕ × ℕ × ℕ)
  unfolding find_slot
  find_bus vendor device zero bus = none
  find_bus vendor device (suc n) bus = elim (find_slot vendor device bus 32 0) [
    | some (slot, func) ↦ some (bus, slot, func)
    | none ↦ find_bus vendor device n (bus + 1)
  ]

  -- The bus, the slot and the function.
  unfoldable pub pci_find_device : ℕ → ℕ → Option (ℕ × ℕ × ℕ)
  unfolding find_bus
  pci_find_device vendor device = find_bus vendor device 256 0

  -- A function that answers with these numbers.
  abbrev pub Present : ℕ → ℕ → ℕ → ℕ → ℕ → Type 0
  Present vendor device bus slot func =
      (is_absent (pci_read_dword bus slot func 0) ≡ false)
      × (is_device vendor device (pci_read_dword bus slot func 0) ≡ true)

  find_func-some :
      (vendor device bus slot n func : ℕ) {r : ℕ}
      → find_func vendor device bus slot n func ≡ some r
      → (r < func + n) × Present vendor device bus slot r
  unfolding find_func
  find_func-some vendor device bus slot zero func e = absurd (let x = e in cc)
  find_func-some vendor device bus slot (suc n) func {r} e =
      let val = pci_read_dword bus slot func 0 in
      elim (Bool-cases (is_absent val)) [
        | inl p ↦ elim (Bool-cases (func == 0)) [
          | inl q ↦ absurd (let x = rw (p, q, find_func) at e in cc)
          | inr q ↦
              let (low, here) =
                find_func-some vendor device bus slot n (func + 1) {r = r}
                  (rw (p, q, find_func) at e) in
              (omega (arith, low), here)
        ]
        | inr p ↦ elim (Bool-cases (is_device vendor device val)) [
          | inl q ↦
              let same : func ≡ r = some-inj (rw (p, q, find_func) at e) in
              (omega arith, subst (λ (f : ℕ). Present vendor device bus slot f) same (p, q))
          | inr q ↦
              let (low, here) =
                find_func-some vendor device bus slot n (func + 1) {r = r}
                  (rw (p, q, find_func) at e) in
              (omega (arith, low), here)
        ]
      ]

  -- If function 0 of the slot is there and the search finds nothing, none of the functions fits.
  find_func-none :
      (vendor device bus slot n func : ℕ)
      → ((func ≡ 0) → is_absent (pci_read_dword bus slot 0 0) ≡ false)
      → find_func vendor device bus slot n func ≡ none
      → (f : ℕ) → func ≤ f
      → f < func + n
      → Present vendor device bus slot f
      → ⊥
  unfolding find_func
  find_func-none vendor device bus slot zero func h e f l k here = absurd (omega arith)
  find_func-none vendor device bus slot (suc n) func h e f l k here =
      let val = pci_read_dword bus slot func 0 in
      elim (Bool-cases (is_absent val)) [
        | inl p ↦ elim (Bool-cases (func == 0)) [
          | inl q ↦
              let zeroth : func ≡ 0 = (==_iff func 0).0 q in
              let gone : is_absent (pci_read_dword bus slot 0 0) ≡ true =
                subst (λ (t : ℕ). is_absent (pci_read_dword bus slot t 0) ≡ true) zeroth p in
              clash (sym gone ∙ h zeroth)
          | inr q ↦ elim (dec_lt func f) [
            | yes later ↦
                find_func-none vendor device bus slot n (func + 1) (λ z. absurd (omega arith))
                  (rw (p, q, find_func) at e) f (omega arith) (omega arith) here
            | no now ↦
                let same : f ≡ func = omega arith in
                clash (
                  sym p
                  ∙ subst (λ (t : ℕ). is_absent (pci_read_dword bus slot t 0) ≡ false) same here.0)
          ]
        ]
        | inr p ↦ elim (Bool-cases (is_device vendor device val)) [
          | inl q ↦ absurd (let x = rw (p, q, find_func) at e in cc)
          | inr q ↦ elim (dec_lt func f) [
            | yes later ↦
                find_func-none vendor device bus slot n (func + 1) (λ z. absurd (omega arith))
                  (rw (p, q, find_func) at e) f (omega arith) (omega arith) here
            | no now ↦
                let same : f ≡ func = omega arith in
                clash (
                  sym (
                    subst (λ (t : ℕ). is_device vendor device (pci_read_dword bus slot t 0) ≡ true)
                      same here.1)
                  ∙ q)
          ]
        ]
      ]

  find_slot-some :
      (vendor device bus n slot : ℕ) {s f : ℕ}
      → find_slot vendor device bus n slot ≡ some (s, f)
      → (s < slot + n) × (f < 8) × Present vendor device bus s f
  unfolding find_slot
  find_slot-some vendor device bus zero slot e = absurd (let x = e in cc)
  find_slot-some vendor device bus (suc n) slot {s} {f} e =
      elim (Option-cases (find_func vendor device bus slot 8 0)) [
        | inl p ↦
            let (low, few, here) =
              find_slot-some vendor device bus n (slot + 1) {s = s} {f = f}
                (rw (p, find_slot) at e) in
            (omega (arith, low), few, here)
        | inr (func, p) ↦
            let (low, here) = find_func-some vendor device bus slot 8 0 {r = func} p in
            subst
              (λ (t : ℕ × ℕ). (t.0 < slot + suc n) × (t.1 < 8) × Present vendor device bus t.0 t.1)
              (some-inj (rw (p, find_slot) at e)) (omega arith, omega (arith, low), here)
      ]

  -- A function of a slot whose function 0 answers.
  abbrev pub Reachable : ℕ → ℕ → ℕ → ℕ → ℕ → Type 0
  Reachable vendor device bus slot func =
      (is_absent (pci_read_dword bus slot 0 0) ≡ false) × Present vendor device bus slot func

  find_slot-none :
      (vendor device bus n slot : ℕ)
      → find_slot vendor device bus n slot ≡ none
      → (s f : ℕ) → slot ≤ s
      → s < slot + n
      → f < 8
      → Reachable vendor device bus s f
      → ⊥
  unfolding find_slot
  find_slot-none vendor device bus zero slot e s f l k m here = absurd (omega arith)
  find_slot-none vendor device bus (suc n) slot e s f l k m here =
      elim (Option-cases (find_func vendor device bus slot 8 0)) [
        | inr (func, p) ↦ absurd (let x = rw (p, find_slot) at e in cc)
        | inl p ↦ elim (dec_lt slot s) [
          | yes later ↦
              find_slot-none vendor device bus n (slot + 1) (rw (p, find_slot) at e) s f
                (omega arith) (omega arith) m here
          | no now ↦
              let same : s ≡ slot = omega arith in
              let there = subst (λ (t : ℕ). Reachable vendor device bus t f) same here in
              find_func-none vendor device bus slot 8 0 (λ z. there.0) p f (omega arith)
                (omega arith) there.1
        ]
      ]

  find_bus-some :
      (vendor device n bus : ℕ) {b s f : ℕ}
      → find_bus vendor device n bus ≡ some (b, s, f)
      → (b < bus + n) × (s < 32) × (f < 8) × Present vendor device b s f
  unfolding find_bus
  find_bus-some vendor device zero bus e = absurd (let x = e in cc)
  find_bus-some vendor device (suc n) bus {b} {s} {f} e =
      elim (Option-cases (find_slot vendor device bus 32 0)) [
        | inl p ↦
            let (low, few, small, here) =
              find_bus-some vendor device n (bus + 1) {b = b} {s = s} {f = f}
                (rw (p, find_bus) at e) in
            (omega (arith, low), few, small, here)
        | inr (r, p) ↦
            let (few, small, here) = find_slot-some vendor device bus 32 0 {s = r.0} {f = r.1} p in
            subst
              (λ (t : ℕ × ℕ × ℕ).
                (t.0 < bus + suc n) × (t.1 < 32) × (t.2 < 8) × Present vendor device t.0 t.1 t.2)
              (some-inj (rw (p, find_bus) at e)) (omega arith, omega (arith, few), small, here)
      ]

  find_bus-none :
      (vendor device n bus : ℕ)
      → find_bus vendor device n bus ≡ none
      → (b s f : ℕ) → bus ≤ b
      → b < bus + n
      → s < 32
      → f < 8
      → Reachable vendor device b s f
      → ⊥
  unfolding find_bus
  find_bus-none vendor device zero bus e b s f l k m o here = absurd (omega arith)
  find_bus-none vendor device (suc n) bus e b s f l k m o here =
      elim (Option-cases (find_slot vendor device bus 32 0)) [
        | inr (r, p) ↦ absurd (let x = rw (p, find_bus) at e in cc)
        | inl p ↦ elim (dec_lt bus b) [
          | yes later ↦
              find_bus-none vendor device n (bus + 1) (rw (p, find_bus) at e) b s f (omega arith)
                (omega arith) m o here
          | no now ↦
              let same : b ≡ bus = omega arith in
              let there = subst (λ (t : ℕ). Reachable vendor device t s f) same here in
              find_slot-none vendor device bus 32 0 p s f (omega arith) (omega arith) o there
        ]
      ]

  -- What the search may answer.
  abbrev pub Located : ℕ → ℕ → Option (ℕ × ℕ × ℕ) → Type 0
  Located vendor device none =
      (b s f : ℕ) → b < 256 → s < 32 → f < 8 → Reachable vendor device b s f → ⊥
  Located vendor device (some (b, s, f)) =
      (b < 256) × (s < 32) × (f < 8) × Present vendor device b s f

  -- `pci_find_device` gives the place of a function that answers with the two numbers, or says that
  -- there is none, and then no function with these numbers answers in any slot whose function 0
  -- answers.
  pub pci_find_device_lem :
      (vendor device : ℕ) → Located vendor device (pci_find_device vendor device)
  unfolding pci_find_device
  pci_find_device_lem vendor device = elim (Option-cases (find_bus vendor device 256 0)) [
    | inl p ↦
        rw (p, pci_find_device)
          (λ b s f h k l here.
            find_bus-none vendor device 256 0 p b s f (omega arith) (omega arith) k l here)
    | inr ((b, s, f), p) ↦
        rw (p, pci_find_device) (find_bus-some vendor device 256 0 {b = b} {s = s} {f = f} p)
  ]
