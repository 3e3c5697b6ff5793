-- ===== src/Descriptors/Fields.antt =====
-- Which gate an interrupt finds, and the base that a descriptor holds.
use learning_os_project.Common.{
  ℕ, zero, suc, ◌+◌, ◌*◌, ◌^◌, ◌≤◌, ◌<◌, ◌≡◌, refl, sym, ap, ◌∙◌, inl, inr, true, false, ◌&&◌, List,
  ltb, leb, ◌==◌, if◌then◌else◌, ◌≢◌, subst, ne→==, length, get_or, set, replicate, get_or-set_self,
  get_or-set_ne, length-set, arith, Bool-cases, ==_iff, ==→ne,
}
use learning_os_project.Descriptors.{IdtEntry, no_gate, gate, idt_set_gate, set_gates, init_idt}

-- The address that a gate holds.
abbrev pub target : IdtEntry → ℕ
target e = e.base_high * 2 ^ 16 + e.base_low

set_gate-at :
    (entries : List IdtEntry) (i j : ℕ) (e : IdtEntry)
    → i < length entries
    → get_or (set entries i e) j no_gate ≡ (if i == j then e else get_or entries j no_gate)
set_gate-at entries i j e h = elim (Bool-cases (i == j)) [
  | inl p ↦
      let same : i ≡ j = (==_iff i j).0 p in
      rw p (
        ap (λ (k : ℕ). get_or (set entries i e) k no_gate) (sym same)
        ∙ get_or-set_self entries i e no_gate h)
  | inr p ↦ rw p (get_or-set_ne entries e no_gate (==→ne i j p))
]

length-set_gates :
    (stub : ℕ → ℕ) (count num : ℕ) (entries : List IdtEntry)
    → length (set_gates stub count num entries) ≡ length entries
unfolding set_gates idt_set_gate
length-set_gates stub zero num entries = refl
length-set_gates stub (suc count) num entries =
    length-set_gates stub count (num + 1) _ ∙ length-set entries num _

set_gates-at :
    (stub : ℕ → ℕ) (count num : ℕ) (entries : List IdtEntry) (j : ℕ)
    → num + count ≤ length entries
    → get_or (set_gates stub count num entries) j no_gate ≡ (
        if leb num j && ltb j (num + count)
        then gate (stub j) 0x08 0x8E
        else get_or entries j no_gate)
unfolding set_gates idt_set_gate
set_gates-at stub zero num entries j h = ground arith
set_gates-at stub (suc count) num entries j h =
    let e = gate (stub num) 0x08 0x8E in
    let here = set_gate-at entries num j e (omega arith) in
    let rest =
      set_gates-at stub count (num + 1) (set entries num e) j
        (omega (arith, length-set entries num e)) in
    elim (Bool-cases (num == j)) [
      | inl p ↦
          let same : num ≡ j = (==_iff num j).0 p in
          let before : (leb (num + 1) j && ltb j (num + 1 + count)) ≡ false = ground arith in
          let inside : (leb num j && ltb j (num + suc count)) ≡ true = ground arith in
          let skipped : (if leb (num + 1) j && ltb j (num + 1 + count)
                then gate (stub j) 0x08 0x8E
                else get_or (set entries num e) j no_gate)
              ≡ get_or (set entries num e) j no_gate =
            rw before refl in
          let chosen : (if num == j then e else get_or entries j no_gate)
              ≡ gate (stub j) 0x08 0x8E =
            rw p (ap (λ (k : ℕ). gate (stub k) 0x08 0x8E) same) in
          rw inside (rest ∙ skipped ∙ here ∙ chosen)
      | inr p ↦
          let alike : (leb (num + 1) j && ltb j (num + 1 + count))
              ≡ (leb num j && ltb j (num + suc count)) =
            ground arith in
          rest ∙ rw (alike, here, p) refl
    ]

get_or-empty : (k n : ℕ) → get_or (replicate k no_gate) n no_gate ≡ no_gate
get_or-empty zero n = refl
get_or-empty (suc k) zero = refl
get_or-empty (suc k) (suc n) = get_or-empty k n

-- The three writes one over the other.
three_writes :
    {A : Type 0} (g e z b c : A) (n : ℕ)
    → b ≡ (if 128 == n then e else c)
    → c ≡ (if leb 0 n && ltb n 32 then g else z)
    → (if leb 32 n && ltb n 48 then g else b) ≡ (if ltb n 48 then g else if n == 128 then e else z)
three_writes g e z b c n call low = rw (call, low) (ground arith)

-- Each of the 256 gates as the last write left it.
init_idt-at :
    (stub : ℕ → ℕ) (n : ℕ)
    → get_or (init_idt stub) n no_gate ≡ (
        if ltb n 48
        then gate (stub n) 0x08 0x8E
        else if n == 128
        then gate (stub 128) 0x08 0xEE
        else no_gate)
unfolding init_idt idt_set_gate
init_idt-at stub n =
    let empty = replicate 256 no_gate in
    let first = set_gates stub 32 0 empty in
    let size : length first ≡ 256 = length-set_gates stub 32 0 empty in
    let e = gate (stub 128) 0x08 0xEE in
    let last =
      set_gates-at stub 16 32 (set first 128 e) n (omega (arith, length-set first 128 e, size)) in
    let call = set_gate-at first 128 n e (omega (arith, size)) in
    let low = set_gates-at stub 32 0 empty n (omega arith) in
    let none_there = get_or-empty 256 n in
    last
    ∙ three_writes (gate (stub n) 0x08 0x8E) e no_gate (get_or (set first 128 e) n no_gate)
        (get_or first n no_gate) n call
        (low
          ∙ ap (λ (z : IdtEntry). if leb 0 n && ltb n 32 then gate (stub n) 0x08 0x8E else z)
              none_there)

-- A present gate of ring `ring` for a 32-bit interrupt, to `handler` in the kernel's code segment.
pub record LeadsTo (e : IdtEntry) (handler ring : ℕ) : Type 0 where
  pub handler_eq : target e ≡ handler
  pub halves : (e.base_low < 2 ^ 16) × (e.base_high < 2 ^ 16)
  pub selector : e.sel ≡ 0x08
  pub zeros : e.always0 ≡ 0
  pub access : e.flags ≡ 2 ^ 7 + ring * 2 ^ 5 + 14

gate-LeadsTo :
    (handler flags ring : ℕ)
    → handler < 2 ^ 32
    → flags ≡ 2 ^ 7 + ring * 2 ^ 5 + 14
    → LeadsTo (gate handler 0x08 flags) handler ring
gate-LeadsTo handler flags ring h e = record {
  handler_eq = omega arith;
  halves = (omega arith, omega arith);
  selector = refl;
  zeros = refl;
  access = e;
}

-- Where the entries' addresses have 32 bits, after `init_idt` each of the gates 0 to 47 leads to
-- the entry of its own number, from ring 0 alone, gate 128 leads to its entry and may be raised
-- from ring 3, and every other gate is empty. The address of a gate is read from its two halves.
pub init_idt-gates :
    (stub : ℕ → ℕ) (n : ℕ)
    → ((i : ℕ) → stub i < 2 ^ 32)
    → (n < 48 → LeadsTo (get_or (init_idt stub) n no_gate) (stub n) 0)
      × (n ≡ 128 → LeadsTo (get_or (init_idt stub) n no_gate) (stub 128) 3)
      × (48 ≤ n → n ≢ 128 → get_or (init_idt stub) n no_gate ≡ no_gate)
init_idt-gates stub n small = (
  λ l.
      subst (λ (e : IdtEntry). LeadsTo e (stub n) 0)
        (sym (init_idt-at stub n ∙ (let p : ltb n 48 ≡ true = ground arith in rw p refl)))
        (gate-LeadsTo (stub n) 0x8E 0 (small n) refl),
  λ same.
      subst (λ (e : IdtEntry). LeadsTo e (stub 128) 3)
        (sym (ap (λ (i : ℕ). get_or (init_idt stub) i no_gate) same ∙ init_idt-at stub 128))
        (gate-LeadsTo (stub 128) 0xEE 3 (small 128) refl),
  λ l ne.
      init_idt-at stub n
      ∙ (let p : ltb n 48 ≡ false = ground arith in
          let q : (n == 128) ≡ false = ne→== n 128 ne in rw (p, q) refl),
)
