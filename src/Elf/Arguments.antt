-- ===== src/Elf/Arguments.antt =====
-- What a program finds on the stack that `elf_prepare_stack` has prepared.
use learning_os_project.Common.{
  ℕ, suc, ◌+◌, ◌*◌, ◌/◌, ◌%◌, ◌^◌, ◌≤◌, ◌<◌, ◌≡◌, ◌⊎◌, inl, refl, ◌∙◌, true, false, Option, none,
  List, [], ◌∷◌, ◌==◌, length, get_or, arith,
}
use learning_os_project.Elf.Memory.{Memory, store8, load32}
use learning_os_project.Elf.Stack.{store_word, store_text, arg_bytes, store_words}

-- The bytes of a list stand from `a` on.
abbrev pub Stands : Memory → ℕ → List ℕ → Type 0
Stands mem a [] = Unit {0}
Stands mem a (c ∷ s) = (mem a ≡ c % 256) × Stands mem (a + 1) s

-- The pointers lead to the arguments from number `n` on.
abbrev pub Lead : Memory → List (Option (List ℕ)) → ℕ → List ℕ → Type 0
Lead mem argv n [] = Unit {0}
Lead mem argv n (p ∷ ptrs) =
    Stands mem p (arg_bytes (get_or argv n none)) × Lead mem argv (suc n) ptrs

pub Stands-same :
    (mem mem' : Memory) (a : ℕ) (s : List ℕ)
    → ((b : ℕ) → a ≤ b → b < a + length s → mem' b ≡ mem b)
    → Stands mem a s
    → Stands mem' a s
Stands-same mem mem' a [] same h = tt
Stands-same mem mem' a (c ∷ s) same h = (
  same a (omega arith) (omega arith) ∙ h.0,
  Stands-same mem mem' (a + 1) s (λ b l k. same b (omega arith) (omega arith)) h.1,
)

pub store_text-out :
    (mem : Memory) (a : ℕ) (s : List ℕ) (b : ℕ)
    → a + length s ≤ 2 ^ 32
    → (b < a) ⊎ (a + length s ≤ b)
    → store_text mem a s b ≡ mem b
unfolding store_text store8
store_text-out mem a [] b h k = refl
store_text-out mem a (c ∷ s) b h k =
    let other : (a % 2 ^ 32 == b) ≡ false = ground arith in
    store_text-out (store8 mem a c) (a + 1) s b (omega arith) (ground arith) ∙ rw other refl

pub store_text-Stands :
    (mem : Memory) (a : ℕ) (s : List ℕ) → a + length s ≤ 2 ^ 32 → Stands (store_text mem a s) a s
unfolding store_text store8
store_text-Stands mem a [] h = tt
store_text-Stands mem a (c ∷ s) h =
    let here : (a % 2 ^ 32 == a) ≡ true = ground arith in
    (
      store_text-out (store8 mem a c) (a + 1) s a (omega arith) (inl (omega arith)) ∙ rw here refl,
      store_text-Stands (store8 mem a c) (a + 1) s (omega arith),
    )

pub store_word-out :
    (mem : Memory) (a v b : ℕ)
    → a + 4 ≤ 2 ^ 32
    → (b < a) ⊎ (a + 4 ≤ b)
    → store_word mem a v b ≡ mem b
unfolding store_word store8
store_word-out mem a v b h k =
    let one : (a % 2 ^ 32 == b) ≡ false = ground arith in
    let two : ((a + 1) % 2 ^ 32 == b) ≡ false = ground arith in
    let three : ((a + 2) % 2 ^ 32 == b) ≡ false = ground arith in
    let four : ((a + 3) % 2 ^ 32 == b) ≡ false = ground arith in rw (one, two, three, four) refl

store_word_bytes :
    (mem : Memory) (a v : ℕ)
    → a + 4 ≤ 2 ^ 32
    → (store_word mem a v a ≡ v % 256)
      × (store_word mem a v (a + 1) ≡ v / 256 % 256)
      × (store_word mem a v (a + 2) ≡ v / 65536 % 256)
      × (store_word mem a v (a + 3) ≡ v / 16777216 % 256)
unfolding store_word store8
store_word_bytes mem a v h = (ground arith, ground arith, ground arith, ground arith)

pub load32-store_word :
    (mem : Memory) (a v : ℕ) → a + 4 ≤ 2 ^ 32 → v < 2 ^ 32 → load32 (store_word mem a v) a ≡ v
load32-store_word mem a v h k =
    let e0 : a % 2 ^ 32 ≡ a = omega arith in
    let e1 : (a + 1) % 2 ^ 32 ≡ a + 1 = omega arith in
    let e2 : (a + 2) % 2 ^ 32 ≡ a + 2 = omega arith in
    let e3 : (a + 2 + 1) % 2 ^ 32 ≡ a + 3 = omega arith in
    let (b0, b1, b2, b3) = store_word_bytes mem a v h in
    rw (e0, e1, e2, e3, b0, b1, b2, b3) (omega arith)

pub store_words-out :
    (mem : Memory) (a : ℕ) (words : List ℕ) (b : ℕ)
    → a + 4 * length words ≤ 2 ^ 32
    → (b < a) ⊎ (a + 4 * length words ≤ b)
    → store_words mem a words b ≡ mem b
unfolding store_words
store_words-out mem a [] b h k = refl
store_words-out mem a (w ∷ words) b h k =
    store_words-out (store_word mem a w) (a + 4) words b (omega arith) (ground arith)
    ∙ store_word-out mem a w b (omega arith) (ground arith)

-- The words of a list stand from `a` on.
abbrev pub Words : Memory → ℕ → List ℕ → Type 0
Words mem a [] = Unit {0}
Words mem a (w ∷ words) = (load32 mem a ≡ w) × Words mem (a + 4) words

load32-same :
    (mem mem' : Memory) (a : ℕ)
    → a + 4 ≤ 2 ^ 32
    → ((b : ℕ) → a ≤ b → b < a + 4 → mem' b ≡ mem b)
    → load32 mem' a ≡ load32 mem a
load32-same mem mem' a h same =
    let e0 : a % 2 ^ 32 ≡ a = omega arith in
    let e1 : (a + 1) % 2 ^ 32 ≡ a + 1 = omega arith in
    let e2 : (a + 2) % 2 ^ 32 ≡ a + 2 = omega arith in
    let e3 : (a + 2 + 1) % 2 ^ 32 ≡ a + 3 = omega arith in
    rw
      (
        e0,
        e1,
        e2,
        e3,
        same a (omega arith) (omega arith),
        same (a + 1) (omega arith) (omega arith),
        same (a + 2) (omega arith) (omega arith),
        same (a + 3) (omega arith) (omega arith),
      )
      refl

pub Words-same :
    (mem mem' : Memory) (a : ℕ) (words : List ℕ)
    → a + 4 * length words ≤ 2 ^ 32
    → ((b : ℕ) → a ≤ b → b < a + 4 * length words → mem' b ≡ mem b)
    → Words mem a words
    → Words mem' a words
Words-same mem mem' a [] h same v = tt
Words-same mem mem' a (w ∷ words) h same v = (
  load32-same mem mem' a (omega arith) (λ b l k. same b l (omega arith)) ∙ v.0,
  Words-same mem mem' (a + 4) words (omega arith) (λ b l k. same b (omega arith) (omega arith)) v.1,
)

abbrev pub Small : List ℕ → Type 0
Small [] = Unit {0}
Small (w ∷ words) = (w < 2 ^ 32) × Small words

pub store_words-Words :
    (mem : Memory) (a : ℕ) (words : List ℕ)
    → a + 4 * length words ≤ 2 ^ 32
    → Small words
    → Words (store_words mem a words) a words
unfolding store_words
store_words-Words mem a [] h v = tt
store_words-Words mem a (w ∷ words) h v =
    let first =
      load32-same (store_word mem a w) (store_words (store_word mem a w) (a + 4) words) a
        (omega arith)
        (λ b l k.
          store_words-out (store_word mem a w) (a + 4) words b (omega arith) (inl (omega arith)))
      ∙ load32-store_word mem a w (omega arith) v.0 in
    (first, store_words-Words (store_word mem a w) (a + 4) words (omega arith) v.1)
