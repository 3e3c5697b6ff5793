-- ===== src/Paging/Tables.antt =====
-- What the loops of src/mm/paging.c leave in the arrays.
use Prim.Native.Nat.{bit_or}
use learning_os_project.Common.{
  ℕ, zero, suc, ◌+◌, ◌*◌, ◌/◌, ◌%◌, ◌^◌, ◌≤◌, ◌<◌, ◌≡◌, ◌⊎◌, inl, inr, refl, ◌∙◌, subst, false, leb,
  ◌==◌, arith, Bool-cases, dec_lt, ==_refl,
}
use learning_os_project.Common.Bits.{bit_or_halves, bit_or-zero}
use learning_os_project.Paging.{store, clear_words, fill_table, map_tables}

pub or_flags7 : (x : ℕ) → x % 8 ≡ 0 → bit_or x 7 ≡ x + 7
or_flags7 x h =
    let one = bit_or_halves x 7 in
    let two = bit_or_halves (x / 2) 3 in
    let three = bit_or_halves (x / 2 / 2) 1 in
    let rest = bit_or-zero (x / 2 / 2 / 2) in omega (arith, one, two, three, rest)

pub or_flags3 : (x : ℕ) → x % 8 ≡ 0 → bit_or x 3 ≡ x + 3
or_flags3 x h =
    let one = bit_or_halves x 3 in
    let two = bit_or_halves (x / 2) 1 in
    let rest = bit_or-zero (x / 2 / 2) in omega (arith, one, two, rest)

store_self : (words : ℕ → ℕ) (a v : ℕ) → store words a v a ≡ v
unfolding store
store_self words a v = rw (==_refl a) refl

store_ne : (words : ℕ → ℕ) (a v b : ℕ) → (a == b) ≡ false → store words a v b ≡ words b
unfolding store
store_ne words a v b h = rw h refl

pub clear_words-out :
    (n a : ℕ) (words : ℕ → ℕ) (b : ℕ)
    → (b < a) ⊎ (a + 4 * n ≤ b)
    → clear_words n a words b ≡ words b
unfolding clear_words store
clear_words-out zero a words b h = refl
clear_words-out (suc n) a words b h =
    let other : (a == b) ≡ false = ground arith in
    clear_words-out n (a + 4) (store words a 0) b (ground arith) ∙ rw other refl

pub clear_words-at :
    (n a : ℕ) (words : ℕ → ℕ) (k : ℕ) → k < n → clear_words n a words (a + 4 * k) ≡ 0
unfolding clear_words store
clear_words-at zero a words k h = absurd (omega arith)
clear_words-at (suc n) a words zero h =
    let first : a + 4 * 0 ≡ a = omega arith in
    rw first
      (clear_words-out n (a + 4) (store words a 0) a (inl (omega arith)) ∙ rw (==_refl a) refl)
clear_words-at (suc n) a words (suc k) h =
    let later : a + 4 * suc k ≡ a + 4 + 4 * k = omega arith in
    rw later (clear_words-at n (a + 4) (store words a 0) k (omega arith))

fill_table-out :
    (flags t table n i : ℕ) (words : ℕ → ℕ) (b : ℕ)
    → (b < table + 4 * i) ⊎ (table + 4 * (i + n) ≤ b)
    → fill_table flags t table n i words b ≡ words b
unfolding fill_table store
fill_table-out flags t table zero i words b h = refl
fill_table-out flags t table (suc n) i words b h =
    let other : (table + 4 * i == b) ≡ false = ground arith in
    fill_table-out flags t table n (i + 1) _ b (ground arith) ∙ rw other refl

fill_table-at :
    (flags t table n i : ℕ) (words : ℕ → ℕ) (k : ℕ)
    → i ≤ k
    → k < i + n
    → fill_table flags t table n i words (table + 4 * k)
      ≡ bit_or ((t * 1024 + k) * 4096 % 2 ^ 32) flags
unfolding fill_table store
fill_table-at flags t table zero i words k h l = absurd (omega arith)
fill_table-at flags t table (suc n) i words k h l = elim (dec_lt i k) [
  | yes p ↦ fill_table-at flags t table n (i + 1) _ k (omega arith) (omega arith)
  | no p ↦
      let same : i ≡ k = omega arith in
      let past =
        fill_table-out flags t table n (i + 1)
          (store words (table + 4 * i) (bit_or ((t * 1024 + i) * 4096 % 2 ^ 32) flags))
          (table + 4 * k) (inl (omega arith)) in
      past ∙ rw same (rw (==_refl (table + 4 * k)) refl)
]

-- The entries of the directory and the tables share no byte.
abbrev pub Beside : ℕ → ℕ → Type 0
Beside entries tables = (entries + 32 ≤ tables) ⊎ (tables + 32768 ≤ entries)

pub map_tables-out :
    (flags tables entries n t : ℕ) (words : ℕ → ℕ) (b : ℕ)
    → (b < tables + 4096 * t) ⊎ (tables + 4096 * (t + n) ≤ b)
    → (b < entries + 4 * t) ⊎ (entries + 4 * (t + n) ≤ b)
    → map_tables flags tables entries n t words b ≡ words b
unfolding map_tables store
map_tables-out flags tables entries zero t words b h k = refl
map_tables-out flags tables entries (suc n) t words b h k = elim (Bool-cases (leb 8 t)) [
  | inl p ↦ rw (p, map_tables) refl
  | inr p ↦
      let table = tables + 4096 * t in
      let other : (entries + 4 * t == b) ≡ false = ground arith in
      let inside = fill_table-out flags t table 1024 0 words b (ground arith) in
      rw (p, map_tables)
        (map_tables-out flags tables entries n (t + 1) _ b (ground arith) (ground arith)
          ∙ rw other inside)
]

pub map_tables-entry :
    (flags tables entries n t : ℕ) (words : ℕ → ℕ) (k : ℕ)
    → Beside entries tables
    → t + n ≤ 8
    → t ≤ k
    → k < t + n
    → map_tables flags tables entries n t words (entries + 4 * k) ≡ bit_or (tables + 4096 * k) flags
unfolding map_tables
map_tables-entry flags tables entries zero t words k apart top l h = absurd (omega arith)
map_tables-entry flags tables entries (suc n) t words k apart top l h =
    let p : leb 8 t ≡ false = ground arith in
    elim (dec_lt t k) [
      | yes q ↦
          rw (p, map_tables)
            (map_tables-entry flags tables entries n (t + 1) _ k apart (omega arith) (omega arith)
              (omega arith))
      | no q ↦
          let same : t ≡ k = omega arith in
          subst
            (λ (k : ℕ).
              map_tables flags tables entries (suc n) t words (entries + 4 * k)
              ≡ bit_or (tables + 4096 * k) flags)
            same
            (rw (p, map_tables)
              (map_tables-out flags tables entries n (t + 1) _ (entries + 4 * t) (ground arith)
                  (inl (omega arith))
                ∙ store_self (fill_table flags t (tables + 4096 * t) 1024 0 words) (entries + 4 * t)
                    (bit_or (tables + 4096 * t) flags)))
    ]

pub map_tables-page :
    (flags tables entries n t : ℕ) (words : ℕ → ℕ) (k j : ℕ)
    → Beside entries tables
    → t + n ≤ 8
    → t ≤ k
    → k < t + n
    → j < 1024
    → map_tables flags tables entries n t words (tables + 4096 * k + 4 * j)
      ≡ bit_or ((k * 1024 + j) * 4096 % 2 ^ 32) flags
unfolding map_tables
map_tables-page flags tables entries zero t words k j apart top l h m = absurd (omega arith)
map_tables-page flags tables entries (suc n) t words k j apart top l h m =
    let p : leb 8 t ≡ false = ground arith in
    elim (dec_lt t k) [
      | yes q ↦
          rw (p, map_tables)
            (map_tables-page flags tables entries n (t + 1) _ k j apart (omega arith) (omega arith)
              (omega arith) m)
      | no q ↦
          let same : t ≡ k = omega arith in
          subst
            (λ (k : ℕ).
              map_tables flags tables entries (suc n) t words (tables + 4096 * k + 4 * j)
              ≡ bit_or ((k * 1024 + j) * 4096 % 2 ^ 32) flags)
            same
            (rw (p, map_tables)
              (map_tables-out flags tables entries n (t + 1) _ (tables + 4096 * t + 4 * j)
                  (inl (omega arith)) (ground arith)
                ∙ store_ne (fill_table flags t (tables + 4096 * t) 1024 0 words) (entries + 4 * t)
                    (bit_or (tables + 4096 * t) flags) (tables + 4096 * t + 4 * j) (ground arith)
                ∙ fill_table-at flags t (tables + 4096 * t) 1024 0 words j (omega arith) m))
    ]
