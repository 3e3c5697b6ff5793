-- ===== src/Paging.antt =====
-- src/mm/paging.c. The page directory and the page tables are words in memory: `words a` is the
-- word at address `a`. The addresses of the three arrays are the linker's.
pub mod Tables
pub mod Translate
use Prim.Native.Nat.{bit_or}
use learning_os_project.Common.{
  ℕ, zero, suc, ◌+◌, ◌-◌, ◌*◌, ◌/◌, ◌%◌, ◌^◌, Bool, true, false, not, Option, none, some, leb, ◌==◌,
  if◌then◌else◌,
}

-- `page_directory`, `page_tables_low` and `page_tables_high`.
pub record Arrays : Type 0 where
  pub directory : ℕ
  pub low : ℕ
  pub high : ℕ

-- `cr3`, and whether paging is on in `cr0`.
pub record Paging : Type 0 where
  pub words : ℕ → ℕ
  pub cr3 : ℕ
  pub enabled : Bool

unfoldable pub store : (ℕ → ℕ) → ℕ → ℕ → ℕ → ℕ
store words a v b = if a == b then v else words b

-- `memset` to 0 of `n` words.
unfoldable pub clear_words : ℕ → ℕ → (ℕ → ℕ) → ℕ → ℕ
unfolding store
clear_words zero a words = words
clear_words (suc n) a words = clear_words n (a + 4) (store words a 0)

-- The inner loop, for the `n` entries of a table from number `i` on.
unfoldable pub fill_table : ℕ → ℕ → ℕ → ℕ → ℕ → (ℕ → ℕ) → ℕ → ℕ
unfolding store
fill_table flags table_index table zero i words = words
fill_table flags table_index table (suc n) i words =
    let phys = (table_index * 1024 + i) * 4096 % 2 ^ 32 in
    fill_table flags table_index table n (i + 1) (store words (table + 4 * i) (bit_or phys flags))

-- The outer loop of `map_identity_range` and of `map_high_kernel`, for the `count` tables from
-- `table_index` on; `entries` is where the first table's entry lies in the directory.
unfoldable pub map_tables : ℕ → ℕ → ℕ → ℕ → ℕ → (ℕ → ℕ) → ℕ → ℕ
unfolding fill_table store
map_tables flags tables entries zero table_index words = words
map_tables flags tables entries (suc count) table_index words = elim (leb 8 table_index) [
  | true ↦ words
  | false ↦
      let table = tables + 4096 * table_index in
      map_tables flags tables entries count (table_index + 1) (
        store (fill_table flags table_index table 1024 0 words) (entries + 4 * table_index)
          (bit_or table flags))
]

-- Present, writable and for the user.
abbrev pub map_identity_range : Arrays → ℕ → ℕ → (ℕ → ℕ) → ℕ → ℕ
map_identity_range a start_mb count_mb words =
    map_tables 7 a.low a.directory count_mb start_mb words

-- Present and writable, from entry 768 of the directory on.
abbrev pub map_high_kernel : Arrays → ℕ → ℕ → (ℕ → ℕ) → ℕ → ℕ
map_high_kernel a base_mb count_mb words =
    map_tables 3 a.high (a.directory + 4 * 768) count_mb base_mb words

unfoldable pub paging_init : Arrays → Paging → Paging
unfolding clear_words map_tables
paging_init a p =
    let cleared = clear_words 1024 a.directory p.words in
    let cleared_low = clear_words 8192 a.low cleared in
    let cleared_high = clear_words 8192 a.high cleared_low in
    record {
      words = map_high_kernel a 0 8 (map_identity_range a 0 8 cleared_high);
      cr3 = a.directory;
      enabled = true;
    }
