-- ===== src/Vfs.antt =====
-- src/fs/vfs.c. A node is the index that its file system gives it, a null node `none`; a path or a
-- name is the list of its bytes before the 0. The `finddir` pointers of the nodes are one function,
-- which gives `none` for a node without the pointer.
pub mod Paths
use learning_os_project.Common.{
  ℕ, zero, suc, ◌+◌, Bool, true, false, Option, none, some, List, [], ◌∷◌, ltb, ◌==◌, if◌then◌else◌,
  length,
}

abbrev pub vfs_name_max : ℕ
vfs_name_max = 128

-- `vfs_set_root`, `vfs_init` and `vfs_get_root` write and read the root alone.
pub record Vfs : Type 0 where
  pub root : Option ℕ

unfoldable pub vfs_init : Vfs → Vfs
vfs_init v = record v { root = none }

unfoldable pub vfs_set_root : Vfs → Option ℕ → Vfs
vfs_set_root v root = record v { root = root }

unfoldable pub vfs_get_root : Vfs → Option ℕ
vfs_get_root v = v.root

-- `while (*p == '/') p++`
unfoldable pub skip_slashes : List ℕ → List ℕ
skip_slashes [] = []
skip_slashes (c ∷ p) = if c == 47 then skip_slashes p else c ∷ p

-- The loop that copies a name up to a slash or the end, `len` bytes of it copied: what it
-- copies, and
-- where it stops. A name too long for the array loses its end.
unfoldable pub next_name : ℕ → List ℕ → List ℕ × List ℕ
next_name len [] = ([], [])
next_name len (c ∷ p) =
    if c == 47
    then ([], c ∷ p)
    else if ltb (len + 1) vfs_name_max
    then (let (name, rest) = next_name (len + 1) p in (c ∷ name, rest))
    else next_name len p

module _ (finddir : ℕ → List ℕ → Option ℕ) where
  -- `while (*p)`, with a bound on the names.
  unfoldable pub walk_names : ℕ → ℕ → List ℕ → Option ℕ
  walk_names fuel cur [] = some cur
  walk_names zero cur (c ∷ p) = none
  walk_names (suc fuel) cur (c ∷ p) =
      let (name, rest) = next_name 0 (c ∷ p) in
      elim (finddir cur name) [ none ↦ none | some next ↦ walk_names fuel next (skip_slashes rest) ]

  -- `none`: a null path.
  unfoldable pub vfs_resolve_path : Vfs → Option (List ℕ) → Option ℕ
  vfs_resolve_path v none = none
  vfs_resolve_path v (some []) = none
  vfs_resolve_path v (some (c ∷ path)) = elim v.root [
    | none ↦ none
    | some root ↦ walk_names (length (c ∷ path)) root (skip_slashes (c ∷ path))
  ]
