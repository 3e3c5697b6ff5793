-- ===== src/Vfs/Paths.antt =====
-- A path is followed name by name.
use learning_os_project.Common.{
  ℕ, zero, suc, ◌+◌, ◌≤◌, ◌<◌, ◌≡◌, ◌≢◌, refl, ap, ◌∙◌, true, false, Option, none, some, List, [],
  ◌∷◌, ◌++◌, inl, inr, ltb, ◌==◌, length, length-append, arith, Option-cases,
}
use learning_os_project.Vfs.{Vfs, skip_slashes, next_name, walk_names, vfs_resolve_path}

-- The bytes of a name: no slash among them.
abbrev pub NoSlash : List ℕ → Type 0
NoSlash [] = Unit {0}
NoSlash (c ∷ s) = (c ≢ 47) × NoSlash s

-- Names that a path can be made of: no slash, not empty, at most 127 bytes.
abbrev pub AreNames : List (List ℕ) → Type 0
AreNames [] = Unit {0}
AreNames (n ∷ ns) = NoSlash n × (0 < length n) × (length n ≤ 127) × AreNames ns

-- A slash before each name.
abbrev pub path_of : List (List ℕ) → List ℕ
path_of [] = []
path_of (n ∷ ns) = 47 ∷ (n ++ path_of ns)

-- The lookups one after the other.
unfoldable pub follow : (ℕ → List ℕ → Option ℕ) → ℕ → List (List ℕ) → Option ℕ
follow finddir cur [] = some cur
follow finddir cur (n ∷ ns) = elim (finddir cur n) [
  | none ↦ none
  | some next ↦ follow finddir next ns
]

next_name-path :
    (n : List ℕ) (ns : List (List ℕ)) (len : ℕ)
    → NoSlash n
    → len + length n ≤ 127
    → next_name len (n ++ path_of ns) ≡ (n, path_of ns)
unfolding next_name
next_name-path [] [] len s h = refl
next_name-path [] (n ∷ ns) len s h = refl
next_name-path (c ∷ n) ns len s h =
    let other : (c == 47) ≡ false = ground (arith, s.0) in
    let room : ltb (len + 1) 128 ≡ true = ground arith in
    rw (other, room, next_name-path n ns (len + 1) s.1 (omega arith)) refl

skip-name :
    (n : List ℕ) (rest : List ℕ)
    → NoSlash n
    → 0 < length n
    → skip_slashes (47 ∷ (n ++ rest)) ≡ n ++ rest
unfolding skip_slashes
skip-name [] rest s h = absurd (omega arith)
skip-name (c ∷ n) rest s h = let other : (c == 47) ≡ false = ground (arith, s.0) in rw other refl

walk-step :
    (finddir : ℕ → List ℕ → Option ℕ) (c : ℕ) (n : List ℕ) (ns : List (List ℕ)) (fuel cur : ℕ)
    → next_name 0 ((c ∷ n) ++ path_of ns) ≡ (c ∷ n, path_of ns)
    → ((next : ℕ)
        → walk_names finddir fuel next (skip_slashes (path_of ns)) ≡ follow finddir next ns)
    → walk_names finddir (suc fuel) cur ((c ∷ n) ++ path_of ns) ≡ follow finddir cur ((c ∷ n) ∷ ns)
unfolding walk_names follow
walk-step finddir c n ns fuel cur e rest = elim (Option-cases (finddir cur (c ∷ n))) [
  | inl f ↦ rw (e, f, follow) refl
  | inr (next, f) ↦
      let behind : (next_name 0 (c ∷ (n ++ path_of ns))).1 ≡ path_of ns = ap (λ r. r.1) e in
      rw (e, f, follow) (rw behind (rest next))
]

walk-follow :
    (finddir : ℕ → List ℕ → Option ℕ) (ns : List (List ℕ)) (fuel cur : ℕ)
    → AreNames ns
    → length ns ≤ fuel
    → walk_names finddir fuel cur (skip_slashes (path_of ns)) ≡ follow finddir cur ns
unfolding walk_names follow skip_slashes
walk-follow finddir [] zero cur v h = refl
walk-follow finddir [] (suc fuel) cur v h = refl
walk-follow finddir ([] ∷ ns) fuel cur v h = absurd (omega (arith, v.1))
walk-follow finddir ((c ∷ n) ∷ ns) zero cur v h = absurd (omega arith)
walk-follow finddir ((c ∷ n) ∷ ns) (suc fuel) cur (slash, some_byte, short, rest) h =
    ap (walk_names finddir (suc fuel) cur) (skip-name (c ∷ n) (path_of ns) slash some_byte)
    ∙ walk-step finddir c n ns fuel cur (next_name-path (c ∷ n) ns 0 slash (omega (arith, short)))
        (λ next. walk-follow finddir ns fuel next rest (omega arith))

names-fit : (ns : List (List ℕ)) → length ns ≤ length (path_of ns)
names-fit [] = omega arith
names-fit (n ∷ ns) = omega (arith, length-append n (path_of ns), names-fit ns)

-- With a root, a path of names (each behind a slash, not empty, at most 127 bytes) is resolved
-- by looking the names up one after the other from the root, until one is not found.
pub vfs_resolve_path-follow :
    (finddir : ℕ → List ℕ → Option ℕ) (v : Vfs) (root : ℕ) (n : List ℕ) (ns : List (List ℕ))
    → v.root ≡ some root
    → AreNames (n ∷ ns)
    → vfs_resolve_path finddir v (some (path_of (n ∷ ns))) ≡ follow finddir root (n ∷ ns)
unfolding vfs_resolve_path
vfs_resolve_path-follow finddir v root n ns e names =
    rw e (walk-follow finddir (n ∷ ns) (length (path_of (n ∷ ns))) root names (names-fit (n ∷ ns)))
