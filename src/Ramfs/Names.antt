-- ===== src/Ramfs/Names.antt =====
-- The search of a directory by name, and what adding one child does to it.
use learning_os_project.Common.{
  ℕ, zero, suc, ◌<◌, ◌≡◌, ◌≢◌, refl, sym, ap, ◌∙◌, inl, inr, true, false, none, some, List, [], ◌∷◌,
  ◌++◌, length, get_or, arith, Bool-cases, ==_iff,
}
use learning_os_project.Common.Int.{ℤ, pos, negsuc, is_zero}
use learning_os_project.Libc.Strings.{text, strcmp_iff}
use learning_os_project.Ramfs.{Node, Ramfs, no_node, same_name, find_child, ramfs_finddir}

abbrev pub AllBelow : ℕ → List ℕ → Type 0
AllBelow n [] = Unit {0}
AllBelow n (c ∷ cs) = (c < n) × AllBelow n cs

-- There is a root, and its children are nodes in use.
pub record IsValid (r : Ramfs) : Type 0 where
  pub root_in : 0 < length r.nodes
  pub listed : AllBelow (length r.nodes) (get_or r.nodes 0 no_node).children

abbrev pub name_at : List Node → ℕ → List ℕ
name_at nodes i = (get_or nodes i no_node).name

pub get_or-append_left :
    (xs ys : List Node) (i : ℕ) → i < length xs → get_or (xs ++ ys) i no_node ≡ get_or xs i no_node
get_or-append_left [] ys i h = absurd (omega arith)
get_or-append_left (x ∷ xs) ys zero h = refl
get_or-append_left (x ∷ xs) ys (suc i) h = get_or-append_left xs ys i (omega arith)

pub get_or-append_self : (xs : List Node) (y : Node) → get_or (xs ++ y ∷ []) (length xs) no_node ≡ y
get_or-append_self [] y = refl
get_or-append_self (x ∷ xs) y = get_or-append_self xs y

zero-pos : (z : ℤ) → is_zero z ≡ true → z ≡ pos 0
zero-pos (pos n) e = ap pos ((==_iff n 0).0 e)
zero-pos (negsuc n) e = cc

same_name-text : (a b : List ℕ) → text a ≡ text b → same_name a b ≡ true
same_name-text a b e = let eq = (strcmp_iff a b).1 e in rw eq refl

other_name-text : (a b : List ℕ) → text a ≢ text b → same_name a b ≡ false
other_name-text a b h = elim (Bool-cases (same_name a b)) [
  | inl e ↦ absurd (h ((strcmp_iff a b).0 (zero-pos _ e)))
  | inr e ↦ e
]

-- The search looks at the names of the children alone.
find_child-names :
    (nodes nodes' : List Node) (k : ℕ) (cs : List ℕ) (name : List ℕ)
    → AllBelow k cs
    → ((i : ℕ) → i < k → name_at nodes' i ≡ name_at nodes i)
    → find_child nodes' cs name ≡ find_child nodes cs name
unfolding find_child
find_child-names nodes nodes' k [] name b e = refl
find_child-names nodes nodes' k (c ∷ cs) name b e =
    rw (e c b.0, find_child-names nodes nodes' k cs name b.1 e) refl

find_child-last :
    (nodes : List Node) (cs : List ℕ) (k : ℕ) (name : List ℕ)
    → find_child nodes cs name ≡ none
    → same_name (name_at nodes k) name ≡ true
    → find_child nodes (cs ++ k ∷ []) name ≡ some k
unfolding find_child
find_child-last nodes [] k name e s = rw s refl
find_child-last nodes (c ∷ cs) k name e s = elim (Bool-cases (same_name (name_at nodes c) name)) [
  | inl p ↦ absurd (let x = rw (p, find_child) at e in cc)
  | inr p ↦ rw p (find_child-last nodes cs k name (rw (p, find_child) at e) s)
]

find_child-other :
    (nodes : List Node) (cs : List ℕ) (k : ℕ) (name : List ℕ)
    → same_name (name_at nodes k) name ≡ false
    → find_child nodes (cs ++ k ∷ []) name ≡ find_child nodes cs name
unfolding find_child
find_child-other nodes [] k name s = rw s refl
find_child-other nodes (c ∷ cs) k name s = elim (Bool-cases (same_name (name_at nodes c) name)) [
  | inl p ↦ rw p refl
  | inr p ↦ rw p (find_child-other nodes cs k name s)
]

-- What the nodes are after one has been added below the root.
pub record Added (r : Ramfs) (name : List ℕ) (r' : Ramfs) : Type 0 where
  pub children :
      (get_or r'.nodes 0 no_node).children
      ≡ (get_or r.nodes 0 no_node).children ++ length r.nodes ∷ []
  pub old : (i : ℕ) → i < length r.nodes → name_at r'.nodes i ≡ name_at r.nodes i
  pub new : name_at r'.nodes (length r.nodes) ≡ name

pub Added-finds :
    {r : Ramfs} {name : List ℕ} {r' : Ramfs}
    → IsValid r
    → Added r name r'
    → ramfs_finddir r 0 name ≡ none
    → (ramfs_finddir r' 0 name ≡ some (length r.nodes))
      × ((other : List ℕ)
          → text name ≢ text other
          → ramfs_finddir r' 0 other ≡ ramfs_finddir r 0 other)
unfolding ramfs_finddir
Added-finds {r} {name} {r'} v a e =
    let cs = (get_or r.nodes 0 no_node).children in
    let k = length r.nodes in
    let same = λ (s : List ℕ). find_child-names r.nodes r'.nodes k cs s v.listed a.old in
    (
      ap (λ (c : List ℕ). find_child r'.nodes c name) a.children
          ∙ find_child-last r'.nodes cs k name (same name ∙ e) (same_name-text _ _ (ap text a.new)),
      λ other h.
          ap (λ (c : List ℕ). find_child r'.nodes c other) a.children
          ∙ find_child-other r'.nodes cs k other
              (other_name-text _ _ (λ p. h (sym (ap text a.new) ∙ p)))
          ∙ same other,
    )
