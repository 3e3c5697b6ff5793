-- ===== src/Ramfs/Create.antt =====
-- A file that is created is found by its name, and the others are found as before.
use learning_os_project.Common.{
  ℕ, zero, suc, ◌+◌, ◌≤◌, ◌<◌, ◌≡◌, ◌≢◌, refl, ap, ◌∙◌, true, false, none, some, List, [], ◌∷◌,
  ◌++◌, leb, ◌==◌, length, get_or, set, take, get_or-set_self, get_or-set_ne, length-set,
  length-append, arith, ◌||◌,
}
use learning_os_project.Common.Int.{pos}
use learning_os_project.Libc.Strings.{text}
use learning_os_project.Ramfs.{
  Node, Ramfs, Kind, file, no_node, ramfs_alloc_node, ramfs_finddir, ramfs_add_child, add_named,
  ramfs_create,
}
use learning_os_project.Ramfs.Names.{
  IsValid, name_at, get_or-append_left, get_or-append_self, Added, Added-finds,
}

take-all : (n : ℕ) (xs : List ℕ) → length xs ≤ n → take n xs ≡ xs
take-all zero [] h = refl
take-all zero (x ∷ xs) h = absurd (omega arith)
take-all (suc n) [] h = refl
take-all (suc n) (x ∷ xs) h = ap (λ (l : List ℕ). x ∷ l) (take-all n xs (omega arith))

-- The nodes after a call of `add_named` that succeeds, step by step.
module _ (r : Ramfs) (name : List ℕ) (flags : Kind) (set_up : Node → Node) where
  abbrev with_node : List Node
  with_node = r.nodes ++ record no_node { name = take 127 name; flags = flags } ∷ []

  abbrev set_node : List Node
  set_node = set with_node (length r.nodes) (set_up (get_or with_node (length r.nodes) no_node))

  abbrev with_child : List Node
  with_child = set set_node 0 (record (get_or set_node 0 no_node) {
    children = (get_or set_node 0 no_node).children ++ length r.nodes ∷ [];
  })

  abbrev with_parent : List Node
  with_parent =
      set with_child (length r.nodes)
        (record (get_or with_child (length r.nodes) no_node) { parent = some 0 })

  module _ (v : IsValid r) where
    in_range : length with_node ≡ length r.nodes + 1
    in_range = length-append r.nodes _

    old_node : (i : ℕ) → i < length r.nodes → get_or set_node i no_node ≡ get_or r.nodes i no_node
    old_node i h =
        get_or-set_ne with_node _ no_node (λ (e : length r.nodes ≡ i). omega arith)
        ∙ get_or-append_left r.nodes _ i h

    last_write :
        (i : ℕ) → i < length r.nodes → get_or with_parent i no_node ≡ get_or with_child i no_node
    last_write i h = get_or-set_ne with_child _ no_node (λ (e : length r.nodes ≡ i). omega arith)

    root_node : get_or with_parent 0 no_node ≡ record (get_or set_node 0 no_node) {
      children = (get_or set_node 0 no_node).children ++ length r.nodes ∷ [];
    }
    root_node =
        last_write 0 v.root_in
        ∙ get_or-set_self set_node 0 _ no_node
            (omega (arith, length-set with_node (length r.nodes) _, in_range))

    old_name : (i : ℕ) → i < length r.nodes → name_at with_parent i ≡ name_at r.nodes i
    old_name zero h = ap (λ (n : Node). n.name) root_node ∙ ap (λ (n : Node). n.name) (old_node 0 h)
    old_name (suc i) h =
        ap (λ (n : Node). n.name)
          (last_write (suc i) h
            ∙ get_or-set_ne set_node _ no_node (λ (e : 0 ≡ suc i). omega arith)
            ∙ old_node (suc i) h)

    new_name :
        ((n : Node) → (set_up n).name ≡ n.name)
        → length name ≤ 127
        → name_at with_parent (length r.nodes) ≡ name
    new_name keeps short =
        let k = length r.nodes in
        let inside : k < length with_node = omega (arith, in_range) in
        let first =
          get_or-append_self r.nodes (record no_node { name = take 127 name; flags = flags }) in
        ap (λ (n : Node). n.name)
          (get_or-set_self with_child k _ no_node
            (omega (arith, inside, length-set set_node 0 _, length-set with_node k _)))
        ∙ ap (λ (n : Node). n.name)
            (get_or-set_ne set_node _ no_node (λ (e : 0 ≡ k). omega (arith, v.root_in))
              ∙ get_or-set_self with_node k _ no_node inside)
        ∙ keeps _
        ∙ ap (λ (n : Node). n.name) first
        ∙ take-all 127 name short

    add_named-Added :
        ((n : Node) → (set_up n).name ≡ n.name)
        → length name ≤ 127
        → Added r name (record r { nodes = with_parent })
    add_named-Added keeps short = record {
      children =
          ap (λ (n : Node). n.children) root_node
          ∙ ap (λ (n : Node). n.children ++ length r.nodes ∷ []) (old_node 0 v.root_in);
      old = old_name;
      new = new_name keeps short;
    }

    add_named-eq :
        0 < length name
        → ramfs_finddir r 0 name ≡ none
        → length r.nodes < 9
        → length (get_or r.nodes 0 no_node).children < 16
        → add_named r name flags set_up ≡ (pos 0, record r { nodes = with_parent })
    unfolding add_named ramfs_alloc_node ramfs_add_child
    add_named-eq some_byte missing room listed =
        let given : ((length name == 0) || (length r.nodes == 0)) ≡ false =
          ground (arith, v.root_in) in
        let free : leb 9 (length r.nodes) ≡ false = ground arith in
        let unfilled : leb 16 (length (get_or set_node 0 no_node).children) ≡ false =
          ground (arith, ap (λ (n : Node). length n.children) (old_node 0 v.root_in)) in
        rw (given, missing, free) (rw unfilled refl)

-- With a root whose children are nodes in use, room for a node and for a child, and a name of 1
-- to 127 bytes that is not found, `ramfs_create` returns 0; the new file, the next node, is
-- then found by its name, and every other name gives what it gave before.
pub ramfs_create-finddir :
    {r : Ramfs} (name : List ℕ)
    → IsValid r
    → 0 < length name
    → length name ≤ 127
    → ramfs_finddir r 0 name ≡ none
    → length r.nodes < 9
    → length (get_or r.nodes 0 no_node).children < 16
    → ((ramfs_create r name).0 ≡ pos 0)
      × (ramfs_finddir (ramfs_create r name).1 0 name ≡ some (length r.nodes))
      × ((other : List ℕ)
          → text name ≢ text other
          → ramfs_finddir (ramfs_create r name).1 0 other ≡ ramfs_finddir r 0 other)
unfolding ramfs_create
ramfs_create-finddir {r} name v some_byte short missing room listed =
    let set_up =
      λ (n : Node). record n { address = 0; bytes = []; size = 0; owns_data = true; len = 0 } in
    let eq = add_named-eq r name file set_up v some_byte missing room listed in
    let found = Added-finds v (add_named-Added r name file set_up v (λ n. refl) short) missing in
    rw eq (refl, found.0, found.1)
