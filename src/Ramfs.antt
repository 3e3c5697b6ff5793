-- ===== src/Ramfs.antt =====
-- src/fs/ramfs.c. A node is its index in `nodes`; the root is node 0. A name is the list of its
-- bytes before the 0. A file's data is its address, 0 for null, and the bytes that stand there.
pub mod Names
pub mod Create
use mathlib.Core.Option
use learning_os_project.Common.{
  ℕ, ◌+◌, ◌-◌, ◌%◌, ◌^◌, Bool, true, false, not, ◌&&◌, ◌||◌, Option, none, some, List, [], ◌∷◌,
  ◌++◌, ltb, leb, ◌==◌, if◌then◌else◌, length, get_or, set, take, drop,
}
use learning_os_project.Common.Int.{ℤ, pos, negsuc, is_zero}
use learning_os_project.Libc.{strcmp, memcpy}
use learning_os_project.Heap.{Heap, kmalloc, kfree}

abbrev pub max_children : ℕ
max_children = 16

-- `RAMFS_MAX_FILES + 1`
abbrev pub max_nodes : ℕ
max_nodes = 9

abbrev pub name_max : ℕ
name_max = 128

-- `VFS_FILE` has the operations `read` and `write`, `VFS_DIR` has `readdir` and `finddir`.
pub data Kind : Type 0 where
  file dir : Kind

-- `struct ramfs_node`; `children` holds the first `child_count` entries.
pub record Node : Type 0 where
  pub name : List ℕ
  pub flags : Kind
  pub len : ℕ
  pub parent : Option ℕ
  pub children : List ℕ
  pub address : ℕ
  pub bytes : List ℕ
  pub size : ℕ
  pub owns_data : Bool

-- The nodes in use, `node_count` of them, and the heap.
pub record Ramfs : Type 0 where
  pub nodes : List Node
  pub heap : Heap

abbrev pub no_node : Node
no_node = record {
  name = [];
  flags = file;
  len = 0;
  parent = none;
  children = [];
  address = 0;
  bytes = [];
  size = 0;
  owns_data = false;
}

unfoldable pub ramfs_alloc_node : Ramfs → List ℕ → Kind → Option (ℕ × Ramfs)
ramfs_alloc_node r name flags =
    if leb max_nodes (length r.nodes)
    then none
    else some (
      length r.nodes,
      record r {
        nodes = r.nodes ++ record no_node { name = take (name_max - 1) name; flags = flags } ∷ [];
      },
    )

abbrev pub same_name : List ℕ → List ℕ → Bool
same_name a b = is_zero (strcmp (some a) (some b))

-- The loop of `ramfs_finddir` over the children.
unfoldable pub find_child : List Node → List ℕ → List ℕ → Option ℕ
find_child nodes [] name = none
find_child nodes (child ∷ rest) name =
    if same_name (get_or nodes child no_node).name name
    then some child
    else find_child nodes rest name

unfoldable pub ramfs_finddir : Ramfs → ℕ → List ℕ → Option ℕ
ramfs_finddir r node name = find_child r.nodes (get_or r.nodes node no_node).children name

-- The name and the inode, which is 0 for every node.
unfoldable pub ramfs_readdir : Ramfs → ℕ → ℕ → Option (List ℕ × ℕ)
ramfs_readdir r node index =
    let children = (get_or r.nodes node no_node).children in
    if leb (length children) index
    then none
    else some (take (name_max - 1) (get_or r.nodes (get_or children index 0) no_node).name, 0)

-- The bytes read; `none`: the sum wraps, and the code copies past the end of the data.
unfoldable pub ramfs_read : Ramfs → ℕ → ℕ → ℕ → Option (List ℕ)
ramfs_read r node offset size =
    let n = get_or r.nodes node no_node in
    if (n.address == 0) || leb n.size offset
    then some []
    else if ltb n.size ((offset + size) % 2 ^ 32)
    then some (take (n.size - offset) (drop offset n.bytes))
    else if ltb n.size (offset + size)
    then none
    else some (take size (drop offset n.bytes))

-- `memcpy(r->data + offset, buffer, size)` and the count returned; `none`: past the end of the
-- data.
unfoldable pub put_bytes : Ramfs → ℕ → Node → ℕ → ℕ → List ℕ → Option (ℕ × Ramfs)
put_bytes r node n offset size buffer =
    if n.address == 0
    then some (0, record r { nodes = set r.nodes node n })
    else if ltb n.size (offset + size)
    then none
    else some (
      size,
      record r {
        nodes =
            set r.nodes node (record n {
              bytes = take offset n.bytes ++ memcpy (drop offset n.bytes) buffer size;
            });
      },
    )

-- The file's data in a larger block; `stale` is what that block holds before, of which the code
-- leaves the bytes behind the old data as they are.
abbrev pub grown : Node → ℕ → ℕ → List ℕ → Node
grown n address new_size stale = record n {
  address = address;
  bytes = n.bytes ++ drop n.size (take new_size stale);
  size = new_size;
  len = new_size;
}

-- `none`: past the end of the data, or a `kfree` of what is no payload.
unfoldable pub ramfs_write : Ramfs → ℕ → ℕ → ℕ → List ℕ → List ℕ → Option (ℕ × Ramfs)
ramfs_write r node offset size buffer stale =
    let n = get_or r.nodes node no_node in
    if ltb n.size ((offset + size) % 2 ^ 32)
    then (if not n.owns_data
        then (if leb n.size offset
            then some (0, r)
            else put_bytes r node n offset (n.size - offset) buffer)
        else (let (address, heap) = kmalloc r.heap ((offset + size) % 2 ^ 32) in
            let larger = grown n address ((offset + size) % 2 ^ 32) stale in
            if address == 0
            then some (0, record r { heap = heap })
            else if not (n.address == 0) && ltb 0 n.size
            then elim (kfree heap n.address) [
              | none ↦ none
              | some heap' ↦ put_bytes (record r { heap = heap' }) node larger offset size buffer
            ]
            else put_bytes (record r { heap = heap }) node larger offset size buffer))
    else put_bytes r node n offset size buffer

-- `"hello.txt"` and `"hello from ramfs\n"`, which lies at the address `hello`.
abbrev pub hello_name : List ℕ
hello_name = 104 ∷ 101 ∷ 108 ∷ 108 ∷ 111 ∷ 46 ∷ 116 ∷ 120 ∷ 116 ∷ []

abbrev pub hello_data : List ℕ
hello_data =
    104 ∷ 101 ∷ 108 ∷ 108 ∷ 111 ∷ 32 ∷ 102 ∷ 114 ∷ 111 ∷ 109 ∷ 32 ∷ 114 ∷ 97 ∷ 109 ∷ 102 ∷ 115 ∷ 10
    ∷ []

unfoldable pub ramfs_init : Ramfs → ℕ → Ramfs
ramfs_init r hello = record r {
  nodes =
      record no_node { name = 47 ∷ []; flags = dir; children = 1 ∷ [] }
      ∷ record no_node {
        name = hello_name;
        parent = some 0;
        address = hello;
        bytes = hello_data;
        size = 17;
        len = 17;
      }
      ∷ [];
}

unfoldable pub ramfs_add_child : Ramfs → ℕ → ℕ → ℤ × Ramfs
ramfs_add_child r parent child =
    let p = get_or r.nodes parent no_node in
    if leb max_children (length p.children)
    then (negsuc 0, r)
    else let listed = set r.nodes parent (record p { children = p.children ++ child ∷ [] }) in
      (
        pos 0,
        record r {
          nodes = set listed child (record (get_or listed child no_node) { parent = some parent });
        },
      )

-- What `ramfs_mkdir` and `ramfs_create` have in common.
unfoldable pub add_named : Ramfs → List ℕ → Kind → (Node → Node) → ℤ × Ramfs
add_named r name flags set_up =
    if (length name == 0) || (length r.nodes == 0)
    then (negsuc 0, r)
    else elim (ramfs_finddir r 0 name) [
      | some child ↦ (negsuc 0, r)
      | none ↦ elim (ramfs_alloc_node r name flags) [
        | none ↦ (negsuc 0, r)
        | some (node, r') ↦
            ramfs_add_child
              (record r' { nodes = set r'.nodes node (set_up (get_or r'.nodes node no_node)) }) 0
              node
      ]
    ]

unfoldable pub ramfs_mkdir : Ramfs → List ℕ → ℤ × Ramfs
ramfs_mkdir r name = add_named r name dir (λ n. n)

unfoldable pub ramfs_create : Ramfs → List ℕ → ℤ × Ramfs
ramfs_create r name =
    add_named r name file
      (λ n. record n { address = 0; bytes = []; size = 0; owns_data = true; len = 0 })

-- The loop of `ramfs_unlink`: the child of that name, and the children that stay.
unfoldable pub take_child : List Node → List ℕ → List ℕ → Option (ℕ × List ℕ)
take_child nodes [] name = none
take_child nodes (child ∷ rest) name =
    if same_name (get_or nodes child no_node).name name
    then some (child, rest)
    else Option.map (λ (c, kept). (c, child ∷ kept)) (take_child nodes rest name)

abbrev pub is_dir : Kind → Bool
is_dir file = false
is_dir dir = true

-- `none`: a `kfree` of what is no payload.
unfoldable pub ramfs_unlink : Ramfs → List ℕ → Option (ℤ × Ramfs)
ramfs_unlink r name =
    let root = get_or r.nodes 0 no_node in
    if (length name == 0) || (length r.nodes == 0)
    then some (negsuc 0, r)
    else elim (take_child r.nodes root.children name) [
      | none ↦ some (negsuc 0, r)
      | some (child, kept) ↦
          let c = get_or r.nodes child no_node in
          let unlisted = set r.nodes 0 (record root { children = kept }) in
          if is_dir c.flags && ltb 0 (length c.children)
          then some (negsuc 0, r)
          else if c.owns_data && not (c.address == 0)
          then elim (kfree r.heap c.address) [
            | none ↦ none
            | some heap ↦ some (
              pos 0,
              record r {
                heap = heap;
                nodes = set unlisted child (record (get_or unlisted child no_node) { address = 0 });
              },
            )
          ]
          else some (pos 0, record r { nodes = unlisted })
    ]
