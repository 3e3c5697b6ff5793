-- ===== src/Shell/Cat.antt =====
-- What the shell's `cat` puts on the screen.
use learning_os_project.Common.{
  ℕ, zero, suc, ◌+◌, ◌-◌, ◌%◌, ◌^◌, ◌≤◌, ◌<◌, ◌≡◌, ◌≢◌, refl, sym, ap, ◌∙◌, true, false, some, List,
  [], ◌∷◌, ◌++◌, append-nil, ltb, leb, ◌==◌, take, drop, length, length-append, length-take,
  length-drop, get_or, arith, ne→==, dec_lt, take-all,
}
use learning_os_project.Monitor.{Monitor, monitor_put}
use learning_os_project.Ramfs.{Ramfs, Node, no_node, ramfs_read}
use learning_os_project.Shell.{Shell, put, put_all, cat_from, shell_cat, resolve}

put_all-append : (m : Monitor) (xs ys : List ℕ) → put_all (put_all m xs) ys ≡ put_all m (xs ++ ys)
unfolding put_all
put_all-append m [] ys = refl
put_all-append m (x ∷ xs) ys = put_all-append (monitor_put m x) xs ys

-- A file with data: all its bytes are there.
pub record IsFile (n : Node) : Type 0 where
  pub with_data : n.address ≢ 0
  pub whole : length n.bytes ≡ n.size
  pub small : n.size < 2 ^ 31

take-drop : (n : ℕ) (xs : List ℕ) → take n xs ++ drop n xs ≡ xs
take-drop zero xs = refl
take-drop (suc n) [] = refl
take-drop (suc n) (x ∷ xs) = ap (λ (t : List ℕ). x ∷ t) (take-drop n xs)

drop-drop : (m n : ℕ) (xs : List ℕ) → drop n (drop m xs) ≡ drop (m + n) xs
drop-drop zero n xs = let same : 0 + n ≡ n = omega arith in rw same refl
drop-drop (suc m) zero [] = let same : suc m + 0 ≡ suc m = omega arith in rw same refl
drop-drop (suc m) (suc n) [] =
    let same : suc m + suc n ≡ suc (m + suc n) = omega arith in rw same refl
drop-drop (suc m) n (x ∷ xs) =
    let same : suc m + n ≡ suc (m + n) = omega arith in rw same (drop-drop m n xs)

drop-end : (n : ℕ) (xs : List ℕ) → length xs ≤ n → drop n xs ≡ []
drop-end zero [] h = refl
drop-end zero (x ∷ xs) h = absurd (omega arith)
drop-end (suc n) [] h = refl
drop-end (suc n) (x ∷ xs) h = drop-end n xs (omega arith)

-- What one round reads, and what is left behind it.
record Chunk (r : Ramfs) (node off : ℕ) (bytes : List ℕ) : Type 0 where
  chunk : List ℕ
  read : ramfs_read r node off 512 ≡ some chunk
  some_byte : off < length bytes → 0 < length chunk
  rest : chunk ++ drop (off + length chunk) bytes ≡ drop off bytes

Chunk-at :
    (r : Ramfs) (node off : ℕ)
    → IsFile (get_or r.nodes node no_node)
    → off ≤ length (get_or r.nodes node no_node).bytes
    → Chunk r node off (get_or r.nodes node no_node).bytes
unfolding ramfs_read
Chunk-at r node off v h =
    let n = get_or r.nodes node no_node in
    let here : (n.address == 0) ≡ false = ne→== n.address 0 v.with_data in
    let whole = v.whole in
    let small = v.small in
    elim (dec_lt off n.size) [
      | no last ↦
          let ends : leb n.size off ≡ true = ground arith in
          record {
            chunk = [];
            read = rw (here, ends, ramfs_read) refl;
            some_byte = λ k. absurd (omega (arith, whole));
            rest = let same : off + 0 ≡ off = omega arith in rw same refl;
          }
      | yes more ↦
          let goes : leb n.size off ≡ false = ground arith in
          let sum : (off + 512) % 2 ^ 32 ≡ off + 512 = omega (arith, small) in
          elim (dec_lt n.size (off + 512)) [
            | yes last ↦
                let less : ltb n.size (off + 512) ≡ true = ground arith in
                let size = length-drop off n.bytes in
                let all : take (n.size - off) (drop off n.bytes) ≡ drop off n.bytes =
                  take-all (n.size - off) (drop off n.bytes) (omega (arith, size, whole)) in
                record {
                  chunk = drop off n.bytes;
                  read = rw (here, goes, sum, less, all, ramfs_read) refl;
                  some_byte = λ k. omega (arith, size);
                  rest =
                      let gone =
                        drop-end (off + length (drop off n.bytes)) n.bytes (omega (arith, size)) in
                      rw (gone, append-nil (drop off n.bytes)) refl;
                }
            | no full ↦
                let less : ltb n.size (off + 512) ≡ false = ground arith in
                let size = length-drop off n.bytes in
                let taken = length-take 512 (drop off n.bytes) in
                let count : length (take 512 (drop off n.bytes)) ≡ 512 =
                  omega (arith, taken, size, whole) in
                record {
                  chunk = take 512 (drop off n.bytes);
                  read = rw (here, goes, sum, less, ramfs_read) refl;
                  some_byte = λ k. omega (arith, count);
                  rest =
                      rw (count, sym (drop-drop off 512 n.bytes))
                        (take-drop 512 (drop off n.bytes));
                }
          ]
    ]

module _ {S : Type 0} where
  cat_from_lem :
      (fuel : ℕ) (sh : Shell S) (node off : ℕ)
      → IsFile (get_or sh.ramfs.nodes node no_node)
      → off ≤ length (get_or sh.ramfs.nodes node no_node).bytes
      → length (get_or sh.ramfs.nodes node no_node).bytes < off + fuel
      → cat_from fuel sh node off
        ≡ some (put sh (drop off (get_or sh.ramfs.nodes node no_node).bytes))
  unfolding cat_from put_all
  cat_from_lem zero sh node off v h enough = absurd (omega arith)
  cat_from_lem (suc fuel) sh node off v h enough =
      let c = Chunk-at sh.ramfs node off v h in
      printed c.chunk c.read c.some_byte c.rest
        (λ m off' l k. cat_from_lem fuel (record sh { screen = m }) node off' v l k)
    where
      printed :
          (chunk : List ℕ)
          → ramfs_read sh.ramfs node off 512 ≡ some chunk
          → (off < length (get_or sh.ramfs.nodes node no_node).bytes → 0 < length chunk)
          → chunk ++ drop (off + length chunk) (get_or sh.ramfs.nodes node no_node).bytes
            ≡ drop off (get_or sh.ramfs.nodes node no_node).bytes
          → ((m : Monitor) (off' : ℕ)
              → off' ≤ length (get_or sh.ramfs.nodes node no_node).bytes
              → length (get_or sh.ramfs.nodes node no_node).bytes < off' + fuel
              → cat_from fuel (record sh { screen = m }) node off'
                ≡ some (
                    put
                      (record sh { screen = m })
                      (drop off' (get_or sh.ramfs.nodes node no_node).bytes)))
          → cat_from (suc fuel) sh node off
            ≡ some (put sh (drop off (get_or sh.ramfs.nodes node no_node).bytes))
      printed [] e some_byte rest again =
          let bytes = (get_or sh.ramfs.nodes node no_node).bytes in
          let gone : drop off bytes ≡ [] = drop-end off bytes (elim (dec_lt off (length bytes)) [
            | yes p ↦ absurd (omega (arith, some_byte p))
            | no p ↦ omega arith
          ]) in
          rw (e, gone, cat_from) refl
      printed (a ∷ chunk) e some_byte rest again =
          let bytes = (get_or sh.ramfs.nodes node no_node).bytes in
          let off' = off + length (a ∷ chunk) in
          let sizes =
            sym (length-append (a ∷ chunk) (drop off' bytes))
            ∙ ap (λ (t : List ℕ). length t) rest in
          let left = length-drop off' bytes in
          let before = length-drop off bytes in
          let next =
            again (put_all sh.screen (a ∷ chunk)) off' (omega (arith, sizes, left, before))
              (omega arith) in
          let both = put_all-append sh.screen (a ∷ chunk) (drop off' bytes) in
          rw (e, next, cat_from)
            (ap (λ (m : Monitor). some (record sh { screen = m }))
              (both ∙ ap (put_all sh.screen) rest))

  -- For a path that leads to a file of the RAM file system with data, all of whose bytes are there,
  -- `cat` puts these bytes on the screen and then an end of line, and changes nothing else.
  -- The fuel
  -- is more than the file's size.
  pub shell_cat_lem :
      (fuel : ℕ) (sh : Shell S) (path : List ℕ) (node : ℕ)
      → 0 < length path
      → resolve sh path ≡ some node
      → IsFile (get_or sh.ramfs.nodes node no_node)
      → length (get_or sh.ramfs.nodes node no_node).bytes < fuel
      → shell_cat fuel sh path
        ≡ some (put sh ((get_or sh.ramfs.nodes node no_node).bytes ++ 10 ∷ []))
  unfolding shell_cat
  shell_cat_lem fuel sh path node named found v enough =
      let bytes = (get_or sh.ramfs.nodes node no_node).bytes in
      let some_path : (length path == 0) ≡ false = ground arith in
      let out = cat_from_lem fuel sh node 0 v (omega arith) (omega arith) in
      rw (some_path, found, out, shell_cat)
        (ap (λ (m : Monitor). some (record sh { screen = m }))
          (put_all-append sh.screen bytes (10 ∷ [])))
