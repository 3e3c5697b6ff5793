-- ===== src/Fat/Contents.antt =====
-- What a file contains, and that `fat_read_file` gives it.
use learning_os_project.Common.{
  ℕ, zero, suc, ◌+◌, ◌-◌, ◌%◌, ◌^◌, le→leb, ltb→lt, ◌≤◌, ◌<◌, ◌≡◌, refl, sym, ap, ◌∙◌, inl, inr,
  true, false, ◌&&◌, Option, none, some, List, [], ◌∷◌, ◌++◌, append_assoc, append-nil, ltb, leb,
  ◌==◌, dec_lt, length, length-take, take-all, take, min, arith, Bool-cases,
}
use learning_os_project.Storage.{Device}
use learning_os_project.Fat.Volume.{Fat, fat_read_fat_entry, fat_read_cluster_sector}
use learning_os_project.Fat.Files.{read_cluster, read_chain, chunk_size, sector_bytes}
use learning_os_project.Fat.Chain.{Chain, stop, link}

take-front : (n : ℕ) (s t : List ℕ) → n ≤ length s → take n (s ++ t) ≡ take n s
take-front zero s t h = refl
take-front (suc n) [] t h = absurd (omega arith)
take-front (suc n) (c ∷ s) t h = ap (λ (t : List ℕ). c ∷ t) (take-front n s t (omega arith))

take-behind : (n : ℕ) (s t : List ℕ) → length s ≤ n → take n (s ++ t) ≡ s ++ take (n - length s) t
take-behind n [] t h = let less : n - 0 ≡ n = omega arith in rw less refl
take-behind zero (c ∷ s) t h = absurd (omega arith)
take-behind (suc n) (c ∷ s) t h =
    let less : suc n - suc (length s) ≡ n - length s = omega arith in
    rw less (ap (λ (t : List ℕ). c ∷ t) (take-behind n s t (omega arith)))

take-min : (m n : ℕ) (s : List ℕ) → length s ≤ m → take (min m n) s ≡ take n s
take-min m n s h = elim (dec_lt m n) [
  | yes p ↦
      let less : min m n ≡ m = omega arith in
      rw less (take-all m s h ∙ sym (take-all n s (omega arith)))
  | no p ↦ let less : min m n ≡ n = omega arith in rw less refl
]

-- Bytes that are added to a buffer which takes `t` of them.
take-add :
    (t bps : ℕ) (all sector : List ℕ)
    → length sector ≤ bps
    → length (take t all) < t
    → take t all ++ take (min bps (t - length (take t all))) sector ≡ take t (all ++ sector)
take-add t bps all sector h k =
    let size = length-take t all in
    let whole = take-all t all (omega (arith, size)) in
    rw (whole, take-min bps (t - length all) sector h)
      (sym (take-behind t all sector (omega (arith, size))))

take-inside : (m n : ℕ) (s : List ℕ) → m ≤ n → take m (take n s) ≡ take m s
take-inside zero n s h = refl
take-inside (suc m) zero s h = absurd (omega arith)
take-inside (suc m) (suc n) [] h = refl
take-inside (suc m) (suc n) (c ∷ s) h = ap (λ (t : List ℕ). c ∷ t) (take-inside m n s (omega arith))

chunk_size_lem :
    (bps t read : ℕ)
    → bps ≤ 512
    → t + 512 ≤ 2 ^ 32
    → read < t
    → chunk_size bps t read ≡ min bps (t - read)
unfolding chunk_size
chunk_size_lem bps t read small room going = ground arith

-- What is copied of a sector of 512 bytes is the part of its contents that there is room for.
sector_bytes_lem :
    (bps chunk : ℕ) (sector : List ℕ)
    → bps ≤ 512
    → length sector ≡ 512
    → chunk ≤ bps
    → sector_bytes chunk sector ≡ some (take chunk (take bps sector))
unfolding sector_bytes
sector_bytes_lem bps chunk sector small whole h =
    let p : leb chunk (min 512 (length sector)) ≡ true = le→leb _ _ (omega arith) in
    rw p (ap some (sym (take-inside chunk bps sector h)))

Chain-end : (entry : ℕ → ℕ) {c : ℕ} {cs : List ℕ} → Chain entry c cs → 0xFFF8 ≤ c → cs ≡ []
Chain-end entry (stop c h) k = refl
Chain-end entry (link c cs l h more) k = absurd (omega arith)

module _ {S : Type 0} (device : Device S) (f : Fat S) where
  -- What the volume's size of a sector takes of it.
  abbrev or_empty : Option (List ℕ) → List ℕ
  or_empty none = []
  or_empty (some sector) = take f.bytes_per_sector sector

  -- The `n` sectors of a cluster from number `s` on, one behind the other.
  abbrev pub cluster_bytes : ℕ → ℕ → ℕ → List ℕ
  cluster_bytes c zero s = []
  cluster_bytes c (suc n) s =
      or_empty (fat_read_cluster_sector device f c s) ++ cluster_bytes c n (s + 1)

  abbrev pub chain_bytes : List ℕ → List ℕ
  chain_bytes [] = []
  chain_bytes (c ∷ cs) = cluster_bytes c f.sectors_per_cluster 0 ++ chain_bytes cs

  -- All sectors of a cluster can be read, and the device gives 512 bytes for each.
  abbrev pub IsReadable : ℕ → Type 0
  IsReadable c =
      (s : ℕ)
      → s < f.sectors_per_cluster
      → (sector : List ℕ) × (fat_read_cluster_sector device f c s ≡ some sector)
        × (length sector ≡ 512)

  abbrev pub AllReadable : List ℕ → Type 0
  AllReadable [] = Unit {0}
  AllReadable (c ∷ cs) = IsReadable c × AllReadable cs

  -- `take t all` in 32 bits.
  read_count :
      (t : ℕ) (all : List ℕ) → t + 512 ≤ 2 ^ 32 → length (take t all) % 2 ^ 32 ≡ length (take t all)
  read_count t all room = omega (arith, length-take t all)

  read_cluster_lem :
      (t c n s : ℕ) (all : List ℕ)
      → f.bytes_per_sector ≤ 512
      → t + 512 ≤ 2 ^ 32
      → IsReadable c
      → s + n ≤ f.sectors_per_cluster
      → read_cluster device f t c n s (take t all) ≡ some (take t (all ++ cluster_bytes c n s))
  unfolding read_cluster
  read_cluster_lem t c zero s all few room v h = ap (λ x. some (take t x)) (sym (append-nil all))
  read_cluster_lem t c (suc n) s all few room v h =
      let count = read_count t all room in
      elim (Bool-cases (ltb (length (take t all)) t)) [
        | inr p ↦
            let size = length-take t all in
            rw (count, p, read_cluster)
              (ap some (sym (take-front t all (cluster_bytes c (suc n) s) (ground (arith, size)))))
        | inl p ↦
            let (sector, q, whole) = v s (omega arith) in
            let bps = f.bytes_per_sector in
            let part = take bps sector in
            let size = length-take bps sector in
            let left = t - length (take t all) in
            let chunk = chunk_size_lem bps t (length (take t all)) few room (ltb→lt _ _ p) in
            let copied : sector_bytes (chunk_size bps t (length (take t all) % 2 ^ 32)) sector
                ≡ some (take (min bps left) part) =
              ap (λ (r : ℕ). sector_bytes (chunk_size bps t r) sector) count
              ∙ ap (λ (k : ℕ). sector_bytes k sector) chunk
              ∙ sector_bytes_lem bps (min bps left) sector few whole (omega arith) in
            let next = take-add t bps all part (omega (arith, size)) (ltb→lt _ _ p) in
            let rest = read_cluster_lem t c n (s + 1) (all ++ part) few room v (omega arith) in
            rw
              (
                count,
                p,
                q,
                copied,
                next,
                rest,
                append_assoc all part (cluster_bytes c n (s + 1)),
                read_cluster,
              )
              refl
      ]

  -- A cluster of a file that the device gives whole.
  pub read_chain_lem :
      (t : ℕ) {c : ℕ} {cs : List ℕ} (fuel : ℕ) (all : List ℕ)
      → f.fat_type ≡ 16
      → f.bytes_per_sector ≤ 512
      → t + 512 ≤ 2 ^ 32
      → Chain (fat_read_fat_entry device f) c cs
      → c < 0xFFF8
      → AllReadable cs
      → length cs < fuel
      → read_chain device fuel f t c (take t all) ≡ some (take t (all ++ chain_bytes cs))
  unfolding read_chain
  read_chain_lem t zero all k few room chain low v enough = absurd (omega arith)
  read_chain_lem t (suc fuel) all k few room (stop c h) low v enough = absurd (omega arith)
  read_chain_lem t (suc fuel) all k few room (link c cs l h more) low v enough =
      let count = read_count t all room in
      elim (Bool-cases (leb 2 c && ltb c 0x0FFFFFF8 && ltb (length (take t all)) t)) [
        | inr p ↦
            let size = length-take t all in
            rw (count, p, read_chain)
              (ap some (sym (take-front t all (chain_bytes (c ∷ cs)) (ground (arith, size)))))
        | inl p ↦
            let here =
              read_cluster_lem t c f.sectors_per_cluster 0 all few room v.0 (omega arith) in
            let next = fat_read_fat_entry device f c in
            let now = cluster_bytes c f.sectors_per_cluster 0 in
            let kind : (f.fat_type == 16) ≡ true = rw k refl in
            elim (Bool-cases (leb 0xFFF8 next)) [
              | inl q ↦
                  let none_left : cs ≡ [] = Chain-end _ more (ground arith) in
                  let ends : ((f.fat_type == 16) && leb 0xFFF8 next) ≡ true = rw (kind, q) refl in
                  rw (count, p, here, ends, none_left, append-nil now, read_chain) refl
              | inr q ↦
                  let stays : ((f.fat_type == 16) && leb 0xFFF8 next) ≡ false = rw (kind, q) refl in
                  let rest =
                    read_chain_lem t {c = next} {cs = cs} fuel (all ++ now) k few room more
                      (ground arith) v.1 (omega arith) in
                  rw
                    (count, p, here, stays, rest, append_assoc all now (chain_bytes cs), read_chain)
                    refl
            ]
      ]
