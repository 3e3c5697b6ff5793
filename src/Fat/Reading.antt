-- ===== src/Fat/Reading.antt =====
-- What `fat_read_file` stores in the buffer.
use learning_os_project.Common.{
  ℕ, zero, suc, ◌+◌, ◌%◌, ◌^◌, ◌<◌, ◌≤◌, sym, ap, ◌∙◌, leb→le, ltb→lt, ◌≡◌, subst, inl, inr, Bool,
  not, ◌&&◌, ◌||◌, Option, none, some, List, [], ◌++◌, ltb, leb, ◌==◌, length, length-append,
  length-take, take, min, arith, Bool-cases, Option-cases, some-inj,
}
use learning_os_project.Common.Int.{ℤ}
use learning_os_project.Storage.{Device}
use learning_os_project.Fat.Volume.{Fat, fat_read_fat_entry, fat_read_cluster_sector}
use learning_os_project.Fat.Files.{
  read_cluster, read_chain, fat_read_file, find_file, sector_bytes, chunk_size,
}

pub sector_bytes-some :
    (chunk : ℕ) (sector : List ℕ) {part : List ℕ}
    → sector_bytes chunk sector ≡ some part
    → (length part ≡ chunk) × (chunk ≤ 512)
unfolding sector_bytes
sector_bytes-some chunk sector {part} e = elim (Bool-cases (leb chunk (min 512 (length sector)))) [
  | inr p ↦ absurd (let x = rw (p, sector_bytes) at e in cc)
  | inl p ↦
      let same : take chunk sector ≡ part = some-inj (rw (p, sector_bytes) at e) in
      let size = length-take chunk sector in
      (sym (ap length same) ∙ (omega (arith, size, leb→le _ _ p)), omega (arith, leb→le _ _ p))
]

-- Below the wrap-around, the part of a sector that is copied stays within what is to be read.
chunk_size-le :
    (bps to_read read : ℕ)
    → to_read + 512 ≤ 2 ^ 32
    → read < to_read
    → chunk_size bps to_read read ≤ 512
    → read + chunk_size bps to_read read ≤ to_read
unfolding chunk_size
chunk_size-le bps to_read read small going k =
    elim (Bool-cases (ltb to_read ((read + bps) % 2 ^ 32))) [
      | inl p ↦ rw p (omega arith)
      | inr p ↦ let few : bps ≤ 512 = (rw (p, chunk_size) at k) in rw p (ground (arith, few))
    ]

module _ {S : Type 0} (device : Device S) where
  read_cluster-le :
      (f : Fat S) (to_read cluster n s : ℕ) (out : List ℕ) {out' : List ℕ}
      → to_read + 512 ≤ 2 ^ 32
      → length out ≤ to_read
      → read_cluster device f to_read cluster n s out ≡ some out'
      → length out' ≤ to_read
  unfolding read_cluster
  read_cluster-le f to_read cluster zero s out small h e =
      subst (λ (t : List ℕ). length t ≤ to_read) (some-inj e) h
  read_cluster-le f to_read cluster (suc n) s out {out'} small h e =
      let read = length out % 2 ^ 32 in
      elim (Bool-cases (ltb read to_read)) [
        | inr p ↦
            subst (λ (t : List ℕ). length t ≤ to_read) (some-inj (rw (p, read_cluster) at e)) h
        | inl p ↦ elim (Option-cases (fat_read_cluster_sector device f cluster s)) [
          | inl q ↦
              subst (λ (t : List ℕ). length t ≤ to_read) (some-inj (rw (p, q, read_cluster) at e)) h
          | inr (sector, q) ↦
              let chunk = chunk_size f.bytes_per_sector to_read read in
              elim (Option-cases (sector_bytes chunk sector)) [
                | inl r ↦ absurd (let x = rw (p, q, r, read_cluster) at e in cc)
                | inr (part, r) ↦
                    let (size, few) = sector_bytes-some chunk sector {part = part} r in
                    let le =
                      chunk_size-le f.bytes_per_sector to_read read small (ltb→lt _ _ p) few in
                    let sum = length-append out part in
                    read_cluster-le f to_read cluster n (s + 1) (out ++ part) {out' = out'} small
                      (omega (arith, le, sum, size)) (rw (p, q, r, read_cluster) at e)
              ]
        ]
      ]

  read_chain-le :
      (fuel : ℕ) (f : Fat S) (to_read cluster : ℕ) (out : List ℕ) {out' : List ℕ}
      → to_read + 512 ≤ 2 ^ 32
      → length out ≤ to_read
      → read_chain device fuel f to_read cluster out ≡ some out'
      → length out' ≤ to_read
  unfolding read_chain
  read_chain-le zero f to_read cluster out small h e = absurd (let x = e in cc)
  read_chain-le (suc fuel) f to_read cluster out {out'} small h e =
      elim (Bool-cases
        (leb 2 cluster && ltb cluster 0x0FFFFFF8 && ltb (length out % 2 ^ 32) to_read)) [
          | inr p ↦
              subst (λ (t : List ℕ). length t ≤ to_read) (some-inj (rw (p, read_chain) at e)) h
          | inl p ↦
              elim (Option-cases
                (read_cluster device f to_read cluster f.sectors_per_cluster 0 out)) [
                  | inl r ↦ absurd (let x = rw (p, r, read_chain) at e in cc)
                  | inr (more, r) ↦
                      let le =
                        read_cluster-le f to_read cluster f.sectors_per_cluster 0 out {out' = more}
                          small h r in
                      elim (Bool-cases
                        ((f.fat_type == 16) && leb 0xFFF8 (fat_read_fat_entry device f cluster))) [
                          | inl q ↦
                              subst (λ (t : List ℕ). length t ≤ to_read)
                                (some-inj (rw (p, r, q, read_chain) at e)) le
                          | inr q ↦
                              read_chain-le fuel f to_read (fat_read_fat_entry device f cluster)
                                more {out' = out'} small le (rw (p, r, q, read_chain) at e)
                        ]
                ]
        ]

  -- Whatever stands on the device and for any size of its sectors, with a room of at most
  -- 2^32 - 512
  -- bytes, when `fat_read_file` returns and has copied no byte from behind a sector, it has stored
  -- no more bytes in the buffer than the caller allows.
  pub fat_read_file-le :
      (fuel : ℕ) (f : Fat S) (name : Option (List ℕ)) (buffer_ok : Bool) (max : ℕ) {status : ℤ}
      {out : List ℕ}
      → max + 512 ≤ 2 ^ 32
      → fat_read_file device fuel f name buffer_ok max ≡ some (status, out)
      → length out ≤ max
  unfolding fat_read_file
  fat_read_file-le fuel f none buffer_ok max small e =
      subst (λ (t : ℤ × List ℕ). length t.1 ≤ max) (some-inj e) (omega arith)
  fat_read_file-le fuel f (some name) buffer_ok max {status} {out} small e =
      elim (Bool-cases (not buffer_ok || (max == 0))) [
        | inl p ↦
            subst (λ (t : ℤ × List ℕ). length t.1 ≤ max) (some-inj (rw (p, fat_read_file) at e))
              (omega arith)
        | inr p ↦ elim (Option-cases (find_file f.files name)) [
          | inl q ↦
              subst (λ (t : ℤ × List ℕ). length t.1 ≤ max)
                (some-inj (rw (p, q, fat_read_file) at e)) (omega arith)
          | inr (fi, q) ↦
              elim (Option-cases (read_chain device fuel f (min fi.size max) fi.first_cluster [])) [
                | inl r ↦ absurd (let x = rw (p, q, r, fat_read_file) at e in cc)
                | inr (got, r) ↦
                    let le =
                      read_chain-le fuel f (min fi.size max) fi.first_cluster [] {out' = got}
                        (omega arith) (omega arith) r in
                    subst (λ (t : ℤ × List ℕ). length t.1 ≤ max)
                      (some-inj (rw (p, q, r, fat_read_file) at e)) (omega (arith, le))
              ]
        ]
      ]
