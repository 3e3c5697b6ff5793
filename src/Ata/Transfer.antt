-- ===== src/Ata/Transfer.antt =====
-- What the ATA driver transfers, and what it registers.
use learning_os_project.Common.{
  ℕ, zero, suc, ◌+◌, ◌*◌, ◌%◌, ◌^◌, ◌≤◌, ◌≡◌, refl, ap, inl, inr, Bool, not, ◌||◌, some, List, ltb,
  ◌==◌, length, length-append, arith, Bool-cases, Option-cases, some-inj, subst,
}
use learning_os_project.Ports.{Ports}
use learning_os_project.Storage.{Storage, storage_register}
use learning_os_project.Ata.{
  AtaDevice, StorageDevice, in_words, start_command, ata_wait_ready, read_attempts, read_sectors,
  ata_read28, identify, ata_identify_primary, ata_init,
}

module _ {H : Type 0} (ports : Ports H) where
  length-in_words : (n : ℕ) (h : H) (io : ℕ) → length (in_words ports n h io).0 ≡ n
  unfolding in_words
  length-in_words zero h io = refl
  length-in_words (suc n) h io = ap suc (length-in_words n (ports.inw h io).1 io)

  length-read_attempts :
      (n : ℕ) (h : H) (dev : AtaDevice) (cur : ℕ) {words : List ℕ}
      → (read_attempts ports n h dev cur).0 ≡ some words
      → length words ≡ 256
  unfolding read_attempts
  length-read_attempts zero h dev cur e = absurd (let x = e in cc)
  length-read_attempts (suc n) h dev cur {words} e =
      let ready = ata_wait_ready ports 100000 (start_command ports h dev cur 0x20) dev.io in
      elim (Bool-cases ready.0) [
        | inl p ↦
            let all = length-in_words 256 ready.1 dev.io in
            subst (λ (t : List ℕ). length t ≡ 256) (some-inj (rw (p, read_attempts) at e)) all
        | inr p ↦
            length-read_attempts n ready.1 dev cur {words = words} (rw (p, read_attempts) at e)
      ]

  read_sectors_lem :
      (n : ℕ) (h : H) (dev : AtaDevice) (cur : ℕ)
      → ((read_sectors ports n h dev cur).0 ≤ n)
        × (length (read_sectors ports n h dev cur).1 ≡ 256 * (read_sectors ports n h dev cur).0)
  unfolding read_sectors
  read_sectors_lem zero h dev cur = (omega arith, refl)
  read_sectors_lem (suc n) h dev cur =
      let attempts = read_attempts ports 3 h dev (cur % 2 ^ 32) in
      elim (Option-cases attempts.0) [
        | inl p ↦ rw (p, read_sectors) (omega arith, refl)
        | inr (words, p) ↦
            let size = length-read_attempts 3 h dev (cur % 2 ^ 32) {words = words} p in
            let (few, rest) = read_sectors_lem n attempts.1 dev (cur + 1) in
            let sum = length-append words (read_sectors ports n attempts.1 dev (cur + 1)).1 in
            rw (p, read_sectors) (omega (arith, few), omega (arith, size, rest, sum))
      ]

  -- Whatever the controller answers, `ata_read28` reports at most as many sectors as are asked for,
  -- and has stored 256 words in the buffer for each sector that it reports.
  pub ata_read28_lem :
      (h : H) (ok : Bool) (dev : AtaDevice) (lba count : ℕ)
      → ((ata_read28 ports h ok dev lba count).0 ≤ count)
        × (length (ata_read28 ports h ok dev lba count).1
            ≡ 256 * (ata_read28 ports h ok dev lba count).0)
  unfolding ata_read28
  ata_read28_lem h ok dev lba count = elim (Bool-cases (not ok || (count == 0))) [
    | inl p ↦ rw (p, ata_read28) (omega arith, refl)
    | inr p ↦ elim (Bool-cases (ltb 0x0FFFFFFF lba)) [
      | inl q ↦ rw (p, q, ata_read28) (omega arith, refl)
      | inr q ↦ rw (p, q, ata_read28) (read_sectors_lem count h dev lba)
    ]
  ]

  identify-default :
      (h : H) (dev : ℕ) (d : StorageDevice) (storage : Storage)
      → (ata_identify_primary ports h dev d storage).2 ≡ storage
  unfolding ata_identify_primary storage_register
  identify-default h dev d storage = elim (Option-cases (identify ports h).0) [
    | inl p ↦ rw (p, ata_identify_primary) refl
    | inr (words, p) ↦ rw (p, ata_identify_primary) refl
  ]

  -- Whatever the controller answers, the default storage device is the same after `ata_init` as
  -- before: the driver registers its disk before it sets the disk's `read`.
  pub ata_init-default :
      (h : H) (dev : ℕ) (d : StorageDevice) (storage : Storage)
      → (ata_init ports h dev d storage).1 ≡ storage
  unfolding ata_init
  ata_init-default h dev d storage =
      elim (Bool-cases (ata_identify_primary ports h dev d storage).0) [
        | inl p ↦ rw (p, ata_init) (identify-default h dev d storage)
        | inr p ↦ rw (p, ata_init) (identify-default h dev d storage)
      ]
