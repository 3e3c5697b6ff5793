-- ===== src/Ata.antt =====
-- The ATA driver, src/drivers/ata.c, on the ports of a disk controller.
pub mod Transfer
use Prim.Native.Nat.{bit_and, bit_or}
use learning_os_project.Common.{
  ℕ, zero, suc, ◌+◌, ◌-◌, ◌*◌, ◌/◌, ◌%◌, ◌^◌, Bool, true, false, not, ◌&&◌, ◌||◌, Option, none,
  some, List, [], ◌∷◌, ◌++◌, leb, ltb, ◌==◌, if◌then◌else◌, drop, take,
}
use learning_os_project.Common.Int.{ℤ}
use learning_os_project.Ports.{Ports, outs}
use learning_os_project.Storage.{Storage, storage_register}

pub record AtaDevice : Type 0 where
  pub io : ℕ
  pub ctrl : ℕ
  pub slave : ℕ

-- `struct storage_device` as the driver fills it: which of its pointers are set.
pub record StorageDevice : Type 0 where
  pub sector_size : ℕ
  pub sector_count : ℕ
  pub has_read : Bool
  pub has_write : Bool
  pub has_driver_data : Bool

abbrev pub has_bits : ℕ → ℕ → Bool
has_bits status mask = not (bit_and status mask == 0)

module _ {H : Type 0} (ports : Ports H) where
  -- The status register of the control port is read four times.
  unfoldable pub ata_io_wait : H → H
  ata_io_wait h = (ports.inb (ports.inb (ports.inb (ports.inb h 0x3F6).1 0x3F6).1 0x3F6).1 0x3F6).1

  -- At most `timeout` looks at the status.
  unfoldable pub ata_wait_ready : ℕ → H → ℕ → Bool × H
  ata_wait_ready zero h io = (false, h)
  ata_wait_ready (suc timeout) h io =
      let (status, h') = ports.inb h (io + 7) in
      elim (not (has_bits status 0x80) && has_bits status 0x08) [
        | true ↦ (true, h')
        | false ↦ elim (has_bits status 0x01) [
          | true ↦ (false, h')
          | false ↦ ata_wait_ready timeout h' io
        ]
      ]

  -- The registers are set for the sector `cur`, and the command is given.
  unfoldable pub start_command : H → AtaDevice → ℕ → ℕ → H
  unfolding outs ata_io_wait
  start_command h dev cur command =
      let selected =
        ports.outb h (dev.io + 6)
          (bit_or (bit_or 0xE0 (dev.slave * 16)) (bit_and (cur / 2 ^ 24) 0x0F)) in
      outs ports (ata_io_wait selected) (
        (dev.io + 2, 1)
        ∷ (dev.io + 3, cur % 256)
        ∷ (dev.io + 4, cur / 2 ^ 8 % 256)
        ∷ (dev.io + 5, cur / 2 ^ 16 % 256)
        ∷ (dev.io + 7, command)
        ∷ [])

  unfoldable pub in_words : ℕ → H → ℕ → List ℕ × H
  in_words zero h io = ([], h)
  in_words (suc n) h io =
      let (w, h1) = ports.inw h io in let (rest, h2) = in_words n h1 io in (w ∷ rest, h2)

  unfoldable pub out_words : H → ℕ → List ℕ → H
  out_words h io [] = h
  out_words h io (w ∷ rest) = out_words (ports.outw h io w) io rest

  -- The attempts that are left: the words of the sector.
  unfoldable pub read_attempts : ℕ → H → AtaDevice → ℕ → Option (List ℕ) × H
  unfolding start_command in_words
  read_attempts zero h dev cur = (none, h)
  read_attempts (suc n) h dev cur =
      let (ready, h1) = ata_wait_ready 100000 (start_command h dev cur 0x20) dev.io in
      elim ready [
        | false ↦ read_attempts n h1 dev cur
        | true ↦ let (words, h2) = in_words 256 h1 dev.io in (some words, ata_io_wait h2)
      ]

  -- The sectors that are left, `n` of them: how many are read, and the words stored in the buffer.
  unfoldable pub read_sectors : ℕ → H → AtaDevice → ℕ → ℕ × List ℕ × H
  unfolding read_attempts
  read_sectors zero h dev cur = (0, [], h)
  read_sectors (suc n) h dev cur =
      let (got, h1) = read_attempts 3 h dev (cur % 2 ^ 32) in
      elim got [
        | none ↦ (0, [], h1)
        | some words ↦
            let (count, rest, h2) = read_sectors n h1 dev (cur + 1) in
            (count + 1, words ++ rest, h2)
      ]

  -- `ok`: the device's and the buffer's pointers are not null.
  unfoldable pub ata_read28 : H → Bool → AtaDevice → ℕ → ℕ → ℕ × List ℕ × H
  unfolding read_sectors
  ata_read28 h ok dev lba count =
      if not ok || (count == 0)
      then (0, [], h)
      else if ltb 0x0FFFFFFF lba
      then (0, [], h)
      else read_sectors count h dev lba

  -- The attempts that are left for the words of one sector.
  unfoldable pub write_attempts : ℕ → H → AtaDevice → ℕ → List ℕ → Bool × H
  unfolding start_command out_words
  write_attempts zero h dev cur words = (false, h)
  write_attempts (suc n) h dev cur words =
      let (ready, h1) = ata_wait_ready 100000 (start_command h dev cur 0x30) dev.io in
      elim ready [
        | false ↦ write_attempts n h1 dev cur words
        | true ↦ (true, ata_io_wait (out_words h1 dev.io words))
      ]

  -- The sectors that are left; `words` is what is still to write.
  unfoldable pub write_sectors : ℕ → H → AtaDevice → ℕ → List ℕ → ℕ × H
  unfolding write_attempts
  write_sectors zero h dev cur words = (0, h)
  write_sectors (suc n) h dev cur words =
      let (done, h1) = write_attempts 3 h dev (cur % 2 ^ 32) (take 256 words) in
      elim done [
        | false ↦ (0, h1)
        | true ↦
            let (count, h2) = write_sectors n h1 dev (cur + 1) (drop 256 words) in (count + 1, h2)
      ]

  unfoldable pub ata_write28 : H → Bool → AtaDevice → ℕ → ℕ → List ℕ → ℕ × H
  unfolding write_sectors
  ata_write28 h ok dev lba count words =
      if not ok || (count == 0)
      then (0, h)
      else if ltb 0x0FFFFFFF lba
      then (0, h)
      else write_sectors count h dev lba words

  -- What the storage layer calls; `driver` is the device's `driver_data`, `none` where it or the
  -- device is null.
  unfoldable pub ata_storage_read : H → Bool → Option AtaDevice → ℕ → ℕ → ℕ × List ℕ × H
  unfolding ata_read28
  ata_storage_read h ok none lba count = (0, [], h)
  ata_storage_read h ok (some driver) lba count = ata_read28 h ok driver lba count

  unfoldable pub ata_storage_write : H → Bool → Option AtaDevice → ℕ → ℕ → List ℕ → ℕ × H
  unfolding ata_write28
  ata_storage_write h ok none lba count words = (0, h)
  ata_storage_write h ok (some driver) lba count words = ata_write28 h ok driver lba count words

  unfoldable pub ata_wait_busy : ℕ → H → Bool × H
  ata_wait_busy zero h = (false, h)
  ata_wait_busy (suc timeout) h =
      let (status, h') = ports.inb h 0x1F7 in
      elim (has_bits status 0x80) [ false ↦ (true, h') | true ↦ ata_wait_busy timeout h' ]

  unfoldable pub ata_wait_drq : ℕ → H → Bool × H
  ata_wait_drq zero h = (false, h)
  ata_wait_drq (suc timeout) h =
      let (status, h') = ports.inb h 0x1F7 in
      elim (has_bits status 0x01) [
        | true ↦ (false, h')
        | false ↦ elim (has_bits status 0x08) [
          | true ↦ (true, h')
          | false ↦ ata_wait_drq timeout h'
        ]
      ]

  -- Whether the disk answers, and the words that it gives.
  unfoldable pub identify : H → Option (List ℕ) × H
  unfolding outs ata_io_wait in_words
  identify h =
      let h1 =
        outs ports (ata_io_wait (ports.outb h 0x1F6 0xA0))
          ((0x1F2, 0) ∷ (0x1F3, 0) ∷ (0x1F4, 0) ∷ (0x1F5, 0) ∷ (0x1F7, 0xEC) ∷ []) in
      let (status, h2) = ports.inb h1 0x1F7 in
      if status == 0
      then (none, h2)
      else let (idle, h3) = ata_wait_busy 100000 h2 in
        if not idle
        then (none, h3)
        else let (asks, h4) = ata_wait_drq 100000 h3 in
          if not asks
          then (none, h4)
          else (let (words, h5) = in_words 256 h4 0x1F0 in (some words, h5))

  -- The device as it is registered; `dev` is its number.
  abbrev pub fresh_device : StorageDevice
  fresh_device = record {
    sector_size = 512;
    sector_count = 0;
    has_read = false;
    has_write = false;
    has_driver_data = true;
  }

  -- The model's name is only printed.
  unfoldable pub ata_identify_primary :
      H → ℕ → StorageDevice → Storage → Bool × StorageDevice × Storage × H
  unfolding identify
  ata_identify_primary h dev d storage =
      let (words, h') = identify h in
      elim words [
        | none ↦ (false, d, storage, h')
        | some data_words ↦ (
          true,
          fresh_device,
          (storage_register storage (some (dev, fresh_device.has_read))).1,
          h',
        )
      ]

  unfoldable pub ata_init : H → ℕ → StorageDevice → Storage → StorageDevice × Storage × H
  unfolding ata_identify_primary
  ata_init h dev d storage =
      let (present, d', storage', h') = ata_identify_primary h dev d storage in
      if not present
      then (d', storage', h')
      else (record d' { has_read = true; has_write = true }, storage', h')
