-- ===== src/Storage.antt =====
-- src/fs/storage.c, and the block device that a file system stands on. A device's two function
-- pointers are functions of the contents of the device; drivers are not modelled.
use learning_os_project.Common.{
  ℕ, ◌≡◌, Bool, true, not, Option, none, some, List, ◌==◌, if◌then◌else◌, length,
}
use learning_os_project.Common.Int.{ℤ, pos, negsuc}

-- `struct storage_device` over contents of type `S`: whether its pointers are not null, and what
-- they do with one sector. `none`: the driver does not return 1.
pub record Device (S : Type 0) : Type 0 where
  pub can_read : Bool
  pub can_write : Bool
  pub read : S → ℕ → Option (List ℕ)
  pub write : S → ℕ → List ℕ → Option S

-- What a file system relies on: a sector has 512 bytes and gives back what was written last.
pub record IsLawful {S : Type 0} (dev : Device S) : Type 0 where
  pub readable : dev.can_read ≡ true
  pub sector : (s : S) (lba : ℕ) {b : List ℕ} → dev.read s lba ≡ some b → length b ≡ 512
  pub read-write :
      {s s' : S} (lba j : ℕ) {b : List ℕ}
      → length b ≡ 512
      → dev.write s lba b ≡ some s'
      → dev.read s' j ≡ (if lba == j then some b else dev.read s j)

-- A device without faults: a sector that can be read can be written.
pub record IsReliable {S : Type 0} (dev : Device S) : Type 0 where
  pub writable : dev.can_write ≡ true
  pub accepts :
      (s : S) (lba : ℕ) {old : List ℕ} (b : List ℕ)
      → length b ≡ 512
      → dev.read s lba ≡ some old
      → (s' : S) × (dev.write s lba b ≡ some s')

-- `default_dev`: the devices are known by number.
pub record Storage : Type 0 where
  pub default_dev : Option ℕ

-- `dev`: the number, with whether its `read` is set; `none` is null.
unfoldable pub storage_register : Storage → Option (ℕ × Bool) → ℤ × Storage
storage_register s none = (negsuc 0, s)
storage_register s (some (dev, has_read)) =
    if not has_read then (negsuc 0, s) else elim s.default_dev [
      | none ↦ (pos 0, record s { default_dev = some dev })
      | some old ↦ (pos 0, s)
    ]

unfoldable pub storage_get_default : Storage → Option ℕ
storage_get_default s = s.default_dev
