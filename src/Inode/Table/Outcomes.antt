-- ===== src/Inode/Table/Outcomes.antt =====
-- What the outcomes of one pass of `iget` of usr/sys/sys/iget.c stand for.
use unix_v7_c.Base.{ℕ, ◌+◌, ◌<◌, ◌≡◌, ◌≢◌, ◌==◌, true, false, Option, some, none, List}
use unix_v7_c.Inode.Table.{
  Inodes, Outcome, sleeps, crosses, panics, overflows, unreadable, got, is_it, mounted_on, Dinode,
  Mount, rootino,
}
use unix_v7_c.Inode.Table.Unique.{Unique}
use unix_v7_c.Base.{Bool}
use unix_v7_c.Base.{◌⊎◌}

-- The entry k was of the i-node, and nobody held it, nor is a device mounted on it.
abbrev pub Unheld : (dev ino k : ℕ) → Inodes → Type 0
Unheld dev ino k t = (is_it dev ino (t k) ≡ true) × ((t k).locked ≡ false) × ((t k).mounted ≡ false)

-- No entry was of the i-node, the entry k was free, and now has what was read from the disk.
abbrev pub Loaded : (ℕ → ℕ → Option Dinode) → (n dev ino k : ℕ) → (t u : Inodes) → Type 0
Loaded dinode n dev ino k t u =
    ((x : ℕ) → x < n → is_it dev ino (t x) ≡ false)
    × ((t k).i_count ≡ 0)
    × (dinode dev ino ≡ some (u k).disk)

-- From t to u, the entry k has one more reference and is locked; it is of the i-node asked for, and
-- was free for it.
pub record Gets (dinode : ℕ → ℕ → Option Dinode) (n dev ino k : ℕ) (t u : Inodes) : Type 0 where
  pub in_table : k < n
  pub unique : Unique n u
  pub before : Unheld dev ino k t ⊎ Loaded dinode n dev ino k t u
  pub its : is_it dev ino (u k) ≡ true
  pub held : (u k).locked ≡ true
  pub counted : (u k).i_count ≡ (t k).i_count + 1
  pub others : (x : ℕ) → (x == k) ≡ false → u x ≡ t x

-- No entry is free, and none is of the i-node.
abbrev pub Full : (n dev ino : ℕ) → Inodes → Type 0
Full n dev ino t = (x : ℕ) → x < n → ((t x).i_count ≢ 0) × (is_it dev ino (t x) ≡ false)

-- From t to u, only the entry k, which is of the i-node and locked, was marked as waited for.
pub record Waits (n dev ino k : ℕ) (t u : Inodes) : Type 0 where
  pub unique : Unique n u
  pub its : is_it dev ino (t k) ≡ true
  pub held : (t k).locked ≡ true
  pub marked : u k ≡ record (t k) { wanted = true }
  pub others : (x : ℕ) → (x == k) ≡ false → u x ≡ t x

-- The disk cannot be read; the entry k, which was free, is free again.
pub record Fails (dinode : ℕ → ℕ → Option Dinode) (n dev ino k : ℕ) (t u : Inodes) : Type 0 where
  pub unique : Unique n u
  pub unread : dinode dev ino ≡ none
  pub free : (t k).i_count ≡ 0
  pub again : ((u k).i_count ≡ 0) × ((u k).i_number ≡ 0)
  pub others : (x : ℕ) → (x == k) ≡ false → u x ≡ t x

-- The entry k is of the i-node, nobody holds it, and a device is mounted on it.
abbrev pub Covered : (dev ino k : ℕ) → Inodes → Type 0
Covered dev ino k t = (is_it dev ino (t k) ≡ true) × ((t k).locked ≡ false) × ((t k).mounted ≡ true)

module _ (n : ℕ) (dinode : ℕ → ℕ → Option Dinode) (mount : List Mount) where
  abbrev pub Sound : (dev ino : ℕ) → Inodes → Outcome → Type 0
  Sound dev ino t (sleeps u) = (k : ℕ) × Waits n dev ino k t u
  Sound dev ino t (crosses d i) =
      (k : ℕ) × Covered dev ino k t × (mounted_on k mount ≡ some d) × (i ≡ rootino)
  Sound dev ino t panics = (k : ℕ) × Covered dev ino k t × (mounted_on k mount ≡ none)
  Sound dev ino t overflows = Full n dev ino t
  Sound dev ino t (unreadable u) = (k : ℕ) × Fails dinode n dev ino k t u
  Sound dev ino t (got k u) = Gets dinode n dev ino k t u

-- No device is mounted on the root of a mounted device.
abbrev pub Flat : List Mount → Inodes → Type 0
Flat mount t =
    (k d x : ℕ) → mounted_on k mount ≡ some d → is_it d rootino (t x) ≡ true → (t x).mounted ≡ false

-- An outcome that ends `iget` or puts it to sleep.
abbrev pub is_final : Outcome → Bool
is_final (crosses d i) = false
is_final (sleeps u) = true
is_final panics = true
is_final overflows = true
is_final (unreadable u) = true
is_final (got k u) = true
