-- ===== src/Inode/Table/Twice.antt =====
-- `iget` of usr/sys/sys/iget.c over mounted devices.
use unix_v7_c.Base.{ℕ, ◌≡◌, suc, subst, inl, inr, true, false, arith, Option, some, refl, List, ◌⊎◌}
use unix_v7_c.Inode.Table.{
  Inodes, Outcome, sleeps, crosses, panics, overflows, unreadable, got, is_it, pass, mounted_on,
  Dinode, Mount, rootino, iget, and_again,
}
use unix_v7_c.Inode.Table.Unique.{Unique}
use unix_v7_c.Inode.Table.Outcomes.{Sound, is_final}
use unix_v7_c.Inode.Table.Pass.{pass-Sound}

-- No device is mounted on the root of a mounted device.
abbrev pub Flat : List Mount → Inodes → Type 0
Flat mount t =
    (k d x : ℕ) → mounted_on k mount ≡ some d → is_it d rootino (t x) ≡ true → (t x).mounted ≡ false

module _ (n : ℕ) (dinode : ℕ → ℕ → Option Dinode) (mount : List Mount) where
  -- The outcome of `iget` is what one pass finds for the device and the number.
  abbrev pub Ends : (dev ino : ℕ) → Inodes → Option Outcome → Type 0
  Ends dev ino t r =
      (o : Outcome) × (r ≡ some o) × (is_final o ≡ true) × Sound n dinode mount dev ino t o

  -- An answer of `iget`: for the i-node asked for, or, where a device d is mounted on it, for the
  -- root of d.
  abbrev pub Answer : (dev ino : ℕ) → Inodes → Option Outcome → Type 0
  Answer dev ino t r =
      Ends dev ino t r
      ⊎ ((d : ℕ) × Sound n dinode mount dev ino t (crosses d rootino) × Ends d rootino t r)

  settled :
      (m dev ino : ℕ) (t : Inodes) (o : Outcome)
      → Sound n dinode mount dev ino t o
      → Ends dev ino t (and_again o (λ d i. iget n dinode mount m d i t))
        ⊎ ((d : ℕ) × (o ≡ crosses d rootino)
            × (and_again o (λ d i. iget n dinode mount m d i t)
                ≡ iget n dinode mount m d rootino t))
  settled m dev ino t (crosses d i) s = let root = s.3 in inr (d, rw root refl, rw root refl)
  settled m dev ino t (sleeps u) s = inl (sleeps u, refl, refl, s)
  settled m dev ino t panics s = inl (panics, refl, refl, s)
  settled m dev ino t overflows s = inl (overflows, refl, refl, s)
  settled m dev ino t (unreadable u) s = inl (unreadable u, refl, refl, s)
  settled m dev ino t (got k u) s = inl (got k u, refl, refl, s)

  -- If no device is mounted on the root of a mounted device and no i-node is in the table twice, two
  -- passes are enough: `iget` answers. Either the first pass, over the i-node asked for, ends it, or
  -- a device d is mounted on that i-node, which is not locked, and a pass over the root of d ends it.
  -- The pass that ends it gives an entry of the i-node that it is over only where this was not locked
  -- and no device is mounted on it, or where a free entry was filled from the disk; the entry is then
  -- locked and has one more reference. It sleeps only where the entry is locked, panics only where no
  -- device is mounted on a marked entry, and finds the table full only where no entry is free or of
  -- the i-node.
  pub iget-Answer :
      (m dev ino : ℕ) (t : Inodes)
      → Unique n t
      → Flat mount t
      → Answer dev ino t (iget n dinode mount (suc (suc m)) dev ino t)
  unfolding iget
  iget-Answer m dev ino t u flat =
      elim (settled (suc m) dev ino t (pass n dinode mount dev ino t)
        (pass-Sound n dinode mount dev ino t u)) [
          | inl e ↦ inl e
          | inr (d, e, r) ↦
              let first =
                subst (Sound n dinode mount dev ino t) e (pass-Sound n dinode mount dev ino t u) in
              let again = pass-Sound n dinode mount d rootino t u in
              elim (settled m d rootino t (pass n dinode mount d rootino t) again) [
                | inl e' ↦ inr (d, first, rw r e')
                | inr (d', e', r') ↦
                    let second = subst (Sound n dinode mount d rootino t) e' again in
                    let plain = flat first.0 d second.0 first.2 second.1.0 in
                    absurd (ground (arith, plain, second.1.2))
              ]
        ]
