-- ===== src/Inode/Table/Pass.antt =====
-- What one pass of `iget` of usr/sys/sys/iget.c does, and `iput`.
use unix_v7_c.Base.{
  ℕ, ◌+◌, ◌<◌, ◌≡◌, ◌==◌, inl, inr, true, false, arith, Bool-cases, Option, some, none, refl, List,
}
use unix_v7_c.Inode.Table.{
  Inodes, Entry, Found, hit, missing, put, is_it, scan, pass, iput, table_of, fill, after_scan,
  over, entered, mounted_on, Dinode, Mount,
}
use unix_v7_c.Inode.Table.Scan.{scan-hit, scan-unmatched, scan-place, scan-full}
use unix_v7_c.Inode.Table.Unique.{Unique, put-same, put-free, put-fresh, put_there, put_self}
use unix_v7_c.Base.{◌∙◌}
use unix_v7_c.Base.{ap}
use unix_v7_c.Inode.Table.Outcomes.{Sound}

pub iput-Unique : (n k : ℕ) (t : Inodes) → k < n → Unique n t → Unique n (table_of (iput k t))
unfolding iput
iput-Unique n k t lk u = elim (Bool-cases ((t k).i_count == 1)) [
  | inl a ↦ elim (Bool-cases ((t k).disk.di_nlink == 0)) [
    | inl b ↦ rw (a, b) (put-free n k _ t u refl)
    | inr b ↦ elim (Bool-cases ((t k).changed)) [
      | inl c ↦ rw (a, b, c) (put-free n k _ t u refl)
      | inr c ↦ rw (a, b, c) (put-free n k _ t u refl)
    ]
  ]
  | inr a ↦ rw a (put-same n k _ t u lk refl refl)
]

-- `iput` of the last reference, where the i-node has a link and is not changed.
iput_last :
    (k : ℕ) (t : Inodes) (e : Entry)
    → e.i_count ≡ 1
    → (e.disk.di_nlink == 0) ≡ false
    → e.changed ≡ false
    → table_of (iput k (put t k e))
      ≡ put (put t k e) k (record e {
        i_number = 0;
        i_count = 0;
        locked = false;
        mounted = false;
        wanted = false;
        changed = false;
      })
unfolding iput
iput_last k t e one link same = rw (put_self t k e, one, link, same) refl

module _ (n : ℕ) (dinode : ℕ → ℕ → Option Dinode) (mount : List Mount) where
  pub fill-Sound :
      (dev ino k : ℕ) (t : Inodes) (d : Option Dinode)
      → dinode dev ino ≡ d
      → k < n
      → Unique n t
      → ((x : ℕ) → x < n → is_it dev ino (t x) ≡ false)
      → (t k).i_count ≡ 0
      → Sound n dinode mount dev ino t (fill n dinode mount dev ino k d t)
  unfolding fill
  fill-Sound dev ino k t none read lk u miss free =
      let ip = entered dev ino (t k) in
      let e : Entry = record ip { disk = record ip.disk { di_nlink = 1 } } in
      let out = iput_last k t e (omega (arith, free)) refl refl in
      let self = ap (λ v. v k) out ∙ put_self (put t k e) k _ in
      (
        k,
        record {
          unique = iput-Unique n k (put t k e) lk (put-fresh n k e t u miss);
          unread = read;
          free = free;
          again = (ap (λ v. v.i_count) self, ap (λ v. v.i_number) self);
          others =
              λ x ne. ap (λ v. v x) out ∙ (put_there (put t k e) k _ x ne ∙ put_there t k e x ne);
        },
      )
  fill-Sound dev ino k t (some d) read lk u miss free =
      let e : Entry = record (entered dev ino (t k)) { disk = d } in
      let self = put_self t k e in
      record {
        in_table = lk;
        unique = put-fresh n k e t u miss;
        before = inr (miss, free, rw self read);
        its = rw self (ground arith);
        held = rw self refl;
        counted = rw self refl;
        others = λ x ne. put_there t k e x ne;
      }

  -- The entry that the scan hits.
  pub hit-Sound :
      (dev ino k : ℕ) (t : Inodes)
      → k < n
      → Unique n t
      → is_it dev ino (t k) ≡ true
      → Sound n dinode mount dev ino t (after_scan n dinode mount dev ino t (hit k))
  unfolding after_scan
  hit-Sound dev ino k t lk u m = elim (Bool-cases ((t k).locked)) [
    | inl a ↦
        let e : Entry = record (t k) { locked = true; wanted = true } in
        rw a (
          k,
          record {
            unique = put-same n k e t u lk refl refl;
            its = m;
            held = a;
            marked = put_self t k e ∙ rw a refl;
            others = λ x ne. put_there t k e x ne;
          },
        )
    | inr a ↦ elim (Bool-cases ((t k).mounted)) [
      | inl b ↦ rw (a, b) (over-Sound a b (mounted_on k mount) refl)
      | inr b ↦
          let e : Entry = record (t k) {
            i_count = (t k).i_count + 1;
            locked = true;
            mounted = false;
          } in
          let self = put_self t k e in
          rw (a, b)
            (record {
              in_table = lk;
              unique = put-same n k e t u lk refl refl;
              before = inl (m, a, b);
              its = rw self m;
              held = rw self refl;
              counted = rw self refl;
              others = λ x ne. put_there t k e x ne;
            })
    ]
  ]
    where
      over-Sound :
          (t k).locked ≡ false
          → (t k).mounted ≡ true
          → (o : Option ℕ) → mounted_on k mount ≡ o
          → Sound n dinode mount dev ino t (over o)
      over-Sound a b none h = (k, (m, a, b), h)
      over-Sound a b (some d) h = (k, (m, a, b), h, refl)

  after_scan-Sound :
      (dev ino : ℕ) (t : Inodes) (r : Found)
      → Unique n t
      → scan n 0 dev ino none t ≡ r
      → Sound n dinode mount dev ino t (after_scan n dinode mount dev ino t r)
  unfolding after_scan
  after_scan-Sound dev ino t (hit k) u h =
      let found = scan-hit dev ino t n 0 none k h in
      hit-Sound dev ino k t (omega (arith, found.1)) u found.0
  after_scan-Sound dev ino t (missing none) u h = λ x lx. (
    scan-full dev ino t n 0 h x (omega arith) (omega (arith, lx)),
    scan-unmatched dev ino t n 0 none none h x (omega arith) (omega (arith, lx)),
  )
  after_scan-Sound dev ino t (missing (some k)) u h =
      let place = scan-place dev ino t n 0 none k (λ x e. absurd (ground (arith, e))) h in
      fill-Sound dev ino k t (dinode dev ino) refl (omega (arith, place.1)) u
        (λ x lx. scan-unmatched dev ino t n 0 none (some k) h x (omega arith) (omega (arith, lx)))
        place.0

  -- One pass of `iget` over a table that has no i-node twice ends in one of six ways. It gives an
  -- entry of the device and the number asked for, locked and with one more reference, only where the
  -- entry was of this i-node, not locked and with no device mounted on it, or where no entry was of
  -- the i-node, the entry was free, and the i-node was read from the disk. It sleeps only where the
  -- entry of the i-node is locked, and marks it as waited for. It crosses to the root of the device
  -- that is mounted on the i-node, panics where no device is, and says that the table is full only
  -- when no entry is free or of the i-node. Where the disk cannot be read the entry is free again.
  -- In all of these the other entries are as they were, and the table still has no i-node twice.
  pub pass-Sound :
      (dev ino : ℕ) (t : Inodes)
      → Unique n t
      → Sound n dinode mount dev ino t (pass n dinode mount dev ino t)
  unfolding pass
  pass-Sound dev ino t u = after_scan-Sound dev ino t (scan n 0 dev ino none t) u refl
