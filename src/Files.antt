-- ===== src/Files.antt =====
-- Descriptors, open files and permissions: `getf`, `access`, `suser`, `ufalloc` and `falloc` of
-- usr/sys/sys/fio.c.
--
-- Of the user structure only the fields that these touch are modelled. A descriptor holds the index
-- of an entry of `file`, or NULL. What `access` learns of the file system and of the text segment
-- comes as two Booleans: s_ronly of the file system's super block, and whether ITEXT is still set
-- after `xrele`, which is called only if it was set. The message "no file" is left out.
pub mod Permission
pub mod Descriptors
mod Tests
use unix_v7_c.Base.{
  ℕ, zero, suc, ◌+◌, ◌-◌, ◌*◌, ◌/◌, ◌%◌, ◌^◌, Bool, true, false, ◌&&◌, Option, none, some, List, [],
  ◌∷◌, ◌==◌, if◌then◌else◌, set,
}
use unix_v7_c.Base.Int.{ℤ, pos, negsuc}

-- The error numbers.
pub data Error : Type 0 where
  no_error : Error
  eperm : Error
  ebadf : Error
  eacces : Error
  enfile : Error
  emfile : Error
  etxtbsy : Error
  erofs : Error

-- u_uid, u_gid, u_error, the bit ASU of u_acflag, u_ofile, u_pofile and u_r.r_val1
pub record User : Type 0 where
  pub u_uid : ℕ
  pub u_gid : ℕ
  pub u_error : Error
  pub asu : Bool
  pub u_ofile : List (Option ℕ)
  pub u_pofile : List ℕ
  pub r_val1 : ℕ

-- f_count and f_offset of `struct file`
pub record File : Type 0 where
  pub f_count : ℕ
  pub f_offset : ℕ

-- i_mode, i_uid and i_gid of `struct inode`
pub record Inode : Type 0 where
  pub i_mode : ℕ
  pub i_uid : ℕ
  pub i_gid : ℕ

abbrev pub fail : {A : Type 0} → A → Error → User → A × User
fail a e u = (a, record u { u_error = e })

abbrev pub descriptor : List (Option ℕ) → ℕ → Option ℕ
descriptor [] f = none
descriptor (d ∷ ds) zero = d
descriptor (d ∷ ds) (suc f) = descriptor ds f

-- `getf`; the list has NOFILE entries, and `none` is NULL.
pub getf : ℤ → User → Option ℕ × User
getf (negsuc f) u = fail none ebadf u
getf (pos f) u = elim (descriptor u.u_ofile f) [ none ↦ fail none ebadf u | some fp ↦ (some fp, u) ]

-- IREAD, IWRITE and IEXEC, by the number of their bit
pub data Mode : Type 0 where
  iread : Mode
  iwrite : Mode
  iexec : Mode

abbrev pub bit : Mode → ℕ
bit iread = 8
bit iwrite = 7
bit iexec = 6

-- `(ip->i_mode&m) != 0` for the bit number m
abbrev pub has_bit : ℕ → ℕ → Bool
has_bit i_mode m = i_mode / 2 ^ m % 2 == 1

-- The bit number after `m >>= 3`, none, one or two times.
pub shifted : User → Inode → ℕ → ℕ
shifted u ip m =
    if u.u_uid == ip.i_uid
    then m
    else (let m' = m - 3 in if u.u_gid == ip.i_gid then m' else m' - 3)

-- From `if(u.u_uid == 0)` on.
pub access_bits : Inode → Mode → User → Bool × User
unfolding shifted
access_bits ip mode u =
    if u.u_uid == 0
    then (false, u)
    else if has_bit ip.i_mode (shifted u ip (bit mode))
    then (false, u)
    else fail true eacces u

-- `access`: true is the result 1, access denied
pub access : (s_ronly busy : Bool) → Inode → Mode → User → Bool × User
unfolding access_bits
access s_ronly busy ip iwrite u =
    if s_ronly
    then fail true erofs u
    else if busy
    then fail true etxtbsy u
    else access_bits ip iwrite u
access s_ronly busy ip iread u = access_bits ip iread u
access s_ronly busy ip iexec u = access_bits ip iexec u

-- `suser`
pub suser : User → Bool × User
suser u = if u.u_uid == 0 then (true, record u { asu = true }) else fail false eperm u

-- The loop of `ufalloc`: the first descriptor that is NULL
pub first_null : List (Option ℕ) → Option ℕ
first_null [] = none
first_null (none ∷ ds) = some 0
first_null (some fp ∷ ds) = elim (first_null ds) [ none ↦ none | some i ↦ some (suc i) ]

-- `ufalloc`; `none` is -1.
pub ufalloc : User → Option ℕ × User
unfolding first_null
ufalloc u = elim (first_null u.u_ofile) [
  | none ↦ fail none emfile u
  | some i ↦ (some i, record u { r_val1 = i; u_pofile = set u.u_pofile i 0 })
]

-- The loop of `falloc`: the first file that is not in use, and the table with it taken
pub first_file : List File → Option (ℕ × List File)
first_file [] = none
first_file (f ∷ fs) =
    let rest = first_file fs in
    if f.f_count == 0
    then some (0, record f { f_count = f.f_count + 1; f_offset = 0 } ∷ fs)
    else elim rest [ none ↦ none | some (i, fs') ↦ some (suc i, f ∷ fs') ]

-- `falloc`; `none` is NULL.
pub falloc : User → List File → Option ℕ × User × List File
unfolding ufalloc first_file
falloc u file =
    let (i, u') = ufalloc u in
    elim i [
      | none ↦ (none, u', file)
      | some i ↦ elim (first_file file) [
        | none ↦ (none, record u' { u_error = enfile }, file)
        | some (fp, file') ↦ (some fp, record u' { u_ofile = set u'.u_ofile i (some fp) }, file')
      ]
    ]
