-- ===== src/Files/Permission.antt =====
-- `access` follows the nine permission bits of a file's mode.
use unix_v7_c.Base.{
  ℕ, ap, sym, ◌-◌, ◌/◌, ◌%◌, ◌^◌, ◌≡◌, ◌⊎◌, inl, inr, ◌↔◌, refl, Bool, true, false, ◌==◌,
  if◌then◌else◌, arith, Bool-cases,
}
use unix_v7_c.Files.{
  User, Inode, Mode, iread, iwrite, iexec, bit, has_bit, shifted, access_bits, access,
}

-- Whose bits count: 2 for the owner's, 1 for the group's, 0 for those of all others.
abbrev pub class : User → Inode → ℕ
class u ip = if u.u_uid == ip.i_uid then 2 else if u.u_gid == ip.i_gid then 1 else 0

-- The three bits of a class: reading is 4, writing 2, executing 1.
abbrev pub rights : ℕ → ℕ → ℕ
rights c i_mode = i_mode / 8 ^ c % 8

abbrev pub right : Mode → ℕ
right iread = 4
right iwrite = 2
right iexec = 1

-- The file can be written at all.
abbrev pub Writable : Bool → Bool → Mode → Type 0
Writable s_ronly busy iwrite = (s_ronly ≡ false) × (busy ≡ false)
Writable s_ronly busy _ = Unit {0}

-- What a user may do: the super-user everything, others what the bits of their class say.
abbrev pub Allowed : Bool → Bool → Inode → Mode → User → Type 0
Allowed s_ronly busy ip mode u =
    Writable s_ronly busy mode
    × ((u.u_uid ≡ 0) ⊎ (rights (class u ip) ip.i_mode / right mode % 2 ≡ 1))

bits_own : (n : ℕ) (mode : Mode) → n / 2 ^ bit mode % 2 ≡ n / 8 ^ 2 % 8 / right mode % 2
bits_own n iread = omega arith
bits_own n iwrite = omega arith
bits_own n iexec = omega arith

bits_group : (n : ℕ) (mode : Mode) → n / 2 ^ (bit mode - 3) % 2 ≡ n / 8 ^ 1 % 8 / right mode % 2
bits_group n iread = omega arith
bits_group n iwrite = omega arith
bits_group n iexec = omega arith

bits_other : (n : ℕ) (mode : Mode) → n / 2 ^ (bit mode - 3 - 3) % 2 ≡ n / 8 ^ 0 % 8 / right mode % 2
bits_other n iread = omega arith
bits_other n iwrite = omega arith
bits_other n iexec = omega arith

has_bit-rights :
    (u : User) (ip : Inode) (mode : Mode)
    → has_bit ip.i_mode (shifted u ip (bit mode))
      ≡ (rights (class u ip) ip.i_mode / right mode % 2 == 1)
unfolding shifted
has_bit-rights u ip mode = elim (Bool-cases (u.u_uid == ip.i_uid)) [
  | inl own ↦ rw own (ap (λ n. n == 1) (bits_own ip.i_mode mode))
  | inr other ↦ elim (Bool-cases (u.u_gid == ip.i_gid)) [
    | inl group ↦ rw (other, group) (ap (λ n. n == 1) (bits_group ip.i_mode mode))
    | inr neither ↦ rw (other, neither) (ap (λ n. n == 1) (bits_other ip.i_mode mode))
  ]
]

access_bits-rights :
    (ip : Inode) (mode : Mode) (u : User)
    → (access_bits ip mode u).0 ≡ (
        if u.u_uid == 0
        then false
        else if rights (class u ip) ip.i_mode / right mode % 2 == 1
        then false
        else true)
unfolding access_bits
access_bits-rights ip mode u = elim (Bool-cases (u.u_uid == 0)) [
  | inl super ↦ rw super refl
  | inr user ↦ elim (Bool-cases (has_bit ip.i_mode (shifted u ip (bit mode)))) [
    | inl granted ↦ rw (user, sym (has_bit-rights u ip mode), granted) refl
    | inr denied ↦ rw (user, sym (has_bit-rights u ip mode), denied) refl
  ]
]

verdict :
    (uid v : ℕ)
    → ((if uid == 0 then false else if v == 1 then false else true) ≡ false) ↔ ((uid ≡ 0) ⊎ (v ≡ 1))
verdict uid v = ground arith

access_bits-Allowed :
    (ip : Inode) (mode : Mode) (u : User)
    → ((access_bits ip mode u).0 ≡ false)
      ↔ ((u.u_uid ≡ 0) ⊎ (rights (class u ip) ip.i_mode / right mode % 2 ≡ 1))
access_bits-Allowed ip mode u =
    rw (access_bits-rights ip mode u)
      (verdict u.u_uid (rights (class u ip) ip.i_mode / right mode % 2))

-- `access` denies nothing to a user but what the file system and the text segment forbid, and what
-- the bits of the user's class leave out; the super-user needs no bit.
pub access-Allowed :
    (s_ronly busy : Bool) (ip : Inode) (mode : Mode) (u : User)
    → ((access s_ronly busy ip mode u).0 ≡ false) ↔ Allowed s_ronly busy ip mode u
unfolding access
access-Allowed s_ronly busy ip iread u =
    let (to, from) = access_bits-Allowed ip iread u in ((λ h. (tt, to h)), (λ h. from h.1))
access-Allowed s_ronly busy ip iexec u =
    let (to, from) = access_bits-Allowed ip iexec u in ((λ h. (tt, to h)), (λ h. from h.1))
access-Allowed true busy ip iwrite u =
    ((λ h. absurd (ground (arith, h))), (λ h. absurd (ground (arith, h))))
access-Allowed false true ip iwrite u =
    ((λ h. absurd (ground (arith, h))), (λ h. absurd (ground (arith, h))))
access-Allowed false false ip iwrite u =
    let (to, from) = access_bits-Allowed ip iwrite u in
    ((λ h. ((refl, refl), to h)), (λ h. from h.1))
