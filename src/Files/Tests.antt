-- ===== src/Files/Tests.antt =====
-- A user with two open files.
use unix_v7_c.Base.{◌≡◌, ◌↔◌, true, false, refl, none, some, List, [], ◌∷◌}
use unix_v7_c.Base.Int.{pos, negsuc}
use unix_v7_c.Files.{
  User, File, Inode, iread, iwrite, no_error, ebadf, eacces, getf, access, suser, falloc,
}
use unix_v7_c.Files.Permission.{Allowed, access-Allowed}
use unix_v7_c.Files.Descriptors.{Opened, falloc-Opened}

abbrev user : User
user = record {
  u_uid = 5;
  u_gid = 9;
  u_error = no_error;
  asu = false;
  u_ofile = some 3 ∷ none ∷ some 4 ∷ [];
  u_pofile = 0 ∷ 1 ∷ 0 ∷ [];
  r_val1 = 0;
}

abbrev table : List File
table = record { f_count = 2; f_offset = 8 } ∷ record { f_count = 0; f_offset = 7 } ∷ []

-- Mode 0640 of the user's group.
abbrev group_file : Inode
group_file = record { i_mode = 0x81A0; i_uid = 6; i_gid = 9 }

getf_runs : getf (pos 2) user ≡ (some 4, user)
unfolding getf
getf_runs = refl

getf_bad : getf (negsuc 0) user ≡ (none, record user { u_error = ebadf })
unfolding getf
getf_bad = refl

access_reads : access false false group_file iread user ≡ (false, user)
unfolding access
access_reads = refl

access_denies : access false false group_file iwrite user ≡ (true, record user { u_error = eacces })
unfolding access
access_denies = refl

suser_fails : (suser user).0 ≡ false
unfolding suser
suser_fails = refl

access-Allowed_example :
    ((access false false group_file iread user).0 ≡ false)
    ↔ Allowed false false group_file iread user
access-Allowed_example = access-Allowed false false group_file iread user

falloc-Opened_example : (let (fp, u', file') = falloc user table in Opened user table fp u' file')
falloc-Opened_example = falloc-Opened user table
