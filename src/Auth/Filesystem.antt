-- ===== src/Auth/Filesystem.antt =====
-- The listener of the filesystem scope: `filesystem` and `writecheck` of
-- kernel-src/sys/defaultauth.c. The attributes are those that VOP_GETATTR gave.
pub mod Permissions
use astral.Base.{
  ℕ, ◌+◌, Bool, true, false, not, ◌&&◌, ◌||◌, Option, none, some, if◌then◌else◌, bit_at,
}
use astral.Base.Int.{ℤ, ◌==ℤ◌}
use astral.Auth.{Cred, is_esu, Verdict, decided, assertion, deny}
use astral.Auth.Steps.{Step, go, return, ◌>>=◌, run, required, done_check}

-- The fields of `vattr_t` that the listener reads.
pub record Attr : Type 0 where
  pub uid : ℤ
  pub gid : ℤ
  pub mode : ℕ

-- The vnode, whether it is a directory, and the attributes of the directory vnode if one is given.
pub record Target : Type 0 where
  pub attr : Attr
  pub is_dir : Bool
  pub dir : Option Attr

-- The mode bits V_ATTR_MODE_*, by their place.
abbrev pub others_execute : ℕ
others_execute = 0

abbrev pub others_write : ℕ
others_write = 1

abbrev pub others_read : ℕ
others_read = 2

abbrev pub group_execute : ℕ
group_execute = 3

abbrev pub group_write : ℕ
group_write = 4

abbrev pub group_read : ℕ
group_read = 5

abbrev pub user_execute : ℕ
user_execute = 6

abbrev pub user_write : ℕ
user_write = 7

abbrev pub user_read : ℕ
user_read = 8

abbrev pub sticky : ℕ
sticky = 9

-- The action bits AUTH_ACTIONS_FILESYSTEM_*, by their place.
abbrev pub action_execute : ℕ
action_execute = 0

abbrev pub action_write : ℕ
action_write = 1

abbrev pub action_read : ℕ
action_read = 2

abbrev pub action_setattr : ℕ
action_setattr = 3

abbrev pub action_mount : ℕ
action_mount = 4

abbrev pub action_unlink : ℕ
action_unlink = 5

abbrev pub action_rename : ℕ
action_rename = 6

-- The three tests in a row that the listener makes on the owner's, the group's and the others' bit.
abbrev pub class_check : Cred → Attr → ℕ → ℕ → ℕ → Bool
class_check cred attr user group others =
    if attr.uid ==ℤ cred.euid && bit_at attr.mode user
    then true
    else if not (attr.uid ==ℤ cred.euid) && (attr.gid ==ℤ cred.egid && bit_at attr.mode group)
    then true
    else if not (attr.uid ==ℤ cred.euid)
        && (not (attr.gid ==ℤ cred.egid) && bit_at attr.mode others)
    then true
    else false

pub writecheck : Cred → Attr → Bool
writecheck cred attr =
    if is_esu cred then true else class_check cred attr user_write group_write others_write

pub readcheck : Cred → Attr → Bool
readcheck cred attr =
    if is_esu cred then true else class_check cred attr user_read group_read others_read

abbrev any_execute : ℕ → Bool
any_execute mode =
    bit_at mode user_execute || (bit_at mode group_execute || bit_at mode others_execute)

pub execcheck : Cred → Target → Bool
execcheck cred t =
    if t.is_dir && is_esu cred
    then true
    else if any_execute t.attr.mode && is_esu cred
    then true
    else class_check cred t.attr user_execute group_execute others_execute

pub setattrcheck : Cred → Attr → Bool
setattrcheck cred attr = is_esu cred || cred.euid ==ℤ attr.uid

-- The block for AUTH_ACTIONS_FILESYSTEM_UNLINK and AUTH_ACTIONS_FILESYSTEM_RENAME, once its
-- directory's attributes are at hand.
pub removal : Cred → ℕ → Target → Attr → ℕ → Step
removal cred actions t dirattr w =
    let esu = is_esu cred in
    let dosticky = not esu in
    if not esu && not (writecheck cred dirattr)
    then return (decided deny)
    else if bit_at actions action_rename && (t.is_dir && not (writecheck cred t.attr))
    then return (decided deny)
    else if dosticky && bit_at dirattr.mode sticky
    then if dirattr.uid ==ℤ cred.euid || t.attr.uid ==ℤ cred.euid
      then done_check actions (w + 1)
      else return (decided deny)
    else done_check actions (w + 1)

pub removal_step : Cred → ℕ → Target → ℕ → Step
unfolding removal
removal_step cred actions t w =
    if bit_at actions action_unlink || bit_at actions action_rename
    then elim (t.dir) [ none ↦ return assertion | some d ↦ removal cred actions t d w ]
    else go w

unfoldable pub filesystem : Cred → ℕ → Target → Verdict
filesystem cred actions t = run (
    required actions (bit_at actions action_write) (writecheck cred t.attr) 0
    >>= required actions (bit_at actions action_read) (readcheck cred t.attr)
    >>= required actions (bit_at actions action_execute) (execcheck cred t)
    >>= required actions (bit_at actions action_setattr) (setattrcheck cred t.attr)
    >>= required actions (bit_at actions action_mount) (is_esu cred)
    >>= removal_step cred actions t)
