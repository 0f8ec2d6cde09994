-- ===== src/Auth/Filesystem/Permissions.antt =====
-- What the filesystem listener grants, against the rule of permission bits: one class of user (owner,
-- group or others) decides, and every requested action must be permitted.
use astral.Base.{ℕ, ◌∙◌, ◌+◌, ◌≡◌, ◌≢◌, Bool, not, ◌&&◌, ◌||◌, some, if◌then◌else◌, bit_at, arith}
use astral.Base.Int.{◌==ℤ◌}
use astral.Auth.{Cred, is_esu, decided, allow, defer, deny}
use astral.Auth.Steps.{Step, go, return, required, run, ◌>>=◌}
use astral.Auth.Filesystem.{
  Attr, Target, class_check, writecheck, readcheck, execcheck, setattrcheck, removal, removal_step,
  filesystem, action_execute, action_write, action_read, action_setattr, action_mount,
  action_unlink, action_rename, sticky,
}

-- The place of the lowest mode bit of the class that the effective user belongs to.
abbrev pub class_place : Cred → Attr → ℕ
class_place cred attr =
    if attr.uid ==ℤ cred.euid then 6 else if attr.gid ==ℤ cred.egid then 3 else 0

abbrev pub execute : ℕ
execute = 0

abbrev pub write : ℕ
write = 1

abbrev pub read : ℕ
read = 2

-- The bit of that class for a kind of access.
abbrev pub class_allows : Cred → Attr → ℕ → Bool
class_allows cred attr kind = bit_at attr.mode (class_place cred attr + kind)

abbrev pub may : Cred → Attr → ℕ → Bool
may cred attr kind = is_esu cred || class_allows cred attr kind

abbrev pub owns : Cred → Attr → Bool
owns cred attr = attr.uid ==ℤ cred.euid

abbrev pub some_execute_bit : ℕ → Bool
some_execute_bit mode = bit_at mode 6 || (bit_at mode 3 || bit_at mode 0)

abbrev pub may_execute : Cred → Target → Bool
may_execute cred t =
    (is_esu cred && (t.is_dir || some_execute_bit t.attr.mode)) || class_allows cred t.attr execute

-- Removing an entry needs write access to the directory and, in a sticky one, that the user owns the
-- directory or the file. Renaming a directory needs write access to it too.
abbrev pub may_remove : Cred → ℕ → Target → Attr → Bool
may_remove cred actions t dir =
    (may cred dir write
      && (not (bit_at actions action_rename) || (not t.is_dir || may cred t.attr write)))
    && (is_esu cred || (not (bit_at dir.mode sticky) || (owns cred dir || owns cred t.attr)))

abbrev pub asks_removal : ℕ → Bool
asks_removal actions = bit_at actions action_unlink || bit_at actions action_rename

-- Every requested action is permitted.
abbrev pub all_permitted : Cred → ℕ → Target → Attr → Bool
all_permitted cred actions t dir =
    (not (bit_at actions action_write) || may cred t.attr write)
    && ((not (bit_at actions action_read) || may cred t.attr read)
        && ((not (bit_at actions action_execute) || may_execute cred t)
            && ((not (bit_at actions action_setattr) || (is_esu cred || owns cred t.attr))
                && ((not (bit_at actions action_mount) || is_esu cred)
                    && (not (asks_removal actions) || may_remove cred actions t dir)))))

-- Some requested action is one that the listener knows.
abbrev pub any_known : ℕ → Bool
any_known actions =
    bit_at actions action_write
    || (bit_at actions action_read
        || (bit_at actions action_execute
            || (bit_at actions action_setattr
                || (bit_at actions action_mount || asks_removal actions))))

class_check_lem :
    (cred : Cred) (attr : Attr) (kind : ℕ)
    → class_check cred attr (6 + kind) (3 + kind) (0 + kind) ≡ class_allows cred attr kind
class_check_lem cred attr kind = ground arith

writecheck_lem : (cred : Cred) (attr : Attr) → writecheck cred attr ≡ may cred attr write
unfolding writecheck
writecheck_lem cred attr = ground (arith, class_check_lem cred attr write)

readcheck_lem : (cred : Cred) (attr : Attr) → readcheck cred attr ≡ may cred attr read
unfolding readcheck
readcheck_lem cred attr = ground (arith, class_check_lem cred attr read)

execcheck_lem : (cred : Cred) (t : Target) → execcheck cred t ≡ may_execute cred t
unfolding execcheck
execcheck_lem cred t = ground (arith, class_check_lem cred t.attr execute)

setattrcheck_lem :
    (cred : Cred) (attr : Attr) → setattrcheck cred attr ≡ (is_esu cred || owns cred attr)
unfolding setattrcheck
setattrcheck_lem cred attr = ground arith

-- With an action left, each step of the listener goes on or denies.
abbrev pub decide : Bool → Bool → ℕ → Step
decide asked ok w = if asked then (if ok then go (w + 1) else return (decided deny)) else go w

pub required_lem :
    (actions : ℕ) (asked ok : Bool) (w : ℕ)
    → actions ≢ 0
    → required actions asked ok w ≡ decide asked ok w
required_lem actions asked ok w h = ground arith

removal_lem :
    (cred : Cred) (actions : ℕ) (t : Target) (dir : Attr) (w : ℕ)
    → actions ≢ 0
    → removal cred actions t dir w
      ≡ (if may_remove cred actions t dir then go (w + 1) else return (decided deny))
unfolding removal
removal_lem cred actions t dir w h =
    rw (writecheck_lem cred dir, writecheck_lem cred t.attr) (ground arith)

removal_step_lem :
    (cred : Cred) (actions : ℕ) (t : Target) (dir : Attr) (w : ℕ)
    → actions ≢ 0
    → t.dir ≡ some dir
    → removal_step cred actions t w
      ≡ decide (asks_removal actions) (may_remove cred actions t dir) w
unfolding removal_step
removal_step_lem cred actions t dir w h e = rw e (rw (removal_lem cred actions t dir w h))

-- Six steps that go on or deny end in a denial if one asked is not permitted, and else in the
-- decision that some step was asked.
run_table :
    (a₁ k₁ a₂ k₂ a₃ k₃ a₄ k₄ a₅ k₅ a₆ k₆ : Bool)
    → run (
        decide a₁ k₁ 0
        >>= decide a₂ k₂
        >>= decide a₃ k₃
        >>= decide a₄ k₄
        >>= decide a₅ k₅
        >>= decide a₆ k₆)
      ≡ (if (not a₁ || k₁)
            && ((not a₂ || k₂)
                && ((not a₃ || k₃) && ((not a₄ || k₄) && ((not a₅ || k₅) && (not a₆ || k₆)))))
          then (if a₁ || (a₂ || (a₃ || (a₄ || (a₅ || a₆)))) then decided allow else decided defer)
          else decided deny)
run_table a₁ k₁ a₂ k₂ a₃ k₃ a₄ k₄ a₅ k₅ a₆ k₆ = ground arith

-- The filesystem listener, on a vnode whose directory is given, allows a set of actions, not empty,
-- exactly when every one that it knows is permitted and there is one, defers when it knows none, and denies when
-- one is not permitted: no combination of actions gets round a test.
pub filesystem-Permissions :
    (cred : Cred) (actions : ℕ) (t : Target) (dir : Attr)
    → actions ≢ 0
    → t.dir ≡ some dir
    → filesystem cred actions t ≡ (
        if all_permitted cred actions t dir
        then (if any_known actions then decided allow else decided defer)
        else decided deny)
unfolding filesystem
filesystem-Permissions cred actions t dir h e =
    (λ i. run (
      required_lem actions (asks action_write) (writecheck cred t.attr) 0 h i
      >>= (λ w. required_lem actions (asks action_read) (readcheck cred t.attr) w h i)
      >>= (λ w. required_lem actions (asks action_execute) (execcheck cred t) w h i)
      >>= (λ w. required_lem actions (asks action_setattr) (setattrcheck cred t.attr) w h i)
      >>= (λ w. required_lem actions (asks action_mount) (is_esu cred) w h i)
      >>= (λ w. removal_step_lem cred actions t dir w h e i)))
    ∙ (λ i. run (
        decide (asks action_write) (writecheck_lem cred t.attr i) 0
        >>= decide (asks action_read) (readcheck_lem cred t.attr i)
        >>= decide (asks action_execute) (execcheck_lem cred t i)
        >>= decide (asks action_setattr) (setattrcheck_lem cred t.attr i)
        >>= decide (asks action_mount) (is_esu cred)
        >>= decide (asks_removal actions) (may_remove cred actions t dir)))
    ∙ run_table (asks action_write) _ (asks action_read) _ (asks action_execute) _
        (asks action_setattr) _ (asks action_mount) _ (asks_removal actions) _
  where
    asks : ℕ → Bool
    asks k = bit_at actions k
