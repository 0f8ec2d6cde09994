-- ===== src/Auth/Listeners.antt =====
-- The listeners of the other scopes, and the scopes after `defaultauth_init`:
-- kernel-src/sys/defaultauth.c.
use astral.Base.{ℕ, ◌+◌, Bool, not, ◌&&◌, ◌||◌, if◌then◌else◌, bit_at}
use astral.Base.Int.{ℤ, negsuc, ◌==ℤ◌}
use astral.Auth.{Cred, is_esu, Verdict, decided, allow, deny, Scope, empty_scope, register_listener}
use astral.Auth.Steps.{Step, go, return, ◌>>=◌, run, required, done_check}
use astral.Auth.Filesystem.{Target, filesystem}

-- AUTH_ACTIONS_SYSTEM_CHROOT and AUTH_ACTIONS_SYSTEM_SETHOSTNAME are bits 0 and 1.
unfoldable pub system : Cred → ℕ → Unit {0} → Verdict
system cred actions arg = run (
    required actions (bit_at actions 0) (is_esu cred) 0
    >>= required actions (bit_at actions 1) (is_esu cred))

-- The three ids that a change of credentials asks for; -1 leaves one as it is.
pub record Ids : Type 0 where
  pub id : ℤ
  pub eid : ℤ
  pub sid : ℤ

-- `x != -1 && x != a && x != b && x != c`
abbrev foreign : ℤ → ℤ → ℤ → ℤ → Bool
foreign x a b c = not (x ==ℤ negsuc 0) && (not (x ==ℤ a) && (not (x ==ℤ b) && not (x ==ℤ c)))

-- AUTH_ACTIONS_CRED_SETRESUID and AUTH_ACTIONS_CRED_SETRESGID, over the ids `a`, `b` and `c`.
abbrev setres_step : Cred → ℕ → Bool → Ids → ℤ → ℤ → ℤ → ℕ → Step
setres_step cred actions asked ids a b c w =
    if asked
    then if is_esu cred
      then done_check actions (w + 1)
      else if foreign ids.id a b c
      then return (decided deny)
      else if foreign ids.eid a b c
      then return (decided deny)
      else if foreign ids.sid a b c
      then return (decided deny)
      else done_check actions (w + 1)
    else go w

-- AUTH_ACTIONS_CRED_SETUID and the like, over the ids `a` and `c`. The superuser adds 2.
abbrev set_step : Cred → ℕ → Bool → ℤ → ℤ → ℤ → ℕ → Step
set_step cred actions asked x a c w =
    if asked
    then if is_esu cred
      then done_check actions (w + 1 + 1)
      else if not (x ==ℤ a) && not (x ==ℤ c)
      then return (decided deny)
      else done_check actions (w + 1)
    else go w

-- The action bits AUTH_ACTIONS_CRED_*, by their place.
abbrev pub action_setresuid : ℕ
action_setresuid = 0

abbrev pub action_setresgid : ℕ
action_setresgid = 1

abbrev pub action_setuid : ℕ
action_setuid = 2

abbrev pub action_setgid : ℕ
action_setgid = 3

abbrev pub action_seteuid : ℕ
action_seteuid = 4

abbrev pub action_setegid : ℕ
action_setegid = 5

unfoldable pub credlistener : Cred → ℕ → Ids → Verdict
credlistener cred actions ids = run (
    setres_step cred actions (bit_at actions action_setresuid) ids cred.uid cred.euid cred.suid 0
    >>= setres_step cred actions (bit_at actions action_setresgid) ids cred.gid cred.egid cred.sgid
    >>= set_step cred actions (bit_at actions action_setuid) ids.id cred.uid cred.suid
    >>= set_step cred actions (bit_at actions action_setgid) ids.id cred.gid cred.sgid
    >>= set_step cred actions (bit_at actions action_seteuid) ids.eid cred.uid cred.suid
    >>= set_step cred actions (bit_at actions action_setegid) ids.eid cred.gid cred.sgid)

-- AUTH_ACTIONS_PROCESS_SIGNAL is bit 0; the argument is the credential of the process signalled.
unfoldable pub process : Cred → ℕ → Cred → Verdict
process cred actions target = run (
    if bit_at actions 0
    then if is_esu cred
      then done_check actions 1
      else if cred.uid ==ℤ target.uid
          || (cred.uid ==ℤ target.suid || (cred.euid ==ℤ target.uid || cred.euid ==ℤ target.suid))
      then done_check actions 1
      else done_check actions 0
    else go 0)

unfoldable pub network : Cred → ℕ → Unit {0} → Verdict
network cred actions arg = if is_esu cred then decided allow else decided deny

-- `defaultauth_init`
pub record Scopes : Type 0 where
  pub of_filesystem : Scope Target
  pub of_system : Scope (Unit {0})
  pub of_cred : Scope Ids
  pub of_process : Scope Cred
  pub of_network : Scope (Unit {0})

abbrev pub no_listeners : Scopes
no_listeners = record {
  of_filesystem = empty_scope Target;
  of_system = empty_scope Unit;
  of_cred = empty_scope Ids;
  of_process = empty_scope Cred;
  of_network = empty_scope Unit;
}

unfoldable pub defaultauth_init : Scopes → Scopes
defaultauth_init s = record {
  of_filesystem = register_listener s.of_filesystem filesystem;
  of_system = register_listener s.of_system system;
  of_cred = register_listener s.of_cred credlistener;
  of_process = register_listener s.of_process process;
  of_network = register_listener s.of_network network;
}
