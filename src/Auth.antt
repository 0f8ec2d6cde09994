-- ===== src/Auth.antt =====
-- Access decisions: kernel-src/sys/auth.c and kernel-src/include/kernel/auth.h, with credentials as
-- kernel-src/include/kernel/cred.h has them. The listeners are in the child modules.
pub mod Steps
pub mod Filesystem
pub mod Listeners
pub mod Votes
pub mod Defaults
mod Tests
use astral.Base.{ℕ, Bool, Option, none, some, List, [], ◌∷◌, ◌==◌, if◌then◌else◌, replicate}
use astral.Base.Int.{ℤ, pos, negsuc, ◌+ℤ◌, ◌==ℤ◌}

-- `cred_t`
pub record Cred : Type 0 where
  pub uid : ℤ
  pub euid : ℤ
  pub suid : ℤ
  pub gid : ℤ
  pub egid : ℤ
  pub sgid : ℤ

-- CRED_IS_ESU: the effective user is the superuser, 0.
abbrev pub is_esu : Cred → Bool
is_esu c = c.euid ==ℤ pos 0

-- AUTH_DECISION_ALLOW, AUTH_DECISION_DEFER and AUTH_DECISION_DENY.
abbrev pub allow : ℤ
allow = pos 1

abbrev pub defer : ℤ
defer = pos 0

abbrev pub deny : ℤ
deny = negsuc 999

-- What a listener does: it returns a number, or fails an assertion.
pub data Verdict : Type 0 where
  decided : ℤ → Verdict
  assertion : Verdict

-- `authlistener_t`; the three `void *` arguments are one value of a type `A` of the scope's.
abbrev pub Listener : Type 0 → Type 0
Listener A = Cred → ℕ → A → Verdict

-- `authscope_t`: AUTH_LISTENER_LIMIT slots.
abbrev pub Scope : Type 0 → Type 0
Scope A = List (Option (Listener A))

abbrev pub empty_scope : (A : Type 0) → Scope A
empty_scope A = replicate 8 none

-- `auth_registerlistener`: the first empty slot takes the listener; a full scope drops it.
unfoldable pub register_listener : {A : Type 0} → Scope A → Listener A → Scope A
register_listener [] l = []
register_listener (none ∷ s) l = some l ∷ s
register_listener (some k ∷ s) l = some k ∷ register_listener s l

-- What `auth_check` returns; `panicked` if a listener fails an assertion.
pub data Checked : Type 0 where
  granted : Checked
  refused : Checked
  panicked : Checked

-- The loop of `auth_check` over the slots, with the sum of the decisions so far.
unfoldable pub check_from : {A : Type 0} → Scope A → Cred → ℕ → A → ℤ → Checked
check_from [] cred actions arg sum = if sum ==ℤ pos 0 then refused else granted
check_from (none ∷ s) cred actions arg sum = check_from s cred actions arg sum
check_from (some l ∷ s) cred actions arg sum = elim (l cred actions arg) [
  | assertion ↦ panicked
  | decided d ↦ if d ==ℤ deny then refused else check_from s cred actions arg (sum +ℤ d)
]

-- `auth_check`; a null credential is the kernel's own.
unfoldable pub auth_check : {A : Type 0} → Scope A → Option Cred → ℕ → A → Checked
unfolding check_from
auth_check s none actions arg = granted
auth_check s (some cred) actions arg =
    if actions == 0 then granted else check_from s cred actions arg (pos 0)
