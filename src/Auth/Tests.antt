-- ===== src/Auth/Tests.antt =====
-- Runs of the access checks, and their theorems at concrete credentials.
use astral.Base.{◌≡◌, refl, false, some, none, [], ◌∷◌, arith, inl, inr}
use astral.Base.Int.{pos}
use astral.Auth.{Cred, Scope, decided, allow, defer, deny, auth_check, granted}
use astral.Auth.Filesystem.{Attr, Target, filesystem}
use astral.Auth.Filesystem.Permissions.{filesystem-Permissions}
use astral.Auth.Listeners.{no_listeners, defaultauth_init, system, network}
use astral.Auth.Votes.{auth_check-Votes}
use astral.Auth.Defaults.{check_filesystem}

abbrev user : Cred
user = record { uid = pos 5; euid = pos 5; suid = pos 5; gid = pos 7; egid = pos 7; sgid = pos 7 }

abbrev other : Cred
other = record user { uid = pos 6; euid = pos 6; suid = pos 5 }

-- A file of another owner in the user's group, mode 0665, in a sticky directory of mode 01777.
abbrev file : Attr
file = record { uid = pos 6; gid = pos 7; mode = 0o665 }

abbrev tmp : Attr
tmp = record { uid = pos 0; gid = pos 0; mode = 0o1777 }

abbrev target : Target
target = record { attr = file; is_dir = false; dir = some tmp }

abbrev votes : Scope (Unit {0})
votes = some (λ c a x. decided defer) ∷ none ∷ some (λ c a x. decided allow) ∷ []

-- Reading and writing by the group bits is allowed, executing is not.
read_write : filesystem user 6 target ≡ decided allow
read_write = filesystem-Permissions user 6 target tmp (λ e. omega arith) refl

read_write_execute : filesystem user 7 target ≡ decided deny
read_write_execute = filesystem-Permissions user 7 target tmp (λ e. omega arith) refl

system_ask : system user 1 tt ≡ decided deny
unfolding system
system_ask = refl

network_ask : network user 1 tt ≡ decided deny
unfolding network
network_ask = refl

-- Another's file cannot be removed from a sticky directory.
filesystem-Permissions_example : filesystem user 32 target ≡ decided deny
filesystem-Permissions_example = filesystem-Permissions user 32 target tmp (λ e. omega arith) refl

check_filesystem_example :
    auth_check (defaultauth_init no_listeners).of_filesystem (some user) 6 target ≡ granted
check_filesystem_example = check_filesystem user 6 target tmp (λ e. omega arith) refl

auth_check-Votes_example :
    (auth_check votes (some user) 1 tt ≡ granted) × (auth_check votes none 1 tt ≡ granted)
auth_check-Votes_example = auth_check-Votes user 1 tt votes (inr (inl refl), (inl refl, tt))
