-- ===== src/JobControl/Tests.antt =====
-- A shell that leads a session, with jobs in its group: runs of the operations, and the properties
-- at work.
use astral.Base.{
  ℕ, ◌≡◌, refl, false, Option, none, some, [], ◌∷◌, ◌==◌, if◌then◌else◌, ok, err, eperm, esrch,
  arith,
}
use astral.JobControl.{
  Proc, World, hold, addtolist, removefromlist, newsession, addproc, setctty, getpgid,
  setforeground, jobctl_signal, visit, may_send, detach, drop_group, procremove,
}
use astral.JobControl.Groups.{Group, addtolist-Group}
use astral.JobControl.Leaving.{removefromlist-Group}
use astral.JobControl.Delivery.{those, verdict, jobctl_signal_group, removed_first_signal}
use astral.JobControl.Terminals.{Controls, IsFree, setctty_roundtrip}

-- Process 1 leads a session and a group of which 2 and 3 are members; process 4 leads another session,
-- and controls terminal 7.
abbrev alone : ℕ → Proc
alone n = record {
  pid = n;
  refcount = 1;
  session_leader = none;
  foreground = none;
  controllingtty = none;
  group_leader = none;
  nextmember = none;
  previousmember = none;
}

abbrev job : ℕ → Proc
job n = record (alone n) { session_leader = some 1; group_leader = some 1 }

abbrev procs : ℕ → Proc
procs n =
    if n == 1
    then record (alone 1) { nextmember = some 2 }
    else if n == 2
    then record (job 2) { nextmember = some 3 }
    else if n == 3
    then record (job 3) { previousmember = some 2 }
    else if n == 4
    then record (alone 4) { controllingtty = some 7 }
    else alone n

abbrev terminals : ℕ → Option ℕ
terminals t = if t == 7 then some 4 else none

abbrev world : World
world = record { proc = procs; tty_session = terminals; tty_holds = λ t. 1; inactive = [] }

abbrev jobs : Group world 1 (2 ∷ 3 ∷ [])
jobs = record {
  head = refl;
  chain = (refl, refl, (refl, refl, tt));
  apart = (refl, (refl, tt));
  distinct = ((refl, tt), (tt, tt));
}

shell-IsFree : IsFree world 1
shell-IsFree = record { leads = refl; alone = refl }

-- A child of job 2 is in the group of the shell.
child_group : getpgid (addproc world 2 5) 5 ≡ 1
unfolding addproc getpgid addtolist hold
child_group = refl

-- The group, from the calling process's own, without a process given.
whole_group : jobctl_signal 5 world 3 none 15 none (λ q. false) ≡ some (1 ∷ 2 ∷ 3 ∷ [], ok)
unfolding jobctl_signal visit
whole_group = refl

-- A job does not lead its group.
not_leader : jobctl_signal 5 world 3 (some 2) 15 none (λ q. false) ≡ some ([], err esrch)
unfolding jobctl_signal visit
not_leader = refl

-- A leader of a group starts no session, and its exit gives its terminal up.
leader_session : newsession world 1 ≡ some (world, err eperm)
unfolding newsession
leader_session = refl

last_release : (detach world 4).1 ≡ some 4
unfolding detach setctty drop_group
last_release = refl

-- A session leader without a terminal that is removed releases a null pointer.
no_terminal : procremove world 1 ≡ none
unfolding procremove
no_terminal = refl

-- The group of another session is no foreground group.
other_session : (setforeground world 1 4).1 ≡ err eperm
unfolding setforeground
other_session = refl

addtolist-Group_example : Group (addtolist world 1 5) 1 (5 ∷ 2 ∷ 3 ∷ [])
addtolist-Group_example = addtolist-Group (2 ∷ 3 ∷ []) 1 5 jobs (refl, (refl, tt)) refl

jobctl_signal_group_example :
    jobctl_signal 4 world 3 (some 1) 15 none (λ q. false)
    ≡ some (verdict (those (may_send world 1 15 none (λ q. false)) (1 ∷ 2 ∷ 3 ∷ [])))
jobctl_signal_group_example =
    jobctl_signal_group 3 3 1 15 none (λ q. false) (2 ∷ 3 ∷ []) jobs refl (omega arith)

removed_first_signal_example :
    jobctl_signal 2 (removefromlist world 1 2) 3 (some 1) 15 none (λ q. false) ≡ some (1 ∷ [], ok)
removed_first_signal_example = removed_first_signal 3 1 2 15 (3 ∷ []) (λ q. false) jobs refl

setctty_roundtrip_example :
    (u : World) × (v : World) × (setctty world 1 (some 6) false ≡ (u, ok))
    × Controls u 1 6
    × (setctty u 1 none false ≡ (v, ok))
    × ((v.proc 1).controllingtty ≡ none)
    × (v.tty_session 6 ≡ none)
    × (v.tty_holds 6 ≡ 1)
setctty_roundtrip_example = setctty_roundtrip world 1 6 false shell-IsFree refl

removefromlist-Group_example : Group (removefromlist world 1 3) 1 (2 ∷ [])
removefromlist-Group_example = removefromlist-Group 1 3 2 [] [] jobs
