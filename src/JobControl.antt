-- ===== src/JobControl.antt =====
-- Sessions, process groups and controlling terminals: kernel-src/sys/jobctl.c. Processes and terminals
-- are addresses in a store, since the members of a group are linked through the processes.
pub mod Groups
pub mod Leaving
pub mod Delivery
pub mod Ids
pub mod Leaders
pub mod Terminals
mod Tests
use astral.Base.{
  ℕ, zero, suc, ◌+◌, ◌-◌, ◌^◌, ◌%◌, Bool, true, false, not, ◌&&◌, ◌||◌, Option, none, some, List,
  [], ◌∷◌, ◌++◌, ◌==◌, if◌then◌else◌, Status, ok, err, eperm, einval, esrch,
}

-- The fields of `proc_t` that job control concerns.
pub record Proc : Type 0 where
  pub pid : ℕ
  pub refcount : ℕ
  pub session_leader : Option ℕ
  pub foreground : Option ℕ
  pub controllingtty : Option ℕ
  pub group_leader : Option ℕ
  pub nextmember : Option ℕ
  pub previousmember : Option ℕ

-- The processes, the field `session` of the terminals, the holds on their vnodes, and the processes
-- whose last reference was released.
pub record World : Type 0 where
  pub proc : ℕ → Proc
  pub tty_session : ℕ → Option ℕ
  pub tty_holds : ℕ → ℕ
  pub inactive : List ℕ

abbrev pub set_proc : World → ℕ → Proc → World
set_proc w p r = record w { proc = λ q. if p == q then r else w.proc q }

abbrev pub set_tty : World → ℕ → Option ℕ → World
set_tty w t o = record w { tty_session = λ u. if t == u then o else w.tty_session u }

abbrev pub set_next : World → ℕ → Option ℕ → World
set_next w p o = set_proc w p (record (w.proc p) { nextmember = o })

abbrev pub set_previous : World → ℕ → Option ℕ → World
set_previous w p o = set_proc w p (record (w.proc p) { previousmember = o })

abbrev pub set_group : World → ℕ → Option ℕ → World
set_group w p o = set_proc w p (record (w.proc p) { group_leader = o })

abbrev pub set_session : World → ℕ → Option ℕ → World
set_session w p o = set_proc w p (record (w.proc p) { session_leader = o })

abbrev pub set_ctty : World → ℕ → Option ℕ → World
set_ctty w p o = set_proc w p (record (w.proc p) { controllingtty = o })

abbrev pub or_else : Option ℕ → ℕ → ℕ
or_else none p = p
or_else (some q) p = q

-- PROC_HOLD and PROC_RELEASE.
unfoldable pub hold : World → ℕ → World
hold w p = set_proc w p (record (w.proc p) { refcount = ((w.proc p).refcount + 1) % 2 ^ 32 })

unfoldable pub release : World → ℕ → World
release w p =
    let n = ((w.proc p).refcount + (2 ^ 32 - 1)) % 2 ^ 32 in
    let w' = set_proc w p (record (w.proc p) { refcount = n }) in
    if n == 0 then record w' { inactive = w.inactive ++ p ∷ [] } else w'

-- VOP_HOLD and VOP_RELEASE of a terminal's vnode.
unfoldable pub hold_tty : World → ℕ → World
hold_tty w t = record w { tty_holds = λ u. if t == u then w.tty_holds t + 1 else w.tty_holds u }

unfoldable pub release_tty : World → ℕ → World
release_tty w t = record w { tty_holds = λ u. if t == u then w.tty_holds t - 1 else w.tty_holds u }

abbrev pub link_back : World → Option ℕ → ℕ → World
link_back w none p = w
link_back w (some q) p = set_previous w q (some p)

-- `addtolist`
unfoldable pub addtolist : World → ℕ → ℕ → World
addtolist w g p =
    let w₁ = set_next w p (w.proc g).nextmember in
    let w₂ = set_previous w₁ p none in
    let w₃ = set_next w₂ g (some p) in link_back w₃ (w₃.proc p).nextmember p

abbrev pub unlink_before : World → ℕ → Option ℕ → Option ℕ → World
unlink_before w g none next = set_next w g none
unlink_before w g (some q) next = set_next w q next

abbrev pub unlink_after : World → Option ℕ → Option ℕ → World
unlink_after w none previous = w
unlink_after w (some q) previous = set_previous w q previous

-- `removefromlist`
unfoldable pub removefromlist : World → ℕ → ℕ → World
removefromlist w g p =
    let w₁ = unlink_before w g (w.proc p).previousmember (w.proc p).nextmember in
    unlink_after w₁ (w₁.proc p).nextmember (w₁.proc p).previousmember

-- The first part of `jobctl_setctty`: giving up a terminal that was not stolen. The terminal whose
-- vnode is released at the end comes with it.
abbrev pub give_up : World → ℕ → ℕ → Option ℕ → World × Option ℕ
give_up w p t none = (w, none)
give_up w p t (some q) = if q == p then (set_tty (set_ctty w p none) t none, some t) else (w, none)

unfoldable pub released : World × Option ℕ → World × Status
unfolding release_tty
released (w, none) = (w, ok)
released (w, some t) = (release_tty w t, ok)

-- The second part: taking a terminal that the session given controls.
unfoldable pub take_tty : World → ℕ → ℕ → Bool → Option ℕ → World × Status
unfolding hold_tty
take_tty w p t steal none = (set_tty (set_ctty (hold_tty w t) p (some t)) t (some p), ok)
take_tty w p t steal (some q) =
    if steal then (set_tty (set_ctty w q none) t (some p), ok) else (w, err eperm)

-- The parts by the process's session leader, the terminal given and the one it has.
abbrev pub settle : World → ℕ → Bool → Option ℕ → Option ℕ → Option ℕ → World × Status
settle w p steal (some l) tty own = (w, ok)
settle w p steal none none none = (w, ok)
settle w p steal none none (some t) = released (give_up w p t (w.tty_session t))
settle w p steal none (some t) none = take_tty w p t steal (w.tty_session t)
settle w p steal none (some t) (some u) = (w, ok)

-- `jobctl_setctty`; no terminal stands for a null pointer.
unfoldable pub setctty : World → ℕ → Option ℕ → Bool → World × Status
setctty w p tty steal = settle w p steal (w.proc p).session_leader tty (w.proc p).controllingtty

-- `jobctl_getctty`
unfoldable pub getctty : World → ℕ → World × Option ℕ
getctty w p =
    let tty = (w.proc (or_else (w.proc p).session_leader p)).controllingtty in
    elim tty [ none ↦ (w, none) | some t ↦ (hold_tty w t, some t) ]

-- `jobctl_getpgid` and `jobctl_getsid`
unfoldable pub getpgid : World → ℕ → ℕ
getpgid w p = (w.proc (or_else (w.proc p).group_leader p)).pid

unfoldable pub getsid : World → ℕ → ℕ
getsid w p = (w.proc (or_else (w.proc p).session_leader p)).pid

abbrev pub release_all : World → List (Option ℕ) → World
release_all w [] = w
release_all w (none ∷ os) = release_all w os
release_all w (some p ∷ os) = release_all (release w p) os

abbrev pub leave_session : Proc → Proc
leave_session r = record r {
  session_leader = none;
  foreground = none;
  controllingtty = none;
  group_leader = none;
  nextmember = none;
  previousmember = none;
}

abbrev pub leave_group : Proc → Proc
leave_group r = record r { group_leader = none; nextmember = none; previousmember = none }

-- `jobctl_newsession`; nothing where a null session leader would be released.
unfoldable pub newsession : World → ℕ → Option (World × Status)
newsession w p = elim ((w.proc p).group_leader) [
  | none ↦ some (w, err eperm)
  | some g ↦ elim ((w.proc p).session_leader) [
    | none ↦ none
    | some l ↦
        let w₁ = removefromlist w g p in
        let w₂ = set_proc w₁ p (leave_session (w₁.proc p)) in some (release (release w₂ g) l, ok)
  ]
]

-- `jobctl_newgroup`
unfoldable pub newgroup : World → ℕ → World × Status
newgroup w p = elim ((w.proc p).group_leader) [
  | none ↦ (w, ok)
  | some g ↦
      let w₁ = removefromlist w g p in (release (set_proc w₁ p (leave_group (w₁.proc p))) g, ok)
]

-- `jobctl_changegroup`
unfoldable pub changegroup : World → ℕ → ℕ → World × Status
changegroup w p group = elim ((w.proc p).group_leader) [
  | none ↦ (w, err eperm)
  | some g ↦
      let w₁ = set_group (removefromlist w g p) p (some group) in
      (release (addtolist (hold w₁ group) group p) g, ok)
]

-- `jobctl_addproc`
unfoldable pub addproc : World → ℕ → ℕ → World
addproc w parent p =
    let l = or_else (w.proc parent).session_leader parent in
    let w₁ = set_session w p (some l) in
    let g = or_else (w₁.proc parent).group_leader parent in
    addtolist (hold (hold (set_group w₁ p (some g)) l) g) g p

-- `jobctl_getforeground`
unfoldable pub getforeground : World → ℕ → World × Option ℕ
getforeground w p = elim ((w.proc p).session_leader) [
  | some _ ↦ (w, none)
  | none ↦ let f = or_else (w.proc p).foreground p in (hold w f, some f)
]

abbrev pub is_proc : Option ℕ → ℕ → Bool
is_proc none p = false
is_proc (some q) p = q == p

abbrev pub is_null : Option ℕ → Bool
is_null none = true
is_null (some q) = false

-- `jobctl_setforeground`
unfoldable pub setforeground : World → ℕ → ℕ → World × Status
setforeground w session group =
    if not (is_null (w.proc session).session_leader)
    then (w, err einval)
    else if not (session == group)
        && (not (is_null (w.proc group).group_leader)
            || not (is_proc (w.proc group).session_leader session))
    then (w, err eperm)
    else let w₁ = set_proc w session (record (w.proc session) { foreground = some group }) in
      (release_all (hold w₁ group) ((w.proc session).foreground ∷ []), ok)

-- The loop of `jobctl_signal` over the group, from a process on; `allowed` says whether the signal may
-- be sent. What it gives are the processes signalled, in order; nothing without fuel.
unfoldable pub visit : ℕ → World → (ℕ → Bool) → Option ℕ → Option (List ℕ)
visit zero w allowed o = none
visit (suc fuel) w allowed none = some []
visit (suc fuel) w allowed (some p) = elim (visit fuel w allowed (w.proc p).nextmember) [
  | none ↦ none
  | some ps ↦ some (if allowed p then p ∷ ps else ps)
]

-- The condition of the loop: no sender, or SIGCONT within the sender's group, or the check of the
-- scope of processes, whose answer for each process is `permitted`.
abbrev pub may_send : World → ℕ → ℕ → Option ℕ → (ℕ → Bool) → ℕ → Bool
may_send w leader signal none permitted p = true
may_send w leader signal (some sender) permitted p =
    getpgid w sender == 0
    || ((signal == 18 && (w.proc leader).pid == getpgid w sender) || permitted p)

-- EPERM if no process was signalled.
abbrev pub reached : Option (List ℕ) → Option (List ℕ × Status)
reached none = none
reached (some []) = some ([], err eperm)
reached (some (q ∷ qs)) = some (q ∷ qs, ok)

-- `jobctl_signal` of the group of `p`, or of `current` if there is no process given.
unfoldable pub jobctl_signal :
    ℕ → World → ℕ → Option ℕ → ℕ → Option ℕ → (ℕ → Bool) → Option (List ℕ × Status)
unfolding visit
jobctl_signal fuel w current (some p) signal sender permitted = elim ((w.proc p).group_leader) [
  | some _ ↦ some ([], err esrch)
  | none ↦ reached (visit fuel w (may_send w p signal sender permitted) (some p))
]
jobctl_signal fuel w current none signal sender permitted =
    let leader = or_else (w.proc current).group_leader current in
    reached (visit fuel w (may_send w leader signal sender permitted) (some leader))

-- Leaving a group that one does not lead, at exit.
unfoldable pub drop_group : World → ℕ → World
drop_group w p = elim ((w.proc p).group_leader) [
  | none ↦ w
  | some g ↦ set_group (removefromlist w g p) p none
]

-- `jobctl_detach` up to the signals: the process whose group is sent SIGHUP and SIGCONT, and which is
-- released then, if the process leads its session.
unfoldable pub detach : World → ℕ → World × Option ℕ
unfolding setctty drop_group
detach w p =
    let g = (w.proc p).group_leader in
    let w₁ = drop_group w p in
    elim ((w.proc p).session_leader) [
      | some l ↦ (release (release_all (set_session w₁ p none) (g ∷ [])) l, none)
      | none ↦
          let f = or_else (w.proc p).foreground p in
          ((setctty (release_all (hold w₁ f) (g ∷ [])) p none false).0, some f)
    ]

-- `jobctl_procremove`; nothing where a null terminal would be released.
unfoldable pub procremove : World → ℕ → Option World
procremove w p = elim ((w.proc p).session_leader) [
  | some _ ↦ some w
  | none ↦ elim ((w.proc p).controllingtty) [
    | none ↦ none
    | some t ↦ some (release_tty (release_all w ((w.proc p).foreground ∷ [])) t)
  ]
]
