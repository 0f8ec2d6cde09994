-- ===== src/JobControl/Leaders.antt =====
-- The sessions and groups that processes come into.
use astral.Base.{
  ℕ, ◌≡◌, refl, ap, ◌∙◌, true, Option, none, some, ◌==◌, ok, arith, ==_iff, Bool-cases, inl, inr,
}
use astral.JobControl.{
  World, set_proc, set_session, set_group, hold, release, addtolist, removefromlist, or_else,
  leave_session, newsession, addproc, getpgid, getsid,
}
use astral.JobControl.Ids.{Ids, ids, ids-hold, ids-release, ids-addtolist, ids-removefromlist}

==_self : (a : ℕ) → (a == a) ≡ true
==_self a = ground arith

-- The identifiers once a process stands alone.
left-ids :
    (w : World) (p : ℕ)
    → ids (set_proc w p (leave_session (w.proc p))) p
      ≡ (record { number = (w.proc p).pid; session = none; group = none })
left-ids w p = rw (==_self p) refl

newsession_ids :
    (w : World) (p g l : ℕ)
    → let w₁ = removefromlist w g p in
      ids (release (release (set_proc w₁ p (leave_session (w₁.proc p))) g) l) p
      ≡ (record { number = (w.proc p).pid; session = none; group = none })
newsession_ids w p g l =
    let w₁ = removefromlist w g p in
    let w₂ = set_proc w₁ p (leave_session (w₁.proc p)) in
    ids-release (release w₂ g) l p
    ∙ (ids-release w₂ g p
        ∙ (left-ids w₁ p
            ∙ ap (λ n. record { number = n; session = none; group = none })
                (ap Ids.number (ids-removefromlist w g p p))))

-- `jobctl_newsession` of a process that leads neither its group nor its session returns 0, and the
-- process's session and group are then named by its own number.
pub newsession_lem :
    (w : World) (p g l : ℕ)
    → (w.proc p).group_leader ≡ some g
    → (w.proc p).session_leader ≡ some l
    → (v : World) × (newsession w p ≡ some (v, ok))
      × (getsid v p ≡ (w.proc p).pid)
      × (getpgid v p ≡ (w.proc p).pid)
unfolding newsession getsid getpgid
newsession_lem w p g l a b =
    let e = newsession_ids w p g l in
    let w₁ = removefromlist w g p in
    let v = release (release (set_proc w₁ p (leave_session (w₁.proc p))) g) l in
    (
      v,
      rw (a, b, newsession) refl,
      rw (ap Ids.session e, getsid) (ap Ids.number e),
      rw (ap Ids.group e, getpgid) (ap Ids.number e),
    )

-- The new process before it is linked, in the session and group of `l` and `g`.
abbrev entered : World → ℕ → ℕ → ℕ → World
entered w p l g = set_group (set_session w p (some l)) p (some g)

entered_pid : (w : World) (p l g q : ℕ) → ((entered w p l g).proc q).pid ≡ (w.proc q).pid
entered_pid w p l g q = elim (Bool-cases (p == q)) [
  | inl h ↦ rw (h, ==_self p) (ap (λ r. (w.proc r).pid) ((==_iff p q).0 h))
  | inr h ↦ rw h refl
]

entered-ids :
    (w : World) (p l g : ℕ)
    → ids (entered w p l g) p
      ≡ (record { number = (w.proc p).pid; session = some l; group = some g })
entered-ids w p l g = rw (==_self p) refl

linked-ids : (w : World) (l g p q : ℕ) → ids (addtolist (hold (hold w l) g) g p) q ≡ ids w q
linked-ids w l g p q =
    ids-addtolist (hold (hold w l) g) g p q ∙ (ids-hold (hold w l) g q ∙ ids-hold w l q)

session_group :
    (w : World) (p q : ℕ) (o : Option ℕ)
    → ((set_session w p o).proc q).group_leader ≡ (w.proc q).group_leader
session_group w p q o = elim (Bool-cases (p == q)) [
  | inl h ↦ rw h (ap (λ r. (w.proc r).group_leader) ((==_iff p q).0 h))
  | inr h ↦ rw h refl
]

-- A new process is in its parent's session and its parent's group.
pub addproc_lem :
    (w : World) (parent p : ℕ)
    → (getsid (addproc w parent p) p ≡ getsid w parent)
      × (getpgid (addproc w parent p) p ≡ getpgid w parent)
unfolding addproc getsid getpgid
addproc_lem w parent p =
    let l = or_else (w.proc parent).session_leader parent in
    let g = or_else ((set_session w p (some l)).proc parent).group_leader parent in
    let u = entered w p l g in
    let v = addproc w parent p in
    let e = linked-ids u l g p p ∙ entered-ids w p l g in
    let pid : (q : ℕ) → (v.proc q).pid ≡ (w.proc q).pid =
      λ q. ap Ids.number (linked-ids u l g p q) ∙ entered_pid w p l g q in
    (
      ap (λ o. (v.proc (or_else o p)).pid) (ap Ids.session e) ∙ pid l,
      ap (λ o. (v.proc (or_else o p)).pid) (ap Ids.group e)
          ∙ (pid g ∙ ap (λ o. (w.proc (or_else o parent)).pid) (session_group w p parent (some l))),
    )
