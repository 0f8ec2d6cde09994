-- ===== src/JobControl/Delivery.antt =====
-- Whom a signal to a process group reaches.
use astral.Base.{
  ℕ, zero, suc, ◌<◌, ◌≡◌, refl, ap, ◌∙◌, Bool, Option, none, some, List, [], ◌∷◌, Status, ok, err,
  eperm, if◌then◌else◌, length, arith,
}
use astral.JobControl.{World, visit, jobctl_signal, may_send, reached, removefromlist}
use astral.JobControl.Groups.{Chain, Group, first, removefromlist_first}
use astral.JobControl.Ids.{Ids, ids-removefromlist}

-- The processes that the signal may be sent to, in the list's order.
abbrev pub those : (ℕ → Bool) → List ℕ → List ℕ
those allowed [] = []
those allowed (x ∷ xs) = if allowed x then x ∷ those allowed xs else those allowed xs

abbrev pub verdict : List ℕ → List ℕ × Status
verdict [] = ([], err eperm)
verdict (x ∷ xs) = (x ∷ xs, ok)

reached-verdict : (ps : List ℕ) → reached (some ps) ≡ some (verdict ps)
reached-verdict [] = refl
reached-verdict (p ∷ ps) = refl

visit-those :
    (fuel : ℕ) (w : World) (allowed : ℕ → Bool) (before : Option ℕ) (xs : List ℕ)
    → Chain w before xs
    → length xs < fuel
    → visit fuel w allowed (first xs) ≡ some (those allowed xs)
unfolding visit
visit-those zero w allowed before xs c h = absurd (omega arith)
visit-those (suc fuel) w allowed before [] c h = refl
visit-those (suc fuel) w allowed before (x ∷ xs) c h =
    let rest = visit-those fuel w allowed (some x) xs (c.2) (omega arith) in rw (c.1, rest) refl

visit_leader :
    (fuel : ℕ) (w : World) (allowed : ℕ → Bool) (g : ℕ) (xs : List ℕ)
    → (w.proc g).nextmember ≡ first xs
    → Chain w none xs
    → length xs < fuel
    → visit (suc fuel) w allowed (some g) ≡ some (those allowed (g ∷ xs))
unfolding visit
visit_leader fuel w allowed g xs e c h = rw (e, visit-those fuel w allowed none xs c h) refl

-- A signal to a well-linked group, named by its leader, goes to the leader and then to every member of the
-- list, newest first, to which it may be sent, whatever the group's size, with one unit of fuel for each
-- of them and one more; the result is EPERM if it may be sent to none.
pub jobctl_signal_group :
    {w : World} (fuel current g signal : ℕ) (sender : Option ℕ) (permitted : ℕ → Bool) (xs : List ℕ)
    → Group w g xs
    → (w.proc g).group_leader ≡ none
    → length xs < fuel
    → jobctl_signal (suc fuel) w current (some g) signal sender permitted
      ≡ some (verdict (those (may_send w g signal sender permitted) (g ∷ xs)))
unfolding jobctl_signal
jobctl_signal_group {w} fuel current g signal sender permitted xs v l h =
    let test = may_send w g signal sender permitted in
    rw (l, jobctl_signal)
      (ap reached (visit_leader fuel w test g xs v.head v.chain h)
        ∙ reached-verdict (those test (g ∷ xs)))

-- Once the first member of a well-linked group was removed, a signal to the group without a sender goes to
-- the leader only, however many members are left.
pub removed_first_signal :
    {w : World} (current g p signal : ℕ) (xs : List ℕ) (permitted : ℕ → Bool)
    → Group w g (p ∷ xs)
    → (w.proc g).group_leader ≡ none
    → jobctl_signal 2 (removefromlist w g p) current (some g) signal none permitted
      ≡ some (g ∷ [], ok)
unfolding jobctl_signal visit
removed_first_signal {w} current g p signal xs permitted v l =
    rw
      (
        ap Ids.group (ids-removefromlist w g p g) ∙ l,
        removefromlist_first xs g p v,
        jobctl_signal,
        visit,
      )
      refl
