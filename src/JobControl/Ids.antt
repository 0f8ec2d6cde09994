-- ===== src/JobControl/Ids.antt =====
-- The identifiers that the operations on links and references leave alone.
use astral.Base.{
  ℕ, ◌+◌, ◌-◌, ◌^◌, ◌%◌, ◌≡◌, refl, ap, ◌∙◌, Option, none, some, ◌==◌, ==_iff, Bool-cases, inl, inr,
}
use astral.JobControl.{
  World, Proc, set_proc, set_next, set_previous, hold, release, link_back, addtolist, unlink_before,
  unlink_after, removefromlist,
}

pub record Ids : Type 0 where
  pub number : ℕ
  pub session : Option ℕ
  pub group : Option ℕ

abbrev pub ids : World → ℕ → Ids
ids w p = record {
  number = (w.proc p).pid;
  session = (w.proc p).session_leader;
  group = (w.proc p).group_leader;
}

abbrev of_proc : Proc → Ids
of_proc r = record { number = r.pid; session = r.session_leader; group = r.group_leader }

pub ids-set_proc :
    (w : World) (p q : ℕ) (r : Proc) → of_proc r ≡ ids w p → ids (set_proc w p r) q ≡ ids w q
ids-set_proc w p q r e = elim (Bool-cases (p == q)) [
  | inl h ↦ rw h (e ∙ ap (ids w) ((==_iff p q).0 h))
  | inr h ↦ rw h refl
]

pub ids-set_next : (w : World) (p q : ℕ) (o : Option ℕ) → ids (set_next w p o) q ≡ ids w q
ids-set_next w p q o = ids-set_proc w p q (record (w.proc p) { nextmember = o }) refl

pub ids-set_previous : (w : World) (p q : ℕ) (o : Option ℕ) → ids (set_previous w p o) q ≡ ids w q
ids-set_previous w p q o = ids-set_proc w p q (record (w.proc p) { previousmember = o }) refl

pub ids-hold : (w : World) (p q : ℕ) → ids (hold w p) q ≡ ids w q
unfolding hold
ids-hold w p q =
    ids-set_proc w p q (record (w.proc p) { refcount = ((w.proc p).refcount + 1) % 2 ^ 32 }) refl

pub ids-release : (w : World) (p q : ℕ) → ids (release w p) q ≡ ids w q
unfolding release
ids-release w p q =
    let n = ((w.proc p).refcount + (2 ^ 32 - 1)) % 2 ^ 32 in
    let e = ids-set_proc w p q (record (w.proc p) { refcount = n }) refl in
    elim (Bool-cases (n == 0)) [ inl h ↦ rw h e | inr h ↦ rw h e ]

ids-link_back : (w : World) (o : Option ℕ) (p q : ℕ) → ids (link_back w o p) q ≡ ids w q
ids-link_back w none p q = refl
ids-link_back w (some r) p q = ids-set_previous w r q (some p)

pub ids-addtolist : (w : World) (g p q : ℕ) → ids (addtolist w g p) q ≡ ids w q
unfolding addtolist
ids-addtolist w g p q =
    let w₁ = set_next w p (w.proc g).nextmember in
    let w₂ = set_previous w₁ p none in
    let w₃ = set_next w₂ g (some p) in
    ids-link_back w₃ (w₃.proc p).nextmember p q
    ∙ (ids-set_next w₂ g q (some p)
        ∙ (ids-set_previous w₁ p q none ∙ ids-set_next w p q (w.proc g).nextmember))

ids-unlink_before :
    (w : World) (g q : ℕ) (o next : Option ℕ) → ids (unlink_before w g o next) q ≡ ids w q
ids-unlink_before w g q none next = ids-set_next w g q none
ids-unlink_before w g q (some p) next = ids-set_next w p q next

ids-unlink_after :
    (w : World) (q : ℕ) (o previous : Option ℕ) → ids (unlink_after w o previous) q ≡ ids w q
ids-unlink_after w q none previous = refl
ids-unlink_after w q (some p) previous = ids-set_previous w p q previous

pub ids-removefromlist : (w : World) (g p q : ℕ) → ids (removefromlist w g p) q ≡ ids w q
unfolding removefromlist
ids-removefromlist w g p q =
    let v = unlink_before w g (w.proc p).previousmember (w.proc p).nextmember in
    ids-unlink_after v q (v.proc p).nextmember (v.proc p).previousmember
    ∙ ids-unlink_before w g q (w.proc p).previousmember (w.proc p).nextmember
