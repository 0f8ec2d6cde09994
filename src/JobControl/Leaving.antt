-- ===== src/JobControl/Leaving.antt =====
-- Taking a member out of the list of its group, behind another.
use astral.Base.{ℕ, ◌≡◌, refl, ap, ap₂, ◌∙◌, false, Option, none, some, List, [], ◌∷◌, ◌++◌, ◌==◌}
use astral.JobControl.{
  World, Proc, removefromlist, set_next, set_previous, unlink_before, unlink_after,
}
use astral.JobControl.Groups.{
  first, Chain, Fresh, Distinct, Group, Same, Chain-same, ==_self, ==_comm,
}

-- The links once the member before, `q`, goes on with the list `bs`.
abbrev joined_up : World → ℕ → List ℕ → World
joined_up w q [] = set_next w q none
joined_up w q (b ∷ bs) = set_previous (set_next w q (some b)) b (some q)

-- Neither `q` nor the first of `bs`.
abbrev Apart : ℕ → ℕ → List ℕ → Type 0
Apart a q [] = (q == a) ≡ false
Apart a q (b ∷ bs) = ((q == a) ≡ false) × ((b == a) ≡ false)

joined_up_other :
    (w : World) (q : ℕ) (bs : List ℕ) (a : ℕ) → Apart a q bs → (joined_up w q bs).proc a ≡ w.proc a
joined_up_other w q [] a d = rw d refl
joined_up_other w q (b ∷ bs) a d = rw (d.0, d.1) refl

abbrev AllApart : List ℕ → ℕ → List ℕ → Type 0
AllApart [] q bs = Unit
AllApart (x ∷ xs) q bs = Apart x q bs × AllApart xs q bs

joined_up-Same :
    (w : World) (q : ℕ) (bs xs : List ℕ) → AllApart xs q bs → Same (joined_up w q bs) w xs
joined_up-Same w q bs [] d = tt
joined_up-Same w q bs (x ∷ xs) d = (joined_up_other w q bs x (d.0), joined_up-Same w q bs xs (d.1))

rest-AllApart : (q b : ℕ) (bs xs : List ℕ) → Fresh q xs → Fresh b xs → AllApart xs q (b ∷ bs)
rest-AllApart q b bs [] f g = tt
rest-AllApart q b bs (x ∷ xs) f g = ((f.0, g.0), rest-AllApart q b bs xs (f.1) (g.1))

-- From `q` on.
joined_up-Chain :
    (w : World) (before : Option ℕ) (q p : ℕ) (bs : List ℕ)
    → Distinct (q ∷ p ∷ bs)
    → Chain w before (q ∷ p ∷ bs)
    → Chain (joined_up w q bs) before (q ∷ bs)
joined_up-Chain w before q p [] d c = (rw (==_self q) (c.0), rw (==_self q) refl, tt)
joined_up-Chain w before q p (b ∷ bs) d c =
    let fresh = d.0 in
    let q_b : (q == b) ≡ false = fresh.1.0 in
    let b_q : (b == q) ≡ false = ==_comm b q ∙ q_b in
    let tail = d.1.1 in
    let same = joined_up-Same w q (b ∷ bs) bs (rest-AllApart q b bs bs (fresh.1.1) (tail.0)) in
    let next : ((joined_up w q (b ∷ bs)).proc b).nextmember ≡ first bs =
      rw (==_self b, q_b) (c.2.2.1) in
    let previous : ((joined_up w q (b ∷ bs)).proc b).previousmember ≡ some q =
      rw (==_self b) refl in
    (
      rw (b_q, ==_self q) (c.0),
      rw (b_q, ==_self q) refl,
      (previous, next, Chain-same w (joined_up w q (b ∷ bs)) (some b) bs same (c.2.2.2)),
    )

first_same : (us : List ℕ) (q : ℕ) (xs ys : List ℕ) → first (us ++ q ∷ xs) ≡ first (us ++ q ∷ ys)
first_same [] q xs ys = refl
first_same (a ∷ us) q xs ys = refl

Fresh-Apart :
    (a : ℕ) (us : List ℕ) (q p : ℕ) (bs : List ℕ) → Fresh a (us ++ q ∷ p ∷ bs) → Apart a q bs
Fresh-Apart a [] q p [] f = ==_comm q a ∙ f.0
Fresh-Apart a [] q p (b ∷ bs) f = (==_comm q a ∙ f.0, ==_comm b a ∙ f.1.1.0)
Fresh-Apart a (x ∷ us) q p bs f = Fresh-Apart a us q p bs (f.1)

left-Chain :
    (w : World) (before : Option ℕ) (us : List ℕ) (q p : ℕ) (bs : List ℕ)
    → Distinct (us ++ q ∷ p ∷ bs)
    → Chain w before (us ++ q ∷ p ∷ bs)
    → Chain (joined_up w q bs) before (us ++ q ∷ bs)
left-Chain w before [] q p bs d c = joined_up-Chain w before q p bs d c
left-Chain w before (a ∷ us) q p bs d c =
    let e = joined_up_other w q bs a (Fresh-Apart a us q p bs (d.0)) in
    (
      ap Proc.previousmember e ∙ c.0,
      ap Proc.nextmember e ∙ (c.1 ∙ first_same us q (p ∷ bs) bs),
      left-Chain w (some a) us q p bs (d.1) (c.2),
    )

left-Fresh :
    (a : ℕ) (us : List ℕ) (q p : ℕ) (bs : List ℕ)
    → Fresh a (us ++ q ∷ p ∷ bs)
    → Fresh a (us ++ q ∷ bs)
left-Fresh a [] q p bs f = (f.0, f.1.1)
left-Fresh a (x ∷ us) q p bs f = (f.0, left-Fresh a us q p bs (f.1))

left-Distinct :
    (us : List ℕ) (q p : ℕ) (bs : List ℕ) → Distinct (us ++ q ∷ p ∷ bs) → Distinct (us ++ q ∷ bs)
left-Distinct [] q p bs d = (d.0.1, d.1.1)
left-Distinct (a ∷ us) q p bs d = (left-Fresh a us q p bs (d.0), left-Distinct us q p bs (d.1))

-- The links of the member to be removed.
abbrev Stands : World → ℕ → ℕ → List ℕ → Type 0
Stands w p q bs =
    ((w.proc p).previousmember ≡ some q) × ((w.proc p).nextmember ≡ first bs) × ((q == p) ≡ false)

member-Stands :
    (w : World) (before : Option ℕ) (us : List ℕ) (q p : ℕ) (bs : List ℕ)
    → Distinct (us ++ q ∷ p ∷ bs)
    → Chain w before (us ++ q ∷ p ∷ bs)
    → Stands w p q bs
member-Stands w before [] q p bs d c = (c.2.0, c.2.1, d.0.0)
member-Stands w before (a ∷ us) q p bs d c = member-Stands w (some a) us q p bs (d.1) (c.2)

relink :
    (w : World) (q p : ℕ) (bs : List ℕ)
    → (q == p) ≡ false
    → (w.proc p).previousmember ≡ some q
    → let v = set_next w q (first bs) in
      unlink_after v (first bs) (v.proc p).previousmember ≡ joined_up w q bs
relink w q p [] d e = refl
relink w q p (b ∷ bs) d e =
    ap (λ o. set_previous (set_next w q (some b)) b o)
      (let f : ((set_next w q (some b)).proc p).previousmember ≡ some q = rw d e in f)

-- `removefromlist` of a process with the links given.
abbrev removed : World → ℕ → ℕ → Option ℕ → Option ℕ → World
removed w g p previous next =
    let v = unlink_before w g previous next in
    unlink_after v (v.proc p).nextmember (v.proc p).previousmember

removefromlist_lem :
    (w : World) (g p q : ℕ) (bs : List ℕ)
    → Stands w p q bs
    → removefromlist w g p ≡ joined_up w q bs
unfolding removefromlist
removefromlist_lem w g p q bs s =
    let v = set_next w q (first bs) in
    let next : (v.proc p).nextmember ≡ first bs = rw (s.2) (s.1) in
    ap₂ (removed w g p) (s.0) (s.1)
    ∙ (ap (λ o. unlink_after v o (v.proc p).previousmember) next ∙ relink w q p bs (s.2) (s.0))

-- Removing a member that is not the first of a well-linked group leaves the group with the others, well
-- linked and in their order.
pub removefromlist-Group :
    {w : World} (g p q : ℕ) (us bs : List ℕ)
    → Group w g (us ++ q ∷ p ∷ bs)
    → Group (removefromlist w g p) g (us ++ q ∷ bs)
removefromlist-Group {w} g p q us bs v =
    rw (removefromlist_lem w g p q bs (member-Stands w none us q p bs v.distinct v.chain)) (record {
      head =
          ap Proc.nextmember (joined_up_other w q bs g (Fresh-Apart g us q p bs v.apart))
          ∙ (v.head ∙ first_same us q (p ∷ bs) bs);
      chain = left-Chain w none us q p bs v.distinct v.chain;
      apart = left-Fresh g us q p bs v.apart;
      distinct = left-Distinct us q p bs v.distinct;
    })
