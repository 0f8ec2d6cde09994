-- ===== src/JobControl/Groups.antt =====
-- The list of the members of a group: what adding and removing do to it.
use astral.Base.{ℕ, ◌≡◌, refl, ap, ◌∙◌, true, false, Option, none, some, List, [], ◌∷◌, ◌==◌, arith}
use astral.JobControl.{
  World, Proc, addtolist, removefromlist, set_next, set_previous, link_back, unlink_after,
}

abbrev pub first : List ℕ → Option ℕ
first [] = none
first (x ∷ xs) = some x

-- The links from `p` on are those of a list, `before` standing before it.
abbrev pub Chain : World → Option ℕ → List ℕ → Type 0
Chain w before [] = Unit
Chain w before (x ∷ xs) =
    ((w.proc x).previousmember ≡ before) × ((w.proc x).nextmember ≡ first xs) × Chain w (some x) xs

abbrev pub Fresh : ℕ → List ℕ → Type 0
Fresh p [] = Unit
Fresh p (x ∷ xs) = ((p == x) ≡ false) × Fresh p xs

abbrev pub Distinct : List ℕ → Type 0
Distinct [] = Unit
Distinct (x ∷ xs) = Fresh x xs × Distinct xs

-- The group that `g` leads has the members `xs` besides it.
pub record Group (w : World) (g : ℕ) (xs : List ℕ) : Type 0 where
  pub head : (w.proc g).nextmember ≡ first xs
  pub chain : Chain w none xs
  pub apart : Fresh g xs
  pub distinct : Distinct xs

-- Two stores hold the same processes at the addresses of a list.
abbrev pub Same : World → World → List ℕ → Type 0
Same v w [] = Unit
Same v w (x ∷ xs) = (v.proc x ≡ w.proc x) × Same v w xs

pub Chain-same :
    (w v : World) (before : Option ℕ) (xs : List ℕ)
    → Same v w xs
    → Chain w before xs
    → Chain v before xs
Chain-same w v before [] same c = tt
Chain-same w v before (x ∷ xs) same c = (
  ap Proc.previousmember (same.0) ∙ c.0,
  ap Proc.nextmember (same.0) ∙ c.1,
  Chain-same w v (some x) xs (same.1) (c.2),
)

pub ==_self : (a : ℕ) → (a == a) ≡ true
==_self a = ground arith

pub ==_comm : (a b : ℕ) → (a == b) ≡ (b == a)
==_comm a b = ground arith

-- What adding does before it looks at the former first member.
abbrev joined : World → ℕ → ℕ → World
joined w g p = set_next (set_previous (set_next w p (w.proc g).nextmember) p none) g (some p)

abbrev Links : World → ℕ → Option ℕ → Option ℕ → Type 0
Links w p before next = ((w.proc p).previousmember ≡ before) × ((w.proc p).nextmember ≡ next)

joined-Links :
    (w : World) (g p : ℕ) → (g == p) ≡ false → Links (joined w g p) p none (w.proc g).nextmember
joined-Links w g p d = rw (d, ==_self p) (refl, refl)

joined_head : (w : World) (g p : ℕ) → ((joined w g p).proc g).nextmember ≡ some p
joined_head w g p = rw (==_self g) refl

joined_other :
    (w : World) (g p q : ℕ) → (g == q) ≡ false → (p == q) ≡ false → (joined w g p).proc q ≡ w.proc q
joined_other w g p q d e = rw (d, e) refl

addtolist_lem :
    (w : World) (g p : ℕ)
    → (g == p) ≡ false
    → addtolist w g p ≡ link_back (joined w g p) (w.proc g).nextmember p
unfolding addtolist
addtolist_lem w g p d = ap (λ o. link_back (joined w g p) o p) ((joined-Links w g p d).1)

-- The rest of the members, when a new one is put before the first.
abbrev pushed : World → ℕ → ℕ → ℕ → World
pushed w g p x = set_previous (joined w g p) x (some p)

pushed_other :
    (w : World) (g p x q : ℕ)
    → (g == q) ≡ false
    → (p == q) ≡ false
    → (x == q) ≡ false
    → (pushed w g p x).proc q ≡ w.proc q
pushed_other w g p x q d e f = rw (d, e, f) refl

pushed-Same :
    (w : World) (g p x : ℕ) (xs : List ℕ)
    → Fresh g xs
    → Fresh p xs
    → Fresh x xs
    → Same (pushed w g p x) w xs
pushed-Same w g p x [] a b c = tt
pushed-Same w g p x (y ∷ xs) a b c =
    (pushed_other w g p x y (a.0) (b.0) (c.0), pushed-Same w g p x xs (a.1) (b.1) (c.1))

pushed_head :
    (w : World) (g p x : ℕ) → (x == g) ≡ false → ((pushed w g p x).proc g).nextmember ≡ some p
pushed_head w g p x d = rw d (joined_head w g p)

pushed_new :
    (w : World) (g p x : ℕ)
    → (g == p) ≡ false
    → (x == p) ≡ false
    → Links (pushed w g p x) p none (w.proc g).nextmember
pushed_new w g p x d e = rw e (joined-Links w g p d)

pushed_old :
    (w : World) (g p x : ℕ)
    → (g == x) ≡ false
    → (p == x) ≡ false
    → Links (pushed w g p x) x (some p) (w.proc x).nextmember
pushed_old w g p x d e = rw (==_self x, d, e) (refl, refl)

joined-Group :
    {w : World} (g p : ℕ) → Group w g [] → (g == p) ≡ false → Group (joined w g p) g (p ∷ [])
joined-Group {w} g p v d =
    let l = joined-Links w g p d in
    record {
      head = joined_head w g p;
      chain = (l.0, l.1 ∙ v.head, tt);
      apart = (d, v.apart);
      distinct = (tt, tt);
    }

pushed-Group :
    {w : World} (g p x : ℕ) (xs : List ℕ)
    → Group w g (x ∷ xs)
    → Fresh p (x ∷ xs)
    → (g == p) ≡ false
    → Group (pushed w g p x) g (p ∷ x ∷ xs)
pushed-Group {w} g p x xs v f d =
    let l = pushed_new w g p x d (==_comm x p ∙ f.0) in
    let o = pushed_old w g p x (v.apart.0) (f.0) in
    let same = pushed-Same w g p x xs (v.apart.1) (f.1) (v.distinct.0) in
    let rest = Chain-same w (pushed w g p x) (some x) xs same (v.chain.2) in
    record {
      head = pushed_head w g p x (==_comm x g ∙ v.apart.0);
      chain = (l.0, l.1 ∙ v.head, (o.0, o.1 ∙ v.chain.1, rest));
      apart = (d, v.apart);
      distinct = (f, v.distinct);
    }

-- A process that is not in the list of a well-linked group and does not lead it, added to it, is its
-- first member, and the group stays well linked.
pub addtolist-Group :
    {w : World} (xs : List ℕ) (g p : ℕ)
    → Group w g xs
    → Fresh p xs
    → (g == p) ≡ false
    → Group (addtolist w g p) g (p ∷ xs)
addtolist-Group {w} [] g p v f d =
    rw (addtolist_lem w g p d ∙ ap (λ o. link_back (joined w g p) o p) v.head)
      (joined-Group g p v d)
addtolist-Group {w} (x ∷ xs) g p v f d =
    rw (addtolist_lem w g p d ∙ ap (λ o. link_back (joined w g p) o p) v.head)
      (pushed-Group g p x xs v f d)

-- The leader's link after the first of the members is removed.
after_unlink :
    (w : World) (g : ℕ) (next before : Option ℕ) (xs : List ℕ)
    → next ≡ first xs
    → Fresh g xs
    → ((unlink_after (set_next w g none) next before).proc g).nextmember ≡ none
after_unlink w g next before [] e f = rw (e, ==_self g) refl
after_unlink w g next before (x ∷ xs) e f = rw (e, ==_comm x g ∙ f.0, ==_self g) refl

-- Removing the first of the members leaves the leader with no member, whatever comes after it.
pub removefromlist_first :
    {w : World} (xs : List ℕ) (g p : ℕ)
    → Group w g (p ∷ xs)
    → ((removefromlist w g p).proc g).nextmember ≡ none
unfolding removefromlist
removefromlist_first {w} xs g p v =
    rw (v.chain.0, v.apart.0)
      (after_unlink w g (w.proc p).nextmember (w.proc p).previousmember xs (v.chain.1) (v.apart.1))
