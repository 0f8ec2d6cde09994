-- ===== src/Semaphore/Queue.antt =====
-- The linked list of a semaphore against a list of threads, the last to sleep first.
use mathlib.Core.Path.{subst}
use astral.Base.{
  ℕ, ◌≡◌, ◌⊎◌, refl, ap, sym, ◌∙◌, true, false, Option, none, some, List, [], ◌∷◌, ◌++◌, ◌==◌,
  if◌then◌else◌, arith, Bool-cases, inl, inr,
}
use astral.Semaphore.{Semaphore, insert, get, is_thread, set_next, detach}

abbrev pub first : List ℕ → Option ℕ
first [] = none
first (x ∷ xs) = some x

-- The last thread of a list, or `o` of none.
abbrev pub last_or : Option ℕ → List ℕ → Option ℕ
last_or o [] = o
last_or o (x ∷ xs) = last_or (some x) xs

-- The neighbours of a thread in a list; `o` stands before the list.
abbrev pub after : ℕ → List ℕ → Option ℕ
after t [] = none
after t (x ∷ xs) = if x == t then first xs else after t xs

abbrev pub before : Option ℕ → ℕ → List ℕ → Option ℕ
before o t [] = none
before o t (x ∷ xs) = if x == t then o else before (some x) t xs

abbrev pub Fresh : ℕ → List ℕ → Type 0
Fresh t [] = Unit
Fresh t (x ∷ xs) = ((x == t) ≡ false) × Fresh t xs

abbrev pub Distinct : List ℕ → Type 0
Distinct [] = Unit
Distinct (x ∷ xs) = Fresh x xs × Distinct xs

-- The links of the threads of a list, and the ends, are those of the list. The links of other threads, which
-- may sleep on another semaphore, are left open.
pub record Links (s : Semaphore) (xs : List ℕ) : Type 0 where
  pub at_head : s.head ≡ first xs
  pub at_tail : s.tail ≡ last_or none xs
  pub at_next : (t : ℕ) → Fresh t xs ⊎ (s.sleepnext t ≡ after t xs)
  pub at_prev : (t : ℕ) → Fresh t xs ⊎ (s.sleepprev t ≡ before none t xs)

pub last_or-append : (o : Option ℕ) (ys : List ℕ) (z : ℕ) → last_or o (ys ++ z ∷ []) ≡ some z
last_or-append o [] z = refl
last_or-append o (x ∷ ys) z = last_or-append (some x) ys z

-- What stands before the last thread is the last of the others.
pub before_last :
    (o : Option ℕ) (ys : List ℕ) (z : ℕ) → Fresh z ys → before o z (ys ++ z ∷ []) ≡ last_or o ys
before_last o [] z f = ground arith
before_last o (x ∷ ys) z f = rw (f.0) (before_last (some x) ys z (f.1))

pub before-append :
    (o : Option ℕ) (t : ℕ) (ys : List ℕ) (z : ℕ)
    → (z == t) ≡ false
    → before o t (ys ++ z ∷ []) ≡ before o t ys
before-append o t [] z h = rw h refl
before-append o t (x ∷ ys) z h = elim (Bool-cases (x == t)) [
  | inl e ↦ rw e refl
  | inr e ↦ rw e (before-append (some x) t ys z h)
]

pub before-Fresh : (o : Option ℕ) (t : ℕ) (ys : List ℕ) → Fresh t ys → before o t ys ≡ none
before-Fresh o t [] f = refl
before-Fresh o t (x ∷ ys) f = rw (f.0) (before-Fresh (some x) t ys (f.1))

pub after-Fresh : (t : ℕ) (ys : List ℕ) → Fresh t ys → after t ys ≡ none
after-Fresh t [] f = refl
after-Fresh t (x ∷ ys) f = rw (f.0) (after-Fresh t ys (f.1))

-- A thread that is not in a list is not its last.
last_or-Fresh :
    (o : Option ℕ) (t : ℕ) (ys : List ℕ)
    → is_thread o t ≡ false
    → Fresh t ys
    → is_thread (last_or o ys) t ≡ false
last_or-Fresh o t [] h f = h
last_or-Fresh o t (x ∷ ys) h f = last_or-Fresh (some x) t ys (f.0) (f.1)

-- Without its last thread a list has the same links, but for the thread before that one.
pub after-append :
    (t : ℕ) (ys : List ℕ) (z : ℕ)
    → Distinct ys
    → after t ys ≡ (if is_thread (last_or none ys) t then none else after t (ys ++ z ∷ []))
after-append t [] z d = ground arith
after-append t (x ∷ []) z d = ground arith
after-append t (x ∷ y ∷ ys) z d = elim (Bool-cases (x == t)) [
  | inl e ↦
      let e' : x ≡ t = ground arith in
      let l : is_thread (last_or (some y) ys) x ≡ false =
        last_or-Fresh (some y) x ys (d.0.0) (d.0.1) in
      let ee : (x == x) ≡ true = ground arith in rw (sym e', l, ee) refl
  | inr e ↦ rw e (after-append t (y ∷ ys) z (d.1))
]

last_some : (x : ℕ) (xs : List ℕ) → (y : ℕ) × (last_or (some x) xs ≡ some y)
last_some x [] = (x, refl)
last_some x (y ∷ xs) = last_some y xs

swapped :
    (x t u : ℕ) (o : Option ℕ)
    → (x == t) ≡ false
    → (if x == u then some t else (if t == u then none else (if x == u then none else o)))
      ≡ (if t == u then none else (if x == u then some t else o))
swapped x t u o h = ground arith

-- `insert` puts a thread in front of the list.
pub insert-Links :
    {s : Semaphore} {xs : List ℕ} (t : ℕ) → Links s xs → Fresh t xs → Links (insert s t) (t ∷ xs)
unfolding insert
insert-Links {xs = []} t l f = rw (l.at_head) (record {
  at_head = refl;
  at_tail = rw (l.at_tail) refl;
  at_next = λ u. elim (Bool-cases (t == u)) [ inl k ↦ inr (rw k refl) | inr k ↦ inl (k, tt) ];
  at_prev = λ u. elim (Bool-cases (t == u)) [ inl k ↦ inr (rw k refl) | inr k ↦ inl (k, tt) ];
})
insert-Links {xs = x ∷ xs} t l f = rw (l.at_head) (record {
  at_head = refl;
  at_tail = rw (l.at_tail, (last_some x xs).1) refl;
  at_next = λ u. elim (Bool-cases (t == u)) [
    | inl k ↦ inr (rw k refl)
    | inr k ↦ elim (l.at_next u) [ inl g ↦ inl (k, g) | inr e ↦ inr (rw (k, e) refl) ]
  ];
  at_prev = λ u. elim (Bool-cases (t == u)) [
    | inl k ↦
        let k' : t ≡ u = ground arith in
        let h : (x == u) ≡ false = subst (λ v. (x == v) ≡ false) k' (f.0) in inr (rw (h, k) refl)
    | inr k ↦ elim (l.at_prev u) [
      | inl g ↦ inl (k, g)
      | inr e ↦ inr (rw e (swapped x t u (before (some x) u xs) (f.0)))
    ]
  ];
})

Fresh-init : (u : ℕ) (ys : List ℕ) (z : ℕ) → Fresh u (ys ++ z ∷ []) → Fresh u ys
Fresh-init u [] z g = tt
Fresh-init u (x ∷ ys) z g = (g.0, Fresh-init u ys z (g.1))

Fresh-last : (u : ℕ) (ys : List ℕ) (z : ℕ) → Fresh u (ys ++ z ∷ []) → (z == u) ≡ false
Fresh-last u [] z g = g.0
Fresh-last u (x ∷ ys) z g = Fresh-last u ys z (g.1)

abbrev taken : Semaphore → ℕ → Option ℕ → Semaphore
taken s z none = detach (record s { tail = none; head = none }) z
taken s z (some u) = detach (set_next (record s { tail = some u }) u none) z

get_lem :
    (s : Semaphore) (z : ℕ) (o : Option ℕ)
    → s.tail ≡ some z
    → s.sleepprev z ≡ o
    → get s ≡ (some z, taken s z o)
unfolding get
get_lem s z none e p = rw (e, get) (rw (p, get) refl)
get_lem s z (some u) e p = rw (e, get) (rw (p, get) refl)

prev_taken :
    (u z : ℕ) (ys : List ℕ)
    → Fresh z ys
    → (if z == u then none else before none u (ys ++ z ∷ [])) ≡ before none u ys
prev_taken u z ys f = elim (Bool-cases (z == u)) [
  | inl e ↦
      let e' : z ≡ u = ground arith in
      rw e (sym (before-Fresh none z ys f) ∙ ap (λ v. before none v ys) e')
  | inr e ↦ rw e (before-append none u ys z e)
]

next_taken :
    (u w z : ℕ) (ys : List ℕ)
    → Fresh z ys
    → Distinct ys
    → last_or none ys ≡ some w
    → (if z == u then none else (if w == u then none else after u (ys ++ z ∷ []))) ≡ after u ys
next_taken u w z ys f d h = elim (Bool-cases (z == u)) [
  | inl e ↦
      let e' : z ≡ u = ground arith in rw e (sym (after-Fresh z ys f) ∙ ap (λ v. after v ys) e')
  | inr e ↦ rw e (sym (after-append u ys z d ∙ rw h refl))
]

taken-Links :
    {s : Semaphore} (ys : List ℕ) (z : ℕ)
    → Links s (ys ++ z ∷ [])
    → Fresh z ys
    → Distinct ys
    → Links (taken s z (last_or none ys)) ys
taken-Links [] z l f d = record {
  at_head = refl;
  at_tail = refl;
  at_next = λ u. inl tt;
  at_prev = λ u. inl tt;
}
taken-Links (y ∷ ys) z l f d =
    let (w, h) = last_some y ys in
    rw h (record {
      at_head = l.at_head;
      at_tail = sym h;
      at_next = λ u. elim (l.at_next u) [
        | inl g ↦ inl (Fresh-init u (y ∷ ys) z g)
        | inr e ↦ inr (rw e (next_taken u w z (y ∷ ys) f d h))
      ];
      at_prev = λ u. elim (l.at_prev u) [
        | inl g ↦ inl (Fresh-init u (y ∷ ys) z g)
        | inr e ↦ inr (rw e (prev_taken u z (y ∷ ys) f))
      ];
    })

-- `get` takes the last thread off the list.
pub get-Links :
    {s : Semaphore} (ys : List ℕ) (z : ℕ)
    → Links s (ys ++ z ∷ [])
    → Fresh z ys
    → Distinct ys
    → ((get s).0 ≡ some z) × Links (get s).1 ys
get-Links {s} ys z l f d =
    let e : s.tail ≡ some z = l.at_tail ∙ last_or-append none ys z in
    let p : s.sleepprev z ≡ last_or none ys = elim (l.at_prev z) [
      | inl g ↦ let h = Fresh-last z ys z g in absurd (ground (arith, h))
      | inr h ↦ h ∙ before_last none ys z f
    ] in
    rw (get_lem s z (last_or none ys) e p) (refl, taken-Links ys z l f d)
