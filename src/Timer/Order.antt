-- ===== src/Timer/Order.antt =====
-- The queue of a timer is kept in the order of its deadlines, and entries of equal deadlines in the
-- order of insertion.
use astral.Base.{
  ℕ, ◌≤◌, ◌<◌, ◌≡◌, ◌≢◌, refl, some, List, [], ◌∷◌, if◌then◌else◌, long_max, gtb_long, ltb, arith,
  Bool-cases, inl, inr,
}
use mathlib.Core.List.{Perm}
use mathlib.Core.List.Perm
use astral.Timer.{Entry, insert_after, insert_entry}

-- Every entry is due within what a `long` holds.
abbrev pub InRange : List Entry → Type 0
InRange [] = Unit
InRange (e ∷ q) = (e.absolutetick < long_max) × InRange q

-- No entry is due before `tick`.
abbrev pub NotBefore : ℕ → List Entry → Type 0
NotBefore tick [] = Unit
NotBefore tick (e ∷ q) = (tick ≤ e.absolutetick) × NotBefore tick q

abbrev pub Sorted : List Entry → Type 0
Sorted [] = Unit
Sorted (e ∷ q) = NotBefore e.absolutetick q × Sorted q

-- No entry has the address.
abbrev pub Fresh : ℕ → List Entry → Type 0
Fresh id [] = Unit
Fresh id (e ∷ q) = (e.id ≢ id) × Fresh id q

-- The specification of insertion: before the first entry that is due later.
abbrev pub insert_sorted : List Entry → Entry → List Entry
insert_sorted [] entry = entry ∷ []
insert_sorted (e ∷ q) entry =
    if ltb entry.absolutetick e.absolutetick then entry ∷ e ∷ q else e ∷ insert_sorted q entry

pub gtb_long_lem : (x y : ℕ) → x < long_max → y < long_max → gtb_long x y ≡ ltb y x
gtb_long_lem x y hx hy = ground arith

insert_after_lem :
    (entry search : Entry) (q : List Entry)
    → entry.absolutetick < long_max
    → InRange (search ∷ q)
    → Fresh entry.id (search ∷ q)
    → search.absolutetick ≤ entry.absolutetick
    → insert_after entry search q ≡ some (search ∷ insert_sorted q entry)
unfolding insert_after
insert_after_lem entry search [] small range fresh le = ground arith
insert_after_lem entry search (next ∷ rest) small range fresh le =
    rw
      (
        gtb_long_lem search.absolutetick entry.absolutetick (range.0) small,
        gtb_long_lem next.absolutetick entry.absolutetick (range.1.0) small,
      )
      (ground (arith, insert_after_lem entry next rest))

-- Where nothing overflows and the entry is not queued yet, `insert` puts it before the first entry
-- due later.
pub insert_entry_lem :
    (q : List Entry) (entry : Entry)
    → entry.absolutetick < long_max
    → InRange q
    → Fresh entry.id q
    → insert_entry q entry ≡ some (insert_sorted q entry)
unfolding insert_entry
insert_entry_lem [] entry small range fresh = refl
insert_entry_lem (e ∷ q) entry small range fresh =
    rw (gtb_long_lem e.absolutetick entry.absolutetick (range.0) small)
      (ground (arith, insert_after_lem entry e q))

pub NotBefore-trans : (a b : ℕ) (q : List Entry) → a ≤ b → NotBefore b q → NotBefore a q
NotBefore-trans a b [] h n = tt
NotBefore-trans a b (e ∷ q) h n = (omega arith, NotBefore-trans a b q h (n.1))

pub insert_sorted-NotBefore :
    (tick : ℕ) (q : List Entry) (entry : Entry)
    → tick ≤ entry.absolutetick
    → NotBefore tick q
    → NotBefore tick (insert_sorted q entry)
insert_sorted-NotBefore tick [] entry h n = (h, tt)
insert_sorted-NotBefore tick (e ∷ q) entry h n =
    elim (Bool-cases (ltb entry.absolutetick e.absolutetick)) [
      | inl l ↦ rw l (h, n)
      | inr g ↦ rw g (n.0, insert_sorted-NotBefore tick q entry h (n.1))
    ]

pub insert_sorted-Sorted :
    (q : List Entry) (entry : Entry) → Sorted q → Sorted (insert_sorted q entry)
insert_sorted-Sorted [] entry s = (tt, tt)
insert_sorted-Sorted (e ∷ q) entry s = elim (Bool-cases (ltb entry.absolutetick e.absolutetick)) [
  | inl l ↦
      let le : entry.absolutetick ≤ e.absolutetick = ground arith in
      rw l ((le, NotBefore-trans entry.absolutetick e.absolutetick q le (s.0)), s)
  | inr g ↦ rw g (
    insert_sorted-NotBefore e.absolutetick q entry (ground arith) (s.0),
    insert_sorted-Sorted q entry (s.1),
  )
]

pub insert_sorted-InRange :
    (q : List Entry) (entry : Entry)
    → entry.absolutetick < long_max
    → InRange q
    → InRange (insert_sorted q entry)
insert_sorted-InRange [] entry h r = (h, tt)
insert_sorted-InRange (e ∷ q) entry h r =
    elim (Bool-cases (ltb entry.absolutetick e.absolutetick)) [
      | inl l ↦ rw l (h, r)
      | inr g ↦ rw g (r.0, insert_sorted-InRange q entry h (r.1))
    ]

pub insert_sorted-Fresh :
    (id : ℕ) (q : List Entry) (entry : Entry)
    → entry.id ≢ id
    → Fresh id q
    → Fresh id (insert_sorted q entry)
insert_sorted-Fresh id [] entry h f = (h, tt)
insert_sorted-Fresh id (e ∷ q) entry h f =
    elim (Bool-cases (ltb entry.absolutetick e.absolutetick)) [
      | inl l ↦ rw l (h, f)
      | inr g ↦ rw g (f.0, insert_sorted-Fresh id q entry h (f.1))
    ]

pub insert_sorted-perm : (q : List Entry) (entry : Entry) → Perm (insert_sorted q entry) (entry ∷ q)
insert_sorted-perm [] entry = Perm.refl (entry ∷ [])
insert_sorted-perm (e ∷ q) entry = elim (Bool-cases (ltb entry.absolutetick e.absolutetick)) [
  | inl l ↦ rw l (Perm.refl (entry ∷ e ∷ q))
  | inr g ↦ rw g (Perm.trans (Perm.cons e (insert_sorted-perm q entry)) (Perm.swap entry e q))
]

-- `insert` into a queue in order gives the queue with the entry added, still in order, where the entry
-- is not queued yet and no deadline overflows: the loop finds a place and its assertion, that the entry
-- is not in the queue, holds.
pub insert_entry-Sorted :
    (q : List Entry) (entry : Entry)
    → entry.absolutetick < long_max
    → InRange q
    → Fresh entry.id q
    → Sorted q
    → (q' : List Entry) × (insert_entry q entry ≡ some q') × Sorted q' × Perm q' (entry ∷ q)
insert_entry-Sorted q entry small range fresh sorted = (
  insert_sorted q entry,
  insert_entry_lem q entry small range fresh,
  insert_sorted-Sorted q entry sorted,
  insert_sorted-perm q entry,
)
