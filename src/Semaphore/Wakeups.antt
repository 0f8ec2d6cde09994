-- ===== src/Semaphore/Wakeups.antt =====
-- Waiting and signalling as operations on a list of sleepers, first come first served.
use astral.Base.{
  ℕ, suc, ◌≡◌, refl, ap, ◌∙◌, true, false, none, some, List, [], ◌∷◌, ◌++◌, ◌==◌, if◌then◌else◌,
  length, length-append, arith, Bool-cases, inl, inr,
}
use astral.Base.Int.{ℤ, pos, negsuc, ◌+ℤ◌, neg_part}
use astral.Semaphore.{
  Semaphore, insert, get, wait, signal, is_positive, is_negative, is_gone, removeself, woken,
}
use astral.Semaphore.Queue.{Links, Fresh, Distinct, insert-Links, get-Links}

-- The sleepers of a semaphore, the last to come first: as many as its count is below 0.
pub record IsValid (s : Semaphore) (xs : List ℕ) : Type 0 where
  pub links : Links s xs
  pub distinct : Distinct xs
  pub counted : neg_part s.i ≡ length xs

with_i-Links : {s : Semaphore} {xs : List ℕ} (j : ℤ) → Links s xs → Links (record s { i = j }) xs
with_i-Links j l = record {
  at_head = l.at_head;
  at_tail = l.at_tail;
  at_next = l.at_next;
  at_prev = l.at_prev;
}

insert_i : (s : Semaphore) (t : ℕ) → (insert s t).i ≡ s.i
unfolding insert
insert_i s t = ground arith

get_i : (s : Semaphore) → (get s).1.i ≡ s.i
unfolding get
get_i s = ground arith

below_positive :
    (j : ℤ)
    → is_positive j ≡ true
    → (is_negative (j +ℤ negsuc 0) ≡ false) × (neg_part (j +ℤ negsuc 0) ≡ neg_part j)
unfolding ◌+ℤ◌
below_positive j h = ground arith

below_zero :
    (j : ℤ)
    → is_positive j ≡ false
    → (is_negative (j +ℤ negsuc 0) ≡ true) × (neg_part (j +ℤ negsuc 0) ≡ suc (neg_part j))
unfolding ◌+ℤ◌
below_zero j h = ground arith

above_negative :
    (j : ℤ) (n : ℕ)
    → neg_part j ≡ suc n
    → (is_positive (j +ℤ pos 1) ≡ false) × (neg_part (j +ℤ pos 1) ≡ n)
unfolding ◌+ℤ◌
above_negative j n h = ground arith

above_zero :
    (j : ℤ) → neg_part j ≡ 0 → (is_positive (j +ℤ pos 1) ≡ true) × (neg_part (j +ℤ pos 1) ≡ 0)
unfolding ◌+ℤ◌
above_zero j h = ground arith

wait_sleeps :
    (s : Semaphore) (t : ℕ)
    → is_positive s.i ≡ false
    → wait s t ≡ (true, insert (record s { i = s.i +ℤ negsuc 0 }) t)
unfolding wait
wait_sleeps s t h = rw ((below_zero s.i h).0, wait) refl

wait_passes :
    (s : Semaphore) (t : ℕ)
    → is_positive s.i ≡ true
    → wait s t ≡ (false, record s { i = s.i +ℤ negsuc 0 })
unfolding wait
wait_passes s t h = rw ((below_positive s.i h).0, wait) refl

-- A thread that waits at a count above 0 goes on and the sleepers stay; at any other it sleeps, behind
-- those that sleep already. The count goes down by one.
pub wait-IsValid :
    {s : Semaphore} {xs : List ℕ} (t : ℕ)
    → IsValid s xs
    → Fresh t xs
    → let (sleeps, s') = wait s t in
      (sleeps ≡ (if is_positive s.i then false else true))
      × (s'.i ≡ s.i +ℤ negsuc 0)
      × IsValid s' (if is_positive s.i then xs else t ∷ xs)
unfolding wait
wait-IsValid {s} {xs} t v f = elim (Bool-cases (is_positive s.i)) [
  | inl h ↦
      rw (wait_passes s t h, h)
        (
          refl,
          refl,
          record {
            links = with_i-Links (s.i +ℤ negsuc 0) v.links;
            distinct = v.distinct;
            counted = (below_positive s.i h).1 ∙ v.counted;
          },
        )
  | inr h ↦
      let s₁ : Semaphore = record s { i = s.i +ℤ negsuc 0 } in
      rw (wait_sleeps s t h, h)
        (
          refl,
          insert_i s₁ t,
          record {
            links = insert-Links t (with_i-Links (s.i +ℤ negsuc 0) v.links) f;
            distinct = (f, v.distinct);
            counted = ap neg_part (insert_i s₁ t) ∙ ((below_zero s.i h).1 ∙ ap suc v.counted);
          },
        )
]

Fresh-append :
    (t : ℕ) (ys : List ℕ) (z : ℕ) → Fresh t (ys ++ z ∷ []) → Fresh t ys × ((z == t) ≡ false)
Fresh-append t [] z f = (tt, f.0)
Fresh-append t (x ∷ ys) z f = let (g, h) = Fresh-append t ys z (f.1) in ((f.0, g), h)

Distinct-append : (ys : List ℕ) (z : ℕ) → Distinct (ys ++ z ∷ []) → Distinct ys × Fresh z ys
Distinct-append [] z d = (tt, tt)
Distinct-append (x ∷ ys) z d =
    let (f, h) = Fresh-append x ys z (d.0) in
    let (e, g) = Distinct-append ys z (d.1) in ((f, e), (ground arith, g))

signal_wakes :
    (s : Semaphore) (z : ℕ)
    → is_positive (s.i +ℤ pos 1) ≡ false
    → (get (record s { i = s.i +ℤ pos 1 })).0 ≡ some z
    → signal s ≡ some (some z, (get (record s { i = s.i +ℤ pos 1 })).1)
unfolding signal
signal_wakes s z h e = rw (h, e, signal) refl

-- A signal of a valid semaphore with sleepers wakes the one that has slept longest, and it alone: the
-- assertion holds. The count goes up by one, and the semaphore is valid without that sleeper. Valid means
-- that the ends and the links of the sleepers are those of a list of distinct threads, as many as the
-- count is below 0; nothing is asked of the links of other threads.
pub signal-IsValid :
    {s : Semaphore} (ys : List ℕ) (z : ℕ)
    → IsValid s (ys ++ z ∷ [])
    → (s' : Semaphore) × (signal s ≡ some (some z, s')) × (s'.i ≡ s.i +ℤ pos 1) × IsValid s' ys
signal-IsValid {s} ys z v =
    let s₁ : Semaphore = record s { i = s.i +ℤ pos 1 } in
    let (d, f) = Distinct-append ys z v.distinct in
    let (e, l) = get-Links ys z (with_i-Links (s.i +ℤ pos 1) v.links) f d in
    let n : neg_part s.i ≡ suc (length ys) = omega (arith, v.counted, length-append ys (z ∷ [])) in
    let (h, k) = above_negative s.i (length ys) n in
    (
      (get s₁).1,
      signal_wakes s z h e,
      get_i s₁,
      record { links = l; distinct = d; counted = ap neg_part (get_i s₁) ∙ k },
    )

-- A signal without sleepers wakes nobody and raises the count by one, which is then above 0.
pub signal_idle :
    {s : Semaphore}
    → IsValid s []
    → (s' : Semaphore) × (signal s ≡ some (none, s'))
      × (s'.i ≡ s.i +ℤ pos 1)
      × (is_positive s'.i ≡ true)
      × IsValid s' []
unfolding signal
signal_idle {s} v =
    let (h, k) = above_zero s.i v.counted in
    (
      record s { i = s.i +ℤ pos 1 },
      rw (h, signal) refl,
      refl,
      h,
      record { links = with_i-Links (s.i +ℤ pos 1) v.links; distinct = tt; counted = k },
    )

is_gone-Fresh :
    (s : Semaphore) (t : ℕ) (xs : List ℕ)
    → Links s xs
    → Fresh t xs
    → s.sleepnext t ≡ none
    → s.sleepprev t ≡ none
    → is_gone s t ≡ true
is_gone-Fresh s t [] l f n p = rw (l.at_head, l.at_tail) refl
is_gone-Fresh s t (x ∷ xs) l f n p = rw (n, p, l.at_head, l.at_tail) (rw (f.0) refl)

removeself_gone :
    (s : Semaphore) (t : ℕ) (xs : List ℕ)
    → Links s xs
    → Fresh t xs
    → s.sleepnext t ≡ none
    → s.sleepprev t ≡ none
    → removeself s t ≡ some (false, s)
unfolding removeself
removeself_gone s t xs l f n p = rw (is_gone-Fresh s t xs l f n p, removeself) refl

-- A sleeper that is interrupted after a signal has taken it off the list and has cleared its links has been
-- woken by the signal: its wait returns 0 and the semaphore stays as it is.
pub woken-Fresh :
    {s : Semaphore} {xs : List ℕ} (t ret : ℕ)
    → IsValid s xs
    → Fresh t xs
    → s.sleepnext t ≡ none
    → s.sleepprev t ≡ none
    → woken s t ret ≡ some (0, s)
unfolding woken
woken-Fresh {s} {xs} t ret v f n p = elim (Bool-cases (ret == 0)) [
  | inl z ↦ rw (z, woken) refl
  | inr h ↦ rw (h, removeself_gone s t xs v.links f n p, woken) refl
]
