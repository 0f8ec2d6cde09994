-- ===== src/Timer/Check.antt =====
-- `timercheck`: every entry that is due expires, in order, and nothing else happens.
use astral.Base.{
  ℕ, zero, suc, ◌+◌, ◌*◌, ◌≤◌, ◌<◌, ◌≡◌, ◌≢◌, refl, sym, ◌∙◌, true, false, some, List, [], ◌∷◌,
  ◌++◌, ◌==◌, if◌then◌else◌, long_max, ltb, arith, Bool-cases, inl, inr, length, append-nil,
  append_assoc,
}
use astral.Timer.{Timer, Entry, finished, deadline, insert, expire, timercheck}
use astral.Timer.Order.{
  InRange, NotBefore, Sorted, Fresh, insert_sorted, insert_entry_lem, insert_sorted-Sorted,
  insert_sorted-InRange, insert_sorted-Fresh, insert_sorted-NotBefore, NotBefore-trans,
}

-- No two entries have one address.
abbrev pub Distinct : List Entry → Type 0
Distinct [] = Unit
Distinct (e ∷ q) = Fresh e.id q × Distinct q

-- Every repeating entry can be put in again without overflow.
abbrev pub Room : ℕ → ℕ → List Entry → Type 0
Room now rate [] = Unit
Room now rate (e ∷ q) = (now + e.repeatus * rate < long_max) × Room now rate q

-- The queue is in order, holds each entry once, and nothing in it is overdue.
pub record ValidQueue (now rate : ℕ) (q : List Entry) : Type 0 where
  pub rate_pos : 0 < rate
  pub sorted : Sorted q
  pub in_range : InRange q
  pub not_overdue : NotBefore now q
  pub distinct : Distinct q
  pub room : Room now rate q

abbrev pub IsValid : Timer → Type 0
IsValid t = ValidQueue t.tickcurrent t.ticksperus t.queue

-- The addresses of the entries due at a tick: those at the front of the queue.
abbrev pub due : ℕ → List Entry → List ℕ
due now [] = []
due now (e ∷ q) = if e.absolutetick == now then e.id ∷ due now q else []

-- Those of them that do not repeat.
abbrev pub due_once : ℕ → List Entry → List ℕ
due_once now [] = []
due_once now (e ∷ q) =
    if e.absolutetick == now
    then (if e.repeatus == 0 then e.id ∷ due_once now q else due_once now q)
    else []

pub length-due : (now : ℕ) (q : List Entry) → length (due now q) ≤ length q
length-due now [] = omega arith
length-due now (e ∷ q) = ground (arith, length-due now q)

due-insert_sorted :
    (now : ℕ) (q : List Entry) (e : Entry)
    → now < e.absolutetick
    → (due now (insert_sorted q e) ≡ due now q)
      × (due_once now (insert_sorted q e) ≡ due_once now q)
due-insert_sorted now [] e h = ground arith
due-insert_sorted now (f ∷ q) e h = ground (arith, due-insert_sorted now q e h)

Distinct-insert_sorted :
    (q : List Entry) (e : Entry) → Fresh e.id q → Distinct q → Distinct (insert_sorted q e)
Distinct-insert_sorted [] e f d = (tt, tt)
Distinct-insert_sorted (g ∷ q) e f d = elim (Bool-cases (ltb e.absolutetick g.absolutetick)) [
  | inl l ↦ rw l (f, d)
  | inr r ↦ rw r (
    insert_sorted-Fresh g.id q e (λ p. f.0 (sym p)) (d.0),
    Distinct-insert_sorted q e (f.1) (d.1),
  )
]

Room-insert_sorted :
    (now rate : ℕ) (q : List Entry) (e : Entry)
    → now + e.repeatus * rate < long_max
    → Room now rate q
    → Room now rate (insert_sorted q e)
Room-insert_sorted now rate [] e h r = (h, tt)
Room-insert_sorted now rate (g ∷ q) e h r = elim (Bool-cases (ltb e.absolutetick g.absolutetick)) [
  | inl l ↦ rw l (h, r)
  | inr s ↦ rw s (r.0, Room-insert_sorted now rate q e h (r.1))
]

-- The entry put back.
abbrev pub again : Timer → Entry → Entry
again t e = record e { absolutetick = t.tickcurrent + e.repeatus * t.ticksperus }

pub deadline_lem :
    (t : Timer) (us : ℕ)
    → t.tickcurrent + us * t.ticksperus < long_max
    → deadline t us ≡ t.tickcurrent + us * t.ticksperus
deadline_lem t us h = ground arith

product_pos : (a b : ℕ) → a ≢ 0 → 0 < b → 0 < a * b
product_pos a b h k = grind arith

-- The queue after its head expires.
abbrev pub requeued : Timer → Entry → List Entry → List Entry
requeued t e rest = if e.repeatus == 0 then rest else insert_sorted rest (again t e)

pub expire_lem :
    (t : Timer) (e : Entry) (rest : List Entry)
    → ValidQueue t.tickcurrent t.ticksperus (e ∷ rest)
    → expire t e rest
      ≡ some (record t {
        queue = requeued t e rest;
        fired = if e.repeatus == 0 then t.fired ++ e.id ∷ [] else t.fired;
        dpcs = t.dpcs ++ e.id ∷ [];
      })
unfolding expire insert
expire_lem t e rest v =
    rw (deadline_lem t e.repeatus (v.room.0))
      (ground (arith, insert_entry_lem rest (again t e) (v.room.0) (v.in_range.1) (v.distinct.0)))

pub requeued-ValidQueue :
    (t : Timer) (e : Entry) (rest : List Entry)
    → ValidQueue t.tickcurrent t.ticksperus (e ∷ rest)
    → ValidQueue t.tickcurrent t.ticksperus (requeued t e rest)
requeued-ValidQueue t e rest v = elim (Bool-cases (e.repeatus == 0)) [
  | inl once ↦ rw once (record {
    rate_pos = v.rate_pos;
    sorted = v.sorted.1;
    in_range = v.in_range.1;
    not_overdue = v.not_overdue.1;
    distinct = v.distinct.1;
    room = v.room.1;
  })
  | inr many ↦ rw many (record {
    rate_pos = v.rate_pos;
    sorted = insert_sorted-Sorted rest (again t e) (v.sorted.1);
    in_range = insert_sorted-InRange rest (again t e) (v.room.0) (v.in_range.1);
    not_overdue =
        insert_sorted-NotBefore t.tickcurrent rest (again t e) (omega arith) (v.not_overdue.1);
    distinct = Distinct-insert_sorted rest (again t e) (v.distinct.0) (v.distinct.1);
    room = Room-insert_sorted t.tickcurrent t.ticksperus rest (again t e) (v.room.0) (v.room.1);
  })
]

pub due-requeued :
    (t : Timer) (e : Entry) (rest : List Entry)
    → 0 < t.ticksperus
    → (due t.tickcurrent (requeued t e rest) ≡ due t.tickcurrent rest)
      × (due_once t.tickcurrent (requeued t e rest) ≡ due_once t.tickcurrent rest)
due-requeued t e rest pos = elim (Bool-cases (e.repeatus == 0)) [
  | inl once ↦ rw once (refl, refl)
  | inr many ↦
      let later : 0 < e.repeatus * t.ticksperus =
        product_pos e.repeatus t.ticksperus (ground arith) pos in
      rw many (due-insert_sorted t.tickcurrent rest (again t e) (omega arith))
]

-- In order and past the head nothing is due before it.
after_head :
    (now : ℕ) (e : Entry) (q : List Entry)
    → Sorted (e ∷ q)
    → NotBefore now (e ∷ q)
    → (e.absolutetick == now) ≡ false
    → NotBefore (now + 1) (e ∷ q)
after_head now e q s n d =
    let lt : now + 1 ≤ e.absolutetick = ground arith in
    (lt, NotBefore-trans (now + 1) e.absolutetick q lt (s.0))

-- What `timercheck` of a timer whose queue is `q` leaves.
abbrev Checked : ℕ → Timer → List Entry → Type 0
Checked fuel t q =
    (q' : List Entry) × (timercheck fuel (record t { queue = q })
      ≡ finished (record t {
        queue = q';
        fired = t.fired ++ due_once t.tickcurrent q;
        dpcs = t.dpcs ++ due t.tickcurrent q;
      }))
    × ValidQueue t.tickcurrent t.ticksperus q'
    × NotBefore (t.tickcurrent + 1) q'

-- The timer after the head of its queue expires, apart from the queue.
abbrev pub fire : Timer → Entry → Timer
fire t e = record t {
  fired = if e.repeatus == 0 then t.fired ++ e.id ∷ [] else t.fired;
  dpcs = t.dpcs ++ e.id ∷ [];
}

check_head :
    (fuel : ℕ) (t : Timer) (e : Entry) (q : List Entry)
    → ValidQueue t.tickcurrent t.ticksperus (e ∷ q)
    → (e.absolutetick == t.tickcurrent) ≡ true
    → timercheck (suc fuel) (record t { queue = e ∷ q })
      ≡ timercheck fuel (record (fire t e) { queue = requeued t e q })
unfolding timercheck
check_head fuel t e q v now = rw (timercheck, now, expire_lem (record t { queue = e ∷ q }) e q v)

check_future :
    (fuel : ℕ) (t : Timer) (e : Entry) (q : List Entry)
    → (e.absolutetick == t.tickcurrent) ≡ false
    → timercheck (suc fuel) (record t { queue = e ∷ q }) ≡ finished (record t { queue = e ∷ q })
unfolding timercheck
check_future fuel t e q later = rw (later, timercheck)

check_empty :
    (fuel : ℕ) (t : Timer)
    → timercheck (suc fuel) (record t { queue = [] }) ≡ finished (record t { queue = [] })
unfolding timercheck
check_empty fuel t = refl

pub fired-requeued :
    (t : Timer) (e : Entry) (q : List Entry)
    → ValidQueue t.tickcurrent t.ticksperus (e ∷ q)
    → (e.absolutetick == t.tickcurrent) ≡ true
    → (fire t e).fired ++ due_once t.tickcurrent (requeued t e q)
      ≡ t.fired ++ due_once t.tickcurrent (e ∷ q)
fired-requeued t e q v now =
    rw ((due-requeued t e q v.rate_pos).1, now)
      (elim (Bool-cases (e.repeatus == 0)) [
        | inl once ↦ rw once (append_assoc t.fired (e.id ∷ []) (due_once t.tickcurrent q))
        | inr many ↦ rw many
      ])

pub dpcs-requeued :
    (t : Timer) (e : Entry) (q : List Entry)
    → ValidQueue t.tickcurrent t.ticksperus (e ∷ q)
    → (e.absolutetick == t.tickcurrent) ≡ true
    → (fire t e).dpcs ++ due t.tickcurrent (requeued t e q) ≡ t.dpcs ++ due t.tickcurrent (e ∷ q)
dpcs-requeued t e q v now =
    rw ((due-requeued t e q v.rate_pos).0, now)
      (append_assoc t.dpcs (e.id ∷ []) (due t.tickcurrent q))

check :
    (fuel : ℕ) (t : Timer) (q : List Entry)
    → ValidQueue t.tickcurrent t.ticksperus q
    → length (due t.tickcurrent q) < fuel
    → Checked fuel t q
check zero t q v h = absurd (omega arith)
check (suc fuel) t [] v h =
    ([], check_empty fuel t ∙ rw (append-nil t.fired, append-nil t.dpcs), v, tt)
check (suc fuel) t (e ∷ q) v h = elim (Bool-cases (e.absolutetick == t.tickcurrent)) [
  | inr later ↦ (
    e ∷ q,
    check_future fuel t e q later ∙ rw (later, append-nil t.fired, append-nil t.dpcs),
    v,
    after_head t.tickcurrent e q v.sorted v.not_overdue later,
  )
  | inl now ↦
      let (same, same_once) = due-requeued t e q v.rate_pos in
      let (q', run, valid, after) =
        check fuel (fire t e) (requeued t e q) (requeued-ValidQueue t e q v)
          (rw same (ground arith)) in
      (
        q',
        check_head fuel t e q v now ∙ run ∙ (λ i. finished (record t {
          queue = q';
          fired = fired-requeued t e q v now i;
          dpcs = dpcs-requeued t e q v now i;
        })),
        valid,
        after,
      )
]

-- With fuel for every entry that is due, `timercheck` of a valid timer ends: exactly the entries due
-- now have had their DPC enqueued, in the order of the queue, those of them that do not repeat are
-- marked as fired, and the queue is valid again with nothing due before the next tick.
pub timercheck_lem :
    (fuel : ℕ) (t : Timer)
    → IsValid t
    → length (due t.tickcurrent t.queue) < fuel
    → (q : List Entry) × (timercheck fuel t
        ≡ finished (record t {
          queue = q;
          fired = t.fired ++ due_once t.tickcurrent t.queue;
          dpcs = t.dpcs ++ due t.tickcurrent t.queue;
        }))
      × ValidQueue t.tickcurrent t.ticksperus q
      × NotBefore (t.tickcurrent + 1) q
timercheck_lem fuel t v h = check fuel t t.queue v h
