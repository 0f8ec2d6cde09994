-- ===== src/Timer.antt =====
-- The one-shot timer with a queue of entries: kernel-src/sys/timer.c and
-- kernel-src/include/kernel/timer.h. Ticks are `long`s, held as 64-bit words. What the hardware's
-- `stop` and `time_passed` return are arguments; `armed` is the last argument of `arm`.
pub mod Order
pub mod Check
pub mod Interrupt
mod Tests
use astral.Base.{
  ℕ, zero, suc, ◌+◌, ◌-◌, ◌*◌, ◌/◌, ◌%◌, Bool, true, false, not, ◌&&◌, Option, none, some, List, [],
  ◌∷◌, ◌++◌, ◌==◌, if◌then◌else◌, add64, sub64, mul64, gtb_long, min_long, length,
}

-- `timerentry_t`; `id` is its address, which also stands for its function and argument.
pub record Entry : Type 0 where
  pub id : ℕ
  pub absolutetick : ℕ
  pub repeatus : ℕ

-- `timer_t`, with what its operations have done outside it: the entries whose `fired` flag is set
-- and the DPCs enqueued, both oldest first.
pub record Timer : Type 0 where
  pub tick_limit : ℕ
  pub ticksperus : ℕ
  pub tickcurrent : ℕ
  pub current_target : ℕ
  pub running : Bool
  pub queue : List Entry
  pub armed : ℕ
  pub fired : List ℕ
  pub dpcs : List ℕ

-- A thousand years of 360 days in ticks, multiplied out as the code does.
abbrev pub far_off : ℕ → ℕ
far_off ticksperus = mul64 ticksperus 31104000000000000

-- The `absolutetick` that `insert` computes; a sum that came out below the current tick overflowed.
abbrev pub deadline : Timer → ℕ → ℕ
deadline t us =
    let tick = add64 t.tickcurrent (mul64 us t.ticksperus) in
    if gtb_long t.tickcurrent tick then far_off t.ticksperus else tick

-- The loop of `insert` from a `search` entry on, the rest of the queue behind it. A failed assertion
-- gives nothing.
unfoldable pub insert_after : Entry → Entry → List Entry → Option (List Entry)
insert_after entry search [] = if search.id == entry.id then none else some (search ∷ entry ∷ [])
insert_after entry search (next ∷ rest) =
    let onward = insert_after entry next rest in
    if search.id == entry.id
    then none
    else if not (gtb_long search.absolutetick entry.absolutetick)
        && gtb_long next.absolutetick entry.absolutetick
    then some (search ∷ entry ∷ next ∷ rest)
    else elim onward [ none ↦ none | some q ↦ some (search ∷ q) ]

-- The part of `insert` that puts an entry into the queue. The `next` link of an entry that is not queued is
-- not modelled, nor the assertion, where an entry goes to the head, that it is null.
unfoldable pub insert_entry : List Entry → Entry → Option (List Entry)
unfolding insert_after
insert_entry [] entry = some (entry ∷ [])
insert_entry (first ∷ rest) entry =
    if gtb_long first.absolutetick entry.absolutetick
    then some (entry ∷ first ∷ rest)
    else insert_after entry first rest

-- `insert`
unfoldable pub insert : Timer → ℕ → ℕ → ℕ → Option Timer
unfolding insert_entry
insert t id repeatus us =
    elim (insert_entry t.queue
      (record { id = id; absolutetick = deadline t us; repeatus = repeatus })) [
        | none ↦ none
        | some q ↦ some (record t { queue = q })
      ]

-- How long until the next target: the head of the queue, or the limit.
abbrev pub next_target : Timer → ℕ
next_target t = elim (t.queue) [
  | [] ↦ t.tick_limit
  | e ∷ _ ↦ min_long (sub64 e.absolutetick t.tickcurrent) t.tick_limit
]

-- `arm_for_next_target`
unfoldable pub arm_for_next_target : Timer → Timer
arm_for_next_target t = record t {
  current_target = add64 t.tickcurrent (next_target t);
  armed = next_target t;
}

-- Taking the head `e` off a queue whose rest is `rest`: a repeating entry goes back in, another is
-- marked as fired, and its DPC is enqueued.
unfoldable pub expire : Timer → Entry → List Entry → Option Timer
unfolding insert
expire t e rest =
    let t' = record t { queue = rest } in
    if e.repeatus == 0
    then some (record t' { fired = t.fired ++ e.id ∷ []; dpcs = t.dpcs ++ e.id ∷ [] })
    else elim (insert t' e.id e.repeatus e.repeatus) [
      | none ↦ none
      | some t'' ↦ some (record t'' { dpcs = t.dpcs ++ e.id ∷ [] })
    ]

-- What a loop on fuel gives: its result, a failed assertion, or no fuel left.
pub data Run : Type 0 where
  finished : Timer → Run
  asserted : Run
  out_of_fuel : Run

-- `timercheck`
unfoldable pub timercheck : ℕ → Timer → Run
unfolding expire
timercheck zero t = out_of_fuel
timercheck (suc fuel) t = elim (t.queue) [
  | [] ↦ finished t
  | e ∷ rest ↦ elim (e.absolutetick == t.tickcurrent) [
    | false ↦ finished t
    | true ↦ elim (expire t e rest) [ none ↦ asserted | some t' ↦ timercheck fuel t' ]
  ]
]

abbrev pub then_arm : Run → Run
then_arm (finished t) = finished (arm_for_next_target t)
then_arm asserted = asserted
then_arm out_of_fuel = out_of_fuel

-- `timercheck` and `arm_for_next_target`, with fuel for each entry of the queue and one round more.
unfoldable pub check_and_arm : Timer → Run
unfolding timercheck arm_for_next_target
check_and_arm t = then_arm (timercheck (suc (length t.queue)) t)

-- `timer_isr`; `passed` is what `stop` returned.
unfoldable pub isr : Timer → ℕ → Run
isr t passed = elim (t.queue) [
  | [] ↦ asserted
  | e ∷ rest ↦
      if gtb_long (sub64 t.current_target t.tickcurrent) passed
      then check_and_arm (record t { tickcurrent = add64 t.tickcurrent passed })
      else elim (expire (record t { tickcurrent = t.current_target }) e rest) [
        | none ↦ asserted
        | some t' ↦ check_and_arm t'
      ]
]

-- `timer_get_ticks`; `passed` is what `time_passed` returned.
unfoldable pub get_ticks : Timer → ℕ → ℕ
get_ticks t passed = add64 t.tickcurrent passed

-- `timer_resume`
unfoldable pub resume : Timer → Run
unfolding check_and_arm
resume t =
    let t' = record t { running = true } in
    elim (t.queue) [ [] ↦ finished t' | _ ∷ _ ↦ check_and_arm t' ]

-- `timer_stop`
unfoldable pub stop : Timer → ℕ → Timer
stop t passed = record t { tickcurrent = add64 t.tickcurrent passed; running = false }

-- The catching up that `timer_insert` and `timer_remove` begin with.
abbrev pub catch_up : Timer → ℕ → Timer
catch_up t passed = if t.running then record t { tickcurrent = add64 t.tickcurrent passed } else t

abbrev pub without : ℕ → List ℕ → List ℕ
without id [] = []
without id (x ∷ xs) = if x == id then without id xs else x ∷ without id xs

-- `timer_insert`: the entry is cleared, so its `fired` flag too.
unfoldable pub timer_insert : Timer → ℕ → ℕ → ℕ → Bool → Run
timer_insert t passed id us repeating =
    let t' = catch_up t passed in
    let t'' = record t' { fired = without id t'.fired } in
    elim (insert t'' id (if repeating then us else 0) us) [
      | none ↦ asserted
      | some q ↦ if t.running then check_and_arm q else finished q
    ]

-- The entry of an address, and the queue without it.
unfoldable pub take_out : ℕ → List Entry → Option (Entry × List Entry)
take_out id [] = none
take_out id (e ∷ q) =
    if e.id == id
    then some (e, q)
    else elim (take_out id q) [ none ↦ none | some (f, r) ↦ some (f, e ∷ r) ]

-- ROUND_UP(ticks, n) / n
abbrev pub round_up_div : ℕ → ℕ → ℕ
round_up_div ticks n = let v = sub64 (add64 ticks n) 1 in sub64 v (v % n) / n

abbrev pub has_fired : ℕ → List ℕ → Bool
has_fired id [] = false
has_fired id (x ∷ xs) = if x == id then true else has_fired id xs

-- `timer_remove`, with the time remaining.
unfoldable pub timer_remove : Timer → ℕ → ℕ → Run × ℕ
timer_remove t passed id =
    let t' = catch_up t passed in
    if has_fired id t'.fired then (finished t', 0) else elim (take_out id t'.queue) [
      | none ↦ (asserted, 0)
      | some (e, q) ↦ (
        elim q [
          | [] ↦ finished (record t' { queue = [] })
          | f ∷ r ↦ check_and_arm (record t' { queue = f ∷ r })
        ],
        round_up_div (sub64 e.absolutetick t'.tickcurrent) t'.ticksperus,
      )
    ]
