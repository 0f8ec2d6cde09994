-- ===== src/Iovec/Rounds.antt =====
-- The iterator as a position in the bytes of all the entries together.
use astral.Base.{
  ℕ, zero, suc, ◌+◌, ◌-◌, ◌≤◌, ◌<◌, ◌≡◌, ◌≢◌, refl, ap, ◌∙◌, true, false, ◌&&◌, ◌||◌, not, Option,
  none, some, List, [], ◌∷◌, ◌==◌, if◌then◌else◌, length, get_elem?, take, add64, sub64, min_long,
  arith, Bool-cases, inl, inr, long_max, word_mod, min, leb, min_long-eq_min,
}
use astral.Iovec.{Iovec, Iterator, Walk, arrived, is_finished, advance, skip}

abbrev pub total : List Iovec → ℕ
total [] = 0
total (v ∷ vs) = v.len + total vs

-- The iterator stands in an entry, at the place that its two offsets say, of fewer than 2 ^ 63 bytes.
pub record IsIn (it : Iterator) : Type 0 where
  pub sized : it.total_size ≡ total it.iovec
  pub bounded : total it.iovec < long_max
  pub inside : it.current < length it.iovec
  pub place : it.total_offset ≡ total (take it.current it.iovec) + it.current_offset
  pub within :
      total (take it.current it.iovec) + it.current_offset ≤ total (take (suc it.current) it.iovec)

total-take : (i : ℕ) (vs : List Iovec) → total (take i vs) ≤ total vs
total-take zero vs = omega arith
total-take (suc i) [] = omega arith
total-take (suc i) (v ∷ vs) = omega (arith, total-take i vs)

abbrev len_or : Option Iovec → ℕ
len_or none = 0
len_or (some v) = v.len

total-take-suc :
    (i : ℕ) (vs : List Iovec) (v : Iovec)
    → get_elem? vs i ≡ some v
    → total (take (suc i) vs) ≡ total (take i vs) + v.len
total-take-suc i [] v e = grind (arith, e)
total-take-suc zero (u ∷ vs) v e = omega (arith, ap len_or e)
total-take-suc (suc i) (u ∷ vs) v e = omega (arith, total-take-suc i vs v e)

take_more : (i : ℕ) (vs : List Iovec) → total (take i vs) < total vs → i < length vs
take_more zero [] h = omega (arith, h)
take_more zero (v ∷ vs) h = omega arith
take_more (suc i) [] h = absurd (omega arith)
take_more (suc i) (v ∷ vs) h = omega (arith, take_more i vs (omega arith))

some_elem : (i : ℕ) (vs : List Iovec) → i < length vs → (v : Iovec) × (get_elem? vs i ≡ some v)
some_elem i [] h = absurd (omega arith)
some_elem zero (v ∷ vs) h = (v, refl)
some_elem (suc i) (v ∷ vs) h = some_elem i vs (omega arith)

abbrev stayed : Iterator → ℕ → Iterator
stayed it step = record it {
  total_offset = it.total_offset + step;
  current_offset = it.current_offset + step;
}

abbrev moved : Iterator → ℕ → Iterator
moved it step = record it {
  total_offset = it.total_offset + step;
  current = it.current + 1;
  current_offset = 0;
}

add64_small : (a b : ℕ) → a + b < word_mod → add64 a b ≡ a + b
add64_small a b h = ground arith

sub64_small : (a b : ℕ) → b ≤ a → a < word_mod → sub64 a b ≡ a - b
sub64_small a b h k = ground arith

-- A round that takes `step` bytes of an entry of `len`.
turn : ℕ → Iterator → ℕ → ℕ → ℕ → Walk Iterator
turn fuel it len n step =
    let it' = advance it len step in
    if sub64 n step == 0 || is_finished it' then arrived it' else skip fuel it' (sub64 n step)

skip-turn :
    (fuel : ℕ) (it : Iterator) (n : ℕ) (v : Iovec)
    → get_elem? it.iovec it.current ≡ some v
    → skip (suc fuel) it n ≡ turn fuel it v.len n (min_long (sub64 v.len it.current_offset) n)
unfolding skip turn
skip-turn fuel it n v e = rw (e, skip) refl

advance-stayed :
    (it : Iterator) (len step : ℕ)
    → it.total_offset + step < word_mod
    → it.current_offset + step < word_mod
    → (it.current_offset + step == len && not (is_finished (stayed it step))) ≡ false
    → advance it len step ≡ stayed it step
advance-stayed it len step a b h =
    rw (add64_small it.total_offset step a, add64_small it.current_offset step b, h) refl

advance-moved :
    (it : Iterator) (len step : ℕ)
    → it.total_offset + step < word_mod
    → it.current_offset + step < word_mod
    → (it.current_offset + step == len && not (is_finished (stayed it step))) ≡ true
    → advance it len step ≡ moved it step
advance-moved it len step a b h =
    rw (add64_small it.total_offset step a, add64_small it.current_offset step b, h) refl

stayed-IsIn :
    (it : Iterator) (v : Iovec) (step : ℕ)
    → IsIn it
    → get_elem? it.iovec it.current ≡ some v
    → it.current_offset + step ≤ v.len
    → IsIn (stayed it step)
stayed-IsIn it v step i e h =
    let t = total-take-suc it.current it.iovec v e in
    record {
      sized = i.sized;
      bounded = i.bounded;
      inside = i.inside;
      place = omega (arith, i.place);
      within = omega (arith, t, i.place);
    }

moved-IsIn :
    (it : Iterator) (v : Iovec) (step : ℕ)
    → IsIn it
    → get_elem? it.iovec it.current ≡ some v
    → it.current_offset + step ≡ v.len
    → it.total_offset + step ≢ it.total_size
    → IsIn (moved it step)
moved-IsIn it v step i e h k =
    let t = total-take-suc it.current it.iovec v e in
    let s : it.current + 1 ≡ suc it.current = omega arith in
    let here : it.total_offset + step ≡ total (take (suc it.current) it.iovec) =
      omega (arith, t, i.place) in
    let up = total-take (suc it.current) it.iovec in
    let more : suc it.current < length it.iovec =
      take_more (suc it.current) it.iovec (omega (arith, here, up, k, i.sized)) in
    let (u, f) = some_elem (suc it.current) it.iovec more in
    let next = total-take-suc (suc it.current) it.iovec u f in
    record {
      sized = i.sized;
      bounded = i.bounded;
      inside = omega (arith, more);
      place = rw s (omega (arith, here));
      within = rw s (omega (arith, next));
    }

-- The iterator has gone on by `n` bytes.
abbrev pub HasSkipped : Iterator → ℕ → Walk Iterator → Type 0
HasSkipped it n o =
    (it' : Iterator) × (o ≡ arrived it')
    × IsIn it'
    × (it'.total_offset ≡ it.total_offset + n)
    × (it'.iovec ≡ it.iovec)

-- The last round, which takes all that is left to skip.
turn_last :
    (fuel : ℕ) (it : Iterator) (v : Iovec) (n : ℕ)
    → IsIn it
    → get_elem? it.iovec it.current ≡ some v
    → it.current_offset + n ≤ v.len
    → HasSkipped it n (turn fuel it v.len n n)
unfolding turn
turn_last fuel it v n i e h =
    let t = total-take-suc it.current it.iovec v e in
    let up = total-take (suc it.current) it.iovec in
    let z : sub64 n n ≡ 0 =
      sub64_small n n (omega arith) (omega (arith, t, up, i.bounded)) ∙ omega arith in
    let a : it.total_offset + n < word_mod = omega (arith, t, up, i.bounded, i.place) in
    let b : it.current_offset + n < word_mod = omega (arith, t, up, i.bounded, i.place) in
    elim (Bool-cases (it.current_offset + n == v.len && not (is_finished (stayed it n)))) [
      | inl k ↦
          let m = advance-moved it v.len n a b k in
          let o : it.current_offset + n ≡ v.len = ground arith in
          let d : it.total_offset + n ≢ it.total_size = ground arith in
          (moved it n, rw (z, m, turn) refl, moved-IsIn it v n i e o d, refl, refl)
      | inr k ↦
          let m = advance-stayed it v.len n a b k in
          (stayed it n, rw (z, m, turn) refl, stayed-IsIn it v n i e h, refl, refl)
    ]

-- A round that goes to the next entry.
turn_next :
    (fuel : ℕ) (it : Iterator) (v : Iovec) (n : ℕ)
    → IsIn it
    → get_elem? it.iovec it.current ≡ some v
    → v.len < it.current_offset + n
    → it.total_offset + n ≤ it.total_size
    → let step = v.len - it.current_offset in
      (turn fuel it v.len n step ≡ skip fuel (moved it step) (n - step)) × IsIn (moved it step)
unfolding turn
turn_next fuel it v n i e h k =
    let t = total-take-suc it.current it.iovec v e in
    let up = total-take (suc it.current) it.iovec in
    let step = v.len - it.current_offset in
    let on : it.current_offset + step ≡ v.len = omega (arith, t, i.within) in
    let less : step < n = omega (arith, t, i.within) in
    let small : n < word_mod = omega (arith, k, i.sized, i.bounded) in
    let z : sub64 n step ≡ n - step = sub64_small n step (omega (arith, less)) small in
    let a : it.total_offset + step < word_mod = omega (arith, less, k, i.sized, i.bounded) in
    let b : it.current_offset + step < word_mod = omega (arith, on, t, up, i.bounded) in
    let d : it.total_offset + step ≢ it.total_size = omega (arith, less, k) in
    let open_end : (it.total_size == it.total_offset + step) ≡ false = ground (arith, d) in
    let same : (it.current_offset + step == v.len) ≡ true = ground (arith, on) in
    let go : (it.current_offset + step == v.len && not (is_finished (stayed it step))) ≡ true =
      rw (same, open_end) refl in
    let left : (n - step == 0) ≡ false = ground (arith, less) in
    let m = advance-moved it v.len step a b go in
    (rw (z, m, left, open_end, turn) refl, moved-IsIn it v step i e on d)

entry_step :
    (it : Iterator) (v : Iovec) (n : ℕ)
    → IsIn it
    → get_elem? it.iovec it.current ≡ some v
    → it.total_offset + n ≤ it.total_size
    → min_long (sub64 v.len it.current_offset) n ≡ min (v.len - it.current_offset) n
entry_step it v n i e h =
    let t = total-take-suc it.current it.iovec v e in
    let up = total-take (suc it.current) it.iovec in
    let rest = v.len - it.current_offset in
    let big : v.len < long_max = omega (arith, t, up, i.bounded) in
    let le : it.current_offset ≤ v.len = omega (arith, t, i.within) in
    let lens = sub64_small v.len it.current_offset le (omega (arith, big)) in
    ap (λ r. min_long r n) lens
    ∙ min_long-eq_min rest n (omega (arith, big)) (omega (arith, h, i.sized, i.bounded))

-- An iterator in valid entries that is to skip no more bytes than are left comes that many bytes
-- further; one round for each entry that is left and one more is enough.
pub skip_lem :
    (fuel : ℕ) (it : Iterator) (n : ℕ)
    → IsIn it
    → it.total_offset + n ≤ it.total_size
    → length it.iovec < fuel + it.current
    → HasSkipped it n (skip fuel it n)
skip_lem zero it n i h f = absurd (omega (arith, i.inside))
skip_lem (suc fuel) it n i h f =
    let (v, e) = some_elem it.current it.iovec i.inside in
    let t = total-take-suc it.current it.iovec v e in
    let rest = v.len - it.current_offset in
    let step = entry_step it v n i e h in
    elim (Bool-cases (leb n rest)) [
      | inl k ↦
          let s : min rest n ≡ n = ground arith in
          let le : n ≤ rest = ground arith in
          let (it', o, j, p, q) = turn_last fuel it v n i e (omega (arith, le, t, i.within)) in
          (
            it',
            skip-turn fuel it n v e ∙ (ap (λ m. turn fuel it v.len n m) (step ∙ s) ∙ o),
            j,
            p,
            q,
          )
      | inr k ↦
          let gt : rest < n = ground arith in
          let s : min rest n ≡ rest = omega (arith, gt) in
          let (next, j) = turn_next fuel it v n i e (omega (arith, gt)) h in
          let (it', o, j', p, q) =
            skip_lem fuel (moved it rest) (n - rest) j (omega (arith, gt, h)) (omega (arith, f)) in
          (
            it',
            skip-turn fuel it n v e ∙ (ap (λ m. turn fuel it v.len n m) (step ∙ s) ∙ (next ∙ o)),
            j',
            p ∙ omega (arith, gt),
            q,
          )
    ]
