-- ===== src/Tty/Lines.antt =====
-- The line that a terminal collects in its device buffer, and where it may end.
use astral.Base.{
  ℕ, zero, suc, ◌+◌, ◌-◌, ◌≤◌, ◌<◌, ◌≡◌, refl, ap, ap₂, ◌∙◌, Bool, true, false, ◌||◌, Option, none,
  some, List, [], ◌∷◌, ◌++◌, ◌==◌, leb, length, take, drop, set, get_elem?, get_or, length-set,
  arith, Bool-cases, Option-cases, inl, inr,
}
use astral.Base.Memory.{bytes, byte, mapped}
use astral.JobControl.{World}
use astral.Tty.{
  Tty, buffer_size, placed, erase, kill, flush, enter, canonical, raw, typed, respond, tty_process,
  is_cc, is_end, signal_of, translate,
}

-- The device buffer has its size, and there is room for one more character.
pub record IsValid (t : Tty) : Type 0 where
  pub sized : length t.devicebuffer ≡ 512
  pub room : t.devicepos < 512

-- The characters of the line that is not finished.
abbrev pub line : Tty → List ℕ
line t = take t.devicepos t.devicebuffer

pub take-set {ℓ} :
    {A : Type ℓ} (xs : List A) (n : ℕ) (v : A)
    → n < length xs
    → take (suc n) (set xs n v) ≡ take n xs ++ v ∷ []
take-set [] n v h = absurd (omega arith)
take-set (x ∷ xs) zero v h = refl
take-set (x ∷ xs) (suc n) v h = ap (λ ys. x ∷ ys) (take-set xs n v (omega arith))

pub take-set_same {ℓ} : {A : Type ℓ} (xs : List A) (n : ℕ) (v : A) → take n (set xs n v) ≡ take n xs
take-set_same [] n v = refl
take-set_same (x ∷ xs) zero v = refl
take-set_same (x ∷ xs) (suc n) v = ap (λ ys. x ∷ ys) (take-set_same xs n v)

pub take-take {ℓ} : {A : Type ℓ} (m n : ℕ) (xs : List A) → m ≤ n → take m (take n xs) ≡ take m xs
take-take zero n xs h = refl
take-take (suc m) zero xs h = absurd (omega arith)
take-take (suc m) (suc n) [] h = refl
take-take (suc m) (suc n) (x ∷ xs) h = ap (λ ys. x ∷ ys) (take-take m n xs (omega arith))

get_elem?-get_or : (xs : List ℕ) (i : ℕ) → i < length xs → get_elem? xs i ≡ some (get_or xs i 0)
get_elem?-get_or [] i h = absurd (omega arith)
get_elem?-get_or (x ∷ xs) zero h = refl
get_elem?-get_or (x ∷ xs) (suc i) h = get_elem?-get_or xs i (omega arith)

drop-get_or : (xs : List ℕ) (i : ℕ) → i < length xs → drop i xs ≡ get_or xs i 0 ∷ drop (suc i) xs
drop-get_or [] i h = absurd (omega arith)
drop-get_or (x ∷ xs) zero h = refl
drop-get_or (x ∷ xs) (suc i) h = drop-get_or xs i (omega arith)

-- What stands at the addresses of a buffer.
at-placed :
    (addr i : ℕ) (xs : List ℕ) → i < length xs → placed addr xs (addr + i) ≡ some (get_or xs i 0)
at-placed addr i xs h =
    let low : leb addr (addr + i) ≡ true = ground arith in
    let e : addr + i - addr ≡ i = omega arith in rw (low, e) (get_elem?-get_or xs i h)

bytes-placed :
    (addr i n : ℕ) (xs : List ℕ)
    → i + n ≤ length xs
    → bytes (placed addr xs) (addr + i) n ≡ take n (drop i xs)
bytes-placed addr i zero xs h = refl
bytes-placed addr i (suc n) xs h =
    let here = at-placed addr i xs (omega arith) in
    let e : addr + i + 1 ≡ addr + suc i = omega arith in
    let value : byte (placed addr xs) (addr + i) ≡ get_or xs i 0 = rw (here, byte) refl in
    rw (drop-get_or xs i (omega arith))
      (ap₂ ◌∷◌ value (rw e (bytes-placed addr (suc i) n xs (omega arith))))

mapped-placed :
    (addr i n : ℕ) (xs : List ℕ) → i + n ≤ length xs → mapped (placed addr xs) (addr + i) n ≡ true
mapped-placed addr i zero xs h = refl
mapped-placed addr i (suc n) xs h =
    let here = at-placed addr i xs (omega arith) in
    let e : addr + i + 1 ≡ addr + suc i = omega arith in
    rw (here, e, mapped) (mapped-placed addr (suc i) n xs (omega arith))

pub line_bytes :
    (addr n : ℕ) (xs : List ℕ)
    → n ≤ length xs
    → (bytes (placed addr xs) addr n ≡ take n xs) × (mapped (placed addr xs) addr n ≡ true)
line_bytes addr n xs h =
    let e : addr + 0 ≡ addr = omega arith in
    (
      rw e at (bytes-placed addr 0 n xs (omega arith)),
      rw e at (mapped-placed addr 0 n xs (omega arith)),
    )

short :
    (t : Tty) (c : ℕ)
    → IsValid t
    → (is_end t.termios c || t.devicepos + 1 == buffer_size) ≡ false
    → t.devicepos + 1 < 512
short t c v h = let room = v.room in ground arith

enter-IsValid : (t : Tty) (c : ℕ) → IsValid t → IsValid (enter t c).0
unfolding enter flush
enter-IsValid t c v = elim (Bool-cases (is_end t.termios c || t.devicepos + 1 == buffer_size)) [
  | inl h ↦ rw h (record { sized = refl; room = omega arith })
  | inr h ↦
      rw h
        (record { sized = length-set t.devicebuffer t.devicepos c ∙ v.sized; room = short t c v h })
]

erase-IsValid : (t : Tty) → IsValid t → IsValid (erase t).0
unfolding erase
erase-IsValid t v = elim (Bool-cases (t.devicepos == 0)) [
  | inl h ↦ rw h v
  | inr h ↦ rw h (record {
    sized = length-set t.devicebuffer (t.devicepos - 1) 0 ∙ v.sized;
    room = omega (arith, v.room);
  })
]

canonical-IsValid : (t : Tty) (c : ℕ) → IsValid t → IsValid (canonical t c).0
unfolding canonical kill
canonical-IsValid t c v = elim (Bool-cases (is_cc t.termios 2 c)) [
  | inl h ↦ rw h (erase-IsValid t v)
  | inr h ↦ rw h (elim (Bool-cases (is_cc t.termios 3 c)) [
    | inl k ↦ rw k (record { sized = refl; room = omega arith })
    | inr k ↦ rw k (enter-IsValid t c v)
  ])
]

typed-IsValid : (t : Tty) (addr c : ℕ) (b : Bool) → IsValid t → IsValid (typed t addr c b).0
unfolding raw
typed-IsValid t addr c true v = canonical-IsValid t c v
typed-IsValid t addr c false v = record { sized = v.sized; room = v.room }

respond-IsValid :
    (w : World) (t : Tty) (addr c : ℕ) (o : Option ℕ) → IsValid t → IsValid (respond w t addr c o).1
unfolding respond
respond-IsValid w t addr c none v = typed-IsValid t addr c t.termios.icanon v
respond-IsValid w t addr c (some s) v = v

-- Whatever character arrives, under any settings, the device buffer keeps its 512 bytes and the next
-- character has a place inside it.
pub tty_process-IsValid :
    (w : World) (t : Tty) (addr c : ℕ) → IsValid t → IsValid (tty_process w t addr c).1
unfolding tty_process
tty_process-IsValid w t addr c v = elim (Option-cases (translate t.termios c)) [
  | inl e ↦ rw (e, tty_process) v
  | inr (d, e) ↦ rw (e, tty_process) (respond-IsValid w t addr d (signal_of t.termios d) v)
]
