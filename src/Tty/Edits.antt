-- ===== src/Tty/Edits.antt =====
-- The line discipline as an editor of a line: what a character does to the line and to the queue that
-- readers take from.
use astral.Base.{
  ℕ, zero, suc, ◌+◌, ◌-◌, ◌≤◌, ◌<◌, ◌≡◌, refl, ap, sym, ◌∙◌, Bool, true, false, ◌||◌, none, some,
  List, [], ◌∷◌, ◌++◌, ◌==◌, leb, if◌then◌else◌, length, take, set, length-set, length-take, arith,
  Bool-cases, inl, inr, min, word_mod,
}
use astral.RingBuffer.Valid.{contents, IsValid as IsRing}
use astral.RingBuffer.Write.{write_lem, write_count}
use astral.JobControl.{World}
use astral.Tty.{
  Tty, Termios, buffer_size, placed, stored, erase, kill, flush, enter, canonical, typed, respond,
  tty_process, is_cc, is_end, signal_of, translate,
}
use astral.Tty.Lines.{IsValid, line, take-set, take-set_same, take-take, line_bytes}

-- A line being edited, and the bytes for the readers.
pub record Editor : Type 0 where
  pub text : List ℕ
  pub queue : List ℕ

-- The line goes to the readers, cut to the space that a queue of `size` bytes has left.
abbrev pub submit : ℕ → Editor → Editor
submit size e = record { text = []; queue = e.queue ++ take (size - length e.queue) e.text }

abbrev pub finish : ℕ → Bool → Editor → Editor
finish size true e = submit size e
finish size false e = e

-- The editor: the erase character takes the last character away, the kill character all of them, and
-- any other is added; one that ends the line, or the 512th, submits it.
abbrev pub edit : Termios → ℕ → ℕ → Editor → Editor
edit s size c e =
    if is_cc s 2 c
    then record { text = take (length e.text - 1) e.text; queue = e.queue }
    else if is_cc s 3 c
    then record { text = []; queue = e.queue }
    else finish size (is_end s c || length e.text + 1 == buffer_size)
        (record { text = e.text ++ c ∷ []; queue = e.queue })

abbrev pub editor : Tty → Editor
editor t = record { text = line t; queue = contents t.readbuffer }

-- The readers' buffer is valid, and a line neither wraps its position nor an address.
pub record IsReady (t : Tty) : Type 0 where
  pub ring : IsRing t.readbuffer
  pub no_wrap : t.readbuffer.write + 512 < word_mod
  pub address : t.device_address + 512 < word_mod

length-line : (t : Tty) → IsValid t → length (line t) ≡ t.devicepos
length-line t v = omega (arith, length-take t.devicepos t.devicebuffer, v.sized, v.room)

take_all : (n : ℕ) (xs : List ℕ) → length xs ≤ n → take n xs ≡ xs
take_all zero [] h = refl
take_all zero (x ∷ xs) h = absurd (omega arith)
take_all (suc n) [] h = refl
take_all (suc n) (x ∷ xs) h = ap (λ ys. x ∷ ys) (take_all n xs (omega arith))

take-min : (m n : ℕ) (xs : List ℕ) → take m (take n xs) ≡ take (min n m) xs
take-min m n xs = elim (Bool-cases (leb m n)) [
  | inl h ↦ let e : min n m ≡ m = ground arith in rw e (take-take m n xs (ground arith))
  | inr h ↦
      let e : min n m ≡ n = ground arith in
      rw e (take_all m (take n xs) (let k = length-take n xs in ground arith))
]

cut_last : (n : ℕ) (xs : List ℕ) → take (n - 1) (set xs (n - 1) 0) ≡ take (n - 1) (take n xs)
cut_last n xs = take-set_same xs (n - 1) 0 ∙ sym (take-take (n - 1) n xs (omega arith))

erase-editor :
    (t : Tty)
    → IsValid t
    → editor (erase t).0
      ≡ (record { text = take (length (line t) - 1) (line t); queue = contents t.readbuffer })
unfolding erase
erase-editor t v =
    let n = length-line t v in
    elim (Bool-cases (t.devicepos == 0)) [
      | inl h ↦
          let z : t.devicepos ≡ 0 = ground arith in
          rw (h, n)
            (ap (λ l. record { text = l; queue = contents t.readbuffer })
              (let q : t.devicepos - 1 ≡ t.devicepos = omega (arith, z) in
                rw q (sym (take-take t.devicepos t.devicepos t.devicebuffer (omega arith)))))
      | inr h ↦
          rw (h, n)
            (ap (λ l. record { text = l; queue = contents t.readbuffer })
              (cut_last t.devicepos t.devicebuffer))
    ]

stored-line : (t : Tty) (c : ℕ) → IsValid t → line (stored t c) ≡ line t ++ c ∷ []
stored-line t c v =
    let e : t.devicepos + 1 ≡ suc t.devicepos = omega arith in
    rw e (take-set t.devicebuffer t.devicepos c (omega (arith, v.sized, v.room)))

flush-editor :
    (t : Tty)
    → length t.devicebuffer ≡ 512
    → t.devicepos ≤ 512
    → IsReady t
    → editor (flush t).0 ≡ submit t.readbuffer.size (editor t)
unfolding flush
flush-editor t s le r =
    let m = placed t.device_address t.devicebuffer in
    let n = t.devicepos in
    let k = write_count t.readbuffer n in
    let at = line_bytes t.device_address k t.devicebuffer (omega arith) in
    let w =
      write_lem m t.device_address n r.ring (omega arith) (omega (arith, r.address))
        (omega (arith, r.no_wrap)) (at.1) in
    ap (λ q. record { text = []; queue = q })
      (w.1
        ∙ ap (λ l. contents t.readbuffer ++ l)
            (at.0
              ∙ sym
                  (take-min (t.readbuffer.size - length (contents t.readbuffer)) n t.devicebuffer)))

enter-finish :
    (t : Tty) (c : ℕ)
    → IsValid t
    → IsReady t
    → editor (enter t c).0
      ≡ finish t.readbuffer.size
          (is_end t.termios c || t.devicepos + 1 == buffer_size)
          (record { text = line t ++ c ∷ []; queue = contents t.readbuffer })
unfolding enter
enter-finish t c v r =
    let entered : Editor = record { text = line t ++ c ∷ []; queue = contents t.readbuffer } in
    let l : editor (stored t c) ≡ entered =
      ap (λ l. record { text = l; queue = contents t.readbuffer }) (stored-line t c v) in
    let fits : t.devicepos + 1 ≤ 512 = omega (arith, v.room) in
    let ready : IsReady (stored t c) = record {
      ring = r.ring;
      no_wrap = r.no_wrap;
      address = r.address;
    } in
    elim (Bool-cases (is_end t.termios c || t.devicepos + 1 == buffer_size)) [
      | inl h ↦ rw h (
          flush-editor (stored t c) (length-set t.devicebuffer t.devicepos c ∙ v.sized) fits ready
          ∙ ap (λ e. submit t.readbuffer.size e) l)
      | inr h ↦ rw h l
    ]

-- A character in canonical mode does to a terminal what it does to the editor.
canonical-edit :
    (t : Tty) (c : ℕ)
    → IsValid t
    → IsReady t
    → editor (canonical t c).0 ≡ edit t.termios t.readbuffer.size c (editor t)
unfolding canonical kill
canonical-edit t c v r = elim (Bool-cases (is_cc t.termios 2 c)) [
  | inl h ↦ rw h (erase-editor t v)
  | inr h ↦ rw h (elim (Bool-cases (is_cc t.termios 3 c)) [
    | inl k ↦ rw k refl
    | inr k ↦ rw (k, length-line t v) (enter-finish t c v r)
  ])
]

respond-edit :
    (w : World) (t : Tty) (addr c : ℕ)
    → IsValid t
    → IsReady t
    → t.termios.icanon ≡ true
    → editor (respond w t addr c none).1 ≡ edit t.termios t.readbuffer.size c (editor t)
unfolding respond
respond-edit w t addr c v r i = ap (λ b. editor (typed t addr c b).0) i ∙ canonical-edit t c v r

-- In canonical mode, a character that is kept and stands for no signal does to the terminal, after its
-- translation, what it does to an editor of lines: erase takes the last character of the line away,
-- kill all of them, and any other is added; the line then goes to the readers, cut to the space they
-- have, if the character ends it or it is the 512th. The terminal is
-- valid, and so is its readers' buffer, whose position does not wrap.
pub tty_process-edit :
    (w : World) (t : Tty) (addr c d : ℕ)
    → IsValid t
    → IsReady t
    → t.termios.icanon ≡ true
    → translate t.termios c ≡ some d
    → signal_of t.termios d ≡ none
    → editor (tty_process w t addr c).1 ≡ edit t.termios t.readbuffer.size d (editor t)
unfolding tty_process
tty_process-edit w t addr c d v r i e s =
    rw (e, tty_process)
      (ap (λ o. editor (respond w t addr d o).1) s ∙ respond-edit w t addr d v r i)
