-- ===== src/Files/Close.antt =====
-- `fd_close`: the descriptor is free afterwards, and the file is cleaned up with its last reference.
use astral.Base.{
  ℕ, ◌+◌, ◌^◌, ◌<◌, ◌≡◌, ◌≢◌, refl, ap, sym, ◌∙◌, none, some, [], ◌∷◌, ◌++◌, if◌then◌else◌, ◌==◌,
  ltb, ok, arith,
}
use astral.Files.{State, file_at, clear, fd_close}
use astral.Files.Valid.{IsValid, file_in-clear_self, file_in-clear_ne, length-clear, file_in-lt}
use astral.Files.Counts.{
  Counted, count, refers, count-clear, count_pos, released, release_lem, refcount-released,
}

abbrev pub emptied : State → ℕ → State
emptied s n = record s { fd = clear s.fd n; fdfirst = if ltb n s.fdfirst then n else s.fdfirst }

below_first : (n first m : ℕ) → m < (if ltb n first then n else first) → (m < first) × (m < n)
below_first n first m h = (ground arith, ground arith)

emptied-IsValid : (s : State) (n f : ℕ) → IsValid s → file_at s n ≡ some f → IsValid (emptied s n)
emptied-IsValid s n f v e =
    let l = length-clear s.fd n in
    let lt = file_in-lt s.fd n f e in
    let first = v.first in
    record {
      first = rw l (ground arith);
      used = λ m h.
          let (lt, ne) = below_first n s.fdfirst m h in
          rw (file_in-clear_ne s.fd n m (λ q. omega (arith, q, ne))) (v.used m lt);
      limit = rw l v.limit;
    }

-- What closing the open descriptor `n` does.
fd_close_open :
    (s : State) (n f : ℕ)
    → file_at s n ≡ some f
    → 0 < s.refcount f
    → s.refcount f < 2 ^ 32
    → fd_close s n ≡ (ok, released (emptied s n) f)
unfolding fd_close
fd_close_open s n f e p h = rw (e, fd_close) (rw (release_lem (emptied s n) f p h) refl)

count_left :
    (s : State) (n f g : ℕ)
    → file_at s n ≡ some f
    → count g (clear s.fd n) + refers g (some f) ≡ count g s.fd
count_left s n f g e = ap (λ o. count g (clear s.fd n) + refers g o) (sym e) ∙ count-clear g s.fd n

released-Counted :
    (s : State) (besides : ℕ → ℕ) (n f : ℕ)
    → Counted s besides
    → file_at s n ≡ some f
    → 0 < s.refcount f
    → Counted (released (emptied s n) f) besides
released-Counted s besides n f c e p = record {
  right =
      λ g. omega (arith, c.right g, count_left s n f g e, refcount-released (emptied s n) f g p);
  small = λ g. omega (arith, c.small g, refcount-released (emptied s n) f g p);
}

last_lem :
    (s : State) (besides : ℕ → ℕ) (n f : ℕ)
    → Counted s besides
    → file_at s n ≡ some f
    → (if s.refcount f == 1 then s.cleaned ++ f ∷ [] else s.cleaned)
      ≡ (if count f (clear s.fd n) + besides f == 0 then s.cleaned ++ f ∷ [] else s.cleaned)
last_lem s besides n f c e =
    let one : refers f (some f) ≡ 1 = ground arith in
    let k : s.refcount f ≡ count f (clear s.fd n) + besides f + 1 =
      omega (arith, c.right f, count_left s n f f e, one) in
    ground arith

-- Closing an open descriptor of a valid table whose files have the right counts frees that descriptor
-- and no other, keeps the table valid and the counts right, and cleans up the file exactly if no
-- reference to it is left.
pub fd_close-Counted :
    (s : State) (besides : ℕ → ℕ) (n f : ℕ)
    → IsValid s
    → Counted s besides
    → file_at s n ≡ some f
    → let (status, s') = fd_close s n in
      (status ≡ ok)
      × (file_at s' n ≡ none)
      × ((m : ℕ) → m ≢ n → file_at s' m ≡ file_at s m)
      × IsValid s'
      × Counted s' besides
      × (s'.cleaned ≡ (if count f s'.fd + besides f == 0 then s.cleaned ++ f ∷ [] else s.cleaned))
fd_close-Counted s besides n f v c e =
    let p : 0 < s.refcount f = omega (arith, c.right f, count_pos f s.fd n e) in
    let w = emptied-IsValid s n f v e in
    rw (fd_close_open s n f e p (omega (arith, c.small f))) (
      refl,
      file_in-clear_self s.fd n,
      λ m h. file_in-clear_ne s.fd n m h,
      record { first = w.first; used = w.used; limit = w.limit },
      released-Counted s besides n f c e p,
      last_lem s besides n f c e,
    )
