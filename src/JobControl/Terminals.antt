-- ===== src/JobControl/Terminals.antt =====
-- Who controls a terminal.
use astral.Base.{
  ℕ, ◌+◌, ◌-◌, ◌≡◌, refl, ap, ap₂, ◌∙◌, Bool, true, false, none, some, ◌==◌, if◌then◌else◌, ok,
  arith,
}
use astral.JobControl.{
  World, set_ctty, set_tty, setctty, give_up, released, settle, take_tty, hold_tty, release_tty,
  getctty,
}

==_self : (a : ℕ) → (a == a) ≡ true
==_self a = ground arith

-- A session leader and its terminal name each other.
pub record Controls (w : World) (p t : ℕ) : Type 0 where
  pub terminal : (w.proc p).controllingtty ≡ some t
  pub session : w.tty_session t ≡ some p

-- A process that may take a terminal: it leads its session and has none.
pub record IsFree (w : World) (p : ℕ) : Type 0 where
  pub leads : (w.proc p).session_leader ≡ none
  pub alone : (w.proc p).controllingtty ≡ none

abbrev captured : World → ℕ → ℕ → World
captured w p t = set_tty (set_ctty (hold_tty w t) p (some t)) t (some p)

setctty_take :
    (w : World) (p t : ℕ) (steal : Bool)
    → IsFree w p
    → w.tty_session t ≡ none
    → setctty w p (some t) steal ≡ (captured w p t, ok)
unfolding setctty take_tty
setctty_take w p t steal f e =
    ap₂ (λ l o. settle w p steal l (some t) o) f.leads f.alone ∙ ap (λ s. take_tty w p t steal s) e

captured-Controls : (w : World) (p t : ℕ) → Controls (captured w p t) p t
unfolding hold_tty
captured-Controls w p t = record { terminal = rw (==_self p) refl; session = rw (==_self t) refl }

captured_leads :
    (w : World) (p t : ℕ) → IsFree w p → ((captured w p t).proc p).session_leader ≡ none
unfolding hold_tty
captured_leads w p t f = rw (==_self p) f.leads

abbrev given_up : World → ℕ → ℕ → World
given_up w p t = release_tty (set_tty (set_ctty w p none) t none) t

setctty_give :
    (w : World) (p t : ℕ)
    → (w.proc p).session_leader ≡ none
    → Controls w p t
    → setctty w p none false ≡ (given_up w p t, ok)
unfolding setctty released
setctty_give w p t l c =
    ap₂ (λ m o. settle w p false m none o) l c.terminal
    ∙ (ap (λ s. released (give_up w p t s)) c.session
        ∙ ap (λ b. released (if b then (set_tty (set_ctty w p none) t none, some t) else (w, none)))
            (==_self p))

given_up_clear :
    (w : World) (p t : ℕ)
    → (((given_up w p t).proc p).controllingtty ≡ none)
      × ((given_up w p t).tty_session t ≡ none)
      × ((given_up w p t).tty_holds t ≡ w.tty_holds t - 1)
unfolding release_tty
given_up_clear w p t = (rw (==_self p) refl, rw (==_self t) refl, rw (==_self t) refl)

captured_holds : (w : World) (p t : ℕ) → (captured w p t).tty_holds t ≡ w.tty_holds t + 1
unfolding hold_tty
captured_holds w p t = rw (==_self t) refl

-- A session leader without a terminal that takes one that is free controls it; when it gives the
-- terminal up, both calls return 0, neither names the other and the terminal has the holds it had.
pub setctty_roundtrip :
    (w : World) (p t : ℕ) (steal : Bool)
    → IsFree w p
    → w.tty_session t ≡ none
    → (u : World) × (v : World) × (setctty w p (some t) steal ≡ (u, ok))
      × Controls u p t
      × (setctty u p none false ≡ (v, ok))
      × ((v.proc p).controllingtty ≡ none)
      × (v.tty_session t ≡ none)
      × (v.tty_holds t ≡ w.tty_holds t)
setctty_roundtrip w p t steal f e =
    let u = captured w p t in
    let (a, b, c) = given_up_clear u p t in
    let n = captured_holds w p t in
    (
      u,
      given_up u p t,
      setctty_take w p t steal f e,
      captured-Controls w p t,
      setctty_give u p t (captured_leads w p t f) (captured-Controls w p t),
      a,
      b,
      c ∙ omega (arith, n),
    )

abbrev stolen : World → ℕ → ℕ → ℕ → World
stolen w p q t = set_tty (set_ctty w q none) t (some p)

stolen-IsFree : (w : World) (p q t : ℕ) → IsFree w p → (q == p) ≡ false → IsFree (stolen w p q t) p
stolen-IsFree w p q t f d = record { leads = rw d f.leads; alone = rw d f.alone }

setctty-stolen :
    (w : World) (p q t : ℕ)
    → IsFree w p
    → w.tty_session t ≡ some q
    → setctty w p (some t) true ≡ (stolen w p q t, ok)
unfolding setctty take_tty
setctty-stolen w p q t f e =
    ap₂ (λ l o. settle w p true l (some t) o) f.leads f.alone ∙ ap (λ s. take_tty w p t true s) e

getctty_free : (w : World) (p : ℕ) → IsFree w p → getctty w p ≡ (w, none)
unfolding getctty
getctty_free w p f = rw (f.leads, getctty) (rw (f.alone, getctty) refl)

-- A terminal stolen from another session: the call returns 0 and the terminal names the thief, but the
-- thief does not name the terminal and `jobctl_getctty` gives it none, while the former owner lost it.
setctty_steal :
    (w : World) (p q t : ℕ)
    → IsFree w p
    → w.tty_session t ≡ some q
    → (q == p) ≡ false
    → (v : World) × (setctty w p (some t) true ≡ (v, ok))
      × (v.tty_session t ≡ some p)
      × (getctty v p ≡ (v, none))
      × ((v.proc q).controllingtty ≡ none)
setctty_steal w p q t f e d = (
  stolen w p q t,
  setctty-stolen w p q t f e,
  rw (==_self t) refl,
  getctty_free (stolen w p q t) p (stolen-IsFree w p q t f d),
  rw (==_self q) refl,
)
