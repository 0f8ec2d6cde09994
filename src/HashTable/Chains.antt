-- ===== src/HashTable/Chains.antt =====
-- One chain of the table: lookup after assignment, insertion and removal.
use astral.Base.{
  ℕ, ◌≡◌, ◌≢◌, refl, sym, ap, ap₂, ◌∙◌, true, Option, none, some, List, [], ◌∷◌, if◌then◌else◌,
  length, arith, Bool-cases, inl, inr, ◌↔◌,
}
use astral.HashTable.{Entry, same_bytes, fits, find, assign, unlink}

pub same_bytes_iff : (a b : List ℕ) → (same_bytes a b ≡ true) ↔ (a ≡ b)
same_bytes_iff [] [] = ground arith
same_bytes_iff [] (b ∷ bs) = ground arith
same_bytes_iff (a ∷ as') [] = ground arith
same_bytes_iff (a ∷ as') (b ∷ bs) = ground (arith, same_bytes_iff as' bs)

module _ {V : Type 0} where
  -- What the value found for a key is, if any.
  abbrev pub value_of : Option (Entry V) → Option V
  value_of none = none
  value_of (some e) = some e.value

  pub fits_iff :
      (e : Entry V) (key : List ℕ) (hash : ℕ)
      → (fits e key hash ≡ true) ↔ ((e.keysize ≡ length key) × (e.hash ≡ hash) × (e.key ≡ key))
  unfolding fits
  fits_iff e key hash = ground (arith, same_bytes_iff e.key key)

  pub fits-value :
      (e : Entry V) (v : V) (key : List ℕ) (hash : ℕ)
      → fits (record e { value = v }) key hash ≡ fits e key hash
  unfolding fits
  fits-value e v key hash = refl

  fits_new :
      (k j : List ℕ) (h g : ℕ) (v : V)
      → (k ≡ j → h ≡ g)
      → fits (record { hash = h; keysize = length k; key = k; value = v }) j g ≡ same_bytes k j
  unfolding fits
  fits_new k j h g v same = elim (Bool-cases (same_bytes k j)) [
    | inl e ↦ let q : k ≡ j = (same_bytes_iff k j).0 e in rw e (ground (arith, same q, ap length q))
    | inr e ↦ rw e (ground arith)
  ]

  fits_same :
      (e : Entry V) (k j : List ℕ) (h g : ℕ)
      → (k ≡ j → h ≡ g)
      → same_bytes k j ≡ true
      → fits e k h ≡ fits e j g
  fits_same e k j h g same s = let q = (same_bytes_iff k j).0 s in ap₂ (fits e) q (same q)

  -- An entry that fits one key fits another exactly if the keys are the same.
  fits_both :
      (e : Entry V) (k j : List ℕ) (h g : ℕ)
      → (k ≡ j → h ≡ g)
      → fits e k h ≡ true
      → fits e j g ≡ same_bytes k j
  fits_both e k j h g same f = elim (Bool-cases (same_bytes k j)) [
    | inl s ↦ sym (fits_same e k j h g same s) ∙ f ∙ sym s
    | inr s ↦ ground (arith, fits_iff e k h, fits_iff e j g, same_bytes_iff k j)
  ]

  module _ (k j : List ℕ) (h g : ℕ) (hash : k ≡ j → h ≡ g) where
    pub find-assign :
        (b : List (Entry V)) (v : V)
        → find b k h ≢ none
        → value_of (find (assign b k h v) j g)
          ≡ (if same_bytes k j then some v else value_of (find b j g))
    unfolding find assign
    find-assign [] v n = absurd (n refl)
    find-assign (e ∷ es) v n = ground (
      arith,
      find-assign es v,
      fits-value e v j g,
      fits_both e k j h g hash,
      fits_same e k j h g hash,
    )

    pub find-cons :
        (b : List (Entry V)) (v : V)
        → value_of (find (record { hash = h; keysize = length k; key = k; value = v } ∷ b) j g)
          ≡ (if same_bytes k j then some v else value_of (find b j g))
    unfolding find
    find-cons b v = rw (fits_new k j h g v hash) (ground arith)

    pub find-unlink_ne : (b : List (Entry V)) → k ≢ j → find (unlink b k h) j g ≡ find b j g
    unfolding find unlink
    find-unlink_ne [] ne = refl
    find-unlink_ne (e ∷ es) ne =
        ground (arith, find-unlink_ne es ne, fits_both e k j h g hash, same_bytes_iff k j)

  -- After its only entry is taken out a key is not found.
  abbrev pub Alone : List (Entry V) → Type 0
  Alone [] = Unit
  Alone (e ∷ es) = (find es e.key e.hash ≡ none) × Alone es

  pub find-unlink_self :
      (b : List (Entry V)) (k : List ℕ) (h : ℕ) → Alone b → find (unlink b k h) k h ≡ none
  unfolding find unlink
  find-unlink_self [] k h a = refl
  find-unlink_self (e ∷ es) k h a = elim (Bool-cases (fits e k h)) [
    | inl f ↦ let (_, q, p) = (fits_iff e k h).0 f in rw (f, ← p, ← q) (a.0)
    | inr f ↦ rw (f, find, f) (find-unlink_self es k h (a.1))
  ]
