-- ===== src/HashTable/Valid.antt =====
-- The invariant of the table: every entry stands in the chain of its hash, which is the hash of its
-- key, no key stands twice, and the count is the number of entries.
use astral.Base.{
  ℕ, zero, suc, ◌+◌, ◌-◌, ◌%◌, ◌≤◌, ◌<◌, ◌≡◌, ◌≢◌, refl, ◌∙◌, none, List, [], ◌∷◌, length,
  length-set, set, get_or, get_or-set_self, get_or-set_ne, arith, Bool-cases, inl, inr, word_mod,
}
use mathlib.Core.Path.{subst}
use native.Mathlib.Decide.{ℕ_discrete}
use astral.HashTable.{Entry, Table, fnv1ahash, fits, find, assign, unlink, chain}
use astral.HashTable.Chains.{Alone, fits-value}

module _ {V : Type 0} where
  -- The entries of chain `i` of `cap`.
  abbrev pub Placed : ℕ → ℕ → List (Entry V) → Type 0
  Placed cap i [] = Unit
  Placed cap i (e ∷ es) =
      (e.keysize ≡ length e.key) × (e.hash ≡ fnv1ahash e.key) × (e.hash % cap ≡ i) × Placed cap i es

  abbrev pub total : List (List (Entry V)) → ℕ
  total [] = 0
  total (b ∷ bs) = length b + total bs

  pub record ChainOk (cap : ℕ) (i : ℕ) (b : List (Entry V)) : Type 0 where
    pub placed : Placed cap i b
    pub alone : Alone b

  pub record IsValid (t : Table V) : Type 0 where
    pub positive : 0 < t.capacity
    pub chains : length t.entries ≡ t.capacity
    pub count : t.entrycount ≡ total t.entries % word_mod
    pub ok_chain : (i : ℕ) → i < t.capacity → ChainOk t.capacity i (chain t i)

  find-assign_missing :
      (b : List (Entry V)) (k j : List ℕ) (h g : ℕ) (v : V)
      → find b j g ≡ none
      → find (assign b k h v) j g ≡ none
  unfolding find assign
  find-assign_missing [] k j h g v n = refl
  find-assign_missing (e ∷ es) k j h g v n =
      ground (arith, find-assign_missing es k j h g v, fits-value e v j g)

  find-unlink_missing :
      (b : List (Entry V)) (k j : List ℕ) (h g : ℕ)
      → find b j g ≡ none
      → find (unlink b k h) j g ≡ none
  unfolding find unlink
  find-unlink_missing [] k j h g n = refl
  find-unlink_missing (e ∷ es) k j h g n = ground (arith, find-unlink_missing es k j h g)

  Placed-assign :
      (cap i : ℕ) (b : List (Entry V)) (k : List ℕ) (h : ℕ) (v : V)
      → Placed cap i b
      → Placed cap i (assign b k h v)
  unfolding assign
  Placed-assign cap i [] k h v o = o
  Placed-assign cap i (e ∷ es) k h v o = elim (Bool-cases (fits e k h)) [
    | inl f ↦ rw f o
    | inr f ↦ rw f (o.0, o.1, o.2, Placed-assign cap i es k h v (o.3))
  ]

  Alone-assign :
      (b : List (Entry V)) (k : List ℕ) (h : ℕ) (v : V) → Alone b → Alone (assign b k h v)
  unfolding assign
  Alone-assign [] k h v o = o
  Alone-assign (e ∷ es) k h v o = elim (Bool-cases (fits e k h)) [
    | inl f ↦ rw f o
    | inr f ↦ rw f (find-assign_missing es k e.key h e.hash v (o.0), Alone-assign es k h v (o.1))
  ]

  pub assign-ChainOk :
      (cap i : ℕ) (b : List (Entry V)) (k : List ℕ) (h : ℕ) (v : V)
      → ChainOk cap i b
      → ChainOk cap i (assign b k h v)
  assign-ChainOk cap i b k h v o = record {
    placed = Placed-assign cap i b k h v o.placed;
    alone = Alone-assign b k h v o.alone;
  }

  Placed-unlink :
      (cap i : ℕ) (b : List (Entry V)) (k : List ℕ) (h : ℕ)
      → Placed cap i b
      → Placed cap i (unlink b k h)
  unfolding unlink
  Placed-unlink cap i [] k h o = o
  Placed-unlink cap i (e ∷ es) k h o = elim (Bool-cases (fits e k h)) [
    | inl f ↦ rw f (o.3)
    | inr f ↦ rw f (o.0, o.1, o.2, Placed-unlink cap i es k h (o.3))
  ]

  Alone-unlink : (b : List (Entry V)) (k : List ℕ) (h : ℕ) → Alone b → Alone (unlink b k h)
  unfolding unlink
  Alone-unlink [] k h o = o
  Alone-unlink (e ∷ es) k h o = elim (Bool-cases (fits e k h)) [
    | inl f ↦ rw f (o.1)
    | inr f ↦ rw f (find-unlink_missing es k e.key h e.hash (o.0), Alone-unlink es k h (o.1))
  ]

  pub unlink-ChainOk :
      (cap i : ℕ) (b : List (Entry V)) (k : List ℕ) (h : ℕ)
      → ChainOk cap i b
      → ChainOk cap i (unlink b k h)
  unlink-ChainOk cap i b k h o = record {
    placed = Placed-unlink cap i b k h o.placed;
    alone = Alone-unlink b k h o.alone;
  }

  pub length-assign :
      (b : List (Entry V)) (k : List ℕ) (h : ℕ) (v : V) → length (assign b k h v) ≡ length b
  unfolding assign
  length-assign [] k h v = refl
  length-assign (e ∷ es) k h v = ground (arith, length-assign es k h v)

  pub length-unlink :
      (b : List (Entry V)) (k : List ℕ) (h : ℕ)
      → find b k h ≢ none
      → length (unlink b k h) + 1 ≡ length b
  unfolding unlink find
  length-unlink [] k h n = absurd (n refl)
  length-unlink (e ∷ es) k h n = ground (arith, length-unlink es k h)

  total-set :
      (bs : List (List (Entry V))) (i : ℕ) (b : List (Entry V))
      → i < length bs
      → total (set bs i b) + length (get_or bs i []) ≡ total bs + length b
  total-set [] i b h = absurd (omega arith)
  total-set (c ∷ bs) zero b h = omega arith
  total-set (c ∷ bs) (suc i) b h = omega (arith, total-set bs i b (omega arith))

  -- Replacing one chain keeps the invariant, if the new chain and the count are right.
  pub replaced :
      {t : Table V} (i n : ℕ) (b : List (Entry V))
      → IsValid t
      → i < t.capacity
      → ChainOk t.capacity i b
      → n ≡ (total t.entries + length b - length (chain t i)) % word_mod
      → IsValid (record t { entrycount = n; entries = set t.entries i b })
  replaced {t} i n b v lt o e = record {
    positive = v.positive;
    chains = length-set t.entries i b ∙ v.chains;
    count = omega (arith, e, total-set t.entries i b (omega (arith, v.chains)));
    ok_chain = λ j jlt. elim (ℕ_discrete i j) [
      | yes same ↦
          subst (λ x. ChainOk t.capacity x (get_or (set t.entries i b) x [])) same
            (rw (get_or-set_self t.entries i b [] (omega (arith, v.chains))) o)
      | no other ↦ rw (get_or-set_ne t.entries b [] other) (v.ok_chain j jlt)
    ];
  }

  -- How long a chain is, against the whole.
  pub length-le-total : (bs : List (List (Entry V))) (i : ℕ) → length (get_or bs i []) ≤ total bs
  length-le-total [] i = omega arith
  length-le-total (b ∷ bs) zero = omega arith
  length-le-total (b ∷ bs) (suc i) = omega (arith, length-le-total bs i)
