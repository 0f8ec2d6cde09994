-- ===== src/HashTable/Map.antt =====
-- The table as a finite map: what a lookup gives after each operation, and that each keeps the table
-- valid.
use astral.Base.{
  ℕ, zero, suc, ◌%◌, ◌<◌, ◌≡◌, ◌≢◌, refl, ap, Bool, true, false, ◌&&◌, Option, none, some, List, [],
  ◌∷◌, if◌then◌else◌, length, set, get_or, get_or-set_self, get_or-set_ne, arith, Bool-cases, inl,
  inr, Option-cases, ok, err, enomem, enoent, add64, sub64, replicate, length-replicate,
}
use native.Mathlib.Decide.{ℕ_discrete}
use native.Mathlib.Nat.{mod-lt}
use astral.HashTable.{
  Entry, Table, fnv1ahash, same_bytes, find, assign, unlink, chain, getentry, set_key, get_key,
  remove_key, init,
}
use astral.HashTable.Chains.{
  value_of, same_bytes_iff, find-assign, find-cons, find-unlink_ne, find-unlink_self, Alone,
}
use astral.HashTable.Valid.{
  IsValid, total, replaced, assign-ChainOk, unlink-ChainOk, length-assign, length-unlink,
  length-le-total,
}

module _ {V : Type 0} where
  abbrev pub slot : Table V → List ℕ → ℕ
  slot t key = fnv1ahash key % t.capacity

  abbrev pub is_some : Option V → Bool
  is_some none = false
  is_some (some v) = true

  -- A lookup reads one chain.
  get_key_lem :
      (t : Table V) (k : List ℕ)
      → get_key t k ≡ value_of (find (chain t (slot t k)) k (fnv1ahash k))
  unfolding get_key getentry
  get_key_lem t k = ground arith

  slot-lt : {t : Table V} (k : List ℕ) → IsValid t → slot t k < t.capacity
  slot-lt k v = mod-lt (fnv1ahash k) v.positive

  -- A lookup after one chain is replaced.
  get_key-replaced :
      {t : Table V} (k j : List ℕ) (n : ℕ) (b : List (Entry V)) (o : Option V)
      → IsValid t
      → value_of (find b j (fnv1ahash j))
        ≡ (if same_bytes k j then o else value_of (find (chain t (slot t k)) j (fnv1ahash j)))
      → get_key (record t { entrycount = n; entries = set t.entries (slot t k) b }) j
        ≡ (if same_bytes k j then o else get_key t j)
  get_key-replaced {t} k j n b o v e = elim (ℕ_discrete (slot t k) (slot t j)) [
    | yes same ↦
        rw
          (
            get_key_lem (record t { entrycount = n; entries = set t.entries (slot t k) b }) j,
            get_key_lem t j,
            ← same,
            get_or-set_self t.entries (slot t k) b [] (omega (arith, v.chains, slot-lt k v)),
          )
          e
    | no other ↦
        let differ : same_bytes k j ≡ false = elim (Bool-cases (same_bytes k j)) [
          | inl s ↦ absurd (other (ap (slot t) ((same_bytes_iff k j).0 s)))
          | inr d ↦ d
        ] in
        rw (
          differ,
          get_key_lem (record t { entrycount = n; entries = set t.entries (slot t k) b }) j,
          get_key_lem t j,
          get_or-set_ne t.entries b [] other,
        )
  ]

  set_key_found :
      (t : Table V) (v : V) (k : List ℕ) (allocate slab heap : Bool) (e : Entry V)
      → find (chain t (slot t k)) k (fnv1ahash k) ≡ some e
      → set_key t v k allocate slab heap ≡ (
        record t {
          entries = set t.entries (slot t k) (assign (chain t (slot t k)) k (fnv1ahash k) v);
        },
        ok,
      )
  unfolding set_key getentry
  set_key_found t v k allocate slab heap e h = ground arith

  new_entry : V → List ℕ → Entry V
  new_entry v k = record { hash = fnv1ahash k; keysize = length k; key = k; value = v }

  set_key_new :
      (t : Table V) (v : V) (k : List ℕ) (allocate slab heap : Bool)
      → find (chain t (slot t k)) k (fnv1ahash k) ≡ none
      → (set_key t v k allocate slab heap).1 ≡ ok
      → set_key t v k allocate slab heap ≡ (
        record t {
          entrycount = add64 t.entrycount 1;
          entries = set t.entries (slot t k) (new_entry v k ∷ chain t (slot t k));
        },
        ok,
      )
  unfolding set_key getentry new_entry
  set_key_new t v k allocate slab heap h s = ground arith

  remove_key_found :
      (t : Table V) (k : List ℕ) (e : Entry V)
      → find (chain t (slot t k)) k (fnv1ahash k) ≡ some e
      → remove_key t k ≡ (
        record t {
          entrycount = sub64 t.entrycount 1;
          entries = set t.entries (slot t k) (unlink (chain t (slot t k)) k (fnv1ahash k));
        },
        ok,
      )
  unfolding remove_key getentry
  remove_key_found t k e h = ground arith

  remove_key_missing :
      (t : Table V) (k : List ℕ)
      → find (chain t (slot t k)) k (fnv1ahash k) ≡ none
      → remove_key t k ≡ (t, err enoent)
  unfolding remove_key getentry
  remove_key_missing t k h = ground arith

  -- The value of an absent key.
  absent :
      (t : Table V) (k j : List ℕ)
      → find (chain t (slot t k)) k (fnv1ahash k) ≡ none
      → get_key t j ≡ (if same_bytes k j then none else get_key t j)
  absent t k j h = elim (Bool-cases (same_bytes k j)) [
    | inl s ↦ rw (s, ← (same_bytes_iff k j).0 s, get_key_lem t k, h)
    | inr d ↦ rw d
  ]

  find-unlink :
      (b : List (Entry V)) (k j : List ℕ)
      → Alone b
      → value_of (find (unlink b k (fnv1ahash k)) j (fnv1ahash j))
        ≡ (if same_bytes k j then none else value_of (find b j (fnv1ahash j)))
  find-unlink b k j a = elim (Bool-cases (same_bytes k j)) [
    | inl s ↦ rw (s, ← (same_bytes_iff k j).0 s, find-unlink_self b k (fnv1ahash k) a)
    | inr d ↦ rw (
      d,
      find-unlink_ne k j (fnv1ahash k) (fnv1ahash j) (ap fnv1ahash) b
          (λ q. ground (arith, same_bytes_iff k j)),
    )
  ]

  -- The outcome of `hashtable_set` on every branch: an entry that is there takes the value; one that
  -- is not is added if that is asked for and both allocations succeed. A call that fails changes
  -- nothing.
  pub set_key_status :
      (t : Table V) (v : V) (k : List ℕ) (allocate slab heap : Bool)
      → let (t', s) = set_key t v k allocate slab heap in
        (s ≡ (
          if is_some (get_key t k)
          then ok
          else if allocate
          then (if slab && heap then ok else err enomem)
          else err enoent))
        × (s ≢ ok → t' ≡ t)
  unfolding set_key get_key
  set_key_status t v k allocate slab heap = ground arith

  -- After a `hashtable_set` on a valid table that succeeds the key has the value and every other key what it had; the
  -- table stays valid, so the count is that of the entries.
  pub get_key-set_key :
      {t : Table V} (v : V) (k : List ℕ) (allocate slab heap : Bool)
      → IsValid t
      → (set_key t v k allocate slab heap).1 ≡ ok
      → IsValid (set_key t v k allocate slab heap).0
        × ((j : List ℕ)
            → get_key (set_key t v k allocate slab heap).0 j
              ≡ (if same_bytes k j then some v else get_key t j))
  unfolding new_entry
  get_key-set_key {t} v k allocate slab heap valid success =
      let i = slot t k in
      let h = fnv1ahash k in
      let lt = slot-lt k valid in
      elim (Option-cases (find (chain t i) k h)) [
        | inr (e, found) ↦ rw (set_key_found t v k allocate slab heap e found) (
          replaced i t.entrycount (assign (chain t i) k h v) valid lt
              (assign-ChainOk t.capacity i (chain t i) k h v (valid.ok_chain i lt))
              (omega (arith, valid.count, length-assign (chain t i) k h v)),
          λ j.
              get_key-replaced k j t.entrycount (assign (chain t i) k h v) (some v) valid
                (find-assign k j h (fnv1ahash j) (ap fnv1ahash) (chain t i) v (λ q. cc)),
        )
        | inl new ↦ rw (set_key_new t v k allocate slab heap new success) (
          replaced i (add64 t.entrycount 1) (new_entry v k ∷ chain t i) valid lt
              (record {
                placed = (refl, refl, refl, (valid.ok_chain i lt).placed);
                alone = (new, (valid.ok_chain i lt).alone);
              })
              (omega (arith, valid.count)),
          λ j.
              get_key-replaced k j (add64 t.entrycount 1) (new_entry v k ∷ chain t i) (some v) valid
                (find-cons k j h (fnv1ahash j) (ap fnv1ahash) (chain t i) v),
        )
      ]

  -- On a valid table `hashtable_remove` fails exactly on a key that is not there, and then changes nothing. Otherwise
  -- the key is gone, every other key keeps its value, and the table stays valid.
  pub get_key-remove_key :
      {t : Table V} (k : List ℕ)
      → IsValid t
      → let (t', s) = remove_key t k in
        (s ≡ (if is_some (get_key t k) then ok else err enoent))
        × IsValid t'
        × ((j : List ℕ) → get_key t' j ≡ (if same_bytes k j then none else get_key t j))
  get_key-remove_key {t} k valid =
      let i = slot t k in
      let h = fnv1ahash k in
      let lt = slot-lt k valid in
      elim (Option-cases (find (chain t i) k h)) [
        | inl none' ↦
            rw (remove_key_missing t k none', get_key_lem t k, none')
              (refl, valid, λ j. absent t k j none')
        | inr (e, found) ↦
            rw (remove_key_found t k e found, get_key_lem t k, found)
              (
                refl,
                replaced i (sub64 t.entrycount 1) (unlink (chain t i) k h) valid lt
                    (unlink-ChainOk t.capacity i (chain t i) k h (valid.ok_chain i lt))
                    (omega (
                      arith,
                      valid.count,
                      length-unlink (chain t i) k h (λ q. cc),
                      length-le-total t.entries i,
                    )),
                λ j.
                    get_key-replaced k j (sub64 t.entrycount 1) (unlink (chain t i) k h) none valid
                      (find-unlink (chain t i) k j (valid.ok_chain i lt).alone),
              )
      ]

  -- A chain of a fresh table is empty.
  get_or-replicate : (n i : ℕ) → get_or (replicate n []) i [] ≡ (let e : List (Entry V) = [] in e)
  get_or-replicate zero i = refl
  get_or-replicate (suc n) zero = refl
  get_or-replicate (suc n) (suc i) = get_or-replicate n i

  total-replicate : (n : ℕ) (e : List (Entry V)) → length e ≡ 0 → total (replicate n e) ≡ 0
  total-replicate zero e h = refl
  total-replicate (suc n) e h = omega (arith, total-replicate n e h)

  -- `hashtable_init` with a size above 0 and a count field that was 0 gives a valid table in which no
  -- key is found.
  pub init_lem :
      (size : ℕ)
      → 0 < size
      → (t : Table V) × (init 0 size true true ≡ (some t, ok))
        × IsValid t
        × ((k : List ℕ) → get_key t k ≡ none)
  unfolding init get_key getentry find
  init_lem size pos = (
    record { entrycount = 0; capacity = size; entries = replicate size [] },
    refl,
    record {
      positive = pos;
      chains = length-replicate size [];
      count = omega (arith, total-replicate size [] refl);
      ok_chain = λ i lt. rw (get_or-replicate size i) (record { placed = tt; alone = tt });
    },
    λ k. ground (arith, get_or-replicate size (fnv1ahash k % size)),
  )
