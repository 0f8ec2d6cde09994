-- ===== src/Slab/Tests.antt =====
-- A cache of objects of 64 bytes, from its first object on.
use astral.Base.{
  ℕ, ◌≡◌, ◌≢◌, ◌<◌, refl, true, false, Option, none, some, [], ◌∷◌, ◌==◌, arith, inl, inr,
  is_member, if◌then◌else◌,
}
use astral.Slab.{Cache, partial, empty, slab_allocate, slab_free, purge}
use astral.Slab.Valid.{IsValid}
use astral.Slab.Grow.{Outcome, slab_allocate-Outcome}
use astral.Slab.Free.{IsReturned, slab_free-IsReturned}
use astral.Slab.Purge.{purge_fault}

abbrev new_cache : Cache
new_cache = record {
  lists = λ k. [];
  slabs = λ s. record { used = 0; free = [] };
  size = 64;
  slabobjcount = 3;
}

new_cache-IsValid : IsValid new_cache
new_cache-IsValid = record {
  listed = λ k s h. absurd (cc);
  distinct = λ k. tt;
  count_bound = (omega arith, omega arith);
}

slab_allocate-Outcome_example : Outcome new_cache (some 9) (slab_allocate new_cache (some 9))
slab_allocate-Outcome_example =
    slab_allocate-Outcome new_cache (some 9) new_cache-IsValid (λ k. refl)

-- With one object in use, the third of slab 9.
abbrev one_used : Cache
one_used = (slab_allocate new_cache (some 9)).1

outcome_valid : (o : Option (ℕ × ℕ) × Cache) → Outcome new_cache (some 9) o → IsValid (o.1)
outcome_valid (none, c) (e, f) = absurd (cc)
outcome_valid (some (s, i), c) (inl (o, t)) = t.valid
outcome_valid (some (s, i), c) (inr (e, t)) = t.valid

one_used-IsValid : IsValid one_used
one_used-IsValid =
    outcome_valid (slab_allocate new_cache (some 9))
      (slab_allocate-Outcome new_cache (some 9) new_cache-IsValid (λ k. refl))

is_partial : is_member 9 (one_used.lists partial) ≡ true
unfolding slab_allocate
is_partial = refl

is_used : (one_used.slabs 9).used ≢ 0
unfolding slab_allocate
is_used e = absurd (cc)

in_slab : 2 < one_used.slabobjcount
unfolding slab_allocate
in_slab = omega arith

not_free : is_member 2 (one_used.slabs 9).free ≡ false
unfolding slab_allocate
not_free = refl

slab_free-IsReturned_example :
    (c : Cache) × ((slab_free one_used 9 2 ≡ some c) × IsReturned one_used c 9 2)
slab_free-IsReturned_example =
    slab_free-IsReturned one_used partial 9 2 one_used-IsValid is_partial is_used not_free in_slab

-- A cache with an empty slab.
abbrev one_empty : Cache
one_empty = record new_cache { lists = λ k. if k == empty then 9 ∷ [] else [] }

purge_fault_example : purge one_empty 5 ≡ none
purge_fault_example = purge_fault one_empty 3 (λ e. absurd (cc))
