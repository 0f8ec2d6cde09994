-- ===== src/Slab/Purge.antt =====
-- `purge` of a cache that has empty slabs.
use astral.Base.{ℕ, suc, ◌≡◌, ◌≢◌, refl, true, none, List, [], ◌∷◌, ◌==◌, arith}
use astral.Slab.{Cache, empty, purge, purge_loop, first_of}

-- The second round is on the first slab again.
loop_fault :
    (n : ℕ) (l : List ℕ) → l ≢ [] → purge_loop (suc (suc n)) l (first_of l) (first_of l) [] ≡ none
unfolding purge_loop
loop_fault n [] h = absurd (h refl)
loop_fault n (s ∷ ss) h = let k : (s == s) ≡ true = ground arith in rw k refl

-- On a cache with an empty slab, purge with a limit of 2 or more reads a slab that it has unmapped.
pub purge_fault : (c : Cache) (n : ℕ) → c.lists empty ≢ [] → purge c (suc (suc n)) ≡ none
unfolding purge
purge_fault c n h = loop_fault n (c.lists empty) h
