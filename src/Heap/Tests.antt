-- ===== src/Heap/Tests.antt =====
-- A block of the second cache.
use astral.Base.{◌≢◌, none, true, refl, arith}
use astral.Heap.{Block, realloc, getcachefromsize}
use astral.Heap.Realloc.{IsValid, Resized, realloc-Resized}

abbrev block : Block
block = record { capacity = 64; size = 40; data_at = λ k. k }

block-IsValid : IsValid block
unfolding getcachefromsize
block-IsValid = record { own_cache = refl; within = omega arith }

has_cache : getcachefromsize 100 ≢ none
unfolding getcachefromsize
has_cache e = absurd (cc)

realloc-Resized_example : Resized (λ c. true) block 100 (realloc (λ c. true) block 100)
realloc-Resized_example = realloc-Resized (λ c. true) block 100 block-IsValid has_cache
