-- ===== src/HashTable/Tests.antt =====
-- Runs of the hash table, and its theorems at concrete tables.
use astral.Base.{
  ℕ, ◌≡◌, refl, true, some, none, List, [], ◌∷◌, arith, ok, if◌then◌else◌, zero, suc, ◌<◌,
}
use astral.HashTable.{
  Table, fnv1ahash, same_bytes, set_key, get_key, remove_key, destroy, chain, fits,
}
use astral.HashTable.Valid.{IsValid, ChainOk}
use astral.HashTable.Map.{get_key-set_key, get_key-remove_key}

abbrev key_a : List ℕ
key_a = 97 ∷ []

abbrev key_b : List ℕ
key_b = 98 ∷ 99 ∷ []

abbrev empty : Table ℕ
empty = record { entrycount = 0; capacity = 2; entries = [] ∷ [] ∷ [] }

-- The published FNV-1a hash of the byte "a".
hash_a : fnv1ahash key_a ≡ 0xaf63dc4c8601ec8c
unfolding fnv1ahash
hash_a = refl

abbrev one : Table ℕ
one = (set_key empty 7 key_a true true true).0

run : get_key (set_key one 8 key_b true true true).0 key_a ≡ some 7
unfolding set_key get_key fnv1ahash fits
run = refl

destroy_one : destroy empty ≡ []
unfolding destroy
destroy_one = refl

empty-IsValid : IsValid empty
empty-IsValid = record { positive = omega arith; chains = refl; count = refl; ok_chain = chains }
  where
    chains : (i : ℕ) → i < 2 → ChainOk 2 i (chain empty i)
    chains zero h = record { placed = tt; alone = tt }
    chains (suc zero) h = record { placed = tt; alone = tt }
    chains (suc (suc i)) h = absurd (omega arith)

get_key-set_key_example :
    IsValid (set_key empty 7 key_a true true true).0
    × ((j : List ℕ)
        → get_key (set_key empty 7 key_a true true true).0 j
          ≡ (if same_bytes key_a j then some 7 else get_key empty j))
unfolding set_key fnv1ahash
get_key-set_key_example = get_key-set_key 7 key_a true true true empty-IsValid refl

get_key-remove_key_example :
    let (t', s) = remove_key one key_a in
    (s ≡ ok)
    × IsValid t'
    × ((j : List ℕ) → get_key t' j ≡ (if same_bytes key_a j then none else get_key one j))
unfolding set_key get_key fnv1ahash fits
get_key-remove_key_example =
    get_key-remove_key key_a (get_key-set_key 7 key_a true true true empty-IsValid refl).0
