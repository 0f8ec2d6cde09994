-- ===== src/HashTable.antt =====
-- The chained hash table of kernel-src/lib/hashtable.c and kernel-src/include/hashtable.h, with the
-- FNV-1a hash of kernel-src/include/util.h. A chain of linked entries is a list, from its head on;
-- keys are byte strings, and values stand for the pointers stored.
pub mod Chains
pub mod Valid
pub mod Map
mod Tests
use astral.Base.{
  ℕ, zero, suc, ◌+◌, ◌%◌, Bool, true, false, ◌&&◌, Option, none, some, List, [], ◌∷◌, ◌++◌, ◌==◌,
  if◌then◌else◌, add64, sub64, mul64, bit_xor, length, get_or, set, replicate, Status, ok, err,
  enomem, enoent,
}

-- FNV1OFFSET and FNV1PRIME.
abbrev fnv_offset : ℕ
fnv_offset = 0xcbf29ce484222325

abbrev fnv_prime : ℕ
fnv_prime = 0x100000001b3

hash_bytes : ℕ → List ℕ → ℕ
hash_bytes h [] = h
hash_bytes h (b ∷ bs) = hash_bytes (mul64 (bit_xor h b) fnv_prime) bs

-- `fnv1ahash`
unfoldable pub fnv1ahash : List ℕ → ℕ
unfolding hash_bytes
fnv1ahash key = hash_bytes fnv_offset key

-- `memcmp(a, b, n) == 0` on two strings of `n` bytes.
abbrev pub same_bytes : List ℕ → List ℕ → Bool
same_bytes [] [] = true
same_bytes [] (b ∷ bs) = false
same_bytes (a ∷ as') [] = false
same_bytes (a ∷ as') (b ∷ bs) = a == b && same_bytes as' bs

-- `hashentry_t`, without the links.
pub record Entry (V : Type 0) : Type 0 where
  pub hash : ℕ
  pub keysize : ℕ
  pub key : List ℕ
  pub value : V

-- `hashtable_t`
pub record Table (V : Type 0) : Type 0 where
  pub entrycount : ℕ
  pub capacity : ℕ
  pub entries : List (List (Entry V))

module _ {V : Type 0} where
  -- The test of the loop in `getentry`.
  unfoldable pub fits : Entry V → List ℕ → ℕ → Bool
  fits e key hash = e.keysize == length key && (e.hash == hash && same_bytes e.key key)

  -- `getentry` along one chain.
  unfoldable pub find : List (Entry V) → List ℕ → ℕ → Option (Entry V)
  find [] key hash = none
  find (e ∷ es) key hash = if fits e key hash then some e else find es key hash

  -- `entry->value = value` for the entry that `getentry` finds.
  unfoldable pub assign : List (Entry V) → List ℕ → ℕ → V → List (Entry V)
  assign [] key hash v = []
  assign (e ∷ es) key hash v =
      if fits e key hash then record e { value = v } ∷ es else e ∷ assign es key hash v

  -- Taking the entry that `getentry` finds out of its chain.
  unfoldable pub unlink : List (Entry V) → List ℕ → ℕ → List (Entry V)
  unlink [] key hash = []
  unlink (e ∷ es) key hash = if fits e key hash then es else e ∷ unlink es key hash

  abbrev pub chain : Table V → ℕ → List (Entry V)
  chain t i = get_or t.entries i []

  unfoldable pub getentry : Table V → List ℕ → ℕ → Option (Entry V)
  unfolding find
  getentry t key hash = find (chain t (hash % t.capacity)) key hash

  -- `hashtable_set`; `slab` and `heap` say whether the two allocations succeed.
  unfoldable pub set_key : Table V → V → List ℕ → Bool → Bool → Bool → Table V × Status
  unfolding getentry assign
  set_key t v key allocate slab heap =
      let hash = fnv1ahash key in
      let offset = hash % t.capacity in
      elim (getentry t key hash) [
        | some e ↦
            (record t { entries = set t.entries offset (assign (chain t offset) key hash v) }, ok)
        | none ↦
            if allocate
            then if slab
              then if heap
                then (
                  record t {
                    entrycount = add64 t.entrycount 1;
                    entries = set t.entries offset (
                        record { hash = hash; keysize = length key; key = key; value = v }
                        ∷ chain t offset);
                  },
                  ok,
                )
                else (t, err enomem)
              else (t, err enomem)
            else (t, err enoent)
      ]

  -- `hashtable_get`
  unfoldable pub get_key : Table V → List ℕ → Option V
  unfolding getentry
  get_key t key = elim (getentry t key (fnv1ahash key)) [ none ↦ none | some e ↦ some e.value ]

  -- `hashtable_remove`
  unfoldable pub remove_key : Table V → List ℕ → Table V × Status
  unfolding getentry unlink
  remove_key t key =
      let hash = fnv1ahash key in
      let offset = hash % t.capacity in
      elim (getentry t key hash) [
        | none ↦ (t, err enoent)
        | some e ↦ (
          record t {
            entrycount = sub64 t.entrycount 1;
            entries = set t.entries offset (unlink (chain t offset) key hash);
          },
          ok,
        )
      ]

  -- `hashtable_init` of a table whose count is `count`: the function does not set that field.
  -- `cache` and `heap` say whether the allocations succeed; `alloc` gives zeroed memory.
  unfoldable pub init : ℕ → ℕ → Bool → Bool → Option (Table V) × Status
  init count size cache heap =
      if cache
      then if heap
        then (
          some (record { entrycount = count; capacity = size; entries = replicate size [] }),
          ok,
        )
        else (none, err enomem)
      else (none, err enomem)

  all_entries : List (List (Entry V)) → List (Entry V)
  all_entries [] = []
  all_entries (b ∷ bs) = b ++ all_entries bs

  -- `hashtable_destroy`: the entries freed, in the order of HASHTABLE_FOREACH.
  unfoldable pub destroy : Table V → List (Entry V)
  unfolding all_entries
  destroy t = all_entries t.entries
