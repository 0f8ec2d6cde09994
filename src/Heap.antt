-- ===== src/Heap.antt =====
-- The kernel heap: kernel-src/mm/alloc.c. A cache goes by the capacity of its blocks; what
-- `slab_allocate` of a cache gives is an argument.
pub mod Realloc
mod Tests
use astral.Base.{
  ℕ, zero, suc, ◌+◌, ◌-◌, Bool, true, false, not, ◌&&◌, ◌||◌, Option, none, some, List, [], ◌∷◌,
  ◌==◌, ltb, leb, if◌then◌else◌,
}

-- A block: the two sizes before its data, and the data by position.
pub record Block : Type 0 where
  pub capacity : ℕ
  pub size : ℕ
  pub data_at : ℕ → ℕ

-- `allocsizes`
abbrev pub allocsizes : List ℕ
allocsizes = 32 ∷ 64 ∷ 128 ∷ 256 ∷ 512 ∷ 1024 ∷ 2048 ∷ 4096 ∷ 8192 ∷ 16384 ∷ 32768 ∷ 65536 ∷ []

-- The loop of `getcachefromsize`
abbrev pub find_cache : List ℕ → ℕ → Option ℕ
find_cache [] size = none
find_cache (a ∷ l) size = if leb size a then some a else find_cache l size

-- `getcachefromsize`; nothing where its assertion fails.
unfoldable pub getcachefromsize : ℕ → Option ℕ
getcachefromsize size = find_cache allocsizes size

-- `initarea`, which a cache runs on its blocks before they are given out.
abbrev pub initarea : ℕ → Block
initarea cache = record { capacity = cache; size = 0; data_at = λ k. 0 }

-- What `alloc` and `realloc` give.
pub data Given : Type 0 where
  given : Block → Given
  null : Given
  broken : Given

abbrev pub new_block : (ℕ → Bool) → ℕ → Option ℕ → Given
new_block memory size none = broken
new_block memory size (some cache) =
    if memory cache then given (record (initarea cache) { size = size }) else null

-- `alloc`
unfoldable pub alloc : (ℕ → Bool) → ℕ → Given
alloc memory size = new_block memory size (getcachefromsize size)

-- `free`: the cache that the block goes back to.
unfoldable pub free : Block → Option ℕ
free b = getcachefromsize b.capacity

-- `memset` to zero of the bytes from `first` on up to `last`, and `memcpy` of the first `n` bytes.
abbrev pub zero_bytes : (ℕ → ℕ) → ℕ → ℕ → ℕ → ℕ
zero_bytes f first last k = if leb first k && ltb k last then 0 else f k

abbrev pub copy_bytes : (ℕ → ℕ) → (ℕ → ℕ) → ℕ → ℕ → ℕ
copy_bytes f g n k = if ltb k n then g k else f k

-- `realloc` of a block that has to grow.
abbrev pub grow_between : (ℕ → Bool) → Block → ℕ → Option ℕ → Option ℕ → Given
grow_between memory b size none new = broken
grow_between memory b size (some old) none = broken
grow_between memory b size (some old) (some new) =
    if old == new
    then given (record b { size = size; data_at = zero_bytes b.data_at b.size size })
    else if memory new
    then given (record (initarea new) {
      size = size;
      data_at = copy_bytes (initarea new).data_at b.data_at b.size;
    })
    else null

unfoldable pub realloc : (ℕ → Bool) → Block → ℕ → Given
unfolding getcachefromsize
realloc memory b size =
    if leb size b.size
    then given (record b { size = size })
    else grow_between memory b size (getcachefromsize b.capacity) (getcachefromsize size)
