-- ===== src/RingBuffer/Ends.antt =====
-- `ringbuffer_truncate` and `ringbuffer_remove`: dropping bytes at either end of the queue.
use astral.Base.{
  ℕ, zero, suc, ◌+◌, ◌-◌, ◌%◌, ◌≤◌, ◌<◌, ◌≡◌, refl, sym, ap, List, ◌∷◌, get_or, length, arith, min,
  take, drop, long_max, min_long, add64, sub64,
}
use astral.RingBuffer.{Ring, data_count, truncate, remove}
use astral.RingBuffer.Valid.{IsValid, span, contents, length-span, data_count-eq-length}

pub take-span :
    (buf : List ℕ) (size p n k : ℕ) → n ≤ k → take n (span buf size p k) ≡ span buf size p n
take-span buf size p zero k h = refl
take-span buf size p (suc n) zero h = absurd (omega arith)
take-span buf size p (suc n) (suc k) h =
    ap (λ t. get_or buf (p % size) 0 ∷ t) (take-span buf size (p + 1) n k (omega arith))

pub drop-span :
    (buf : List ℕ) (size p n k : ℕ)
    → n ≤ k
    → drop n (span buf size p k) ≡ span buf size (p + n) (k - n)
drop-span buf size p zero k h =
    let e : p + 0 ≡ p = omega arith in let f : k - 0 ≡ k = omega arith in rw (e, f)
drop-span buf size p (suc n) zero h = absurd (omega arith)
drop-span buf size p (suc n) (suc k) h =
    let e : p + suc n ≡ p + 1 + n = omega arith in
    let f : suc k - suc n ≡ k - n = omega arith in
    rw (e, f) (drop-span buf size (p + 1) n k (omega arith))

-- How many bytes an operation on the bytes held takes of those asked for.
abbrev pub held_count : Ring → ℕ → ℕ
held_count r count = min count (length (contents r))

pub held_count_lem :
    {r : Ring} (count : ℕ)
    → IsValid r
    → count < long_max
    → (min_long count (data_count r) ≡ held_count r count)
      × (min_long (data_count r) count ≡ held_count r count)
      × (held_count r count ≤ r.write - r.read)
held_count_lem {r} count v h = rw (data_count-eq-length v) (
  ground (arith, v.small, v.fits, length-span r.bytes r.size r.read (r.write - r.read)),
  ground (arith, v.small, v.fits, length-span r.bytes r.size r.read (r.write - r.read)),
  omega (arith, length-span r.bytes r.size r.read (r.write - r.read)),
)

-- Advancing the read position drops bytes at the front.
pub advanced :
    {r : Ring} (n : ℕ)
    → IsValid r
    → n ≤ r.write - r.read
    → (contents (record r { read = add64 r.read n }) ≡ drop n (contents r))
      × IsValid (record r { read = add64 r.read n })
advanced {r} n v h =
    let e : add64 r.read n ≡ r.read + n = omega (arith, v) in
    let f : r.write - (r.read + n) ≡ r.write - r.read - n = omega arith in
    rw (e, f) (sym (drop-span r.bytes r.size r.read n (r.write - r.read) h), omega (arith, v))

-- `ringbuffer_truncate` of a valid ring drops the oldest bytes, as many as asked for and held, returns
-- their number, and keeps the ring valid. The count is no negative `long`.
pub truncate_lem :
    {r : Ring} (count : ℕ)
    → IsValid r
    → count < long_max
    → let (r', n) = truncate r count in
      (n ≡ held_count r count) × (contents r' ≡ drop n (contents r)) × IsValid r'
unfolding truncate
truncate_lem {r} count v h =
    let (_, e, le) = held_count_lem count v h in
    let (c, w) = advanced (held_count r count) v le in rw e (refl, c, w)

-- `ringbuffer_remove` of a valid ring drops the newest bytes, as many as asked for and held, returns
-- their number, and keeps the ring valid. The count is no negative `long`.
pub remove_lem :
    {r : Ring} (count : ℕ)
    → IsValid r
    → count < long_max
    → let (r', n) = remove r count in
      (n ≡ held_count r count)
      × (contents r' ≡ take (length (contents r) - n) (contents r))
      × IsValid r'
unfolding remove
remove_lem {r} count v h =
    let (_, e, le) = held_count_lem count v h in
    let n = held_count r count in
    let f : sub64 r.write n ≡ r.write - n = omega (arith, v) in
    let g : length (contents r) - n ≡ r.write - n - r.read =
      omega (arith, length-span r.bytes r.size r.read (r.write - r.read)) in
    rw (e, f)
      (
        refl,
        rw g (
            sym (
              take-span r.bytes r.size r.read (r.write - n - r.read) (r.write - r.read)
                (omega arith))),
        omega (arith, v),
      )
