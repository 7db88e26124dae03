-- ===== src/Frame/Ring.antt =====
-- `BoundedRingBuffer`. The size and the offset of `peek` are natural numbers, so its check for negative
-- ones has nothing to refuse.
use labs_for_linux_distribut.Base.{
  ℕ, zero, suc, ◌+◌, ◌-◌, ◌%◌, none, some, List, [], ◌∷◌, ◌++◌, ℤ, positive, ltb, if◌then◌else◌,
  ◌==◌, nat_eq, min, Result, ok, raise, length, take, drop,
}
use labs_for_linux_distribut.Frame.{
  FrameError, value_error, buffer_full_error, unexpected_eof_error,
}

pub record BoundedRingBuffer : Type 0 where
  pub storage : List ℕ
  pub head : ℕ
  pub size : ℕ

abbrev pub Ring : Type 0
Ring = BoundedRingBuffer

-- `bytearray(capacity)`
unfoldable pub zeros : ℕ → List ℕ
zeros zero = []
zeros (suc n) = 0 ∷ zeros n

unfoldable pub new_ring : ℤ → Result FrameError Ring
unfolding zeros
new_ring capacity = elim (positive capacity) [
  | none ↦ raise value_error
  | some n ↦ ok (record { storage = zeros n; head = 0; size = 0 })
]

abbrev pub capacity : Ring → ℕ
capacity r = length r.storage

abbrev pub free : Ring → ℕ
free r = capacity r - r.size

-- `storage[at : at + len(raw)] = raw`
unfoldable pub overwrite : ℕ → List ℕ → List ℕ → List ℕ
overwrite at_ raw storage = take at_ storage ++ raw ++ drop (at_ + length raw) storage

abbrev pub put_at : ℕ → ℕ → List ℕ → Ring → Ring
put_at tail first raw r = record r {
  storage = overwrite 0 (drop first raw) (overwrite tail (take first raw) r.storage);
  size = r.size + length raw;
}

unfoldable pub write : List ℕ → Ring → Result FrameError Ring
unfolding overwrite
write raw r =
    let tail = (r.head + r.size) % capacity r in
    if ltb (free r) (length raw)
    then raise buffer_full_error
    else ok (put_at tail (min (length raw) (capacity r - tail)) raw r)

abbrev pub slices : ℕ → ℕ → ℕ → List ℕ → List ℕ
slices start first size storage = take first (drop start storage) ++ take (size - first) storage

unfoldable pub peek : ℕ → ℕ → Ring → Result FrameError (List ℕ)
peek size offset r =
    let start = (r.head + offset) % capacity r in
    if ltb r.size (offset + size)
    then raise unexpected_eof_error
    else ok (slices start (min size (capacity r - start)) size r.storage)

abbrev pub moved : ℕ → Ring → Ring
moved size r =
    let left = r.size - size in
    record r { head = if left == 0 then 0 else (r.head + size) % capacity r; size = left }

abbrev pub read_out : ℕ → Ring → Result FrameError (List ℕ) → Result FrameError (List ℕ × Ring)
read_out size r (raise e) = raise e
read_out size r (ok data_) = ok (data_, moved size r)

unfoldable pub read : ℕ → Ring → Result FrameError (List ℕ × Ring)
unfolding peek
read size r = read_out size r (peek size 0 r)
