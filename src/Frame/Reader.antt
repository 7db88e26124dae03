-- ===== src/Frame/Reader.antt =====
-- `IncrementalFrameReader`. What a call has collected when it raises is lost, as in the source; the
-- buffer stays as it was left.
use labs_for_linux_distribut.Base.{
  ℕ, zero, suc, ◌+◌, Option, none, some, List, [], ◌∷◌, ◌++◌, ℤ, pos, negsuc, int_ltb, ltb,
  if◌then◌else◌, ◌==◌, nat_eq, min, Result, ok, raise, length, take, drop,
}
use labs_for_linux_distribut.Frame.{
  FrameError, value_error, buffer_full_error, unexpected_eof_error, header_size, parse_header,
}
use labs_for_linux_distribut.Frame.Ring.{Ring, free, new_ring, write, peek, read}

pub record IncrementalFrameReader : Type 0 where
  pub maximum_frame_size : ℕ
  pub buffer : Ring

-- `buffer_capacity or minimum_capacity`
abbrev pub actual_capacity : ℕ → Option ℤ → ℤ
actual_capacity minimum none = pos minimum
actual_capacity minimum (some (pos zero)) = pos minimum
actual_capacity minimum (some (pos (suc n))) = pos (suc n)
actual_capacity minimum (some (negsuc n)) = negsuc n

abbrev pub with_buffer : ℕ → Result FrameError Ring → Result FrameError IncrementalFrameReader
with_buffer maximum (raise e) = raise e
with_buffer maximum (ok ring) = ok (record { maximum_frame_size = maximum; buffer = ring })

unfoldable pub new_reader : ℕ → Option ℤ → Result FrameError IncrementalFrameReader
new_reader maximum buffer_capacity =
    let actual = actual_capacity (header_size + maximum) buffer_capacity in
    if int_ltb actual (pos (header_size + maximum))
    then raise value_error
    else with_buffer maximum (new_ring actual)

-- The frames that a call has found, or its exception, and the buffer after it.
abbrev pub Found : Type 0
Found = Result FrameError (List (List ℕ)) × Ring

-- `frames.extend(...)`
abbrev pub extend : List (List ℕ) → Found → Found
extend frames (raise e, r) = (raise e, r)
extend frames (ok more, r) = (ok (frames ++ more), r)

abbrev pub and_then : Found → (Ring → Found) → Found
and_then (raise e, r) next = (raise e, r)
and_then (ok frames, r) next = extend frames (next r)

abbrev pub parsed : ℕ → Result FrameError (List ℕ) → Result FrameError ℕ
parsed maximum (raise e) = raise e
parsed maximum (ok header) = parse_header maximum header

abbrev pub read_payload : Ring → Result FrameError (List ℕ × Ring) → Found
read_payload r (raise e) = (raise e, r)
read_payload r (ok (payload, t)) = (ok (payload ∷ []), t)

abbrev pub read_frame : ℕ → Ring → Result FrameError (List ℕ × Ring) → Found
read_frame payload_length r (raise e) = (raise e, r)
read_frame payload_length r (ok (header, t)) = read_payload t (read payload_length t)

-- `_drain_frames`. Each round reads a header at least, so the bytes in the buffer are enough fuel.
unfoldable pub drain_rounds : ℕ → ℕ → Ring → Found
drain_rounds zero maximum r = (ok [], r)
drain_rounds (suc fuel) maximum r =
    let more = λ (payload_length : ℕ).
      and_then (read_frame payload_length r (read header_size r))
        (λ t. drain_rounds fuel maximum t) in
    if ltb r.size header_size then (ok [], r) else elim (parsed maximum (peek header_size 0 r)) [
      | raise e ↦ (raise e, r)
      | ok payload_length ↦
          if ltb r.size (header_size + payload_length) then (ok [], r) else more payload_length
    ]

unfoldable pub drain_frames : ℕ → Ring → Found
drain_frames maximum r = drain_rounds r.size maximum r

-- A full buffer has to give frames up.
abbrev pub progress : Found → Found
progress (raise e, r) = (raise e, r)
progress (ok [], r) = (raise buffer_full_error, r)
progress (ok (f ∷ fs), r) = (ok (f ∷ fs), r)

unfoldable pub make_room : ℕ → Ring → Found
make_room maximum r = if free r == 0 then progress (drain_frames maximum r) else (ok [], r)

abbrev pub accepted : List ℕ → Ring → ℕ
accepted remaining r = min (length remaining) (free r)

abbrev pub drain_written : ℕ → Ring → Result FrameError Ring → Found
drain_written maximum r (raise e) = (raise e, r)
drain_written maximum r (ok t) = drain_frames maximum t

-- The loop of `feed`. Each round accepts a byte at least, so the bytes of the chunk are enough fuel.
unfoldable pub feed_rounds : ℕ → ℕ → List ℕ → Ring → Found
unfolding make_room
feed_rounds zero maximum remaining r = (ok [], r)
feed_rounds (suc fuel) maximum [] r = (ok [], r)
feed_rounds (suc fuel) maximum (b ∷ bs) r = and_then (make_room maximum r) (λ t.
    let n = accepted (b ∷ bs) t in
    and_then (drain_written maximum t (write (take n (b ∷ bs)) t))
      (λ u. feed_rounds fuel maximum (drop n (b ∷ bs)) u))

unfoldable pub feed : List ℕ → ℕ → Ring → Found
feed chunk maximum r = feed_rounds (length chunk) maximum chunk r

unfoldable pub finish : ℕ → Ring → Found
finish maximum r =
    and_then (drain_frames maximum r)
      (λ t. if t.size == 0 then (ok [], t) else (raise unexpected_eof_error, t))

unfoldable pub read_all : List (List ℕ) → ℕ → Ring → Found
read_all [] maximum r = finish maximum r
read_all (chunk ∷ chunks) maximum r =
    and_then (feed chunk maximum r) (λ t. read_all chunks maximum t)

unfoldable pub read_chunks :
    List (List ℕ)
    → IncrementalFrameReader
    → Result FrameError (List (List ℕ)) × IncrementalFrameReader
read_chunks chunks reader =
    let found = read_all chunks reader.maximum_frame_size reader.buffer in
    (found.0, record reader { buffer = found.1 })
