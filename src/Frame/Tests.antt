-- ===== src/Frame/Tests.antt =====
-- Frames and a ring buffer on concrete bytes.
use labs_for_linux_distribut.Base.{
  ◌⊎◌, ◌≤◌, ◌++◌, ℤ, positive, length, take, some, subst, ℕ, ◌≡◌, List, [], ◌∷◌, pos, refl, arith,
  ok, raise, none, All,
}
use labs_for_linux_distribut.Frame.{
  FrameError, to_bytes, from_bytes, encode_frame, parse_header, decode_frame, unexpected_eof_error,
  buffer_full_error,
}
use labs_for_linux_distribut.Frame.Coding.{
  IsByte, decode_frame-encode_frame, encode_frame-decode_frame,
}
use labs_for_linux_distribut.Frame.Reader.{
  IncrementalFrameReader, new_reader, drain_rounds, drain_frames, make_room, feed_rounds, feed,
  finish, read_all, read_chunks,
}
use mathlib.Core.List.{append-nil}
use labs_for_linux_distribut.Frame.Sender.{send_rounds, send_frame, Sent, send_frame-Sent}
use labs_for_linux_distribut.Frame.Chunks.{joined, encode_all, read_chunks-joined}
use labs_for_linux_distribut.Frame.Ring.{Ring, zeros, new_ring, overwrite, write, peek, read}
use labs_for_linux_distribut.Frame.Fifo.{
  Op, writes, reads, on_ring, ring_answers, queue_answers, ring_answers-same,
}

abbrev payload : List ℕ
payload = 104 ∷ 105 ∷ []

abbrev frame : List ℕ
frame = 0 ∷ 0 ∷ 0 ∷ 2 ∷ 104 ∷ 105 ∷ []

encoded : encode_frame 1048576 payload ≡ ok frame
unfolding encode_frame to_bytes
encoded = refl

decoded : decode_frame 1048576 frame ≡ ok payload
unfolding decode_frame parse_header from_bytes
decoded = refl

cut_off : decode_frame 1048576 (0 ∷ 0 ∷ 0 ∷ 3 ∷ 104 ∷ []) ≡ raise unexpected_eof_error
unfolding decode_frame parse_header from_bytes
cut_off = refl

abbrev ring : Ring
ring = record { storage = 0 ∷ 0 ∷ 0 ∷ 0 ∷ []; head = 0; size = 0 }

-- The second write goes around the end of the storage; the third does not fit.
abbrev ops : List Op
ops = writes (1 ∷ 2 ∷ 3 ∷ []) ∷ reads 2 ∷ writes (4 ∷ 5 ∷ 6 ∷ []) ∷ writes (7 ∷ []) ∷ reads 4 ∷ []

ring-new : new_ring (pos 4) ≡ ok ring
unfolding new_ring zeros
ring-new = refl

ring-answered :
    ring_answers ops ring
    ≡ ok [] ∷ ok (1 ∷ 2 ∷ []) ∷ ok [] ∷ raise buffer_full_error ∷ ok (3 ∷ 4 ∷ 5 ∷ 6 ∷ []) ∷ []
unfolding ring_answers on_ring write overwrite read peek
ring-answered = refl

frame-bytes : All IsByte frame
frame-bytes =
    (omega arith, (omega arith, (omega arith, (omega arith, (omega arith, (omega arith, tt))))))

decode_frame-encode_frame_example : decode_frame 1048576 frame ≡ ok payload
decode_frame-encode_frame_example = decode_frame-encode_frame 1048576 payload frame encoded

encode_frame-decode_frame_example : encode_frame 1048576 payload ≡ ok frame
encode_frame-decode_frame_example =
    encode_frame-decode_frame 1048576 frame payload (omega arith) frame-bytes decoded

ring_answers-same_example : ring_answers ops ring ≡ queue_answers 4 ops []
ring_answers-same_example = ring_answers-same (pos 4) 4 ring ops refl ring-new

abbrev reader : IncrementalFrameReader
reader = record {
  maximum_frame_size = 3;
  buffer = record { storage = 0 ∷ 0 ∷ 0 ∷ 0 ∷ 0 ∷ 0 ∷ 0 ∷ []; head = 0; size = 0 };
}

-- The frames of two payloads, in three chunks.
abbrev chunks : List (List ℕ)
chunks = (0 ∷ 0 ∷ []) ∷ (0 ∷ 2 ∷ 104 ∷ 105 ∷ 0 ∷ 0 ∷ 0 ∷ 1 ∷ []) ∷ (7 ∷ []) ∷ []

reader-new : new_reader 3 none ≡ ok reader
unfolding new_reader new_ring zeros
reader-new = refl

both-encoded : encode_all 3 ((104 ∷ 105 ∷ []) ∷ (7 ∷ []) ∷ []) ≡ ok (joined chunks)
unfolding encode_all encode_frame to_bytes
both-encoded = refl

both-read : (read_chunks chunks reader).0 ≡ ok ((104 ∷ 105 ∷ []) ∷ (7 ∷ []) ∷ [])
unfolding read_chunks read_all feed feed_rounds make_room drain_frames drain_rounds finish
    parse_header from_bytes write overwrite read peek
both-read = refl

read_chunks-joined_example : (read_chunks chunks reader).0 ≡ ok ((104 ∷ 105 ∷ []) ∷ (7 ∷ []) ∷ [])
read_chunks-joined_example =
    read_chunks-joined 3 none reader ((104 ∷ 105 ∷ []) ∷ (7 ∷ []) ∷ []) chunks reader-new
      both-encoded

-- A writer that takes two bytes at a time.
abbrev two_bytes : List ℕ → List ℕ → ℤ × List ℕ
two_bytes bytes w = (pos (length (take 2 bytes)), w ++ take 2 bytes)

two_bytes-honest :
    (bytes w : List ℕ) (n : ℕ)
    → positive (two_bytes bytes w).0 ≡ some n
    → (n ≤ length bytes) × (w ++ take 2 bytes ≡ w ++ take n bytes)
two_bytes-honest [] w n h = absurd cc
two_bytes-honest (a ∷ []) w n h =
    let e : 1 ≡ n = cc in
    subst (λ k. (k ≤ 1) × (w ++ a ∷ [] ≡ w ++ take k (a ∷ []))) e (omega arith, refl)
two_bytes-honest (a ∷ b ∷ bs) w n h =
    let e : 2 ≡ n = cc in
    subst (λ k. (k ≤ length (a ∷ b ∷ bs)) × (w ++ a ∷ b ∷ [] ≡ w ++ take k (a ∷ b ∷ bs))) e
      (omega arith, refl)

two_bytes-refusing :
    (bytes w : List ℕ) → positive (two_bytes bytes w).0 ≡ none → w ++ take 2 bytes ≡ w
two_bytes-refusing [] w h = append-nil w
two_bytes-refusing (a ∷ []) w h = absurd cc
two_bytes-refusing (a ∷ b ∷ bs) w h = absurd cc

all_sent : send_frame two_bytes 3 payload [] ≡ (ok 6, frame)
unfolding send_frame send_rounds encode_frame to_bytes
all_sent = refl

send_frame-Sent_example :
    ((f : List ℕ) × (encode_frame 3 payload ≡ ok f)
      × Sent (λ (w : List ℕ). w) f 0 [] (send_frame two_bytes 3 payload []))
    ⊎ ((e : FrameError) × (encode_frame 3 payload ≡ raise e)
        × (send_frame two_bytes 3 payload [] ≡ (raise e, [])))
send_frame-Sent_example =
    send_frame-Sent two_bytes (λ w. w) two_bytes-honest two_bytes-refusing 3 payload []
