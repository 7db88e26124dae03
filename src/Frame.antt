-- ===== src/Frame.antt =====
-- labs/16-framed-protocol/src/lab_16_framed_protocol/framing.py: frames in memory. Bytes are natural
-- numbers, and nothing here keeps them below 256.
pub mod Ring
pub mod Layout
pub mod Writes
pub mod Reads
pub mod Fifo
pub mod Coding
pub mod Reader
pub mod Stream
pub mod Feeds
pub mod Chunks
pub mod Sender
mod Tests
use labs_for_linux_distribut.Base.{
  ℕ, ◌+◌, ◌*◌, ◌/◌, ◌%◌, Bool, true, false, List, [], ◌∷◌, ◌++◌, ltb, if◌then◌else◌, ◌==◌, nat_eq,
  Result, ok, raise, length, take, drop,
}

pub data FrameError : Type 0 where
  value_error frame_too_large_error buffer_full_error unexpected_eof_error connection_error
        overflow_error :
      FrameError

abbrev pub header_size : ℕ
header_size = 4

-- `n.to_bytes(4, "big")`
unfoldable pub to_bytes : ℕ → Result FrameError (List ℕ)
to_bytes n =
    if ltb n 4294967296
    then ok (n / 16777216 ∷ n / 65536 % 256 ∷ n / 256 % 256 ∷ n % 256 ∷ [])
    else raise overflow_error

-- `int.from_bytes(bytes, "big")`
unfoldable pub from_bytes : ℕ → List ℕ → ℕ
from_bytes high [] = high
from_bytes high (b ∷ bs) = from_bytes (high * 256 + b) bs

abbrev pub after_header : List ℕ → Result FrameError (List ℕ) → Result FrameError (List ℕ)
after_header payload (raise e) = raise e
after_header payload (ok header) = ok (header ++ payload)

unfoldable pub encode_frame : ℕ → List ℕ → Result FrameError (List ℕ)
unfolding to_bytes
encode_frame maximum_frame_size payload =
    if ltb maximum_frame_size (length payload)
    then raise frame_too_large_error
    else after_header payload (to_bytes (length payload))

-- `_parse_header`
unfoldable pub parse_header : ℕ → List ℕ → Result FrameError ℕ
unfolding from_bytes
parse_header maximum_frame_size frame =
    let payload_length = from_bytes 0 (take header_size frame) in
    if ltb (length frame) header_size
    then raise unexpected_eof_error
    else if ltb maximum_frame_size payload_length
    then raise frame_too_large_error
    else ok payload_length

abbrev pub payload_of : List ℕ → Result FrameError ℕ → Result FrameError (List ℕ)
payload_of payload (raise e) = raise e
payload_of payload (ok payload_length) =
    if length payload == payload_length then ok payload else raise unexpected_eof_error

unfoldable pub decode_frame : ℕ → List ℕ → Result FrameError (List ℕ)
unfolding parse_header
decode_frame maximum_frame_size frame =
    payload_of (drop header_size frame) (parse_header maximum_frame_size frame)
