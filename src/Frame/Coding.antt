-- ===== src/Frame/Coding.antt =====
-- A frame that is encoded and decoded again.
use labs_for_linux_distribut.Base.{
  ℕ, ◌/◌, ◌%◌, ◌≤◌, ◌<◌, ◌≡◌, true, false, List, [], ◌∷◌, ◌++◌, arith, refl, sym, ap, subst, inl,
  inr, ltb, ◌==◌, nat_eq, nat_beq_iff, Bool-cases, Result-cases, ◌∙◌, All, ok, raise, length, take,
  drop,
}
use labs_for_linux_distribut.Frame.{
  overflow_error, frame_too_large_error, unexpected_eof_error, to_bytes, from_bytes, encode_frame,
  parse_header, decode_frame,
}

from_bytes-to_bytes :
    (n : ℕ) (header : List ℕ)
    → to_bytes n ≡ ok header
    → (from_bytes 0 header ≡ n) × (length header ≡ 4)
unfolding to_bytes from_bytes
from_bytes-to_bytes n header h = elim (Bool-cases (ltb n 4294967296)) [
  | inl small ↦
      let k : ok (n / 16777216 ∷ n / 65536 % 256 ∷ n / 256 % 256 ∷ n % 256 ∷ []) ≡ ok header =
        rw (small, to_bytes) at h in
      let e : (n / 16777216 ∷ n / 65536 % 256 ∷ n / 256 % 256 ∷ n % 256 ∷ []) ≡ header = cc in
      subst (λ x. (from_bytes 0 x ≡ n) × (length x ≡ 4)) e (omega arith, refl)
  | inr large ↦ (let k : raise overflow_error ≡ ok header = rw (large, to_bytes) at h in absurd cc)
]

-- What a byte is in the model.
abbrev pub IsByte : ℕ → Type 0
IsByte b = b < 256

parse_header-with_header :
    (maximum n a b c d : ℕ) (payload : List ℕ)
    → from_bytes 0 (a ∷ b ∷ c ∷ d ∷ []) ≡ n
    → n ≤ maximum
    → parse_header maximum (a ∷ b ∷ c ∷ d ∷ payload) ≡ ok n
unfolding parse_header
parse_header-with_header maximum n a b c d payload e le =
    let long : ltb (length (a ∷ b ∷ c ∷ d ∷ payload)) 4 ≡ false = ground arith in
    let small : ltb maximum n ≡ false = ground (arith, le) in rw (long, e, small) refl

decode-with_header :
    (maximum n : ℕ) (header payload : List ℕ)
    → length header ≡ 4
    → from_bytes 0 header ≡ n
    → n ≤ maximum
    → length payload ≡ n
    → decode_frame maximum (header ++ payload) ≡ ok payload
unfolding decode_frame
decode-with_header maximum n (a ∷ b ∷ c ∷ d ∷ []) payload four e le len =
    let same : (length payload == n) ≡ true = ground (arith, nat_beq_iff (length payload) n, len) in
    rw (parse_header-with_header maximum n a b c d payload e le, same) refl
decode-with_header maximum n [] payload four e le len = absurd (omega (arith, four))
decode-with_header maximum n (a ∷ []) payload four e le len = absurd (omega (arith, four))
decode-with_header maximum n (a ∷ b ∷ []) payload four e le len = absurd (omega (arith, four))
decode-with_header maximum n (a ∷ b ∷ c ∷ []) payload four e le len = absurd (omega (arith, four))
decode-with_header maximum n (a ∷ b ∷ c ∷ d ∷ x ∷ xs) payload four e le len =
    absurd (omega (arith, four))

-- A frame is a header of four bytes, which says the length of the payload, and the payload.
pub encode_frame-parts :
    (maximum : ℕ) (payload frame : List ℕ)
    → encode_frame maximum payload ≡ ok frame
    → (header : List ℕ) × (frame ≡ header ++ payload)
      × (length header ≡ 4)
      × (from_bytes 0 header ≡ length payload)
      × (length payload ≤ maximum)
unfolding encode_frame
encode_frame-parts maximum payload frame h = elim (Bool-cases (ltb maximum (length payload))) [
  | inl large ↦
      (let k : raise frame_too_large_error ≡ ok frame = rw (large, encode_frame) at h in absurd cc)
  | inr fits ↦ elim (Result-cases (to_bytes (length payload))) [
    | inr (x, e) ↦ (let k : raise x ≡ ok frame = rw (fits, encode_frame, e) at h in absurd cc)
    | inl (header, e) ↦
        let k : ok (header ++ payload) ≡ ok frame = rw (fits, encode_frame, e) at h in
        let same : header ++ payload ≡ frame = cc in
        let (number, four) = from_bytes-to_bytes (length payload) header e in
        (header, sym same, four, number, ground (arith, fits))
  ]
]

-- A frame that `encode_frame` makes decodes, under the same maximum, to the payload that it was made of.
pub decode_frame-encode_frame :
    (maximum : ℕ) (payload frame : List ℕ)
    → encode_frame maximum payload ≡ ok frame
    → decode_frame maximum frame ≡ ok payload
decode_frame-encode_frame maximum payload frame h =
    let (header, parts, four, number, fits) = encode_frame-parts maximum payload frame h in
    subst (λ f. decode_frame maximum f ≡ ok payload) (sym parts)
      (decode-with_header maximum (length payload) header payload four number fits refl)

decode-number :
    (maximum : ℕ) (frame payload : List ℕ)
    → decode_frame maximum frame ≡ ok payload
    → (4 ≤ length frame)
      × (length payload ≡ from_bytes 0 (take 4 frame))
      × (length payload ≤ maximum)
      × (payload ≡ drop 4 frame)
unfolding decode_frame parse_header
decode-number maximum frame payload h = elim (Bool-cases (ltb (length frame) 4)) [
  | inl short ↦
      (let k : raise unexpected_eof_error ≡ ok payload =
          rw (short, decode_frame, parse_header) at h in
        absurd cc)
  | inr long ↦ elim (Bool-cases (ltb maximum (from_bytes 0 (take 4 frame)))) [
    | inl large ↦
        (let k : raise frame_too_large_error ≡ ok payload =
            rw (long, decode_frame, parse_header, large) at h in
          absurd cc)
    | inr fits ↦ elim (Bool-cases (length (drop 4 frame) == from_bytes 0 (take 4 frame))) [
      | inl same ↦
          let k : ok (drop 4 frame) ≡ ok payload =
            rw (long, decode_frame, parse_header, fits, same) at h in
          let e : drop 4 frame ≡ payload = cc in
          let number : length (drop 4 frame) ≡ from_bytes 0 (take 4 frame) =
            (nat_beq_iff (length (drop 4 frame)) (from_bytes 0 (take 4 frame))).0 same in
          (
            ground (arith, long),
            ap length (sym e) ∙ number,
            ground (arith, ap length e, number, fits),
            sym e,
          )
      | inr other ↦
          (let k : raise unexpected_eof_error ≡ ok payload =
              rw (long, decode_frame, parse_header, fits, other) at h in
            absurd cc)
    ]
  ]
]

to_bytes-from_bytes :
    (a b c d : ℕ)
    → a < 256
    → b < 256
    → c < 256
    → d < 256
    → to_bytes (from_bytes 0 (a ∷ b ∷ c ∷ d ∷ [])) ≡ ok (a ∷ b ∷ c ∷ d ∷ [])
unfolding to_bytes from_bytes
to_bytes-from_bytes a b c d ha hb hc hd =
    let n = from_bytes 0 (a ∷ b ∷ c ∷ d ∷ []) in
    let small : ltb n 4294967296 ≡ true = ground (arith, ha, hb, hc, hd) in
    let first : n / 16777216 ≡ a = omega (arith, ha, hb, hc, hd) in
    let second : n / 65536 % 256 ≡ b = omega (arith, ha, hb, hc, hd) in
    let third : n / 256 % 256 ≡ c = omega (arith, ha, hb, hc, hd) in
    let fourth : n % 256 ≡ d = omega (arith, ha, hb, hc, hd) in
    rw (small, first, second, third, fourth) refl

-- A frame of bytes that decodes under a maximum below 2 ^ 32 is what `encode_frame` makes of the
-- payload, so no two frames decode to the same payload.
pub encode_frame-decode_frame :
    (maximum : ℕ) (frame payload : List ℕ)
    → maximum < 4294967296
    → All IsByte frame
    → decode_frame maximum frame ≡ ok payload
    → encode_frame maximum payload ≡ ok frame
unfolding encode_frame
encode_frame-decode_frame maximum frame payload below bytes h =
    let (long, number, fits, rest) = decode-number maximum frame payload h in
    go frame bytes long number rest fits
  where
    go :
        (f : List ℕ)
        → All IsByte f
        → 4 ≤ length f
        → length payload ≡ from_bytes 0 (take 4 f)
        → payload ≡ drop 4 f
        → length payload ≤ maximum
        → encode_frame maximum payload ≡ ok f
    go [] bytes long number rest fits = absurd (omega (arith, long))
    go (a ∷ []) bytes long number rest fits = absurd (omega (arith, long))
    go (a ∷ b ∷ []) bytes long number rest fits = absurd (omega (arith, long))
    go (a ∷ b ∷ c ∷ []) bytes long number rest fits = absurd (omega (arith, long))
    go (a ∷ b ∷ c ∷ d ∷ p) bytes long number rest fits =
        let small : ltb maximum (length payload) ≡ false = ground (arith, fits) in
        let header : to_bytes (length payload) ≡ ok (a ∷ b ∷ c ∷ d ∷ []) =
          ap to_bytes number
          ∙ to_bytes-from_bytes a b c d bytes.0 bytes.1.0 bytes.1.1.0 bytes.1.1.1.0 in
        rw (small, header) (ap (λ l. ok (a ∷ b ∷ c ∷ d ∷ l)) rest)
