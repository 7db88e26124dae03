-- ===== src/Frame/Chunks.antt =====
-- A stream of frames that is cut into chunks in any way.
use mathlib.Core.List.{append-nil, append_assoc}
use labs_for_linux_distribut.Base.{
  ℕ, zero, suc, ◌+◌, ◌≤◌, ◌≡◌, true, Option, List, [], ◌∷◌, ◌++◌, ℤ, pos, negsuc, int_ltb, arith,
  refl, sym, ap, subst, ◌∙◌, inl, inr, ltb, if◌then◌else◌, ◌==◌, nat_eq, Bool-cases, Result-cases,
  Result, ok, raise, length, length-append,
}
use labs_for_linux_distribut.Frame.{FrameError, value_error, unexpected_eof_error, encode_frame}
use labs_for_linux_distribut.Frame.Ring.{Ring, capacity, zeros, new_ring}
use labs_for_linux_distribut.Frame.Layout.{flat, Holds}
use labs_for_linux_distribut.Frame.Coding.{encode_frame-parts}
use labs_for_linux_distribut.Frame.Reader.{
  IncrementalFrameReader, actual_capacity, with_buffer, new_reader, Found, extend, and_then,
  drain_frames, feed_rounds, feed, finish, read_all, read_chunks,
}
use labs_for_linux_distribut.Frame.Stream.{Stream, Short, Progress}
use labs_for_linux_distribut.Frame.Feeds.{drain_frames-Progress, feed_rounds-Progress}

abbrev pub joined : List (List ℕ) → List ℕ
joined [] = []
joined (c ∷ cs) = c ++ joined cs

module _ (maximum limit : ℕ) where
  -- The reader has given all payloads back.
  abbrev Finished : List (List ℕ) → Found → Type 0
  Finished ps found = found.0 ≡ ok ps

  ended :
      (ps : List (List ℕ)) (q : List ℕ)
      → Stream maximum ps (q ++ [])
      → Short ps q
      → (ps ≡ []) × (length q ≡ 0)
  ended [] q stream short = (refl, ap length short)
  ended (p ∷ ps) q (h, tl, e, four, number, le, later) short = absurd (
      omega (
        arith,
        short,
        four,
        ap length (sym (append-nil q) ∙ e),
        length-append h (p ++ tl),
        length-append p tl,
      ))

  and_then-Finished :
      (ps : List (List ℕ)) (rest : List ℕ) (found : Found) (next : Ring → Found)
      → Progress maximum ps rest limit found
      → ((later : List (List ℕ)) (q : List ℕ) (u : Ring)
          → Holds u q
          → capacity u ≡ limit
          → Stream maximum later (q ++ rest)
          → Short later q
          → Finished later (next u))
      → Finished ps (and_then found next)
  and_then-Finished ps rest (ok gs, u) next (fs, later, q, e, parts, held, same, stream, short)
        after =
      let equal : gs ++ later ≡ ps = (let k : gs ≡ fs = cc in ap (λ l. l ++ later) k ∙ sym parts) in
      extended (next u) (after later q u held same stream short) ∙ ap ok equal
    where
      extended : (f : Found) → f.0 ≡ ok later → (extend gs f).0 ≡ ok (gs ++ later)
      extended (ok ls, v) k = (let l : ls ≡ later = cc in ap (λ m. ok (gs ++ m)) l)
      extended (raise x, v) k = absurd cc
  and_then-Finished ps rest (raise x, u) next (fs, later, q, e, parts, held, same, stream, short)
        after =
      absurd cc

  finish-Finished :
      (ps : List (List ℕ)) (q : List ℕ) (r : Ring)
      → Holds r q
      → capacity r ≡ limit
      → Stream maximum ps (q ++ [])
      → Finished ps (finish maximum r)
  unfolding finish
  finish-Finished ps q r held same stream =
      and_then-Finished ps [] (drain_frames maximum r)
        (λ t. if t.size == 0 then (ok [], t) else (raise unexpected_eof_error, t))
        (drain_frames-Progress maximum limit ps q [] r held same stream)
        (λ later k u held_u same_u stream_u short_u.
          let (none_left, empty) = ended later k stream_u short_u in
          let nobody : (u.size == 0) ≡ true = ground (arith, held_u.sized, empty) in
          rw (nobody) (ap ok (sym none_left)))

  read_all-Finished :
      (chunks : List (List ℕ)) (ps : List (List ℕ)) (q : List ℕ) (r : Ring)
      → 4 + maximum ≤ limit
      → Holds r q
      → capacity r ≡ limit
      → Stream maximum ps (q ++ joined chunks)
      → Short ps q
      → Finished ps (read_all chunks maximum r)
  unfolding read_all feed
  read_all-Finished [] ps q r roomy held same stream short = finish-Finished ps q r held same stream
  read_all-Finished (c ∷ cs) ps q r roomy held same stream short =
      and_then-Finished ps (joined cs) (feed_rounds (length c) maximum c r)
        (λ t. read_all cs maximum t)
        (feed_rounds-Progress maximum limit (length c) ps q c (joined cs) r (omega arith) roomy held
          same stream short)
        (λ later k u held_u same_u stream_u short_u.
          read_all-Finished cs later k u roomy held_u same_u stream_u short_u)

-- The frames of the payloads, one after the other.
abbrev pub appended :
    Result FrameError (List ℕ) → Result FrameError (List ℕ) → Result FrameError (List ℕ)
appended (raise e) rest = raise e
appended (ok f) (raise e) = raise e
appended (ok f) (ok rest) = ok (f ++ rest)

unfoldable pub encode_all : ℕ → List (List ℕ) → Result FrameError (List ℕ)
encode_all maximum [] = ok []
encode_all maximum (p ∷ ps) = appended (encode_frame maximum p) (encode_all maximum ps)

encode_all-Stream :
    (maximum : ℕ) (ps : List (List ℕ)) (bytes : List ℕ)
    → encode_all maximum ps ≡ ok bytes
    → Stream maximum ps bytes
unfolding encode_all
encode_all-Stream maximum [] bytes e = sym (let k : [] ≡ bytes = cc in k)
encode_all-Stream maximum (p ∷ ps) bytes e = elim (Result-cases (encode_frame maximum p)) [
  | inr (x, f) ↦ (let k : raise x ≡ ok bytes = rw (f) at e in absurd cc)
  | inl (frame, f) ↦ elim (Result-cases (encode_all maximum ps)) [
    | inr (x, g) ↦ (let k : raise x ≡ ok bytes = rw (f, g) at e in absurd cc)
    | inl (rest, g) ↦
        let k : ok (frame ++ rest) ≡ ok bytes = rw (f, g) at e in
        let whole : frame ++ rest ≡ bytes = cc in
        let (h, parts, four, number, le) = encode_frame-parts maximum p frame f in
        (
          h,
          rest,
          sym whole ∙ ap (λ l. l ++ rest) parts ∙ append_assoc h p rest,
          four,
          number,
          le,
          encode_all-Stream maximum ps rest g,
        )
  ]
]

length-zeros : (n : ℕ) → length (zeros n) ≡ n
unfolding zeros
length-zeros zero = refl
length-zeros (suc n) = ap suc (length-zeros n)

-- A reader that was constructed is empty, and has room for a frame of the maximum size.
abbrev Ready : ℕ → IncrementalFrameReader → Type 0
Ready maximum reader =
    (reader.maximum_frame_size ≡ maximum)
    × Holds reader.buffer []
    × (4 + maximum ≤ capacity reader.buffer)

new_reader-Ready :
    (maximum : ℕ) (buffer_capacity : Option ℤ) (reader : IncrementalFrameReader)
    → new_reader maximum buffer_capacity ≡ ok reader
    → Ready maximum reader
unfolding new_reader new_ring
new_reader-Ready maximum buffer_capacity reader e =
    go (actual_capacity (4 + maximum) buffer_capacity) e
  where
    go :
        (z : ℤ)
        → (if int_ltb z (pos (4 + maximum))
            then raise value_error
            else with_buffer maximum (new_ring z))
          ≡ ok reader
        → Ready maximum reader
    go (negsuc n) e = absurd cc
    go (pos zero) e =
        let small : ltb 0 (4 + maximum) ≡ true = ground arith in
        let k : raise value_error ≡ ok reader = rw (small) at e in absurd cc
    go (pos (suc c)) e = elim (Bool-cases (ltb (suc c) (4 + maximum))) [
      | inl small ↦ (let k : raise value_error ≡ ok reader = rw (small) at e in absurd cc)
      | inr large ↦
          let ring : Ring = record { storage = zeros (suc c); head = 0; size = 0 } in
          let built : IncrementalFrameReader = record {
            maximum_frame_size = maximum;
            buffer = ring;
          } in
          let k : ok built ≡ ok reader = rw (large) at e in
          let same : built ≡ reader = cc in
          let long = length-zeros (suc c) in
          subst (Ready maximum) same (
            refl,
            record {
              inside = omega (arith, long);
              sized = refl;
              layout = flat [] (zeros (suc c)) refl refl;
            },
            ground (arith, long, large),
          )
    ]

-- However the frames of the payloads are cut into chunks, a reader that was constructed with the same
-- maximum gives back the payloads in their order, and raises nothing.
pub read_chunks-joined :
    (maximum : ℕ) (buffer_capacity : Option ℤ) (reader : IncrementalFrameReader)
    (payloads chunks : List (List ℕ))
    → new_reader maximum buffer_capacity ≡ ok reader
    → encode_all maximum payloads ≡ ok (joined chunks)
    → (read_chunks chunks reader).0 ≡ ok payloads
unfolding read_chunks
read_chunks-joined maximum buffer_capacity reader payloads chunks made encoded =
    let (same, held, room) = new_reader-Ready maximum buffer_capacity reader made in
    let stream = encode_all-Stream maximum payloads (joined chunks) encoded in
    subst (λ m. (read_all chunks m reader.buffer).0 ≡ ok payloads) (sym same)
      (read_all-Finished maximum (capacity reader.buffer) chunks payloads [] reader.buffer room held
        refl stream (nothing-Short payloads))
  where
    nothing-Short : (ps : List (List ℕ)) → Short ps []
    nothing-Short [] = refl
    nothing-Short (p ∷ ps) = omega arith
