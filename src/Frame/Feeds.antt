-- ===== src/Frame/Feeds.antt =====
-- What `feed` finds in a chunk of a stream.
use mathlib.Core.List.{append_assoc}
use labs_for_linux_distribut.Base.{
  ℕ, zero, suc, ◌+◌, ◌≤◌, ◌<◌, ◌≡◌, false, List, [], ◌∷◌, ◌++◌, arith, sym, ap, subst, ◌∙◌, ◌==◌,
  nat_eq, ok, raise, length, length-append, take, drop,
}
use labs_for_linux_distribut.Frame.Ring.{Ring, capacity, free}
use labs_for_linux_distribut.Frame.Layout.{Holds, take-append, drop-append, split_at}
use labs_for_linux_distribut.Frame.Writes.{write-Written}
use labs_for_linux_distribut.Frame.Reader.{
  Found, extend, and_then, drain_frames, make_room, accepted, feed_rounds,
}
use labs_for_linux_distribut.Frame.Stream.{
  Stream, Short, Progress, extend-Progress, stays-Progress, drain_rounds-Progress,
}

module _ (maximum limit : ℕ) where
  -- What a call does after the frames that the first call has found.
  and_then-Progress :
      (ps : List (List ℕ)) (rest1 rest2 : List ℕ) (found : Found) (next : Ring → Found)
      → Progress maximum ps rest1 limit found
      → ((later : List (List ℕ)) (q : List ℕ) (u : Ring)
          → Holds u q
          → capacity u ≡ limit
          → Stream maximum later (q ++ rest1)
          → Short later q
          → Progress maximum later rest2 limit (next u))
      → Progress maximum ps rest2 limit (and_then found next)
  and_then-Progress ps rest1 rest2 (ok gs, u) next
        (fs, later, q, e, parts, held, same, stream, short) after =
      let equal : gs ++ later ≡ ps = (let k : gs ≡ fs = cc in ap (λ l. l ++ later) k ∙ sym parts) in
      subst (λ l. Progress maximum l rest2 limit (extend gs (next u))) equal
        (extend-Progress maximum limit gs later rest2 (next u)
          (after later q u held same stream short))
  and_then-Progress ps rest1 rest2 (raise x, u) next
        (fs, later, q, e, parts, held, same, stream, short) after =
      absurd cc

  pub drain_frames-Progress :
      (ps : List (List ℕ)) (q rest : List ℕ) (r : Ring)
      → Holds r q
      → capacity r ≡ limit
      → Stream maximum ps (q ++ rest)
      → Progress maximum ps rest limit (drain_frames maximum r)
  unfolding drain_frames
  drain_frames-Progress ps q rest r held same stream =
      drain_rounds-Progress maximum limit r.size ps q rest r (omega (arith, held.sized)) held same
        stream

  Short-lt :
      (ps : List (List ℕ)) (q rest : List ℕ)
      → 4 + maximum ≤ limit
      → Stream maximum ps (q ++ rest)
      → Short ps q
      → length q < limit
  Short-lt [] q rest roomy stream short = omega (arith, roomy, ap length short)
  Short-lt (p ∷ ps) q rest roomy (h, tl, e, four, number, le, later) short =
      omega (arith, roomy, le, short)

  pub feed_rounds-Progress :
      (fuel : ℕ) (ps : List (List ℕ)) (q chunk rest : List ℕ) (r : Ring)
      → length chunk ≤ fuel
      → 4 + maximum ≤ limit
      → Holds r q
      → capacity r ≡ limit
      → Stream maximum ps (q ++ (chunk ++ rest))
      → Short ps q
      → Progress maximum ps rest limit (feed_rounds fuel maximum chunk r)
  unfolding feed_rounds make_room
  feed_rounds-Progress zero ps q [] rest r enough roomy held same stream short =
      stays-Progress maximum limit ps q rest r held same stream short
  feed_rounds-Progress zero ps q (b ∷ bs) rest r enough roomy held same stream short =
      absurd (omega (arith, enough))
  feed_rounds-Progress (suc fuel) ps q [] rest r enough roomy held same stream short =
      stays-Progress maximum limit ps q rest r held same stream short
  feed_rounds-Progress (suc fuel) ps q (b ∷ bs) rest r enough roomy held same stream short =
      let chunk = b ∷ bs in
      let n = accepted chunk r in
      let room = Short-lt ps q (chunk ++ rest) roomy stream short in
      let not_full : (free r == 0) ≡ false = ground (arith, room, same, held.sized) in
      let (c1, c2, parts, len) = split_at n chunk (ground arith) in
      let front : take n chunk ≡ c1 = ap (take n) parts ∙ take-append n c1 c2 len in
      let back : drop n chunk ≡ c2 = ap (drop n) parts ∙ drop-append n c1 c2 len in
      let (t, e, held_t, same_t) = write-Written c1 q r held (ground (arith, len)) in
      let joined_ : q ++ (chunk ++ rest) ≡ q ++ c1 ++ (c2 ++ rest) =
        ap (λ k. q ++ (k ++ rest)) parts ∙ simp append_assoc in
      let drained =
        drain_frames-Progress ps (q ++ c1) (c2 ++ rest) t held_t (same_t ∙ same)
          (subst (Stream maximum ps) joined_ stream) in
      let fewer : length c2 ≤ fuel =
        ground (arith, enough, ap length parts, length-append c1 c2, len, room, same, held.sized) in
      rw (not_full, front, back, e)
        (extend-Progress maximum limit [] ps rest _ (
          and_then-Progress ps (c2 ++ rest) rest (drain_frames maximum t)
            (λ u. feed_rounds fuel maximum c2 u) drained
            (λ later k u held_u same_u stream_u short_u.
              feed_rounds-Progress fuel later k c2 rest u fewer roomy held_u same_u stream_u
                short_u)))
