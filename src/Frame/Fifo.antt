-- ===== src/Frame/Fifo.antt =====
-- The ring buffer against a queue of bytes of bounded length.
use labs_for_linux_distribut.Base.{
  ℕ, ◌+◌, ◌≤◌, ◌≡◌, true, some, List, [], ◌∷◌, ◌++◌, ℤ, positive, positive-le, arith, refl, ap,
  subst, ◌∙◌, inl, inr, ltb, if◌then◌else◌, Bool-cases, Result, ok, raise, length, take, drop,
}
use labs_for_linux_distribut.Frame.{FrameError, buffer_full_error, unexpected_eof_error}
use labs_for_linux_distribut.Frame.Ring.{Ring, capacity, free, zeros, new_ring, write, peek, read}
use labs_for_linux_distribut.Frame.Layout.{
  Holds-le, length-zeros, flat, Holds, take-append, drop-append,
}
use labs_for_linux_distribut.Frame.Writes.{write-Written}
use labs_for_linux_distribut.Frame.Reads.{read-WasRead}

pub data Op : Type 0 where
  writes : List ℕ → Op
  reads : ℕ → Op

abbrev pub Answer : Type 0
Answer = Result FrameError (List ℕ)

-- A call that raises leaves the ring as it is; a write answers with nothing.
abbrev written_or : Ring → Result FrameError Ring → Answer × Ring
written_or r (ok t) = (ok [], t)
written_or r (raise e) = (raise e, r)

abbrev read_or : Ring → Result FrameError (List ℕ × Ring) → Answer × Ring
read_or r (ok (l, t)) = (ok l, t)
read_or r (raise e) = (raise e, r)

unfoldable pub on_ring : Op → Ring → Answer × Ring
on_ring (writes raw) r = written_or r (write raw r)
on_ring (reads n) r = read_or r (read n r)

-- The queue that the ring stands for.
unfoldable pub on_queue : ℕ → Op → List ℕ → Answer × List ℕ
on_queue limit (writes raw) q =
    if ltb limit (length q + length raw) then (raise buffer_full_error, q) else (ok [], q ++ raw)
on_queue limit (reads n) q =
    if ltb (length q) n then (raise unexpected_eof_error, q) else (ok (take n q), drop n q)

unfoldable pub ring_answers : List Op → Ring → List Answer
unfolding on_ring
ring_answers [] r = []
ring_answers (o ∷ os) r = (on_ring o r).0 ∷ ring_answers os (on_ring o r).1

unfoldable pub queue_answers : ℕ → List Op → List ℕ → List Answer
unfolding on_queue
queue_answers limit [] q = []
queue_answers limit (o ∷ os) q =
    (on_queue limit o q).0 ∷ queue_answers limit os (on_queue limit o q).1

-- The ring and the queue answer the same, and stand for the same again.
record Agree (limit : ℕ) (a : Answer × Ring) (b : Answer × List ℕ) : Type 0 where
  answer : a.0 ≡ b.0
  holds : Holds a.1 b.1
  same_capacity : capacity a.1 ≡ limit

write-Agree :
    (raw q : List ℕ) (r : Ring) (limit : ℕ)
    → Holds r q
    → capacity r ≡ limit
    → length q ≤ limit
    → Agree limit (on_ring (writes raw) r) (on_queue limit (writes raw) q)
unfolding on_ring on_queue
write-Agree raw q r limit held cap full = elim (Bool-cases (ltb limit (length q + length raw))) [
  | inl much ↦
      let refused : write raw r ≡ raise buffer_full_error =
        unfold write in
        (let no : ltb (free r) (length raw) ≡ true = ground (arith, much, held.sized, cap, full) in
          rw (no) refl) in
      rw (much, refused) (record { answer = refl; holds = held; same_capacity = cap })
  | inr room ↦
      let (t, e, holds_, same) =
        write-Written raw q r held (ground (arith, room, held.sized, cap)) in
      rw (room, e) (record { answer = refl; holds = holds_; same_capacity = same ∙ cap })
]

read-Agree :
    (n : ℕ) (q : List ℕ) (r : Ring) (limit : ℕ)
    → Holds r q
    → capacity r ≡ limit
    → Agree limit (on_ring (reads n) r) (on_queue limit (reads n) q)
unfolding on_ring on_queue
read-Agree n q r limit held cap = elim (Bool-cases (ltb (length q) n)) [
  | inl short ↦
      let refused : read n r ≡ raise unexpected_eof_error =
        unfold read peek in
        (let no : ltb r.size (0 + n) ≡ true = ground (arith, short, held.sized) in rw (no) refl) in
      rw (short, refused) (record { answer = refl; holds = held; same_capacity = cap })
  | inr enough ↦
      let (l, m, t, parts, len, e, holds_, same) =
        read-WasRead n q r held (ground (arith, enough)) in
      let front : take n q ≡ l = ap (take n) parts ∙ take-append n l m len in
      let back : drop n q ≡ m = ap (drop n) parts ∙ drop-append n l m len in
      rw (enough, e, front, back)
        (record { answer = refl; holds = holds_; same_capacity = same ∙ cap })
]

answers-same :
    (os : List Op) (q : List ℕ) (r : Ring) (limit : ℕ)
    → Holds r q
    → capacity r ≡ limit
    → ring_answers os r ≡ queue_answers limit os q
unfolding ring_answers queue_answers
answers-same [] q r limit held cap = refl
answers-same (o ∷ os) q r limit held cap =
    let a = agree o in
    rw
      (
        a.answer,
        answers-same os (on_queue limit o q).1 (on_ring o r).1 limit a.holds a.same_capacity,
      )
      refl
  where
    agree : (p : Op) → Agree limit (on_ring p r) (on_queue limit p q)
    agree (writes raw) =
        write-Agree raw q r limit held cap (subst (λ c. length q ≤ c) cap (Holds-le r q held))
    agree (reads n) = read-Agree n q r limit held cap

-- A ring buffer that was constructed answers every sequence of writes and reads as a queue of bytes
-- does that holds at most `capacity` of them: a write appends its bytes or, where they do not fit,
-- raises and changes nothing; a read returns the first bytes in their order or, where there are not as
-- many, raises and changes nothing.
pub ring_answers-same :
    (z : ℤ) (limit : ℕ) (r : Ring) (os : List Op)
    → positive z ≡ some limit
    → new_ring z ≡ ok r
    → ring_answers os r ≡ queue_answers limit os []
unfolding new_ring
ring_answers-same z limit r os p h =
    let k : ok (record { storage = zeros limit; head = 0; size = 0 }) ≡ ok r =
      rw (p, new_ring) at h in
    let e : record { storage = zeros limit; head = 0; size = 0 } ≡ r = cc in
    let some_room = positive-le z limit p in
    let long = length-zeros limit in
    subst (λ t. ring_answers os t ≡ queue_answers limit os []) e
      (answers-same os [] (record { storage = zeros limit; head = 0; size = 0 }) limit
        (record {
          inside = omega (arith, long, some_room);
          sized = refl;
          layout = flat [] (zeros limit) refl refl;
        })
        long)
