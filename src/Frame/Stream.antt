-- ===== src/Frame/Stream.antt =====
-- A stream of frames that comes in chunks.
use mathlib.Core.List.{append_assoc}
use labs_for_linux_distribut.Base.{
  ℕ, zero, suc, ◌+◌, ◌≤◌, ◌<◌, ◌≡◌, false, List, [], ◌∷◌, ◌++◌, arith, refl, sym, ap, subst, ◌∙◌,
  inl, inr, ltb, if◌then◌else◌, nat_eq, Bool-cases, Result-cases, ok, raise, length, length-append,
  take, drop,
}
use labs_for_linux_distribut.Frame.{from_bytes, parse_header}
use labs_for_linux_distribut.Frame.Ring.{Ring, capacity, peek, read, read_out}
use labs_for_linux_distribut.Frame.Layout.{Holds, take-append, drop-append, take-whole}
use labs_for_linux_distribut.Frame.Reads.{read-WasRead}
use labs_for_linux_distribut.Frame.Reader.{
  Found, extend, and_then, parsed, read_frame, drain_rounds,
}

-- The bytes are the frames of the payloads, one after the other.
abbrev pub Stream : ℕ → List (List ℕ) → List ℕ → Type 0
Stream maximum [] bs = bs ≡ []
Stream maximum (p ∷ ps) bs =
    (h : List ℕ) × (rest : List ℕ) × (bs ≡ h ++ (p ++ rest))
    × (length h ≡ 4)
    × (from_bytes 0 h ≡ length p)
    × (length p ≤ maximum)
    × Stream maximum ps rest

-- The buffer does not have the whole of the next frame.
abbrev pub Short : List (List ℕ) → List ℕ → Type 0
Short [] q = q ≡ []
Short (p ∷ ps) q = length q < 4 + length p

-- A call has found the first payloads of the stream; the buffer has the head of what is left of it.
abbrev pub Progress : ℕ → List (List ℕ) → List ℕ → ℕ → Found → Type 0
Progress maximum ps rest limit found =
    (fs : List (List ℕ)) × (later : List (List ℕ)) × (q : List ℕ) × (found.0 ≡ ok fs)
    × (ps ≡ fs ++ later)
    × Holds found.1 q
    × (capacity found.1 ≡ limit)
    × Stream maximum later (q ++ rest)
    × Short later q

peek-same : (n : ℕ) (l : List ℕ) (r t : Ring) → read n r ≡ ok (l, t) → peek n 0 r ≡ ok l
unfolding read
peek-same n l r t h = elim (Result-cases (peek n 0 r)) [
  | inr (x, e) ↦ (let k : read_out n r (raise x) ≡ ok (l, t) = rw (e) at h in absurd cc)
  | inl (a, e) ↦
      (let k : read_out n r (ok a) ≡ ok (l, t) = rw (e) at h in
        let same : a ≡ l = cc in e ∙ ap ok same)
]

-- The same list, cut at the same length.
cut_same :
    (xs ys as_ bs : List ℕ) → xs ++ ys ≡ as_ ++ bs → length xs ≡ length as_ → (xs ≡ as_) × (ys ≡ bs)
cut_same xs ys as_ bs e len = (
  sym (take-append (length as_) xs ys len)
      ∙ ap (take (length as_)) e
      ∙ take-append (length as_) as_ bs refl,
  sym (drop-append (length as_) xs ys len)
      ∙ ap (drop (length as_)) e
      ∙ drop-append (length as_) as_ bs refl,
)

pub extend-Progress :
    (maximum limit : ℕ) (fs ps : List (List ℕ)) (rest : List ℕ) (found : Found)
    → Progress maximum ps rest limit found
    → Progress maximum (fs ++ ps) rest limit (extend fs found)
extend-Progress maximum limit fs ps rest (ok gs, r)
      (hs, later, q, e, parts, held, same_size, stream, short) =
    let grown : fs ++ gs ≡ fs ++ hs = let same : gs ≡ hs = cc in ap (λ k. fs ++ k) same in
    (
      fs ++ hs,
      later,
      q,
      ap ok grown,
      ap (λ k. fs ++ k) parts ∙ sym (append_assoc fs hs later),
      held,
      same_size,
      stream,
      short,
    )
extend-Progress maximum limit fs ps rest (raise x, r)
      (hs, later, q, e, parts, held, same_size, stream, short) =
    absurd cc

parse_header-exact :
    (maximum n : ℕ) (h : List ℕ)
    → length h ≡ 4
    → from_bytes 0 h ≡ n
    → n ≤ maximum
    → parse_header maximum h ≡ ok n
unfolding parse_header
parse_header-exact maximum n h four e le =
    let long : ltb (length h) 4 ≡ false = ground (arith, four) in
    let small : ltb maximum n ≡ false = ground (arith, le) in
    rw (long, take-whole 4 h four, e, small) refl

nothing : (q rest : List ℕ) → q ++ rest ≡ [] → q ≡ []
nothing [] rest e = refl
nothing (x ∷ q) rest e = absurd cc

few-Short :
    (maximum : ℕ) (ps : List (List ℕ)) (q rest : List ℕ)
    → length q < 4
    → Stream maximum ps (q ++ rest)
    → Short ps q
few-Short maximum [] q rest few stream = nothing q rest stream
few-Short maximum (p ∷ ps) q rest few stream = omega (arith, few)

pub stays-Progress :
    (maximum limit : ℕ) (ps : List (List ℕ)) (q rest : List ℕ) (r : Ring)
    → Holds r q
    → capacity r ≡ limit
    → Stream maximum ps (q ++ rest)
    → Short ps q
    → Progress maximum ps rest limit (ok [], r)
stays-Progress maximum limit ps q rest r held same_size stream short =
    ([], ps, q, refl, refl, held, same_size, stream, short)

module _ (maximum limit : ℕ) where
  pub drain_rounds-Progress :
      (fuel : ℕ) (ps : List (List ℕ)) (q rest : List ℕ) (r : Ring)
      → length q ≤ fuel
      → Holds r q
      → capacity r ≡ limit
      → Stream maximum ps (q ++ rest)
      → Progress maximum ps rest limit (drain_rounds fuel maximum r)
  unfolding drain_rounds
  drain_rounds-Progress zero ps q rest r enough held same_size stream =
      stays-Progress maximum limit ps q rest r held same_size stream
        (few-Short maximum ps q rest (omega (arith, enough)) stream)
  drain_rounds-Progress (suc fuel) ps q rest r enough held same_size stream =
      elim (Bool-cases (ltb r.size 4)) [
        | inl small ↦ rw (small) (
            stays-Progress maximum limit ps q rest r held same_size stream
              (few-Short maximum ps q rest (ground (arith, small, held.sized)) stream))
        | inr some_left ↦ rw (some_left) (
            go (λ ps k u. drain_rounds-Progress fuel ps k rest u) ps stream
              (ground (arith, some_left, held.sized)))
      ]
    where
      go :
          ((ps : List (List ℕ)) (k : List ℕ) (u : Ring)
            → length k ≤ fuel
            → Holds u k
            → capacity u ≡ limit
            → Stream maximum ps (k ++ rest)
            → Progress maximum ps rest limit (drain_rounds fuel maximum u))
          → (ps : List (List ℕ)) → Stream maximum ps (q ++ rest)
          → 4 ≤ length q
          → Progress maximum ps rest limit (elim (parsed maximum (peek 4 0 r)) [
            | raise e ↦ (raise e, r)
            | ok n ↦
                if ltb r.size (4 + n)
                then (ok [], r)
                else and_then (read_frame n r (read 4 r)) (λ t. drain_rounds fuel maximum t)
          ])
      go again [] stream long = absurd (omega (arith, long, ap length (nothing q rest stream)))
      go again (p ∷ ps) (h, tl, e, four, number, le, later) long =
          let (l, m, t, parts, len, was_read, held_t, cap_t) = read-WasRead 4 q r held long in
          let (same_h, same_tl) =
            cut_same l (m ++ rest) h (p ++ tl)
              (sym (append_assoc l m rest) ∙ ap (λ k. k ++ rest) (sym parts) ∙ e)
              (omega (arith, len, four)) in
          let looked : parsed maximum (peek 4 0 r) ≡ ok (length p) =
            ap (parsed maximum) (peek-same 4 l r t was_read)
            ∙ parse_header-exact maximum (length p) l len (ap (from_bytes 0) same_h ∙ number) le in
          let sizes = ap length parts ∙ length-append l m in
          rw (looked) (elim (Bool-cases (ltb r.size (4 + length p))) [
            | inl partial ↦ rw (partial) (
                stays-Progress maximum limit (p ∷ ps) q rest r held same_size
                  (h, tl, e, four, number, le, later) (ground (arith, partial, held.sized)))
            | inr whole ↦
                let (p1, m1, u, parts1, len1, was_read1, held_u, cap_u) =
                  read-WasRead (length p) m t held_t
                    (ground (arith, whole, held.sized, sizes, len)) in
                let (same_p, same_rest) =
                  cut_same p1 (m1 ++ rest) p tl
                    (sym (append_assoc p1 m1 rest) ∙ ap (λ k. k ++ rest) (sym parts1) ∙ same_tl)
                    len1 in
                let found =
                  again ps m1 u
                    (omega (arith, enough, sizes, len, ap length parts1, length-append p1 m1))
                    held_u (cap_u ∙ cap_t ∙ same_size)
                    (subst (Stream maximum ps) (sym same_rest) later) in
                rw (whole, was_read, was_read1)
                  (subst
                    (λ k.
                      Progress maximum (k ∷ ps) rest limit
                        (extend (p1 ∷ []) (drain_rounds fuel maximum u)))
                    same_p
                    (extend-Progress maximum limit (p1 ∷ []) ps rest (drain_rounds fuel maximum u)
                      found))
          ])
