-- ===== src/Frame/Sender.antt =====
-- `send_frame`. The writer is a socket or the like, no code of the repository: a function from its state and the
-- bytes that are left to the count that it returns and its new state.
use labs_for_linux_distribut.Base.{
  ℕ, zero, suc, ◌+◌, ◌≤◌, ◌≡◌, ◌⊎◌, none, some, List, [], ◌∷◌, ◌++◌, ℤ, positive, positive-le,
  arith, refl, sym, ap, subst, ◌∙◌, inl, inr, Option-cases, Result-cases, Result, ok, raise, length,
  length-append, take, drop,
}
use mathlib.Core.List.{append-nil, append_assoc}
use labs_for_linux_distribut.Frame.{FrameError, connection_error, encode_frame}
use labs_for_linux_distribut.Frame.Layout.{take-append, drop-append, split_at}

-- A return of the whole, or an exception after a part, with what a writer has taken over before and after.
module _ {W : Type 0} (taken : W → List ℕ) where
  abbrev pub Sent : List ℕ → ℕ → W → Result FrameError ℕ × W → Type 0
  Sent frame total w (ok n, u) = (n ≡ total + length frame) × (taken u ≡ taken w ++ frame)
  Sent frame total w (raise e, u) =
      (l : List ℕ) × (m : List ℕ) × (frame ≡ l ++ m) × (1 ≤ length m) × (taken u ≡ taken w ++ l)

module _ {W : Type 0} (send : List ℕ → W → ℤ × W) where
  -- Each round sends a byte at least, so the bytes of the frame are enough fuel.
  unfoldable pub send_rounds : ℕ → List ℕ → ℕ → W → Result FrameError ℕ × W
  send_rounds zero frame total_sent w = (ok total_sent, w)
  send_rounds (suc fuel) [] total_sent w = (ok total_sent, w)
  send_rounds (suc fuel) (b ∷ bs) total_sent w = elim (positive (send (b ∷ bs) w).0) [
    | none ↦ (raise connection_error, (send (b ∷ bs) w).1)
    | some n ↦ send_rounds fuel (drop n (b ∷ bs)) (total_sent + n) (send (b ∷ bs) w).1
  ]

  no_progress :
      (fuel b total : ℕ) (bs : List ℕ) (w : W)
      → positive (send (b ∷ bs) w).0 ≡ none
      → send_rounds (suc fuel) (b ∷ bs) total w ≡ (raise connection_error, (send (b ∷ bs) w).1)
  unfolding send_rounds
  no_progress fuel b total bs w e = rw (e, send_rounds) refl

  some_progress :
      (fuel b total n : ℕ) (bs : List ℕ) (w : W)
      → positive (send (b ∷ bs) w).0 ≡ some n
      → send_rounds (suc fuel) (b ∷ bs) total w
        ≡ send_rounds fuel (drop n (b ∷ bs)) (total + n) (send (b ∷ bs) w).1
  unfolding send_rounds
  some_progress fuel b total n bs w e = rw (e, send_rounds) refl

  abbrev pub send_encoded : Result FrameError (List ℕ) → W → Result FrameError ℕ × W
  send_encoded (raise e) w = (raise e, w)
  send_encoded (ok frame) w = send_rounds (length frame) frame 0 w

  unfoldable pub send_frame : ℕ → List ℕ → W → Result FrameError ℕ × W
  send_frame maximum payload w = send_encoded (encode_frame maximum payload) w

  -- The writer takes over a part of the bytes, from the front, and returns how many; what it has taken
  -- over so far is `taken`.
  module _ (taken : W → List ℕ)
      (honest : (bytes : List ℕ) (w : W) (n : ℕ)
        → positive (send bytes w).0 ≡ some n
        → (n ≤ length bytes) × (taken (send bytes w).1 ≡ taken w ++ take n bytes))
      (refusing : (bytes : List ℕ) (w : W)
        → positive (send bytes w).0 ≡ none
        → taken (send bytes w).1 ≡ taken w) where
    longer :
        (c1 c2 frame : List ℕ) (total n : ℕ) (w u : W) (p : Result FrameError ℕ × W)
        → frame ≡ c1 ++ c2
        → length c1 ≡ n
        → taken u ≡ taken w ++ c1
        → Sent taken c2 (total + n) u p
        → Sent taken frame total w p
    longer c1 c2 frame total n w u (ok k, v) parts len took (e, all) = (
      omega (arith, e, ap length parts, length-append c1 c2, len),
      all
          ∙ ap (λ l. l ++ c2) took
          ∙ append_assoc (taken w) c1 c2
          ∙ ap (λ l. taken w ++ l) (sym parts),
    )
    longer c1 c2 frame total n w u (raise x, v) parts len took (l, m, cut, some_left, all) = (
      c1 ++ l,
      m,
      parts ∙ ap (λ k. c1 ++ k) cut ∙ sym (append_assoc c1 l m),
      some_left,
      all ∙ ap (λ k. k ++ l) took ∙ append_assoc (taken w) c1 l,
    )

    send_rounds-Sent :
        (fuel : ℕ) (frame : List ℕ) (total : ℕ) (w : W)
        → length frame ≤ fuel
        → Sent taken frame total w (send_rounds fuel frame total w)
    unfolding send_rounds
    send_rounds-Sent zero [] total w h = (omega arith, sym (append-nil (taken w)))
    send_rounds-Sent zero (b ∷ bs) total w h = absurd (omega (arith, h))
    send_rounds-Sent (suc fuel) [] total w h = (omega arith, sym (append-nil (taken w)))
    send_rounds-Sent (suc fuel) (b ∷ bs) total w h =
        elim (Option-cases (positive (send (b ∷ bs) w).0)) [
          | inl e ↦
              subst (Sent taken (b ∷ bs) total w) (sym (no_progress fuel b total bs w e))
                ([], b ∷ bs, refl, omega arith, refusing (b ∷ bs) w e ∙ sym (append-nil (taken w)))
          | inr (n, e) ↦
              let (fits, took) = honest (b ∷ bs) w n e in
              let (c1, c2, parts, len) = split_at n (b ∷ bs) fits in
              let front : take n (b ∷ bs) ≡ c1 = ap (take n) parts ∙ take-append n c1 c2 len in
              let back : drop n (b ∷ bs) ≡ c2 = ap (drop n) parts ∙ drop-append n c1 c2 len in
              let u = (send (b ∷ bs) w).1 in
              let some_sent = positive-le (send (b ∷ bs) w).0 n e in
              let sizes = ap length parts ∙ length-append c1 c2 in
              let rest =
                send_rounds-Sent fuel c2 (total + n) u (omega (arith, h, sizes, len, some_sent)) in
              let whole : Sent taken (b ∷ bs) total w (send_rounds fuel c2 (total + n) u) =
                longer c1 c2 (b ∷ bs) total n w u (send_rounds fuel c2 (total + n) u) parts len
                  (took ∙ ap (λ k. taken w ++ k) front) rest in
              subst (Sent taken (b ∷ bs) total w)
                (sym (
                  some_progress fuel b total n bs w e
                  ∙ ap (λ k. send_rounds fuel k (total + n) u) back))
                whole
        ]

    -- `send_frame` over a writer that takes bytes over from the front and says how many: it returns the
    -- length of the frame, and then the writer has taken over the frame and nothing else; or it raises,
    -- and then either `encode_frame` has raised that and nothing was sent, or the writer has taken over a
    -- part of the frame, and not all of it.
    pub send_frame-Sent :
        (maximum : ℕ) (payload : List ℕ) (w : W)
        → ((frame : List ℕ) × (encode_frame maximum payload ≡ ok frame)
            × Sent taken frame 0 w (send_frame maximum payload w))
          ⊎ ((e : FrameError) × (encode_frame maximum payload ≡ raise e)
              × (send_frame maximum payload w ≡ (raise e, w)))
    unfolding send_frame
    send_frame-Sent maximum payload w = elim (Result-cases (encode_frame maximum payload)) [
      | inl (frame, e) ↦ inl (
        frame,
        e,
        subst (λ r. Sent taken frame 0 w (send_encoded r w)) (sym e)
            (send_rounds-Sent (length frame) frame 0 w (omega arith)),
      )
      | inr (x, e) ↦ inr (x, e, ap (λ r. send_encoded r w) e)
    ]
