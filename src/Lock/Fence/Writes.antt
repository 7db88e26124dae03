-- ===== src/Lock/Fence/Writes.antt =====
-- The fenced store over any sequence of writes.
use labs_for_linux_distribut.Base.{
  ℕ, ltb, Bool-cases, inl, inr, ap, ◌∙◌, refl, Option, none, ◌≤◌, ◌<◌, String, ◌≡◌, true, false,
  some, List, [], ◌∷◌, arith, ◌==◌, eq_iff, if◌then◌else◌, string_eq, ok, raise, max,
}
use labs_for_linux_distribut.Base.Dict
use labs_for_linux_distribut.Base.Dict.{get-put, get-empty}
use labs_for_linux_distribut.Lock.Redis.{stale_fence_error, count_of}
use labs_for_linux_distribut.Lock.Fence.{
  FencedRelayWrite, FencedRelayStore, FencedStoredValue, highest_seen, write, read,
}

-- The writes of the list in order; a refused one raises to its writer and the next one follows.
unfoldable pub write_all : List FencedRelayWrite → FencedRelayStore → FencedRelayStore
write_all [] s = s
write_all (w ∷ ws) s = write_all ws (write w s).1

-- What a write does to the highest fence of each resource.
pub highest_seen-write :
    (w : FencedRelayWrite) (s : FencedRelayStore) (r : String)
    → highest_seen r (write w s).1
      ≡ (if w.resource_id == r then max (highest_seen r s) w.fence else highest_seen r s)
unfolding write
highest_seen-write w s r =
    ground
      (arith, get-put s.highest_fence_by_resource w.resource_id r w.fence, eq_iff w.resource_id r)

highest_seen-write-le :
    (w : FencedRelayWrite) (s : FencedRelayStore) (r : String)
    → highest_seen r s ≤ highest_seen r (write w s).1
highest_seen-write-le w s r = ground (arith, highest_seen-write w s r)

pub highest_seen-write_all-le :
    (ws : List FencedRelayWrite) (s : FencedRelayStore) (r : String)
    → highest_seen r s ≤ highest_seen r (write_all ws s)
unfolding write_all
highest_seen-write_all-le [] s r = omega arith
highest_seen-write_all-le (w ∷ ws) s r =
    omega (arith, highest_seen-write-le w s r, highest_seen-write_all-le ws (write w s).1 r)

pub write-ok-highest :
    (w : FencedRelayWrite) (s : FencedRelayStore)
    → (write w s).0 ≡ ok true
    → w.fence ≤ highest_seen w.resource_id (write w s).1
unfolding write
write-ok-highest w s h = ground (
  arith,
  get-put s.highest_fence_by_resource w.resource_id w.resource_id w.fence,
  eq_iff w.resource_id w.resource_id,
)

pub write-stale :
    (w : FencedRelayWrite) (s : FencedRelayStore)
    → w.fence < highest_seen w.resource_id s
    → write w s ≡ (raise stale_fence_error, s)
unfolding write
write-stale w s h = ground arith

-- Once a write with some fence has been accepted for a resource, then after any further writes a
-- write to the resource with a lower fence raises `StaleFenceError` and changes nothing.
pub write-refuses_stale :
    (w late : FencedRelayWrite) (ws : List FencedRelayWrite) (s : FencedRelayStore)
    → (write w s).0 ≡ ok true
    → late.resource_id ≡ w.resource_id
    → late.fence < w.fence
    → write late (write_all ws (write w s).1)
      ≡ (raise stale_fence_error, write_all ws (write w s).1)
write-refuses_stale w late ws s accepted same lower =
    let s1 = (write w s).1 in
    write-stale late (write_all ws s1) (
      rw same (
        omega
          (arith, write-ok-highest w s accepted, highest_seen-write_all-le ws s1 w.resource_id)))

abbrev pub empty_fenced : FencedRelayStore
empty_fenced = record { values = Dict.empty; highest_fence_by_resource = Dict.empty }

-- The highest fence of the writes to a resource, 0 if there is none.
abbrev pub top_fence : String → List FencedRelayWrite → ℕ
top_fence r [] = 0
top_fence r (w ∷ ws) = if w.resource_id == r then max w.fence (top_fence r ws) else top_fence r ws

-- Which writes of a list are to be accepted after `past`: those whose fence is not below one that was
-- accepted for the resource before. The newest stands first.
unfoldable pub accepted_of : List FencedRelayWrite → List FencedRelayWrite → List FencedRelayWrite
accepted_of [] past = past
accepted_of (w ∷ ws) past =
    accepted_of ws (if ltb w.fence (top_fence w.resource_id past) then past else w ∷ past)

-- The value of the write to a resource that stands first.
abbrev pub newest_of : String → List FencedRelayWrite → Option FencedStoredValue
newest_of r [] = none
newest_of r (w ∷ ws) =
    if w.resource_id == r
    then some (record { writer_id = w.writer_id; payload = w.payload; fence = w.fence })
    else newest_of r ws

-- Each write of the list is to be accepted after those behind it.
abbrev IsRising : List FencedRelayWrite → Type 0
IsRising [] = Unit
IsRising (w ∷ ws) = (top_fence w.resource_id ws ≤ w.fence) × IsRising ws

-- The store has the newest of the accepted writes of each resource, and its highest fence.
record Mirrors (past : List FencedRelayWrite) (s : FencedRelayStore) : Type 0 where
  rising : IsRising past
  stored : (r : String) → read r s ≡ newest_of r past
  highest : (r : String) → highest_seen r s ≡ top_fence r past

abbrev step_of : FencedRelayWrite → List FencedRelayWrite → List FencedRelayWrite
step_of w past = if ltb w.fence (top_fence w.resource_id past) then past else w ∷ past

write-Mirrors :
    (w : FencedRelayWrite) (past : List FencedRelayWrite) (s : FencedRelayStore)
    → Mirrors past s
    → Mirrors (step_of w past) (write w s).1
unfolding write read
write-Mirrors w past s m = elim (Bool-cases (ltb w.fence (top_fence w.resource_id past))) [
  | inl low ↦
      let low1 : ltb w.fence (highest_seen w.resource_id s) ≡ true =
        ap (λ t. ltb w.fence t) (m.highest w.resource_id) ∙ low in
      rw (low, low1, write) m
  | inr high ↦
      let high1 : ltb w.fence (highest_seen w.resource_id s) ≡ false =
        ap (λ t. ltb w.fence t) (m.highest w.resource_id) ∙ high in
      rw (high, high1, write)
        (record {
          rising = (ground (arith, high), m.rising);
          stored = λ r.
              get-put s.values w.resource_id r
                (record { writer_id = w.writer_id; payload = w.payload; fence = w.fence })
              ∙ ground (arith, m.stored r);
          highest = λ r. ground (
            arith,
            get-put s.highest_fence_by_resource w.resource_id r w.fence,
            m.highest r,
            high1,
            eq_iff w.resource_id r,
          );
        })
]

write_all-Mirrors :
    (ws past : List FencedRelayWrite) (s : FencedRelayStore)
    → Mirrors past s
    → Mirrors (accepted_of ws past) (write_all ws s)
unfolding write_all accepted_of
write_all-Mirrors [] past s m = m
write_all-Mirrors (w ∷ ws) past s m =
    write_all-Mirrors ws (step_of w past) (write w s).1 (write-Mirrors w past s m)

Mirrors-empty : Mirrors [] empty_fenced
unfolding read
Mirrors-empty = record {
  rising = tt;
  stored = λ r. get-empty {K = String} {V = FencedStoredValue} r;
  highest = λ r. ap count_of (get-empty {K = String} {V = ℕ} r);
}

abbrev pub fence_of : Option FencedStoredValue → ℕ
fence_of none = 0
fence_of (some v) = v.fence

newest_of-top :
    (r : String) (past : List FencedRelayWrite)
    → IsRising past
    → fence_of (newest_of r past) ≡ top_fence r past
newest_of-top r [] rising = refl
newest_of-top r (w ∷ past) rising = elim (Bool-cases (w.resource_id == r)) [
  | inl same ↦ rw (same) (
      let e : top_fence w.resource_id past ≡ top_fence r past =
        ap (λ x. top_fence x past) ((eq_iff w.resource_id r).0 same) in
      omega (arith, rising.0, e))
  | inr other ↦ rw (other) (newest_of-top r past rising.1)
]

-- After any sequence of writes to an empty store, let the accepted ones be those whose fence is not
-- below one that was accepted for the same resource before. Then each resource holds the value of
-- the last accepted write to it, the fence of that value is the highest accepted one, and one more
-- write is accepted exactly if its fence is not below the highest accepted one of its resource.
pub read-newest :
    (ws : List FencedRelayWrite) (r : String) (w : FencedRelayWrite)
    → (read r (write_all ws empty_fenced) ≡ newest_of r (accepted_of ws []))
      × (fence_of (read r (write_all ws empty_fenced)) ≡ top_fence r (accepted_of ws []))
      × ((write w (write_all ws empty_fenced)).0 ≡ (
          if ltb w.fence (top_fence w.resource_id (accepted_of ws []))
          then raise stale_fence_error
          else ok true))
unfolding write
read-newest ws r w =
    let m = write_all-Mirrors ws [] empty_fenced Mirrors-empty in
    (
      m.stored r,
      ap fence_of (m.stored r) ∙ newest_of-top r (accepted_of ws []) m.rising,
      elim (Bool-cases (ltb w.fence (top_fence w.resource_id (accepted_of ws [])))) [
        | inl low ↦
            (let low1 : ltb w.fence (highest_seen w.resource_id (write_all ws empty_fenced))
                  ≡ true =
                ap (λ t. ltb w.fence t) (m.highest w.resource_id) ∙ low in
              rw (low, low1) refl)
        | inr high ↦
            (let high1 : ltb w.fence (highest_seen w.resource_id (write_all ws empty_fenced))
                  ≡ false =
                ap (λ t. ltb w.fence t) (m.highest w.resource_id) ∙ high in
              rw (high, high1) refl)
      ],
    )
