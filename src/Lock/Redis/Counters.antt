-- ===== src/Lock/Redis/Counters.antt =====
-- Counters of the Redis server: INCR against a read and a write of each client.
use labs_for_linux_distribut.Base.{
  ℕ, ◌+◌, String, ◌≡◌, List, [], ◌∷◌, arith, length, string_eq, eq_iff,
}
use labs_for_linux_distribut.Base.Dict
use labs_for_linux_distribut.Base.Dict.{get-put}
use labs_for_linux_distribut.Lock.Redis.{
  Store, count_of, counter_get, counter_set, counter_incr, record_event,
}

abbrev pub counter : String → Store → ℕ
counter key s = count_of (Dict.get s.counters key)

-- One INCR for each client of the list, in its order.
abbrev pub incr_all : String → List String → Store → Store
incr_all key [] s = s
incr_all key (client ∷ rest) s = incr_all key rest (counter_incr key client s).1

counter-counter_incr :
    (key client : String) (s : Store)
    → counter key (counter_incr key client s).1 ≡ counter key s + 1
unfolding counter_incr record_event
counter-counter_incr key client s =
    ground
      (arith, get-put s.counters key key (count_of (Dict.get s.counters key) + 1), eq_iff key key)

-- Atomic increments lose nothing: after an INCR by each client of a list, in any order, the
-- counter has grown by the number of clients.
pub counter-incr_all :
    (key : String) (clients : List String) (s : Store)
    → counter key (incr_all key clients s) ≡ counter key s + length clients
counter-incr_all key [] s = omega arith
counter-incr_all key (client ∷ rest) s = omega (
  arith,
  counter-incr_all key rest (counter_incr key client s).1,
  counter-counter_incr key client s,
)

-- Two clients read the counter, and then each writes what it read plus one.
abbrev pub interleaved : String → String → String → Store → Store
interleaved key a b s =
    let (seen_a, s1) = counter_get key a s in
    let (seen_b, s2) = counter_get key b s1 in
    counter_set key (seen_b + 1) b (counter_set key (seen_a + 1) a s2)

-- The lost update: after the interleaved reads and writes of two clients the counter has grown by
-- one only.
pub counter-interleaved :
    (key a b : String) (s : Store) → counter key (interleaved key a b s) ≡ counter key s + 1
unfolding counter_get counter_set record_event
counter-interleaved key a b s = ground (
  arith,
  get-put (Dict.put s.counters key (counter key s + 1)) key key (counter key s + 1),
  eq_iff key key,
)
