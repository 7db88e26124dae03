-- ===== src/Lib.antt =====
-- Models and proofs for the distributed-systems labs. Paths are from the repository's root.
-- Each lab is a Python package of its own. The labs modelled here are deterministic simulations:
-- a client calls methods of a cluster or of a service, which mutate objects and return or raise.
--
-- Lock: labs/26-distributed-lock/src/lab_26_distributed_lock/simulation.py.
--   Lock.Redis models `SimulationClock`, `InMemoryRedisStore` and `RedisStyleLockService`,
--   Lock.Fence the fenced and unfenced stores, `FencedLeaseManager` and `FencedScheduleLedger`,
--   Lock.Schedule `RelayScheduler` and `SchedulerSimulation`. A lock service talks to the Redis
--   store; a scheduler takes a lease from the manager and records its interval in the ledger.
--
-- Quorum: labs/23-quorum-basics/src/lab_23_quorum_basics/simulation.py, the rest of it.
--   Quorum models the replicas and `QuorumRegisterCluster`, Quorum.Runs the sequences of its
--   operations. The clock is the field `tick` of the cluster, a natural number, that others who
--   hold it may advance between two operations. The field `record` of the source is `record_`.
--
-- Partition: the class `PartitionMap` of labs/23-quorum-basics/src/lab_23_quorum_basics/
--   simulation.py, which labs 24 and 25 hold too. Quorum and Election use it for who
--   reaches whom.
--
-- Election: labs/24-raft-election/src/lab_24_raft_election/simulation.py.
--   Election models `RaftNode` and its messages, Election.Cluster `DeterministicRaftCluster`: a
--   method of the cluster calls one node after the other and puts each back into the table of
--   nodes. Election.Runs has the sequences of its operations.
--
-- Tasks and Replica: labs/25-replicated-log/src/lab_25_replicated_log/simulation.py.
--   Tasks models the commands and `RelayTaskStateMachine`, Replica one `ReplicatedLogNode` with its
--   messages, Replica.Cluster `ReplicatedRelayCluster` and the sequences of its operations. A node
--   applies the committed entries of its log to its machine; the cluster elects a leader, and the
--   leader sends its whole log. The code reads the log at an index; the model runs over the part of
--   the log between two indices, and Replica.Runs shows that these lie inside the log.
--
-- Admission, Breaker and Consumer: labs/33-load-shedding/src/lab_33_load_shedding/backpressure.py.
--   Admission models `AdmissionController`, Breaker `CircuitBreaker`, Consumer the retry policy, the
--   retry budget and `RetryingConsumer`, which holds a circuit breaker. The `while` loops of
--   `advance_to` and `drain` run on fuel, as much as there are messages in the controller:
--   Admission.Rounds shows that the fuel is enough. Times are natural numbers. Python's floats are a
--   record of operations, `Floats`, and a random source a function that draws.
--
-- Frame: labs/16-framed-protocol/src/lab_16_framed_protocol/framing.py.
--   Frame models `encode_frame` and `decode_frame`, Frame.Ring `BoundedRingBuffer`, Frame.Reader the
--   `IncrementalFrameReader`, which writes what comes into a ring and reads whole frames out of it; its
--   two loops run on fuel, as much as there are bytes to read, and Frame.Chunks shows that this is
--   enough. Bytes are natural numbers; where a statement needs them below 256, it says so.
--   Frame.Layout says how a queue of bytes stands in the storage of a ring, and Frame.Fifo has the
--   queue that the ring implements. Frame.Sender models `send_frame`; the socket is a parameter.
--
-- A method is a function from the old state and its arguments to its result and the new state. An
-- exception is `raise` with its class in the `Result` of Base; messages are not modelled. What was
-- written before an exception stays written. Shared objects (a clock, a lease manager) are fields
-- of the state that holds them, or an argument where they are only read. Dictionaries are Base.Dict,
-- in order of insertion. Numbers that the code never lets be negative are natural numbers; an
-- argument whose sign the code tests is a signed one. A `for` loop is a recursion on its list.
-- `hashlib.sha1` is a parameter.
-- Not modelled: input and output, network services, third-party libraries and the other labs.
pub mod Admission
pub mod Base
pub mod Breaker
pub mod Consumer
pub mod Election
pub mod Frame
pub mod Lock
pub mod Partition
pub mod Quorum
pub mod Replica
pub mod Tasks
