-- ===== src/Lib.antt =====
-- Klef: a verification library for the DAG ledger and the consensus helpers of klef, a Go node.
--
-- The program and its model. A node receives vertices and puts them into a ledger (`core/dag.go`,
-- module Core/Dag) that is closed under parents. A vertex with missing parents waits in a bounded
-- buffer (`core/orphanage.go`, Core/Orphanage); a vertex whose parents are malformed costs its
-- author a penalty (`core/slasher.go`, Core/Slasher). Missing vertices are asked for once at a time
-- (`core/pending_manager.go`, Core/Pending, over `internal/ds/priority_queue.go`, Core/Heap), and
-- what peers send is checked first (`core/validation/fetch_rules.go`, Core/Validation). A node
-- proposes a vertex when enough votes are there (`consensus/quorumpolicy.go`, Consensus/Quorum, and
-- `consensus/proposer.go`, Consensus/Proposer). The replica (`replica`, module Replica) holds all
-- of these and routes the messages. The fetcher (`core/fetcher.go`, Core/Fetcher) decides whom to
-- ask for missing vertices and waits for them. Keys and signatures are `core/crypto_ed25519.go`
-- (Core/Crypto). The data are those of `pkg/types` (Types) and `config/config.go` (Config). The
-- vertices and comparisons that the scenario tests share (`core/test_utils.go`) are Scenario.
--
-- State and operations. Each struct is a record with the source's fields; each method is a function
-- from the state before to the state after and its result, under the source's name in lower case:
-- AddVertex is `add_vertex`, OnParentArrival `on_parent_arrival`, executeSlasher `execute_slasher`,
-- and so on. A method that holds a mutex is one step, so its concurrent callers are a sequence of
-- calls; the check that AddVertex makes before it takes the lock is made again under it
-- (`add_vertex_locked`). Propose holds none: `propose` is a call that no other overlaps, and in
-- Consensus/Proposer/Overlap its check, its broadcast and its mark are steps of their own. The call
-- of StartSync is the request that `add_vertex` returns; the replica starts it. The goroutine that
-- StartSync starts is a state machine (Core/Fetcher/Worker): one step is a round of its loop up to
-- the select, or the answer of the select, and Steps interleaves these with deliveries to the
-- ledger and with the other calls of the pending manager. The message loop of a node is a run over
-- the list of the messages it takes from its channel. Clocks are arguments. Vertices never change
-- once built, so a pointer to one is its value. Log lines are left out.
--
-- Numbers. A hash is the number that its 32 bytes write. Go's `int` and `time.Duration` are
-- integers cut to 64 bits where the code adds, subtracts or multiplies (Prelude/Int); lengths and
-- counts are natural numbers. float64 products are rounded to 53 bits, ties to even
-- (Prelude/Float), for node counts below 2 ^ 53. A map is an association list (Prelude/Map) and its
-- order stands for one order of iteration. What is stated of the ledger, the buffer and the tips
-- speaks of members and of lookups.
--
-- Loops. processInsertionLocked has the buffer's size and two more as fuel (each round takes one
-- vertex off the worklist, and one that it puts there has left the buffer). cleanup has the length
-- of its queue, since each round pops an item. heap.up and heap.down have the length of the heap,
-- since an index halves or doubles. The loop of generateComplexDAG that picks parents runs over the
-- numbers that the generator returns; `none` stands for a loop that needs more of them. All other
-- loops are structural recursion; the fetcher's goroutine is a relation.
--
-- Parameters. SHA-256 is a function on bytes; that deliveries converge is stated where it gives the
-- byte streams of the delivered vertices different hashes and their fields fit the widths at which
-- they are written. Ed25519's key generation, signing and verification are functions, with the one
-- law that a signature made with a key pair verifies. Int63n and Shuffle of the random generator
-- are functions and what Intn returns is a list, of which only the documented range and that it
-- reorders are assumed, each where a theorem needs it.
--
-- Not modelled: the codec, the transport and the printing stubs of the network, the vote verifier,
-- the mempool and the finalizer, which are stubs, and the start of the service and of the command
-- line.
--
-- Files. Prelude has the shared types and lemmas. Types/Parents/Canonical, Types/Hash/Bytes,
-- Types/Message/Violation, Types/Encoding with Codes, Certificates and Injective, and Types/Signer
-- are about the data. Core/Orphanage has the children Victim, Capacity, Contents, Occurrences,
-- Links, Invariant, Registration, Arrival and Release; Core/Dag has Invariant, Commit, Trace,
-- Closure, Growth, Insertion, Admission, Collision, Convergence, Progress, Deliveries and Tips;
-- Core/Slasher has Ledger and Penalty; Core/Validation has Structure and Accepted; Core/Heap has
-- Array, Order, Up, Down and Queue; Core/Pending has Flight, Backoff, Consistent, Cleanup,
-- SingleFlight and Signals; Core/Fetcher has Requests, Addressing and Worker, and that Steps,
-- Termination, Settled, Passes and Escalation; Core/Crypto has Correct; Core/Validator stands
-- alone. Consensus/Quorum has Rounding and Intersection; Consensus/Proposer has Safety and Overlap.
-- Replica has Routing, Proposal, State, Peers with Sampling, Lifecycle with Invariant, Network,
-- Received and Exchange; Scenario has Vertices, Repeatable, Generator, Picks and Delivered. Tests
-- runs the model on small inputs.
pub mod Config
pub mod Consensus
pub mod Core
pub mod Prelude
pub mod Replica
pub mod Scenario
pub mod Tests
pub mod Types
