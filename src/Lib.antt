-- ===== src/Lib.antt =====
-- ldgr: records, replays and minimises deterministic runs of distributed programs. Runs and journals
-- are stored in a canonical binary format, workers pull campaign tasks from a queue, an explorer
-- computes faults to inject and reduces failing schedules, and a simulator drives the runs on virtual
-- time. A program under test speaks to the runtime by framed messages.
--
-- The files and the code they model (paths from the repository's root):
--   Cbor          crates/ledger-format/src/cbor/mod.rs: CborValue, CborError, compare_canonical_keys
--   Cbor/Encode   crates/ledger-format/src/cbor/encode.rs: to_canonical_bytes and the writers of heads
--                 and floats; Cbor/Float has the conversions between the widths of floats, on bits
--   Cbor/Decode   crates/ledger-format/src/cbor/decode.rs: from_canonical_bytes, decode_header,
--                 decode_value and the three float decoders; Cbor/Text is the UTF-8 test they use
--   Cbor/Tolerant the same file's TolerantReader, with indefinite lengths
--   Cbor/ItemReader crates/ledger-format/src/cbor/items.rs: ItemReader and read_canonical_value
--   Cbor/Canonical, Cbor/RoundTrip, Cbor/Tolerant/{Superset, Fuel, Total}: the proofs about them
--   Format/Value  crates/ledger-format/src/value.rs: CanonicalValue, its two codecs and Budget
--   Format/FilePath crates/ledger-format/src/path.rs: canonicalize
--   Format/Hash   crates/ledger-format/src/entry.rs: the framed wire form of EntryHash
--   Format/Frame  crates/ledger-format/src/frame.rs and limits.rs: encode_prefix, parse_prefix
--   Format/Hex    crates/ledger-format/src/hex.rs: hash_to_hex, hash_from_hex
--   Rt/Codec      crates/ldgr-rt/src/proto/codec.rs: encode_frame, parse_header, decode_frame
--   Rt/Message    crates/ldgr-rt/src/proto/msg.rs: the messages, encode_message and decode_message
--   Worker/Queue  crates/ledger-worker/src/queue: Task, InMemoryQueue and all its operations;
--                 Census counts tasks, Budget has the reachable queues, Expiry the deadlines of leases
--   Explorer/Ddmin crates/ledger-explorer/src/minimizer/ddmin.rs: ddmin
--   Explorer/HittingSet crates/ledger-explorer/src/solver/mod.rs: compute_minimal_hitting_sets
--   Journal/Clock crates/ledger-journal/src/clock.rs: VectorClock
--   Journal/Dag   crates/ledger-journal/src/dag.rs: JournalState, Journal::append, Journal::get
--   Journal/Batch the same file's append_batch; append_each is the loop of append beside it
--   Journal/Slice crates/ledger-journal/src/slice.rs: causal_slice, forward_cone, subgraph
--   Sim/Time      crates/ledger-sim/src/time.rs: VirtualTime and its timers
--   Sim/Fs        crates/ledger-sim/src/simfs.rs: one sparse file, with the replacement of a window and
--                 the loop of a read; Ranges, Window, Read and Sound are the proofs about it
--   Sim/Fs/Store  the same file's SimFs: Ops has the operations that append to the journal, Crash the
--                 crash operations; Model is the abstract view of a store, and Files, Keeps,
--                 Invariant, Effects, Reach, Views, Refines, Contents and Durable are the proofs
--   Sim/Net       crates/ledger-sim/src/net.rs: SimNet, its links, sends and receives; Drawn has those
--                 with draws, and Serve, Lottery, Peek, Capacity and Traffic are the
--                 proofs
--   Prelude and its children carry the shared names, and Tests the concrete inputs.
-- The parts meet in the encoder: clocks, paths and canonical values are encoded with the writers of
-- Cbor/Encode, the item reader decodes heads as Cbor/Decode does and fills canonical values, and a
-- message carries framed hashes. A frame carries a message. The simulated storage appends an entry to
-- the journal for each operation, under the canonical form of the path.
--
-- How the code corresponds. A byte is a number, a string or byte vector the list of its bytes, a float
-- its 64 bits, and the arithmetic of fixed width is written out. A cursor into a slice is the rest of
-- the input. A method that mutates `self` returns the new state. Errors are the source's enums in a
-- Result. A panic (time that moves backward) is `none`. In Worker/Queue each reading of the clock is
-- an argument, and the map of leases is a list in any order. A set of hashes is an ascending list of
-- numbers.
--
-- Bounds and fuel. The canonical decoder and the tolerant reader recur on the depth that is left, as
-- the source counts it (MAX_DEPTH is 128). The loops of the tolerant reader that wait for a break have
-- as fuel the length of the rest of the input and one more: each round but the last consumes a byte.
-- The loop of ddmin takes n * n + n + 2 rounds for n elements: a reduction shortens the list, and a
-- refinement brings the number of chunks nearer to its length. The reader of canonical values has 32
-- levels of fuel, at which the budget refuses with the same error. The walk of a causal slice has one
-- round more than targets and parents of entries: an address is expanded once.
--
-- Not modelled: entries and manifests of ledger-format, segments and archives of the journal, the
-- simulator's executors and scheduler, the network's table of names and backoff, the scalar calls and
-- the journaling feature of its storage, the explorer's searches and certificates, fault
-- specifications and the command line, and whatever is input or output.
pub mod Prelude
pub mod Cbor
pub mod Worker
pub mod Format
pub mod Rt
pub mod Explorer
pub mod Journal
pub mod Sim
pub mod Tests
