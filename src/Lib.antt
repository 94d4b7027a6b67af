-- ===== src/Lib.antt =====
-- The tinykv verification library: a model of the Raft consensus core of the repository's
-- raft package and of parts of its kv server and its scheduler, with the theorems that make them
-- correct.
--
-- The parts and how they interact. A RawNode (raft/rawnode.go) wraps a Raft (raft/raft.go), the
-- state of one member, which holds a RaftLog (raft/log.go) over a Storage (raft/storage.go). The
-- application calls RawNode.Step with each message and RawNode.Tick at each tick; Raft.Step
-- dispatches on the node's state and the message's type to a handler; a handler changes the state
-- and the log and queues messages. Ready hands out what is to be stored, applied and sent, and
-- Advance marks it as done.
--
--   Prelude                the shared names; Prelude/Tests, Lists, Words, Strings,
--                          Outcome, Assoc
--   Raft/Pb                the types of proto/pkg/eraftpb/eraftpb.pb.go
--   Raft/Storage           the interface of raft/storage.go; Raft/Storage/Memory: MemoryStorage
--   Raft/Log               raft/log.go; Raft/Log/Shape: a valid log; Reads;
--                          Compact; Survives
--   Raft/Node              Config, Progress, Raft, newRaft, becomeFollower
--   Raft/Append            handleAppendEntries; Split, Merge, Follower, Reject, Cases
--   Raft/Replication       handleMsgPropose, sendAppend, sendSnapshot; Propose, Send
--   Raft/Commit            handleMsgAppendResponse; Quorum
--   Raft/Election          tick, campaigns, votes, heartbeats; Votes, Revote
--   Raft/Member            handleSnapshot, addNode, removeNode; Peers, Recommit
--   Raft/Step              Step, handleLeaderTransfer, handleMsgTimeOut
--   Raft/Frame             what broadcasts leave alone
--   Raft/Invariant, Terms  what every step keeps
--   Raft/RawNode           raft/rawnode.go; Handed, Handover
--
-- Beside it stand parts of the kv server: the latches, which its transaction commands take before
-- they write (kv/transaction/latches/latches.go), the encoding of keys (kv/util/codec/codec.go),
-- and the keys, locks and writes of transactions (kv/transaction/mvcc), which are stored with it.
--   Latches                AcquireLatches, ReleaseLatches; Keys, Exclusion, Release
--   Codec                  EncodeBytes, DecodeBytes; RoundTrip, Canonical, Order
--   Mvcc                   EncodeKey, Lock, Write; Keys, Records
--
-- The scheduler's leader gives out ids (scheduler/server/id/id.go) and timestamps
-- (scheduler/server/tso/tso.go), and saves in etcd how far it may go, where its successor finds it.
--   Scheduler/Etcd         what is asked of etcd
--   Scheduler/Ids          Alloc; Calls, Unique
--   Scheduler/Time         the arithmetic of times; scheduler/pkg/typeutil, tsoutil
--   Scheduler/Tso          the timestamp oracle; Clock, Saves, Safe, Steps, Rounds,
--                          Reach, Order, Constraints, Refill
--
-- The scheduler also keeps the regions that the stores report, by their ranges of keys
-- (scheduler/server/core/region_tree.go).
--   Scheduler/Regions      the region tree; Keys, Btree, Find, Overlaps, Update,
--                          Remove
--
-- The kv server keeps each peer's raft log in an engine (kv/raftstore/peer_storage.go), and applies
-- what raft has committed (HandleCommitEnts of kv/raftstore/peer_msg_handler.go): normal requests write
-- to the engine and answer the proposals that wait for them, admin requests compact the log, change the
-- members or split the region.
--   Raftstore              the peer storage's log; Log, Restart
--   Raftstore/Cmd          regions and commands; Check: the checks of keys and epochs
--   Raftstore/Engine       kv/util/engine_util: column families, batches of writes
--   Raftstore/Apply        proposals and normal requests; Pop, Callbacks; Admin: the admin requests;
--                          Commit: the loop over the entries, and Commit/Once
--   Tests                  sample nodes and runs
--
-- A handler is a function from the state and the message to a Result of the state: a Go panic
-- (explicit, out of range, a nil dereference, an assertion) is the Result `panic`. A `return` in
-- the middle is an if around what follows. Fields and functions keep their names, in snake_case;
-- Go's Step is `step`, and RawNode's are `raw_step`, `raw_tick`.
--
-- Numbers. A uint64 is a natural number and its arithmetic wraps (`add64`, `sub64`). The tick
-- counters and lengths, of Go's int, are unbounded. The -1 of realIdx is `none`; an index that
-- becomes an int is negative from 2^63 on. Loops are recursion on the list they range over, or
-- on the number of rounds that their bounds leave. The one loop with fuel is DecodeBytes's: a
-- round takes nine bytes off, it gets one round more than it has bytes, and running out of
-- rounds is a result of its own. A Go time is the number of nanoseconds since the year 1; where
-- a theorem on the timestamp oracle needs that UnixNano and differences do not wrap, times lie
-- between 1970 and 2043.
--
-- What is a parameter. The Storage behind the log is a record of its answers. rand.Int is a
-- stream of results in the field `rand`. The marshalling of a ConfChange is an argument. Etcd is
-- a record of operations, with the laws that its documentation gives: a transaction is atomic,
-- and one that ends in an error may have been applied. The B-tree of scheduler/pkg/btree, a copy
-- of a library, is a record of the operations on it and what they promise on items that are
-- ordered by their keys. The badger engine of a peer's log is a map from indices to entries, of
-- which a read may fail; that of the data is the values of its keys, and writes to it do not
-- fail. The decoding of commands and the B-tree of the store's regions are parameters. The
-- clock's readings, the expiry of a lease and what other calls do while GetRespTS sleeps are
-- arguments.
--
-- What is not modelled. Log output. Pointers: one that may be nil is an Option, and a message
-- holds the values of its entries, where Go holds pointers into the log's slice. The marshalling
-- of messages. The transport and the application, WaitForLatches (the loop around
-- AcquireLatches), the rest of kv and of the scheduler. MvccTxn's reads and writes, the scanner
-- and the transaction handlers of the server are stubs in the repository. Of a peer, its
-- messages, ticks and the proposing of commands; what it sends to the store's workers and to the
-- router is a list. Of the peer storage, snapshots and the clearing of data; of the region tree,
-- the choice of a random region.
pub mod Prelude
pub mod Codec
pub mod Latches
pub mod Raft
pub mod Tests
pub mod Mvcc
pub mod Raftstore
pub mod Scheduler
