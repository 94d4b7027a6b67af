-- ===== src/Raft.antt =====
-- The raft package: raft/log.go, raft/raft.go, raft/rawnode.go, raft/storage.go, and the messages of
-- proto/pkg/eraftpb/eraftpb.pb.go that it uses.
pub mod Pb
pub mod Storage
pub mod Log
pub mod Node
pub mod Replication
pub mod Commit
pub mod Append
pub mod Election
pub mod Member
pub mod Step
pub mod Frame
pub mod Invariant
pub mod Terms
pub mod RawNode
