-- ===== src/Tests.antt =====
-- The theorems at concrete inputs, and runs of the code on them.
mod Samples
mod Log
mod Latching
mod Coding
mod Follower
mod Leader
mod Elections
mod Versions
mod Store
mod Ids
mod Clock
mod SortedTree
mod Ranges
mod PeerLog
mod Applied
