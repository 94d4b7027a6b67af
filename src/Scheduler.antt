-- ===== src/Scheduler.antt =====
-- scheduler/server: the parts of the scheduler that keep state of their own.
pub mod Etcd
pub mod Ids
pub mod Time
pub mod Tso
pub mod Regions
