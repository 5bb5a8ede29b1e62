-- ===== src/Mtf.antt =====
-- src/metamorphosis: the replicated queue. Each child models one part of metamorphosis/node.
pub mod Messages
pub mod Node
pub mod Voting
pub mod Replication
pub mod Appends
pub mod Leading
pub mod Counting
pub mod Log
pub mod Accepting
pub mod Appending
pub mod Requests
pub mod Contents
pub mod Pending
pub mod Producers
pub mod MainNodes
pub mod Reads
pub mod Elections
mod Tests
