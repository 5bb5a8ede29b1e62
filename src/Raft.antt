-- ===== src/Raft.antt =====
-- src/raft: the replicated state machine. Each child models one part of raft/node.
pub mod Messages
pub mod Machine
pub mod Node
pub mod Voting
pub mod Replication
pub mod Leading
pub mod Log
pub mod Accepting
pub mod Appending
pub mod Committed
pub mod Ballots
pub mod Commit
pub mod Majority
pub mod Answered
pub mod Committing
pub mod Leadership
pub mod Serving
pub mod Matching
pub mod ExactlyOnce
pub mod Client
pub mod Retries
pub mod Elections
pub mod Steady
pub mod Quorum
pub mod Cluster
pub mod Elected
pub mod Turns
pub mod Preserving
pub mod Campaigns
pub mod History
pub mod Linear
pub mod Safety
pub mod Traced
pub mod Merging
pub mod Net
pub mod Recorded
pub mod Recording
pub mod Received
pub mod Sent
pub mod Matched
pub mod Keeping
pub mod Writing
pub mod Executing
pub mod Winning
pub mod Winners
pub mod Sending
pub mod LogMatching
mod ClientTests
mod ClusterTests
mod LinearTests
mod NetTests
mod CommitTests
mod Tests
