-- ===== src/Consensus.antt =====
-- Aurora, the stake-weighted consensus (consensus/src).
pub mod Validators
pub mod Votes
pub mod Ballots
pub mod Quorum
pub mod Engine
pub mod Commits
