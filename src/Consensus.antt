-- ===== src/Consensus.antt =====
-- The consensus package: quorum sizes and the proposer.
pub mod Quorum
pub mod Proposer
