-- ===== src/Core.antt =====
-- The directory core: the orphan buffer, the DAG and what feeds and guards them.
pub mod Orphanage
pub mod Slasher
pub mod Dag
pub mod Validation
pub mod Heap
pub mod Pending
pub mod Fetcher
pub mod Crypto
pub mod Validator
