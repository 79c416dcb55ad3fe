-- ===== src/Tests.antt =====
-- Runs of the model on small inputs, by component.
pub mod Data
mod Encoding
mod Fetches
mod Ledger
mod Generated
mod Buffer
mod Peers
mod Penalties
mod Requests
mod Messages
mod Rounds
mod Exchange
mod Node
