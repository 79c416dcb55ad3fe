-- ===== src/Types.antt =====
-- pkg/types: hashes, vertices, messages and evidence.
pub mod Hash
pub mod Vertex
pub mod Parents
pub mod Message
pub mod Encoding
pub mod Signer
