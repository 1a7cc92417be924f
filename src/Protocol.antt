-- ===== src/Protocol.antt =====
-- The messages of internal/protocol: the structs, and their decoding from JSON.
pub mod Messages
pub mod Unmarshal
