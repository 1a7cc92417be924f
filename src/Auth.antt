-- ===== src/Auth.antt =====
-- internal/auth: the key file, and the tokens of the administration.
pub mod KeyFile
pub mod Fields
pub mod KeyFileRoundTrip
pub mod KeyFileFormat
pub mod Tokens
pub mod Lifetime
pub mod Refreshes
