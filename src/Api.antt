-- ===== src/Api.antt =====
-- The HTTP interface of internal/api: the protocol's actions and their dispatch.
pub mod Handler
pub mod Signatures
pub mod Actions
pub mod HttpSignature
pub mod Dispatch
pub mod Routes
pub mod Transparency
pub mod Runs
pub mod KeyRuns
pub mod Errors
pub mod Authority
pub mod Accepted
pub mod Published
pub mod Signed
pub mod Invariant
pub mod Reads
pub mod Listings
pub mod AuthMiddleware
pub mod Admin
pub mod Authorized
pub mod AdminTokens
pub mod Shredding
pub mod Gossip
