-- ===== src/Domain.antt =====
-- The service of internal/domain: transactions, the operations of the directory, and their laws.
pub mod Transaction
pub mod Service
pub mod Steps
pub mod Consistency
pub mod Keys
pub mod Revocation
pub mod Identity
pub mod BurnDown
pub mod Auxiliary
pub mod Atomicity
pub mod History
pub mod Reliable
pub mod Directory
pub mod Refinement
