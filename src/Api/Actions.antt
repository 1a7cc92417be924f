-- ===== src/Api/Actions.antt =====
-- The actions of internal/api/protocol_actions.go.
pub mod Keys
pub mod Identity
pub mod Auxiliary
pub mod Other
