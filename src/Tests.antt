-- ===== src/Tests.antt =====
-- Runs of the program on concrete inputs: data that they share, and the theorems applied to them.
mod Fixtures
mod TokenFixtures
mod Service
mod Postgres
mod Requests
mod Publications
mod Signatures
mod Attributes
mod Tokens
mod Admin
mod Startup
mod Minting
