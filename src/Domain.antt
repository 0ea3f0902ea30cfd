-- ===== src/Domain.antt =====
-- internal/domain: polls, votes, errors, identifiers.
pub mod Errors
pub mod Uuid
pub mod Poll
