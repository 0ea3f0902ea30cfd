-- ===== src/Http.antt =====
-- internal/httpapi: the handler of votes, the answers to errors, the counters of votes.
pub mod Answers
pub mod Votes
pub mod Admin
pub mod Middleware
pub mod Public
pub mod Closing
