-- ===== src/Service.antt =====
-- internal/service: the cache of polls and the services of votes, polls and results, over the repository
-- in the database and the store in Redis; internal/worker, which calls them.
pub mod World
pub mod Cache
pub mod Votes
pub mod Polls
pub mod Results
pub mod Rounds
