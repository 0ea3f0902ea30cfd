-- ===== src/Tests.antt =====
-- The theorems at concrete inputs, and tests of the definitions.
mod DomainTests
mod StoreTests
mod HttpTests
mod IdentityTests
mod ServiceTests
mod PostgresTests
mod HistoryTests
mod MigrationTests
mod ConfigTests
mod AdminTests
mod ClosingTests
