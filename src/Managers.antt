-- ===== src/Managers.antt =====
-- internal/managers: what the resolvers call, over the storage adapter.
pub mod Topics
pub mod Collections
pub mod Records
pub mod Teas
pub mod Tags
mod Tests
