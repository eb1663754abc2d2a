-- ===== src/Store.antt =====
-- The generic two-phase store: src/storage/store/account/store.rs over the encoding of
-- src/storage/store/account/message.rs.
pub mod Types
pub mod Codec
pub mod Compare
pub mod Conflicts
pub mod Writes
pub mod Merge
