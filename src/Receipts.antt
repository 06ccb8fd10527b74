-- ===== src/Receipts.antt =====
-- packages/eta-core/src/receipts: the electronic receipts of ETA.
pub mod Sha256
pub mod Uuid
pub mod Batch
pub mod Totals
pub mod Types
pub mod Builder
pub mod Validator
mod Tests
