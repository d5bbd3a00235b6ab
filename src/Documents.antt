-- ===== src/Documents.antt =====
-- The governed documents: their records, the store, the lifecycle and the publication.
pub mod Kinds
pub mod Model
pub mod Codes
pub mod Store
pub mod Repository
pub mod Governance
pub mod Service
pub mod Lifecycle
pub mod Restoration
pub mod Worker
pub mod Publication
