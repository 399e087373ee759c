-- ===== src/Erase.antt =====
-- integrations/erase_service.py: the control-plane hard delete.
pub mod Types
pub mod Status
pub mod Complete
pub mod Batch
pub mod Compaction
pub mod Proofs
pub mod Service
pub mod Loop
pub mod Accounts
pub mod Accounted
pub mod Receipts
pub mod Choice
pub mod Tests
