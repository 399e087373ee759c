-- ===== src/Registry.antt =====
-- integrations/id_registry.py: the collection-scoped map between business ids and labels.
-- The lock is not modelled: every method holds it from its first read to its last write, but for
-- `drop`, whose two parts are one step here.
pub mod Names
pub mod Ops
pub mod Sound
pub mod Effects
pub mod Kept
pub mod Files
pub mod Inverse
pub mod Saved
pub mod Reuse
pub mod Views
mod Tests
mod FileTests
