-- ===== src/Inventory.antt =====
-- internal/inventory: the node inventory, its validation and the choices made from it.
mod Types
unfoldable pub use Types.*
pub mod Key
pub mod Check
pub mod Select
pub mod Diff
