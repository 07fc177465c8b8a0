-- ===== src/DiffGate.antt =====
-- internal/application/diffgate: the gate that judges a candidate change against the base graph.
pub mod Guard
pub mod Verify
pub mod Gate
pub mod Clones
pub mod Security
pub mod Exported
pub mod Untested
