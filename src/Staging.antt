-- ===== src/Staging.antt =====
-- internal/application/staging: the overlay of parsed files that wait for promotion, and the gate
-- that guards it across branch switches.
pub mod Area
pub mod Gate
