-- ===== src/Tests.antt =====
-- Concrete runs of the theorems, and small tests of the code.
pub mod DiffGate
pub mod Domain
pub mod Staging
pub mod Promotion
pub mod Queue
pub mod Blast
pub mod CrashLoop
pub mod Storage
pub mod ColdScan
pub mod Resync
pub mod Services
pub mod Coverage
pub mod Duplicates
pub mod Gates
pub mod Checks
pub mod Governor
