-- ===== src/Domain.antt =====
-- internal/core/domain: the validated entities of the code graph.
pub mod Actor
pub mod Node
pub mod Edge
pub mod Finding
pub mod ParseResult
pub mod TaskSet
pub mod Graph
pub mod Suppression
