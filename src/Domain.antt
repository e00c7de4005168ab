-- ===== src/Domain.antt =====
-- internal/domain/domain.go: the pure helpers that the rest of the system shares.
pub mod Time
pub mod Charge
pub mod Uri
pub mod CallState
mod Examples
