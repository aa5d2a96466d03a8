-- ===== src/Operations.antt =====
-- internal/controller/operation_plan.go and operation_wiring.go: the declared operations.
pub mod Plan
pub mod Choice
pub mod Acks
mod Reported
pub mod Wiring
mod Examples
