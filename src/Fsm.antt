-- ===== src/Fsm.antt =====
-- The generic finite-state-machine engine of backend/utils/FSM.go.
pub mod Types
pub mod Envelope
pub mod Options
pub mod Builder
pub mod Machine
pub mod Batch
