-- ===== src/Domain.antt =====
-- src/domain: the error classes, the two state machines, and the sanctioned transitions.
pub mod Errors
pub mod StateMachine
pub mod FindingStatus
pub mod RunStatus
pub mod Audit
pub mod Transitions
pub mod Moves
pub mod RunMoves
pub mod Creation
pub mod Trail
