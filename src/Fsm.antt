-- ===== src/Fsm.antt =====
-- The state machines of src/hqmts/statemachine.
pub mod Machine
pub mod Order
pub mod Strategy
pub mod Reservation
pub mod Recovery
pub mod Reconciliation
pub mod AgentProposal
pub mod AgentTask
pub mod Approval
pub mod ControlledExecution
pub mod ResearchProject
pub mod Consistency
pub mod Gates
pub mod Ends
pub mod Gaps
mod Examples
