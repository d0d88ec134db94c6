-- ===== src/Operations.antt =====
-- The controlled-operation workflow: src/commerce_agent/operations.
pub mod Errors
pub mod Contracts
pub mod Commands
pub mod Ports
pub mod Canonical
pub mod Approval
pub mod References
pub mod State
pub mod Preview
pub mod Proposals
pub mod Decisions
pub mod Execution
pub mod Workflow
pub mod Invariant
pub mod Backtest
