-- ===== src/Native.antt =====
-- The native OpenFOAM commands: their contracts (tools/native_contracts.py) and the execution
-- scopes they are bound to (contracts/execution_scopes.py).
pub mod Errors
pub mod Contracts
pub mod Scopes
pub mod Commands
mod Examples
