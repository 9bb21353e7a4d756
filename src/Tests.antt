-- ===== src/Tests.antt =====
-- Runs of the model on small inputs, and the theorems applied to them.
pub mod Inputs
pub mod Jit
pub mod Others
pub mod Scalars
pub mod Connections
pub mod Arm
pub mod Arrays
