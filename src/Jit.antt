-- ===== src/Jit.antt =====
-- numtoy-core/src/jit: the custom JIT, from an arena to a register-allocated program.
pub mod Program
pub mod Bounds
pub mod Run
pub mod Shape
pub mod Lower
pub mod Value
pub mod Alloc
pub mod Intervals
pub mod Compile
pub mod Exec
pub mod Finish
pub mod Emit
pub mod Correct
pub mod Stores
