-- ===== src/Jit/Emit.antt =====
-- numtoy-core/src/jit/emit.rs and emit_aarch64.rs: machine code.
pub mod X86
pub mod A64
