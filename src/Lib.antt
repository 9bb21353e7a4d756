-- ===== src/Lib.antt =====
-- NumToy: lazy arrays whose expressions are compiled to machine code, shared between threads and
-- nodes.
--
-- An array operation builds an expression (numtoy-core/src/ir.rs). Executing it turns the expression
-- into an arena (graph.rs), looks its key up in the kernel cache (cache.rs), and submits it to the
-- compilation pool (pool.rs). The custom JIT lowers the arena to SSA instructions, allocates
-- registers and checks the program (jit/ir.rs, jit/bounds.rs), and emits x86-64 or AArch64
-- code (jit/emit.rs, jit/emit_aarch64.rs).
-- Large operations are cut into tiles and sent to other nodes (network.rs). Shapes broadcast by the
-- rules of array.rs. All paths below are under numtoy-core/src.
--
-- The modules, each with the code it is about:
--   Prelude      shared names, lists, bytes, and the result type `Outcome` of code that can panic
--   Scalar       types.rs: element types and scalars; Scalar.Float is the f64 arithmetic, a parameter
--                without any law
--   Scalar.Limbs, Scalar.Ints, Scalar.Fields   types.rs: wide integers and bit fields as limbs
--   Scalar.CustomFloat, Scalar.WideFloat   types.rs: floats of any width, in one word and as limbs
--   Scalar.Codec types.rs: to_limbs and from_limbs, with the element helpers of fuser.rs
--   Scalar.Scalable   types.rs: the widths chosen for scalable values
--   Ir           ir.rs: the expression type, its queries, symbolic differentiation (Ir.Grad, with dual numbers)
--   Graph        graph.rs: the arena; Graph.Represents says which expression a node spells out
--   Jit.Program  jit/ir.rs: instructions and programs
--   Jit.Lower    jit/ir.rs: LowerCtx, lower_node, lower_binop, with the memo table and input slots
--   Jit.Intervals, Jit.Alloc   jit/ir.rs: compute_intervals and linear_scan_alloc
--   Jit.Compile  jit/ir.rs: try_lower
--   Jit.Bounds   jit/bounds.rs: check_program and the guard zone
--   Jit.Emit     jit/emit.rs: the x86-64 assembler and emit_kernel_x86_64 (X86);
--                jit/emit_aarch64.rs: the AArch64 assembler and emit_kernel_aarch64 (A64)
--   Jit.Value, Jit.Run   the meaning of an expression at one element, and of instructions on virtual
--                and on physical registers, in the two-address form of the emitted code
--   Jit.Correct  from try_lower to that meaning
--   Jit.Stores   from try_lower and the buffers of array.rs's execute_expr_on_device to the expression,
--                each variable in its own width
--   Array        array.rs: numel, strides, transpose, broadcast_shape, the index arithmetic of
--                broadcast_to, to_flat_f64 with broadcast_to itself (Array.Stretch), and reshape,
--                align_broadcast and the operators (Array.Operators); Array.Slice is slice_and_dice of
--                lib.rs
--   Network      network.rs: RingBuffer (Ring), decompose and reassemble (Tiles), the messages (Wire),
--                the connections with dispatch and collect (Coordinator), and the loops that read a
--                stream (Session)
--   Cache        cache.rs: the bytes fed to the hasher
--   Pool         pool.rs: submit, process_task, xtreme_run_inline, idle_backoff, and the threads as
--                steps on shared state (Pool.Steps)
--   Kernel       fuser.rs: MicroKernel, and the order of buffers of array.rs's execute_expr_on_device;
--                Kernel.Wide is the 128-bit helpers, Kernel.Packed the packed loads and stores,
--                Kernel.Matmul the product with packed weights
--   Tests        small inputs, and the theorems applied to them
--
-- Numbers are natural numbers. Where a machine word wraps around in a release build, or by a
-- wrapping operation, the model writes it out. The sizes, strides and ranges of arrays are
-- unbounded instead: the product of dimensions (`numel`, `Ir.size`) and the span and stride of a
-- slice (`slice_dim`) are those of the source where they fit 64 bits, which those of an array in
-- memory do; larger dimensions or slice arguments are outside the model. `neg_i64` negates
-- i64::MIN to itself, as a release build does. An f64 or f32 is its bit pattern. A panic is the
-- outcome `fault`, a `None` or an I/O error `refused`.
--
-- Recursion through node ids runs on fuel, the number of nodes of the arena. A path of distinct ids
-- is no longer, and the arena of `from_expr` has at least as many nodes as its expression is deep.
--
-- The rounds of `collect` are those begun before its deadline, and what the receive threads
-- insert comes between them. The flag `alive` of a connection is loaded by its receive thread in
-- each round, as other threads leave it for that round. The loops over a stream run on its
-- length, since each round reads a byte.
--
-- Not modelled: the rest of the Cranelift kernels (fuser.rs) and of the bindings (lib.rs), the
-- hardware engine, the GPU and the signal handlers, which call other libraries; sockets, threads
-- and their priorities. In the pool the check of the cache with the compilation is one step and
-- the insertion another, so that other threads may come between; popping and pushing are one
-- step with the first. `submit` is one step, or its push is one, after others ran since its check. The digest of a key, the compiler and the kernels are
-- parameters there, and the engine's pack and unpack and the execution of an expression are
-- parameters of the arrays. The memory behind the kernels' pointers is the value of each variable
-- at one index.
pub mod Prelude
pub mod Scalar
pub mod Ir
pub mod Graph
pub mod Jit
pub mod Kernel
pub mod Array
pub mod Network
pub mod Cache
pub mod Pool
pub mod Tests
