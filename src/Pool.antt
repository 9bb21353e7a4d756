-- ===== src/Pool.antt =====
-- numtoy-core/src/pool.rs: the compilation pool. The kernels and the compiler that makes them are
-- parameters, and so is the digest of a key's bytes; the cache is an association list, the newest
-- entry first. A worker's queue is first in, first out.
pub mod Backoff
pub mod Steps
pub mod Inline
use num_toy.Prelude.{
  ℕ, ◌+◌, Bool, true, false, not, Option, none, some, List, [], ◌∷◌, ◌++◌, Outcome, ok, ◌>>=◌, ◌==◌,
  if◌then◌else◌, length,
}
use num_toy.Scalar.Float.{FloatOps}
use num_toy.Graph.{ArenaGraph}
use num_toy.Cache.{hash_graph}

pub data Task : Type 0 where
  tile : ArenaGraph → ℕ → Task
  fuse : ArenaGraph → ℕ → Task
  assemble : ArenaGraph → ℕ → Task

module _ {K : Type 0} where
  -- `JIT_CACHE.get(&hash)`
  unfoldable pub lookup : List (ℕ × K) → ℕ → Option K
  lookup [] hash = none
  lookup ((h, k) ∷ rest) hash = if h == hash then some k else lookup rest hash

  abbrev pub is_some : Option K → Bool
  is_some none = false
  is_some (some k) = true

  unfoldable pub contains_key : List (ℕ × K) → ℕ → Bool
  contains_key cache hash = is_some (lookup cache hash)

  -- `if let Some(exec_fn) = … { JIT_CACHE.insert(hash, exec_fn); }`
  abbrev pub insert_some : Option K → ℕ → List (ℕ × K) → List (ℕ × K)
  insert_some none hash cache = cache
  insert_some (some k) hash cache = (hash, k) ∷ cache

  module _ (compile : ArenaGraph → Option K) where
    unfoldable pub assemble_task : ArenaGraph → ℕ → List (ℕ × K) → List (ℕ × K)
    assemble_task graph hash cache =
        if contains_key cache hash then cache else insert_some (compile graph) hash cache

    -- The same up to the insertion: what is to be inserted later, if the hash is not in the cache now.
    -- Between the two other threads may insert.
    unfoldable pub begin_assemble : ArenaGraph → ℕ → List (ℕ × K) → List (ℕ × K)
    begin_assemble graph hash cache =
        if contains_key cache hash then [] else insert_some (compile graph) hash []

    -- `local` is the worker's own queue.
    unfoldable pub process_task : Task → List Task → Bool → List (ℕ × K) → List Task × List (ℕ × K)
    process_task (tile graph hash) local is_xtreme cache =
        (local ++ (if is_xtreme then assemble graph hash else fuse graph hash) ∷ [], cache)
    process_task (fuse graph hash) local is_xtreme cache = (
      local
          ++ (if graph.is_stabilized
              then assemble graph hash
              else fuse (record graph { is_stabilized = true }) hash)
            ∷ [],
      cache,
    )
    process_task (assemble graph hash) local is_xtreme cache =
        (local, assemble_task graph hash cache)

    unfoldable pub xtreme_run_inline : Task → List (ℕ × K) → List (ℕ × K)
    xtreme_run_inline (tile graph hash) cache = assemble_task graph hash cache
    xtreme_run_inline (fuse graph hash) cache = assemble_task graph hash cache
    xtreme_run_inline (assemble graph hash) cache = assemble_task graph hash cache

-- the queues that every thread shares, each worker's own, and the cache
pub record ThreadPool (K : Type 0) : Type 0 where
  pub injector : List Task
  pub xtreme_injector : List Task
  pub locals : List (List Task)
  pub xtreme_active : Bool
  pub cache : List (ℕ × K)

unfoldable pub submit :
    {K : Type 0} → FloatOps → (List ℕ → ℕ) → ArenaGraph → ThreadPool K → Outcome (ℕ × ThreadPool K)
submit ops digest graph pool = hash_graph ops graph >>= λ key.
    let hash = digest key in
    ok (
      hash,
      (if pool.xtreme_active
          then record pool { xtreme_injector = pool.xtreme_injector ++ assemble graph hash ∷ [] }
          else if contains_key pool.cache hash
          then pool
          else record pool { injector = pool.injector ++ tile graph hash ∷ [] }),
    )
