-- ===== src/Pool/Steps.antt =====
-- numtoy-core/src/pool.rs: the threads of the pool as steps on its shared state. The check of the cache
-- with the compilation, and the insertion of the kernel, are two steps, so that other threads may check
-- and insert between them.
pub mod Sound
use num_toy.Prelude.{
  ℕ, ◌≡◌, Bool, Option, none, some, List, [], ◌∷◌, ◌++◌, Outcome, ok, get_elem?, set,
}
use num_toy.Scalar.Float.{FloatOps}
use num_toy.Graph.{ArenaGraph}
use num_toy.Cache.{hash_graph}
use num_toy.Pool.{
  Task, tile, fuse, assemble, ThreadPool, lookup, process_task, begin_assemble, submit,
}

-- the shared state, and the kernels that threads have compiled and not inserted yet
pub record Threads (K : Type 0) : Type 0 where
  pub pool : ThreadPool K
  pub compiled : List (ℕ × K)

module _ {K : Type 0} (ops : FloatOps) (digest : List ℕ → ℕ) (compile : ArenaGraph → Option K) where
  -- what `process_task` begins to insert
  unfoldable pub begun : Task → List (ℕ × K) → List (ℕ × K)
  begun (tile graph hash) cache = []
  begun (fuse graph hash) cache = []
  begun (assemble graph hash) cache = begin_assemble compile graph hash cache

  -- what `xtreme_run_inline` begins to insert
  unfoldable pub begun_inline : Task → List (ℕ × K) → List (ℕ × K)
  begun_inline (tile graph hash) cache = begin_assemble compile graph hash cache
  begun_inline (fuse graph hash) cache = begin_assemble compile graph hash cache
  begun_inline (assemble graph hash) cache = begin_assemble compile graph hash cache

  -- `process_task` by worker `w` on the state `p`, up to an insertion; the worker's queue is `local`
  unfoldable pub run_local : Threads K → ThreadPool K → ℕ → Task → List Task → Bool → Threads K
  run_local m p w t local is_xtreme =
      let queue = (process_task compile t local is_xtreme p.cache).0 in
      record {
        pool = record p { locals = set p.locals w queue };
        compiled = m.compiled ++ begun t p.cache;
      }

  -- One round of `worker_loop` or `xtreme_worker_loop` up to an insertion, an insertion, a submission,
  -- or a change of mode. A worker may have read the mode before it changed.
  pub data Step : Threads K → Threads K → Type 0 where
    submitted :
        (m : Threads K) (g : ArenaGraph) (out : ℕ × ThreadPool K)
        → submit ops digest g m.pool ≡ ok out
        → Step m (record m { pool = out.1 })
    -- the push of `submit` when other threads ran since it read the mode and the cache
    pushed :
        (m : Threads K) (g : ArenaGraph) (key : List ℕ)
        → hash_graph ops g ≡ ok key
        → Step m (record m {
          pool = record m.pool { injector = m.pool.injector ++ tile g (digest key) ∷ [] };
        })
    pushed_xtreme :
        (m : Threads K) (g : ArenaGraph) (key : List ℕ)
        → hash_graph ops g ≡ ok key
        → Step m (record m {
          pool = record m.pool {
            xtreme_injector = m.pool.xtreme_injector ++ assemble g (digest key) ∷ [];
          };
        })
    popped :
        (m : Threads K) (w : ℕ) (t : Task) (rest : List Task) (is_xtreme : Bool)
        → get_elem? m.pool.locals w ≡ some (t ∷ rest)
        → Step m (run_local m m.pool w t rest is_xtreme)
    -- `injector.steal_batch_and_pop(&local)`
    stolen :
        (m : Threads K) (w : ℕ) (t : Task) (own batch rest : List Task) (is_xtreme : Bool)
        → get_elem? m.pool.locals w ≡ some own
        → m.pool.injector ≡ t ∷ batch ++ rest
        → Step m (run_local m (record m.pool { injector = rest }) w t (own ++ batch) is_xtreme)
    -- the same from the queue of worker `v`
    robbed :
        (m : Threads K) (v w : ℕ) (t : Task) (own batch rest : List Task) (is_xtreme : Bool)
        → get_elem? m.pool.locals w ≡ some own
        → get_elem? m.pool.locals v ≡ some (t ∷ batch ++ rest)
        → Step m (
            run_local m
              (record m.pool { locals = set m.pool.locals v rest })
              w
              t
              (own ++ batch)
              is_xtreme)
    inline :
        (m : Threads K) (t : Task) (rest : List Task)
        → m.pool.xtreme_injector ≡ t ∷ rest
        → Step m (record {
          pool = record m.pool { xtreme_injector = rest };
          compiled = m.compiled ++ begun_inline t m.pool.cache;
        })
    -- the eager mode of `execute_expr_on_device`, which compiles and inserts outside the pool
    eager :
        (m : Threads K) (g : ArenaGraph) (key : List ℕ) (k : K)
        → hash_graph ops g ≡ ok key
        → lookup m.pool.cache (digest key) ≡ none
        → compile g ≡ some k
        → Step m (record m { compiled = m.compiled ++ (digest key, k) ∷ [] })
    -- `JIT_CACHE.insert`, which replaces an entry with the same hash
    inserted :
        (m : Threads K) (before after : List (ℕ × K)) (hash : ℕ) (k : K)
        → m.compiled ≡ before ++ (hash, k) ∷ after
        → Step m (record {
          pool = record m.pool { cache = (hash, k) ∷ m.pool.cache };
          compiled = before ++ after;
        })
    switched :
        (m : Threads K) (is_xtreme : Bool)
        → Step m (record m { pool = record m.pool { xtreme_active = is_xtreme } })

  pub data Reaches : Threads K → Threads K → Type 0 where
    here : (m : Threads K) → Reaches m m
    and_then : (m q r : Threads K) → Reaches m q → Step q r → Reaches m r
