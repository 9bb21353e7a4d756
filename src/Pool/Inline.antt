-- ===== src/Pool/Inline.antt =====
-- numtoy-core/src/pool.rs: a task worked off through the queue and one run inline.
use num_toy.Prelude.{
  ℕ, zero, suc, ◌≡◌, refl, ap, ◌∙◌, Bool, true, false, Option, List, [], ◌∷◌, if◌then◌else◌,
}
use num_toy.Graph.{ArenaGraph}
use num_toy.Pool.{
  Task, tile, fuse, assemble, process_task, xtreme_run_inline, assemble_task, contains_key,
  insert_some,
}

module _ {K : Type 0} (compile : ArenaGraph → Option K) where
  -- A worker that pops the tasks of its own queue, `f` of them at most, and gets no others.
  unfoldable pub work_off : ℕ → Bool → List Task → List (ℕ × K) → List Task × List (ℕ × K)
  work_off zero is_xtreme queue cache = (queue, cache)
  work_off (suc f) is_xtreme [] cache = ([], cache)
  work_off (suc f) is_xtreme (t ∷ rest) cache =
      let (queue, cache') = process_task compile t rest is_xtreme cache in
      work_off f is_xtreme queue cache'

  abbrev pub graph_of : Task → ArenaGraph
  graph_of (tile g h) = g
  graph_of (fuse g h) = g
  graph_of (assemble g h) = g

  work_off_done :
      (f : ℕ) (is_xtreme : Bool) (cache : List (ℕ × K))
      → work_off f is_xtreme [] cache ≡ ([], cache)
  unfolding work_off
  work_off_done zero is_xtreme cache = refl
  work_off_done (suc f) is_xtreme cache = refl

  -- What a fuse task leaves in the queue, by whether its graph is stabilized.
  fused_lem :
      (f : ℕ) (g : ArenaGraph) (h : ℕ) (b is_stabilized : Bool) (cache : List (ℕ × K))
      → ((g : ArenaGraph) → compile (record g { is_stabilized = true }) ≡ compile g)
      → work_off
          (suc (suc f))
          b
          ((if is_stabilized then assemble g h else fuse (record g { is_stabilized = true }) h)
            ∷ [])
          cache
        ≡ ([], assemble_task compile g h cache)
  unfolding work_off process_task assemble_task
  fused_lem f g h b true cache same = work_off_done (suc f) b (assemble_task compile g h cache)
  fused_lem f g h b false cache same =
      work_off_done f b (assemble_task compile (record g { is_stabilized = true }) h cache)
      ∙ ap (λ k. ([], (if contains_key cache h then cache else insert_some k h cache))) (same g)

  -- A fuse task takes two rounds, or three where the graph is not stabilized yet.
  fuse_done :
      (f : ℕ) (g : ArenaGraph) (h : ℕ) (b : Bool) (cache : List (ℕ × K))
      → ((g : ArenaGraph) → compile (record g { is_stabilized = true }) ≡ compile g)
      → work_off (suc (suc (suc f))) b (fuse g h ∷ []) cache ≡ ([], assemble_task compile g h cache)
  unfolding work_off process_task
  fuse_done f g h b cache same = fused_lem f g h b g.is_stabilized cache same

  -- Four rounds work off any one task, in either mode, where the compiler does not look at whether
  -- the graph is stabilized; the cache is then what running the task inline makes of it.
  pub work_off-inline :
      (t : Task) (is_xtreme : Bool) (cache : List (ℕ × K))
      → ((g : ArenaGraph) → compile (record g { is_stabilized = true }) ≡ compile g)
      → work_off 4 is_xtreme (t ∷ []) cache ≡ ([], xtreme_run_inline compile t cache)
  unfolding work_off process_task xtreme_run_inline assemble_task
  work_off-inline (assemble g h) b cache same = refl
  work_off-inline (fuse g h) b cache same = fuse_done 1 g h b cache same
  work_off-inline (tile g h) true cache same = refl
  work_off-inline (tile g h) false cache same = fuse_done 0 g h false cache same
