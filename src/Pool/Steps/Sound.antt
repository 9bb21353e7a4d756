-- ===== src/Pool/Steps/Sound.antt =====
-- numtoy-core/src/pool.rs with cache.rs: every kernel in the cache was compiled from a graph with its
-- key, and every hash that is served stays served.
use num_toy.Prelude.{
  ok-injective, ℕ, zero, suc, ◌≡◌, refl, sym, ◌∙◌, subst, Bool, true, false, Option, none, some,
  List, [], ◌∷◌, ◌++◌, ok, >>=-eq-ok, get_elem?, set, ◌==◌, ==_iff, if◌then◌else◌, Bool-cases, inl,
  inr,
}
use num_toy.Scalar.Float.{FloatOps}
use num_toy.Graph.{ArenaGraph}
use num_toy.Cache.{hash_graph}
use num_toy.Pool.{
  Task, tile, fuse, assemble, ThreadPool, lookup, contains_key, insert_some, begin_assemble,
  process_task, submit,
}
use num_toy.Pool.Steps.{
  Threads, begun, begun_inline, run_local, Step, eager, inserted, submitted, pushed, pushed_xtreme,
  popped, stolen, robbed, inline, switched, Reaches, here, and_then,
}

lookup_same :
    {K : Type 0} (cache : List (ℕ × K)) (hash h : ℕ) (k : K)
    → (hash == h) ≡ true
    → lookup ((hash, k) ∷ cache) h ≡ some k
unfolding lookup
lookup_same cache hash h k e = rw e

lookup_other :
    {K : Type 0} (cache : List (ℕ × K)) (hash h : ℕ) (k : K)
    → (hash == h) ≡ false
    → lookup ((hash, k) ∷ cache) h ≡ lookup cache h
unfolding lookup
lookup_other cache hash h k e = rw (e, lookup)

module _ {K : Type 0} (ops : FloatOps) (digest : List ℕ → ℕ) (compile : ArenaGraph → Option K) where
  -- `hash` is the digest of the key of `g`.
  abbrev pub Keyed : ArenaGraph → ℕ → Type 0
  Keyed g hash = (key : List ℕ) × (hash_graph ops g ≡ ok key) × (hash ≡ digest key)

  abbrev pub GoodTask : Task → Type 0
  GoodTask (tile g hash) = Keyed g hash
  GoodTask (fuse g hash) = Keyed g hash
  GoodTask (assemble g hash) = Keyed g hash

  abbrev pub AllGood : List Task → Type 0
  AllGood [] = Unit
  AllGood (t ∷ ts) = GoodTask t × AllGood ts

  abbrev pub AllQueues : List (List Task) → Type 0
  AllQueues [] = Unit
  AllQueues (q ∷ qs) = AllGood q × AllQueues qs

  -- What the cache serves for a hash was compiled from a graph with that hash.
  abbrev pub Served : List (ℕ × K) → Type 0
  Served cache =
      (hash : ℕ) (k : K)
      → lookup cache hash ≡ some k
      → (g : ArenaGraph) × Keyed g hash × (compile g ≡ some k)

  pub record IsPool (p : ThreadPool K) : Type 0 where
    pub injected : AllGood p.injector
    pub xtreme : AllGood p.xtreme_injector
    pub queued : AllQueues p.locals
    pub served : Served p.cache

  -- the kernels that are still to be inserted, likewise
  abbrev pub AllCompiled : List (ℕ × K) → Type 0
  AllCompiled [] = Unit
  AllCompiled ((hash, k) ∷ more) =
      ((g : ArenaGraph) × Keyed g hash × (compile g ≡ some k)) × AllCompiled more

  pub record IsThreads (m : Threads K) : Type 0 where
    pub pool : IsPool m.pool
    pub compiled : AllCompiled m.compiled

  -- A hash that is served stays served.
  abbrev pub Keeps : List (ℕ × K) → List (ℕ × K) → Type 0
  Keeps cache cache' =
      (hash : ℕ) (k : K) → lookup cache hash ≡ some k → (k' : K) × (lookup cache' hash ≡ some k')

  AllCompiled-append :
      (xs ys : List (ℕ × K)) → AllCompiled xs → AllCompiled ys → AllCompiled (xs ++ ys)
  AllCompiled-append [] ys h k = k
  AllCompiled-append (x ∷ xs) ys (h, hs) k = (h, AllCompiled-append xs ys hs k)

  AllCompiled-split :
      (xs ys : List (ℕ × K)) → AllCompiled (xs ++ ys) → AllCompiled xs × AllCompiled ys
  AllCompiled-split [] ys h = (tt, h)
  AllCompiled-split (x ∷ xs) ys (h, hs) = let (l, r) = AllCompiled-split xs ys hs in ((h, l), r)

  AllGood-append : (xs ys : List Task) → AllGood xs → AllGood ys → AllGood (xs ++ ys)
  AllGood-append [] ys h k = k
  AllGood-append (x ∷ xs) ys (h, hs) k = (h, AllGood-append xs ys hs k)

  AllGood-left : (xs ys : List Task) → AllGood (xs ++ ys) → AllGood xs
  AllGood-left [] ys h = tt
  AllGood-left (x ∷ xs) ys (h, hs) = (h, AllGood-left xs ys hs)

  AllGood-right : (xs ys : List Task) → AllGood (xs ++ ys) → AllGood ys
  AllGood-right [] ys h = h
  AllGood-right (x ∷ xs) ys (h, hs) = AllGood-right xs ys hs

  AllQueues-get :
      (qs : List (List Task)) (w : ℕ) (q : List Task)
      → AllQueues qs
      → get_elem? qs w ≡ some q
      → AllGood q
  AllQueues-get [] w q h e = absurd (cc)
  AllQueues-get (x ∷ qs) zero q (h, hs) e = let same : x ≡ q = cc in subst AllGood same h
  AllQueues-get (x ∷ qs) (suc w) q (h, hs) e = AllQueues-get qs w q hs e

  AllQueues-set :
      (qs : List (List Task)) (w : ℕ) (q : List Task)
      → AllQueues qs
      → AllGood q
      → AllQueues (set qs w q)
  AllQueues-set [] w q h k = tt
  AllQueues-set (x ∷ qs) zero q (h, hs) k = (k, hs)
  AllQueues-set (x ∷ qs) (suc w) q (h, hs) k = (h, AllQueues-set qs w q hs k)

  -- An insertion serves the new kernel for its hash, and leaves the others.
  insert_lem :
      (cache : List (ℕ × K)) (g : ArenaGraph) (hash : ℕ) (k : K)
      → Keyed g hash
      → compile g ≡ some k
      → Served cache
      → Served ((hash, k) ∷ cache) × Keeps cache ((hash, k) ∷ cache)
  insert_lem cache g hash k keyed c s = (served, keeps)
    where
      served : Served ((hash, k) ∷ cache)
      served h x e = elim (Bool-cases (hash == h)) [
        | inl same ↦
            let eq : hash ≡ h = (==_iff hash h).0 same in
            let value : some k ≡ some x = sym (lookup_same cache hash h k same) ∙ e in
            (g, subst (Keyed g) eq keyed, c ∙ value)
        | inr other ↦ s h x (sym (lookup_other cache hash h k other) ∙ e)
      ]

      keeps : Keeps cache ((hash, k) ∷ cache)
      keeps h x e = elim (Bool-cases (hash == h)) [
        | inl same ↦ (k, lookup_same cache hash h k same)
        | inr other ↦ (x, lookup_other cache hash h k other ∙ e)
      ]

  begin_lem :
      (g : ArenaGraph) (hash : ℕ) (cache : List (ℕ × K))
      → Keyed g hash
      → AllCompiled (begin_assemble compile g hash cache)
  unfolding begin_assemble
  begin_lem g hash cache keyed = elim (Bool-cases (contains_key cache hash)) [
    | inl e ↦ rw e tt
    | inr e ↦ rw e (made (compile g) refl)
  ]
    where
      made : (out : Option K) → compile g ≡ out → AllCompiled (insert_some out hash [])
      made none c = tt
      made (some k) c = ((g, keyed, c), tt)

  -- Only whether it is stabilized changes, which the key leaves out.
  Keyed-stabilized :
      (g : ArenaGraph) (hash : ℕ) → Keyed g hash → Keyed (record g { is_stabilized = true }) hash
  unfolding hash_graph
  Keyed-stabilized g hash k = k

  fused_lem :
      (g : ArenaGraph) (hash : ℕ) (is_stabilized : Bool)
      → Keyed g hash
      → GoodTask
          (if is_stabilized then assemble g hash else fuse (record g { is_stabilized = true }) hash)
  fused_lem g hash true keyed = keyed
  fused_lem g hash false keyed = Keyed-stabilized g hash keyed

  tiled_lem :
      (g : ArenaGraph) (hash : ℕ) (is_xtreme : Bool)
      → Keyed g hash
      → GoodTask (if is_xtreme then assemble g hash else fuse g hash)
  tiled_lem g hash true keyed = keyed
  tiled_lem g hash false keyed = keyed

  process_lem :
      (t : Task) (local : List Task) (is_xtreme : Bool) (cache : List (ℕ × K))
      → GoodTask t
      → AllGood local
      → AllGood (process_task compile t local is_xtreme cache).0
        × AllCompiled (begun ops digest compile t cache)
  unfolding process_task begun
  process_lem (tile g hash) local b cache t l =
      (AllGood-append local _ l (tiled_lem g hash b t, tt), tt)
  process_lem (fuse g hash) local b cache t l =
      (AllGood-append local _ l (fused_lem g hash g.is_stabilized t, tt), tt)
  process_lem (assemble g hash) local b cache t l = (l, begin_lem g hash cache t)

  inline_lem :
      (t : Task) (cache : List (ℕ × K))
      → GoodTask t
      → AllCompiled (begun_inline ops digest compile t cache)
  unfolding begun_inline
  inline_lem (tile g hash) cache t = begin_lem g hash cache t
  inline_lem (fuse g hash) cache t = begin_lem g hash cache t
  inline_lem (assemble g hash) cache t = begin_lem g hash cache t

  unchanged : (cache : List (ℕ × K)) → Keeps cache cache
  unchanged cache h k e = (k, e)

  run_local_lem :
      (m : Threads K) (p : ThreadPool K) (w : ℕ) (t : Task) (local : List Task) (is_xtreme : Bool)
      → AllCompiled m.compiled
      → IsPool p
      → GoodTask t
      → AllGood local
      → IsThreads (run_local ops digest compile m p w t local is_xtreme)
        × Keeps p.cache (run_local ops digest compile m p w t local is_xtreme).pool.cache
  unfolding run_local
  run_local_lem m p w t local b c v good l =
      let (queue, new) = process_lem t local b p.cache good l in
      (
        record {
          pool = record {
            injected = v.injected;
            xtreme = v.xtreme;
            queued = AllQueues-set p.locals w _ v.queued queue;
            served = v.served;
          };
          compiled = AllCompiled-append m.compiled _ c new;
        },
        unchanged p.cache,
      )

  placed_lem :
      (p : ThreadPool K) (g : ArenaGraph) (hash : ℕ) (xtreme_active known : Bool)
      → IsPool p
      → Keyed g hash
      → let q =
          if xtreme_active
          then record p { xtreme_injector = p.xtreme_injector ++ assemble g hash ∷ [] }
          else if known
          then p
          else record p { injector = p.injector ++ tile g hash ∷ [] } in
        IsPool q × Keeps p.cache q.cache
  placed_lem p g hash true known v keyed = (
    record {
      injected = v.injected;
      xtreme = AllGood-append p.xtreme_injector (assemble g hash ∷ []) v.xtreme (keyed, tt);
      queued = v.queued;
      served = v.served;
    },
    unchanged p.cache,
  )
  placed_lem p g hash false true v keyed = (v, unchanged p.cache)
  placed_lem p g hash false false v keyed = (
    record {
      injected = AllGood-append p.injector (tile g hash ∷ []) v.injected (keyed, tt);
      xtreme = v.xtreme;
      queued = v.queued;
      served = v.served;
    },
    unchanged p.cache,
  )

  submitted_lem :
      (p : ThreadPool K) (g : ArenaGraph) (out : ℕ × ThreadPool K)
      → IsPool p
      → submit ops digest g p ≡ ok out
      → IsPool out.1 × Keeps p.cache out.1.cache
  unfolding submit
  submitted_lem p g out v h =
      let (key, hashed, h₁) = >>=-eq-ok (hash_graph ops g) _ h in
      subst (λ (o : ℕ × ThreadPool K). IsPool o.1 × Keeps p.cache o.1.cache) (ok-injective _ out h₁)
        (placed_lem p g (digest key) p.xtreme_active (contains_key p.cache (digest key)) v
          (key, hashed, refl))

  -- the tasks of a batch, and those that stay
  split_lem :
      (t : Task) (batch rest : List Task)
      → AllGood (t ∷ batch ++ rest)
      → GoodTask t × AllGood batch × AllGood rest
  split_lem t batch rest (h, hs) = (h, AllGood-left batch rest hs, AllGood-right batch rest hs)

  step_lem :
      (m r : Threads K)
      → Step ops digest compile m r
      → IsThreads m
      → IsThreads r × Keeps m.pool.cache r.pool.cache
  step_lem _ _ (submitted m g out h) v =
      let (good, keeps) = submitted_lem m.pool g out v.pool h in
      (record { pool = good; compiled = v.compiled }, keeps)
  step_lem _ _ (pushed m g key hashed) v =
      let p = v.pool in
      (
        record {
          pool = record {
            injected =
                AllGood-append m.pool.injector (tile g (digest key) ∷ []) p.injected
                  ((key, hashed, refl), tt);
            xtreme = p.xtreme;
            queued = p.queued;
            served = p.served;
          };
          compiled = v.compiled;
        },
        unchanged m.pool.cache,
      )
  step_lem _ _ (pushed_xtreme m g key hashed) v =
      let p = v.pool in
      (
        record {
          pool = record {
            injected = p.injected;
            xtreme =
                AllGood-append m.pool.xtreme_injector (assemble g (digest key) ∷ []) p.xtreme
                  ((key, hashed, refl), tt);
            queued = p.queued;
            served = p.served;
          };
          compiled = v.compiled;
        },
        unchanged m.pool.cache,
      )
  step_lem _ _ (popped m w t rest b at) v =
      let (good, l) = AllQueues-get m.pool.locals w (t ∷ rest) v.pool.queued at in
      run_local_lem m m.pool w t rest b v.compiled v.pool good l
  step_lem _ _ (stolen m w t own batch rest b at e) v =
      let p = v.pool in
      let (good, batched, left) = split_lem t batch rest (subst AllGood e p.injected) in
      let mine = AllQueues-get m.pool.locals w own p.queued at in
      run_local_lem m (record m.pool { injector = rest }) w t (own ++ batch) b v.compiled
        (record { injected = left; xtreme = p.xtreme; queued = p.queued; served = p.served }) good
        (AllGood-append own batch mine batched)
  step_lem _ _ (robbed m x w t own batch rest b at e) v =
      let p = v.pool in
      let (good, batched, left) =
        split_lem t batch rest (AllQueues-get m.pool.locals x (t ∷ batch ++ rest) p.queued e) in
      let mine = AllQueues-get m.pool.locals w own p.queued at in
      run_local_lem m (record m.pool { locals = set m.pool.locals x rest }) w t (own ++ batch) b
        v.compiled
        (record {
          injected = p.injected;
          xtreme = p.xtreme;
          queued = AllQueues-set m.pool.locals x rest p.queued left;
          served = p.served;
        })
        good (AllGood-append own batch mine batched)
  step_lem _ _ (inline m t rest e) v =
      let p = v.pool in
      let (good, left) = subst AllGood e p.xtreme in
      (
        record {
          pool = record {
            injected = p.injected;
            xtreme = left;
            queued = p.queued;
            served = p.served;
          };
          compiled = AllCompiled-append m.compiled _ v.compiled (inline_lem t m.pool.cache good);
        },
        unchanged m.pool.cache,
      )
  step_lem _ _ (eager m g key k hashed missing c) v = (
    record {
      pool = v.pool;
      compiled = AllCompiled-append m.compiled _ v.compiled ((g, (key, hashed, refl), c), tt);
    },
    unchanged m.pool.cache,
  )
  step_lem _ _ (inserted m before after hash k e) v =
      let p = v.pool in
      let (first, ((g, keyed, c), last)) =
        AllCompiled-split before ((hash, k) ∷ after) (subst AllCompiled e v.compiled) in
      let (served, keeps) = insert_lem m.pool.cache g hash k keyed c p.served in
      (
        record {
          pool = record {
            injected = p.injected;
            xtreme = p.xtreme;
            queued = p.queued;
            served = served;
          };
          compiled = AllCompiled-append before after first last;
        },
        keeps,
      )
  step_lem _ _ (switched m b) v =
      let p = v.pool in
      (
        record {
          pool = record {
            injected = p.injected;
            xtreme = p.xtreme;
            queued = p.queued;
            served = p.served;
          };
          compiled = v.compiled;
        },
        unchanged m.pool.cache,
      )

-- However the threads of the pool and of the eager mode interleave, also when two of them compile
-- the same graph and one insertion replaces the other: from a state in which the cache serves only
-- kernels that were compiled from a graph with their hash, the tasks carry the hashes of their
-- graphs, and the kernels still to be inserted were compiled from a graph with their hash, every
-- state that is reached is of that kind again, and every hash that was served at first is still
-- served.
pub IsPool-runs :
    {K : Type 0} (ops : FloatOps) (digest : List ℕ → ℕ) (compile : ArenaGraph → Option K)
    (m r : Threads K)
    → Reaches ops digest compile m r
    → IsThreads ops digest compile m
    → IsThreads ops digest compile r × Keeps ops digest compile m.pool.cache r.pool.cache
IsPool-runs ops digest compile _ _ (here m) v = (v, unchanged ops digest compile m.pool.cache)
IsPool-runs ops digest compile _ _ (and_then m q r reach step) v =
    let (w, first) = IsPool-runs ops digest compile m q reach v in
    let (x, second) = step_lem ops digest compile q r step w in
    (x, λ h k e. let (k', e') = first h k e in second h k' e')
