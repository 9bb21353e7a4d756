-- ===== src/Network/Coordinator/Live.antt =====
-- numtoy-core/src/network.rs: `collect` returns what arrives in time.
use num_toy.Prelude.{
  ℕ, zero, suc, ◌≡◌, ◌≢◌, ◌⊎◌, inl, inr, refl, sym, ap, ◌∙◌, subst, true, false, Bool-cases, List,
  [], ◌∷◌, ◌++◌, Option, none, some, Option-cases, ◌==◌, arith, In, get_elem?, set,
  get_elem?-set_self, get_elem?-set_ne, get_elem?-lt, length, length-set, ◌<◌, get_elem?-some,
}
use num_toy.Network.Tiles.{TileResult, find_result}
use num_toy.Network.Coordinator.{
  WorkerConn, remove_result, insert_result, poll_result, remove_id, set_of, Collected, take_result,
  poll_ids, poll_workers, Arrival, arrive_one, arrive, is_done, collect_rounds, collect,
}

abbrev pub Holds : List TileResult → ℕ → Type 0
Holds results id = (r : TileResult) × (find_result results id ≡ some r)

find_result-id :
    (rs : List TileResult) (id : ℕ) (r : TileResult) → find_result rs id ≡ some r → r.id ≡ id
unfolding find_result
find_result-id [] id r h = cc
find_result-id (q ∷ rs) id r h = ground (arith, find_result-id rs id r)

module _ (at : ℕ) (res : TileResult) (workers : List WorkerConn) where
  arrive_one-none : get_elem? workers at ≡ none → arrive_one at res workers ≡ workers
  unfolding arrive_one
  arrive_one-none h = rw (h, arrive_one) refl

  arrive_one-some :
      (w : WorkerConn)
      → get_elem? workers at ≡ some w
      → arrive_one at res workers
        ≡ set workers at (record w { results = insert_result res w.results })
  unfolding arrive_one
  arrive_one-some w h = rw (h, arrive_one) refl

  length-arrive_one : length (arrive_one at res workers) ≡ length workers
  length-arrive_one = elim (Option-cases (get_elem? workers at)) [
    | inl e ↦ ap length (arrive_one-none e)
    | inr (w, e) ↦ ap length (arrive_one-some w e) ∙ length-set workers at _
  ]

length-arrive :
    (arrivals : List Arrival) (workers : List WorkerConn)
    → length (arrive arrivals workers) ≡ length workers
unfolding arrive
length-arrive [] workers = refl
length-arrive ((at, res) ∷ more) workers =
    length-arrive more (arrive_one at res workers) ∙ length-arrive_one at res workers

length-poll_workers :
    (ws : List WorkerConn) (state : Collected) → length (poll_workers ws state).0 ≡ length ws
unfolding poll_workers
length-poll_workers [] state = refl
length-poll_workers (w ∷ ws) state = ap suc (length-poll_workers ws (poll_ids state.0 w state).1)

not_done : (id : ℕ) (ids : List ℕ) → In id ids → is_done ids ≡ false
unfolding is_done
not_done id [] h = absurd h
not_done id (x ∷ xs) h = refl

module _ (id : ℕ) where
  pub find_result-remove_ne :
      (rs : List TileResult) (other : ℕ)
      → other ≢ id
      → find_result (remove_result rs other) id ≡ find_result rs id
  unfolding find_result remove_result
  find_result-remove_ne [] other ne = refl
  find_result-remove_ne (r ∷ rs) other ne = ground (arith, find_result-remove_ne rs other ne)

  insert-Holds :
      (r : TileResult) (rs : List TileResult) → Holds rs id → Holds (insert_result r rs) id
  unfolding insert_result find_result
  insert-Holds r rs (q, h) = elim (Bool-cases (r.id == id)) [
    | inl e ↦ (r, rw e refl)
    | inr e ↦ let ne : r.id ≢ id = ground arith in (q, rw e (find_result-remove_ne rs r.id ne ∙ h))
  ]

  insert-Holds_self :
      (r : TileResult) (rs : List TileResult) → r.id ≡ id → Holds (insert_result r rs) id
  unfolding insert_result find_result
  insert-Holds_self r rs e = let test : (r.id == id) ≡ true = ground arith in (r, rw test refl)

  In-remove_id : (xs : List ℕ) (other : ℕ) → other ≢ id → In id xs → In id (remove_id other xs)
  unfolding remove_id
  In-remove_id [] other ne h = absurd h
  In-remove_id (x ∷ xs) other ne (inl e) =
      let test : (x == other) ≡ false = ground arith in rw test (inl e)
  In-remove_id (x ∷ xs) other ne (inr h) = elim (Bool-cases (x == other)) [
    | inl e ↦ rw e (In-remove_id xs other ne h)
    | inr e ↦ rw e (inr (In-remove_id xs other ne h))
  ]

  In-set_of : (xs : List ℕ) → In id xs → In id (set_of xs)
  unfolding set_of
  In-set_of [] h = absurd h
  In-set_of (x ∷ xs) (inl e) = inl e
  In-set_of (x ∷ xs) (inr h) = elim (Bool-cases (x == id)) [
    | inl e ↦ inl (ground arith)
    | inr e ↦ let ne : x ≢ id = ground arith in inr (In-remove_id (set_of xs) x ne (In-set_of xs h))
  ]

  -- the id is still wanted, or its result is there
  abbrev pub Wanted : Collected → Type 0
  Wanted state = In id state.0 ⊎ Holds state.1 id

  take_result-Holds :
      (found : Option TileResult) (other : ℕ) (state : Collected)
      → Holds state.1 id
      → Holds (take_result found other state).1 id
  unfolding take_result
  take_result-Holds none other state h = h
  take_result-Holds (some r) other (ids, results) h = insert-Holds r results h

  take_result-Wanted :
      (found : Option TileResult) (other : ℕ) (state : Collected)
      → ((r : TileResult) → found ≡ some r → r.id ≡ other)
      → Wanted state
      → Wanted (take_result found other state)
  unfolding take_result
  take_result-Wanted none other state of h = h
  take_result-Wanted (some r) other (ids, results) of (inr h) = inr (insert-Holds r results h)
  take_result-Wanted (some r) other (ids, results) of (inl h) = elim (Bool-cases (other == id)) [
    | inl e ↦ inr (insert-Holds_self r results (of r refl ∙ ground arith))
    | inr e ↦ let ne : other ≢ id = ground arith in inl (In-remove_id ids other ne h)
  ]

  poll_ids-Holds :
      (ids : List ℕ) (w : WorkerConn) (state : Collected)
      → Holds state.1 id
      → Holds (poll_ids ids w state).1.1 id
  unfolding poll_ids poll_result
  poll_ids-Holds [] w state h = h
  poll_ids-Holds (x ∷ xs) w state h =
      poll_ids-Holds xs (record w { results = remove_result w.results x })
        (take_result (find_result w.results x) x state)
        (take_result-Holds (find_result w.results x) x state h)

  poll_ids-Wanted :
      (ids : List ℕ) (w : WorkerConn) (state : Collected)
      → Wanted state
      → Wanted (poll_ids ids w state).1
  unfolding poll_ids poll_result
  poll_ids-Wanted [] w state h = h
  poll_ids-Wanted (x ∷ xs) w state h =
      poll_ids-Wanted xs (record w { results = remove_result w.results x })
        (take_result (find_result w.results x) x state)
        (take_result-Wanted (find_result w.results x) x state (find_result-id w.results x) h)

  poll_ids-found :
      (ids : List ℕ) (w : WorkerConn) (state : Collected)
      → In id ids
      → Holds w.results id
      → Holds (poll_ids ids w state).1.1 id
  unfolding poll_ids poll_result take_result
  poll_ids-found [] w state h k = absurd h
  poll_ids-found (x ∷ xs) w state h (r, e) = elim (Bool-cases (x == id)) [
    | inl same ↦
        let here : x ≡ id = ground arith in
        let got : find_result w.results x ≡ some r = ap (find_result w.results) here ∙ e in
        let rid : r.id ≡ id = find_result-id w.results id r e in
        poll_ids-Holds xs (record w { results = remove_result w.results x })
          (take_result (find_result w.results x) x state) (rw got (insert-Holds_self r state.1 rid))
    | inr other ↦
        let ne : x ≢ id = ground arith in
        let later : In id xs = elim h [ inl q ↦ absurd (ne (sym q)) | inr q ↦ q ] in
        poll_ids-found xs (record w { results = remove_result w.results x })
          (take_result (find_result w.results x) x state) later
          (r, find_result-remove_ne w.results x ne ∙ e)
  ]

  -- a worker whose map has the result
  abbrev HoldsAt : List WorkerConn → ℕ → Type 0
  HoldsAt workers k = (w : WorkerConn) × (get_elem? workers k ≡ some w) × Holds w.results id

  poll_workers-Holds :
      (ws : List WorkerConn) (state : Collected)
      → Holds state.1 id
      → Holds (poll_workers ws state).1.1 id
  unfolding poll_workers
  poll_workers-Holds [] state h = h
  poll_workers-Holds (w ∷ ws) state h =
      poll_workers-Holds ws (poll_ids state.0 w state).1 (poll_ids-Holds state.0 w state h)

  poll_workers-Wanted :
      (ws : List WorkerConn) (state : Collected) → Wanted state → Wanted (poll_workers ws state).1
  unfolding poll_workers
  poll_workers-Wanted [] state h = h
  poll_workers-Wanted (w ∷ ws) state h =
      poll_workers-Wanted ws (poll_ids state.0 w state).1 (poll_ids-Wanted state.0 w state h)

  poll_workers-found :
      (ws : List WorkerConn) (k : ℕ) (state : Collected)
      → HoldsAt ws k
      → Wanted state
      → Holds (poll_workers ws state).1.1 id
  unfolding poll_workers
  poll_workers-found ws k state at (inr h) = poll_workers-Holds ws state h
  poll_workers-found [] k state (w, e, h) (inl wanted) = cc e
  poll_workers-found (w ∷ ws) zero state (w', e, h) (inl wanted) =
      let same : w' ≡ w = cc e in
      poll_workers-Holds ws (poll_ids state.0 w state).1
        (poll_ids-found state.0 w state wanted (subst (λ v. Holds v.results id) same h))
  poll_workers-found (w ∷ ws) (suc k) state at (inl wanted) =
      poll_workers-found ws k (poll_ids state.0 w state).1 at
        (poll_ids-Wanted state.0 w state (inl wanted))

  arrive_one-HoldsAt :
      (at k : ℕ) (res : TileResult) (workers : List WorkerConn)
      → HoldsAt workers k
      → HoldsAt (arrive_one at res workers) k
  arrive_one-HoldsAt at k res workers (v, e, h) = elim (Option-cases (get_elem? workers at)) [
    | inl absent ↦ rw (arrive_one-none at res workers absent) (v, e, h)
    | inr (w, there) ↦
        let w' = record w { results = insert_result res w.results } in
        rw (arrive_one-some at res workers w there) (elim (Bool-cases (at == k)) [
          | inl same ↦
              let here : at ≡ k = ground arith in
              let both : w ≡ v = cc (there, e, ap (get_elem? workers) here) in
              (
                w',
                ap (get_elem? (set workers at w')) (sym here)
                    ∙ get_elem?-set_self workers at w' (get_elem?-lt workers at w there),
                insert-Holds res w.results (subst (λ u. Holds u.results id) (sym both) h),
              )
          | inr other ↦
              let ne : at ≢ k = ground arith in (v, get_elem?-set_ne workers at k w' ne ∙ e, h)
        ])
  ]

  arrive-HoldsAt :
      (arrivals : List Arrival) (k : ℕ) (workers : List WorkerConn)
      → HoldsAt workers k
      → HoldsAt (arrive arrivals workers) k
  unfolding arrive
  arrive-HoldsAt [] k workers h = h
  arrive-HoldsAt ((at, res) ∷ more) k workers h =
      arrive-HoldsAt more k (arrive_one at res workers) (arrive_one-HoldsAt at k res workers h)

  arrive-found :
      (arrivals : List Arrival) (k : ℕ) (res : TileResult) (workers : List WorkerConn)
      → res.id ≡ id
      → k < length workers
      → In (k, res) arrivals
      → HoldsAt (arrive arrivals workers) k
  unfolding arrive
  arrive-found [] k res workers e h m = absurd m
  arrive-found ((at, r) ∷ more) k res workers e h (inl m) =
      let here : k ≡ at = ap (λ (p : Arrival). p.0) m in
      let same : res ≡ r = ap (λ (p : Arrival). p.1) m in
      let (w, there) = get_elem?-some workers at (rw (sym here) h) in
      let w' = record w { results = insert_result r w.results } in
      arrive-HoldsAt more k (arrive_one at r workers) (
        rw (arrive_one-some at r workers w there) (
          w',
          ap (get_elem? (set workers at w')) here
              ∙ get_elem?-set_self workers at w' (get_elem?-lt workers at w there),
          insert-Holds_self r w.results (sym (ap (λ (q : TileResult). q.id) same) ∙ e),
        ))
  arrive-found ((at, r) ∷ more) k res workers e h (inr m) =
      arrive-found more k res (arrive_one at r workers) e (rw (length-arrive_one at r workers) h) m

  collect_rounds-Holds :
      (rounds : List (List Arrival)) (workers : List WorkerConn) (state : Collected)
      → Holds state.1 id
      → Holds (collect_rounds rounds workers state) id
  unfolding collect_rounds
  collect_rounds-Holds [] workers state h = h
  collect_rounds-Holds (a ∷ rounds) workers state h =
      let next = poll_workers (arrive a workers) state in
      let rest =
        collect_rounds-Holds rounds next.0 next.1 (poll_workers-Holds (arrive a workers) state h) in
      elim (Bool-cases (is_done state.0)) [ inl e ↦ rw e h | inr e ↦ rw e rest ]

  collect_rounds-arrived :
      (before : List (List Arrival)) (a : List Arrival) (after : List (List Arrival))
      (workers : List WorkerConn) (state : Collected) (k : ℕ) (res : TileResult)
      → res.id ≡ id
      → k < length workers
      → In (k, res) a
      → Wanted state
      → Holds (collect_rounds (before ++ a ∷ after) workers state) id
  unfolding collect_rounds
  collect_rounds-arrived before a after workers state k res e h m (inr done) =
      collect_rounds-Holds (before ++ a ∷ after) workers state done
  collect_rounds-arrived [] a after workers state k res e h m (inl wanted) =
      let next = poll_workers (arrive a workers) state in
      let got =
        poll_workers-found (arrive a workers) k state (arrive-found a k res workers e h m)
          (inl wanted) in
      let open_still : is_done state.0 ≡ false = not_done id state.0 wanted in
      rw open_still (collect_rounds-Holds after next.0 next.1 got)
  collect_rounds-arrived (b ∷ before) a after workers state k res e h m (inl wanted) =
      let next = poll_workers (arrive b workers) state in
      let open_still : is_done state.0 ≡ false = not_done id state.0 wanted in
      rw open_still (
        collect_rounds-arrived before a after next.0 next.1 k res e
          (rw (length-poll_workers (arrive b workers) state ∙ length-arrive b workers) h) m
          (poll_workers-Wanted (arrive b workers) state (inl wanted)))

-- A result that reaches the map of some worker before a round that begins before the deadline is
-- returned, if its id is asked for: whatever else arrives, before or after, the answer has a result for
-- that id.
pub collect-arrived :
    (workers : List WorkerConn) (tile_ids : List ℕ) (before after : List (List Arrival))
    (arrivals : List Arrival) (k : ℕ) (res : TileResult)
    → In res.id tile_ids
    → k < length workers
    → In (k, res) arrivals
    → (r : TileResult) × (find_result (collect workers tile_ids (before ++ arrivals ∷ after)) res.id
        ≡ some r)
unfolding collect
collect-arrived workers tile_ids before after arrivals k res asked h m =
    collect_rounds-arrived res.id before arrivals after workers (set_of tile_ids, []) k res refl h m
      (inl (In-set_of res.id tile_ids asked))
