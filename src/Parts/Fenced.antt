-- ===== src/Parts/Fenced.antt =====
-- MarkPartReady of common/storage_metadata_store.cpp: all or nothing, and only with the lease.
use hydra_fs.Prelude.{
  ℕ, ◌≡◌, refl, sym, ap, subst, ◌⊎◌, inl, inr, Option, none, some, some_inj, String,
}
use hydra_fs.Backend.Triple.{Ends, Sat-step, Sat-pure, Sat-after}
use hydra_fs.Parts.{
  uploading, Statement, set_ready, set_parts_ready, PartSystem, only, id_of, part_chunk,
  ready_steps, mark_part_ready,
}
use hydra_fs.Parts.Contract.{
  Chunk, Part, PartTables, PartState, Matches, effect, Executed, chunk_id_rows, PartContract,
}
use hydra_fs.Parts.Wire.{Open}
use hydra_fs.Parts.Rules.{
  Broken, Begun, Outcome, Ends-select_one, Ends-exec_one, Ends-exec_any, Ends-commit,
  in_transaction_ends,
}

-- The part of an upload is of this chunk.
abbrev pub Names : PartTables → String → ℕ → ℕ → Type 0
Names t upload_id i id = (p : Part) × (t.parts upload_id i ≡ some p) × (id ≡ id_of p.chunk_id)

-- The statement has changed the row that it was for, and nothing else.
abbrev Changed : (ℕ → Statement) → PartTables → String → ℕ → PartTables → Type 0
Changed q t upload_id i t' =
    (id : ℕ) × Names t upload_id i id
    × ((now : ℕ) × Matches (q id) now t × (t' ≡ effect (q id) now t))

-- And the parts of the chunk are ready.
abbrev Finished : (ℕ → Statement) → PartTables → String → ℕ → PartTables → Type 0
Finished q t upload_id i t' =
    (id : ℕ) × Names t upload_id i id
    × ((now : ℕ) × Matches (q id) now t
        × (t' ≡ effect (set_parts_ready id) 0 (effect (q id) now t)))

module _ {W : Type 0} (sys : PartSystem W) (view : W → PartState)
    (behaves : PartContract sys view) where
  named_part :
      (upload_id : String) (i : ℕ) (t : PartTables) (o : Option ℕ)
      → only (chunk_id_rows (t.parts upload_id i)) ≡ some o
      → Names t upload_id i (id_of o)
  named_part upload_id i t o e = by_part (t.parts upload_id i) refl e
    where
      by_part :
          (q : Option Part)
          → t.parts upload_id i ≡ q
          → only (chunk_id_rows q) ≡ some o
          → Names t upload_id i (id_of o)
      by_part none f e = cc
      by_part (some p) f e = (p, f, ap id_of (sym (some_inj e)))

  pub Ends-part_chunk :
      (t : PartTables) (L : PartTables → Type 0) (upload_id : String) (i : ℕ)
      → Ends view
          (Begun t)
          (part_chunk sys upload_id i)
          (λ id s. Begun t s × Names t upload_id i id)
          (Broken t L)
  unfolding part_chunk
  Ends-part_chunk t L upload_id i =
      Sat-step view
        (λ o s. Begun t s × (only (chunk_id_rows (s.tables.parts upload_id i)) ≡ some o))
        (Ends-select_one sys view behaves t L (Begun t) (λ s h. h.1)
          (sys.select_chunk_id upload_id i) (λ u. chunk_id_rows (u.parts upload_id i))
          (behaves.chunk_id upload_id i))
        (λ o. Sat-pure view _ (λ s (h, e). (
          h,
          named_part upload_id i t o
              (subst (λ u. only (chunk_id_rows (u.parts upload_id i)) ≡ some o) h.0 e),
        )))

  module _ (t : PartTables) (upload_id : String) (i : ℕ) (q : ℕ → Statement) where
    -- In a transaction from `t`, the row of this chunk is changed.
    abbrev Held : ℕ → PartState → Type 0
    Held id s =
        Open t s
        × Names t upload_id i id
        × ((now : ℕ) × Matches (q id) now t × (s.tables ≡ effect (q id) now t))

    changed-Held :
        (id : ℕ) (s s' : PartState)
        → Begun t s × Names t upload_id i id
        → ((now : ℕ) × Matches (q id) now s.tables
            × (s' ≡ record s { tables = effect (q id) now s.tables }))
        → Held id s'
    changed-Held id s s' ((h, o), n) (now, m, e) =
        subst (Held id) (sym e)
          (o, n, (now, subst (Matches (q id) now) h m, ap (λ u. effect (q id) now u) h))

    -- And its parts are.
    abbrev Ready : PartState → Type 0
    Ready s = Open t s × Finished q t upload_id i s.tables

    parts-Ready :
        (id n : ℕ) (s s' : PartState) → Held id s → Executed (set_parts_ready id) n s s' → Ready s'
    parts-Ready id n s s' h (inl (e, z, m)) = cc
    parts-Ready id n s s' (o, names, (now, m, f)) (inr (later, u, e)) =
        subst Ready (sym e) (o, (id, names, (now, m, ap (λ t. effect (set_parts_ready id) 0 t) f)))

    -- All done.
    abbrev Done : PartState → Type 0
    Done s = (s.saved ≡ none) × Finished q t upload_id i s.tables

  steps_ready :
      (t : PartTables) (upload_id : String) (i : ℕ) (owner : String) (epoch : ℕ) (backend : String)
      → Ends view
          (Begun t)
          (ready_steps sys upload_id i owner epoch backend)
          (λ _. Done t upload_id i (λ id. set_ready backend id owner epoch))
          (Broken t (Finished (λ id. set_ready backend id owner epoch) t upload_id i))
  unfolding ready_steps
  steps_ready t upload_id i owner epoch backend =
      Sat-step view (λ id s. Begun t s × Names t upload_id i id) (Ends-part_chunk t L upload_id i)
        (λ id.
          Sat-step view (λ _. Held t upload_id i q id)
            (Sat-after view _ (λ _ s' (s, h, m). changed-Held t upload_id i q id s s' h m)
              (Ends-exec_one sys view behaves t L (λ s. Begun t s × Names t upload_id i id)
                (λ s h. h.0.1) (q id)))
            (λ _.
              Sat-step view (λ _. Ready t upload_id i q)
                (Sat-after view _ (λ _ s' (s, h, (n, e)). parts-Ready t upload_id i q id n s s' h e)
                  (Ends-exec_any sys view behaves t L (Held t upload_id i q id) (λ s h. h.0)
                    (set_parts_ready id)))
                (λ _.
                  Sat-after view _
                    (λ _ s' (s, h, e). subst (Done t upload_id i q) (sym e) (refl, h.1))
                    (Ends-commit sys view behaves t L (Ready t upload_id i q) (λ s h. h.0)
                      (λ s h. h.1)))))
    where
      q : ℕ → Statement
      q id = set_ready backend id owner epoch

      L : PartTables → Type 0
      L = Finished q t upload_id i

  pub mark_part_ready-Fenced :
      (upload_id : String) (i : ℕ) (owner : String) (epoch : ℕ) (backend : String) (w : W)
      → (view w).saved ≡ none
      → let r = mark_part_ready sys upload_id i owner epoch backend w in
        let t = (view w).tables in
        (r.0 ≡ none) × ((view r.1).tables ≡ t)
        ⊎ ((r.0 ≡ none) ⊎ (r.0 ≡ some tt))
          × ((id : ℕ) × Names t upload_id i id
              × ((c : Chunk) × (t.chunks id ≡ some c)
                  × (c.state ≡ uploading)
                  × (c.owner_upload_id ≡ some owner)
                  × (c.lease_epoch ≡ epoch))
              × ((view r.1).tables
                  ≡ effect (set_parts_ready id) 0 (effect (set_ready backend id owner epoch) 0 t)))
  unfolding mark_part_ready
  mark_part_ready-Fenced upload_id i owner epoch backend w h = outcome _ _ (
      in_transaction_ends sys view behaves (Finished q (view w).tables upload_id i)
        (λ _. Done (view w).tables upload_id i q) (ready_steps sys upload_id i owner epoch backend)
        w h (steps_ready (view w).tables upload_id i owner epoch backend))
    where
      q : ℕ → Statement
      q id = set_ready backend id owner epoch

      outcome :
          (o : Option (Unit {0})) (s : PartState)
          → Outcome
              (view w).tables
              (Finished q (view w).tables upload_id i)
              (λ _. Done (view w).tables upload_id i q)
              o
              s
          → (o ≡ none) × (s.tables ≡ (view w).tables)
            ⊎ ((o ≡ none) ⊎ (o ≡ some tt))
              × ((id : ℕ) × Names (view w).tables upload_id i id
                  × ((c : Chunk) × ((view w).tables.chunks id ≡ some c)
                      × (c.state ≡ uploading)
                      × (c.owner_upload_id ≡ some owner)
                      × (c.lease_epoch ≡ epoch))
                  × (s.tables
                      ≡ effect
                          (set_parts_ready id)
                          0
                          (effect (set_ready backend id owner epoch) 0 (view w).tables)))
      outcome none s (inl h) = inl (refl, h.0)
      outcome none s (inr (h, (id, n, (now, (c, found, up, (mine, epoch_is)), e)))) =
          inr (inl refl, (id, n, (c, found, up, mine, epoch_is), e))
      outcome (some u) s (h, (id, n, (now, (c, found, up, (mine, epoch_is)), e))) =
          inr (inr refl, (id, n, (c, found, up, mine, epoch_is), e))
