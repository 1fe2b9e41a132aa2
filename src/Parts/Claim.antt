-- ===== src/Parts/Claim.antt =====
-- ClaimPartUpload of common/storage_metadata_store.cpp: the session that is granted the claim holds the
-- lease.
use package.text.Mathlib.Text.{◌==◌ as str_eq}
use package.text.Mathlib.TextEquality.{eq_iff}
use hydra_fs.Prelude.{
  ℕ, ◌≡◌, refl, sym, ap, subst, inl, Bool, true, false, not, ◌&&◌, Option, none, some, some_inj,
  String, [], ◌==◌, if◌then◌else◌, arith,
}
use hydra_fs.Prelude.Int.{negsuc}
use hydra_fs.Backend.{pure}
use hydra_fs.Backend.Triple.{Ends, Sat-step, Sat-pure, Sat-stop, Sat-if, Sat-run, Sat-after}
use hydra_fs.Parts.{
  fail, ChunkState, uploading, ready, failed, gc_pending, deleting, is_uploading, set_uploading,
  ClaimRow, PartClaim, PartSystem, only, is_own, renew, claim_steps, claim_part_upload,
}
use hydra_fs.Parts.Contract.{
  Chunk, Part, PartTables, PartState, Matches, effect, changed, claim_rows, claim_row, rows_of,
  claimed_row, text_or_empty, PartContract,
}
use hydra_fs.Parts.Wire.{Open, Undoes-Open}
use hydra_fs.Parts.Rules.{
  Broken, Begun, Outcome, Ends-select_one, Ends-exec_one, Ends-commit, in_transaction_ends,
}

-- The chunk is being uploaded by this session.
abbrev pub Uploads : String → ℕ → Chunk → PartTables → Type 0
Uploads owner id c t =
    (t.chunks id ≡ some c) × (c.state ≡ uploading) × (c.owner_upload_id ≡ some owner)

-- The row that was read is that of a chunk.
abbrev Shows : ClaimRow → PartTables → Type 0
Shows row t = (c : Chunk) × (t.chunks row.id ≡ some c) × (row ≡ claim_row row.id c)

shown_row :
    (t : PartTables) (o : Option Part) (row : ClaimRow)
    → only (claim_rows t o) ≡ some row
    → Shows row t
shown_row t none row e = cc
shown_row t (some p) row e = by_id p.chunk_id e
  where
    by_chunk :
        (id : ℕ) (q : Option Chunk)
        → t.chunks id ≡ q
        → only (rows_of (claim_row id) q) ≡ some row
        → Shows row t
    by_chunk id none f e = cc
    by_chunk id (some c) f e = subst (λ row. Shows row t) (some_inj e) (c, f, refl)

    by_id :
        (k : Option ℕ)
        → only (elim k [ none ↦ [] | some id ↦ rows_of (claim_row id) (t.chunks id) ]) ≡ some row
        → Shows row t
    by_id none e = cc
    by_id (some id) e = by_chunk id (t.chunks id) refl e

left_of : (a b : Bool) → (a && b) ≡ true → a ≡ true
left_of true b e = refl
left_of false b e = cc

right_of : (a b : Bool) → (a && b) ≡ true → b ≡ true
right_of true b e = e
right_of false b e = cc

own-Uploads :
    (owner : String) (row : ClaimRow) (t : PartTables)
    → str_eq owner "" ≡ false
    → Shows row t
    → is_own owner row ≡ true
    → (c : Chunk) × Uploads owner row.id c t
own-Uploads owner row t named (c, found, same) own = (
  c,
  (
    found,
    state_of c.state (left_of _ _ mine),
    owner_of c.owner_upload_id ((eq_iff _ owner).0 (right_of _ _ mine)),
  ),
)
  where
    mine : (is_uploading c.state && str_eq (text_or_empty c.owner_upload_id) owner) ≡ true
    mine = subst (λ row. is_own owner row ≡ true) same own

    state_of : (k : ChunkState) → is_uploading k ≡ true → k ≡ uploading
    state_of uploading e = refl
    state_of ready e = cc
    state_of failed e = cc
    state_of gc_pending e = cc
    state_of deleting e = cc

    owner_of : (o : Option String) → text_or_empty o ≡ owner → o ≡ some owner
    owner_of none e = cc (subst (λ name. str_eq name "" ≡ false) (sym e) named)
    owner_of (some name) e = ap some e

-- Of the claim that is answered.
abbrev pub Claimed : String → PartClaim → PartState → Type 0
Claimed owner claim s =
    (s.saved ≡ none)
    × ((c : Chunk) × Uploads owner claim.chunk_id c s.tables × (c.lease_epoch ≡ claim.lease_epoch))

module _ {W : Type 0} (sys : PartSystem W) (view : W → PartState)
    (behaves : PartContract sys view) where
  -- In the transaction, behind the renewal.
  abbrev Renewed : PartTables → String → ℕ → PartState → Type 0
  Renewed t owner id s = Open t s × ((c : Chunk) × Uploads owner id c s.tables)

  steps_renew :
      (t : PartTables) (owner : String) (row : ClaimRow)
      → str_eq owner "" ≡ false
      → Ends view
          (λ s. Begun t s × Shows row t)
          (renew sys owner row)
          (λ _. Renewed t owner row.id)
          (Broken t (λ u. Unit {0}))
  unfolding renew
  steps_renew t owner row named =
      Sat-if view (is_own owner row && not (str_eq row.backend_file_id "")) _ _
        (λ own. Sat-pure view tt (λ s ((h, o), shown). (
          o,
          subst (λ u. (c : Chunk) × Uploads owner row.id c u) (sym h)
              (own-Uploads owner row t named shown (left_of _ _ own)),
        )))
        (λ _.
          Sat-after view _ (λ _ s' (s, ((h, o), shown), done). taken s s' o done)
            (Ends-exec_one sys view behaves t (λ u. Unit {0}) (λ s. Begun t s × Shows row t)
              (λ s h. h.0.1) (set_uploading owner row.id)))
    where
      taken :
          (s s' : PartState)
          → Open t s
          → ((now : ℕ) × Matches (set_uploading owner row.id) now s.tables
              × (s' ≡ record s { tables = effect (set_uploading owner row.id) now s.tables }))
          → Renewed t owner row.id s'
      taken s s' o (now, (c, found, idle, free), e) =
          let itself : (row.id == row.id) ≡ true = ground arith in
          subst (Renewed t owner row.id) (sym e)
            (o, (changed (set_uploading owner row.id) now c, (rw (itself, found) refl, refl, refl)))

  steps_claim :
      (t : PartTables) (owner : String) (i : ℕ)
      → str_eq owner "" ≡ false
      → Ends view (Begun t) (claim_steps sys owner i) (Claimed owner) (Broken t (λ u. Unit {0}))
  unfolding claim_steps
  steps_claim t owner i named =
      Sat-step view (λ row s. Begun t s × Shows row t)
        (Sat-after view _
          (λ row s (h, e). (
            h,
            shown_row t (t.parts owner i) row
                (subst (λ u. only (claim_rows u (u.parts owner i)) ≡ some row) h.0 e),
          ))
          (Ends-select_one sys view behaves t (λ u. Unit {0}) (Begun t) (λ s h. h.1)
            (sys.select_claim owner i) (λ u. claim_rows u (u.parts owner i))
            (behaves.claim owner i)))
        (λ row.
          Sat-step view (λ _ s. Begun t s × Shows row t) (guarded row _)
            (λ _.
              Sat-step view (λ _ s. Begun t s × Shows row t)
                (Sat-run view sys.now_seconds
                  (λ w h. subst (λ s. Begun t s × Shows row t) (sym (behaves.now w)) h))
                (λ now.
                  Sat-step view (λ _ s. Begun t s × Shows row t) (guarded row _)
                    (λ _.
                      Sat-step view (λ _. Renewed t owner row.id) (steps_renew t owner row named)
                        (λ _.
                          Sat-step view (λ claim. Answered row claim)
                            (Sat-after view _ (λ claim s (h, e). answered row claim s h e)
                              (Ends-select_one sys view behaves t (λ u. Unit {0})
                                (Renewed t owner row.id) (λ s h. h.0) (sys.select_claimed row.id)
                                (λ u. rows_of (claimed_row row.id) (u.chunks row.id))
                                (behaves.claimed row.id)))
                            (λ claim.
                              Sat-step view (λ _. Claimed owner claim)
                                (Sat-after view _
                                  (λ _ s' (s, h, e).
                                    subst (Claimed owner claim) (sym e) (refl, h.1))
                                  (Ends-commit sys view behaves t (λ u. Unit {0})
                                    (Answered row claim) (λ s h. h.0) (λ s h. tt)))
                                (λ _. Sat-pure view claim (λ s h. h))))))))
    where
      Answered : ClaimRow → PartClaim → PartState → Type 0
      Answered row claim s =
          Open t s
          × ((c : Chunk) × Uploads owner claim.chunk_id c s.tables
              × (c.lease_epoch ≡ claim.lease_epoch))

      guarded :
          (row : ClaimRow) (b : Bool)
          → Ends view
              (λ s. Begun t s × Shows row t)
              (if b then fail sys else pure tt)
              (λ _ s. Begun t s × Shows row t)
              (Broken t (λ u. Unit {0}))
      guarded row b =
          Sat-if view b _ _
            (λ _. Sat-stop view (negsuc 0) (λ s h. (λ e. cc, inl (Undoes-Open t s h.0.1))))
            (λ _. Sat-pure view tt (λ s h. h))

      answered :
          (row : ClaimRow) (claim : PartClaim) (s : PartState)
          → Renewed t owner row.id s
          → only (rows_of (claimed_row row.id) (s.tables.chunks row.id)) ≡ some claim
          → Answered row claim s
      answered row claim s (o, (c, up)) e =
          let known : only (rows_of (claimed_row row.id) (some c)) ≡ some claim =
            subst (λ q. only (rows_of (claimed_row row.id) q) ≡ some claim) up.0 e in
          subst (λ claim. Answered row claim s) (some_inj known) (o, (c, up, refl))

  -- A granted claim: the chunk is being uploaded by this session, under the epoch of the claim.
  pub claim_part_upload-Claimed :
      (owner : String) (i : ℕ) (w : W)
      → str_eq owner "" ≡ false
      → (view w).saved ≡ none
      → let r = claim_part_upload sys owner i w in
        Outcome (view w).tables (λ u. Unit {0}) (Claimed owner) r.0 (view r.1)
  unfolding claim_part_upload
  claim_part_upload-Claimed owner i w named h =
      in_transaction_ends sys view behaves (λ u. Unit {0}) (Claimed owner) (claim_steps sys owner i)
        w h (steps_claim (view w).tables owner i named)
