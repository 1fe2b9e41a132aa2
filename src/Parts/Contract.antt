-- ===== src/Parts/Contract.antt =====
-- What the leases of common/storage_metadata_store.cpp rely on in MySQL: a statement that succeeds has
-- its documented effect on upload_part and chunk_blob, one that fails has none or, as in a deadlock,
-- undoes the whole transaction, and so does ROLLBACK. A COMMIT that fails, as where its reply is lost,
-- may have taken effect.
use package.text.Mathlib.Text.{◌==◌ as str_eq}
use hydra_fs.Prelude.{
  ℕ, ◌+◌, ◌<◌, ◌≡◌, ◌⊎◌, Bool, true, false, not, ◌&&◌, Option, none, some, String, List, [], ◌∷◌,
  ◌==◌, if◌then◌else◌,
}
use hydra_fs.Parts.{
  ChunkState, uploading, ready, failed, gc_pending, Transaction, start_transaction, commit,
  rollback, Statement, set_names, set_ready, set_backend, set_gc_pending, set_uploading,
  set_parts_ready, set_part_missing, ClaimRow, PartClaim, PartSystem,
}

pub record Chunk : Type 0 where
  pub state : ChunkState
  pub backend_file_id : Option String
  pub owner_upload_id : Option String
  pub lease_until : Option ℕ
  pub lease_epoch : ℕ
  pub ref_count : ℕ

pub record Part : Type 0 where
  pub chunk_id : Option ℕ
  pub is_ready : Bool

-- By their primary keys.
pub record PartTables : Type 0 where
  pub parts : String → ℕ → Option Part
  pub chunks : ℕ → Option Chunk

-- `saved` is what a rollback goes back to; `connected` is that there is a connection, which a
-- statement does not take back: without one there is no transaction.
pub record PartState : Type 0 where
  pub tables : PartTables
  pub saved : Option PartTables
  pub connected : Bool

abbrev pub or_else : Option PartTables → PartTables → PartTables
or_else none t = t
or_else (some saved) t = saved

abbrev pub rolled_back : PartState → PartState
rolled_back s = record s { tables = or_else s.saved s.tables; saved = none }

-- The lease of an upload.
abbrev pub Leased : String → ℕ → Chunk → Type 0
Leased owner epoch c = (c.owner_upload_id ≡ some owner) × (c.lease_epoch ≡ epoch)

-- A lease that another session may take at this time.
abbrev pub Free : String → ℕ → Chunk → Type 0
Free owner now c =
    (c.state ≡ failed)
    ⊎ (c.state ≡ gc_pending)
    ⊎ ((c.state ≡ uploading)
        × ((c.owner_upload_id ≡ some owner)
            ⊎ (c.lease_until ≡ none)
            ⊎ ((until : ℕ) × (c.lease_until ≡ some until) × (until < now))))

-- The condition of a statement on the row of the chunk, at the time of the server.
abbrev pub Matches : Statement → ℕ → PartTables → Type 0
Matches (set_ready backend id owner epoch) now t =
    (c : Chunk) × (t.chunks id ≡ some c) × (c.state ≡ uploading) × Leased owner epoch c
Matches (set_backend backend id owner epoch) now t =
    (c : Chunk) × (t.chunks id ≡ some c)
    × (c.state ≡ uploading)
    × Leased owner epoch c
    × (c.ref_count ≡ 0)
Matches (set_gc_pending backend error id owner epoch) now t =
    (c : Chunk) × (t.chunks id ≡ some c) × Leased owner epoch c × (c.ref_count ≡ 0)
Matches (set_uploading owner id) now t =
    (c : Chunk) × (t.chunks id ≡ some c) × (c.ref_count ≡ 0) × Free owner now c
Matches _ now t = Unit {0}

abbrev given : String → Option String → Option String
given backend old = if str_eq backend "" then old else some backend

-- What it makes of that row.
abbrev pub changed : Statement → ℕ → Chunk → Chunk
changed (set_ready backend id owner epoch) now c = record c {
  state = ready;
  backend_file_id = some backend;
  owner_upload_id = none;
  lease_until = none;
}
changed (set_backend backend id owner epoch) now c = record c { backend_file_id = some backend }
changed (set_gc_pending backend error id owner epoch) now c = record c {
  state = gc_pending;
  backend_file_id = given backend c.backend_file_id;
  owner_upload_id = none;
  lease_until = none;
}
changed (set_uploading owner id) now c = record c {
  state = uploading;
  owner_upload_id = some owner;
  lease_until = some (now + 900);
  lease_epoch = c.lease_epoch + 1;
}
changed _ now c = c

abbrev map_row : (Chunk → Chunk) → Option Chunk → Option Chunk
map_row f none = none
map_row f (some c) = some (f c)

abbrev ready_part : ℕ → Option Part → Option Part
ready_part id none = none
ready_part id (some p) = some (record p {
  is_ready = elim p.chunk_id [ none ↦ p.is_ready | some k ↦ if k == id then true else p.is_ready ];
})

abbrev missing_part : Option Part → Option Part
missing_part none = none
missing_part (some p) = some (record p { is_ready = false })

abbrev at_row : ℕ → (Chunk → Chunk) → PartTables → PartTables
at_row id f t = record t { chunks = λ k. if k == id then map_row f (t.chunks k) else t.chunks k }

-- The effect of a statement whose condition a row meets.
abbrev pub effect : Statement → ℕ → PartTables → PartTables
effect (set_ready backend id owner epoch) now t =
    at_row id (changed (set_ready backend id owner epoch) now) t
effect (set_backend backend id owner epoch) now t =
    at_row id (changed (set_backend backend id owner epoch) now) t
effect (set_gc_pending backend error id owner epoch) now t =
    at_row id (changed (set_gc_pending backend error id owner epoch) now) t
effect (set_uploading owner id) now t = at_row id (changed (set_uploading owner id) now) t
effect (set_parts_ready id) now t = record t { parts = λ u i. ready_part id (t.parts u i) }
effect (set_part_missing upload_id part_index) now t = record t {
  parts = λ u i.
      if str_eq u upload_id
      then (if i == part_index then missing_part (t.parts u i) else t.parts u i)
      else t.parts u i;
}
effect set_names now t = t

-- Nothing was done, or all of the transaction is undone.
abbrev pub Lost : PartState → PartState → Type 0
Lost s s' = (s' ≡ s) ⊎ (s' ≡ rolled_back s)

abbrev pub TxnExplains : Transaction → Bool → PartState → PartState → Type 0
TxnExplains start_transaction true s s' = s' ≡ record s { saved = some s.tables }
TxnExplains commit true s s' = s' ≡ record s { saved = none }
TxnExplains rollback b s s' = s' ≡ rolled_back s
TxnExplains start_transaction false s s' = Lost s s'
TxnExplains commit false s s' = Lost s s' ⊎ (s' ≡ record s { saved = none })

abbrev pub Told :
    {A : Type 0} → (A → PartState → PartState → Type 0) → Option A → PartState → PartState → Type 0
Told says none s s' = Lost s s'
Told says (some a) s s' = says a s s'

-- A statement with a condition may find no row that meets it.
abbrev pub MayMiss : Statement → Type 0
MayMiss (set_parts_ready id) = true ≡ false
MayMiss (set_part_missing upload_id part_index) = true ≡ false
MayMiss _ = Unit {0}

-- A changed row is one that the condition met.
abbrev pub Executed : Statement → ℕ → PartState → PartState → Type 0
Executed q n s s' =
    (s' ≡ s) × (n ≡ 0) × MayMiss q
    ⊎ ((now : ℕ) × Matches q now s.tables × (s' ≡ record s { tables = effect q now s.tables }))

abbrev pub Selects : {A : Type 0} → (PartTables → List A) → List A → PartState → PartState → Type 0
Selects found rows s s' = (s' ≡ s) × (rows ≡ found s.tables)

abbrev pub chunk_id_rows : Option Part → List (Option ℕ)
chunk_id_rows none = []
chunk_id_rows (some p) = p.chunk_id ∷ []

abbrev pub text_or_empty : Option String → String
text_or_empty none = ""
text_or_empty (some s) = s

abbrev number_or_zero : Option ℕ → ℕ
number_or_zero none = 0
number_or_zero (some n) = n

abbrev pub claim_row : ℕ → Chunk → ClaimRow
claim_row id c = record {
  id = id;
  state = c.state;
  backend_file_id = text_or_empty c.backend_file_id;
  owner_upload_id = text_or_empty c.owner_upload_id;
  lease_until = number_or_zero c.lease_until;
  lease_epoch = c.lease_epoch;
  ref_count = c.ref_count;
}

abbrev pub rows_of : {A : Type 0} → (Chunk → A) → Option Chunk → List A
rows_of f none = []
rows_of f (some c) = f c ∷ []

abbrev pub claim_rows : PartTables → Option Part → List ClaimRow
claim_rows t none = []
claim_rows t (some p) = elim p.chunk_id [
  | none ↦ []
  | some id ↦ rows_of (claim_row id) (t.chunks id)
]

abbrev pub claimed_row : ℕ → Chunk → PartClaim
claimed_row id c = record {
  chunk_id = id;
  state = c.state;
  lease_epoch = c.lease_epoch;
  backend_file_id = text_or_empty c.backend_file_id;
}

pub record PartContract {W : Type 0} (sys : PartSystem W) (view : W → PartState) : Type 0 where
  pub linked : (w : W) → (sys.has_connection w && not (sys.is_unconnected w)) ≡ (view w).connected
  pub init : (w : W) → view (sys.mysql_init w).1 ≡ view w
  pub made : (w : W) → (sys.mysql_init w).0 ≡ true → sys.has_connection (sys.mysql_init w).1 ≡ true
  pub real_connect :
      (w : W)
      → view (sys.mysql_real_connect w).1
        ≡ record (view w) { connected = (sys.mysql_real_connect w).0 }
  pub query :
      (command : Transaction) (w : W)
      → TxnExplains command
          (sys.mysql_query command w).0
          (view w)
          (view (sys.mysql_query command w).1)
  pub prepare : (w : W) → Lost (view w) (view (sys.stmt_prepare w).1)
  pub prepared : (w : W) → (sys.stmt_prepare w).0 ≡ true → view (sys.stmt_prepare w).1 ≡ view w
  pub execute :
      (q : Statement) (w : W)
      → Told (Executed q) (sys.stmt_execute q w).0 (view w) (view (sys.stmt_execute q w).1)
  pub chunk_id :
      (upload_id : String) (i : ℕ) (w : W)
      → Told
          (Selects (λ t. chunk_id_rows (t.parts upload_id i)))
          (sys.select_chunk_id upload_id i w).0
          (view w)
          (view (sys.select_chunk_id upload_id i w).1)
  pub claim :
      (upload_id : String) (i : ℕ) (w : W)
      → Told
          (Selects (λ t. claim_rows t (t.parts upload_id i)))
          (sys.select_claim upload_id i w).0
          (view w)
          (view (sys.select_claim upload_id i w).1)
  pub claimed :
      (id : ℕ) (w : W)
      → Told
          (Selects (λ t. rows_of (claimed_row id) (t.chunks id)))
          (sys.select_claimed id w).0
          (view w)
          (view (sys.select_claimed id w).1)
  pub now : (w : W) → view (sys.now_seconds w).1 ≡ view w
