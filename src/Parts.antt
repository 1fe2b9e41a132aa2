-- ===== src/Parts.antt =====
-- The leases of the parts of an upload in common/storage_metadata_store.cpp.
pub mod Contract
pub mod Wire
pub mod Rules
pub mod Fenced
pub mod Claim
pub mod Late
use Prim.Native.Nat.{min}
use package.text.Mathlib.Text.{◌==◌ as str_eq}
use hydra_fs.Prelude.{
  ℕ, zero, suc, ◌+◌, Bool, true, false, not, ◌&&◌, ◌||◌, Option, none, some, String, List, [], ◌∷◌,
  leb, ◌==◌, if◌then◌else◌,
}
use hydra_fs.Prelude.Int.{negsuc}
use hydra_fs.Backend.{Out, go, stop, crash, Exec, ◌>>=◌, ◌>>◌, pure, goto_end, call}

-- The column state of chunk_blob.
pub data ChunkState : Type 0 where
  uploading ready failed gc_pending deleting : ChunkState

abbrev pub is_uploading : ChunkState → Bool
is_uploading uploading = true
is_uploading _ = false

abbrev pub is_ready : ChunkState → Bool
is_ready ready = true
is_ready _ = false

pub data Transaction : Type 0 where
  start_transaction commit rollback : Transaction

-- The statements that change a chunk, or the state of parts; `owner` is a session.
pub data Statement : Type 0 where
  set_names : Statement
  set_ready set_backend :
      (backend_file_id : String) → (id : ℕ) → (owner : String) → (epoch : ℕ) → Statement
  set_gc_pending :
      (backend_file_id error : String) → (id : ℕ) → (owner : String) → (epoch : ℕ) → Statement
  set_uploading : (owner : String) → (id : ℕ) → Statement
  set_parts_ready : (id : ℕ) → Statement
  set_part_missing : (upload_id : String) → (part_index : ℕ) → Statement

-- A row of the query of ClaimPartUpload, with "" and 0 for NULL.
pub record ClaimRow : Type 0 where
  pub id : ℕ
  pub state : ChunkState
  pub backend_file_id : String
  pub owner_upload_id : String
  pub lease_until : ℕ
  pub lease_epoch : ℕ
  pub ref_count : ℕ

pub record PartClaim : Type 0 where
  pub chunk_id : ℕ
  pub state : ChunkState
  pub lease_epoch : ℕ
  pub backend_file_id : String

-- The client library of MySQL.
pub record PartSystem (W : Type 0) : Type 0 where
  -- `connection_`, and its `thread_id == 0`
  pub has_connection : W → Bool
  pub is_unconnected : W → Bool
  pub mysql_init : W → Bool × W
  pub mysql_real_connect : W → Bool × W
  pub mysql_query : Transaction → W → Bool × W
  pub stmt_prepare : W → Bool × W
  -- the affected rows, or none where binding or executing fails
  pub stmt_execute : Statement → W → Option ℕ × W
  -- the rows, or none where a step of the query fails
  pub select_chunk_id : (upload_id : String) → (part_index : ℕ) → W → Option (List (Option ℕ)) × W
  pub select_claim : (upload_id : String) → (part_index : ℕ) → W → Option (List ClaimRow) × W
  pub select_claimed : (id : ℕ) → W → Option (List PartClaim) × W
  pub now_seconds : W → ℕ × W

abbrev pub only {ℓ} : {A : Type ℓ} → List A → Option A
only [] = none
only (a ∷ []) = some a
only (a ∷ b ∷ rest) = none

-- The text of a NULL is empty, which no id is equal to but 0.
abbrev pub id_of : Option ℕ → ℕ
id_of none = 0
id_of (some id) = id

abbrev pub is_own : String → ClaimRow → Bool
is_own upload_id row = is_uploading row.state && str_eq row.owner_upload_id upload_id

-- Another request of this session is at it.
abbrev pub is_running : String → ℕ → ClaimRow → Bool
is_running upload_id now row =
    is_own upload_id row
    && str_eq row.backend_file_id ""
    && leb now row.lease_until
    && not (row.lease_epoch == 0)

module _ {W : Type 0} (sys : PartSystem W) where
  unfoldable pub connect : W → Bool × W
  connect w =
      let (made, w1) = if sys.has_connection w then (true, w) else sys.mysql_init w in
      if not made
      then (false, w1)
      else (if sys.is_unconnected w1 then sys.mysql_real_connect w1 else (true, w1))

  -- `Txn`.
  unfoldable pub txn : Transaction → W → Bool × W
  txn command w =
      let (connected, w1) = connect w in
      if connected then sys.mysql_query command w1 else (false, w1)

  unfoldable pub prepared {ℓ} : {A : Type ℓ} → (W → Option A × W) → W → Option A × W
  prepared run w = let (made, w1) = sys.stmt_prepare w in if made then run w1 else (none, w1)

  -- `Exec`.
  unfoldable pub exec : Statement → W → Option ℕ × W
  exec statement w =
      let (connected, w1) = connect w in
      if connected then prepared (sys.stmt_execute statement) w1 else (none, w1)

  -- `Query`.
  unfoldable pub query {ℓ} : {A : Type ℓ} → (W → Option A × W) → W → Option A × W
  query select w =
      let (named, w1) = exec set_names w in
      elim named [ none ↦ (none, w1) | some n ↦ prepared select w1 ]

  abbrev pub fail : {A : Type 0} → Exec W A
  fail = goto_end (negsuc 0)

  abbrev pub or_fail : {A : Type 0} → Option A → Exec W A
  or_fail none = fail
  or_fail (some a) = pure a

  unfoldable pub exec_one : Statement → Exec W (Unit {0})
  exec_one statement = do
    result ← call (exec statement)
    affected ← or_fail result
    if affected == 1 then pure tt else fail

  unfoldable pub exec_any : Statement → Exec W (Unit {0})
  exec_any statement = do result ← call (exec statement); affected ← or_fail result; pure tt

  unfoldable pub select_one : {A : Type 0} → (W → Option (List A) × W) → Exec W A
  select_one select = do result ← call (query select); rows ← or_fail result; or_fail (only rows)

  unfoldable pub txn_commit : Exec W (Unit {0})
  txn_commit = do done ← call (txn commit); if done then pure tt else fail

  unfoldable pub finished : {A : Type 0} → Out A → W → Option A × W
  finished (go a) w = (some a, w)
  finished (stop r) w = (none, (txn rollback w).1)
  finished crash w = (none, w)

  -- From `START TRANSACTION` to `COMMIT`, with a `ROLLBACK` where a step fails.
  unfoldable pub in_transaction : {A : Type 0} → Exec W A → W → Option A × W
  in_transaction steps w =
      let (started, w1) = txn start_transaction w in
      let (out, w2) = steps w1 in if started then finished out w2 else (none, w1)

  unfoldable pub part_chunk : (upload_id : String) → (part_index : ℕ) → Exec W ℕ
  part_chunk upload_id part_index = do
    chunk ← select_one (sys.select_chunk_id upload_id part_index)
    pure (id_of chunk)

  unfoldable pub ready_steps :
      (upload_id : String)
      → ℕ
      → (owner : String) → ℕ
      → (backend_file_id : String) → Exec W (Unit {0})
  ready_steps upload_id part_index owner lease_epoch backend_file_id = do
    id ← part_chunk upload_id part_index
    exec_one (set_ready backend_file_id id owner lease_epoch)
    exec_any (set_parts_ready id)
    txn_commit

  unfoldable pub mark_part_ready :
      (upload_id : String)
      → ℕ
      → (owner : String) → ℕ
      → (backend_file_id : String) → W
      → Option (Unit {0}) × W
  mark_part_ready upload_id part_index owner lease_epoch backend_file_id =
      in_transaction (ready_steps upload_id part_index owner lease_epoch backend_file_id)

  unfoldable pub backend_steps :
      (upload_id : String)
      → ℕ
      → (owner : String) → ℕ
      → (backend_file_id : String) → Exec W (Unit {0})
  backend_steps upload_id part_index owner lease_epoch backend_file_id = do
    id ← part_chunk upload_id part_index
    exec_one (set_backend backend_file_id id owner lease_epoch)
    txn_commit

  unfoldable pub record_part_backend :
      (upload_id : String)
      → ℕ
      → (owner : String) → ℕ
      → (backend_file_id : String) → W
      → Option (Unit {0}) × W
  record_part_backend upload_id part_index owner lease_epoch backend_file_id w =
      if str_eq backend_file_id ""
      then (none, w)
      else in_transaction (backend_steps upload_id part_index owner lease_epoch backend_file_id) w

  unfoldable pub failed_steps :
      (upload_id : String)
      → ℕ
      → (owner : String) → ℕ
      → (backend_file_id error : String) → Exec W (Unit {0})
  failed_steps upload_id part_index owner lease_epoch backend_file_id error = do
    id ← part_chunk upload_id part_index
    exec_one (set_gc_pending backend_file_id error id owner lease_epoch)
    exec_any (set_part_missing upload_id part_index)
    txn_commit

  unfoldable pub mark_part_failed :
      (upload_id : String)
      → ℕ
      → (owner : String) → ℕ
      → (backend_file_id error : String) → W
      → Option (Unit {0}) × W
  mark_part_failed upload_id part_index owner lease_epoch backend_file_id error =
      in_transaction (failed_steps upload_id part_index owner lease_epoch backend_file_id error)

  unfoldable pub renew : String → ClaimRow → Exec W (Unit {0})
  renew upload_id row =
      if is_own upload_id row && not (str_eq row.backend_file_id "")
      then pure tt
      else exec_one (set_uploading upload_id row.id)

  unfoldable pub claim_steps : (upload_id : String) → ℕ → Exec W PartClaim
  claim_steps upload_id part_index = do
    row ← select_one (sys.select_claim upload_id part_index)
    if not (row.ref_count == 0) || is_ready row.state then fail else pure tt
    now ← call sys.now_seconds
    if is_running upload_id now row then fail else pure tt
    renew upload_id row
    claim ← select_one (sys.select_claimed row.id)
    txn_commit
    pure claim

  unfoldable pub claim_part_upload : (upload_id : String) → ℕ → W → Option PartClaim × W
  claim_part_upload upload_id part_index = in_transaction (claim_steps upload_id part_index)
