-- ===== src/Examples/Parts.antt =====
-- The theorems on the leases of parts at a concrete table, with a server that runs the statements of a
-- claim and of a finished part.
use package.text.Mathlib.Text.{◌==◌ as str_eq}
use package.text.Mathlib.TextEquality.{eq_iff}
use hydra_fs.Prelude.{
  ℕ, ◌≡◌, refl, ap, inl, inr, Bool, true, false, not, ◌&&◌, Bool-cases, Option, none, some, String,
  ◌==◌, if◌then◌else◌, arith,
}
use hydra_fs.Backend.{◌>>=◌, pure, call, goto_end}
use hydra_fs.Parts.{
  ChunkState, uploading, ready, failed, gc_pending, deleting, is_uploading, Transaction,
  start_transaction, commit, rollback, Statement, set_names, set_ready, set_backend, set_gc_pending,
  set_part_missing, set_uploading, set_parts_ready, PartClaim, PartSystem, connect, txn, prepared,
  exec, query, exec_one, select_one, txn_commit, finished, in_transaction, renew, claim_steps,
  claim_part_upload, mark_part_ready,
}
use hydra_fs.Parts.Contract.{
  Chunk, PartTables, PartState, rolled_back, TxnExplains, Told, Matches, effect, Executed,
  chunk_id_rows, claim_rows, rows_of, claimed_row, PartContract,
}
use hydra_fs.Parts.Late.{mark_part_ready-late}
use hydra_fs.Parts.Fenced.{Names}

is_failed : ChunkState → Bool
is_failed failed = true
is_failed _ = false

is_owner : String → Option String → Bool
is_owner owner none = false
is_owner owner (some name) = str_eq name owner

-- A failed chunk that nothing refers to can be taken.
is_takable : Option Chunk → Bool
unfolding is_failed
is_takable none = false
is_takable (some c) = is_failed c.state && c.ref_count == 0

is_leased : String → ℕ → Option Chunk → Bool
unfolding is_owner
is_leased owner epoch none = false
is_leased owner epoch (some c) =
    is_uploading c.state && is_owner owner c.owner_upload_id && c.lease_epoch == epoch

-- The other statements fail.
run_statement : Statement → PartState → Option ℕ × PartState
unfolding is_takable is_leased
run_statement set_names s = (some 0, s)
run_statement (set_uploading owner id) s =
    if is_takable (s.tables.chunks id)
    then (some 1, record s { tables = effect (set_uploading owner id) 1000 s.tables })
    else (some 0, s)
run_statement (set_ready backend id owner epoch) s =
    if is_leased owner epoch (s.tables.chunks id)
    then (some 1, record s { tables = effect (set_ready backend id owner epoch) 1000 s.tables })
    else (some 0, s)
run_statement (set_parts_ready id) s =
    (some 1, record s { tables = effect (set_parts_ready id) 1000 s.tables })
run_statement _ s = (none, s)

run_transaction : Transaction → PartState → Bool × PartState
run_transaction start_transaction s = (true, record s { saved = some s.tables })
run_transaction commit s = (true, record s { saved = none })
run_transaction rollback s = (true, rolled_back s)

server : PartSystem PartState
unfolding run_statement run_transaction
server = record {
  has_connection = λ s. true;
  is_unconnected = λ s. not s.connected;
  mysql_init = λ s. (true, s);
  mysql_real_connect = λ s. (true, record s { connected = true });
  mysql_query = run_transaction;
  stmt_prepare = λ s. (true, s);
  stmt_execute = run_statement;
  select_chunk_id = λ upload_id i s. (some (chunk_id_rows (s.tables.parts upload_id i)), s);
  select_claim = λ upload_id i s. (some (claim_rows s.tables (s.tables.parts upload_id i)), s);
  select_claimed = λ id s. (some (rows_of (claimed_row id) (s.tables.chunks id)), s);
  now_seconds = λ s. (1000, s);
}

abbrev view : PartState → PartState
view s = s

taken :
    (owner : String) (id : ℕ) (t : PartTables)
    → is_takable (t.chunks id) ≡ true
    → Matches (set_uploading owner id) 1000 t
unfolding is_takable is_failed
taken owner id t h = by_row (t.chunks id) refl h
  where
    by_state : (k : ChunkState) (n : ℕ) → (is_failed k && n == 0) ≡ true → (k ≡ failed) × (n ≡ 0)
    by_state failed n e = (refl, ground arith)
    by_state uploading n e = cc
    by_state ready n e = cc
    by_state gc_pending n e = cc
    by_state deleting n e = cc

    by_row :
        (o : Option Chunk)
        → t.chunks id ≡ o
        → is_takable o ≡ true
        → Matches (set_uploading owner id) 1000 t
    by_row none f e = cc
    by_row (some c) f e =
        let (state, idle) = by_state c.state c.ref_count e in (c, f, idle, inl state)

leased :
    (backend owner : String) (id epoch : ℕ) (t : PartTables)
    → is_leased owner epoch (t.chunks id) ≡ true
    → Matches (set_ready backend id owner epoch) 1000 t
unfolding is_leased is_owner
leased backend owner id epoch t h = by_row (t.chunks id) refl h
  where
    by_fields :
        (k : ChunkState) (o : Option String) (n : ℕ)
        → (is_uploading k && is_owner owner o && n == epoch) ≡ true
        → (k ≡ uploading) × (o ≡ some owner) × (n ≡ epoch)
    by_fields uploading (some name) n e = elim (Bool-cases (str_eq name owner)) [
      | inl same ↦ (refl, ap some ((eq_iff name owner).0 same), ground arith)
      | inr other ↦ absurd (ground arith)
    ]
    by_fields uploading none n e = cc
    by_fields failed o n e = cc
    by_fields ready o n e = cc
    by_fields gc_pending o n e = cc
    by_fields deleting o n e = cc

    by_row :
        (o : Option Chunk)
        → t.chunks id ≡ o
        → is_leased owner epoch o ≡ true
        → Matches (set_ready backend id owner epoch) 1000 t
    by_row none f e = cc
    by_row (some c) f e =
        let (state, mine, same) = by_fields c.state c.owner_upload_id c.lease_epoch e in
        (c, f, state, (mine, same))

twice : (b : Bool) → not (not b) ≡ b
twice true = refl
twice false = refl

answered :
    (command : Transaction) (s : PartState)
    → TxnExplains command (run_transaction command s).0 s (run_transaction command s).1
unfolding run_transaction
answered start_transaction s = refl
answered commit s = refl
answered rollback s = refl

executed :
    (q : Statement) (s : PartState)
    → Told (Executed q) (run_statement q s).0 s (run_statement q s).1
unfolding run_statement
executed set_names s = inl (refl, refl, tt)
executed (set_uploading owner id) s = elim (Bool-cases (is_takable (s.tables.chunks id))) [
  | inl e ↦ rw (e, run_statement) (inr (1000, taken owner id s.tables e, refl))
  | inr e ↦ rw (e, run_statement) (inl (refl, refl, tt))
]
executed (set_ready backend id owner epoch) s =
    elim (Bool-cases (is_leased owner epoch (s.tables.chunks id))) [
      | inl e ↦ rw (e, run_statement) (inr (1000, leased backend owner id epoch s.tables e, refl))
      | inr e ↦ rw (e, run_statement) (inl (refl, refl, tt))
    ]
executed (set_parts_ready id) s = inr (1000, tt, refl)
executed (set_backend backend id owner epoch) s = inl refl
executed (set_gc_pending backend error id owner epoch) s = inl refl
executed (set_part_missing upload_id i) s = inl refl

server-Contract : PartContract server view
unfolding server run_statement run_transaction
server-Contract = record {
  linked = λ s. twice s.connected;
  init = λ s. refl;
  made = λ s e. refl;
  real_connect = λ s. refl;
  query = answered;
  prepare = λ s. inl refl;
  prepared = λ s e. refl;
  execute = executed;
  chunk_id = λ upload_id i s. (refl, refl);
  claim = λ upload_id i s. (refl, refl);
  claimed = λ id s. (refl, refl);
  now = λ s. refl;
}

-- Chunk 7 has failed before; two sessions have it as their first part.
abbrev start : PartState
start = record {
  tables = record {
    parts = λ u i. some (record { chunk_id = some 7; is_ready = false });
    chunks = λ k.
        if k == 7
        then some (record {
          state = failed;
          backend_file_id = none;
          owner_upload_id = some "s1";
          lease_until = some 5;
          lease_epoch = 1;
          ref_count = 0;
        })
        else none;
  };
  saved = none;
  connected = true;
}

abbrev claim : PartClaim
claim = record { chunk_id = 7; state = uploading; lease_epoch = 2; backend_file_id = "" }

-- Behind the claim.
abbrev after : PartState
after = (claim_part_upload server "s2" 0 start).1

first_part : Names after.tables "s1" 0 7
unfolding server run_statement run_transaction is_takable is_failed claim_part_upload in_transaction
    claim_steps renew txn connect prepared exec query exec_one select_one txn_commit finished ◌>>=◌
    pure call goto_end
first_part = (record { chunk_id = some 7; is_ready = false }, refl, refl)

granted : (claim_part_upload server "s2" 0 start).0 ≡ some claim
unfolding server run_statement run_transaction is_takable is_failed claim_part_upload in_transaction
    claim_steps renew txn connect prepared exec query exec_one select_one txn_commit finished ◌>>=◌
    pure call goto_end
granted = refl

mark_part_ready-late_example :
    let w1 = (claim_part_upload server "s2" 0 start).1 in
    let r = mark_part_ready server "s1" 0 "s1" 1 "M00/late" w1 in
    (r.0 ≡ none) × ((view r.1).tables ≡ (view w1).tables)
mark_part_ready-late_example =
    mark_part_ready-late server view server-Contract "s2" 0 start claim "s1" 0 1 "M00/late" refl
      refl granted (inr (omega arith)) first_part
