-- ===== src/Files/Upload/Safety.antt =====
-- A whole upload in src_cgi/upload_cgi.c keeps the reference counts above the references.
use package.text.Mathlib.Text.{◌==◌ as str_eq}
use package.text.Mathlib.TextPositions.{eq_refl}
use hydra_fs.Prelude.{
  ◌≡◌, ◌≢◌, refl, sym, subst, ◌∙◌, Bool, true, false, Bool-cases, ◌||◌, Option, none, some, String,
  ◌⊎◌, inl, inr, [], if◌then◌else◌,
}
use hydra_fs.Prelude.Int.{ℤ, pos, eq_ℤ, negative}
use hydra_fs.Text.{Bytes}
use hydra_fs.Backend.{set_names_utf8, System, pure, goto_end, call}
use hydra_fs.Backend.Mysql.{msql_conn}
use hydra_fs.Backend.Contract.{State, Contract}
use hydra_fs.Backend.Triple.{
  Sat, Post-same, Sat-step, Sat-pure, Sat-stop, Sat-if, Sat-quiet, Sat-call, Sat-returned,
  Sat-survive,
}
use hydra_fs.Backend.Triple.Statements.{msql_conn_still, query_still, set_names_still}
use hydra_fs.Knowledge.{enqueue_parse_task}
use hydra_fs.Files.Invariant.{IsSafe}
use hydra_fs.Files.Invariant.Steps.{IsSafe-rolled_back}
use hydra_fs.Files.Count.Safety.{enqueue_keeps}
use hydra_fs.Files.ChunkMerge.Safety.{
  IsNew, bind_existing_file_to_user-IsSafe, store_fileinfo_to_mysql-IsSafe,
}
use hydra_fs.Files.Upload.{
  Started, not_started, in_child, printed, Programs, printed_id, host_of, upload_to_dstorage,
  url_behind, make_file_url, create_task, bind_existing_file_to_user, store_fileinfo_to_mysql,
  reuse_existing, refuse, store_new, after_receipt,
}

abbrev pub with_file : String → State → State
with_file id s = record s { stored = λ k. if str_eq id k then true else s.stored k }

-- There is no program, FastDFS prints nothing but blanks, or the id of a file that it has not had
-- before.
abbrev pub Uploads : (Bytes → String) → Started → State → State → Type 0
Uploads text out s s' =
    ((printed_id out ≡ none) ⊎ (out ≡ in_child)) × (s' ≡ s)
    ⊎ ((id : Bytes) × (printed_id out ≡ some id)
        × (s.stored (text id) ≡ false)
        × (s' ≡ with_file (text id) s))

pub record ProgramsContract {W : Type 0} (programs : Programs W) (view : W → State) : Type 0 where
  pub upload :
      (filename : String) (w : W)
      → Uploads programs.text
          (programs.fdfs_upload_file filename w).0
          (view w)
          (view (programs.fdfs_upload_file filename w).1)
  -- the programs are there, and `execlp` does not return
  pub executable : (filename : String) (w : W) → (programs.fdfs_upload_file filename w).0 ≢ in_child
  pub executable_info : (fileid : Bytes) (w : W) → (programs.fdfs_file_info fileid w).0 ≢ in_child
  pub file_info : (fileid : Bytes) (w : W) → view (programs.fdfs_file_info fileid w).1 ≡ view w
  pub unlink : (filename : String) (w : W) → view (programs.unlink filename w).1 ≡ view w

still_stored : (b stored : Bool) → stored ≡ true → (if b then true else stored) ≡ true
still_stored true stored e = refl
still_stored false stored e = e

-- A file more in storage harms nothing.
pub IsSafe-with_file : (id : String) (s : State) → IsSafe s → IsSafe (with_file id s)
IsSafe-with_file id s h = record {
  now = record {
    counted = h.now.counted;
    kept = λ k i e. still_stored (str_eq id i.file_id) _ (h.now.kept k i e);
    distinct = h.now.distinct;
  };
  before = λ t e. record {
    counted = (h.before t e).counted;
    kept = λ k i f. still_stored (str_eq id i.file_id) _ ((h.before t e).kept k i f);
    distinct = (h.before t e).distinct;
  };
}

-- No row names a file that was not in storage.
pub with_file-IsNew :
    (id : String) (s : State) → IsSafe s → s.stored id ≡ false → IsNew id (with_file id s)
with_file-IsNew id s h e = (
  itself (str_eq id id) refl,
  λ k i found same.
      let kept : s.stored i.file_id ≡ true = h.now.kept k i found in
      let gone : s.stored i.file_id ≡ false = subst (λ f. s.stored f ≡ false) (sym same) e in
      cc (sym kept ∙ gone),
)
  where
    itself : (b : Bool) → str_eq id id ≡ b → (if b then true else s.stored id) ≡ true
    itself true t = refl
    itself false f = cc (eq_refl id)

module _ {W : Type 0} (sys : System W) (programs : Programs W) (view : W → State)
    (behaves : Contract sys view) (runs : ProgramsContract programs view) where
  create_task-IsSafe :
      (user md5 source : String) (w : W)
      → IsSafe (view w)
      → IsSafe (view (create_task sys programs user md5 source w).1)
  unfolding create_task enqueue_parse_task
  create_task-IsSafe user md5 source w h = elim (Bool-cases (msql_conn sys w).0) [
    | inl e ↦ rw (e, create_task) closed
    | inr e ↦ rw (e, create_task) opened
  ]
    where
      opened : IsSafe (view (msql_conn sys w).1)
      opened = subst IsSafe (sym (msql_conn_still sys view behaves w)) h

      w2 : W
      w2 = (sys.mysql_query set_names_utf8 (msql_conn sys w).1).1

      named : IsSafe (view w2)
      named =
          subst IsSafe
            (sym (query_still sys view behaves set_names_utf8 (set_names_still sys view behaves) _))
            opened

      queued : IsSafe (view (enqueue_parse_task sys user md5 source w2).1)
      queued = enqueue_keeps sys view behaves user md5 "parse_source" source w2 named

      closed : IsSafe (view (sys.mysql_close (enqueue_parse_task sys user md5 source w2).1))
      closed = subst IsSafe (sym (behaves.close _)) (IsSafe-rolled_back _ queued)

  unlink_keeps :
      {P : State → Type 0} (filename : String)
      → Sat view P (call (programs.unlink filename)) (λ _. P) IsSafe
  unlink_keeps {P} filename = Sat-quiet view P (programs.unlink filename) (runs.unlink filename)

  reuse_keeps :
      (user filename md5 : String) (ret : ℤ)
      → Sat view IsSafe (reuse_existing sys programs user filename md5 ret) (λ _. IsSafe) IsSafe
  unfolding reuse_existing
  reuse_keeps user filename md5 ret =
      Sat-step view (λ _. IsSafe) (unlink_keeps filename)
        (λ _.
          Sat-step view (λ _. IsSafe)
            (Sat-if view (eq_ℤ ret (pos 0)) _ _
              (λ _. Sat-call view _ (create_task-IsSafe user md5 "md5_hit"))
              (λ _. Sat-pure view tt (λ s h. h)))
            (λ _. Sat-stop view (pos 0) (λ s h. h)))

  -- Nothing goes to END with HTTP_RESP_FAIL.
  Sat-either :
      {A : Type 0} {P : State → Type 0} {Q : A → State → Type 0} (o : Option A)
      → ((s : State) → P s → IsSafe s)
      → ((a : A) (s : State) → o ≡ some a → P s → Q a s)
      → Sat view P (elim o [ none ↦ goto_end {W = W} (pos 1) | some a ↦ pure a ]) Q IsSafe
  Sat-either none weaker done = Sat-stop view (pos 1) weaker
  Sat-either (some a) weaker done = Sat-pure view a (λ s h. done a s refl h)

  abbrev Uploaded : Started → State → Type 0
  Uploaded out s =
      (printed_id out ≡ none)
      ⊎ ((id : Bytes) × (printed_id out ≡ some id) × IsNew (programs.text id) s)

  run_upload :
      (filename : String)
      → Sat view IsSafe
          (call (programs.fdfs_upload_file filename))
          (λ out s. Uploaded out s × IsSafe s)
          IsSafe
  unfolding call
  run_upload filename = record {
    at = λ w h. by_case _ _ _ h (runs.executable filename w) (runs.upload filename w);
  }
    where
      by_case :
          (out : Started) (s s' : State)
          → IsSafe s
          → out ≢ in_child
          → Uploads programs.text out s s'
          → Uploaded out s' × IsSafe s'
      by_case out s s' h n (inl (inr e, same)) = absurd (n e)
      by_case out s s' h n (inl (inl e, same)) = (inl e, subst IsSafe (sym same) h)
      by_case out s s' h n (inr (id, e, fresh, grown)) =
          subst (λ s'. Uploaded out s' × IsSafe s') (sym grown)
            (
              inr (id, e, with_file-IsNew (programs.text id) s h fresh),
              IsSafe-with_file (programs.text id) s h,
            )

  known :
      (out : Started) (id : Bytes) (s : State)
      → printed_id out ≡ some id
      → Uploaded out s
      → IsNew (programs.text id) s
  known out id s e (inl n) = cc
  known out id s e (inr (id', e', new)) =
      let same : id' ≡ id = cc in subst (λ id. IsNew (programs.text id) s) same new

  dstorage_keeps :
      (filename : String)
      → Sat view IsSafe
          (upload_to_dstorage sys programs filename)
          (λ fileid s. IsNew (programs.text fileid) s × IsSafe s)
          IsSafe
  unfolding upload_to_dstorage
  dstorage_keeps filename =
      Sat-step view (λ out s. Uploaded out s × IsSafe s) (run_upload filename)
        (λ out. Sat-either (printed_id out) (λ s h. h.1) (λ id s e h. (known out id s e h.0, h.1)))

  behind_keeps :
      {P : State → Type 0} (fileid : Bytes) (out : Started)
      → ((s : State) → P s → IsSafe s)
      → Sat view P (url_behind sys programs fileid out) (λ _. P) IsSafe
  unfolding url_behind
  behind_keeps fileid not_started weaker = Sat-stop view (pos 1) weaker
  behind_keeps fileid in_child weaker = Sat-pure view [] (λ s h. h)
  behind_keeps {P} fileid (printed buf) weaker =
      Sat-step view (λ _. P) (Sat-survive sys view (host_of buf) weaker)
        (λ host. Sat-pure view _ (λ s h. h))

  url_keeps :
      {P : State → Type 0} (fileid : Bytes)
      → ((s : State) → P s → IsSafe s)
      → Sat view P (make_file_url sys programs fileid) (λ _. P) IsSafe
  unfolding make_file_url
  url_keeps {P} fileid weaker =
      Sat-step view (λ _. P)
        (Sat-quiet view P (programs.fdfs_file_info fileid) (runs.file_info fileid))
        (λ out. behind_keeps fileid out weaker)

  store_keeps :
      (user filename md5 : String) (size : ℤ)
      → Sat view IsSafe (store_new sys programs user filename md5 size) (λ _. IsSafe) IsSafe
  unfolding store_new store_fileinfo_to_mysql
  store_keeps user filename md5 size = Sat-step view New (dstorage_keeps filename) (λ fileid.
      Sat-step view (λ _. New fileid) (unlink_keeps filename)
        (λ _.
          Sat-step view (λ _. New fileid) (url_keeps fileid (λ s h. h.1))
            (λ url.
              Sat-step view (λ _. IsSafe)
                (Sat-returned sys view _ (λ s h. h)
                  (λ w h.
                    store_fileinfo_to_mysql-IsSafe sys view behaves user filename md5 size
                      (programs.text fileid) (programs.text url) w h.0 h.1))
                (λ ret.
                  Sat-step view (λ _. IsSafe)
                    (Sat-if view (negative ret) _ _ (λ _. Sat-stop view (pos 1) (λ s h. h))
                      (λ _. Sat-pure view tt (λ s h. h)))
                    (λ _.
                      Sat-step view (λ _. IsSafe)
                        (Sat-call view _ (create_task-IsSafe user md5 "upload"))
                        (λ _. Sat-pure view tt (λ s h. h)))))))
    where
      New : Bytes → State → Type 0
      New fileid s = IsNew (programs.text fileid) s × IsSafe s

  refuse_keeps :
      (filename : String) → Sat view IsSafe (refuse sys programs filename) (λ _. IsSafe) IsSafe
  unfolding refuse
  refuse_keeps filename =
      Sat-step view (λ _. IsSafe) (unlink_keeps filename) (λ _. Sat-stop view (pos 1) (λ s h. h))

  after_receipt_keeps :
      (user filename md5 : String) (size : ℤ)
      → Sat view IsSafe (after_receipt sys programs user filename md5 size) (λ _. IsSafe) IsSafe
  unfolding after_receipt bind_existing_file_to_user
  after_receipt_keeps user filename md5 size =
      Sat-step view (λ _. IsSafe)
        (Sat-returned sys view _ (λ s h. h)
          (bind_existing_file_to_user-IsSafe sys view behaves user filename md5))
        (λ ret.
          Sat-step view (λ _. IsSafe)
            (Sat-if view (eq_ℤ ret (pos 0) || eq_ℤ ret (pos 2)) _ _
              (λ _. reuse_keeps user filename md5 ret)
              (λ _.
                Sat-if view (negative ret) _ _ (λ _. refuse_keeps filename)
                  (λ _. Sat-pure view tt (λ s h. h))))
            (λ _. store_keeps user filename md5 size))

  -- Whatever statement, connection or other call of an upload fails, and wherever the process dies,
  -- the count of every stored file stays at least the number of user files that name it, where
  -- fdfs_upload_file and fdfs_file_info can be executed, and FastDFS gives each file that it takes an
  -- id that it does not use yet.
  pub after_receipt-IsSafe :
      (user filename md5 : String) (size : ℤ) (w : W)
      → IsSafe (view w)
      → IsSafe (view (after_receipt sys programs user filename md5 size w).1)
  after_receipt-IsSafe user filename md5 size w h =
      Post-same view IsSafe _ _ ((after_receipt_keeps user filename md5 size).at w h)
