-- ===== src/Pictures/Request.antt =====
-- What `request_share_picture` of src_cgi/sharepicture_cgi.c keeps.
use Prim.Native.String.{◌++◌ as append}
use hydra_fs.Prelude.{◌≡◌, ◌≢◌, sym, subst, ◌∙◌, ◌⊎◌, inl, inr, true, Option, none, some, String}
use hydra_fs.Prelude.Int.{ℤ, pos, negsuc, eq_ℤ, succ_ℤ}
use hydra_fs.Backend.{
  select_file_count, update_file_count, select_user_count, Cell, chars, System, Out, go, stop,
  crash, atoi,
}
use hydra_fs.Backend.Mysql.{return_value}
use hydra_fs.Backend.Contract.{State, Contract, apply}
use hydra_fs.Backend.Triple.{Ends, Leaves, Sat-step, Sat-pure, Sat-stop, Sat-if}
use hydra_fs.Backend.Triple.Statements.{Sat-execute, Sat-select_one}
use hydra_fs.Backend.Triple.Session.{with_database_ends}
use hydra_fs.Files.Invariant.{IsSafe}
use hydra_fs.Files.Invariant.Steps.{still_file_count, still_user_count, IsSafe-rolled_back}
use hydra_fs.Files.Count.{raise_user_count, count_statement}
use hydra_fs.Files.Count.Safety.{CountIs, count_read}
use hydra_fs.Pictures.{PictureNames, picture_count, request_picture_steps, request_share_picture}
use hydra_fs.Pictures.Invariant.{Shared, IsShared, rolled_settled}
use hydra_fs.Pictures.Statements.{
  Shared-insert_picture, Shared-pay, Shared-beside, count_statement-beside,
}

-- An error, with the files as safe as before.
abbrev pub Refused : Option ℤ → State → Type 0
Refused r s = (r ≢ some (pos 0)) × IsSafe s

paid :
    (md5 : String) (count : ℤ) (s : State)
    → CountIs md5 count s
    → Shared (some md5) s
    → IsShared (apply (update_file_count (succ_ℤ count) md5) s)
paid md5 count s (i, e, n) h =
    subst (λ c. IsShared (apply (update_file_count (succ_ℤ c) md5) s)) n (Shared-pay md5 i s e h)

module _ {W : Type 0} (sys : System W) (view : W → State) (behaves : Contract sys view) where
  raise_kept :
      (user : String) (tmp : Cell)
      → Ends view IsShared (raise_user_count sys user tmp) (λ _. IsShared) Refused
  unfolding raise_user_count
  raise_kept user tmp =
      Sat-step view (λ _. IsShared)
        (Sat-select_one sys view behaves (select_user_count user) tmp (still_user_count user)
          (λ s r c h _. h))
        (λ found.
          Sat-step view (λ _. IsShared)
            (Sat-execute sys view behaves (count_statement user found.0 found.1)
              (λ s h. (λ e. cc, h.safe))
              (λ s r h _ _.
                let (cs, e) = count_statement-beside user found.0 found.1 s in
                subst IsShared (sym e) (Shared-beside none s cs h)))
            (λ _. Sat-pure view tt (λ s h. h)))

  steps_request :
      (user md5 name url_md5 key time tmp : String)
      → Ends view IsShared
          (request_picture_steps sys user md5 name url_md5 key time tmp)
          (λ _. IsShared)
          Refused
  unfolding request_picture_steps
  steps_request user md5 name url_md5 key time tmp =
      Sat-step view (λ _. Shared (some md5))
        (Sat-execute sys view behaves _ (λ s h. (λ e. cc, h.safe))
          (λ s r h _ _. Shared-insert_picture user md5 name url_md5 key (pos 0) time s h))
        (λ _.
          Sat-step view
            (λ found s.
              (eq_ℤ found.0 (pos 0) ≡ true → CountIs md5 (atoi found.1) s) × Shared (some md5) s)
            (Sat-select_one sys view behaves (select_file_count md5) (chars tmp)
              (still_file_count md5) (λ s r c h read. (count_read md5 s (chars tmp) r c read, h)))
            (λ found.
              Sat-step view (λ _ s. CountIs md5 (atoi found.1) s × Shared (some md5) s)
                (Sat-if view (eq_ℤ found.0 (pos 0)) _ _
                  (λ hit. Sat-pure view tt (λ s h. (h.0 hit, h.1)))
                  (λ _. Sat-stop view (negsuc 0) (λ s h. (λ e. cc, h.1.safe))))
                (λ _.
                  Sat-step view (λ _. IsShared)
                    (Sat-execute sys view behaves _ (λ s h. (λ e. cc, h.1.safe))
                      (λ s r h _ _. paid md5 (atoi found.1) s h.0 h.1))
                    (λ _. raise_kept (picture_count user) found.1))))

  module _ (names : PictureNames W) (drawn : (w : W) → view (names.decimals w).1 ≡ view w)
      (keyed : (w : W) → view (names.key w).1 ≡ view w) where
    -- Where the count of each file covers its rows and its shared pictures, outside a transaction,
    -- sharing another picture keeps that, or it answers an error and the counts still cover the rows
    -- of the users.
    pub request_share_picture-IsShared :
        (user filemd5 file_name : String) (w : W)
        → IsShared (view w)
        → let r = request_share_picture sys names user filemd5 file_name w in
          IsShared (view r.1) ⊎ ((r.0 ≢ some (pos 0)) × IsSafe (view r.1))
    unfolding request_share_picture
    request_share_picture-IsShared user filemd5 file_name w h = outcome _ _ (
        with_database_ends sys view behaves IsShared IsShared Refused
          (request_picture_steps sys user filemd5 file_name (names.md5_hex seed) (names.key w2).0
            time seed)
          (λ w e s h. (λ z. cc, h.safe))
          (λ s h. subst IsShared (sym (rolled_settled s h.settled)) h)
          (λ r s h. (h.0, IsSafe-rolled_back s h.1))
          (steps_request user filemd5 file_name _ _ time seed) w3 prepared)
      where
        time : String
        time = (sys.local_time w).0

        w1 : W
        w1 = (sys.local_time w).1

        w2 : W
        w2 = (names.decimals w1).1

        seed : String
        seed = append filemd5 (append time (names.decimals w1).0)

        w3 : W
        w3 = (names.key w2).1

        prepared : IsShared (view w3)
        prepared = subst IsShared (sym (keyed w2 ∙ drawn w1 ∙ behaves.local_time w)) h

        outcome :
            (r : Out (Unit {0})) (w : W)
            → Leaves view (λ _. IsShared) Refused r w
            → IsShared (view w) ⊎ ((return_value r ≢ some (pos 0)) × IsSafe (view w))
        outcome (go _) w h = inl h
        outcome (stop r) w h = inr h
        outcome crash w h = inr h
