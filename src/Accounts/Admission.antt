-- ===== src/Accounts/Admission.antt =====
-- That the check of src_cgi/login_cgi.c lets in whom src_cgi/reg_cgi.c has registered.
use package.text.Mathlib.Text.{◌==◌ as str_eq}
use package.text.Mathlib.TextEquality.{eq_iff}
use hydra_fs.Prelude.{◌≡◌, refl, sym, subst, ap, ◌∙◌, true, false, Option, some, String}
use hydra_fs.Prelude.Int.{ℤ, pos, negsuc, eq_ℤ}
use hydra_fs.Backend.{select_password, select_salt, Cell, chars, rows, System, Out, go, stop, crash}
use hydra_fs.Backend.Mysql.{text_of, store_one, return_value, buffer, msql_conn}
use hydra_fs.Backend.Contract.{IsSettled, UserInfo, Tables, State, answer, user_rows, Contract}
use hydra_fs.Backend.Triple.{Ends, Leaves, Sat-step, Sat-pure, Sat-stop, Sat-if}
use hydra_fs.Backend.Triple.Statements.{Ends-answered}
use hydra_fs.Backend.Triple.Session.{with_database_ends}
use hydra_fs.Accounts.{Hashing, salted_hash, user_register, check_steps, check_user_pwd}
use hydra_fs.Accounts.Login.{first_user, still_password, still_salt, registered}
use hydra_fs.Accounts.Check.{Read, AreRows, store_one-Read, user_rows-Answers, At}

module _ {W : Type 0} (sys : System W) (hashing : Hashing W) (view : W → State)
    (behaves : Contract sys view) where
  module _ (up : (w : W) → (msql_conn sys w).0 ≡ true)
      (told : (user : String) (w : W)
        → AreRows (sys.mysql_query (select_password user) w).0
          × AreRows (sys.mysql_query (select_salt user) w).0) where
    -- Nothing goes to END.
    abbrev Never : Option ℤ → State → Type 0
    Never r s = true ≡ false

    stored_column :
        (column : UserInfo → String) (user : String) (s : State) (t : Tables) (i : UserInfo)
        → s.tables ≡ t
        → first_user user t.users ≡ some i
        → let q = store_one (rows (user_rows column user s.tables.users)) (some (chars "")) in
          (q.0 ≡ pos 0) × (buffer q.1 ≡ chars (column i))
    stored_column column user s t i e found =
        let q = store_one (rows (user_rows column user s.tables.users)) (some (chars "")) in
        subst (λ o. Read column o q.0 (buffer q.1)) (ap (λ t. first_user user t.users) e ∙ found)
          (store_one-Read column (first_user user s.tables.users)
            (user_rows column user s.tables.users) (user_rows-Answers column user s.tables.users))

    matching :
        (c d : Cell) (i : UserInfo) (pwd : String)
        → c ≡ chars i.password
        → d ≡ chars i.salt
        → i.password ≡ salted_hash sys hashing i.salt pwd
        → str_eq (text_of c) (salted_hash sys hashing (text_of d) pwd) ≡ true
    matching c d i pwd e f right =
        (eq_iff _ _).1
          (ap text_of e ∙ right ∙ ap (λ d. salted_hash sys hashing (text_of d) pwd) (sym f))

    steps_admit :
        (user pwd : String) (t : Tables) (i : UserInfo)
        → first_user user t.users ≡ some i
        → i.password ≡ salted_hash sys hashing i.salt pwd
        → Ends view
            (At sys hashing view behaves t)
            (check_steps sys hashing user pwd)
            (λ _. IsSettled)
            Never
    unfolding check_steps answer
    steps_admit user pwd t i found right =
        Sat-step view
          (λ q s. (q.0 ≡ pos 0) × (q.1 ≡ chars i.password) × At sys hashing view behaves t s)
          (Ends-answered sys view behaves (select_password user) (chars "")
            (λ s. user_rows (λ r. r.password) user s.tables.users) (λ w. (told user w).0)
            (λ s. still_password user s) (λ s. refl)
            (λ s h. let (e, f) = stored_column (λ r. r.password) user s t i h.1 found in (e, f, h)))
          (λ stored.
            Sat-step view (λ _ s. (stored.1 ≡ chars i.password) × At sys hashing view behaves t s)
              (Sat-if view (eq_ℤ stored.0 (pos 0)) _ _ (λ _. Sat-pure view tt (λ s h. (h.1, h.2)))
                (λ n. Sat-stop view (negsuc 0) (λ s h. sym (ap (λ r. eq_ℤ r (pos 0)) h.0) ∙ n)))
              (λ _.
                Sat-step view
                  (λ salt s.
                    (stored.1 ≡ chars i.password)
                    × (salt.1 ≡ chars i.salt)
                    × At sys hashing view behaves t s)
                  (Ends-answered sys view behaves (select_salt user) (chars "")
                    (λ s. user_rows (λ r. r.salt) user s.tables.users) (λ w. (told user w).1)
                    (λ s. still_salt user s) (λ s. refl)
                    (λ s h. (h.0, (stored_column (λ r. r.salt) user s t i h.1.1 found).1, h.1)))
                  (λ salt.
                    Sat-if view _ _ _ (λ _. Sat-pure view tt (λ s h. h.2.0))
                      (λ n.
                        Sat-stop view (negsuc 0)
                          (λ s h. sym (matching stored.1 salt.1 i pwd h.0 h.1 right) ∙ n)))))

    -- Where MySQL answers, the user with the right password is let in.
    admitted_by_row :
        (user pwd : String) (i : UserInfo) (w : W)
        → IsSettled (view w)
        → first_user user (view w).tables.users ≡ some i
        → i.password ≡ salted_hash sys hashing i.salt pwd
        → (check_user_pwd sys hashing user pwd w).0 ≡ some (pos 0)
    unfolding check_user_pwd
    admitted_by_row user pwd i w h found right = went_on _ _ (
        with_database_ends sys view behaves (At sys hashing view behaves (view w).tables) IsSettled
          Never (check_steps sys hashing user pwd) (λ w e s h. sym (up w) ∙ e) (λ s q. refl)
          (λ r s e. e) (steps_admit user pwd (view w).tables i found right) w (h, refl))
      where
        went_on :
            (r : Out (Unit {0})) (w : W)
            → Leaves view (λ _. IsSettled) Never r w
            → return_value r ≡ some (pos 0)
        went_on (go _) w h = refl
        went_on (stop r) w h = cc
        went_on crash w h = cc

    -- A user who has registered can log in with that password: where registration answers 0, so
    -- does the check behind it, as long as MySQL accepts connections and answers
    -- the queries of password and salt.
    pub check_user_pwd-register :
        ((w : W) → view (hashing.generate_salt w).1 ≡ view w)
        → (user_name nick_name pwd tel email : String) (w : W) → IsSettled (view w)
        → (user_register sys hashing user_name nick_name pwd tel email w).0 ≡ some (pos 0)
        → (check_user_pwd sys hashing user_name pwd
            (user_register sys hashing user_name nick_name pwd tel email w).1).0
          ≡ some (pos 0)
    check_user_pwd-register salting user_name nick_name pwd tel email w h z =
        let (settled, account) =
          registered sys hashing view behaves salting user_name nick_name pwd tel email w h z in
        admitted_by_row user_name pwd account.info _ settled account.found account.hashed
