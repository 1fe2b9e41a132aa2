-- ===== src/Accounts/Login.antt =====
-- What a successful registration leaves, and whom the check of the password lets in.
use package.text.Mathlib.Text.{◌==◌ as str_eq}
use package.text.Mathlib.TextPositions.{eq_refl}
use hydra_fs.Prelude.{
  ◌≡◌, refl, sym, subst, Option, none, some, String, List, [], ◌∷◌, if◌then◌else◌, arith,
}
use hydra_fs.Prelude.Int.{pos, negsuc, eq_ℤ}
use hydra_fs.Backend.{
  select_user_name, select_nick_name, select_password, select_salt, insert_user_info, System,
}
use hydra_fs.Backend.Contract.{
  IsSettled, UserInfo, Tables, State, apply, apply_tables, Contract, rolled_back, or_else,
}
use hydra_fs.Backend.Triple.{
  Ends, Sat-step, Sat-pure, Sat-stop, Sat-if, Sat-quiet, NotZero, zero_went_on,
}
use hydra_fs.Backend.Triple.Statements.{Sat-execute, Sat-select_exists}
use hydra_fs.Backend.Triple.Session.{with_database_ends}
use hydra_fs.Accounts.{Hashing, salted_hash, register_steps, user_register}

-- The first row of this user name.
abbrev pub first_user : String → List UserInfo → Option UserInfo
first_user user_name [] = none
first_user user_name (r ∷ rs) =
    let rest = first_user user_name rs in if str_eq r.user_name user_name then some r else rest

-- What holds of the tables holds of them after a rollback that has nothing to undo.
pub still_rolled :
    (P : Tables → Type 0) (s : State) → IsSettled s → P s.tables → P (rolled_back s).tables
still_rolled P s e h = subst (λ o. P (or_else o s.tables)) (sym e) h

pub still_password : (user : String) (s : State) → apply (select_password user) s ≡ s
unfolding apply apply_tables
still_password user s = refl

pub still_salt : (user : String) (s : State) → apply (select_salt user) s ≡ s
unfolding apply apply_tables
still_salt user s = refl

still_user_name : (user : String) (s : State) → apply (select_user_name user) s ≡ s
unfolding apply apply_tables
still_user_name user s = refl

still_nick_name : (nick : String) (s : State) → apply (select_nick_name nick) s ≡ s
unfolding apply apply_tables
still_nick_name nick s = refl

module _ {W : Type 0} (sys : System W) (hashing : Hashing W) (view : W → State)
    (behaves : Contract sys view)
    (salting : (w : W) → view (hashing.generate_salt w).1 ≡ view w) where
  -- The user has a row, and its password is the salted hash of this one.
  pub record IsAccount (user_name nick_name pwd : String) (t : Tables) : Type 0 where
    pub info : UserInfo
    pub found : first_user user_name t.users ≡ some info
    pub nick : info.nick_name ≡ nick_name
    pub hashed : info.password ≡ salted_hash sys hashing info.salt pwd

  inserted :
      (user_name nick_name pwd salt tel email time : String) (s : State)
      → IsSettled s
      → let s' =
          apply
            (insert_user_info user_name nick_name
              (salted_hash sys hashing salt pwd)
              salt
              tel
              email
              time)
            s in
        IsSettled s' × IsAccount user_name nick_name pwd s'.tables
  unfolding apply apply_tables
  inserted user_name nick_name pwd salt tel email time s e = (
    e,
    record {
      info = record {
        user_name = user_name;
        nick_name = nick_name;
        password = salted_hash sys hashing salt pwd;
        salt = salt;
      };
      found = ground (arith, eq_refl user_name);
      nick = refl;
      hashed = refl;
    },
  )

  steps_register :
      (user_name nick_name pwd tel email : String)
      → Ends view IsSettled
          (register_steps sys hashing user_name nick_name pwd tel email)
          (λ _ s. IsSettled s × IsAccount user_name nick_name pwd s.tables)
          NotZero
  unfolding register_steps
  steps_register user_name nick_name pwd tel email =
      Sat-step view (λ _. IsSettled)
        (Sat-select_exists sys view behaves _ (still_user_name user_name) (λ s r h _. h))
        (λ ret2.
          Sat-step view (λ _. IsSettled)
            (Sat-if view (eq_ℤ ret2 (pos 2)) _ _ (λ _. Sat-stop view (negsuc 1) (λ s h e. cc))
              (λ _. Sat-pure view tt (λ s h. h)))
            (λ _.
              Sat-step view (λ _. IsSettled)
                (Sat-select_exists sys view behaves _ (still_nick_name nick_name) (λ s r h _. h))
                (λ ret3.
                  Sat-step view (λ _. IsSettled)
                    (Sat-if view (eq_ℤ ret3 (pos 2)) _ _
                      (λ _. Sat-stop view (negsuc 2) (λ s h e. cc))
                      (λ _. Sat-pure view tt (λ s h. h)))
                    (λ _.
                      Sat-step view (λ _. IsSettled)
                        (Sat-quiet view IsSettled sys.local_time behaves.local_time)
                        (λ time.
                          Sat-step view (λ _. IsSettled)
                            (Sat-quiet view IsSettled hashing.generate_salt salting)
                            (λ salt.
                              Sat-step view
                                (λ _ s. IsSettled s × IsAccount user_name nick_name pwd s.tables)
                                (Sat-execute sys view behaves _ (λ s h e. cc)
                                  (λ s r h _ _.
                                    inserted user_name nick_name pwd salt tel email time s h))
                                (λ _. Sat-pure view tt (λ s h. h))))))))

  pub registered :
      (user_name nick_name pwd tel email : String) (w : W)
      → IsSettled (view w)
      → (user_register sys hashing user_name nick_name pwd tel email w).0 ≡ some (pos 0)
      → let s = view (user_register sys hashing user_name nick_name pwd tel email w).1 in
        IsSettled s × IsAccount user_name nick_name pwd s.tables
  unfolding user_register
  registered user_name nick_name pwd tel email w h z =
      zero_went_on view Q _ _
        (with_database_ends sys view behaves IsSettled Q NotZero
          (register_steps sys hashing user_name nick_name pwd tel email) (λ w e s h z. cc)
          (λ s q. (refl, still_rolled (IsAccount user_name nick_name pwd) s q.0 q.1)) (λ r s e. e)
          (steps_register user_name nick_name pwd tel email) w h)
        z
    where
      Q : State → Type 0
      Q s = IsSettled s × IsAccount user_name nick_name pwd s.tables

  -- Where registration answers 0 there is a row of the user, with the salted hash of the password.
  pub user_register-IsAccount :
      (user_name nick_name pwd tel email : String) (w : W)
      → IsSettled (view w)
      → (user_register sys hashing user_name nick_name pwd tel email w).0 ≡ some (pos 0)
      → IsAccount user_name nick_name pwd
          (view (user_register sys hashing user_name nick_name pwd tel email w).1).tables
  user_register-IsAccount user_name nick_name pwd tel email w h z =
      (registered user_name nick_name pwd tel email w h z).1
