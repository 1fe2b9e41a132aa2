-- ===== src/Accounts/Check.antt =====
-- Whom the check of the password in src_cgi/login_cgi.c lets in.
use Prim.Native.String.{len, find}
use package.text.Mathlib.Text.{◌==◌ as str_eq}
use package.text.Mathlib.TextEquality.{eq_iff}
use hydra_fs.Prelude.{
  ◌<◌, ◌≡◌, ◌≢◌, ◌⊎◌, inl, inr, refl, sym, subst, ap, ◌∙◌, Bool, true, false, Option, none, some,
  String, List, [], ◌∷◌, if◌then◌else◌,
}
use hydra_fs.Prelude.Int.{ℤ, pos, negsuc, eq_ℤ}
use hydra_fs.Backend.{
  Sql, select_password, select_salt, Cell, chars, Row, Reply, failed, no_result, rows, System,
}
use hydra_fs.Backend.Mysql.{text_of, store_one, buffer}
use hydra_fs.Backend.Contract.{IsSettled, UserInfo, Tables, State, answer, user_rows, Contract}
use hydra_fs.Backend.Triple.{Ends, Sat-step, Sat-pure, Sat-stop, Sat-if, NotZero, zero_went_on}
use hydra_fs.Backend.Triple.Statements.{Sat-select_one, Ends-answered, Selected}
use hydra_fs.Backend.Triple.Session.{with_database_ends}
use hydra_fs.Accounts.{Hashing, salted_hash, check_steps, check_user_pwd}
use hydra_fs.Accounts.Login.{first_user, still_password, still_salt}

-- What a query of one column answers, by the first row of the user.
abbrev pub Answers : (UserInfo → String) → Option UserInfo → List Row → Type 0
Answers column none rs = rs ≡ []
Answers column (some i) rs = (rest : List Row) × (rs ≡ (some (chars (column i)) ∷ []) ∷ rest)

cons-Answers :
    (column : UserInfo → String) (b : Bool) (r : UserInfo) (rs : List Row) (o : Option UserInfo)
    → Answers column o rs
    → Answers column
        (if b then some r else o)
        (if b then (some (chars (column r)) ∷ []) ∷ rs else rs)
cons-Answers column true r rs o h = (rs, refl)
cons-Answers column false r rs o h = h

pub user_rows-Answers :
    (column : UserInfo → String) (user : String) (l : List UserInfo)
    → Answers column (first_user user l) (user_rows column user l)
unfolding user_rows
user_rows-Answers column user [] = refl
user_rows-Answers column user (r ∷ rs) =
    cons-Answers column (str_eq r.user_name user) r _ _ (user_rows-Answers column user rs)

-- What a query with an empty buffer gives.
abbrev pub Read : (UserInfo → String) → Option UserInfo → ℤ → Cell → Type 0
Read column none r c = r ≡ pos 1
Read column (some i) r c = (r ≡ pos 0) × (c ≡ chars (column i))

pub store_one-Read :
    (column : UserInfo → String) (o : Option UserInfo) (rs : List Row)
    → Answers column o rs
    → Read column o
        (store_one (rows rs) (some (chars ""))).0
        (buffer (store_one (rows rs) (some (chars ""))).1)
unfolding store_one
store_one-Read column none rs e =
    subst (λ rs. (store_one (rows rs) (some (chars ""))).0 ≡ pos 1) (sym e) refl
store_one-Read column (some i) rs (rest, e) =
    subst
      (λ rs.
        ((store_one (rows rs) (some (chars ""))).0 ≡ pos 0)
        × (buffer (store_one (rows rs) (some (chars ""))).1 ≡ chars (column i)))
      (sym e) (refl, refl)

-- The query has not failed.
abbrev pub AreRows : Reply → Type 0
AreRows r = (r ≢ failed) × (r ≢ no_result)

-- A text with neither of the characters that end a literal in a statement, or escape the next one.
-- `find` is behind the text where there is none.
abbrev pub IsPlain : String → Type 0
IsPlain s = (len s < find s "'") × (len s < find s "\\")

module _ {W : Type 0} (sys : System W) (hashing : Hashing W) (view : W → State)
    (behaves : Contract sys view) where
  -- The first row of the user has the salted hash of this password.
  pub record IsAdmitted (user pwd : String) (t : Tables) : Type 0 where
    pub info : UserInfo
    pub found : first_user user t.users ≡ some info
    pub hashed : info.password ≡ salted_hash sys hashing info.salt pwd

  -- The state is settled with these tables.
  abbrev pub At : Tables → State → Type 0
  At t s = IsSettled s × (s.tables ≡ t)

  selected :
      (column : UserInfo → String) (q : Sql) (user : String) (s : State) (r : ℤ) (c : Cell)
      → answer q s ≡ some (rows (user_rows column user s.tables.users))
      → Selected q s (chars "") r c
      → ((r ≡ negsuc 0) × (c ≡ chars "")) ⊎ Read column (first_user user s.tables.users) r c
  selected column q user s r c a (inl h) = inl h
  selected column q user s r c a (inr told) =
      let (e, f) = told (user_rows column user s.tables.users) a in
      inr (
        subst (λ r. Read column (first_user user s.tables.users) r c) (sym e)
          (subst (Read column (first_user user s.tables.users) _) (sym f) (
            store_one-Read column (first_user user s.tables.users) _
              (user_rows-Answers column user s.tables.users))))

  -- What the two queries have shown, with the password's cell or without a row.
  abbrev Known : String → Tables → ℤ × Cell → Type 0
  Known user t q =
      eq_ℤ q.0 (pos 0) ≡ true
      → (i : UserInfo) × (first_user user t.users ≡ some i) × (q.1 ≡ chars i.password)

  of_password :
      (user : String) (t : Tables) (r : ℤ) (c : Cell)
      → ((r ≡ negsuc 0) × (c ≡ chars "")) ⊎ Read (λ i. i.password) (first_user user t.users) r c
      → Known user t (r, c)
  of_password user t r c h z = by_row (first_user user t.users) refl h
    where
      by_row :
          (o : Option UserInfo)
          → first_user user t.users ≡ o
          → ((r ≡ negsuc 0) × (c ≡ chars "")) ⊎ Read (λ i. i.password) o r c
          → (i : UserInfo) × (first_user user t.users ≡ some i) × (c ≡ chars i.password)
      by_row o e (inl (f, g)) = cc (rw f at z)
      by_row none e (inr f) = cc (rw f at z)
      by_row (some i) e (inr (f, g)) = (i, e, g)

  admitted :
      (user pwd : String) (t : Tables) (c : Cell) (i : UserInfo) (r : ℤ) (d : Cell)
      → first_user user t.users ≡ some i
      → c ≡ chars i.password
      → Read (λ i. i.salt) (first_user user t.users) r d
      → str_eq (text_of c) (salted_hash sys hashing (text_of d) pwd) ≡ true
      → IsAdmitted user pwd t
  admitted user pwd t c i r d found e read same =
      let (_, salted) = subst (λ o. Read (λ i. i.salt) o r d) found read in
      record {
        info = i;
        found = found;
        hashed =
            sym (ap text_of e)
            ∙ (eq_iff _ _).0 same
            ∙ ap (λ d. salted_hash sys hashing (text_of d) pwd) salted;
      }

  module _ (user pwd : String)
      (told : (w : W) → AreRows (sys.mysql_query (select_salt user) w).0) where
    salt_found :
        (s : State) (t : Tables)
        → s.tables ≡ t
        → let q =
            store_one (rows (user_rows (λ i. i.salt) user s.tables.users)) (some (chars "")) in
          Read (λ i. i.salt) (first_user user t.users) q.0 (buffer q.1)
    salt_found s t e =
        let q = store_one (rows (user_rows (λ i. i.salt) user s.tables.users)) (some (chars "")) in
        subst (λ t. Read (λ i. i.salt) (first_user user t.users) q.0 (buffer q.1)) e
          (store_one-Read (λ i. i.salt) (first_user user s.tables.users) _
            (user_rows-Answers (λ i. i.salt) user s.tables.users))

    steps_check :
        (t : Tables)
        → Ends view
            (At t)
            (check_steps sys hashing user pwd)
            (λ _ s. IsSettled s × IsAdmitted user pwd t)
            NotZero
    unfolding check_steps answer
    steps_check t =
        Sat-step view (λ q s. Known user t q × At t s)
          (Sat-select_one sys view behaves (select_password user) (chars "") (still_password user)
            (λ s r c h read. (
              subst (λ t. Known user t (r, c)) h.1
                  (of_password user s.tables r c
                    (selected (λ i. i.password) (select_password user) user s r c refl read)),
              h,
            )))
          (λ stored.
            Sat-step view
              (λ _ s.
                ((i : UserInfo) × (first_user user t.users ≡ some i)
                  × (stored.1 ≡ chars i.password))
                × At t s)
              (Sat-if view (eq_ℤ stored.0 (pos 0)) _ _ (λ z. Sat-pure view tt (λ s h. (h.0 z, h.1)))
                (λ _. Sat-stop view (negsuc 0) (λ s h e. cc)))
              (λ _.
                Sat-step view
                  (λ salt s.
                    (str_eq (text_of stored.1) (salted_hash sys hashing (text_of salt.1) pwd) ≡ true
                      → IsAdmitted user pwd t)
                    × At t s)
                  (Ends-answered sys view behaves (select_salt user) (chars "")
                    (λ s. user_rows (λ i. i.salt) user s.tables.users) told (λ s. still_salt user s)
                    (λ s. refl)
                    (λ s h. (
                      (λ same.
                          admitted user pwd t stored.1 h.0.0 _ _ h.0.1 h.0.2 (salt_found s t h.1.1)
                            same),
                      h.1,
                    )))
                  (λ salt.
                    Sat-if view _ _ _ (λ same. Sat-pure view tt (λ s h. (h.1.0, h.0 same)))
                      (λ _. Sat-stop view (negsuc 0) (λ s h e. cc)))))

  -- Where the check answers 0 outside a transaction, for a user name without quote and backslash, which
  -- the statements take as it is, and a server that answers the query of the salt, the first row of
  -- the user has as its password the hash of this password behind the row's salt.
  pub check_user_pwd-IsAdmitted :
      (user pwd : String) (w : W)
      → IsPlain user
      → ((w : W) → AreRows (sys.mysql_query (select_salt user) w).0)
      → IsSettled (view w)
      → (check_user_pwd sys hashing user pwd w).0 ≡ some (pos 0)
      → IsAdmitted user pwd (view w).tables
  unfolding check_user_pwd
  check_user_pwd-IsAdmitted user pwd w plain told h z =
      (zero_went_on view Q _ _
        (with_database_ends sys view behaves (At t) Q NotZero (check_steps sys hashing user pwd)
          (λ w e s h z. cc) (λ s q. (refl, q.1)) (λ r s e. e) (steps_check user pwd told t) w
          (h, refl))
        z).1
    where
      t : Tables
      t = (view w).tables

      Q : State → Type 0
      Q s = IsSettled s × IsAdmitted user pwd t
