-- ===== src/Pictures/Statements.antt =====
-- What the statements of src_cgi/sharepicture_cgi.c do to the counts and the pictures.
use package.text.Mathlib.Text.{◌==◌ as str_eq}
use package.text.Mathlib.TextEquality.{eq_iff}
use package.text.Mathlib.TextPositions.{eq_refl}
use hydra_fs.Prelude.{
  ℕ, suc, ◌+◌, ◌-◌, ◌≤◌, ◌≡◌, refl, sym, subst, ◌⊎◌, inl, inr, true, false, Bool-cases, Option,
  none, some, String, List, [], ◌∷◌, if◌then◌else◌, arith,
}
use hydra_fs.Prelude.Int.{ℤ, pos, negsuc, AtLeast, succ_ℤ, eq_ℤ}
use hydra_fs.Backend.{
  insert_picture, update_file_count, Cell, Row, Reply, rows, Sql, failed, no_result, affected,
  chars, System,
}
use hydra_fs.Backend.Mysql.{text_of, first_column}
use hydra_fs.Backend.Contract.{
  FileInfo, Picture, State, apply, apply_tables, with_count, picture_rows, is_picture, Contract,
  Explains,
}
use hydra_fs.Backend.Triple.{Ends, Sat-run}
use hydra_fs.Files.Invariant.{refs, Covers, IsSafe}
use hydra_fs.Files.Invariant.Steps.{Covers-less, Safe-update_count}
use hydra_fs.Files.Count.{count_statement}
use hydra_fs.Pictures.{try_statement}
use hydra_fs.Pictures.Invariant.{shown, less, Shared, IsShared}

-- Whatever pictures and counts of users there are, the files are as safe.
pub Safe-beside :
    (s : State) (ps : List Picture) (cs : String → Option ℤ)
    → IsSafe s
    → IsSafe (record s { tables = record s.tables { pictures = ps; user_counts = cs } })
Safe-beside s ps cs h = record {
  now = record { counted = h.now.counted; kept = h.now.kept; distinct = h.now.distinct };
  before = h.before;
}

pub Shared-beside :
    (owed : Option String) (s : State) (cs : String → Option ℤ)
    → Shared owed s
    → Shared owed (record s { tables = record s.tables { user_counts = cs } })
Shared-beside owed s cs h = record {
  safe = Safe-beside s s.tables.pictures cs h.safe;
  settled = h.settled;
  covered = h.covered;
}

-- An inserted picture is owed a reference.
pub Shared-insert_picture :
    (user md5 name url_md5 key : String) (pv : ℤ) (time : String) (s : State)
    → IsShared s
    → Shared (some md5) (apply (insert_picture user md5 name url_md5 key pv time) s)
unfolding apply apply_tables shown
Shared-insert_picture user md5 name url_md5 key pv time s h = record {
  safe =
      Safe-beside s (record { user = user; md5 = md5; url_md5 = url_md5 } ∷ s.tables.pictures)
        s.tables.user_counts h.safe;
  settled = h.settled;
  covered = λ k. covered k (Bool-cases (str_eq md5 k));
}
  where
    covered :
        (k : String)
        → (str_eq md5 k ≡ true) ⊎ (str_eq md5 k ≡ false)
        → Covers
            (refs k s.tables.user_files
              + less (some md5) k (
                  if str_eq md5 k
                  then suc (shown k s.tables.pictures)
                  else shown k s.tables.pictures))
            (s.tables.file_info k)
    covered k (inl e) = rw e (Covers-less _ _ _ (omega arith) (h.covered k))
    covered k (inr e) = rw e (h.covered k)

rise_by_one : (n m : ℕ) (c : ℤ) → m ≤ suc n → AtLeast n c → AtLeast m (succ_ℤ c)
rise_by_one n m (pos c) l h = omega arith
rise_by_one n m (negsuc c) l h = absurd (omega arith)

-- One more in the count pays it.
pub Shared-pay :
    (md5 : String) (i : FileInfo) (s : State)
    → s.tables.file_info md5 ≡ some i
    → Shared (some md5) s
    → IsShared (apply (update_file_count (succ_ℤ i.count) md5) s)
unfolding apply apply_tables
Shared-pay md5 i s e h = record {
  safe =
      Safe-update_count md5 (succ_ℤ i.count) s none none h.safe
        (λ k. Covers-less _ _ _ (omega arith) (covered k (Bool-cases (str_eq md5 k))));
  settled = h.settled;
  covered = λ k. covered k (Bool-cases (str_eq md5 k));
}
  where
    covered :
        (k : String)
        → (str_eq md5 k ≡ true) ⊎ (str_eq md5 k ≡ false)
        → Covers (refs k s.tables.user_files + shown k s.tables.pictures) (
            if str_eq md5 k
            then with_count (succ_ℤ i.count) (s.tables.file_info k)
            else s.tables.file_info k)
    covered k (inl t) =
        let found : s.tables.file_info k ≡ some i =
          subst (λ k. s.tables.file_info k ≡ some i) ((eq_iff md5 k).0 t) e in
        rw (t, found)
          (rise_by_one _ _ _ (omega arith) (
            subst (Covers (refs k s.tables.user_files + (shown k s.tables.pictures - 1))) found
              (rw t at (h.covered k))))
    covered k (inr f) = rw f (rw f at (h.covered k))

-- The statement on the count of a user changes nothing but that count.
pub count_statement-beside :
    (user : String) (ret2 : ℤ) (tmp : Cell) (s : State)
    → (cs : String → Option ℤ) × (apply (count_statement user ret2 tmp) s
        ≡ record s { tables = record s.tables { user_counts = cs } })
unfolding count_statement apply apply_tables
count_statement-beside user ret2 tmp s = elim (Bool-cases (eq_ℤ ret2 (pos 1))) [
  | inl e ↦ rw e (_, refl)
  | inr e ↦ rw e (elim (Bool-cases (eq_ℤ ret2 (pos 0))) [
    | inl f ↦ rw f (_, refl)
    | inr f ↦ rw f (s.tables.user_counts, refl)
  ])
]

head_of {ℓ} : {A : Type ℓ} {x y : A} {xs ys : List A} → x ∷ xs ≡ y ∷ ys → x ≡ y
head_of e = cc

-- The picture that is found is one of those with its md5.
pub picture_rows-shown :
    (user url_md5 : String) (l : List Picture) (row : Row) (rest : List Row)
    → picture_rows user url_md5 l ≡ row ∷ rest
    → 1 ≤ shown (text_of (first_column row (chars ""))) l
unfolding picture_rows shown
picture_rows-shown user url_md5 [] row rest e = cc
picture_rows-shown user url_md5 (r ∷ rs) row rest e =
    elim (Bool-cases (is_picture user url_md5 r)) [
      | inl b ↦
          subst (λ row. 1 ≤ shown (text_of (first_column row (chars ""))) (r ∷ rs))
            (head_of (rw b at e)) (rw (eq_refl r.md5) (omega arith))
      | inr b ↦
          let before : 1 ≤ shown (text_of (first_column row (chars ""))) rs =
            picture_rows-shown user url_md5 rs row rest (rw b at e) in
          ground arith
    ]

module _ {W : Type 0} (sys : System W) (view : W → State) (behaves : Contract sys view)
    {E : Option ℤ → State → Type 0} where
  -- A statement whose result is not read: it is done, or it is not.
  pub Sat-try :
      {P : State → Type 0} {Q : State → Type 0} (q : Sql)
      → ((s : State) → P s → Q s)
      → ((s : State) → P s → Q (apply q s))
      → Ends view P (try_statement sys q) (λ _. Q) E
  unfolding try_statement
  Sat-try {P} {Q} q not_done done =
      Sat-run view (sys.mysql_query q)
        (λ w p. by_reply (sys.mysql_query q w).0 (view w) _ (behaves.query q w) p)
    where
      by_reply : (r : Reply) (s s' : State) → Explains q r s s' → P s → Q s'
      by_reply failed s s' e p = subst Q (sym e) (not_done s p)
      by_reply no_result s s' e p = subst Q (sym e.0) (done s p)
      by_reply (rows r) s s' e p = subst Q (sym e.0) (done s p)
      by_reply (affected n) s s' e p = subst Q (sym e.0) (done s p)
