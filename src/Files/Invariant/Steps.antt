-- ===== src/Files/Invariant/Steps.antt =====
-- How the statements of the file services keep the counts above the references.
use package.text.Mathlib.Text.{◌==◌ as str_eq}
use package.text.Mathlib.TextEquality.{eq_iff}
use hydra_fs.Prelude.{
  ℕ, suc, ◌≤◌, ◌≡◌, refl, sym, subst, Bool, true, false, Option, none, some, String, if◌then◌else◌,
  arith, inl, inr, Bool-cases, ◌∙◌, ◌⊎◌,
}
use hydra_fs.Prelude.Int.{ℤ, pos, negsuc, AtLeast, succ_ℤ, eq_ℤ}
use hydra_fs.Backend.{
  Sql, select_file_count, select_user_file, atoi, update_file_count, insert_user_file,
  select_user_count, insert_user_count, update_user_count, insert_task, Cell,
}
use hydra_fs.Backend.Contract.{
  FileInfo, Tables, State, apply, apply_tables, with_count, rolled_back, or_else,
}
use hydra_fs.Files.Invariant.{refs, Covers, extra, Sound, Safe, IsSafe}
use hydra_fs.Files.Count.{count_statement}

pub Covers-less : (n m : ℕ) (o : Option FileInfo) → n ≤ m → Covers m o → Covers n o
Covers-less n m none h c = omega arith
Covers-less n m (some i) h c = at_least i.count c
  where
    at_least : (k : ℤ) → AtLeast m k → AtLeast n k
    at_least (pos k) c = omega arith
    at_least (negsuc k) c = omega arith

-- A reference to spare may be forgotten.
pub Safe-spend : {md5 : String} (s : State) → Safe (some md5) s → IsSafe s
Safe-spend {md5} s h = record {
  now = record {
    counted = λ k. Covers-less _ _ _ (less k) (h.now.counted k);
    kept = h.now.kept;
    distinct = h.now.distinct;
  };
  before = h.before;
}
  where
    less :
        (k : String) → refs k s.tables.user_files ≤ extra (some md5) k (refs k s.tables.user_files)
    less k = ground arith

rise : (n : ℕ) (c : ℤ) → AtLeast n c → AtLeast (suc n) (succ_ℤ c)
rise n (pos c) h = omega arith
rise n (negsuc c) h = absurd (omega arith)

-- A changed count leaves the file.
original :
    (b : Bool) (n : ℤ) (o : Option FileInfo) (j : FileInfo)
    → (if b then with_count n o else o) ≡ some j
    → (i : FileInfo) × (o ≡ some i) × (i.file_id ≡ j.file_id)
original true n none j e = cc
original true n (some i) j e = (i, refl, ground (arith))
original false n none j e = cc
original false n (some i) j e = (i, refl, ground (arith))

module _ (md5 : String) (n : ℤ) (s : State) (spare spare' : Option String) (h : Safe spare s)
    (counts : (k : String)
      → Covers (extra spare' k (refs k s.tables.user_files)) (
          if str_eq md5 k then with_count n (s.tables.file_info k) else s.tables.file_info k)) where
  -- A new count that covers the references keeps the state safe.
  pub Safe-update_count : Safe spare' (apply (update_file_count n md5) s)
  unfolding apply apply_tables
  Safe-update_count = record {
    now = record {
      counted = counts;
      kept = λ k j f.
          let (i, e, same) = original _ n (s.tables.file_info k) j f in
          subst (λ id. s.stored id ≡ true) same (h.now.kept k i e);
      distinct = λ k k' j j' f f' q.
          let (i, e, same) = original _ n (s.tables.file_info k) j f in
          let (i', e', same') = original _ n (s.tables.file_info k') j' f' in
          h.now.distinct k k' i i' e e' (same ∙ (q ∙ sym same'));
    };
    before = h.before;
  }

-- One more in the count is one reference to spare.
pub Safe-raise_file_count :
    (md5 : String) (i : FileInfo) (s : State)
    → s.tables.file_info md5 ≡ some i
    → IsSafe s
    → Safe (some md5) (apply (update_file_count (succ_ℤ i.count) md5) s)
Safe-raise_file_count md5 i s e h =
    Safe-update_count md5 (succ_ℤ i.count) s none (some md5) h
      (λ k. counted k (Bool-cases (str_eq md5 k)))
  where
    counted :
        (k : String)
        → (str_eq md5 k ≡ true) ⊎ (str_eq md5 k ≡ false)
        → Covers (extra (some md5) k (refs k s.tables.user_files)) (
            if str_eq md5 k
            then with_count (succ_ℤ i.count) (s.tables.file_info k)
            else s.tables.file_info k)
    counted k (inl t) =
        let same : md5 ≡ k = (eq_iff md5 k).0 t in
        let found : s.tables.file_info k ≡ some i =
          subst (λ k. s.tables.file_info k ≡ some i) same e in
        rw (t, found)
          (rise _ _ (subst (Covers (refs k s.tables.user_files)) found (h.now.counted k)))
    counted k (inr f) = rw f (h.now.counted k)

-- An inserted row takes the reference to spare.
pub Safe-insert_user_file :
    (user md5 time name : String) (status pv : ℤ) (s : State)
    → Safe (some md5) s
    → IsSafe (apply (insert_user_file user md5 time name status pv) s)
unfolding apply apply_tables refs
Safe-insert_user_file user md5 time name status pv s h = record {
  now = record { counted = λ k. h.now.counted k; kept = h.now.kept; distinct = h.now.distinct };
  before = h.before;
}

pub still_user_count : (user : String) (s : State) → apply (select_user_count user) s ≡ s
unfolding apply apply_tables
still_user_count user s = refl

pub still_file_count : (md5 : String) (s : State) → apply (select_file_count md5) s ≡ s
unfolding apply apply_tables
still_file_count md5 s = refl

pub still_user_file :
    (user md5 name : String) (s : State) → apply (select_user_file user md5 name) s ≡ s
unfolding apply apply_tables
still_user_file user md5 name s = refl

either :
    (spare : Option String) (s : State) (b : Bool) (q q' : Sql)
    → Safe spare (apply q s)
    → Safe spare (apply q' s)
    → Safe spare (apply (if b then q else q') s)
either spare s true q q' h h' = h
either spare s false q q' h h' = h'

module _ (spare : Option String) (s : State) (h : Safe spare s) where
  -- The statements on the counts of users leave the files alone.
  Safe-insert_user_count : (user : String) (n : ℤ) → Safe spare (apply (insert_user_count user n) s)
  unfolding apply apply_tables
  Safe-insert_user_count user n = record {
    now = record { counted = h.now.counted; kept = h.now.kept; distinct = h.now.distinct };
    before = h.before;
  }

  pub Safe-update_user_count :
      (n : ℤ) (user : String) → Safe spare (apply (update_user_count n user) s)
  unfolding apply apply_tables
  Safe-update_user_count n user = record {
    now = record { counted = h.now.counted; kept = h.now.kept; distinct = h.now.distinct };
    before = h.before;
  }

  pub Safe-count_statement :
      (user : String) (ret2 : ℤ) (tmp : Cell) → Safe spare (apply (count_statement user ret2 tmp) s)
  unfolding count_statement
  Safe-count_statement user ret2 tmp =
      either spare s (eq_ℤ ret2 (pos 1)) _ _ (Safe-insert_user_count user (pos 1)) (
        either spare s (eq_ℤ ret2 (pos 0)) _ _ (Safe-update_user_count (succ_ℤ (atoi tmp)) user)
          unchanged)
    where
      unchanged : Safe spare (apply (select_user_count user) s)
      unchanged = subst (Safe spare) (sym (still_user_count user s)) h

pub Safe-insert_task :
    {spare : Option String} (user md5 task_type source : String) (s : State)
    → Safe spare s
    → Safe spare (apply (insert_task user md5 task_type source) s)
unfolding apply apply_tables
Safe-insert_task user md5 task_type source s h = record {
  now = record { counted = h.now.counted; kept = h.now.kept; distinct = h.now.distinct };
  before = h.before;
}

-- Going back to what a transaction saved keeps it too.
pub IsSafe-rolled_back : (s : State) → IsSafe s → IsSafe (rolled_back s)
IsSafe-rolled_back s h = record { now = at_saved s.saved refl; before = λ t e. cc }
  where
    at_saved : (o : Option Tables) → s.saved ≡ o → Sound none (or_else o s.tables) s.stored
    at_saved none e = h.now
    at_saved (some t) e = h.before t e
