-- ===== src/Merge/Joined.antt =====
-- What `merge_chunks_to_fastdfs` of src_cgi/chunk_merge_cgi.c puts into storage is the chunks one
-- behind the other.
use hydra_fs.Prelude.{
  ℕ, zero, suc, ◌+◌, ◌-◌, ◌≤◌, ◌<◌, ◌≡◌, ◌≢◌, refl, sym, ap, ◌∙◌, subst, Bool, true, false, Option,
  none, some, String, [], ◌++◌, append-nil, append_assoc, arith, if◌then◌else◌,
}
use hydra_fs.Prelude.Int.{ℤ, pos, negsuc, eq_ℤ}
use hydra_fs.Text.{Bytes, get_file_suffix}
use hydra_fs.Merge.{ChunkStore, verify_from, append_from, after_first, merge_chunks_to_fastdfs}

-- The chunks of each upload, and what FastDFS holds.
pub record Contents : Type 0 where
  pub chunks : String → ℕ → Option Bytes
  pub files : String → Option Bytes

-- The bytes of this many chunks from the `i`-th on, if all of them are there.
abbrev pub followed : Option Bytes → Option Bytes → Option Bytes
followed none rest = none
followed (some b) none = none
followed (some b) (some bs) = some (b ++ bs)

unfoldable pub joined : (ℕ → Option Bytes) → (n i : ℕ) → Option Bytes
joined chunk zero i = some []
joined chunk (suc n) i = followed (chunk i) (joined chunk n (i + 1))

abbrev pub Created : Option String → String → ℕ → Contents → Contents → Type 0
Created none md5 i s s' = s'.chunks ≡ s.chunks
Created (some id) md5 i s s' =
    (s'.chunks ≡ s.chunks) × (b : Bytes) × (s.chunks md5 i ≡ some b) × (s'.files id ≡ some b)

-- An append that answers 0 has put the chunk behind what the file had.
abbrev pub Appended : ℤ → String → ℕ → String → Contents → Contents → Type 0
Appended r md5 i id s s' =
    (s'.chunks ≡ s.chunks)
    × (r ≡ pos 0
        → (a : Bytes) → s.files id ≡ some a
        → (b : Bytes) × (s.chunks md5 i ≡ some b) × (s'.files id ≡ some (a ++ b)))

-- What FastDFS and the file system document.
pub record StoreContract {W : Type 0} (store : ChunkStore W) (view : W → Contents) : Type 0 where
  pub stat : (md5 : String) (i : ℕ) (w : W) → view (store.stat md5 i w).1 ≡ view w
  pub there :
      (md5 : String) (i : ℕ) (w : W)
      → (store.stat md5 i w).0 ≡ true
      → (b : Bytes) × ((view w).chunks md5 i ≡ some b)
  -- it may fail
  pub unlink :
      (md5 : String) (i : ℕ) (w : W)
      → ((view (store.unlink md5 i w)).files ≡ (view w).files)
        × ((j : ℕ) → i ≢ j → (view (store.unlink md5 i w)).chunks md5 j ≡ (view w).chunks md5 j)
  pub rmdir : (md5 : String) (w : W) → (view (store.rmdir md5 w)).files ≡ (view w).files
  pub connection : (w : W) → view (store.tracker_get_connection w).1 ≡ view w
  pub close : (w : W) → view (store.tracker_close_connection w) ≡ view w
  pub query : (w : W) → view (store.tracker_query_storage_store w).1 ≡ view w
  pub create :
      (md5 : String) (i : ℕ) (suffix : Bytes) (w : W)
      → Created
          (store.upload_appender md5 i suffix w).0
          md5
          i
          (view w)
          (view (store.upload_appender md5 i suffix w).1)
  pub append :
      (md5 : String) (i : ℕ) (id : String) (w : W)
      → Appended (store.append md5 i id w).0 md5 i id (view w) (view (store.append md5 i id w).1)

-- Chunks from the `i`-th on are those of `chunk`.
abbrev Same : (ℕ → Option Bytes) → String → ℕ → Contents → Type 0
Same chunk md5 i s = (j : ℕ) → i ≤ j → s.chunks md5 j ≡ chunk j

zero_of : (r : ℤ) → eq_ℤ r (pos 0) ≡ true → r ≡ pos 0
zero_of (pos n) e = ground arith
zero_of (negsuc n) e = cc

-- A round that ends with 0 has gone on.
went_on :
    {W : Type 0} (r : ℤ) (rest : ℤ × W) (w : W)
    → (if eq_ℤ r (pos 0) then rest else (r, w)).0 ≡ pos 0
    → (r ≡ pos 0) × (rest.0 ≡ pos 0) × ((if eq_ℤ r (pos 0) then rest else (r, w)) ≡ rest)
went_on {W} r rest w z = by_test (eq_ℤ r (pos 0)) refl z
  where
    by_test :
        (b : Bool)
        → eq_ℤ r (pos 0) ≡ b
        → (if b then rest else (r, w)).0 ≡ pos 0
        → (r ≡ pos 0) × (rest.0 ≡ pos 0) × ((if b then rest else (r, w)) ≡ rest)
    by_test true e z = (zero_of r e, z, refl)
    by_test false e z = let zero : eq_ℤ r (pos 0) ≡ true = rw z refl in cc

regrouped :
    (a b : Bytes) (rest : Option Bytes)
    → followed (some (a ++ b)) rest ≡ followed (some a) (followed (some b) rest)
regrouped a b none = refl
regrouped a b (some c) = ap some (append_assoc a b c)

module _ {W : Type 0} (store : ChunkStore W) (view : W → Contents)
    (behaves : StoreContract store view) (chunk : ℕ → Option Bytes) (md5 : String) where
  unlinked :
      (i : ℕ) (w : W)
      → Same chunk md5 i (view w)
      → Same chunk md5 (i + 1) (view (store.unlink md5 i w))
  unlinked i w h j l =
      (behaves.unlink md5 i w).1 j (λ e. absurd (omega (arith, e))) ∙ h j (omega arith)

  append_from-joined :
      (n i : ℕ) (id : String) (a : Bytes) (w : W)
      → Same chunk md5 i (view w)
      → (view w).files id ≡ some a
      → (append_from store n i md5 id w).0 ≡ pos 0
      → (view (append_from store n i md5 id w).1).files id ≡ followed (some a) (joined chunk n i)
  unfolding append_from joined
  append_from-joined zero i id a w same f z = f ∙ ap some (sym (append-nil a))
  append_from-joined (suc n) i id a w same f z =
      let w1 = (store.append md5 i id w).1 in
      let (worked, ended, chosen) =
        went_on (store.append md5 i id w).0
          (append_from store n (i + 1) md5 id (store.unlink md5 i w1)) w1 z in
      let (kept, grown) = behaves.append md5 i id w in
      let (b, there, now) = grown worked a f in
      let here : chunk i ≡ some b = sym (same i (omega arith)) ∙ there in
      let same1 : Same chunk md5 i (view w1) = λ j l. ap (λ chunks. chunks md5 j) kept ∙ same j l in
      ap (λ q. (view q.1).files id) chosen
      ∙ append_from-joined n (i + 1) id (a ++ b) (store.unlink md5 i w1) (unlinked i w1 same1)
          (ap (λ files. files id) (behaves.unlink md5 i w1).0 ∙ now) ended
      ∙ regrouped a b (joined chunk n (i + 1))
      ∙ ap (λ c. followed (some a) (followed c (joined chunk n (i + 1)))) (sym here)

  first_joined :
      (o : Option String) (count : ℕ) (w0 w : W)
      → Same chunk md5 0 (view w0)
      → Created o md5 0 (view w0) (view w)
      → let r = after_first store o md5 count w in
        r.0.0 ≡ pos 0 → (view r.1).files r.0.1 ≡ joined chunk (suc (count - 1)) 0
  unfolding after_first joined
  first_joined none count w0 w same made z = cc
  first_joined (some id) count w0 w same (kept, b, there, now) z =
      let here : chunk 0 ≡ some b = sym (same 0 (omega arith)) ∙ there in
      let w1 = store.unlink md5 0 w in
      let w2 = (append_from store (count - 1) 1 md5 id w1).1 in
      ap (λ files. files id) (behaves.rmdir md5 (store.tracker_close_connection w2))
      ∙ ap (λ s. s.files id) (behaves.close w2)
      ∙ append_from-joined (count - 1) 1 id b w1
          (unlinked 0 w (λ j l. ap (λ chunks. chunks md5 j) kept ∙ same j l))
          (ap (λ files. files id) (behaves.unlink md5 0 w).0 ∙ now) z
      ∙ ap (λ c. followed c (joined chunk (count - 1) 1)) (sym here)

  abbrev Joins : ℕ → (ℤ × String) × W → Type 0
  Joins count r = r.0.0 ≡ pos 0 → (view r.1).files r.0.1 ≡ joined chunk (suc (count - 1)) 0

  either :
      (count : ℕ) (b c : Bool) (r : (ℤ × String) × W) (w2 w1 : W)
      → Joins count r
      → Joins count (if b then (if c then r else ((negsuc 0, ""), w2)) else ((negsuc 0, ""), w1))
  either count true true r w2 w1 h = h
  either count true false r w2 w1 h = λ z. cc
  either count false c r w2 w1 h = λ z. cc

  merge-Joins :
      (count : ℕ) (filename : Bytes) (w : W)
      → Same chunk md5 0 (view w)
      → Joins count (merge_chunks_to_fastdfs store md5 count filename w)
  unfolding merge_chunks_to_fastdfs
  merge-Joins count filename w same =
      let w1 = (store.tracker_get_connection w).1 in
      let w2 = (store.tracker_query_storage_store w1).1 in
      let suffix = get_file_suffix filename in
      either count _ _ _ w2 w1 (
        first_joined (store.upload_appender md5 0 suffix w2).0 count w2
          (store.upload_appender md5 0 suffix w2).1
          (λ j l. ap (λ s. s.chunks md5 j) (behaves.query w1 ∙ behaves.connection w) ∙ same j l)
          (behaves.create md5 0 suffix w2))

-- Where the merge of a positive number of chunks answers 0, the file that it names holds exactly
-- the chunks that were there, one behind the other.
pub merge_chunks_to_fastdfs-joined :
    {W : Type 0} (store : ChunkStore W) (view : W → Contents)
    → StoreContract store view
    → (md5 : String) (chunk_count : ℕ) (filename : Bytes) (w : W) → 0 < chunk_count
    → (merge_chunks_to_fastdfs store md5 chunk_count filename w).0.0 ≡ pos 0
    → (view (merge_chunks_to_fastdfs store md5 chunk_count filename w).1).files
        (merge_chunks_to_fastdfs store md5 chunk_count filename w).0.1
      ≡ joined ((view w).chunks md5) chunk_count 0
merge_chunks_to_fastdfs-joined store view behaves md5 chunk_count filename w l z =
    let positive : suc (chunk_count - 1) ≡ chunk_count = omega arith in
    merge-Joins store view behaves ((view w).chunks md5) md5 chunk_count filename w (λ j l. refl) z
    ∙ ap (λ n. joined ((view w).chunks md5) n 0) positive

-- Every chunk is there.
pub verify_from-all :
    {W : Type 0} (store : ChunkStore W) (view : W → Contents)
    → StoreContract store view
    → (n i : ℕ) (md5 : String) (w : W) → (verify_from store n i md5 w).0 ≡ pos 0
    → (bs : Bytes) × (joined ((view w).chunks md5) n i ≡ some bs)
unfolding verify_from joined
verify_from-all store view behaves zero i md5 w z = ([], refl)
verify_from-all store view behaves (suc n) i md5 w z =
    let w1 = (store.stat md5 i w).1 in
    let (found, rest) = there (store.stat md5 i w).0 refl z in
    let (b, here) = behaves.there md5 i w found in
    let (bs, more) = verify_from-all store view behaves n (i + 1) md5 w1 rest in
    let more' : joined ((view w).chunks md5) n (i + 1) ≡ some bs =
      subst (λ s. joined (s.chunks md5) n (i + 1) ≡ some bs) (behaves.stat md5 i w) more in
    (b ++ bs, rw (here, more') refl)
  where
    there :
        (t : Bool)
        → (store.stat md5 i w).0 ≡ t
        → (if t
            then verify_from store n (i + 1) md5 (store.stat md5 i w).1
            else (negsuc 0, (store.stat md5 i w).1)).0
          ≡ pos 0
        → ((store.stat md5 i w).0 ≡ true)
          × ((verify_from store n (i + 1) md5 (store.stat md5 i w).1).0 ≡ pos 0)
    there true e z = (e, z)
    there false e z = cc
