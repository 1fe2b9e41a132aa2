-- ===== src/Pictures/Released.antt =====
-- What is known between the statements of `cancel_share_picture` of src_cgi/sharepicture_cgi.c.
use package.text.Mathlib.Text.{◌==◌ as str_eq}
use package.text.Mathlib.TextEquality.{eq_iff}
use package.text.Mathlib.TextPositions.{eq_refl}
use hydra_fs.Prelude.{
  ℕ, suc, ◌≤◌, ◌≡◌, refl, sym, ap, subst, ◌⊎◌, inl, inr, Bool, true, false, not, ◌&&◌, Bool-cases,
  Option, none, some, some_inj, String, if◌then◌else◌, arith,
}
use hydra_fs.Prelude.Int.{ℤ, pos, negsuc, eq_ℤ, pred_ℤ, positive, AtLeast}
use hydra_fs.Backend.{
  delete_picture, select_file_reference, update_file_count, delete_file_info, Reply, rows, atoi,
}
use hydra_fs.Backend.Contract.{
  FileInfo, State, IsSettled, apply, apply_tables, answer, reference_rows, with_count,
}
use hydra_fs.Backend.Triple.Statements.{Told}
use hydra_fs.Files.Invariant.{refs, Covers, IsSafe, IsKept-listed}
use hydra_fs.Files.Invariant.Steps.{Covers-less, Safe-update_count}
use hydra_fs.Files.Delete.{lowered}
use hydra_fs.Files.Delete.Release.{Safe-delete_file_info}
use hydra_fs.Pictures.{file_reference}
use hydra_fs.Pictures.Invariant.{shown, IsShared, IsListed}
use hydra_fs.Pictures.Statements.{Safe-beside}

-- A picture of this file is shared.
abbrev pub Claims : String → State → Type 0
Claims md5 s = IsShared s × (1 ≤ shown md5 s.tables.pictures)

-- The count and the id that were read: nothing, or those of the row.
abbrev pub Refers : String → Option (ℤ × String) → State → Type 0
Refers md5 ref s =
    (ref ≡ some (pos 0, ""))
    ⊎ ((i : FileInfo) × (s.tables.file_info md5 ≡ some i) × (ref ≡ some (i.count, i.file_id)))

-- The file may go, or stays: what is known behind the lowered count.
abbrev pub Spared : String → ℤ × String → State → Type 0
Spared md5 ref s =
    IsSafe s
    × IsSettled s
    × ((eq_ℤ ref.0 (pos 0) && not (str_eq ref.1 "")) ≡ true
        → (refs md5 s.tables.user_files ≡ 0)
          × ((k : String) (j : FileInfo)
              → s.tables.file_info k ≡ some j
              → j.file_id ≡ ref.1
              → k ≡ md5))

pub still_reference : (md5 : String) (s : State) → apply (select_file_reference md5) s ≡ s
unfolding apply apply_tables
still_reference md5 s = refl

pub reference_read :
    (md5 : String) (s : State) (r : Reply)
    → Claims md5 s
    → Told (select_file_reference md5) s r
    → Refers md5 (file_reference r) s
unfolding file_reference answer atoi
reference_read md5 s r h (inl e) = inl (ap file_reference e)
reference_read md5 s r h (inr told) = by_row (s.tables.file_info md5) refl
  where
    by_row : (o : Option FileInfo) → s.tables.file_info md5 ≡ o → Refers md5 (file_reference r) s
    by_row none e = inl (
        ap file_reference
          (told (rows (reference_rows none)) (ap (λ o. some (rows (reference_rows o))) e)))
    by_row (some i) e = inr (
      i,
      e,
      ap file_reference
          (told (rows (reference_rows (some i))) (ap (λ o. some (rows (reference_rows o))) e)),
    )

-- The count goes down with the picture in hand.
module _ (md5 : String) (i : FileInfo) (s : State) (e : s.tables.file_info md5 ≡ some i)
    (h : Claims md5 s) where
  covering : AtLeast (suc (refs md5 s.tables.user_files)) i.count
  covering =
      let one : 1 ≤ shown md5 s.tables.pictures = h.1 in
      Covers-less _ _ (some i) (omega arith) (subst (Covers _) e (h.0.covered md5))

  Safe-lowered : IsSafe (apply (update_file_count (pred_ℤ i.count) md5) s)
  Safe-lowered =
      Safe-update_count md5 (pred_ℤ i.count) s none none h.0.safe
        (λ k. counted k (Bool-cases (str_eq md5 k)))
    where
      lower : (n : ℕ) (c : ℤ) → AtLeast (suc n) c → AtLeast n (pred_ℤ c)
      lower n (pos c) h = ground arith
      lower n (negsuc c) h = absurd (omega arith)

      counted :
          (k : String)
          → (str_eq md5 k ≡ true) ⊎ (str_eq md5 k ≡ false)
          → Covers (refs k s.tables.user_files) (
              if str_eq md5 k
              then with_count (pred_ℤ i.count) (s.tables.file_info k)
              else s.tables.file_info k)
      counted k (inl t) =
          let same : md5 ≡ k = (eq_iff md5 k).0 t in
          let found : s.tables.file_info k ≡ some i =
            subst (λ k. s.tables.file_info k ≡ some i) same e in
          rw (t, found)
            (subst (λ k. AtLeast (refs k s.tables.user_files) (pred_ℤ i.count)) same
              (lower _ _ covering))
      counted k (inr f) = rw f (h.0.safe.now.counted k)

  -- A count that falls to 0 was for the picture.
  none_listed : eq_ℤ (lowered i.count) (pos 0) ≡ true → refs md5 s.tables.user_files ≡ 0
  unfolding lowered
  none_listed z = by_count i.count covering z
    where
      by_count :
          (c : ℤ)
          → AtLeast (suc (refs md5 s.tables.user_files)) c
          → eq_ℤ (if positive c then pred_ℤ c else c) (pos 0) ≡ true
          → refs md5 s.tables.user_files ≡ 0
      by_count (pos c) h z = ground arith
      by_count (negsuc c) h z = absurd (omega arith)

left_true : (a b : Bool) → (a && b) ≡ true → a ≡ true
left_true true b h = refl
left_true false b h = cc

-- With nothing read the file stays.
nothing_read :
    (md5 : String) (s : State) → IsSafe s → IsSettled s → Spared md5 (lowered (pos 0), "") s
unfolding lowered
nothing_read md5 s h c = (h, c, λ z. let wrong : false ≡ true = z in cc)

pub Spared-not_done :
    (md5 : String) (ref : ℤ × String) (s : State)
    → Claims md5 s
    → Refers md5 (some ref) s
    → Spared md5 (lowered ref.0, ref.1) s
Spared-not_done md5 ref s h (inl e) =
    subst (λ ref. Spared md5 (lowered ref.0, ref.1) s) (sym (some_inj e))
      (nothing_read md5 s h.0.safe h.0.settled)
Spared-not_done md5 ref s h (inr (i, e, f)) =
    subst (λ ref. Spared md5 (lowered ref.0, ref.1) s) (sym (some_inj f))
      (
        h.0.safe,
        h.0.settled,
        λ z. (
          none_listed md5 i s e h (left_true _ _ z),
          λ k j found same. h.0.safe.now.distinct k md5 j i found e same,
        ),
      )

pub Spared-done :
    (md5 : String) (ref : ℤ × String) (s : State)
    → Claims md5 s
    → Refers md5 (some ref) s
    → positive ref.0 ≡ true
    → Spared md5 (lowered ref.0, ref.1) (apply (update_file_count (pred_ℤ ref.0) md5) s)
unfolding apply apply_tables
Spared-done md5 ref s h (inl e) b = cc (subst (λ ref. positive ref.0 ≡ true) (some_inj e) b)
Spared-done md5 ref s h (inr (i, e, f)) b =
    subst
      (λ ref. Spared md5 (lowered ref.0, ref.1) (apply (update_file_count (pred_ℤ ref.0) md5) s))
      (sym (some_inj f))
      (
        safe,
        h.0.settled,
        λ z. (
          none_listed md5 i s e h (left_true _ _ z),
          λ k j found same.
              safe.now.distinct k md5 j (record i { count = pred_ℤ i.count }) found
                (rw (eq_refl md5, e) refl) same,
        ),
      )
  where
    safe : IsSafe (apply (update_file_count (pred_ℤ i.count) md5) s)
    safe = Safe-lowered md5 i s e h

pub Spared-delete_picture :
    (user url_md5 md5 : String) (ref : ℤ × String) (s : State)
    → Spared md5 ref s
    → Spared md5 ref (apply (delete_picture user url_md5) s)
unfolding apply apply_tables
Spared-delete_picture user url_md5 md5 ref s (h, c, d) = (Safe-beside s _ _ h, c, d)

-- Nobody lists the file, and no other row names it.
abbrev pub Gone : String → String → State → Type 0
Gone md5 id s =
    IsSafe s
    × IsSettled s
    × (refs md5 s.tables.user_files ≡ 0)
    × ((k : String) (j : FileInfo) → s.tables.file_info k ≡ some j → j.file_id ≡ id → k ≡ md5)

pub Gone-Spared :
    (md5 : String) (ref : ℤ × String) (s : State)
    → (eq_ℤ ref.0 (pos 0) && not (str_eq ref.1 "")) ≡ true
    → Spared md5 ref s
    → Gone md5 ref.1 s
Gone-Spared md5 ref s hit (h, c, d) = (h, c, (d hit).0, (d hit).1)

pub Gone-delete_file_info :
    (md5 id : String) (s : State) → Gone md5 id s → Gone md5 id (apply (delete_file_info md5) s)
unfolding apply apply_tables
Gone-delete_file_info md5 id s (h, c, z, u) = (
  Safe-delete_file_info md5 s (record { safe = h; settled = c; unnamed = z }),
  c,
  z,
  λ k j found same. elim (Bool-cases (str_eq md5 k)) [
    | inl t ↦ sym ((eq_iff md5 k).0 t)
    | inr f ↦ u k j (rw f at found) same
  ],
)

-- It may leave storage.
pub IsListed-Gone :
    (md5 id : String) (b : Bool) (s : State)
    → Gone md5 id s
    → IsListed (record s { stored = λ k. if str_eq id k then b else s.stored k })
IsListed-Gone md5 id b s (h, c, z, u) k = (
  h.now.counted k,
  elim (IsKept-listed k s h) [
    | inl none_left ↦ inl none_left
    | inr (j, e, there) ↦ elim (Bool-cases (str_eq id j.file_id)) [
      | inl t ↦ inl (
          subst (λ k. refs k s.tables.user_files ≡ 0)
            (sym (u k j e (sym ((eq_iff id j.file_id).0 t)))) z)
      | inr f ↦ inr (j, e, rw f there)
    ]
  ],
)
