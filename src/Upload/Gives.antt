-- ===== src/Upload/Gives.antt =====
-- What the steps of `recv_save_file` in src_cgi/upload_cgi.c give where they succeed.
use hydra_fs.Prelude.{
  ℕ, zero, suc, ◌+◌, ◌-◌, ◌<◌, ◌≡◌, inl, inr, refl, ap, subst, true, Option, some, none, [], ◌∷◌,
  ◌++◌, arith, Bool-cases, length, length-append, length-drop, drop,
}
use hydra_fs.Text.{Bytes, starts_with}
use hydra_fs.Text.Search.{append_of_starts_with, starts_with-length}
use hydra_fs.Upload.Multipart.{
  Parse, ok, failed, fault, Pointer, place, null, overrun, ◌>>=◌, or_fail, deref, or_fault,
  strstr_in, search_loop, buffer_search, copied, in_buffer,
}
use hydra_fs.Upload.Find.{take-append}

-- Where a parse goes on, it does so with a result of which `P` holds.
abbrev pub Gives : {A : Type 0} → (A → Type 0) → Parse A → Type 0
Gives P (ok a) = P a
Gives P failed = Unit {0}
Gives P fault = Unit {0}

pub step :
    {A B : Type 0} (P : B → Type 0) (m : Parse A) (k : A → Parse B)
    → ((a : A) → m ≡ ok a → Gives P (k a))
    → Gives P (m >>= k)
step P (ok a) k h = h a refl
step P failed k h = tt
step P fault k h = tt

pub Gives-ok : {A : Type 0} (P : A → Type 0) (m : Parse A) {a : A} → Gives P m → m ≡ ok a → P a
Gives-ok P m g e = subst (Gives P) e g

pub some_of : (o : Option ℕ) {k : ℕ} → or_fault o ≡ ok k → o ≡ some k
some_of none h = cc
some_of (some k) h = cc

pub fail_place : (p : Pointer) {s : Bytes} → or_fail p ≡ ok s → p ≡ place s
fail_place (place t) h = cc
fail_place null h = cc
fail_place overrun h = cc

pub deref-place : (p : Pointer) {s : Bytes} → deref p ≡ ok s → p ≡ place s
deref-place (place t) h = cc
deref-place null h = cc
deref-place overrun h = cc

pub strstr_in-place :
    (s sub : Bytes) {t : Bytes}
    → strstr_in s sub ≡ place t
    → (pre : Bytes) × (s ≡ pre ++ t) × (starts_with sub t ≡ true)
unfolding strstr_in
strstr_in-place [] sub h = ([], ground arith, ground arith)
strstr_in-place (c ∷ s) sub h = elim (Bool-cases (starts_with sub (c ∷ s))) [
  | inl e ↦ ([], ground arith, ground arith)
  | inr e ↦
      let (pre, p, q) = strstr_in-place s sub (ground arith) in (c ∷ pre, ap (λ x. c ∷ x) p, q)
]

pub copied-prefix :
    (size : ℕ) (pre end a : Bytes) → in_buffer size (copied (pre ++ end) end) ≡ ok a → a ≡ pre
unfolding copied
copied-prefix size pre end a h =
    let e : length (pre ++ end) - length end ≡ length pre =
      omega (arith, length-append {0} pre end) in
    ground (arith, e, take-append pre end)

search_loop-some :
    (n i : ℕ) (cur sep : Bytes) (m : ℕ)
    → search_loop n i cur sep ≡ some m
    → (k : ℕ) × (m ≡ i + k) × (starts_with sep (drop k cur) ≡ true)
unfolding search_loop
search_loop-some zero i cur sep m h = cc
search_loop-some (suc n) i cur sep m h = elim (Bool-cases (starts_with sep cur)) [
  | inl e ↦ (0, ground arith, e)
  | inr e ↦
      let (k, p, q) = search_loop-some n (i + 1) (drop 1 cur) sep m (ground arith) in
      (suc k, omega (arith), drop_one k cur sep q)
]
  where
    drop_one :
        (k : ℕ) (cur sep : Bytes)
        → starts_with sep (drop k (drop 1 cur)) ≡ true
        → starts_with sep (drop (suc k) cur) ≡ true
    drop_one zero [] sep q = q
    drop_one (suc k) [] sep q = q
    drop_one k (c ∷ cur) sep q = q

-- A place that `buffer_search` finds lies in the buffer.
pub buffer_search-some :
    (buf sep : Bytes) (k : ℕ)
    → buffer_search buf sep ≡ some k
    → (rest : Bytes) × (drop k buf ≡ sep ++ rest) × (k < length buf)
unfolding buffer_search
buffer_search-some [] sep k h = cc
buffer_search-some (c ∷ buf) [] k h = cc
buffer_search-some (c ∷ buf) (d ∷ sep) k h =
    let (j, e, q) = search_loop-some _ 0 (c ∷ buf) (d ∷ sep) k h in
    let same : k ≡ j = omega (arith, e) in
    let q' : starts_with (d ∷ sep) (drop k (c ∷ buf)) ≡ true = rw same q in
    let (rest, t) = append_of_starts_with (d ∷ sep) (drop k (c ∷ buf)) q' in
    (
      rest,
      t,
      omega
          (arith, starts_with-length (d ∷ sep) (drop k (c ∷ buf)) q', length-drop {0} k (c ∷ buf)),
    )
