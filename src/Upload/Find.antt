-- ===== src/Upload/Find.antt =====
-- The searches of src_cgi/upload_cgi.c pass over a text in which the searched one does not begin.
use hydra_fs.Prelude.{
  ℕ, zero, suc, ◌+◌, ◌-◌, ◌≤◌, ◌<◌, ◌≡◌, refl, ap, ◌∙◌, Bool, true, false, not, ◌&&◌, some, [], ◌∷◌,
  ◌++◌, append_assoc, arith, ◌==◌, ltb, length, length-append, take, drop,
}
use hydra_fs.Text.{Bytes, starts_with}
use hydra_fs.Text.Search.{starts_with-append, starts_with-length}
use hydra_fs.Upload.Multipart.{
  place, ok, strstr_in, is_blank, trim_space_and_around, search_loop, buffer_search, copied,
  in_buffer, field_value, crlf,
}

-- `sub` does not begin in `a`, where `t` follows.
abbrev pub absent : (sub a t : Bytes) → Bool
absent sub [] t = true
absent sub (c ∷ a) t = not (starts_with sub (c ∷ a ++ t)) && absent sub a t

abbrev pub lacks : ℕ → Bytes → Bool
lacks q [] = true
lacks q (c ∷ s) = not (q == c) && lacks q s

abbrev pub no_nul : Bytes → Bool
no_nul [] = true
no_nul (c ∷ s) = not (c == 0) && no_nul s

pub strstr_in-skip :
    (a t sub : Bytes)
    → no_nul a ≡ true
    → absent sub a t ≡ true
    → strstr_in (a ++ t) sub ≡ strstr_in t sub
unfolding strstr_in
strstr_in-skip [] t sub n h = refl
strstr_in-skip (c ∷ a) t sub n h = ground (arith, strstr_in-skip a t sub)

pub strstr_in-here : (sub t : Bytes) → strstr_in (sub ++ t) sub ≡ place (sub ++ t)
unfolding strstr_in
strstr_in-here [] [] = ground (arith, starts_with-append [] [])
strstr_in-here [] (c ∷ t) = ground (arith, starts_with-append [] (c ∷ t))
strstr_in-here (d ∷ sub) t = ground (arith, starts_with-append (d ∷ sub) t)

-- The two in one.
pub strstr_in-append :
    (a sub t : Bytes)
    → no_nul a ≡ true
    → absent sub a (sub ++ t) ≡ true
    → strstr_in (a ++ (sub ++ t)) sub ≡ place (sub ++ t)
strstr_in-append a sub t n h = rw (strstr_in-skip a (sub ++ t) sub n h, strstr_in-here sub t)

starts_with-separator :
    (q : ℕ) (sub a t : Bytes)
    → lacks q sub ≡ true
    → starts_with sub (a ++ q ∷ t) ≡ starts_with sub (a ++ q ∷ [])
unfolding starts_with
starts_with-separator q [] a t l = refl
starts_with-separator q (d ∷ sub) [] t l = ground arith
starts_with-separator q (d ∷ sub) (c ∷ a) t l = ground (arith, starts_with-separator q sub a t)

-- Behind a byte that `sub` lacks nothing matters.
pub absent-separator :
    (q : ℕ) (sub a t : Bytes)
    → lacks q sub ≡ true
    → absent sub a (q ∷ []) ≡ true
    → absent sub a (q ∷ t) ≡ true
absent-separator q sub [] t l h = refl
absent-separator q sub (c ∷ a) t l h =
    ground (arith, starts_with-separator q sub (c ∷ a) t l, absent-separator q sub a t l)

pub absent-crlf : (a t : Bytes) → absent crlf a (13 ∷ []) ≡ true → absent crlf a (13 ∷ t) ≡ true
unfolding starts_with
absent-crlf [] t h = refl
absent-crlf (c ∷ []) t h = ground arith
absent-crlf (c ∷ d ∷ a) t h = ground (arith, absent-crlf (d ∷ a) t)

pub absent-one : (q : ℕ) (a t : Bytes) → lacks q a ≡ true → absent (q ∷ []) a t ≡ true
unfolding starts_with
absent-one q [] t h = refl
absent-one q (c ∷ a) t h = ground (arith, absent-one q a t)

pub absent-first : (q : ℕ) (sub a t : Bytes) → lacks q a ≡ true → absent (q ∷ sub) a t ≡ true
unfolding starts_with
absent-first q sub [] t h = refl
absent-first q sub (c ∷ a) t h = ground (arith, absent-first q sub a t)

pub absent-short : (sub a t : Bytes) → length a + length t < length sub → absent sub a t ≡ true
absent-short sub [] t h = refl
absent-short sub (c ∷ a) t h =
    ground (
      arith,
      starts_with-length sub (c ∷ a ++ t),
      length-append {0} (c ∷ a) t,
      absent-short sub a t,
    )

pub no_nul-drop : (n : ℕ) (s : Bytes) → no_nul s ≡ true → no_nul (drop n s) ≡ true
no_nul-drop zero s h = h
no_nul-drop (suc n) [] h = refl
no_nul-drop (suc n) (c ∷ s) h = ground (arith, no_nul-drop n s)

pub take-append : (a t : Bytes) → take (length a) (a ++ t) ≡ a
take-append [] t = refl
take-append (c ∷ a) t = ap (λ s. c ∷ s) (take-append a t)

pub drop-before : (n : ℕ) (a t : Bytes) → n ≤ length a → drop n (a ++ t) ≡ drop n a ++ t
drop-before zero a t h = refl
drop-before (suc n) [] t h = absurd (omega arith)
drop-before (suc n) (c ∷ a) t h = drop-before n a t (omega arith)

pub trim-stop :
    (c : ℕ) (s : Bytes) → is_blank c ≡ false → trim_space_and_around (c ∷ s) ≡ place (c ∷ s)
unfolding trim_space_and_around
trim-stop c [] h = rw h
trim-stop c (d ∷ s) h = rw h

pub copied-append :
    (size : ℕ) (a t : Bytes) → length a < size → in_buffer size (copied (a ++ t) t) ≡ ok a
unfolding copied
copied-append size a t h =
    let e : length (a ++ t) - length t ≡ length a = omega (arith, length-append {0} a t) in
    let f : ltb (length a) size ≡ true = ground arith in rw (e, take-append a t, f) refl

-- The value that stands before the next CR LF.
pub field_value-append :
    (size : ℕ) (a t : Bytes)
    → no_nul a ≡ true
    → absent crlf a (13 ∷ []) ≡ true
    → length a < size
    → field_value size (a ++ (crlf ++ t)) ≡ ok (a, crlf ++ t)
unfolding field_value
field_value-append size a t n h l =
    rw (strstr_in-append a crlf t n (absent-crlf a (10 ∷ t) h), copied-append size a (crlf ++ t) l)

search_loop-append :
    (a sub t : Bytes) (n i : ℕ)
    → absent sub a (sub ++ t) ≡ true
    → length a < n
    → search_loop n i (a ++ (sub ++ t)) sub ≡ some (i + length a)
unfolding search_loop
search_loop-append a sub t zero i h l = absurd (omega arith)
search_loop-append [] sub t (suc n) i h l = ground (arith, starts_with-append sub t)
search_loop-append (c ∷ a) sub t (suc n) i h l =
    ground (arith, search_loop-append a sub t n (i + 1))

pub absent-append :
    (sub a b t : Bytes)
    → absent sub a (b ++ t) ≡ true
    → absent sub b t ≡ true
    → absent sub (a ++ b) t ≡ true
absent-append sub [] b t h k = k
absent-append sub (c ∷ a) b t h k = ground (arith, append_assoc a b t, absent-append sub a b t)

pub buffer_search-append :
    (a sub t : Bytes)
    → 0 < length sub
    → absent sub a (sub ++ t) ≡ true
    → buffer_search (a ++ (sub ++ t)) sub ≡ some (length a)
unfolding buffer_search
buffer_search-append a [] t l h = absurd (omega arith)
buffer_search-append [] (d ∷ sub) t l h = ground (
  arith,
  length-append {0} sub t,
  search_loop-append [] (d ∷ sub) t (length (d ∷ sub ++ t) + 1 - length (d ∷ sub)) 0,
)
buffer_search-append (c ∷ a) (d ∷ sub) t l h = ground (
  arith,
  length-append {0} a (d ∷ sub ++ t),
  length-append {0} sub t,
  search_loop-append (c ∷ a) (d ∷ sub) t (length (c ∷ a ++ (d ∷ sub ++ t)) + 1 - length (d ∷ sub))
      0,
)

pub absent-crlf_before :
    (sub t : Bytes)
    → 0 < length sub
    → lacks 13 sub ≡ true
    → lacks 10 sub ≡ true
    → absent sub crlf t ≡ true
unfolding starts_with
absent-crlf_before [] t l r n = absurd (omega arith)
absent-crlf_before (d ∷ sub) t l r n = ground arith

drop-sum : (a t : Bytes) (n : ℕ) → drop (length a + n) (a ++ t) ≡ drop n t
drop-sum [] t n = let e : 0 + n ≡ n = omega arith in rw e refl
drop-sum (c ∷ a) t n =
    let e : suc (length a) + n ≡ suc (length a + n) = omega arith in rw e (drop-sum a t n)

-- Where the search for the other fields begins: the last two bytes of the boundary.
pub drop-behind :
    (p c b t : Bytes)
    → 2 ≤ length b
    → let x = c ++ (crlf ++ (b ++ t)) in
      drop (length (p ++ x) - length x + (length c + 2) - 2 + length b) (p ++ x)
      ≡ drop (length b - 2) b ++ t
drop-behind p c b t l =
    let x : Bytes = c ++ (crlf ++ (b ++ t)) in
    let e : length (p ++ x) - length x + (length c + 2) - 2 + length b
        ≡ length p + (length c + (length crlf + (length b - 2))) =
      omega (arith, length-append {0} p x) in
    rw e (
      drop-sum p x (length c + (length crlf + (length b - 2)))
      ∙ drop-sum c (crlf ++ (b ++ t)) (length crlf + (length b - 2))
      ∙ drop-sum crlf (b ++ t) (length b - 2)
      ∙ drop-before (length b - 2) b t (omega arith))
