-- ===== src/Text/Query.antt =====
-- `query_parse_key_value` of common/util_cgi.c: the field that it returns.
use hydra_fs.Prelude.{
  ℕ, suc, ◌<◌, ◌≡◌, ◌≢◌, refl, some, [], ◌∷◌, ◌++◌, arith, ◌⊎◌, inl, inr, length, drop, Bool-cases,
}
use hydra_fs.Text.{
  Bytes, found, starts_with, strstr, value_of, behind_equals, query_parse_key_value,
}
use hydra_fs.Text.Search.{Occurs, starts_with-append, append_of_starts_with}

-- Neither of the bytes that end a value.
abbrev pub InValue : Bytes → Type 0
InValue [] = Unit {0}
InValue (c ∷ s) = (c ≢ b'#') × (c ≢ b'&') × InValue s

-- What may follow a value: nothing, or one of the bytes that end it.
abbrev pub EndsValue : Bytes → Type 0
EndsValue [] = Unit {0}
EndsValue (c ∷ s) = (c ≡ b'#') ⊎ (c ≡ b'&')

value_of-InValue : (s : Bytes) → InValue (value_of s)
unfolding value_of
value_of-InValue [] = tt
value_of-InValue (c ∷ s) = ground (arith, value_of-InValue s)

value_of-append :
    (value tail : Bytes) → InValue value → EndsValue tail → value_of (value ++ tail) ≡ value
unfolding value_of
value_of-append [] [] v t = refl
value_of-append [] (c ∷ tail) v t = ground arith
value_of-append (c ∷ value) tail v t = ground (arith, value_of-append value tail v.2 t)

-- `strstr` passes over a text in which `sub` does not begin.
strstr_first :
    (pre sub s : Bytes)
    → ((j : ℕ) → j < length pre → ¬ Occurs sub (pre ++ (sub ++ s)) j)
    → strstr (pre ++ (sub ++ s)) sub ≡ some (sub ++ s)
unfolding strstr
strstr_first [] [] [] h = ground (arith, starts_with-append [] [])
strstr_first [] [] (c ∷ s) h = ground (arith, starts_with-append [] (c ∷ s))
strstr_first [] (d ∷ sub) s h = rw (starts_with-append (d ∷ sub) s)
strstr_first (c ∷ pre) sub s h = elim (Bool-cases (starts_with sub (c ∷ pre ++ (sub ++ s)))) [
  | inl e ↦ absurd (h 0 (omega arith) (append_of_starts_with sub _ e))
  | inr e ↦ rw e (strstr_first pre sub s (λ j l. h (suc j) (omega arith)))
]

drop-append : (s t : Bytes) → drop (length s) (s ++ t) ≡ t
drop-append [] t = refl
drop-append (c ∷ s) t = drop-append s t

-- In a query `pre key=value tail`, where the key stands nowhere before and the tail is empty or
-- begins with `&` or `#`, the value is returned up to the tail.
pub query_parse_key_value-append :
    (pre key value tail : Bytes)
    → ((j : ℕ) → j < length pre → ¬ Occurs key (pre ++ (key ++ b'=' ∷ (value ++ tail))) j)
    → InValue value
    → EndsValue tail
    → query_parse_key_value (pre ++ (key ++ b'=' ∷ (value ++ tail))) key ≡ found value
unfolding query_parse_key_value behind_equals
query_parse_key_value-append pre key value tail first v t = rw (
  strstr_first pre key (b'=' ∷ (value ++ tail)) first,
  query_parse_key_value,
  drop-append key (b'=' ∷ (value ++ tail)),
  behind_equals,
  value_of-append value tail v t,
)
