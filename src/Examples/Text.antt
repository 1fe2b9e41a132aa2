-- ===== src/Examples/Text.antt =====
-- The theorems on the string helpers and base64 at concrete inputs.
use hydra_fs.Prelude.{ℕ, zero, suc, ◌<◌, ◌≡◌, ◌≢◌, refl, some, [], ◌∷◌, ◌++◌, arith, inr}
use hydra_fs.Text.{trim_space, memstr, query_parse_key_value, found, string_replace}
use hydra_fs.Text.Trim.{IsTrimOf, trim_space-IsTrimOf}
use hydra_fs.Text.Search.{Finds, memstr-Finds, Occurs}
use hydra_fs.Text.Query.{query_parse_key_value-append}
use hydra_fs.Text.Replace.{Replaced, string_replace-Replaced}
use hydra_fs.Base64.{codes, base64_encode, base64_decode}
use hydra_fs.Base64.RoundTrip.{base64_decode-encode}

trim_space_example : IsTrimOf (codes "  a b\t") (trim_space (codes "  a b\t"))
trim_space_example = trim_space-IsTrimOf (codes "  a b\t")

memstr_example : Finds (codes "lo") (codes "hello, lo") (memstr (codes "hello, lo") (codes "lo"))
memstr_example = memstr-Finds (codes "hello, lo") (codes "lo") (λ e. cc)

nothing_before :
    (j : ℕ)
    → j < 4
    → ¬ Occurs (codes "cmd") (codes "a=1&" ++ (codes "cmd" ++ b'=' ∷ (codes "del" ++ codes "&x"))) j
nothing_before zero l (rest, e) = ground arith
nothing_before (suc zero) l (rest, e) = ground arith
nothing_before (suc (suc zero)) l (rest, e) = ground arith
nothing_before (suc (suc (suc zero))) l (rest, e) = ground arith
nothing_before (suc (suc (suc (suc j)))) l h = absurd (omega arith)

query_example :
    query_parse_key_value
      (codes "a=1&" ++ (codes "cmd" ++ b'=' ∷ (codes "del" ++ codes "&x")))
      (codes "cmd")
    ≡ found (codes "del")
query_example =
    query_parse_key_value-append (codes "a=1&") (codes "cmd") (codes "del") (codes "&x")
      nothing_before (omega arith) (inr refl)

replace_example :
    (codes "ab" ≢ []
      → Replaced
          (codes "ab")
          (codes "abc")
          (codes "xabab")
          (string_replace (codes "xabab") (codes "ab") (codes "abc")))
    × (string_replace (codes "xabab") [] (codes "abc") ≡ codes "xabab")
replace_example = string_replace-Replaced (codes "xabab") (codes "ab") (codes "abc")

base64_decode_example : base64_decode (base64_encode (77 ∷ 255 ∷ [])) ≡ some (77 ∷ 255 ∷ [])
base64_decode_example = base64_decode-encode (77 ∷ 255 ∷ []) (omega arith)
