-- ===== src/Text.antt =====
-- The string helpers of common/util_cgi.c. A C string is the list of its bytes before the NUL; the
-- sizes of the callers' buffers are not modelled.
pub mod Trim
pub mod Search
pub mod Query
pub mod Suffix
pub mod Replace
use hydra_fs.Prelude.{
  ℕ, zero, suc, ◌+◌, ◌-◌, Bool, true, false, ◌&&◌, ◌||◌, Option, none, some, List, [], ◌∷◌, ◌++◌,
  ltb, leb, ◌==◌, if◌then◌else◌, length, get_or, take, drop,
}

abbrev pub Bytes : Type 0
Bytes = List ℕ

-- `isspace` of the C locale.
unfoldable pub isspace : ℕ → Bool
isspace c = c == 32 || leb 9 c && leb c 13

-- `while (isspace(str[i]) && str[i] != '\0') i++;`
unfoldable pub skip_front : Bytes → ℕ → ℕ
skip_front [] i = i
skip_front (c ∷ s) i = let rest = skip_front s (i + 1) in if isspace c then rest else i

-- `while (isspace(str[j]) && j > i) j--;`
unfoldable pub skip_back : Bytes → ℕ → ℕ → ℕ
skip_back s i zero = 0
skip_back s i (suc j) =
    let rest = skip_back s i j in
    if isspace (get_or s (suc j) 0) && ltb i (suc j) then rest else suc j

-- For the empty string `j` starts at -1; the byte that `str[-1]` reads is then irrelevant, since
-- `j > i` fails, and `count` is 0.
unfoldable pub trim_space : Bytes → Bytes
trim_space [] = []
trim_space (c ∷ s) =
    let i = skip_front (c ∷ s) 0 in
    let j = skip_back (c ∷ s) i (length s) in take (j + 1 - i) (drop i (c ∷ s))

-- `memcmp(cur, sub, strlen(sub)) == 0`, and `strncmp` to the length of its second argument.
unfoldable pub starts_with : Bytes → Bytes → Bool
starts_with [] cur = true
starts_with (c ∷ sub) [] = false
starts_with (c ∷ sub) (d ∷ cur) = c == d && starts_with sub cur

-- `*cur == *sub`, where an empty `sub` has the NUL, which no byte of a string equals.
pub same_first : ℕ → Bytes → Bool
same_first c [] = false
same_first c (d ∷ sub) = c == d

-- The loop of `memstr`, with the rounds that are left and the bytes at `cur`.
pub memstr_loop : ℕ → ℕ → Bytes → Bytes → Option ℕ
memstr_loop zero i cur sub = none
memstr_loop (suc n) i [] sub = none
memstr_loop (suc n) i (c ∷ cur) sub =
    let rest = memstr_loop n (i + 1) cur sub in
    if same_first c sub then (if starts_with sub (c ∷ cur) then some i else rest) else rest

-- The offset of the pointer that `memstr` returns. With `last_possible ≤ 0` there is no round.
pub memstr : Bytes → Bytes → Option ℕ
memstr [] sub = none
memstr full [] = none
memstr full sub = memstr_loop (length full + 1 - length sub) 0 full sub

-- `strstr`: the text from the first occurrence on.
pub strstr : Bytes → Bytes → Option Bytes
strstr [] sub = if starts_with sub [] then some [] else none
strstr (c ∷ s) sub =
    let rest = strstr s sub in if starts_with sub (c ∷ s) then some (c ∷ s) else rest

-- What `query_parse_key_value` does: -1, 0 with the value, or a read behind the terminating NUL,
-- where the key ends the query and `temp++` steps over the NUL.
pub data Parsed : Type 0 where
  absent : Parsed
  found : Bytes → Parsed
  overrun : Parsed

-- `while ('\0' != *end && '#' != *end && '&' != *end) end++;`
pub value_of : Bytes → Bytes
value_of [] = []
value_of (c ∷ s) = let rest = value_of s in if c == b'#' || c == b'&' then [] else c ∷ rest

pub behind_equals : Bytes → Parsed
behind_equals [] = overrun
behind_equals (c ∷ s) = found (value_of s)

pub query_parse_key_value : Bytes → Bytes → Parsed
query_parse_key_value query key = elim (strstr query key) [
  | none ↦ absent
  | some temp ↦ behind_equals (drop (length key) temp)
]

abbrev pub null_suffix : Bytes
null_suffix = b'n' ∷ b'u' ∷ b'l' ∷ b'l' ∷ []

-- `while (*k != '.' && k != p) k--;` from the NUL at `k = q`.
pub find_dot : Bytes → ℕ → ℕ
find_dot s zero = 0
find_dot s (suc k) = let rest = find_dot s k in if get_or s (suc k) 0 == b'.' then suc k else rest

-- What is copied from behind the dot at `k`; `len` is `q - k` once `k` is past the dot.
pub suffix_behind : Bytes → ℕ → Bytes
suffix_behind file_name k =
    let len = length file_name - (k + 1) in
    if len == 0 then null_suffix else take len (drop (k + 1) file_name)

pub get_file_suffix : Bytes → Bytes
get_file_suffix file_name =
    let k = find_dot file_name (length file_name) in
    if get_or file_name k 0 == b'.' then suffix_behind file_name k else null_suffix

-- The loop of `string_replace` over what follows `strSrc`, with fuel for its rounds. A match moves
-- the tail behind the replacement and `strSrc` to that tail.
pub replace_loop : ℕ → Bytes → Bytes → Bytes → Bytes
replace_loop zero src find repl = src
replace_loop (suc n) [] find repl = []
replace_loop (suc n) (c ∷ src) find repl =
    let skipped = c ∷ replace_loop n src find repl in
    let replaced = repl ++ replace_loop n (drop (length find) (c ∷ src)) find repl in
    if same_first c find
    then (if starts_with find (c ∷ src) then replaced else skipped)
    else skipped

pub string_replace : Bytes → Bytes → Bytes → Bytes
string_replace src find repl = replace_loop (length src) src find repl
