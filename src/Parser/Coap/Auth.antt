-- ===== src/Parser/Coap/Auth.antt =====
-- pkg/parser/coap/parser.go: the key that is taken from the query.
use mproxy.Prelude.{ℕ, List, [], ◌∷◌, ◌++◌, ◌≡◌, arith, All, ◌∙◌, some}
use mproxy.Handler.{eq_bytes, Bytes}
use mproxy.Parser.Coap.{auth_prefix, find_auth, extract_auth}

-- The query is not "auth=" with a value.
abbrev pub NoAuth : Bytes → Type 0
NoAuth query = (value : Bytes) → query ≡ auth_prefix ++ value → value ≡ []

find_auth-none :
    (query : Bytes) (rest : List Bytes) → NoAuth query → find_auth (query ∷ rest) ≡ find_auth rest
unfolding find_auth eq_bytes
find_auth-none [] rest n = ground arith
find_auth-none (a ∷ []) rest n = ground arith
find_auth-none (a ∷ b ∷ []) rest n = ground arith
find_auth-none (a ∷ b ∷ c ∷ []) rest n = ground arith
find_auth-none (a ∷ b ∷ c ∷ d ∷ []) rest n = ground arith
find_auth-none (a ∷ b ∷ c ∷ d ∷ e ∷ []) rest n = ground arith
find_auth-none (a ∷ b ∷ c ∷ d ∷ e ∷ x ∷ value) rest n = ground (arith, n (x ∷ value))

find_auth-some :
    (b : ℕ) (value : Bytes) (rest : List Bytes)
    → find_auth ((auth_prefix ++ b ∷ value) ∷ rest) ≡ b ∷ value
unfolding find_auth eq_bytes
find_auth-some b value rest = ground arith

-- The key is the value of the first query "auth=..." that has one, however many other queries stand
-- before and after it.
extract_auth-first :
    (before after : List Bytes) (b : ℕ) (value : Bytes)
    → All NoAuth before
    → extract_auth (some (before ++ (auth_prefix ++ b ∷ value) ∷ after)) ≡ b ∷ value
unfolding extract_auth
extract_auth-first [] after b value n = find_auth-some b value after
extract_auth-first (query ∷ before) after b value n =
    find_auth-none query (before ++ (auth_prefix ++ b ∷ value) ∷ after) n.0
    ∙ extract_auth-first before after b value n.1
