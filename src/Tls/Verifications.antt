-- ===== src/Tls/Verifications.antt =====
-- pkg/tls/verifications.go: the methods that the environment names. A text is its list of code points.
pub mod Texts
use mproxy.Prelude.{
  ℕ, zero, suc, ◌-◌, Bool, true, false, not, ◌&&◌, ◌||◌, List, [], ◌∷◌, if◌then◌else◌, ◌==◌, leb,
}
use mproxy.Errors.{Err, sentinel}
use mproxy.Errors.Results.{Result, ok, fail, panic, ◌>>=◌}
use mproxy.Handler.{eq_bytes}

abbrev pub Text : Type 0
Text = List ℕ

abbrev pub err_invalid_cert_verification : Err
err_invalid_cert_verification = sentinel "tls" "invalid certificate verification method"

pub data Verification : Type 0 where
  by_ocsp by_crl : Verification

-- `unicode.IsSpace`.
unfoldable pub is_space : ℕ → Bool
is_space c =
    (leb 9 c && leb c 13)
    || c == 32
    || c == 133
    || c == 160
    || c == 5760
    || (leb 8192 c && leb c 8202)
    || c == 8232
    || c == 8233
    || c == 8239
    || c == 8287
    || c == 12288

-- `unicode.ToUpper` of the letters that become one of O, C, S, P, R and L, which are their small
-- letters and the long s; others are left, as they become none of those.
abbrev pub upper : ℕ → ℕ
upper c = if leb 97 c && leb c 122 then c - 32 else (if c == 383 then 83 else c)

unfoldable pub to_upper : Text → Text
to_upper [] = []
to_upper (c ∷ cs) = upper c ∷ to_upper cs

unfoldable pub trim_left : Text → Text
trim_left [] = []
trim_left (c ∷ cs) = let rest = trim_left cs in if is_space c then rest else c ∷ cs

abbrev pub cons_right : ℕ → Text → Text
cons_right c [] = if is_space c then [] else c ∷ []
cons_right c (d ∷ ds) = c ∷ d ∷ ds

unfoldable pub trim_right : Text → Text
trim_right [] = []
trim_right (c ∷ cs) = cons_right c (trim_right cs)

-- `strings.TrimSpace`.
abbrev pub trim_space : Text → Text
trim_space text = trim_right (trim_left text)

abbrev pub with_first : ℕ → List Text → List Text
with_first c [] = (c ∷ []) ∷ []
with_first c (piece ∷ pieces) = (c ∷ piece) ∷ pieces

-- `strings.Split` by a comma, which gives one piece at least.
unfoldable pub split : Text → List Text
split [] = [] ∷ []
split (c ∷ cs) = let rest = split cs in if c == 44 then [] ∷ rest else with_first c rest

-- "OCSP" and "CRL".
abbrev pub name_of : Verification → Text
name_of by_ocsp = 79 ∷ 67 ∷ 83 ∷ 80 ∷ []
name_of by_crl = 67 ∷ 82 ∷ 76 ∷ []

unfoldable pub parse_name : Text → Result Verification
parse_name v =
    if eq_bytes v (name_of by_ocsp)
    then ok by_ocsp
    else (if eq_bytes v (name_of by_crl) then ok by_crl else fail err_invalid_cert_verification)

unfoldable pub parse_validation : Text → Result Verification
parse_validation v = parse_name (to_upper (trim_space v))

unfoldable pub parse_all : List Text → Result (List Verification)
parse_all [] = ok []
parse_all (vm ∷ vmss) = do v ← parse_validation vm; vms ← parse_all vmss; ok (v ∷ vms)

unfoldable pub env_parse_slice_validate : Text → Result (List Verification)
env_parse_slice_validate v = parse_all (split (trim_space v))
