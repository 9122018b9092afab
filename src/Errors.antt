-- ===== src/Errors.antt =====
-- pkg/errors/errors.go, and the part of Go's `errors` and `fmt.Errorf` that the proxy uses.
-- An error value is compared by identity: a package's error variable is named by its package and
-- its text, and an error that comes from outside is known by its text alone. `numbered` is the
-- text of `fmt.Errorf` with one `%d` in it; `followed` is the error of `fmt.Errorf` with `%w` first.
pub mod Chains
pub mod Results
use Prim.Native.String.{◌++◌ as str_append}
use mproxy.Prelude.Int.{ℤ, pos, negsuc}
use mproxy.Prelude.{
  ℕ, zero, suc, ◌/◌, ◌%◌, ltb, String, Bool, true, false, ◌&&◌, ◌||◌, Option, none, some, str_eq,
  if◌then◌else◌,
}

-- The fields of `ProxyError`, less the error under it.
pub record Fields : Type 0 where
  pub op : String
  pub protocol : String
  pub session_id : String
  pub remote_addr : String

pub data Err : Type 0 where
  sentinel : String → String → Err
  other : String → Err
  numbered : String → ℤ → String → Err
  wrapped : String → Err → Err
  followed : Err → String → Err
  joined : Err → Err → Err
  proxy_error : Fields → Err → Err

infixr 60 ◌^^◌
abbrev pub ◌^^◌ : String → String → String
s ^^ t = str_append s t

digit : ℕ → String
digit zero = "0"
digit (suc zero) = "1"
digit (suc (suc zero)) = "2"
digit (suc (suc (suc zero))) = "3"
digit (suc (suc (suc (suc zero)))) = "4"
digit (suc (suc (suc (suc (suc zero))))) = "5"
digit (suc (suc (suc (suc (suc (suc zero)))))) = "6"
digit (suc (suc (suc (suc (suc (suc (suc zero))))))) = "7"
digit (suc (suc (suc (suc (suc (suc (suc (suc zero)))))))) = "8"
digit n = "9"

-- The decimal digits of a number, the last one first in the recursion; `n + 1` rounds suffice.
digits : ℕ → ℕ → String
digits zero n = ""
digits (suc fuel) n = elim (ltb n 10) [
  | true ↦ digit n
  | false ↦ digits fuel (n / 10) ^^ digit (n % 10)
]

decimal : ℤ → String
unfolding digits
decimal (pos n) = digits (suc n) n
decimal (negsuc n) = "-" ^^ digits (suc (suc n)) (suc n)

-- `Error()` of each kind; that of `ProxyError` prints the session only if there is one.
proxy_text : Fields → String → String
proxy_text f under =
    if str_eq f.session_id ""
    then f.protocol ^^ " " ^^ f.op ^^ " " ^^ f.remote_addr ^^ ": " ^^ under
    else f.protocol ^^ " " ^^ f.op ^^ " [" ^^ f.session_id ^^ "] " ^^ f.remote_addr ^^ ": " ^^ under

pub error_text : Err → String
unfolding proxy_text decimal
error_text (sentinel owner text) = text
error_text (other text) = text
error_text (numbered text n rest) = text ^^ decimal n ^^ rest
error_text (wrapped text e) = text ^^ ": " ^^ error_text e
error_text (followed e rest) = error_text e ^^ rest
error_text (joined e f) = error_text e ^^ "\n" ^^ error_text f
error_text (proxy_error f e) = proxy_text f (error_text e)

-- `Unwrap() error`: a joined error has `Unwrap() []error` instead, and so gives nil here.
pub unwrap : Err → Option Err
unwrap (sentinel owner text) = none
unwrap (other text) = none
unwrap (numbered text n rest) = none
unwrap (wrapped text e) = some e
unwrap (followed e rest) = some e
unwrap (joined e f) = none
unwrap (proxy_error f e) = some e

-- `errors.Is(err, target)` for an error variable as the target.
unfoldable pub is_sentinel : String → String → Err → Bool
is_sentinel p t (sentinel owner text) = str_eq owner p && str_eq text t
is_sentinel p t (other text) = false
is_sentinel p t (numbered text n rest) = false
is_sentinel p t (wrapped text e) = is_sentinel p t e
is_sentinel p t (followed e rest) = is_sentinel p t e
is_sentinel p t (joined e f) = is_sentinel p t e || is_sentinel p t f
is_sentinel p t (proxy_error f e) = is_sentinel p t e

-- The same of a result, where nil is no error.
unfoldable pub is : String → String → Option Err → Bool
unfolding is_sentinel
is p t none = false
is p t (some e) = is_sentinel p t e

pub new : Fields → Option Err → Option Err
new f none = none
new f (some e) = some (proxy_error f e)

pub wrap : Option Err → String → Option Err
wrap none message = none
wrap (some e) message = some (wrapped message e)

abbrev pub eof : Err
eof = sentinel "io" "EOF"

abbrev pub err_unauthorized : Err
err_unauthorized = sentinel "errors" "unauthorized"
