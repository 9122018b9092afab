-- ===== src/Handler.antt =====
-- pkg/handler/handler.go: the context of a connection and the hooks that a program supplies. A
-- handler works on a state of its own, of type `S`. What it changes through a pointer is a result.
use mproxy.Prelude.{ℕ, String, Option, none, List, [], ◌∷◌, Bool, true, false, ◌&&◌, ◌==◌}
use mproxy.Errors.{Err}

abbrev pub Bytes : Type 0
Bytes = List ℕ

-- `bytes.Equal`, and the comparison of strings as bytes.
unfoldable pub eq_bytes : Bytes → Bytes → Bool
eq_bytes [] [] = true
eq_bytes [] (y ∷ ys) = false
eq_bytes (x ∷ xs) [] = false
eq_bytes (x ∷ xs) (y ∷ ys) = x == y && eq_bytes xs ys

-- `cert` names the client's certificate.
pub record Context : Type 0 where
  pub session_id : String
  pub username : String
  pub password : Bytes
  pub client_id : String
  pub remote_addr : String
  pub protocol : String
  pub cert : Option ℕ

-- A slice that a hook is given shares its array with the caller, so the hook's result also has
-- what is in that array after the call: the last part but one of `on_connect` is the array of the
-- password, that of `on_publish` the payload and that of `on_subscribe` the topics.
pub record Handler (S : Type 0) : Type 0 where
  pub auth_connect : S → Context → S × Context × Option Err
  pub auth_publish : S → Context → String → Bytes → S × Context × String × Bytes × Option Err
  pub auth_subscribe : S → Context → List String → S × Context × List String × Option Err
  pub on_connect : S → Context → S × Context × Bytes × Option Err
  pub on_publish : S → Context → String → Bytes → S × Context × Bytes × Option Err
  pub on_subscribe : S → Context → List String → S × Context × List String × Option Err
  pub on_unsubscribe : S → Context → List String → S × Context × Option Err
  pub on_disconnect : S → Context → S × Context × Option Err

-- `NoopHandler` allows everything.
abbrev pub noop_handler : (S : Type 0) → Handler S
noop_handler S = record {
  auth_connect = λ s c. (s, c, none);
  auth_publish = λ s c topic payload. (s, c, topic, payload, none);
  auth_subscribe = λ s c topics. (s, c, topics, none);
  on_connect = λ s c. (s, c, c.password, none);
  on_publish = λ s c topic payload. (s, c, payload, none);
  on_subscribe = λ s c topics. (s, c, topics, none);
  on_unsubscribe = λ s c topics. (s, c, none);
  on_disconnect = λ s c. (s, c, none);
}

-- The context of a connection that has just been made.
abbrev pub new_context : String → String → String → Context
new_context session_id remote_addr protocol = record {
  session_id = session_id;
  username = "";
  password = [];
  client_id = "";
  remote_addr = remote_addr;
  protocol = protocol;
  cert = none;
}
