-- ===== src/Errors/Chains.antt =====
-- pkg/errors/errors.go: what wrapping an error keeps.
use mproxy.Prelude.{String, ◌≡◌, refl, Option, none, some}
use mproxy.Errors.{Fields, Err, is, new, wrap}

-- Both wrappers pass nil on, and over an error they answer `errors.Is` as that error does, so any
-- stack of the two keeps every error variable that can be found in it.
is-new-wrap :
    (p t message : String) (f : Fields) (e : Option Err)
    → (is p t (new f (wrap e message)) ≡ is p t e) × (is p t (wrap (new f e) message) ≡ is p t e)
unfolding is new wrap
is-new-wrap p t message f none = (refl, refl)
is-new-wrap p t message f (some e) = (refl, refl)
