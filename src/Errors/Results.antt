-- ===== src/Errors/Results.antt =====
-- A value or an error, for functions with the results `(A, error)`, with `do` for Go's early returns.
-- `panic` is a run-time panic, as when a nil pointer is followed.
use mproxy.Prelude.{Option, none, some, ◌≡◌, refl}
use mproxy.Errors.{Err, joined}

pub data Result {ℓ} (A : Type ℓ) : Type ℓ where
  ok : A → Result A
  fail : Err → Result A
  panic : Result A

infixl 5 ◌>>=◌ ◌>>◌
abbrev pub ◌>>=◌ {ℓ κ} : {A : Type ℓ} {B : Type κ} → Result A → (A → Result B) → Result B
ok a >>= f = f a
fail e >>= f = fail e
panic >>= f = panic

abbrev pub ◌>>◌ {ℓ} : {B : Type ℓ} → Result (Unit {0}) → Result B → Result B
r >> next = r >>= λ _. next

-- The results of `errors.Join(first, err)`, where there is an `err`.
abbrev pub join {ℓ} : {A : Type ℓ} → Err → Result A → Result A
join first (ok a) = ok a
join first (fail e) = fail (joined first e)
join first panic = panic

abbrev pub or_fail {ℓ} : {A : Type ℓ} → Option A → Err → Result A
or_fail (some a) e = ok a
or_fail none e = fail e

-- What a chain that succeeds went through.
pub ok_of_bind {ℓ κ} :
    {A : Type ℓ} {B : Type κ} (r : Result A) (f : A → Result B) (b : B)
    → (r >>= f) ≡ ok b
    → (a : A) × (r ≡ ok a) × (f a ≡ ok b)
ok_of_bind (ok a) f b h = (a, refl, h)
ok_of_bind (fail e) f b h = cc
ok_of_bind panic f b h = cc

pub ok_of_join {ℓ} :
    {A : Type ℓ} (first : Err) (r : Result A) (a : A) → join first r ≡ ok a → r ≡ ok a
ok_of_join first (ok b) a h = h
ok_of_join first (fail e) a h = cc
ok_of_join first panic a h = cc

pub bind_assoc {ℓ} :
    {B : Type ℓ} (r next : Result (Unit {0})) (last : Result B)
    → (r >> next >> last) ≡ (r >> (next >> last))
bind_assoc (ok u) next last = refl
bind_assoc (fail e) next last = refl
bind_assoc panic next last = refl

pub bind_ok : (r : Result (Unit {0})) → (r >> ok tt) ≡ r
bind_ok (ok u) = refl
bind_ok (fail e) = refl
bind_ok panic = refl

pub ok_of_or_fail {ℓ} :
    {A : Type ℓ} (o : Option A) (e : Err) (a : A) → or_fail o e ≡ ok a → o ≡ some a
ok_of_or_fail (some b) e a h = cc
ok_of_or_fail none e a h = cc

-- Two continuations that agree.
pub bind_cong {ℓ κ} :
    {A : Type ℓ} {B : Type κ} (r : Result A) {f g : A → Result B}
    → ((a : A) → f a ≡ g a)
    → (r >>= f) ≡ (r >>= g)
bind_cong (ok a) same = same a
bind_cong (fail e) same = refl
bind_cong panic same = refl

pub bind_map {ℓ κ ι} :
    {A : Type ℓ} {B : Type κ} {C : Type ι} (r : Result A) (f : A → B) (g : B → Result C)
    → (r >>= λ a. g (f a)) ≡ ((r >>= λ a. ok (f a)) >>= g)
bind_map (ok a) f g = refl
bind_map (fail e) f g = refl
bind_map panic f g = refl
