-- ===== src/Parser/Mqtt/Topics.antt =====
-- pkg/parser/mqtt/parser.go: the topics of a SUBSCRIBE and their QoS after the handler.
use mproxy.Prelude.{
  ℕ, zero, suc, ◌+◌, ◌-◌, ◌≤◌, ◌≡◌, refl, none, List, [], ◌∷◌, ◌++◌, arith, length, take, replicate,
  ap, length-append, length-take, length-replicate,
}
use mathlib.Core.List.{append-nil}
use native.Mathlib.Decide.{dec_le}
use native.Mathlib.Nat.{zero-add}
use mproxy.Handler.{Context, Handler}
use mproxy.Parser.Mqtt.{Subscribe, subscribe, fit_qoss, update_topics, handle_upstream}

length-fit_qoss : (qoss : List ℕ) (n : ℕ) → length (fit_qoss qoss n) ≡ n
unfolding fit_qoss
length-fit_qoss qoss n = ground (
  arith,
  length-append {0} qoss (replicate (n - length qoss) 0),
  length-replicate {A = ℕ} (n - length qoss) 0,
  length-take {0} n qoss,
)

-- Cutting a list that is short enough, and cutting in the part before an end.
take-append : (qoss more : List ℕ) (n : ℕ) → n ≤ length qoss → take n (qoss ++ more) ≡ take n qoss
take-append qoss more zero h = refl
take-append [] more (suc n) h = elim h [ ]
take-append (q ∷ qoss) more (suc n) h = ap (◌∷◌ q) (take-append qoss more n (omega arith))

take-replicate : (k m : ℕ) → k ≤ m → take k (replicate m 0) ≡ replicate {A = ℕ} k 0
take-replicate zero m h = refl
take-replicate (suc k) zero h = absurd (omega arith)
take-replicate (suc k) (suc m) h = ap (◌∷◌ 0) (take-replicate k m (omega arith))

take_padded :
    (qoss : List ℕ) (k m n : ℕ)
    → k ≤ m
    → n ≡ length qoss + k
    → take n (qoss ++ replicate m 0) ≡ qoss ++ replicate k 0
take_padded [] k m n h e = rw (e, zero-add) (take-replicate k m h)
take_padded (q ∷ qoss) k m zero h e = absurd (omega arith)
take_padded (q ∷ qoss) k m (suc n) h e = ap (◌∷◌ q) (take_padded qoss k m n h (omega arith))

-- Fitting is cutting the list that goes on with zeros.
fit_qoss-take : (qoss : List ℕ) (n : ℕ) → fit_qoss qoss n ≡ take n (qoss ++ replicate n 0)
unfolding fit_qoss
fit_qoss-take qoss n = elim (dec_le (length qoss) n) [
  | yes h ↦ ground (
    arith,
    take_padded qoss (n - length qoss) n n (omega arith) (omega arith),
    take_padded qoss 0 n n (omega arith),
    append-nil qoss,
  )
  | no h ↦ ground (arith, take-append qoss (replicate n 0) n (omega arith))
]

-- The forwarded SUBSCRIBE has a QoS for each of the topics that the handler leaves, if the
-- client's had one for each of its own: the topics are the handler's, and the QoS are the
-- client's, in order, as far as they reach, and 0 beyond that. The rest of the packet is kept.
handle_upstream-qoss :
    {S F : Type 0} (h : Handler S) (p : Subscribe F) (s : S) (c : Context)
    → length p.qoss ≡ length p.topics
    → (h.auth_subscribe s c p.topics).3 ≡ none
    → let t = h.auth_subscribe s c p.topics in
      let shared = (h.on_subscribe t.0 t.1 t.2).2 in
      let n = length t.2 in
      ((handle_upstream h (subscribe p) s c).pkt
        ≡ subscribe (record p { topics = shared; qoss = take n (p.qoss ++ replicate n 0) }))
      × (length (take n (p.qoss ++ replicate n 0)) ≡ n)
unfolding handle_upstream update_topics
handle_upstream-qoss h p s c e a =
    let n = length (h.auth_subscribe s c p.topics).2 in
    (
      ground (arith, fit_qoss-take p.qoss n, take_padded p.qoss 0 n n, append-nil p.qoss),
      omega (
        arith,
        length-take {A = ℕ} n (p.qoss ++ replicate n 0),
        length-append {A = ℕ} p.qoss (replicate n 0),
        length-replicate {A = ℕ} n 0,
      ),
    )
