-- ===== src/Udp/Session/Entries.antt =====
-- pkg/server/udp/session.go: closing the sessions of some entries of the map.
use mproxy.Prelude.{
  ℕ, ◌≡◌, refl, String, true, List, [], ◌∷◌, arith, none, some, if◌then◌else◌, inr, eq_iff, is_none,
  ap, ◌∙◌, map,
}
use mproxy.Prelude.Int.{ℤ, ltb_ℤ, since}
use mproxy.Prelude.Maps.{Dict, lookup, delete, lookup-delete, length-delete-le}
use mproxy.Handler.{Context, Handler}
use mproxy.Udp.Session.{
  Session, SessionManager, store, close_session, expired_keys, drop_session, close_entries,
}
use mproxy.Udp.Session.Limits.{
  Distinct, Owned, IsSound, delete-Distinct, store-Owned, delete-Owned, lookup-Owned,
}

-- The entries whose sessions have been idle for longer than the timeout, in the map's order.
unfoldable pub expired : (ℕ → Session) → ℕ → ℤ → Dict ℕ → Dict ℕ
expired heap now timeout [] = []
expired heap now timeout ((k, a) ∷ m) =
    let later = expired heap now timeout m in
    if ltb_ℤ timeout (since now (heap a).last_activity) then (k, a) ∷ later else later

unfoldable pub contexts : (ℕ → Session) → Dict ℕ → List Context
contexts heap [] = []
contexts heap ((k, a) ∷ m) = (heap a).context ∷ contexts heap m

-- The disconnect hook called for each of these contexts in turn.
unfoldable pub notify_all : {S : Type 0} → Handler S → S → List Context → S
notify_all h s [] = s
notify_all h s (c ∷ cs) = notify_all h (h.on_disconnect s c).0 cs

abbrev pub keys : Dict ℕ → List String
keys = map (λ e. e.0)

-- Every one of these entries is in the map.
abbrev pub AllIn : Dict ℕ → Dict ℕ → Type 0
AllIn m [] = Unit {0}
AllIn m ((k, a) ∷ es) = (lookup k m ≡ some a) × AllIn m es

pub expired_keys-keys :
    (heap : ℕ → Session) (now : ℕ) (timeout : ℤ) (m : Dict ℕ)
    → expired_keys heap now timeout m ≡ keys (expired heap now timeout m)
unfolding expired_keys expired
expired_keys-keys heap now timeout [] = refl
expired_keys-keys heap now timeout ((k, a) ∷ m) =
    ground (arith, expired_keys-keys heap now timeout m)

lookup-expired-none :
    (heap : ℕ → Session) (now : ℕ) (timeout : ℤ) (j : String) (m : Dict ℕ)
    → lookup j m ≡ none
    → lookup j (expired heap now timeout m) ≡ none
unfolding lookup expired
lookup-expired-none heap now timeout j [] h = refl
lookup-expired-none heap now timeout j ((k, a) ∷ m) h =
    ground (arith, lookup-expired-none heap now timeout j m)

pub lookup-expired :
    (heap : ℕ → Session) (now : ℕ) (timeout : ℤ) (j : String) (a : ℕ) (m : Dict ℕ)
    → Distinct m
    → lookup j m ≡ some a
    → lookup j (expired heap now timeout m)
      ≡ (if ltb_ℤ timeout (since now (heap a).last_activity) then some a else none)
unfolding lookup expired
lookup-expired heap now timeout j a [] d h = cc
lookup-expired heap now timeout j a ((k, b) ∷ m) d h = ground (
  arith,
  eq_iff k j,
  lookup-expired heap now timeout j a m d.1,
  lookup-expired-none heap now timeout j m,
)

pub expired-Distinct :
    (heap : ℕ → Session) (now : ℕ) (timeout : ℤ) (m : Dict ℕ)
    → Distinct m
    → Distinct (expired heap now timeout m)
unfolding expired
expired-Distinct heap now timeout [] d = tt
expired-Distinct heap now timeout ((k, a) ∷ m) d =
    ground
      (arith, expired-Distinct heap now timeout m d.1, lookup-expired-none heap now timeout k m d.0)

pub AllIn-cons :
    (j : String) (b : ℕ) (m es : Dict ℕ) → lookup j m ≡ none → AllIn m es → AllIn ((j, b) ∷ m) es
unfolding lookup
AllIn-cons j b m [] h i = tt
AllIn-cons j b m ((k, a) ∷ es) h i = ground (arith, AllIn-cons j b m es h i.1, eq_iff j k)

pub expired-AllIn :
    (heap : ℕ → Session) (now : ℕ) (timeout : ℤ) (m : Dict ℕ)
    → Distinct m
    → AllIn m (expired heap now timeout m)
unfolding expired lookup
expired-AllIn heap now timeout [] d = tt
expired-AllIn heap now timeout ((k, a) ∷ m) d = ground (
  arith,
  AllIn-cons k a m (expired heap now timeout m) d.0 (expired-AllIn heap now timeout m d.1),
  eq_iff k k,
)

pub AllIn-delete :
    (k : String) (m es : Dict ℕ) → lookup k es ≡ none → AllIn m es → AllIn (delete k m) es
unfolding lookup
AllIn-delete k m [] h i = tt
AllIn-delete k m ((j, a) ∷ es) h i =
    ground (arith, AllIn-delete k m es, lookup-delete k j m, eq_iff j k, eq_iff k j)

AllIn-Owned :
    (heap : ℕ → Session) (n : ℕ) (m es : Dict ℕ) → Owned heap n m → AllIn m es → Owned heap n es
AllIn-Owned heap n m [] o i = tt
AllIn-Owned heap n m ((k, a) ∷ es) o i =
    let (low, own) = lookup-Owned heap n a k m o i.0 in (low, own, AllIn-Owned heap n m es o i.1)

-- A store at the session of one client leaves the contexts of the others.
contexts-store :
    (heap : ℕ → Session) (a n : ℕ) (s : Session) (es : Dict ℕ)
    → Owned heap n es
    → lookup (heap a).remote_addr es ≡ none
    → contexts (store heap a s) es ≡ contexts heap es
unfolding contexts lookup
contexts-store heap a n s [] o h = refl
contexts-store heap a n s ((j, b) ∷ es) o h =
    ground (arith, contexts-store heap a n s es o.2, eq_iff j (heap a).remote_addr)

module _ {S : Type 0} (h : Handler S) where
  -- The session that `drop_session` leaves on the heap.
  gone : SessionManager → S → ℕ → Session
  gone sm s a =
      close_session (record (sm.heap a) { context = (h.on_disconnect s (sm.heap a).context).1 })

  gone_facts :
      (sm : SessionManager) (s : S) (a : ℕ)
      → ((gone sm s a).remote_addr ≡ (sm.heap a).remote_addr) × ((gone sm s a).cancelled ≡ true)
  unfolding gone close_session
  gone_facts sm s a = ground arith

  after_drop : SessionManager → S → String → ℕ → SessionManager
  after_drop sm s k a = record sm {
    sessions = delete k sm.sessions;
    heap = store sm.heap a (gone sm s a);
  }

  drop_session-IsSound :
      (sm : SessionManager) (s : S) (k : String) (a : ℕ)
      → IsSound sm
      → IsSound (after_drop sm s k a)
  unfolding after_drop
  drop_session-IsSound sm s k a v =
      let own = delete-Owned sm.heap sm.next_address k sm.sessions v.owned in
      let same = (gone_facts sm s a).0 in
      ground (
        arith,
        v,
        delete-Distinct k sm.sessions v.distinct,
        store-Owned sm.heap a sm.next_address (gone sm s a) (delete k sm.sessions) (inr same) own,
        length-delete-le k sm.sessions,
      )

  pub drop-IsSound :
      (sm : SessionManager) (s : S) (k : String) (a : ℕ)
      → IsSound sm
      → IsSound (drop_session h sm s k a).0
  unfolding drop_session after_drop gone
  drop-IsSound sm s k a v = drop_session-IsSound sm s k a v

  -- What closing the sessions of some entries of the map does.
  pub record Closes (sm : SessionManager) (s : S) (es : Dict ℕ) (sm' : SessionManager) (s' : S)
      : Type 0 where
    pub notified : s' ≡ notify_all h s (contexts sm.heap es)
    pub sound : IsSound sm'
    pub left :
        (j : String)
        → lookup j sm'.sessions ≡ (if is_none (lookup j es) then lookup j sm.sessions else none)
    pub kept : (b : ℕ) → lookup (sm.heap b).remote_addr es ≡ none → sm'.heap b ≡ sm.heap b
    pub shut : (j : String) (a : ℕ) → lookup j es ≡ some a → (sm'.heap a).cancelled ≡ true

  AllIn-after_drop :
      (sm : SessionManager) (s : S) (k : String) (a : ℕ) (es : Dict ℕ)
      → lookup k es ≡ none
      → AllIn sm.sessions es
      → AllIn (after_drop sm s k a).sessions es
  unfolding after_drop
  AllIn-after_drop sm s k a es d i = AllIn-delete k sm.sessions es d i

  -- One more entry in front.
  Closes-cons :
      (sm sm' : SessionManager) (s s' : S) (k : String) (a : ℕ) (es : Dict ℕ)
      → Owned sm.heap sm.next_address es
      → (sm.heap a).remote_addr ≡ k
      → lookup k es ≡ none
      → Closes (after_drop sm s k a) (h.on_disconnect s (sm.heap a).context).0 es sm' s'
      → Closes sm s ((k, a) ∷ es) sm' s'
  unfolding after_drop notify_all contexts lookup
  Closes-cons sm sm' s s' k a es own mine d c = record {
    notified =
        c.notified
        ∙ ap (notify_all h (h.on_disconnect s (sm.heap a).context).0) (
            contexts-store sm.heap a sm.next_address (gone sm s a) es own
              (ap (λ x. lookup x es) mine ∙ d));
    sound = c.sound;
    left = λ j. ground (arith, c.left j, lookup-delete k j sm.sessions, eq_iff k j);
    kept = λ b e. kept_cons b e;
    shut = λ j b e. ground (arith, eq_iff k j, c.shut j b, shut_first);
  }
    where
      facts :
          ((gone sm s a).remote_addr ≡ (sm.heap a).remote_addr) × ((gone sm s a).cancelled ≡ true)
      facts = gone_facts sm s a

      first : store sm.heap a (gone sm s a) a ≡ gone sm s a
      first = ground arith

      shut_first : (sm'.heap a).cancelled ≡ true
      shut_first =
          ap (λ x. x.cancelled)
            (c.kept a (
                ap (λ x. lookup x.remote_addr es) first
                ∙ ap (λ x. lookup x es) (facts.0 ∙ mine)
                ∙ d)
              ∙ first)
          ∙ facts.1

      kept_cons :
          (b : ℕ) → lookup (sm.heap b).remote_addr ((k, a) ∷ es) ≡ none → sm'.heap b ≡ sm.heap b
      kept_cons b e =
          let other : store sm.heap a (gone sm s a) b ≡ sm.heap b =
            ground (arith, eq_iff k (sm.heap b).remote_addr) in
          c.kept b (ap (λ x. lookup x.remote_addr es) other ∙ ground (arith, e)) ∙ other

  pub close_entries-Closes :
      (sm : SessionManager) (s : S) (es : Dict ℕ)
      → IsSound sm
      → Distinct es
      → AllIn sm.sessions es
      → Closes sm s es (close_entries h sm s es).0 (close_entries h sm s es).1
  unfolding close_entries notify_all contexts lookup drop_session after_drop gone
  close_entries-Closes sm s [] v d i = record {
    notified = refl;
    sound = v;
    left = λ j. refl;
    kept = λ b e. refl;
    shut = λ j a e. cc;
  }
  close_entries-Closes sm s ((k, a) ∷ es) v d i =
      let own = AllIn-Owned sm.heap sm.next_address sm.sessions es v.owned i.1 in
      let mine = (lookup-Owned sm.heap sm.next_address a k sm.sessions v.owned i.0).1 in
      Closes-cons sm _ s _ k a es own mine d.0 (
        close_entries-Closes (after_drop sm s k a) (h.on_disconnect s (sm.heap a).context).0 es
          (drop_session-IsSound sm s k a v) d.1 (AllIn-after_drop sm s k a es d.0 i.1))
