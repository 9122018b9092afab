-- ===== src/Udp/Session/Expiry.antt =====
-- pkg/server/udp/session.go: what the cleanup and the forced shutdown do to each session.
use mproxy.Prelude.{ℕ, ◌≡◌, refl, String, true, [], ◌∷◌, arith, none, some, eq_iff, ap, ◌∙◌}
use mproxy.Prelude.Int.{ℤ, ◌≤ℤ◌, ◌<ℤ◌, since}
use mproxy.Prelude.Maps.{Dict, lookup}
use mproxy.Handler.{Handler}
use mproxy.Udp.Session.{
  SessionManager, get, drop_session, remove_one, remove_expired, cleanup_expired, close_entries,
  force_close_all,
}
use mproxy.Udp.Session.Entries.{
  expired, contexts, notify_all, keys, AllIn, expired_keys-keys, lookup-expired, expired-Distinct,
  expired-AllIn, AllIn-cons, AllIn-delete, Closes, close_entries-Closes,
}
use mproxy.Udp.Session.Limits.{Distinct, IsSound, lookup-Owned}

AllIn-self : (m : Dict ℕ) → Distinct m → AllIn m m
unfolding lookup
AllIn-self [] d = tt
AllIn-self ((k, a) ∷ m) d = (ground (arith, eq_iff k k), AllIn-cons k a m m d.0 (AllIn-self m d.1))

-- A map in which nothing is found is empty.
empty_of_lookup : (m : Dict ℕ) → ((j : String) → lookup j m ≡ none) → m ≡ []
unfolding lookup
empty_of_lookup [] h = refl
empty_of_lookup ((k, a) ∷ m) h = ground (arith, h k, eq_iff k k)

module _ {S : Type 0} (h : Handler S) where
  pub remove_one-some :
      (sm : SessionManager) (s : S) (k : String) (a : ℕ)
      → lookup k sm.sessions ≡ some a
      → remove_one h sm s k ≡ drop_session h sm s k a
  unfolding remove_one
  remove_one-some sm s k a e = rw (e, remove_one)

  remove-close :
      (sm : SessionManager) (s : S) (es : Dict ℕ)
      → Distinct es
      → AllIn sm.sessions es
      → remove_expired h sm s (keys es) ≡ close_entries h sm s es
  unfolding remove_expired close_entries drop_session
  remove-close sm s [] d i = refl
  remove-close sm s ((k, a) ∷ es) d i =
      ap (λ r. remove_expired h r.0 r.1 (keys es)) (remove_one-some sm s k a i.0)
      ∙ (remove-close (drop_session h sm s k a).0 (drop_session h sm s k a).1 es d.1
          (AllIn-delete k sm.sessions es d.0 i.1))

  cleanup-Closes :
      (sm : SessionManager) (s : S) (now : ℕ) (timeout : ℤ)
      → IsSound sm
      → Closes h sm s
          (expired sm.heap now timeout sm.sessions)
          (cleanup_expired h sm s now timeout).0
          (cleanup_expired h sm s now timeout).1
  unfolding cleanup_expired
  cleanup-Closes sm s now timeout v =
      let es = expired sm.heap now timeout sm.sessions in
      let d = expired-Distinct sm.heap now timeout sm.sessions v.distinct in
      let i = expired-AllIn sm.heap now timeout sm.sessions v.distinct in
      rw (expired_keys-keys sm.heap now timeout sm.sessions, remove-close sm s es d i)
        (close_entries-Closes h sm s es v d i)

  -- The cleanup removes a session exactly if it has been idle for longer than the timeout: such a
  -- session is out of the map and cancelled, and any other stands where it stood, unchanged. The
  -- handler is told of each one removed, once, in the map's order, and of no other.
  pub cleanup_expired_lem :
      (sm : SessionManager) (s : S) (now : ℕ) (timeout : ℤ) (j : String) (a : ℕ)
      → IsSound sm
      → get sm j ≡ some a
      → let (sm', s') = cleanup_expired h sm s now timeout in
        let idle = since now (sm.heap a).last_activity in
        (timeout <ℤ idle → (get sm' j ≡ none) × ((sm'.heap a).cancelled ≡ true))
        × (idle ≤ℤ timeout → (get sm' j ≡ some a) × (sm'.heap a ≡ sm.heap a))
        × (s' ≡ notify_all h s (contexts sm.heap (expired sm.heap now timeout sm.sessions)))
        × IsSound sm'
  unfolding get
  cleanup_expired_lem sm s now timeout j a v e =
      let c = cleanup-Closes sm s now timeout v in
      let f = lookup-expired sm.heap now timeout j a sm.sessions v.distinct e in
      let own = (lookup-Owned sm.heap sm.next_address a j sm.sessions v.owned e).1 in
      (
        λ t. (ground (arith, c.left j, f), c.shut j a (ground (arith, f))),
        λ t. (
          ground (arith, c.left j, f, e),
          c.kept a (
              ap (λ k. lookup k (expired sm.heap now timeout sm.sessions)) own ∙ ground (arith, f)),
        ),
        c.notified,
        c.sound,
      )

  -- A forced shutdown leaves no session in the map, cancels each one that was there, and tells the
  -- handler of each, once, in the map's order.
  pub force_close_all_lem :
      (sm : SessionManager) (s : S)
      → IsSound sm
      → let (sm', s') = force_close_all h sm s in
        (sm'.sessions ≡ [])
        × ((j : String) (a : ℕ) → get sm j ≡ some a → (sm'.heap a).cancelled ≡ true)
        × (s' ≡ notify_all h s (contexts sm.heap sm.sessions))
  unfolding get force_close_all
  force_close_all_lem sm s v =
      let c =
        close_entries-Closes h sm s sm.sessions v v.distinct (AllIn-self sm.sessions v.distinct) in
      (
        empty_of_lookup (close_entries h sm s sm.sessions).0.sessions
            (λ j. ground (arith, c.left j)),
        c.shut,
        c.notified,
      )
