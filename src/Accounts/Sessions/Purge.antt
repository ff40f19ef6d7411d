-- ===== src/Accounts/Sessions/Purge.antt =====
-- What `purge_user_sessions` leaves of the sessions and of the index.
use hivewiki_web.Base.{
  ℕ, ◌≡◌, refl, sym, ap, true, false, not, ◌&&◌, List, [], ◌∷◌, arith, ◌==◌, ==_refl, Bool-cases,
  inl, inr,
}
use hivewiki_web.Base.Text.{Text, text_eq, eq_of_text_eq}
use hivewiki_web.Django.Cache.{Cache}
use hivewiki_web.Django.Sessions.{SessionStore}
use hivewiki_web.Accounts.Sessions.{
  contains, get_tracked_session_keys, delete_sessions, purge_user_sessions,
}

module _ (cache : Cache ℕ (List Text) ◌==◌) (session_cookie_age : ℕ) (sessions : SessionStore) where
  exists_eq :
      (j k : Text) (d : sessions.Store)
      → text_eq k j ≡ true
      → sessions.exists j d ≡ sessions.exists k d
  exists_eq j k d e = ap (λ (t : Text). sessions.exists t d) (sym (eq_of_text_eq k j e))

  exists-delete_sessions :
      (j : Text) (ks : List Text) (d : sessions.Store)
      → sessions.exists j (delete_sessions cache session_cookie_age sessions ks d)
        ≡ not (contains j ks) && sessions.exists j d
  unfolding delete_sessions
  exists-delete_sessions j [] d = refl
  exists-delete_sessions j (k ∷ ks) d = elim (Bool-cases (sessions.exists k d)) [
    | inl there ↦ rw (there, exists-delete_sessions j ks, sessions.exists-delete) (ground arith)
    | inr gone ↦ rw (gone, exists-delete_sessions j ks) (ground (arith, exists_eq j k d))
  ]

  tracked-deleted :
      (now user : ℕ) (s : cache.Store)
      → get_tracked_session_keys cache session_cookie_age now user (cache.delete user s) ≡ []
  unfolding get_tracked_session_keys
  tracked-deleted now user s = rw (cache.get-delete, ==_refl)

  -- After a purge the sessions that the index listed for the user are gone, every other session is
  -- as it was, and the index lists no key for the user.
  pub exists-purge_user_sessions :
      (now user : ℕ) (j : Text) (s : cache.Store) (d : sessions.Store)
      → let (s', d') = purge_user_sessions cache session_cookie_age sessions now user (s, d) in
        (sessions.exists j d'
          ≡ not (contains j (get_tracked_session_keys cache session_cookie_age now user s))
            && sessions.exists j d)
        × (contains j (get_tracked_session_keys cache session_cookie_age now user s') ≡ false)
  unfolding purge_user_sessions
  exists-purge_user_sessions now user j s d = by_keys _ refl
    where
      by_keys :
          (keys : List Text)
          → get_tracked_session_keys cache session_cookie_age now user s ≡ keys
          → let (s', d') = purge_user_sessions cache session_cookie_age sessions now user (s, d) in
            (sessions.exists j d'
              ≡ not (contains j (get_tracked_session_keys cache session_cookie_age now user s))
                && sessions.exists j d)
            × (contains j (get_tracked_session_keys cache session_cookie_age now user s') ≡ false)
      by_keys [] e = rw e (refl, rw e)
      by_keys (k ∷ ks) e =
          rw e (exists-delete_sessions j (k ∷ ks) d, rw (tracked-deleted now user s))
