-- ===== src/Accounts/Sessions/Tests.antt =====
-- The index of sessions at concrete caches.
use hivewiki_web.Base.{
  ℕ, ◌≡◌, refl, true, false, not, ◌&&◌, none, some, List, [], ◌∷◌, ◌==◌, if◌then◌else◌,
}
use hivewiki_web.Base.Text.{Text, codes, text_eq}
use hivewiki_web.Django.Cache.{Cache, table_cache}
use hivewiki_web.Django.Sessions.{key_store}
use hivewiki_web.Accounts.Sessions.{
  contains, get_tracked_session_keys, delete_sessions, purge_user_sessions,
}
use hivewiki_web.Accounts.Sessions.Purge.{exists-purge_user_sessions}

abbrev index : Cache ℕ (List Text) ◌==◌
index = table_cache ◌==◌

abbrev listed : index.Store
listed u = if u == 7 then some (codes "a" ∷ codes "b" ∷ [], 9_000_000) else none

exists-purge_user_sessions_example :
    let (s, d) = purge_user_sessions index 60 key_store 1_000_000 7 (listed, λ k. true) in
    (d (codes "a")
      ≡ not (contains (codes "a") (get_tracked_session_keys index 60 1_000_000 7 listed)) && true)
    × (contains (codes "a") (get_tracked_session_keys index 60 1_000_000 7 s) ≡ false)
exists-purge_user_sessions_example =
    exists-purge_user_sessions index 60 key_store 1_000_000 7 (codes "a") listed (λ k. true)

purged_run :
    (purge_user_sessions index 60 key_store 1_000_000 7 (listed, λ k. true)).1 (codes "b") ≡ false
unfolding purge_user_sessions delete_sessions get_tracked_session_keys text_eq
purged_run = refl
