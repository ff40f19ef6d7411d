-- ===== src/Accounts/Sessions.antt =====
-- apps/accounts/services.py, the index of a user's session keys: a cache entry for each user, which
-- lists the keys of the sessions in which the user is logged in. A cache key is the user's id: the
-- program prints the id behind a fixed prefix. A set of keys is a list without repetitions.
pub mod Index
pub mod Purge
mod Tests
use hivewiki_web.Base.{
  ℕ, ◌&&◌, Bool, true, false, not, Option, none, some, List, [], ◌∷◌, ◌==◌, if◌then◌else◌, any_of,
  discard,
}
use hivewiki_web.Base.Text.{Text, is_empty, text_eq, text_leb}
use hivewiki_web.Django.Cache.{Cache}
use hivewiki_web.Django.Sessions.{SessionStore}

abbrev pub contains : Text → List Text → Bool
contains k = any_of (λ j. text_eq j k)

-- `set.add`
abbrev pub set_add : Text → List Text → List Text
set_add k ks = if contains k ks then ks else k ∷ ks

-- `{key for key in keys if key}`
abbrev pub to_set : List Text → List Text
to_set [] = []
to_set (k ∷ ks) = if is_empty k then to_set ks else set_add k (to_set ks)

-- `sorted(keys)`
abbrev pub insert_sorted : Text → List Text → List Text
insert_sorted k [] = k ∷ []
insert_sorted k (j ∷ js) = if text_leb k j then k ∷ j ∷ js else j ∷ insert_sorted k js

abbrev pub sorted : List Text → List Text
sorted [] = []
sorted (k ∷ ks) = insert_sorted k (sorted ks)

abbrev pub none_to_nil : Option (List Text) → List Text
none_to_nil none = []
none_to_nil (some ks) = ks

-- `session_cookie_age` is settings.SESSION_COOKIE_AGE.
module _ (cache : Cache ℕ (List Text) ◌==◌) (session_cookie_age : ℕ) where
  abbrev Store : Type 0
  Store = cache.Store

  unfoldable pub get_tracked_session_keys : ℕ → ℕ → Store → List Text
  get_tracked_session_keys now user s = to_set (none_to_nil (cache.get now user s))

  unfoldable pub store_tracked_session_keys : ℕ → ℕ → List Text → Store → Store
  store_tracked_session_keys now user keys s =
      if is_empty keys
      then cache.delete user s
      else cache.set now user (sorted keys) session_cookie_age s

  -- `session_key` is `request.session.session_key`, which is None or text.
  unfoldable pub register_user_session : ℕ → Option Text → ℕ → Store → Store
  register_user_session now none user s = s
  register_user_session now (some key) user s =
      if is_empty key
      then s
      else store_tracked_session_keys now user (set_add key (get_tracked_session_keys now user s)) s

  unfoldable pub unregister_user_session : ℕ → Option Text → Option ℕ → Store → Store
  unregister_user_session now key none s = s
  unregister_user_session now none (some user) s = s
  unregister_user_session now (some key) (some user) s =
      let keys = get_tracked_session_keys now user s in
      if is_empty key
      then s
      else if contains key keys
      then store_tracked_session_keys now user (discard (λ j. text_eq j key) keys) s
      else s

  module _ (sessions : SessionStore) where
    -- The loop over the keys: a session that is gone is passed over.
    unfoldable pub delete_sessions : List Text → sessions.Store → sessions.Store
    delete_sessions [] d = d
    delete_sessions (k ∷ ks) d =
        delete_sessions ks (if sessions.exists k d then sessions.delete k d else d)

    unfoldable pub purge_user_sessions : ℕ → ℕ → Store × sessions.Store → Store × sessions.Store
    purge_user_sessions now user (s, d) =
        let keys = get_tracked_session_keys now user s in
        if is_empty keys then (s, d) else (cache.delete user s, delete_sessions keys d)
