-- ===== src/Django/Sessions.antt =====
-- The session store class of the configured engine, as `purge_user_sessions` uses it.
use hivewiki_web.Base.{◌≡◌, refl, Bool, false, if◌then◌else◌}
use hivewiki_web.Base.Text.{Text, text_eq}

pub record SessionStore : Type 1 where
  pub Store : Type 0
  pub exists : Text → Store → Bool
  -- `SessionStore(session_key=key).delete()`
  pub delete : Text → Store → Store
  pub exists-delete :
      (k j : Text) (s : Store) → exists j (delete k s) ≡ (if text_eq k j then false else exists j s)

-- A store that meets the law: the keys that are there.
abbrev pub key_store : SessionStore
key_store = record {
  Store = Text → Bool;
  exists = λ k s. s k;
  delete = λ k s j. if text_eq k j then false else s j;
  exists-delete = λ k j s. refl;
}
