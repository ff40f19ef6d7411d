-- ===== src/Accounts/Sessions/Index.antt =====
-- What the index lists after a registration and after an unregistration.
use hivewiki_web.Base.{
  ℕ, ◌+◌, ◌*◌, ◌≤◌, ◌<◌, ◌≡◌, refl, sym, ap, ◌∙◌, true, not, ◌&&◌, ◌||◌, some, List, [], ◌∷◌, arith,
  ◌==◌, ==_refl, lt→ltb, Bool-cases, inl, inr, discard, if◌then◌else◌,
}
use hivewiki_web.Base.Text.{Text, is_empty, text_eq, text_eq_join, eq_of_text_eq}
use hivewiki_web.Django.Cache.{Cache, second}
use hivewiki_web.Accounts.Sessions.{
  contains, set_add, to_set, insert_sorted, sorted, none_to_nil, get_tracked_session_keys,
  store_tracked_session_keys, register_user_session, unregister_user_session,
}

pub contains-eq : (j k : Text) (ks : List Text) → text_eq k j ≡ true → contains j ks ≡ contains k ks
contains-eq j k ks h = ap (λ (t : Text). contains t ks) (sym (eq_of_text_eq k j h))

contains-set_add :
    (j k : Text) (ks : List Text) → contains j (set_add k ks) ≡ text_eq k j || contains j ks
contains-set_add j k ks = ground (arith, contains-eq j k ks)

contains-to_set :
    (j : Text) (ks : List Text) → contains j (to_set ks) ≡ not (is_empty j) && contains j ks
unfolding text_eq
contains-to_set j [] = ground arith
contains-to_set [] ([] ∷ ks) = contains-to_set [] ks
contains-to_set (c ∷ j) ([] ∷ ks) = contains-to_set (c ∷ j) ks
contains-to_set [] ((d ∷ k) ∷ ks) = contains-set_add [] (d ∷ k) (to_set ks) ∙ contains-to_set [] ks
contains-to_set (c ∷ j) ((d ∷ k) ∷ ks) =
    contains-set_add (c ∷ j) (d ∷ k) (to_set ks)
    ∙ ap (λ b. text_eq (d ∷ k) (c ∷ j) || b) (contains-to_set (c ∷ j) ks)

contains-insert_sorted :
    (j k : Text) (ks : List Text) → contains j (insert_sorted k ks) ≡ text_eq k j || contains j ks
contains-insert_sorted j k [] = refl
contains-insert_sorted j k (i ∷ ks) = ground (arith, contains-insert_sorted j k ks)

contains-sorted : (j : Text) (ks : List Text) → contains j (sorted ks) ≡ contains j ks
contains-sorted j [] = refl
contains-sorted j (k ∷ ks) =
    contains-insert_sorted j k (sorted ks) ∙ ap (λ b. text_eq k j || b) (contains-sorted j ks)

contains-discard :
    (j k : Text) (ks : List Text)
    → contains j (discard (λ i. text_eq i k) ks) ≡ not (text_eq k j) && contains j ks
contains-discard j k [] = ground arith
contains-discard j k (i ∷ ks) = elim (Bool-cases (text_eq i k)) [
  | inl e ↦
      let same : i ≡ k = eq_of_text_eq i k e in rw (e, contains-discard j k ks, same) (ground arith)
  | inr e ↦ rw (e, contains-discard j k ks) (ground (arith, text_eq_join i k j))
]

module _ (cache : Cache ℕ (List Text) ◌==◌) (session_cookie_age : ℕ) where
  -- What a read at `t` finds after the index entry was stored at `now`.
  contains-stored :
      (now t : ℕ) (user : ℕ) (j : Text) (ks : List Text) (s : cache.Store)
      → now ≤ t
      → t < now + session_cookie_age * second
      → contains j (
          get_tracked_session_keys cache session_cookie_age t user
            (store_tracked_session_keys cache session_cookie_age now user ks s))
        ≡ not (is_empty j) && contains j ks
  unfolding get_tracked_session_keys store_tracked_session_keys
  contains-stored now t user j [] s h k = rw (cache.get-delete, ==_refl) (ground arith)
  contains-stored now t user j (i ∷ ks) s h k =
      let keys = insert_sorted i (sorted ks) in
      rw (cache.get-set, h, ==_refl, lt→ltb t (now + session_cookie_age * second) k)
        (contains-to_set j keys ∙ ap (λ b. not (is_empty j) && b) (contains-sorted j (i ∷ ks)))

  -- No listed key is empty.
  contains-tracked :
      (now user : ℕ) (j : Text) (s : cache.Store)
      → contains j (get_tracked_session_keys cache session_cookie_age now user s)
        ≡ not (is_empty j)
          && contains j (get_tracked_session_keys cache session_cookie_age now user s)
  unfolding get_tracked_session_keys
  contains-tracked now user j s =
      let keys = none_to_nil (cache.get now user s) in rw (contains-to_set j keys) (ground arith)

  -- While the entry lasts, the index lists a registered key and the keys that it listed before, and
  -- no other.
  pub contains-register_user_session :
      (now t user : ℕ) (key j : Text) (s : cache.Store)
      → now ≤ t
      → t < now + session_cookie_age * second
      → contains j (
          get_tracked_session_keys cache session_cookie_age t user
            (register_user_session cache session_cookie_age now (some key) user s))
        ≡ (if is_empty key
            then contains j (get_tracked_session_keys cache session_cookie_age t user s)
            else text_eq key j
              || contains j (get_tracked_session_keys cache session_cookie_age now user s))
  unfolding register_user_session text_eq
  contains-register_user_session now t user [] j s h k = refl
  contains-register_user_session now t user (c ∷ key) [] s h k =
      let keys = get_tracked_session_keys cache session_cookie_age now user s in
      contains-stored now t user [] (set_add (c ∷ key) keys) s h k
      ∙ sym (contains-tracked now user [] s)
  contains-register_user_session now t user (c ∷ key) (d ∷ j) s h k =
      let keys = get_tracked_session_keys cache session_cookie_age now user s in
      contains-stored now t user (d ∷ j) (set_add (c ∷ key) keys) s h k
      ∙ contains-set_add (d ∷ j) (c ∷ key) keys

  -- While the entry lasts, a key that was listed and is unregistered is listed no more, and the
  -- other keys that the index listed are listed still.
  pub contains-unregister_user_session :
      (now t user : ℕ) (key j : Text) (s : cache.Store)
      → now ≤ t
      → t < now + session_cookie_age * second
      → contains key (get_tracked_session_keys cache session_cookie_age now user s) ≡ true
      → contains j (
          get_tracked_session_keys cache session_cookie_age t user
            (unregister_user_session cache session_cookie_age now (some key) (some user) s))
        ≡ not (text_eq key j)
          && contains j (get_tracked_session_keys cache session_cookie_age now user s)
  unfolding unregister_user_session
  contains-unregister_user_session now t user [] j s h k listed =
      cc (listed, contains-tracked now user [] s)
  contains-unregister_user_session now t user (c ∷ key) j s h k listed =
      let keys = get_tracked_session_keys cache session_cookie_age now user s in
      rw listed (
        contains-stored now t user j (discard (λ i. text_eq i (c ∷ key)) keys) s h k
        ∙ rw (contains-discard j (c ∷ key) keys) (ground (arith, contains-tracked now user j s)))
