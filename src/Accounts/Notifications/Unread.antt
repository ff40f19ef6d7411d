-- ===== src/Accounts/Notifications/Unread.antt =====
-- The cached number of unread notifications is the number in the table.
use Prim.{tt}
use hivewiki_web.Base.{
  ℕ, ◌+◌, ◌*◌, ◌≤◌, ◌≡◌, refl, sym, subst, ◌∙◌, Bool, true, false, Option, none, some, List, [],
  ◌∷◌, arith, ◌==◌, ltb, if◌then◌else◌, is_some, count_of, update_of, any_of, All, Bool-cases,
  Option-cases, inl, inr,
}
use hivewiki_web.Base.Text.{Text, text_eq, text_eq_refl, eq_of_text_eq}
use hivewiki_web.Django.Cache.{Cache, second}
use hivewiki_web.Accounts.Models.{Notification}
use hivewiki_web.Accounts.Notifications.{
  Request, Inbox, new_notification, is_duplicate, is_unread_of, unread_rows, set_read,
  unread_notification_count_cache_key, notification_dedupe_cache_key,
  invalidate_unread_notification_count, get_unread_notification_count, store_notification,
  create_notification, mark_notification_read, mark_all_notifications_read,
}

-- An update that leaves the test as it is at every row leaves the count.
count_of-update_of :
    {A : Type 0} (p q : A → Bool) (f : A → A) (xs : List A)
    → All (λ x. q x ≡ true → p (f x) ≡ p x) xs
    → count_of p (update_of q f xs) ≡ count_of p xs
count_of-update_of p q f [] h = refl
count_of-update_of p q f (x ∷ xs) (h, hs) =
    let ih = count_of-update_of p q f xs hs in
    elim (Bool-cases (q x)) [ inl e ↦ rw (e, h e, ih) | inr e ↦ rw (e, ih) ]

eq-of-== : (a b : ℕ) → (a == b) ≡ true → a ≡ b
eq-of-== a b h = ground arith

-- The instance has the user of the rows with its id.
abbrev pub IsOwned : Notification → List Notification → Type 0
IsOwned n = All (λ m. (m.id == n.id) ≡ true → m.user_id ≡ n.user_id)

unread_rows-set_read :
    (now u w : ℕ) (n : Notification) (rows : List Notification)
    → (u == w) ≡ false
    → n.user_id ≡ u
    → IsOwned n rows
    → unread_rows w (update_of (λ m. m.id == n.id) (set_read now) rows) ≡ unread_rows w rows
unread_rows-set_read now u w n rows other own h =
    count_of-update_of (is_unread_of w) (λ m. m.id == n.id) (set_read now) rows (owned rows h)
  where
    owned :
        (ms : List Notification)
        → IsOwned n ms
        → All (λ m. (m.id == n.id) ≡ true → is_unread_of w (set_read now m) ≡ is_unread_of w m) ms
    owned [] k = tt
    owned (m ∷ ms) (k, ks) = (λ e. rw (k e, own, other), owned ms ks)

unread_rows-set_all :
    (now u w : ℕ) (rows : List Notification)
    → (u == w) ≡ false
    → unread_rows w (update_of (is_unread_of u) (set_read now) rows) ≡ unread_rows w rows
unread_rows-set_all now u w [] other = refl
unread_rows-set_all now u w (m ∷ ms) other = ground (arith, unread_rows-set_all now u w ms other)

module _ (uuid_text : ℕ → Text) (sha256_hex : Text → Text) (cache : Cache Text ℕ text_eq) where
  abbrev key_of : ℕ → Text
  key_of = unread_notification_count_cache_key uuid_text

  -- From `now` on, what the cache holds for a user is the number of the user's unread rows.
  abbrev pub IsFresh : ℕ → Inbox uuid_text sha256_hex cache → Type 0
  IsFresh now (c, rows) =
      (w t v : ℕ)
      → now ≤ t
      → cache.get t (unread_notification_count_cache_key uuid_text w) c ≡ some v
      → v ≡ unread_rows w rows

  apart_users : (u w : ℕ) → text_eq (key_of u) (key_of w) ≡ false → (u == w) ≡ false
  apart_users u w h = elim (Bool-cases (u == w)) [
    | inl e ↦
        let same : text_eq (key_of u) (key_of w) ≡ true =
          rw (eq-of-== u w e) (text_eq_refl (key_of w)) in
        cc (same, h)
    | inr e ↦ e
  ]

  IsFresh-invalidate :
      (now u : ℕ) (c : cache.Store) (rows rows' : List Notification)
      → ((w : ℕ) → (u == w) ≡ false → unread_rows w rows' ≡ unread_rows w rows)
      → IsFresh now (c, rows)
      → IsFresh now (invalidate_unread_notification_count uuid_text sha256_hex cache u c, rows')
  unfolding invalidate_unread_notification_count
  IsFresh-invalidate now u c rows rows' others fresh w t v le h =
      let key = unread_notification_count_cache_key uuid_text in
      elim (Bool-cases (text_eq (key u) (key w))) [
        | inl e ↦
            let gone : cache.get t (key w) (cache.delete (key u) c) ≡ none =
              rw (cache.get-delete, e) in
            cc (gone, h)
        | inr e ↦
            let kept : cache.get t (key w) (cache.delete (key u) c) ≡ cache.get t (key w) c =
              rw (cache.get-delete, e) in
            rw (others w (apart_users u w e)) (fresh w t v le (sym kept ∙ h))
      ]

  dedupe_apart :
      (r : Request) (w : ℕ)
      → text_eq (notification_dedupe_cache_key uuid_text sha256_hex r) (key_of w) ≡ false
  unfolding text_eq notification_dedupe_cache_key unread_notification_count_cache_key
  dedupe_apart r w = refl

  IsFresh-set_mark :
      (now : ℕ) (r : Request) (c : cache.Store) (rows : List Notification)
      → IsFresh now (c, rows)
      → IsFresh now
          (cache.set now (notification_dedupe_cache_key uuid_text sha256_hex r) 1 30 c, rows)
  IsFresh-set_mark now r c rows fresh w t v le h =
      let mark = notification_dedupe_cache_key uuid_text sha256_hex r in
      let kept : cache.get t (key_of w) (cache.set now mark 1 30 c) ≡ cache.get t (key_of w) c =
        rw (cache.get-set, le, dedupe_apart r w) in
      fresh w t v le (sym kept ∙ h)

  IsFresh-add_mark :
      (now : ℕ) (r : Request) (c : cache.Store) (rows : List Notification)
      → IsFresh now (c, rows)
      → IsFresh now
          ((cache.add now (notification_dedupe_cache_key uuid_text sha256_hex r) 1 30 c).1, rows)
  IsFresh-add_mark now r c rows fresh =
      let mark = notification_dedupe_cache_key uuid_text sha256_hex r in
      subst (λ a. IsFresh now (a.1, rows)) (sym (cache.add-eq-set now mark 1 30 c))
        (elim (Bool-cases (is_some (cache.get now mark c))) [
          | inl e ↦ rw e fresh
          | inr e ↦ rw e (IsFresh-set_mark now r c rows fresh)
        ])

  IsFresh-store_notification :
      (now id : ℕ) (r : Request) (b : Bool) (c : cache.Store) (rows : List Notification)
      → IsFresh now (c, rows)
      → IsFresh now (store_notification uuid_text sha256_hex cache now id r (b, c) rows).1
  unfolding store_notification new_notification
  IsFresh-store_notification now id r false c rows fresh = fresh
  IsFresh-store_notification now id r true c rows fresh =
      let n = new_notification now id r in
      elim (Bool-cases (any_of (is_duplicate n) rows)) [
        | inl e ↦ rw (store_notification, e) fresh
        | inr e ↦
            rw (store_notification, e)
              (IsFresh-invalidate now r.user_id c rows (n ∷ rows) (λ w other. rw other) fresh)
      ]

  pub IsFresh-create_notification :
      (now id : ℕ) (r : Request) (inbox : Inbox uuid_text sha256_hex cache)
      → IsFresh now inbox
      → IsFresh now (create_notification uuid_text sha256_hex cache now id r inbox).1
  unfolding create_notification
  IsFresh-create_notification now id r (c, rows) fresh =
      let (b, c') = cache.add now (notification_dedupe_cache_key uuid_text sha256_hex r) 1 30 c in
      IsFresh-store_notification now id r b c' rows (IsFresh-add_mark now r c rows fresh)

  pub IsFresh-mark_notification_read :
      (now : ℕ) (n : Notification) (inbox : Inbox uuid_text sha256_hex cache)
      → IsOwned n inbox.1
      → IsFresh now inbox
      → IsFresh now (mark_notification_read uuid_text sha256_hex cache now n inbox)
  unfolding mark_notification_read
  IsFresh-mark_notification_read now n (c, rows) own fresh = elim (Bool-cases n.is_read) [
    | inl e ↦ rw (mark_notification_read, e) fresh
    | inr e ↦
        rw (mark_notification_read, e)
          (IsFresh-invalidate now n.user_id c rows
            (update_of (λ m. m.id == n.id) (set_read now) rows)
            (λ w other. unread_rows-set_read now n.user_id w n rows other refl own) fresh)
  ]

  pub IsFresh-mark_all_notifications_read :
      (now u : ℕ) (inbox : Inbox uuid_text sha256_hex cache)
      → IsFresh now inbox
      → IsFresh now (mark_all_notifications_read uuid_text sha256_hex cache now u inbox)
  unfolding mark_all_notifications_read
  IsFresh-mark_all_notifications_read now u (c, rows) fresh =
      IsFresh-invalidate now u c rows (update_of (is_unread_of u) (set_read now) rows)
        (λ w other. unread_rows-set_all now u w rows other) fresh

  uuid_of_key : (u w : ℕ) → text_eq (key_of u) (key_of w) ≡ true → uuid_text u ≡ uuid_text w
  unfolding unread_notification_count_cache_key text_eq
  uuid_of_key u w h = eq_of_text_eq (uuid_text u) (uuid_text w) h

  IsFresh-set_count :
      ((a b : ℕ) → uuid_text a ≡ uuid_text b → a ≡ b)
      → (now u : ℕ) (c : cache.Store) (rows : List Notification) → IsFresh now (c, rows)
      → IsFresh now (cache.set now (key_of u) (unread_rows u rows) 60 c, rows)
  IsFresh-set_count apart now u c rows fresh w t v le h =
      let read : cache.get t (key_of w) (cache.set now (key_of u) (unread_rows u rows) 60 c) ≡ (
          if text_eq (key_of u) (key_of w)
          then (if ltb t (now + 60 * second) then some (unread_rows u rows) else none)
          else cache.get t (key_of w) c) =
        rw (cache.get-set, le) in
      elim (Bool-cases (text_eq (key_of u) (key_of w))) [
        | inl e ↦
            let same = apart u w (uuid_of_key u w e) in
            elim (Bool-cases (ltb t (now + 60 * second))) [
              | inl l ↦ let held = rw (e, l) at read in rw (sym same) (cc (held, h))
              | inr l ↦ let gone = rw (e, l) at read in cc (gone, h)
            ]
        | inr e ↦ let kept = rw e at read in fresh w t v le (sym kept ∙ h)
      ]

  pub IsFresh-get_unread_notification_count :
      ((a b : ℕ) → uuid_text a ≡ uuid_text b → a ≡ b)
      → (now : ℕ) (user : Option ℕ) (inbox : Inbox uuid_text sha256_hex cache) → IsFresh now inbox
      → IsFresh now (get_unread_notification_count uuid_text sha256_hex cache now user inbox).1
  unfolding get_unread_notification_count
  IsFresh-get_unread_notification_count apart now none inbox fresh = fresh
  IsFresh-get_unread_notification_count apart now (some u) (c, rows) fresh =
      elim (Option-cases (cache.get now (key_of u) c)) [
        | inl e ↦ rw (get_unread_notification_count, e) (IsFresh-set_count apart now u c rows fresh)
        | inr (v, e) ↦ rw (get_unread_notification_count, e) fresh
      ]
