-- ===== src/Accounts/Notifications/Reach.antt =====
-- Sequences of calls on the notifications, one after the other, and what holds of every state that they reach.
use Prim.{tt}
use hivewiki_web.Base.{
  ℕ, ◌≤◌, ◌≡◌, refl, sym, subst, arith, Option, none, some, [], Option-cases, inl, inr,
}
use hivewiki_web.Base.Text.{Text, text_eq}
use hivewiki_web.Django.Cache.{Cache}
use hivewiki_web.Accounts.Models.{Notification}
use hivewiki_web.Accounts.Notifications.{
  is_unread_of, Request, Inbox, unread_rows, unread_notification_count_cache_key,
  get_unread_notification_count, create_notification, mark_notification_read,
  mark_all_notifications_read,
}
use hivewiki_web.Accounts.Notifications.Unread.{
  IsOwned, IsFresh, IsFresh-create_notification, IsFresh-mark_notification_read,
  IsFresh-mark_all_notifications_read, IsFresh-get_unread_notification_count,
}
use hivewiki_web.Accounts.Notifications.Spacing.{
  IsSpaced, IsSpaced-set_read, IsSpaced-create_notification, IsSpaced-mark_notification_read,
}

module _ (uuid_text : ℕ → Text) (sha256_hex : Text → Text) (cache : Cache Text ℕ text_eq)
    (apart : (a b : ℕ) → uuid_text a ≡ uuid_text b → a ≡ b) where
  -- The state after some calls, and the time. At the start there is no row and the cache holds
  -- nothing.
  pub data Reach : ℕ → Inbox uuid_text sha256_hex cache → Type 0 where
    start :
        (now : ℕ) (c : cache.Store)
        → ((t : ℕ) (k : Text) → cache.get t k c ≡ none)
        → Reach now (c, [])
    wait :
        {now : ℕ} {i : Inbox uuid_text sha256_hex cache} (t : ℕ) → now ≤ t → Reach now i → Reach t i
    create :
        {now : ℕ} {i : Inbox uuid_text sha256_hex cache} (id : ℕ) (r : Request)
        → Reach now i
        → Reach now (create_notification uuid_text sha256_hex cache now id r i).1
    read :
        {now : ℕ} {i : Inbox uuid_text sha256_hex cache} (n : Notification)
        → IsOwned n i.1
        → Reach now i
        → Reach now (mark_notification_read uuid_text sha256_hex cache now n i)
    read_all :
        {now : ℕ} {i : Inbox uuid_text sha256_hex cache} (u : ℕ)
        → Reach now i
        → Reach now (mark_all_notifications_read uuid_text sha256_hex cache now u i)
    count :
        {now : ℕ} {i : Inbox uuid_text sha256_hex cache} (user : Option ℕ)
        → Reach now i
        → Reach now (get_unread_notification_count uuid_text sha256_hex cache now user i).1

  Reach-IsFresh :
      {now : ℕ} {i : Inbox uuid_text sha256_hex cache}
      → Reach now i
      → IsFresh uuid_text sha256_hex cache now i
  Reach-IsFresh (start now c empty) = λ w t v le held.
      let nothing = empty t (unread_notification_count_cache_key uuid_text w) in cc (nothing, held)
  Reach-IsFresh (wait {now} t later r) =
      let fresh = Reach-IsFresh r in λ w u v le held. fresh w u v (omega arith) held
  Reach-IsFresh (create {now} {i} id q r) =
      IsFresh-create_notification uuid_text sha256_hex cache now id q i (Reach-IsFresh r)
  Reach-IsFresh (read {now} {i} n own r) =
      IsFresh-mark_notification_read uuid_text sha256_hex cache now n i own (Reach-IsFresh r)
  Reach-IsFresh (read_all {now} {i} u r) =
      IsFresh-mark_all_notifications_read uuid_text sha256_hex cache now u i (Reach-IsFresh r)
  Reach-IsFresh (count {now} {i} user r) =
      IsFresh-get_unread_notification_count uuid_text sha256_hex cache apart now user i
        (Reach-IsFresh r)

  rows_kept :
      (now : ℕ) (user : Option ℕ) (i : Inbox uuid_text sha256_hex cache)
      → (get_unread_notification_count uuid_text sha256_hex cache now user i).1.1 ≡ i.1
  unfolding get_unread_notification_count
  rows_kept now none i = refl
  rows_kept now (some u) (c, rows) =
      elim (Option-cases (cache.get now (unread_notification_count_cache_key uuid_text u) c)) [
        | inl e ↦ rw (get_unread_notification_count, e)
        | inr (v, e) ↦ rw (get_unread_notification_count, e)
      ]

  read_all-IsSpaced :
      (now u : ℕ) (i : Inbox uuid_text sha256_hex cache)
      → IsSpaced i.1
      → IsSpaced (mark_all_notifications_read uuid_text sha256_hex cache now u i).1
  unfolding mark_all_notifications_read
  read_all-IsSpaced now u (c, rows) h = IsSpaced-set_read now (is_unread_of u) rows h

  -- In every state that calls reach, no row duplicates another one that was created within the time to
  -- live before it.
  pub Reach-IsSpaced : {now : ℕ} {i : Inbox uuid_text sha256_hex cache} → Reach now i → IsSpaced i.1
  Reach-IsSpaced (start now c empty) = tt
  Reach-IsSpaced (wait t later r) = Reach-IsSpaced r
  Reach-IsSpaced (create {now} {i} id q r) =
      IsSpaced-create_notification uuid_text sha256_hex cache now id q i (Reach-IsSpaced r)
  Reach-IsSpaced (read {now} {i} n own r) =
      IsSpaced-mark_notification_read uuid_text sha256_hex cache now n i (Reach-IsSpaced r)
  Reach-IsSpaced (read_all {now} {i} u r) = read_all-IsSpaced now u i (Reach-IsSpaced r)
  Reach-IsSpaced (count {now} {i} user r) =
      subst IsSpaced (sym (rows_kept now user i)) (Reach-IsSpaced r)

  -- In every state that calls reach, the number that `get_unread_notification_count` returns for a
  -- user, cached or not, is the number of the user's unread rows.
  pub Reach-unread_count :
      {now : ℕ} {i : Inbox uuid_text sha256_hex cache} (u : ℕ)
      → Reach now i
      → (get_unread_notification_count uuid_text sha256_hex cache now (some u) i).0
        ≡ unread_rows u i.1
  unfolding get_unread_notification_count
  Reach-unread_count {now} {i} u r =
      elim (Option-cases (cache.get now (unread_notification_count_cache_key uuid_text u) i.0)) [
        | inl e ↦ rw (get_unread_notification_count, e)
        | inr (v, e) ↦
            rw (get_unread_notification_count, e) (Reach-IsFresh r u now v (omega arith) e)
      ]
