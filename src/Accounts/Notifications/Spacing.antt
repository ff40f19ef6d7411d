-- ===== src/Accounts/Notifications/Spacing.antt =====
-- The same notification is not stored twice within the time in which duplicates are dropped.
use Prim.{tt}
use hivewiki_web.Base.{
  ℕ, ◌+◌, ◌*◌, ◌≤◌, ◌<◌, ◌≡◌, refl, sym, subst, ap, ◌∙◌, Bool, true, false, none, some, List, [],
  ◌∷◌, ◌==◌, lt→ltb, is_some, update_of, any_of, Bool-cases, inl, inr,
}
use hivewiki_web.Base.Text.{Text, text_eq, text_eq_refl}
use hivewiki_web.Django.Cache.{Cache, second}
use hivewiki_web.Accounts.Models.{Notification}
use hivewiki_web.Accounts.Notifications.{
  Request, Inbox, new_notification, same_content, is_duplicate, set_read,
  unread_notification_count_cache_key, notification_dedupe_cache_key,
  invalidate_unread_notification_count, store_notification, create_notification,
  mark_notification_read,
}

-- No row duplicates an older one: with the same content, it was created later than the time to live
-- after it. The newest row comes first.
abbrev pub IsSpaced : List Notification → Type 0
IsSpaced [] = Unit
IsSpaced (n ∷ rows) = (any_of (is_duplicate n) rows ≡ false) × IsSpaced rows

any_of-set_read :
    (now : ℕ) (q : Notification → Bool) (n : Notification) (rows : List Notification)
    → any_of (is_duplicate n) (update_of q (set_read now) rows) ≡ any_of (is_duplicate n) rows
unfolding is_duplicate same_content
any_of-set_read now q n [] = refl
any_of-set_read now q n (m ∷ ms) =
    let ih = any_of-set_read now q n ms in
    elim (Bool-cases (q m)) [ inl e ↦ rw (e, ih) | inr e ↦ rw (e, ih) ]

set_read_same :
    (now : ℕ) (n : Notification) (rows : List Notification)
    → any_of (is_duplicate (set_read now n)) rows ≡ any_of (is_duplicate n) rows
unfolding is_duplicate same_content
set_read_same now n [] = refl
set_read_same now n (m ∷ ms) = rw (set_read_same now n ms)

pub IsSpaced-set_read :
    (now : ℕ) (q : Notification → Bool) (rows : List Notification)
    → IsSpaced rows
    → IsSpaced (update_of q (set_read now) rows)
IsSpaced-set_read now q [] h = tt
IsSpaced-set_read now q (n ∷ rows) (d, h) =
    let rest = IsSpaced-set_read now q rows h in
    elim (Bool-cases (q n)) [
      | inl e ↦ rw e (
        set_read_same now n (update_of q (set_read now) rows) ∙ any_of-set_read now q n rows ∙ d,
        rest,
      )
      | inr e ↦ rw e (any_of-set_read now q n rows ∙ d, rest)
    ]

module _ (uuid_text : ℕ → Text) (sha256_hex : Text → Text) (cache : Cache Text ℕ text_eq) where
  IsSpaced-store_notification :
      (now id : ℕ) (r : Request) (b : Bool) (c : cache.Store) (rows : List Notification)
      → IsSpaced rows
      → IsSpaced (store_notification uuid_text sha256_hex cache now id r (b, c) rows).1.1
  unfolding store_notification
  IsSpaced-store_notification now id r false c rows h = h
  IsSpaced-store_notification now id r true c rows h =
      elim (Bool-cases (any_of (is_duplicate (new_notification now id r)) rows)) [
        | inl e ↦ rw (store_notification, e) h
        | inr e ↦ rw (store_notification, e) (e, h)
      ]

  pub IsSpaced-create_notification :
      (now id : ℕ) (r : Request) (inbox : Inbox uuid_text sha256_hex cache)
      → IsSpaced inbox.1
      → IsSpaced (create_notification uuid_text sha256_hex cache now id r inbox).1.1
  unfolding create_notification
  IsSpaced-create_notification now id r (c, rows) h =
      let (b, c') = cache.add now (notification_dedupe_cache_key uuid_text sha256_hex r) 1 30 c in
      IsSpaced-store_notification now id r b c' rows h

  pub IsSpaced-mark_notification_read :
      (now : ℕ) (n : Notification) (inbox : Inbox uuid_text sha256_hex cache)
      → IsSpaced inbox.1
      → IsSpaced (mark_notification_read uuid_text sha256_hex cache now n inbox).1
  unfolding mark_notification_read
  IsSpaced-mark_notification_read now n (c, rows) h =
      let marked = IsSpaced-set_read now (λ m. m.id == n.id) rows h in
      elim (Bool-cases n.is_read) [
        | inl e ↦ rw (mark_notification_read, e) h
        | inr e ↦ rw (mark_notification_read, e) marked
      ]

  abbrev mark_of : Request → Text
  mark_of = notification_dedupe_cache_key uuid_text sha256_hex

  count_apart :
      (r : Request) (w : ℕ)
      → text_eq (unread_notification_count_cache_key uuid_text w) (mark_of r) ≡ false
  unfolding text_eq notification_dedupe_cache_key unread_notification_count_cache_key
  count_apart r w = refl

  mark_stays :
      (now t : ℕ) (r : Request) (u : ℕ) (c : cache.Store)
      → now ≤ t
      → t < now + 30 * second
      → cache.get t (mark_of r) (
          invalidate_unread_notification_count uuid_text sha256_hex cache u
            (cache.set now (mark_of r) 1 30 c))
        ≡ some 1
  unfolding invalidate_unread_notification_count
  mark_stays now t r u c le lt = rw (
    cache.get-delete,
    count_apart r u,
    cache.get-set,
    le,
    text_eq_refl (mark_of r),
    lt→ltb _ _ lt,
  )

  add_marked :
      (t : ℕ) (r : Request) (c : cache.Store)
      → cache.get t (mark_of r) c ≡ some 1
      → cache.add t (mark_of r) 1 30 c ≡ (false, c)
  add_marked t r c h = rw (cache.add-eq-set, h)

  create_marked :
      (t id : ℕ) (r : Request) (c : cache.Store) (rows : List Notification)
      → cache.get t (mark_of r) c ≡ some 1
      → create_notification uuid_text sha256_hex cache t id r (c, rows) ≡ (none, (c, rows))
  unfolding create_notification store_notification
  create_marked t id r c rows h = rw (create_notification, add_marked t r c h)

  store_made :
      (now id : ℕ) (r : Request) (n : Notification) (b : Bool) (c : cache.Store)
      (rows : List Notification)
      → (store_notification uuid_text sha256_hex cache now id r (b, c) rows).0 ≡ some n
      → (b ≡ true)
        × ((store_notification uuid_text sha256_hex cache now id r (b, c) rows).1.0
            ≡ invalidate_unread_notification_count uuid_text sha256_hex cache r.user_id c)
  unfolding store_notification
  store_made now id r n false c rows made = cc (made)
  store_made now id r n true c rows made =
      elim (Bool-cases (any_of (is_duplicate (new_notification now id r)) rows)) [
        | inl e ↦ let nothing = rw (store_notification, e) at made in cc (nothing)
        | inr e ↦ (refl, rw (store_notification, e))
      ]

  add_made :
      (now : ℕ) (r : Request) (c : cache.Store)
      → (cache.add now (mark_of r) 1 30 c).0 ≡ true
      → (cache.add now (mark_of r) 1 30 c).1 ≡ cache.set now (mark_of r) 1 30 c
  add_made now r c made =
      let how = cache.add-eq-set now (mark_of r) 1 30 c in
      elim (Bool-cases (is_some (cache.get now (mark_of r) c))) [
        | inl e ↦ let kept = rw e at how in let no = rw kept at made in cc (no)
        | inr e ↦ let new = rw e at how in rw new
      ]

  -- After a request has stored a notification, the same request within the time to live stores nothing
  -- and changes nothing.
  pub create_notification_twice :
      (now t id id' : ℕ) (r : Request) (n : Notification) (inbox : Inbox uuid_text sha256_hex cache)
      → now ≤ t
      → t < now + 30 * second
      → (create_notification uuid_text sha256_hex cache now id r inbox).0 ≡ some n
      → let after = (create_notification uuid_text sha256_hex cache now id r inbox).1 in
        create_notification uuid_text sha256_hex cache t id' r after ≡ (none, after)
  unfolding create_notification
  create_notification_twice now t id id' r n (c, rows) le lt made =
      let (b, c') = cache.add now (mark_of r) 1 30 c in
      let (b_true, left) = store_made now id r n b c' rows made in
      let set_by_add = add_made now r c b_true in
      let (kept, rows') = (create_notification uuid_text sha256_hex cache now id r (c, rows)).1 in
      create_marked t id' r kept rows' (
        subst (λ d. cache.get t (mark_of r) d ≡ some 1)
          (sym (
            left
            ∙ ap (invalidate_unread_notification_count uuid_text sha256_hex cache r.user_id)
                set_by_add))
          (mark_stays now t r r.user_id c le lt))
