-- ===== src/Accounts/Notifications/Body.antt =====
-- `_trim_notification_body` of apps/accounts/notifications.py: the text of a notification.
use hivewiki_web.Base.{
  ℕ, ◌-◌, ◌≤◌, ◌≡◌, true, List, [], ◌∷◌, ◌++◌, arith, leb, if◌then◌else◌, take, length,
  length-append, length-take, Bool-cases, inl, inr,
}
use hivewiki_web.Base.Text.{Text, codes, is_space, rstrip, length-rstrip-le}

-- `str.split()`: the first word so far, and the words behind it.
abbrev pub word_onto : ℕ → Text × List Text → Text × List Text
word_onto c (w, ws) = (c ∷ w, ws)

abbrev pub close_word : Text × List Text → Text × List Text
close_word ([], ws) = ([], ws)
close_word (c ∷ w, ws) = ([], (c ∷ w) ∷ ws)

unfoldable pub split_words : Text → Text × List Text
split_words [] = ([], [])
split_words (c ∷ s) =
    let rest = split_words s in if is_space c then close_word rest else word_onto c rest

-- `" ".join(words)`
unfoldable pub join_words : List Text → Text
join_words [] = []
join_words (w ∷ []) = w
join_words (w ∷ v ∷ ws) = w ++ b' ' ∷ join_words (v ∷ ws)

unfoldable pub normalize_words : Text → Text
unfolding split_words join_words
normalize_words body = join_words (close_word (split_words body)).1

unfoldable pub trim_notification_body : ℕ → Text → Text
unfolding normalize_words
trim_notification_body limit body =
    let normalized = normalize_words body in
    if leb (length normalized) limit
    then normalized
    else rstrip (take (limit - 3) normalized) ++ codes "..."

leb-le : (a b : ℕ) → leb a b ≡ true → a ≤ b
leb-le a b h = ground arith

-- For a limit that leaves room for the dots, the text is no longer than the limit.
pub length-trim_notification_body :
    (limit : ℕ) (body : Text) → 3 ≤ limit → length (trim_notification_body limit body) ≤ limit
unfolding trim_notification_body
length-trim_notification_body limit body room =
    let words = normalize_words body in
    elim (Bool-cases (leb (length words) limit)) [
      | inl e ↦ rw e (leb-le (length words) limit e)
      | inr e ↦
          rw (e, length-append (rstrip (take (limit - 3) words)) (codes "..."))
            (omega
              (arith, length-rstrip-le (take (limit - 3) words), length-take (limit - 3) words))
    ]
