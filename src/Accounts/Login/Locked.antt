-- ===== src/Accounts/Login/Locked.antt =====
-- The posts of the login form that fail: the lockout that they add up to.
use hivewiki_web.Base.{
  ℕ, suc, ◌+◌, ◌*◌, ◌≤◌, ◌<◌, ◌≡◌, refl, sym, ap, ◌∙◌, subst, Bool, true, false, none, List, [],
  ◌∷◌, ◌==◌, length, arith, leb, Bool-cases, inl, inr,
}
use hivewiki_web.Base.Text.{Text, text_eq}
use hivewiki_web.Django.Cache.{Cache, second}
use hivewiki_web.Accounts.Directory.{Directory}
use hivewiki_web.Accounts.RateLimit.{AttemptState, get_login_rate_limit_remaining_seconds}
use hivewiki_web.Accounts.RateLimit.Window.{state_at, limited_at, record_at}
use hivewiki_web.Accounts.RateLimit.Lockout.{
  AreWithin, AreWithin-lt, last_of, IsCounting, IsCounting-record_at, IsCounting-first,
  IsCounting-limited_at, unlimited,
}
use hivewiki_web.Accounts.Login.{limited, authenticate_user, finish_login, login_view, LoginState}
use hivewiki_web.Accounts.Login.Credentials.{le→leb}
use hivewiki_web.Accounts.Login.Outcomes.{posted}

-- A post of the form: when, the password, and the key that a login would give the session.
abbrev pub Post : Type 0
Post = ℕ × Text × Text

abbrev pub times_of : List Post → List ℕ
times_of [] = []
times_of ((t, password, new_key) ∷ ps) = t ∷ times_of ps

add_zero : (k : ℕ) → k + 0 ≡ k
add_zero k = omega arith

next_count : (k n : ℕ) → k + suc n ≡ k + 1 + n
next_count k n = omega arith

module _ (iexact check_password : Text → Text → Bool) (lower : Text → Text)
    (attempts : Cache Text AttemptState text_eq) (attempts_limit window_seconds : ℕ)
    (index : Cache ℕ (List Text) ◌==◌) (session_cookie_age : ℕ) (email ip : Text)
    (db : Directory) where
  abbrev States : Type 0
  States =
      LoginState iexact check_password lower attempts attempts_limit window_seconds index
        session_cookie_age

  -- The state after posts for the email from the client, one after the other.
  abbrev pub after_posts : List Post → States → States
  after_posts [] w = w
  after_posts ((t, password, new_key) ∷ ps) w =
      after_posts ps
        (posted iexact check_password lower attempts attempts_limit window_seconds index
          session_cookie_age t email ip password new_key db w).1

  -- No password of the posts is one of the active user that the email finds.
  abbrev pub AreWrong : List Post → Type 0
  AreWrong [] = Unit
  AreWrong ((t, password, new_key) ∷ ps) =
      (authenticate_user iexact check_password email password db.users ≡ none) × AreWrong ps

  posted-limited :
      (t : ℕ) (password new_key : Text) (db' : Directory) (w : States)
      → limited_at lower attempts attempts_limit window_seconds t email ip w.0 ≡ true
      → posted iexact check_password lower attempts attempts_limit window_seconds index
          session_cookie_age t email ip password new_key db' w
        ≡ (
          limited (
              get_login_rate_limit_remaining_seconds lower attempts attempts_limit window_seconds t
                email ip w.0),
          w,
        )
  unfolding login_view
  posted-limited t password new_key db' (a, i, s) e = rw (login_view, e) refl

  posted-failed :
      (t : ℕ) (password new_key : Text) (w : States)
      → limited_at lower attempts attempts_limit window_seconds t email ip w.0 ≡ false
      → authenticate_user iexact check_password email password db.users ≡ none
      → (posted iexact check_password lower attempts attempts_limit window_seconds index
          session_cookie_age t email ip password new_key db w).1
        ≡ ((record_at lower attempts attempts_limit window_seconds t email ip w.0).1, w.1, w.2)
  unfolding login_view finish_login
  posted-failed t password new_key (a, i, s) e wrong = rw (login_view, e, wrong) refl

  -- The count of the entry, and that the index and the session are as before.
  abbrev IsLocking : ℕ → ℕ → ℕ → States → States → Type 0
  IsLocking now e n w w' =
      (k : ℕ) × IsCounting lower attempts attempts_limit window_seconds email ip now k e w'.0
      × (w'.1 ≡ w.1)
      × (w'.2 ≡ w.2)
      × (attempts_limit ≤ n → attempts_limit ≤ k)

  after_posts-IsLocking :
      (now k e : ℕ) (ps : List Post) (w : States)
      → IsCounting lower attempts attempts_limit window_seconds email ip now k e w.0
      → AreWithin now e (times_of ps)
      → AreWrong ps
      → IsLocking (last_of now (times_of ps)) e (k + length ps) w (after_posts ps w)
  after_posts-IsLocking now k e [] w c within wrong =
      (k, c, refl, refl, λ many. rw (← add_zero k) many)
  after_posts-IsLocking now k e ((t, password, new_key) ∷ ps) (a, i, s) c (le, within)
        (wrong, wrongs) =
      let lt = AreWithin-lt t e (times_of ps) within in
      let counted =
        IsCounting-limited_at lower attempts attempts_limit window_seconds email ip now t k e a c le
          lt in
      elim (Bool-cases (leb attempts_limit k)) [
        | inl f ↦
            let same =
              ap (λ r. r.1) (posted-limited t password new_key db (a, i, s) (counted ∙ f)) in
            let (k', c', kept_index, kept_session, many) =
              after_posts-IsLocking t k e ps (a, i, s) (λ u le' lt'. c u (omega arith) lt') within
                wrongs in
            at_state (sym same) (k', c', kept_index, kept_session, λ more. many (ge k f))
        | inr f ↦
            let same = posted-failed t password new_key (a, i, s) (counted ∙ f) wrong in
            let (k', c', kept_index, kept_session, many) =
              after_posts-IsLocking t (k + 1) e ps
                ((record_at lower attempts attempts_limit window_seconds t email ip a).1, i, s)
                (IsCounting-record_at lower attempts attempts_limit window_seconds email ip now t k
                  e a c le lt)
                within wrongs in
            at_state (sym same) (
              k',
              c',
              kept_index,
              kept_session,
              λ more. many (rw (← next_count k (length ps)) more),
            )
      ]
    where
      at_state :
          {x y : States}
          → x ≡ y
          → IsLocking (last_of t (times_of ps)) e (k + suc (length ps)) (a, i, s) (after_posts ps x)
          → IsLocking (last_of t (times_of ps)) e (k + suc (length ps)) (a, i, s) (after_posts ps y)
      at_state = subst (λ x.
          IsLocking (last_of t (times_of ps)) e (k + suc (length ps)) (a, i, s) (after_posts ps x))

      ge : (m : ℕ) → leb attempts_limit m ≡ true → attempts_limit ≤ m + length ps
      ge m h = ground arith

  -- A post is told to wait and writes nothing, in a state with the index and the session of another.
  abbrev pub IsRefused : ℕ → Text → Text → Directory → States → States → Type 0
  IsRefused t password new_key db' w w' =
      (posted iexact check_password lower attempts attempts_limit window_seconds index
          session_cookie_age t email ip password new_key db' w'
        ≡ (
          limited (
              get_login_rate_limit_remaining_seconds lower attempts attempts_limit window_seconds t
                email ip w'.0),
          w',
        ))
      × (w'.1 ≡ w.1)
      × (w'.2 ≡ w.2)

  -- Let the limit be positive, and let the client and the email have no entry before. After as many
  -- posts with wrong passwords as the limit, in order and within the first window, no post for the same
  -- email from the same client is accepted until that window ends, whatever the password and the users
  -- then, and it writes nothing. The index of sessions and the session are as before the first post.
  pub login_view-locked :
      (now t : ℕ) (first first_key password new_key : Text) (ps : List Post) (db' : Directory)
      (w : States)
      → 0 < attempts_limit
      → state_at lower attempts attempts_limit window_seconds now email ip w.0 ≡ none
      → 0 < window_seconds
      → AreWithin now (now + window_seconds * second) (times_of ps)
      → AreWrong ((now, first, first_key) ∷ ps)
      → last_of now (times_of ps) ≤ t
      → t < now + window_seconds * second
      → attempts_limit ≤ 1 + length ps
      → IsRefused t password new_key db' w (after_posts ((now, first, first_key) ∷ ps) w)
  login_view-locked now t first first_key password new_key ps db' w limit fresh pos within
        (wrong, wrongs) le lt many =
      let end = now + window_seconds * second in
      let locked : States =
        ((record_at lower attempts attempts_limit window_seconds now email ip w.0).1, w.1, w.2) in
      let free =
        unlimited lower attempts attempts_limit window_seconds email ip now w.0 limit fresh in
      let same = posted-failed now first first_key w free wrong in
      let (k, c, kept_index, kept_session, more) =
        after_posts-IsLocking now 1 end ps locked
          (IsCounting-first lower attempts attempts_limit window_seconds email ip now w.0 fresh pos)
          within wrongs in
      subst (λ (x : States). IsRefused t password new_key db' w (after_posts ps x)) (sym same)
        (
          posted-limited t password new_key db' (after_posts ps locked) (
              IsCounting-limited_at lower attempts attempts_limit window_seconds email ip
                (last_of now (times_of ps)) t k end (after_posts ps locked).0 c le lt
              ∙ le→leb attempts_limit k (more many)),
          kept_index,
          kept_session,
        )
