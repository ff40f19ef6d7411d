-- ===== src/Accounts/RateLimit/Lockout.antt =====
-- The entry of a client and an email that have failed: what it counts, and from when on it limits.
use hivewiki_web.Base.{ℕ, ◌+◌, ◌*◌, ◌≤◌, ◌<◌, ◌≡◌, false, none, some, List, [], ◌∷◌, arith, leb}
use hivewiki_web.Base.Text.{Text, text_eq}
use hivewiki_web.Django.Cache.{Cache, second}
use hivewiki_web.Accounts.RateLimit.{
  AttemptState, next_attempts, next_expires_at, is_login_rate_limited,
}
use hivewiki_web.Accounts.RateLimit.Window.{
  state_at, limited_at, record_at, record_failed_login_lem,
}

-- Times in order, from `now` on and before `end`.
abbrev pub AreWithin : ℕ → ℕ → List ℕ → Type 0
AreWithin now end [] = now < end
AreWithin now end (t ∷ ts) = (now ≤ t) × AreWithin t end ts

pub AreWithin-lt : (now end : ℕ) (ts : List ℕ) → AreWithin now end ts → now < end
AreWithin-lt now end [] h = h
AreWithin-lt now end (t ∷ ts) (h, hs) = let ih = AreWithin-lt t end ts hs in omega arith

abbrev pub last_of : ℕ → List ℕ → ℕ
last_of now [] = now
last_of now (t ∷ ts) = last_of t ts

pub last_of-le : (now end : ℕ) (ts : List ℕ) → AreWithin now end ts → now ≤ last_of now ts
last_of-le now end [] h = omega arith
last_of-le now end (t ∷ ts) (h, hs) = let ih = last_of-le t end ts hs in omega arith

next_attempts-open :
    (now k e : ℕ)
    → now < e
    → next_attempts now (some (record { attempts = k; expires_at = e })) ≡ k + 1
next_attempts-open now k e h = ground arith

next_expires_at-open :
    (window now k e : ℕ)
    → now < e
    → next_expires_at window now (some (record { attempts = k; expires_at = e })) ≡ e
next_expires_at-open window now k e h = ground arith

module _ (lower : Text → Text) (cache : Cache Text AttemptState text_eq)
    (attempts_limit window_seconds : ℕ) (email ip : Text) where
  -- The entry from `now` on and before `e`.
  abbrev pub IsCounting : ℕ → ℕ → ℕ → cache.Store → Type 0
  IsCounting now k e s =
      (t : ℕ)
      → now ≤ t
      → t < e
      → state_at lower cache attempts_limit window_seconds t email ip s
        ≡ some (record { attempts = k; expires_at = e })

  pub IsCounting-record_at :
      (now t k e : ℕ) (s : cache.Store)
      → IsCounting now k e s
      → now ≤ t
      → t < e
      → IsCounting t
          (k + 1)
          e
          ((record_at lower cache attempts_limit window_seconds t email ip s).1)
  IsCounting-record_at now t k e s c le lt u le' lt' =
      let old = c t le lt in
      let same : next_expires_at window_seconds t
            (state_at lower cache attempts_limit window_seconds t email ip s)
          ≡ e =
        rw old (next_expires_at-open window_seconds t k e lt) in
      let (more, read, _) =
        record_failed_login_lem lower cache attempts_limit window_seconds t u email ip s le'
          (rw same lt') in
      rw (read, more, same, old, next_attempts-open t k e lt)

  pub IsCounting-first :
      (now : ℕ) (s : cache.Store)
      → state_at lower cache attempts_limit window_seconds now email ip s ≡ none
      → 0 < window_seconds
      → IsCounting now 1
          (now + window_seconds * second)
          ((record_at lower cache attempts_limit window_seconds now email ip s).1)
  IsCounting-first now s fresh pos u le lt =
      let (count, read, _) =
        record_failed_login_lem lower cache attempts_limit window_seconds now u email ip s le
          (rw fresh lt) in
      rw (read, count, fresh)

  pub unlimited :
      (now : ℕ) (s : cache.Store)
      → 0 < attempts_limit
      → state_at lower cache attempts_limit window_seconds now email ip s ≡ none
      → limited_at lower cache attempts_limit window_seconds now email ip s ≡ false
  unfolding is_login_rate_limited
  unlimited now s pos fresh = rw fresh (ground arith)

  pub IsCounting-limited_at :
      (now t k e : ℕ) (s : cache.Store)
      → IsCounting now k e s
      → now ≤ t
      → t < e
      → limited_at lower cache attempts_limit window_seconds t email ip s ≡ leb attempts_limit k
  unfolding is_login_rate_limited
  IsCounting-limited_at now t k e s c le lt = rw (c t le lt)
