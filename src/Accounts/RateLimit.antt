-- ===== src/Accounts/RateLimit.antt =====
-- apps/accounts/services.py, the limit on failed logins: a cache entry for each client address and
-- email. A time is a number of microseconds, and the clock stands still within one call. `lower` is
-- Python's `str.lower`, `attempts_limit` and `window_seconds` are settings.LOGIN_RATE_LIMIT_ATTEMPTS
-- and settings.LOGIN_RATE_LIMIT_WINDOW_SECONDS.
pub mod Window
pub mod Lockout
mod Tests
use hivewiki_web.Base.{
  ℕ, ◌+◌, ◌-◌, ◌*◌, ◌/◌, max, Bool, true, false, ◌||◌, Option, none, some, ◌∷◌, [], ◌++◌, ◌==◌, leb,
  ltb, if◌then◌else◌,
}
use hivewiki_web.Base.Text.{Text, codes, strip, text_eq, decimal}
use hivewiki_web.Django.Cache.{Cache, second}

-- The dict that the cache holds.
pub record AttemptState : Type 0 where
  pub attempts : ℕ
  pub expires_at : ℕ

-- `math.ceil(x / 1 second)`, and 0 where the difference is negative.
abbrev pub ceil_seconds : ℕ → ℕ
ceil_seconds x = (x + 999_999) / second

abbrev pub or_anonymous : Text → Text
or_anonymous [] = codes "anonymous"
or_anonymous (c ∷ s) = c ∷ s

-- `not expires_at or expires_at <= now`
abbrev pub is_over : ℕ → Option AttemptState → Bool
is_over now none = true
is_over now (some st) = st.expires_at == 0 || leb st.expires_at now

abbrev pub attempts_of : Option AttemptState → ℕ
attempts_of none = 0
attempts_of (some st) = st.attempts

-- The count that a failure makes of a state, and the end of its window.
abbrev pub next_attempts : ℕ → Option AttemptState → ℕ
next_attempts now o = (if is_over now o then 0 else attempts_of o) + 1

abbrev pub next_expires_at : ℕ → ℕ → Option AttemptState → ℕ
next_expires_at window now none = now + window * second
next_expires_at window now (some st) =
    if is_over now (some st) then now + window * second else st.expires_at

unfoldable pub remaining_timeout_seconds : ℕ → ℕ → ℕ
remaining_timeout_seconds now expires_at = max 1 (ceil_seconds (expires_at - now))

unfoldable pub format_rate_limit_wait_time : ℕ → Text
format_rate_limit_wait_time seconds =
    if seconds == 0
    then codes "잠시"
    else if ltb seconds 60
    then codes "약 " ++ decimal seconds ++ codes "초"
    else codes "약 " ++ decimal ((seconds + 59) / 60) ++ codes "분"

module _ (lower : Text → Text) where
  unfoldable pub normalize_identifier : Text → Text
  normalize_identifier value = or_anonymous (lower (strip value))

  unfoldable pub login_rate_limit_key : Text → Text → Text
  unfolding normalize_identifier
  login_rate_limit_key email client_ip =
      codes "login_attempt:" ++ client_ip ++ codes ":" ++ normalize_identifier email

module _ (lower : Text → Text) (cache : Cache Text AttemptState text_eq)
    (attempts_limit window_seconds : ℕ) where
  unfoldable pub get_login_rate_limit_state : ℕ → Text → Text → cache.Store → Option AttemptState
  get_login_rate_limit_state now email client_ip s =
      cache.get now (login_rate_limit_key lower email client_ip) s

  unfoldable pub is_login_rate_limited : ℕ → Text → Text → cache.Store → Bool
  is_login_rate_limited now email client_ip s =
      leb attempts_limit (attempts_of (get_login_rate_limit_state now email client_ip s))

  abbrev pub remaining_of : ℕ → Option AttemptState → ℕ
  remaining_of now none = 0
  remaining_of now (some st) = if st.expires_at == 0 then 0 else ceil_seconds (st.expires_at - now)

  unfoldable pub get_login_rate_limit_remaining_seconds : ℕ → Text → Text → cache.Store → ℕ
  get_login_rate_limit_remaining_seconds now email client_ip s =
      remaining_of now (get_login_rate_limit_state now email client_ip s)

  unfoldable pub record_failed_login : ℕ → Text → Text → cache.Store → ℕ × cache.Store
  record_failed_login now email client_ip s =
      let o = get_login_rate_limit_state now email client_ip s in
      let expires_at = next_expires_at window_seconds now o in
      let attempts = next_attempts now o in
      (
        attempts,
        cache.set now (login_rate_limit_key lower email client_ip)
            (record { attempts = attempts; expires_at = expires_at })
            (remaining_timeout_seconds now expires_at) s,
      )

  unfoldable pub reset_login_rate_limit : Text → Text → cache.Store → cache.Store
  reset_login_rate_limit email client_ip s =
      cache.delete (login_rate_limit_key lower email client_ip) s
