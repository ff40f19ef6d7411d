-- ===== src/Accounts/RateLimit/Tests.antt =====
-- The login limit at a table for a cache: five failures in ten minutes, `lower` the identity.
use hivewiki_web.Base.{◌≡◌, refl, true, none, some}
use hivewiki_web.Base.Text.{Text, codes, text_eq, decimal, strip}
use hivewiki_web.Django.Cache.{Cache, table_cache}
use hivewiki_web.Accounts.RateLimit.{
  AttemptState, login_rate_limit_key, get_login_rate_limit_state, is_login_rate_limited,
  format_rate_limit_wait_time,
}
use hivewiki_web.Accounts.RateLimit.Window.{limited_at}

abbrev attempts : Cache Text AttemptState text_eq
attempts = table_cache text_eq

abbrev email : Text
email = codes "a@b"

abbrev ip : Text
ip = codes "::1"

abbrev as_is : Text → Text
as_is t = t

abbrev empty : attempts.Store
empty k = none

-- Four failures, in a window that ends at 700 seconds.
abbrev four : attempts.Store
four k = some (record { attempts = 4; expires_at = 700_000_000 }, 700_000_000)

limited_run : limited_at as_is attempts 4 600 650_000_000 email ip four ≡ true
unfolding is_login_rate_limited get_login_rate_limit_state
limited_run = refl

wait_run : format_rate_limit_wait_time 61 ≡ codes "약 2분"
unfolding format_rate_limit_wait_time decimal
wait_run = refl

key_run : login_rate_limit_key as_is (codes " x ") ip ≡ codes "login_attempt:::1:x"
unfolding login_rate_limit_key strip
key_run = refl
