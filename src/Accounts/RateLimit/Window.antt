-- ===== src/Accounts/RateLimit/Window.antt =====
-- One recorded failure: what the limit reads afterwards, and until when.
use hivewiki_web.Base.{
  ℕ, ◌+◌, ◌*◌, ◌≤◌, ◌<◌, ◌≡◌, refl, Bool, false, Option, none, some, arith, leb, ltb, lt→ltb,
  le→ltb, if◌then◌else◌,
}
use hivewiki_web.Base.Text.{Text, text_eq, text_eq_refl}
use hivewiki_web.Django.Cache.{Cache, second}
use hivewiki_web.Accounts.RateLimit.{
  AttemptState, next_attempts, next_expires_at, remaining_timeout_seconds, login_rate_limit_key,
  get_login_rate_limit_state, is_login_rate_limited, record_failed_login, reset_login_rate_limit,
  get_login_rate_limit_remaining_seconds,
}

-- The entry lasts to the end of the window, and less than a second longer if the window is open.
timeout_covers : (now e : ℕ) → e ≤ now + remaining_timeout_seconds now e * second
unfolding remaining_timeout_seconds
timeout_covers now e = omega arith

timeout_short : (now e : ℕ) → now < e → now + remaining_timeout_seconds now e * second < e + second
unfolding remaining_timeout_seconds
timeout_short now e h = omega arith

module _ (lower : Text → Text) (cache : Cache Text AttemptState text_eq)
    (attempts_limit window_seconds : ℕ) where
  abbrev pub state_at : ℕ → Text → Text → cache.Store → Option AttemptState
  state_at = get_login_rate_limit_state lower cache attempts_limit window_seconds

  abbrev pub limited_at : ℕ → Text → Text → cache.Store → Bool
  limited_at = is_login_rate_limited lower cache attempts_limit window_seconds

  abbrev pub record_at : ℕ → Text → Text → cache.Store → ℕ × cache.Store
  record_at = record_failed_login lower cache attempts_limit window_seconds

  -- The end of the window in which a failure at `now` is counted.
  abbrev pub window_end : ℕ → Text → Text → cache.Store → ℕ
  window_end now email ip s = next_expires_at window_seconds now (state_at now email ip s)

  state_at-record_at :
      (now t : ℕ) (email ip : Text) (s : cache.Store)
      → now ≤ t
      → state_at t email ip (record_at now email ip s).1 ≡ (
          if ltb t (now + remaining_timeout_seconds now (window_end now email ip s) * second)
          then some (record {
            attempts = next_attempts now (state_at now email ip s);
            expires_at = window_end now email ip s;
          })
          else none)
  unfolding record_failed_login get_login_rate_limit_state
  state_at-record_at now t email ip s h =
      rw (cache.get-set, h, text_eq_refl (login_rate_limit_key lower email ip))

  -- Until the window ends, a read after a recorded failure finds the count that was returned and the
  -- end of the window, and the limit holds exactly if that count has reached it. The count is one
  -- more than before while a window was open, and one otherwise.
  pub record_failed_login_lem :
      (now t : ℕ) (email ip : Text) (s : cache.Store)
      → now ≤ t
      → t < window_end now email ip s
      → let (count, s') = record_at now email ip s in
        (count ≡ next_attempts now (state_at now email ip s))
        × (state_at t email ip s'
            ≡ some (record { attempts = count; expires_at = window_end now email ip s }))
        × (limited_at t email ip s' ≡ leb attempts_limit count)
  unfolding record_failed_login is_login_rate_limited
  record_failed_login_lem now t email ip s h k =
      let end = window_end now email ip s in
      let lasts : t < now + remaining_timeout_seconds now end * second =
        omega (arith, timeout_covers now end) in
      let read = state_at-record_at now t email ip s h in
      let is_there = rw (lt→ltb _ _ lasts) at read in (refl, is_there, rw is_there)

  window_end-lt :
      (now : ℕ) (email ip : Text) (s : cache.Store)
      → 0 < window_seconds
      → now < window_end now email ip s
  window_end-lt now email ip s pos = ground arith

  -- A second after the window has ended, the limit no longer holds, if no failure was recorded since.
  pub limit_released :
      (now t : ℕ) (email ip : Text) (s : cache.Store)
      → 0 < window_seconds
      → 0 < attempts_limit
      → window_end now email ip s + second ≤ t
      → limited_at t email ip (record_at now email ip s).1 ≡ false
  unfolding is_login_rate_limited
  limit_released now t email ip s pos some_limit late =
      let open_end = window_end-lt now email ip s pos in
      let end = window_end now email ip s in
      let over : now + remaining_timeout_seconds now end * second ≤ t =
        omega (arith, timeout_short now end open_end) in
      let read = state_at-record_at now t email ip s (omega arith) in
      let is_gone = rw (le→ltb _ _ over) at read in rw is_gone (ground arith)

  -- After a reset the limit does not hold, whatever was recorded before.
  pub reset_login_rate_limit_lem :
      (t : ℕ) (email ip : Text) (s : cache.Store)
      → 0 < attempts_limit
      → limited_at t email ip
          (reset_login_rate_limit lower cache attempts_limit window_seconds email ip s)
        ≡ false
  unfolding is_login_rate_limited reset_login_rate_limit get_login_rate_limit_state
  reset_login_rate_limit_lem t email ip s pos =
      rw (cache.get-delete, text_eq_refl (login_rate_limit_key lower email ip)) (ground arith)

  -- While a window is open, the remaining seconds are enough for it to end, and are less than a second
  -- too many.
  pub remaining_seconds_lem :
      (t : ℕ) (email ip : Text) (s : cache.Store) (st : AttemptState)
      → state_at t email ip s ≡ some st
      → t < st.expires_at
      → let r =
          get_login_rate_limit_remaining_seconds lower cache attempts_limit window_seconds t email
            ip s in
        (st.expires_at ≤ t + r * second) × (t + r * second < st.expires_at + second)
  unfolding get_login_rate_limit_remaining_seconds
  remaining_seconds_lem t email ip s st read open_window = rw read (ground arith)
