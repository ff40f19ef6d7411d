-- ===== src/Config/Healthchecks.antt =====
-- config/healthchecks.py: the middleware that answers the health checks and, for those of a load balancer,
-- puts a host that is allowed in place of an address. `ip_address` says whether Python's
-- `ipaddress.ip_address` reads a text.
mod Tests
use hivewiki_web.Base.{
  ℕ, suc, ◌≡◌, ◌⊎◌, refl, sym, ap, ◌∙◌, subst, Bool, true, false, not, ◌&&◌, ◌||◌, Option, none,
  some, List, [], ◌∷◌, ◌==◌, if◌then◌else◌, any_of, count_of, Bool-cases, Option-cases, inl, inr,
}
use hivewiki_web.Base.Text.{Text, codes, text_eq, text_eq_refl, strip, is_empty}
use hivewiki_web.Accounts.Forms.{starts_with_text}

-- What the middleware reads of a request and writes to it; a missing header is empty.
pub record Request : Type 0 where
  pub path : Text
  pub user_agent : Text
  pub host : Text

-- HEALTHCHECK_PATHS and the views of HEALTHCHECK_VIEWS.
abbrev pub healthcheck_paths : List Text
healthcheck_paths = codes "/livez/" ∷ codes "/readyz/" ∷ []

pub data View : Type 0 where
  liveness_probe readiness_probe metrics_view get_response : View

abbrev pub healthcheck_view : Text → View
healthcheck_view path =
    if text_eq path (codes "/livez/")
    then liveness_probe
    else if text_eq path (codes "/readyz/")
    then readiness_probe
    else if text_eq path (codes "/metrics/")
    then metrics_view
    else get_response

-- The text in front of the first `c`, which is there.
abbrev pub before : ℕ → Text → Text
before c [] = []
before c (d ∷ t) = if d == c then [] else d ∷ before c t

-- `host[1 : host.index("]")]` for a host in brackets, and `host.split(":", 1)[0]` for one with a port.
abbrev pub candidate_of : Text → Text
candidate_of [] = []
candidate_of (c ∷ t) =
    if c == b'[' && any_of (λ d. d == b']') t
    then before b']' t
    else if count_of (λ d. d == b':') (c ∷ t) == 1
    then before b':' (c ∷ t)
    else c ∷ t

-- `host.lstrip(".")`
abbrev pub lstrip_dots : Text → Text
lstrip_dots [] = []
lstrip_dots (c ∷ t) = if c == b'.' then lstrip_dots t else c ∷ t

module _ (ip_address : Text → Bool) where
  unfoldable pub is_ip_host : Text → Bool
  is_ip_host host = if is_empty host then false else ip_address (candidate_of host)

  -- A host of settings.ALLOWED_HOSTS that the loop takes.
  abbrev pub is_canonical : Text → Bool
  is_canonical host = not (is_empty host || text_eq host (codes "*")) && not (is_ip_host host)

  unfoldable pub first_canonical_allowed_host : List Text → Option Text
  first_canonical_allowed_host [] = none
  first_canonical_allowed_host (host ∷ hosts) =
      let rest = first_canonical_allowed_host hosts in
      let normalized = strip (lstrip_dots host) in
      if is_canonical normalized then some normalized else rest

  abbrev pub with_host : Request → Option Text → Request
  with_host r none = r
  with_host r (some host) = record r { host = host }

  unfoldable pub normalize_host_for_healthcheck : List Text → Request → Request
  normalize_host_for_healthcheck allowed_hosts r =
      if not (any_of (λ p. text_eq p r.path) healthcheck_paths)
      then r
      else if not (starts_with_text (codes "ELB-HealthChecker/") r.user_agent)
      then r
      else if not (is_ip_host r.host)
      then r
      else with_host r (first_canonical_allowed_host allowed_hosts)

  -- The view that answers, and the request that it gets.
  unfoldable pub call : List Text → Request → View × Request
  call allowed_hosts r =
      let r' = normalize_host_for_healthcheck allowed_hosts r in (healthcheck_view r'.path, r')

  -- A host that stands in the list but for dots in front and space at the ends, and is no address.
  abbrev pub IsCanonical : List Text → Text → Type 0
  IsCanonical hosts host =
      (any_of (λ h. text_eq (strip (lstrip_dots h)) host) hosts ≡ true) × (is_canonical host ≡ true)

  first_canonical_allowed_host-IsCanonical :
      (hosts : List Text) (host : Text)
      → first_canonical_allowed_host hosts ≡ some host
      → IsCanonical hosts host
  unfolding first_canonical_allowed_host
  first_canonical_allowed_host-IsCanonical [] host h = cc (h)
  first_canonical_allowed_host-IsCanonical (x ∷ hosts) host h =
      elim (Bool-cases (is_canonical (strip (lstrip_dots x)))) [
        | inl e ↦
            let taken : some (strip (lstrip_dots x)) ≡ some host =
              rw (first_canonical_allowed_host, e) at h in
            let same : strip (lstrip_dots x) ≡ host = cc (taken) in
            rw (← same) (rw (text_eq_refl (strip (lstrip_dots x))) refl, e)
        | inr e ↦
            let later = rw (first_canonical_allowed_host, e) at h in
            let (listed, canonical) = first_canonical_allowed_host-IsCanonical hosts host later in
            (either (text_eq (strip (lstrip_dots x)) host) _ listed, canonical)
      ]
    where
      either : (a b : Bool) → b ≡ true → a || b ≡ true
      either true b h = refl
      either false b h = h

  -- Nobody else gets another host: a request is passed on as it is, or it asks for one of the two checks
  -- as the load balancer, by an address, and gets a host of the settings that is no address and no
  -- wildcard, but for dots in front and space at the ends, with nothing else changed.
  pub normalize_host_for_healthcheck_lem :
      (hosts : List Text) (r : Request)
      → (normalize_host_for_healthcheck hosts r ≡ r)
        ⊎ ((host : Text) × (normalize_host_for_healthcheck hosts r ≡ record r { host = host })
            × (any_of (λ p. text_eq p r.path) healthcheck_paths ≡ true)
            × (starts_with_text (codes "ELB-HealthChecker/") r.user_agent ≡ true)
            × (is_ip_host r.host ≡ true)
            × IsCanonical hosts host)
  unfolding normalize_host_for_healthcheck
  normalize_host_for_healthcheck_lem hosts r =
      elim (Bool-cases (any_of (λ p. text_eq p r.path) healthcheck_paths)) [
        | inr e ↦ inl (rw (normalize_host_for_healthcheck, e) refl)
        | inl e ↦ elim (Bool-cases (starts_with_text (codes "ELB-HealthChecker/") r.user_agent)) [
          | inr f ↦ inl (rw (normalize_host_for_healthcheck, e, f) refl)
          | inl f ↦ elim (Bool-cases (is_ip_host r.host)) [
            | inr g ↦ inl (rw (normalize_host_for_healthcheck, e, f, g) refl)
            | inl g ↦ elim (Option-cases (first_canonical_allowed_host hosts)) [
              | inl k ↦ inl (rw (normalize_host_for_healthcheck, e, f, g, k) refl)
              | inr (host, k) ↦ inr (
                host,
                rw (normalize_host_for_healthcheck, e, f, g, k) refl,
                e,
                f,
                g,
                first_canonical_allowed_host-IsCanonical hosts host k,
              )
            ]
          ]
        ]
      ]
