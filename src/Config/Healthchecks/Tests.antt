-- ===== src/Config/Healthchecks/Tests.antt =====
-- The middleware on a small request: whatever starts with a digit is an address.
use hivewiki_web.Base.{◌≡◌, ◌⊎◌, Bool, true, false, ◌&&◌, leb, List, [], ◌∷◌, any_of}
use hivewiki_web.Base.Text.{Text, codes, text_eq}
use hivewiki_web.Accounts.Forms.{starts_with_text}
use hivewiki_web.Config.Healthchecks.{
  Request, healthcheck_paths, is_ip_host, normalize_host_for_healthcheck, IsCanonical,
  normalize_host_for_healthcheck_lem,
}

abbrev digit_first : Text → Bool
digit_first [] = false
digit_first (c ∷ t) = leb b'0' c && leb c b'9'

abbrev hosts : List Text
hosts = codes "*" ∷ codes ".a.b" ∷ []

abbrev check : Request
check = record {
  path = codes "/livez/";
  user_agent = codes "ELB-HealthChecker/2";
  host = codes "10.0:80";
}

normalize_host_for_healthcheck_lem_example :
    (normalize_host_for_healthcheck digit_first hosts check ≡ check)
    ⊎ ((host : Text) × (normalize_host_for_healthcheck digit_first hosts check
          ≡ record check { host = host })
        × (any_of (λ p. text_eq p check.path) healthcheck_paths ≡ true)
        × (starts_with_text (codes "ELB-HealthChecker/") check.user_agent ≡ true)
        × (is_ip_host digit_first check.host ≡ true)
        × IsCanonical digit_first hosts host)
normalize_host_for_healthcheck_lem_example =
    normalize_host_for_healthcheck_lem digit_first hosts check
