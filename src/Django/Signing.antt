-- ===== src/Django/Signing.antt =====
-- `django.core.signing`: a payload that is signed at a time, and read back while it is not older than an
-- age in seconds. The signature holds the second in which it was made.
use hivewiki_web.Base.{ℕ, ◌+◌, ◌*◌, ◌/◌, ◌≡◌, refl, leb, if◌then◌else◌, Result, ok, err}
use hivewiki_web.Django.Cache.{second}

-- `SignatureExpired` and `BadSignature`.
pub data SigningError : Type 0 where
  signature_expired bad_signature : SigningError

-- A token is a text that is not empty.
pub record Signing (A : Type 0) : Type 1 where
  pub Token : Type 0
  -- `dumps(payload)`
  pub dumps : ℕ → A → Token
  -- `loads(token, max_age=max_age)`
  pub loads : ℕ → ℕ → Token → Result SigningError A
  pub loads-dumps :
      (now t max_age : ℕ) (a : A)
      → loads max_age t (dumps now a)
        ≡ (if leb t (now / second * second + max_age * second) then ok a else err signature_expired)

abbrev read_at : {A : Type 0} → ℕ → ℕ → A × ℕ → Result SigningError A
read_at max_age t (a, signed) =
    if leb t (signed + max_age * second) then ok a else err signature_expired

-- A signing that meets the law: the payload with the second.
abbrev pub plain_signing : {A : Type 0} → Signing A
plain_signing {A} = record {
  Token = A × ℕ;
  dumps = λ now a. (a, now / second * second);
  loads = read_at;
  loads-dumps = λ now t max_age a. refl;
}
