-- ===== src/Accounts/OAuth/Owners.antt =====
-- The owners of OAuth accounts, and lists in which each link stands once.
use Prim.{tt}
use hivewiki_web.Base.{
  ℕ, ◌≡◌, refl, ◌∙◌, Bool, false, ◌&&◌, ◌||◌, Option, none, List, [], ◌∷◌, arith, ◌==◌, first_apart,
  update_of, any_of, any_apart, Bool-cases, inl, inr,
}
use hivewiki_web.Base.Text.{Text, text_eq}
use hivewiki_web.Accounts.Models.{HiveUser, OAuthAccount, OAuthProvider, same_provider}
use hivewiki_web.Accounts.Directory.{map_option}
use hivewiki_web.Accounts.OAuth.{Profile, account_of, refreshed, new_account}

-- The user that an account of a provider belongs to.
abbrev pub owner_of : OAuthProvider → Text → List OAuthAccount → Option ℕ
owner_of provider id rows = map_option (λ a. a.user_id) (account_of provider id rows)

-- Two accounts of one provider with the same user or the same id.
abbrev pub is_clash : OAuthAccount → OAuthAccount → Bool
is_clash a b =
    same_provider b.provider a.provider
    && (b.user_id == a.user_id || text_eq b.provider_user_id a.provider_user_id)

abbrev pub IsLinkedOnce : List OAuthAccount → Type 0
IsLinkedOnce [] = Unit
IsLinkedOnce (a ∷ rows) = (any_of (is_clash a) rows ≡ false) × IsLinkedOnce rows

pub owner_of-refreshed :
    (now id : ℕ) (profile : Profile) (provider : OAuthProvider) (pid : Text)
    (rows : List OAuthAccount)
    → owner_of provider pid (update_of (λ b. b.id == id) (refreshed now profile) rows)
      ≡ owner_of provider pid rows
owner_of-refreshed now id profile provider pid [] = refl
owner_of-refreshed now id profile provider pid (a ∷ rows) =
    ground (arith, owner_of-refreshed now id profile provider pid rows)

any_of-refreshed :
    (now id : ℕ) (profile : Profile) (a : OAuthAccount) (rows : List OAuthAccount)
    → any_of (is_clash a) (update_of (λ b. b.id == id) (refreshed now profile) rows)
      ≡ any_of (is_clash a) rows
any_of-refreshed now id profile a [] = refl
any_of-refreshed now id profile a (b ∷ rows) =
    let ih = any_of-refreshed now id profile a rows in
    elim (Bool-cases (b.id == id)) [ inl e ↦ rw (e, ih) | inr e ↦ rw (e, ih) ]

pub IsLinkedOnce-refreshed :
    (now id : ℕ) (profile : Profile) (rows : List OAuthAccount)
    → IsLinkedOnce rows
    → IsLinkedOnce (update_of (λ b. b.id == id) (refreshed now profile) rows)
IsLinkedOnce-refreshed now id profile [] h = tt
IsLinkedOnce-refreshed now id profile (a ∷ rows) (n, h) =
    let rest = IsLinkedOnce-refreshed now id profile rows h in
    elim (Bool-cases (a.id == id)) [
      | inl e ↦ rw e (any_of-refreshed now id profile (refreshed now profile a) rows ∙ n, rest)
      | inr e ↦ rw e (any_of-refreshed now id profile a rows ∙ n, rest)
    ]

spread : (p v t : Bool) → p && t ≡ false → v && p ≡ false → (p && (v || t)) || false ≡ false
spread p v t h k = ground arith

pub no_clash :
    (now id : ℕ) (u : HiveUser) (provider : OAuthProvider) (profile : Profile)
    (rows : List OAuthAccount)
    → account_of provider profile.provider_user_id rows ≡ none
    → any_of (λ a. a.user_id == u.id && same_provider a.provider provider) rows ≡ false
    → any_of (is_clash (new_account now id u provider profile)) rows ≡ false
no_clash now id u provider profile [] h k = refl
no_clash now id u provider profile (a ∷ rows) h k =
    let (apart, h') =
      first_apart
        (λ b.
          same_provider b.provider provider && text_eq b.provider_user_id profile.provider_user_id)
        a rows h in
    let (other, k') =
      any_apart (λ b. b.user_id == u.id && same_provider b.provider provider) a rows k in
    rw (no_clash now id u provider profile rows h' k') (
      spread (same_provider a.provider provider) (a.user_id == u.id)
        (text_eq a.provider_user_id profile.provider_user_id) apart other)
