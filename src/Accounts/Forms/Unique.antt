-- ===== src/Accounts/Forms/Unique.antt =====
-- The uniqueness of names and emails under an edit of one row.
use Prim.{tt}
use hivewiki_web.Base.{
  ℕ, ◌≡◌, refl, sym, subst, ◌∙◌, Bool, true, false, not, ◌&&◌, List, [], ◌∷◌, ◌==◌, any_of,
  any_apart, Bool-cases, inl, inr, map,
}
use hivewiki_web.Base.Text.{Text, text_eq, text_eq_sym}
use hivewiki_web.Accounts.Models.{HiveUser}
use hivewiki_web.Accounts.Directory.{save_user}
use hivewiki_web.Accounts.OAuth.Links.{eq-of-==}
use hivewiki_web.Accounts.OAuth.Usernames.{iexact}
use hivewiki_web.Accounts.OAuth.SignUp.Outcomes.{AreUnique, is_namesake}
use hivewiki_web.Accounts.Forms.Valid.{any_of_or}

-- The ids are a primary key.
abbrev pub AreKeyed : List HiveUser → Type 0
AreKeyed [] = Unit
AreKeyed (u ∷ us) = (any_of (λ v. v.id == u.id) us ≡ false) × AreKeyed us

module _ (fold_char : ℕ → ℕ) where
  iexact_sym : (s t : Text) → iexact fold_char s t ≡ false → iexact fold_char t s ≡ false
  unfolding iexact
  iexact_sym s t h = elim (Bool-cases (text_eq (map fold_char t) (map fold_char s))) [
    | inr e ↦ e
    | inl e ↦
        let clash : true ≡ false = sym (text_eq_sym (map fold_char t) (map fold_char s) e) ∙ h in
        cc (clash)
  ]

  module _ (id : ℕ) (f : HiveUser → HiveUser) (name address : Text)
      (named : (v : HiveUser) → (f v).username ≡ name)
      (addressed : (v : HiveUser) → (f v).email ≡ address) where
    still_apart :
        (v : HiveUser) (us : List HiveUser)
        → iexact fold_char name v.username ≡ false
        → iexact fold_char address v.email ≡ false
        → any_of (is_namesake fold_char v) us ≡ false
        → any_of (is_namesake fold_char v) (save_user id f us) ≡ false
    still_apart v [] h k d = refl
    still_apart v (x ∷ us) h k d =
        let (e, d') = any_apart (is_namesake fold_char v) x us d in
        let rest = still_apart v us h k d' in
        elim (Bool-cases (x.id == id)) [
          | inl g ↦ rw (g, named x, addressed x, h, k) rest
          | inr g ↦ rw (g, e) rest
        ]

    unsaved : (us : List HiveUser) → any_of (λ v. v.id == id) us ≡ false → save_user id f us ≡ us
    unsaved [] h = refl
    unsaved (v ∷ us) h =
        let (e, h') = any_apart (λ x. x.id == id) v us h in rw (e, unsaved us h') refl

    -- A test of the rows that are not the instance's tests all rows but it.
    tested :
        (q : HiveUser → Bool) (us : List HiveUser)
        → any_of (λ v. v.id == id) us ≡ false
        → any_of (λ v. not (v.id == id) && q v) us ≡ false
        → any_of q us ≡ false
    tested q [] h k = refl
    tested q (v ∷ us) h k =
        let (e, h') = any_apart (λ x. x.id == id) v us h in
        let (g, k') = any_apart (λ x. not (x.id == id) && q x) v us k in
        let g' : q v ≡ false = rw e at g in rw g' (tested q us h' k')

    pub AreUnique-save :
        (us : List HiveUser)
        → AreKeyed us
        → any_of (λ v. not (v.id == id) && iexact fold_char v.username name) us ≡ false
        → any_of (λ v. not (v.id == id) && iexact fold_char v.email address) us ≡ false
        → AreUnique fold_char us
        → AreUnique fold_char (save_user id f us)
    AreUnique-save [] keyed h k unique = tt
    AreUnique-save (v ∷ us) (alone, keyed) h k (d, unique) =
        let (g, h') =
          any_apart (λ x. not (x.id == id) && iexact fold_char x.username name) v us h in
        let (j, k') =
          any_apart (λ x. not (x.id == id) && iexact fold_char x.email address) v us k in
        elim (Bool-cases (v.id == id)) [
          | inr e ↦
              let g' : iexact fold_char v.username name ≡ false = rw e at g in
              let j' : iexact fold_char v.email address ≡ false = rw e at j in
              rw e (
                still_apart v us (iexact_sym v.username name g') (iexact_sym v.email address j') d,
                AreUnique-save us keyed h' k' unique,
              )
          | inl e ↦
              let alone' =
                subst (λ (n : ℕ). any_of (λ x. x.id == n) us ≡ false) (eq-of-== v.id id e) alone in
              let free_name =
                subst (λ (n : Text). any_of (λ x. iexact fold_char x.username n) us ≡ false)
                  (sym (named v)) (tested (λ x. iexact fold_char x.username name) us alone' h') in
              let free_email =
                subst (λ (n : Text). any_of (λ x. iexact fold_char x.email n) us ≡ false)
                  (sym (addressed v))
                  (tested (λ x. iexact fold_char x.email address) us alone' k') in
              rw (e, unsaved us alone')
                (
                  any_of_or (λ x. iexact fold_char x.username (f v).username)
                      (λ x. iexact fold_char x.email (f v).email) us free_name free_email,
                  unique,
                )
        ]
