-- ===== src/Core/AdminUsers/Reach.antt =====
-- Sequences of user actions, each by a user whose row is active, as `get_current_user` loads it.
use hivewiki_web.Base.{ℕ, ◌≡◌, refl, sym, ap, subst, ◌∙◌, some, List, inl, inr, ◌==◌}
use hivewiki_web.Base.Text.{Text}
use hivewiki_web.Django.Cache.{Cache}
use hivewiki_web.Django.Sessions.{SessionStore}
use hivewiki_web.Accounts.Models.{HiveUser, admin, active, deleted}
use hivewiki_web.Accounts.Directory.{user_by_id, id-user_by_id}
use hivewiki_web.Core.AdminUsers.Actions.{Site, call, outcome, admin_user_action-keeps_actor}
use hivewiki_web.Core.AdminUsers.Effects.{SameIdentity, admin_user_action-removed}

module _ (cache : Cache ℕ (List Text) ◌==◌) (session_cookie_age : ℕ) (sessions : SessionStore) where
  abbrev pub State : Type 0
  State = Site cache session_cookie_age sessions

  -- One request. Nothing is asked of the current user's role: the handler tests it.
  pub data Step (w : State) : State → Type 0 where
    act :
        (now : ℕ) (current : HiveUser) (target_id : ℕ) (action : Text)
        → user_by_id current.id w.0.users ≡ some current
        → current.status ≡ active
        → Step w (call cache session_cookie_age sessions now current target_id action w).1

  pub data Reach (w : State) : State → Type 0 where
    here : Reach w w
    next : {v u : State} → Reach w v → Step v u → Reach w u

  -- Some user has the admin role and is active.
  abbrev pub HasAdmin : State → Type 0
  HasAdmin w =
      (u : HiveUser) × (user_by_id u.id w.0.users ≡ some u) × (u.role ≡ admin) × (u.status ≡ active)

  Step-HasAdmin : {w v : State} → Step w v → HasAdmin w → HasAdmin v
  Step-HasAdmin {w} (act now current target_id action row status) h =
      elim (outcome cache session_cookie_age sessions now current target_id action w) [
        | inl same ↦ subst HasAdmin (sym same) h
        | inr o ↦
            let after =
              (call cache session_cookie_age sessions now current target_id action w).1.0.users in
            let (u, row', role, status') =
              admin_user_action-keeps_actor cache session_cookie_age sessions now current target_id
                action w row o.is_admin_role status in
            let same_id = id-user_by_id current.id after u row' in
            (u, ap (λ (n : ℕ). user_by_id n after) same_id ∙ row', role, status')
      ]

  -- However many user actions are made, by whichever active users, an active admin is left if there
  -- was one at the start.
  pub Reach-HasAdmin : {w v : State} → HasAdmin w → Reach w v → HasAdmin v
  Reach-HasAdmin h here = h
  Reach-HasAdmin h (next r st) = Step-HasAdmin st (Reach-HasAdmin h r)

  -- However many user actions are made, a removed user stays removed, with the same name, email and
  -- password hash.
  pub Reach-removed :
      {w v : State} (j : ℕ) (u : HiveUser)
      → user_by_id j w.0.users ≡ some u
      → u.status ≡ deleted
      → Reach w v
      → (u' : HiveUser) × (user_by_id j v.0.users ≡ some u') × SameIdentity u u'
  Reach-removed j u row gone here = (u, row, (gone, refl, refl, refl))
  Reach-removed j u row gone (next {v} r (act now current target_id action row' status)) =
      let (x, xrow, same) = Reach-removed j u row gone r in
      let (y, yrow, same') =
        admin_user_action-removed cache session_cookie_age sessions now current target_id action v j
          x xrow same.0 in
      (y, yrow, (same'.0, same'.1 ∙ same.1, same'.2 ∙ same.2, same'.3 ∙ same.3))
