-- ===== src/Application/Access.antt =====
-- application.rs: `check_access`, `check_access_resolved` and the redirect URI checks.
use authere.Base.{
  ℕ, ◌≡◌, ◌≢◌, refl, ◌⊎◌, ◌↔◌, inl, inr, Bool, true, false, ◌||◌, Option, none, some, List, [], ◌∷◌,
  arith, All, Any, is_empty, Bool-cases, Option-cases, if◌then◌else◌,
}
use authere.Base.Text.{Text, contains}
use authere.Base.Rows.{find}
use authere.Role
use authere.Role.{Role, Tables}
use authere.Application.{Application}

-- Some text of the first list is in the second: the two nested loops.
unfoldable pub any_contained : List Text → List Text → Bool
any_contained [] user_roles = false
any_contained (name ∷ names) user_roles = contains user_roles name || any_contained names user_roles

-- `check_access`
unfoldable check_access : Application → List Text → Bool
check_access app user_roles =
    if is_empty app.required_roles then true else any_contained app.required_roles user_roles

-- `validate_redirect_uri`, `validate_post_logout_redirect_uri`
unfoldable pub validate_redirect_uri : Application → Text → Bool
validate_redirect_uri app uri = contains app.oidc_redirect_uris uri

unfoldable pub validate_post_logout_redirect_uri : Application → Text → Bool
validate_post_logout_redirect_uri app uri = contains app.oidc_post_logout_redirect_uris uri

-- The uuid crate reads an id, or fails.
abbrev pub ParseUuid : Type 0
ParseUuid = Text → Option ℕ

module _ (parse_uuid : ParseUuid) (db : Tables) where
  -- the name that an entry of `required_roles` stands for, if any
  unfoldable pub resolve : Text → Option Text
  resolve entry = elim (parse_uuid entry) [
    | none ↦ some entry
    | some id ↦ elim (Role.get id db) [ none ↦ none | some role ↦ some role.name ]
  ]

  unfoldable pub required_names : List Text → List Text
  required_names [] = []
  required_names (entry ∷ entries) =
      let rest = required_names entries in
      elim (resolve entry) [ none ↦ rest | some name ↦ name ∷ rest ]

  -- `check_access_resolved`
  unfoldable pub check_access_resolved : Application → List Text → Bool
  check_access_resolved app user_roles =
      if is_empty app.required_roles
      then true
      else any_contained (required_names app.required_roles) user_roles

  -- An entry that stands for a role of the user: the name of one, or the id of a role that exists.
  pub data Grants (user_roles : List Text) (entry : Text) : Type 0 where
    by_name : parse_uuid entry ≡ none → contains user_roles entry ≡ true → Grants user_roles entry
    by_id :
        (id : ℕ) (role : Role)
        → parse_uuid entry ≡ some id
        → find (Role.has_id id) db.roles ≡ some role
        → contains user_roles role.name ≡ true
        → Grants user_roles entry

  resolved-Grants :
      (entry name : Text) (user_roles : List Text)
      → resolve entry ≡ some name
      → contains user_roles name ≡ true
      → Grants user_roles entry
  unfolding resolve Role.get
  resolved-Grants entry name user_roles found held = elim (Option-cases (parse_uuid entry)) [
    | inl no_id ↦ by_name no_id (ground arith)
    | inr (id, e) ↦ elim (Option-cases (find (Role.has_id id) db.roles)) [
      | inl missing ↦ ground arith
      | inr (role, there) ↦ by_id id role e there (ground arith)
    ]
  ]

  Grants-resolved :
      (entry : Text) (user_roles : List Text)
      → Grants user_roles entry
      → (name : Text) × (resolve entry ≡ some name) × (contains user_roles name ≡ true)
  unfolding resolve Role.get
  Grants-resolved entry user_roles (by_name no_id held) = (entry, ground arith, held)
  Grants-resolved entry user_roles (by_id id role e there held) = (role.name, ground arith, held)

  any_contained_sound :
      (entries user_roles : List Text)
      → any_contained (required_names entries) user_roles ≡ true
      → Any (Grants user_roles) entries
  unfolding any_contained required_names
  any_contained_sound [] user_roles h = cc
  any_contained_sound (entry ∷ entries) user_roles h = elim (Option-cases (resolve entry)) [
    | inl missing ↦ inr (any_contained_sound entries user_roles (ground arith))
    | inr (name, found) ↦ elim (Bool-cases (contains user_roles name)) [
      | inl held ↦ inl (resolved-Grants entry name user_roles found held)
      | inr not_held ↦ inr (any_contained_sound entries user_roles (ground arith))
    ]
  ]

  any_contained_complete :
      (entries user_roles : List Text)
      → Any (Grants user_roles) entries
      → any_contained (required_names entries) user_roles ≡ true
  unfolding any_contained required_names
  any_contained_complete [] user_roles h = absurd h
  any_contained_complete (entry ∷ entries) user_roles (inl granted) =
      let (name, found, held) = Grants-resolved entry user_roles granted in ground arith
  any_contained_complete (entry ∷ entries) user_roles (inr later) =
      let ih = any_contained_complete entries user_roles later in ground arith

  granted_iff :
      (entries user_roles : List Text)
      → ((if is_empty entries then true else any_contained (required_names entries) user_roles)
          ≡ true)
        ↔ (entries ≡ []) ⊎ Any (Grants user_roles) entries
  granted_iff [] user_roles = (λ h. inl refl, λ h. refl)
  granted_iff (entry ∷ entries) user_roles = (
    λ h. inr (any_contained_sound (entry ∷ entries) user_roles h),
    elim [
      | inl nothing ↦ cc
      | inr some_entry ↦ any_contained_complete (entry ∷ entries) user_roles some_entry
    ],
  )

  -- Access is granted exactly if the application requires no role, or some required entry, a role
  -- name or the id of a role that still exists, stands for a role of the user.
  pub check_access_resolved_iff :
      (app : Application) (user_roles : List Text)
      → (check_access_resolved app user_roles ≡ true)
        ↔ (app.required_roles ≡ []) ⊎ Any (Grants user_roles) app.required_roles
  unfolding check_access_resolved
  check_access_resolved_iff app user_roles = granted_iff app.required_roles user_roles

  required_names-of_missing :
      (entries : List Text)
      → All (λ entry. resolve entry ≡ none) entries
      → required_names entries ≡ []
  unfolding required_names
  required_names-of_missing [] h = refl
  required_names-of_missing (entry ∷ entries) h =
      let ih = required_names-of_missing entries h.1 in let missing = h.0 in ground arith

  -- If every role that an application requires was given by id and has been deleted, nobody has
  -- access: the requirement does not lapse.
  check_access_resolved_deleted :
      (app : Application) (user_roles : List Text)
      → app.required_roles ≢ []
      → All (λ entry. resolve entry ≡ none) app.required_roles
      → check_access_resolved app user_roles ≡ false
  unfolding check_access_resolved any_contained
  check_access_resolved_deleted app user_roles required missing =
      let names = required_names-of_missing app.required_roles missing in ground arith
