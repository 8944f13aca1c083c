-- ===== src/Admins.antt =====
-- backend/app/routers/admin.py: the admins, and looking for users. A route runs for an admin. An
-- identifier in a path is text; `uuid_of` is the UUID that the database reads it as.
pub mod Roles
use mathlib.Core.Option
use employed.Base.{
  Bool, List, Option, String, [], contains, filter, if◌then◌else◌, is_empty, list_eq, map, nat_eq,
  none, not, option_eq, some, string_eq, take, ℕ, ◌++◌, ◌==◌, ◌||◌, ◌∷◌,
}
use employed.Base.Text.{Text, strip}
use employed.Base.Dict.{Dict, insert, lookup}
use employed.Base.Outcome.{Outcome, ok, raised}
use employed.Models.{User, many}
use employed.Rbac.{get_user_roles}
use employed.Listings.{is_admin_user}
use employed.Listings.Search.{Database, fits_like}
use employed.Trust.{sorted, user}
use employed.SignIn.{Account}

pub data AdminError : Type 0 where
  only_admin_role own_role no_user : AdminError

-- The elements of a set, from a list of them.
unfoldable pub unique : List String → List String
unique [] = []
unique (x ∷ xs) = let rest = unique xs in if contains x xs then rest else x ∷ rest

unfoldable pub with_roles : List String → User → User
with_roles roles person = record person { roles = many roles }

-- `grant_role`
unfoldable pub grant_role :
    (String → ℕ) → String → String → Dict ℕ User → Outcome AdminError User × Dict ℕ User
unfolding unique sorted get_user_roles with_roles
grant_role uuid_of given role users =
    if not (role == "admin")
    then (raised only_admin_role, users)
    else elim (lookup (uuid_of given) users) [
      | none ↦ (raised no_user, users)
      | some person ↦
          let saved =
            with_roles (sorted (unique (get_user_roles person.roles ++ role ∷ []))) person in
          (ok saved, insert (uuid_of given) saved users)
    ]

-- `revoke_role`; `is_same` is Python's comparison of the text in the path with the admin's key,
-- which depends on the type of the key column.
unfoldable pub revoke_role :
    (String → ℕ → Bool)
    → (String → ℕ)
    → User
    → String
    → String
    → Dict ℕ User
    → Outcome AdminError User × Dict ℕ User
unfolding get_user_roles with_roles
revoke_role is_same uuid_of admin given role users =
    if not (role == "admin")
    then (raised only_admin_role, users)
    else if is_same given admin.id
    then (raised own_role, users)
    else elim (lookup (uuid_of given) users) [
      | none ↦ (raised no_user, users)
      | some person ↦
          let saved =
            with_roles (filter (λ r. not (r == role)) (get_user_roles person.roles)) person in
          (ok saved, insert (uuid_of given) saved users)
    ]

-- `_search_users`, where the model has its columns; the pattern is not escaped.
unfoldable pub search_users : Database → (String → Text) → Text → List Account → List Account
unfolding fits_like
search_users db text_of q rows =
    let pattern_text = b'%' ∷ (db.py_lower (strip q) ++ b'%' ∷ []) in
    take 50 (
      filter
        (λ a.
          fits_like db pattern_text (some a.user.email)
          || fits_like db pattern_text (Option.map text_of a.display_name))
        rows)

-- `admin_users`
unfoldable pub admin_users : Database → (String → Text) → Option Text → List Account → List Account
unfolding search_users is_admin_user
admin_users db text_of none rows = take 100 (filter (λ a. is_admin_user a.user) rows)
admin_users db text_of (some q) rows =
    if is_empty q
    then take 100 (filter (λ a. is_admin_user a.user) rows)
    else search_users db text_of q rows
