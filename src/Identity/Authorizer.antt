-- ===== src/Identity/Authorizer.antt =====
-- internal/app/authz/authorizer.go: `DynamicAuthorizer.Authorize`. `none` is a nil error.
use aurora_old.Base.{
  String, ◌==◌, Bool, true, false, not, ◌&&◌, ◌||◌, Option, none, some, List, [], ◌∷◌,
  if◌then◌else◌,
}
use aurora_old.Identity.Subject.{
  IdentityError, unauthorized, insufficient_permission, resource_forbidden, Subject, Resource,
  has_name, has_scope, has_permission,
}

-- The loop for an admin or operator role.
unfoldable pub is_admin_or_operator : List String → Bool
is_admin_or_operator [] = false
is_admin_or_operator (r ∷ roles) =
    if r == "admin" || r == "operator" then true else is_admin_or_operator roles

-- Step 3, the API key scope check.
unfoldable pub scope_check : String → List String → Bool
scope_check action [] = true
scope_check action (sc ∷ rest) = has_scope action (sc ∷ rest)

-- Step 4, the ownership check.
unfoldable pub owner_check : Subject → Option Resource → Bool
owner_check s none = true
owner_check s (some r) =
    if r.owner_id == ""
    then true
    else not (not (is_admin_or_operator s.roles) && not (r.owner_id == s.user_id))

unfoldable pub authorize : Option Subject → String → Option Resource → Option IdentityError
authorize none action resource = some unauthorized
authorize (some s) action resource =
    if has_name "superadmin" s.roles
    then none
    else if not (has_permission s action)
    then some insufficient_permission
    else if not (scope_check action s.scopes)
    then some insufficient_permission
    else if not (owner_check s resource)
    then some resource_forbidden
    else none
