-- ===== src/Identity/Tests.antt =====
-- The authorizer at concrete callers.
use aurora_old.Base.{none, some, [], ◌∷◌, ◌≡◌, refl, ◌↔◌}
use aurora_old.Identity.Subject.{
  Subject, Resource, insufficient_permission, resource_forbidden, has_permission, has_name,
  scan_permissions, has_scope,
}
use aurora_old.Identity.Authorizer.{authorize, scope_check, owner_check, is_admin_or_operator}
use aurora_old.Identity.Access.{MayAct, authorize_iff}

abbrev reader : Subject
reader = record {
  type_name = "api_key";
  id = "k1";
  user_id = "alice";
  username = "alice";
  email = "alice@example.com";
  roles = "member" ∷ [];
  permissions = "job:read" ∷ "job:manage" ∷ [];
  scopes = "job:read" ∷ [];
}

abbrev bobs : Resource
bobs = record { type_name = "job"; id = "j1"; owner_id = "bob"; location_id = "" }

abbrev own : Resource
own = record { type_name = "job"; id = "j2"; owner_id = "alice"; location_id = "" }

authorize_iff_example :
    (authorize (some reader) "job:read" (some own) ≡ none) ↔ MayAct reader "job:read" (some own)
authorize_iff_example = authorize_iff reader "job:read" (some own)

own_allowed : authorize (some reader) "job:read" (some own) ≡ none
unfolding authorize has_permission has_name scan_permissions has_scope scope_check owner_check
    is_admin_or_operator
own_allowed = refl

out_of_scope : authorize (some reader) "job:manage" (some own) ≡ some insufficient_permission
unfolding authorize has_permission has_name scan_permissions has_scope scope_check owner_check
    is_admin_or_operator
out_of_scope = refl

bobs_refused : authorize (some reader) "job:read" (some bobs) ≡ some resource_forbidden
unfolding authorize has_permission has_name scan_permissions has_scope scope_check owner_check
    is_admin_or_operator
bobs_refused = refl
