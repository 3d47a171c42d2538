-- ===== src/Identity/Access.antt =====
-- What the authorizer lets through, and with which error it refuses.
use mathlib.Core.List.{Memᴰ}
use aurora_old.Base.{
  String, ◌==◌, eq_iff, true, false, Option, none, some, List, [], ◌∷◌, ◌≡◌, ◌↔◌, ◌⊎◌, inl, inr,
  refl, sym, arith, Bool-cases,
}
use aurora_old.Identity.Subject.{
  IdentityError, insufficient_permission, resource_forbidden, Subject, Resource, has_name,
  has_permission, Grants, has_name-of_mem, mem_of_has_name, has_scope-of_Grants,
  Grants-of_has_scope, scopes_allow, scan_permissions_lem,
}
use aurora_old.Identity.Authorizer.{is_admin_or_operator, scope_check, owner_check, authorize}

-- A caller with scopes is held to them.
abbrev pub InScope : List String → String → Type 0
InScope scopes action = (scopes ≡ []) ⊎ Grants scopes action

-- A resource is open to the caller if nobody owns it, the caller does, or the role is a staff one.
abbrev pub MayTouch : Subject → Option Resource → Type 0
MayTouch s none = Unit
MayTouch s (some r) =
    (r.owner_id ≡ "") ⊎ (r.owner_id ≡ s.user_id) ⊎ Memᴰ "admin" s.roles ⊎ Memᴰ "operator" s.roles

abbrev pub MayAct : Subject → String → Option Resource → Type 0
MayAct s action res =
    Memᴰ "superadmin" s.roles
    ⊎ (Grants s.permissions action × InScope s.scopes action × MayTouch s res)

staff_of_test :
    (roles : List String)
    → is_admin_or_operator roles ≡ true
    → Memᴰ "admin" roles ⊎ Memᴰ "operator" roles
unfolding is_admin_or_operator
staff_of_test [] h = cc
staff_of_test (r ∷ roles) h = elim (Bool-cases (r == "admin")) [
  | inl e ↦ inl (Memᴰ.head (sym ((eq_iff r "admin").0 e)))
  | inr e ↦ elim (Bool-cases (r == "operator")) [
    | inl f ↦ inr (Memᴰ.head (sym ((eq_iff r "operator").0 f)))
    | inr f ↦ elim (staff_of_test roles (rw (e, f) at h)) [
      | inl m ↦ inl (Memᴰ.tail m)
      | inr m ↦ inr (Memᴰ.tail m)
    ]
  ]
]

test_of_staff :
    (roles : List String)
    → Memᴰ "admin" roles ⊎ Memᴰ "operator" roles
    → is_admin_or_operator roles ≡ true
unfolding is_admin_or_operator
test_of_staff [] (inl m) = elim m [ ]
test_of_staff [] (inr m) = elim m [ ]
test_of_staff (r ∷ roles) (inl (Memᴰ.head e)) = ground (arith, eq_iff r "admin")
test_of_staff (r ∷ roles) (inr (Memᴰ.head e)) = ground (arith, eq_iff r "operator")
test_of_staff (r ∷ roles) (inl (Memᴰ.tail m)) = ground (arith, test_of_staff roles (inl m))
test_of_staff (r ∷ roles) (inr (Memᴰ.tail m)) = ground (arith, test_of_staff roles (inr m))

InScope-iff :
    (action : String) (scopes : List String)
    → (scope_check action scopes ≡ true) ↔ InScope scopes action
unfolding scope_check
InScope-iff action [] = (λ h. inl refl, λ h. refl)
InScope-iff action (sc ∷ rest) = (
  λ h. inr (Grants-of_has_scope action (sc ∷ rest) h),
  λ h. ground (arith, has_scope-of_Grants action (sc ∷ rest)),
)

owner_check_iff :
    (s : Subject) (res : Option Resource) → (owner_check s res ≡ true) ↔ MayTouch s res
unfolding owner_check
owner_check_iff s none = (λ h. tt, λ h. refl)
owner_check_iff s (some r) = (
  λ h. ground (arith, eq_iff r.owner_id "", eq_iff r.owner_id s.user_id, staff_of_test s.roles),
  λ h. ground (arith, eq_iff r.owner_id "", eq_iff r.owner_id s.user_id, test_of_staff s.roles),
)

scopes_allow-eq :
    (action : String) (scopes : List String)
    → scopes_allow action scopes ≡ scope_check action scopes
unfolding scope_check
scopes_allow-eq action [] = refl
scopes_allow-eq action (sc ∷ rest) = refl

-- Without the superadmin role a permission is one that the lists grant.
has_permission_iff :
    (s : Subject) (action : String)
    → has_name "superadmin" s.roles ≡ false
    → (has_permission s action ≡ true) ↔ (Grants s.permissions action × InScope s.scopes action)
unfolding has_permission
has_permission_iff s action h =
    rw (h, scan_permissions_lem action s.scopes s.permissions, scopes_allow-eq action s.scopes)
      (
        λ e. (
          ground (arith, Grants-of_has_scope action s.permissions),
          ground (arith, (InScope-iff action s.scopes).0),
        ),
        λ e.
            ground
              (arith, has_scope-of_Grants action s.permissions, (InScope-iff action s.scopes).1),
      )

-- The authorizer lets a caller act exactly if it is a superadmin, or its permissions grant the
-- action, its scopes, if it has any, allow it, and the resource is open to it.
pub authorize_iff :
    (s : Subject) (action : String) (res : Option Resource)
    → (authorize (some s) action res ≡ none) ↔ MayAct s action res
unfolding authorize
authorize_iff s action res = elim (Bool-cases (has_name "superadmin" s.roles)) [
  | inl e ↦ (λ h. inl (mem_of_has_name "superadmin" s.roles e), λ h. rw e)
  | inr e ↦ (
    λ h. ground (
      arith,
      (has_permission_iff s action e).0,
      (InScope-iff action s.scopes).0,
      (owner_check_iff s res).0,
    ),
    λ h. ground (
      arith,
      has_name-of_mem "superadmin" s.roles,
      (has_permission_iff s action e).1,
      (InScope-iff action s.scopes).1,
      (owner_check_iff s res).1,
    ),
  )
]

-- `HasPermission` has looked at the scopes already, so the authorizer's own scope check passes.
has_permission-scope_check :
    (s : Subject) (action : String)
    → has_name "superadmin" s.roles ≡ false
    → has_permission s action ≡ true
    → scope_check action s.scopes ≡ true
has_permission-scope_check s action n h =
    (InScope-iff action s.scopes).1 ((has_permission_iff s action n).0 h).1

-- A refusal names its reason: no caller, a missing permission, or a resource of someone else that
-- the permission alone would have covered. No other error is given.
authorize_refusal :
    (s : Subject) (action : String) (res : Option Resource) {e : IdentityError}
    → authorize (some s) action res ≡ some e
    → ((e ≡ insufficient_permission) × (has_permission s action ≡ false))
      ⊎ ((e ≡ resource_forbidden) × (has_permission s action ≡ true) × ¬ (MayTouch s res))
unfolding authorize
authorize_refusal s action res h =
    ground (arith, has_permission-scope_check s action, (owner_check_iff s res).1)
