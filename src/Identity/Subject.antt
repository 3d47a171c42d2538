-- ===== src/Identity/Subject.antt =====
-- internal/domain/identity/user.go and errors.go: the authenticated caller and its permissions.
use aurora_old.Base.{
  String, ◌==◌, eq_iff, Bool, true, false, ◌||◌, List, [], ◌∷◌, if◌then◌else◌, ◌≡◌, refl, arith,
  Bool-cases, inl, inr, sym, ◌⊎◌,
}
use mathlib.Core.List.{Memᴰ}

pub data IdentityError : Type 0 where
  invalid_credentials account_disabled user_not_found username_exists email_exists : IdentityError
  token_expired token_invalid refresh_token_invalid refresh_token_revoked : IdentityError
  refresh_token_reused totp_required totp_invalid totp_already_enabled : IdentityError
  totp_not_enabled api_key_invalid api_key_expired api_key_revoked : IdentityError
  api_key_not_found role_not_found permission_not_found insufficient_permission : IdentityError
  resource_forbidden unauthorized : IdentityError

pub record Subject : Type 0 where
  pub type_name : String
  pub id : String
  pub user_id : String
  pub username : String
  pub email : String
  pub roles : List String
  pub permissions : List String
  pub scopes : List String

pub record Resource : Type 0 where
  pub type_name : String
  pub id : String
  pub owner_id : String
  pub location_id : String

-- `HasRole`: the loop over the roles.
unfoldable pub has_name : String → List String → Bool
has_name role [] = false
has_name role (r ∷ roles) = if r == role then true else has_name role roles

unfoldable pub has_role : Subject → String → Bool
has_role s role = has_name role s.roles

unfoldable pub is_superadmin : Subject → Bool
unfolding has_role
is_superadmin s = has_role s "superadmin"

-- The loop over the scopes: one that is the code or the wildcard.
unfoldable pub has_scope : String → List String → Bool
has_scope code [] = false
has_scope code (sc ∷ scopes) = if sc == code || sc == "*" then true else has_scope code scopes

-- The loop over the permissions: the first that fits decides, and asks the scopes if there are any.
unfoldable pub scan_permissions : String → List String → List String → Bool
scan_permissions code scopes [] = false
scan_permissions code scopes (p ∷ ps) =
    if p == code || p == "*"
    then elim scopes [ [] ↦ true | sc ∷ rest ↦ has_scope code (sc ∷ rest) ]
    else scan_permissions code scopes ps

unfoldable pub has_permission : Subject → String → Bool
has_permission s code =
    if has_name "superadmin" s.roles then true else scan_permissions code s.scopes s.permissions

-- The loops decide membership.
pub has_name-of_mem : (x : String) (xs : List String) → Memᴰ x xs → has_name x xs ≡ true
unfolding has_name
has_name-of_mem x [] m = elim m [ ]
has_name-of_mem x (y ∷ xs) (Memᴰ.head e) = ground (arith, eq_iff y x)
has_name-of_mem x (y ∷ xs) (Memᴰ.tail m) = ground (arith, has_name-of_mem x xs m)

pub mem_of_has_name : (x : String) (xs : List String) → has_name x xs ≡ true → Memᴰ x xs
unfolding has_name
mem_of_has_name x [] h = cc
mem_of_has_name x (y ∷ xs) h = elim (Bool-cases (y == x)) [
  | inl e ↦ Memᴰ.head (sym ((eq_iff y x).0 e))
  | inr e ↦ Memᴰ.tail (mem_of_has_name x xs (rw e at h))
]

-- A list grants a code that it holds, or everything by the wildcard.
abbrev pub Grants : List String → String → Type 0
Grants xs code = Memᴰ code xs ⊎ Memᴰ "*" xs

pub has_scope-of_Grants :
    (code : String) (xs : List String) → Grants xs code → has_scope code xs ≡ true
unfolding has_scope
has_scope-of_Grants code [] (inl m) = elim m [ ]
has_scope-of_Grants code [] (inr m) = elim m [ ]
has_scope-of_Grants code (y ∷ xs) (inl (Memᴰ.head e)) = ground (arith, eq_iff y code)
has_scope-of_Grants code (y ∷ xs) (inr (Memᴰ.head e)) = ground (arith, eq_iff y "*")
has_scope-of_Grants code (y ∷ xs) (inl (Memᴰ.tail m)) =
    ground (arith, has_scope-of_Grants code xs (inl m))
has_scope-of_Grants code (y ∷ xs) (inr (Memᴰ.tail m)) =
    ground (arith, has_scope-of_Grants code xs (inr m))

pub Grants-tail : (y code : String) (xs : List String) → Grants xs code → Grants (y ∷ xs) code
Grants-tail y code xs (inl m) = inl (Memᴰ.tail m)
Grants-tail y code xs (inr m) = inr (Memᴰ.tail m)

pub Grants-head :
    (y code : String) (xs : List String) → (y == code || y == "*") ≡ true → Grants (y ∷ xs) code
Grants-head y code xs h = elim (Bool-cases (y == code)) [
  | inl e ↦ inl (Memᴰ.head (sym ((eq_iff y code).0 e)))
  | inr e ↦ inr (Memᴰ.head (sym ((eq_iff y "*").0 (rw e at h))))
]

pub Grants-of_has_scope :
    (code : String) (xs : List String) → has_scope code xs ≡ true → Grants xs code
unfolding has_scope
Grants-of_has_scope code [] h = cc
Grants-of_has_scope code (y ∷ xs) h = elim (Bool-cases (y == code || y == "*")) [
  | inl e ↦ Grants-head y code xs e
  | inr e ↦ Grants-tail y code xs (Grants-of_has_scope code xs (rw e at h))
]

-- The loop over the permissions with no scopes is the loop over a list of scopes.
abbrev pub scopes_allow : String → List String → Bool
scopes_allow code [] = true
scopes_allow code (sc ∷ rest) = has_scope code (sc ∷ rest)

pub scan_permissions_lem :
    (code : String) (scopes ps : List String)
    → scan_permissions code scopes ps
      ≡ (if has_scope code ps then scopes_allow code scopes else false)
unfolding scan_permissions has_scope
scan_permissions_lem code scopes [] = refl
scan_permissions_lem code [] (p ∷ ps) = ground (arith, scan_permissions_lem code [] ps)
scan_permissions_lem code (sc ∷ rest) (p ∷ ps) =
    ground (arith, scan_permissions_lem code (sc ∷ rest) ps)
