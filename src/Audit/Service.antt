-- ===== src/Audit/Service.antt =====
-- internal/app/audit/service.go: the queries of the trail, for a caller. The forwarding to SIEM
-- systems, and the texts of a compliance report, are output.
use aurora_old.Base.{
  ℕ, String, ◌==◌, Bool, true, false, not, ◌&&◌, ◌||◌, Option, none, some, List, [], ◌∷◌,
  if◌then◌else◌, Result, ok, err, ◌>>◌,
}
use aurora_old.Base.Int.{ℤ, pos}
use aurora_old.Identity.Subject.{Subject, IdentityError}
use aurora_old.Job.World.{Authorizer}
use aurora_old.Audit.Log.{AuditLog, Encoder}
use aurora_old.Audit.Trail.{Trail, AuditFilter, list_filtered, verify_chain_integrity}

pub data AuditError : Type 0 where
  denied : IdentityError → AuditError
  slice_panic : AuditError

abbrev pub has_text : String → List String → Bool
has_text s [] = false
has_text s (t ∷ ts) = if t == s then true else has_text s ts

-- `isSuperadmin` of this package.
unfoldable pub sees_all : Option Subject → Bool
sees_all none = false
sees_all (some s) = has_text "superadmin" s.roles || has_text "*" s.permissions

abbrev pub allowed : Option IdentityError → Result AuditError (Unit {0})
allowed none = ok tt
allowed (some e) = err (denied e)

abbrev pub own_only : Option Subject → AuditFilter → AuditFilter
own_only none f = f
own_only (some s) f =
    if not (sees_all (some s)) && not (s.user_id == "")
    then record f { actor_id = s.user_id }
    else f

abbrev pub listed : Option (List AuditLog) × ℕ → Result AuditError (List AuditLog × ℕ)
listed (none, n) = err slice_panic
listed (some ls, n) = ok (ls, n)

unfoldable pub list_audit_logs :
    Authorizer → Option Subject → AuditFilter → Trail → Result AuditError (List AuditLog × ℕ)
list_audit_logs ask sub f t =
    allowed (ask sub "audit:read" none) >> listed (list_filtered (own_only sub f) t)

pub record ChainVerification : Type 0 where
  pub valid : Bool
  pub verified_count : ℤ
  pub corrupted_log_id : ℤ
  pub checked_at : ℤ

abbrev pub chain_result : ℤ → Bool × ℤ → ChainVerification
chain_result now (valid, count) = record {
  valid = valid;
  verified_count = count;
  corrupted_log_id = if not valid then count else pos 0;
  checked_at = now;
}

unfoldable pub verify_audit_chain :
    Authorizer → Encoder → Option Subject → ℤ → ℤ → Trail → Result AuditError ChainVerification
verify_audit_chain ask e sub now limit t =
    allowed (ask sub "audit:read" none) >> ok (chain_result now (verify_chain_integrity e limit t))
