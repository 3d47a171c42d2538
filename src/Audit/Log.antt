-- ===== src/Audit/Log.antt =====
-- internal/domain/audit/audit.go: a log entry and its hash. `fmt`'s decimals, `json.Marshal` of the
-- details, `UnixNano` and the hexadecimal SHA-256 of a text are fields of `Encoder`.
use Prim.Native.String.{◌++◌}
use aurora_old.Base.{String, ◌==◌, Bool, true, Option, none, some, List, if◌then◌else◌}
use aurora_old.Base.Int.{ℤ}

pub record AuditLog : Type 0 where
  pub id : ℤ
  pub actor_id : Option String
  pub actor_ip : String
  pub user_agent : String
  pub action : String
  pub resource_type : String
  pub resource_id : Option String
  pub request_id : String
  pub status_code : ℤ
  pub details : List (String × String)
  pub severity : String
  pub prev_hash : String
  pub tamper_proof_hash : String
  pub created_at : ℤ

pub record Encoder : Type 0 where
  pub show_int : ℤ → String
  pub unix_nano : ℤ → String
  pub json : List (String × String) → String
  pub sha256_hex : String → String

-- A nil pointer counts as the empty text.
abbrev pub or_empty : Option String → String
or_empty none = ""
or_empty (some s) = s

unfoldable pub payload : Encoder → AuditLog → String
payload e a =
    a.prev_hash
    ++ ("|"
        ++ (or_empty a.actor_id
            ++ ("|"
                ++ (a.actor_ip
                    ++ ("|"
                        ++ (a.action
                            ++ ("|"
                                ++ (a.resource_type
                                    ++ ("|"
                                        ++ (or_empty a.resource_id
                                            ++ ("|"
                                                ++ (a.request_id
                                                    ++ ("|"
                                                        ++ (e.show_int a.status_code
                                                            ++ ("|"
                                                            ++ (a.severity
                                                            ++ ("|"
                                                            ++ (e.json a.details
                                                            ++ ("|"
                                                            ++ e.unix_nano
                                                            a.created_at)))))))))))))))))))

unfoldable pub compute_hash : Encoder → AuditLog → String
compute_hash e a = e.sha256_hex (payload e a)

-- An entry without a hash passes.
unfoldable pub verify_hash : Encoder → AuditLog → Bool
verify_hash e a =
    if a.tamper_proof_hash == "" then true else compute_hash e a == a.tamper_proof_hash
