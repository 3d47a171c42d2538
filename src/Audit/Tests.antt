-- ===== src/Audit/Tests.antt =====
-- A trail of two entries, and another with its second entry rewritten.
use Prim.Native.String.{count}
use aurora_old.Base.{
  String, ◌==◌, none, some, List, [], ◌∷◌, map, Bool, true, false, if◌then◌else◌, ◌≡◌, refl,
}
use aurora_old.Base.Int.{ℤ, pos}
use aurora_old.Audit.Log.{AuditLog, Encoder, payload, compute_hash, verify_hash}
use aurora_old.Audit.Trail.{record_log, bad_entry, bad_link, verify_chain_integrity}
use aurora_old.Audit.Chain.{record_all, verify-record_all, SameLength, verify-payloads}

-- Texts of one length for two payloads and for all others.
abbrev digest : String → String
digest s =
    if s == "|ann|ip|login||||200|info|{}|t"
    then "a"
    else if s == "a|ann|ip|logout||||200|info|{}|t"
    then "b"
    else "c"

abbrev plain : Encoder
plain = record {
  show_int = λ n. "200";
  unix_nano = λ n. "t";
  json = λ l. "{}";
  sha256_hex = digest;
}

abbrev entry : String → AuditLog
entry action = record {
  id = pos 0;
  actor_id = some "ann";
  actor_ip = "ip";
  user_agent = "";
  action = action;
  resource_type = "";
  resource_id = none;
  request_id = "";
  status_code = pos 200;
  details = [];
  severity = "info";
  prev_hash = "";
  tamper_proof_hash = "";
  created_at = pos 1;
}

abbrev calls : List (ℤ × AuditLog)
calls = (pos 5, entry "login") ∷ (pos 6, entry "logout") ∷ []

verify-record_all_example :
    verify_chain_integrity plain
      (pos 1)
      (record_all plain calls (record { logs = []; counter = pos 0 }))
    ≡ (true, pos 1)
unfolding record_log
verify-record_all_example = verify-record_all plain (pos 1) calls

abbrev first : AuditLog
first = record (entry "login") { id = pos 1; tamper_proof_hash = "a" }

abbrev second : AuditLog
second = record (entry "logout") { id = pos 2; prev_hash = "a"; tamper_proof_hash = "b" }

-- The agent is not part of the text.
abbrev changed : AuditLog
changed = record second { user_agent = "other" }

digest-count : (s : String) → count (digest s) ≡ 1
digest-count s =
    one_letter (s == "|ann|ip|login||||200|info|{}|t") (s == "a|ann|ip|logout||||200|info|{}|t")
  where
    one_letter : (x y : Bool) → count (if x then "a" else if y then "b" else "c") ≡ 1
    one_letter true y = refl
    one_letter false true = refl
    one_letter false false = refl

digest-length : SameLength plain
digest-length s t = rw (digest-count s, digest-count t) refl

verify-payloads_example :
    map (payload plain) (second ∷ first ∷ []) ≡ map (payload plain) (changed ∷ first ∷ [])
unfolding verify_chain_integrity bad_entry bad_link verify_hash compute_hash payload
verify-payloads_example =
    verify-payloads plain second changed (first ∷ []) (first ∷ []) (pos 2) (pos 2) digest-length
      refl refl refl (refl, (refl, tt)) (refl, (refl, tt)) (λ h. refl, (λ h. refl, tt)) refl
