-- ===== src/Audit/Trail.antt =====
-- The audit repository of internal/infra/memory/memory_repos.go. The slice of entries is a list, the
-- latest entry first; `now` is the clock.
use aurora_old.Base.{
  ℕ, zero, suc, String, ◌==◌, Bool, true, false, not, ◌&&◌, ◌||◌, Option, none, some, List, [], ◌∷◌,
  keep, length, if◌then◌else◌,
}
use aurora_old.Base.Int.{ℤ, pos, pos_part, ◌+ℤ◌, ltb_ℤ, leb_ℤ, eqb_ℤ, int64}
use aurora_old.Job.Listing.{slice}
use aurora_old.Audit.Log.{AuditLog, Encoder, compute_hash, verify_hash}

pub record Trail : Type 0 where
  pub logs : List AuditLog
  pub counter : ℤ

abbrev pub linked : List AuditLog → AuditLog → AuditLog
linked [] a = a
linked (p ∷ older) a = record a { prev_hash = p.tamper_proof_hash }

-- The copy of an entry before it is linked: its number and its defaults.
unfoldable pub completed : ℤ → ℤ → AuditLog → AuditLog
completed now n a = record a {
  id = n;
  created_at = if eqb_ℤ a.created_at (pos 0) then now else a.created_at;
  severity = if a.severity == "" then "info" else a.severity;
}

unfoldable pub sealed : Encoder → AuditLog → AuditLog
sealed e a = record a { tamper_proof_hash = compute_hash e a }

unfoldable pub record_log : Encoder → ℤ → AuditLog → Trail → Trail
record_log e now a t =
    let n = int64 (t.counter +ℤ pos 1) in
    record { logs = sealed e (linked t.logs (completed now n a)) ∷ t.logs; counter = n }

unfoldable pub get_latest_log : Trail → Option AuditLog
get_latest_log t = elim t.logs [ [] ↦ none | a ∷ older ↦ some a ]

-- One turn of the loop of `VerifyChainIntegrity`: the number of a bad entry.
unfoldable pub bad_link : Encoder → AuditLog → List AuditLog → Option ℤ
bad_link e a [] = if not (verify_hash e a) then some a.id else none
bad_link e a (p ∷ older) =
    if not (verify_hash e a)
    then some a.id
    else if not (a.prev_hash == p.tamper_proof_hash)
    then some a.id
    else none

abbrev pub first_of : Option ℤ → Option ℤ → Option ℤ
first_of none b = b
first_of (some n) b = some n

-- The loop goes up from the oldest of the `n` latest entries, and stops at the first bad one.
unfoldable pub bad_entry : Encoder → ℕ → List AuditLog → Option ℤ
bad_entry e zero logs = none
bad_entry e (suc n) [] = none
bad_entry e (suc n) (a ∷ older) = first_of (bad_entry e n older) (bad_link e a older)

abbrev pub window : ℤ → ℕ → ℕ
window limit n = if ltb_ℤ (pos 0) limit && ltb_ℤ limit (pos n) then pos_part limit else n

abbrev pub verdict_of : Option ℤ → ℕ → Bool × ℤ
verdict_of none n = (true, pos n)
verdict_of (some id) n = (false, id)

unfoldable pub verify_chain_integrity : Encoder → ℤ → Trail → Bool × ℤ
verify_chain_integrity e limit t =
    let n = window limit (length t.logs) in verdict_of (bad_entry e n t.logs) n

pub record AuditFilter : Type 0 where
  pub actor_id : String
  pub action : String
  pub resource_type : String
  pub resource_id : String
  pub severity : String
  pub since : Option ℤ
  pub until : Option ℤ
  pub limit : ℤ
  pub offset : ℤ

abbrev pub is_text : String → Option String → Bool
is_text s none = false
is_text s (some t) = t == s

abbrev pub not_before : Option ℤ → ℤ → Bool
not_before none t = true
not_before (some s) t = not (ltb_ℤ t s)

abbrev pub not_after : Option ℤ → ℤ → Bool
not_after none t = true
not_after (some u) t = not (ltb_ℤ u t)

unfoldable pub log_passes : AuditFilter → AuditLog → Bool
log_passes f a =
    (f.actor_id == "" || is_text f.actor_id a.actor_id)
    && ((f.action == "" || a.action == f.action)
        && ((f.resource_type == "" || a.resource_type == f.resource_type)
            && ((f.resource_id == "" || is_text f.resource_id a.resource_id)
                && ((f.severity == "" || a.severity == f.severity)
                    && (not_before f.since a.created_at && not_after f.until a.created_at)))))

abbrev pub page_size : ℤ → ℤ
page_size limit = if leb_ℤ limit (pos 0) then pos 50 else limit

unfoldable pub page_of : AuditFilter → List AuditLog → Option (List AuditLog)
page_of f ls =
    if leb_ℤ (pos (length ls)) f.offset
    then some []
    else (let end = int64 (f.offset +ℤ page_size f.limit) in
        slice ls f.offset (if ltb_ℤ (pos (length ls)) end then pos (length ls) else end))

-- `none` is the panic.
unfoldable pub list_filtered : AuditFilter → Trail → Option (List AuditLog) × ℕ
list_filtered f t = let ls = keep (log_passes f) t.logs in (page_of f ls, length ls)
