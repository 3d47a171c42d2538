-- ===== src/Auth/Sessions.antt =====
-- internal/infra/memory/memory_repos.go (MemorySessionRepo) and internal/app/auth/service.go: RefreshSession, Logout
-- and the session that a login records. `sessions` is keyed by the hash of the refresh token. Hashing,
-- fresh tokens and identifiers, and the access token that a call ends with are arguments; an audit
-- record keeps its action and the session.
use aurora_old.Base.{
  ◌*◌, ◌^◌, String, ◌==◌, Bool, true, false, not, Option, none, some, List, [], ◌∷◌, if◌then◌else◌,
  Result, ok, err,
}
use aurora_old.Base.Int.{ℤ, pos, ◌+ℤ◌, ltb_ℤ}
use aurora_old.Base.Assoc.{Assoc, lookup, insert}
use aurora_old.Identity.Subject.{
  IdentityError, refresh_token_invalid, refresh_token_reused, account_disabled, token_invalid,
}
use aurora_old.Identity.Credentials.{RefreshSession}

abbrev pub Sessions : Type 0
Sessions = Assoc RefreshSession

unfoldable pub create_session : RefreshSession → Sessions → Sessions
create_session s m = insert s.token_hash s m

abbrev pub found_session : Option RefreshSession → Result IdentityError RefreshSession
found_session none = err refresh_token_invalid
found_session (some s) = ok s

unfoldable pub by_token_hash : String → Sessions → Result IdentityError RefreshSession
by_token_hash hash m = found_session (lookup hash m)

unfoldable pub revoked_session : ℤ → RefreshSession → RefreshSession
revoked_session now s = record s { is_revoked = true; revoked_at = some now }

-- `Revoke`: the first session with this identifier.
unfoldable pub revoke_session : ℤ → String → Option String → Sessions → Sessions
revoke_session now id by [] = []
revoke_session now id by ((k, s) ∷ m) =
    if s.id == id
    then (k, record (revoked_session now s) { replaced_by_token_id = by }) ∷ m
    else (k, s) ∷ revoke_session now id by m

unfoldable pub revoke_family : ℤ → String → Sessions → Sessions
revoke_family now family [] = []
revoke_family now family ((k, s) ∷ m) =
    (k, if s.family_id == family then revoked_session now s else s) ∷ revoke_family now family m

unfoldable pub revoke_all_for_user : ℤ → String → Sessions → Sessions
revoke_all_for_user now user [] = []
revoke_all_for_user now user ((k, s) ∷ m) =
    (k, if s.user_id == user then revoked_session now s else s) ∷ revoke_all_for_user now user m

pub record Auth : Type 0 where
  pub sessions : Sessions
  pub audit_logs : List (String × String)

-- What a call draws, the drawing taken to succeed, and the access token of its end where the roles and the signing give one.
pub record Draw : Type 0 where
  pub plaintext : String
  pub token_hash : String
  pub session_id : String
  pub access_token : Option String
  pub user_agent : String
  pub ip_address : String

pub record TokenPair : Type 0 where
  pub access_token : String
  pub refresh_token : String
  pub token_type : String
  pub expires_in : ℤ

unfoldable pub new_session : ℤ → Draw → String → String → RefreshSession
new_session now d user family = record {
  id = d.session_id;
  user_id = user;
  token_hash = d.token_hash;
  family_id = family;
  user_agent = d.user_agent;
  ip_address = d.ip_address;
  expires_at = now +ℤ pos (7 * (24 * (3600 * 10 ^ 9)));
  created_at = now;
  is_revoked = false;
  revoked_at = none;
  replaced_by_token_id = none;
}

abbrev pub token_pair : Draw → Result IdentityError TokenPair
token_pair d = elim d.access_token [
  | none ↦ err token_invalid
  | some t ↦ ok record {
    access_token = t;
    refresh_token = d.plaintext;
    token_type = "Bearer";
    expires_in = pos 900;
  }
]

-- The rotation, once the checks are passed.
unfoldable pub rotated : ℤ → Draw → RefreshSession → Auth → Auth × Result IdentityError TokenPair
rotated now d s a = (
  record a {
    sessions =
        revoke_session now s.id (some d.session_id)
          (create_session (new_session now d s.user_id s.family_id) a.sessions);
  },
  token_pair d,
)

-- A user that is found and active.
abbrev pub Users : Type 0
Users = String → Bool

abbrev pub with_session :
    Users
    → ℤ
    → Draw
    → Auth
    → Result IdentityError RefreshSession
    → Auth × Result IdentityError TokenPair
with_session active now d a (err e) = (a, err refresh_token_invalid)
with_session active now d a (ok s) =
    if s.is_revoked
    then (
      record a {
        sessions = revoke_family now s.family_id a.sessions;
        audit_logs = ("auth.refresh.reuse_detected", s.id) ∷ a.audit_logs;
      },
      err refresh_token_reused,
    )
    else if ltb_ℤ s.expires_at now
    then (a, err refresh_token_invalid)
    else if not (active s.user_id)
    then (a, err account_disabled)
    else rotated now d s a

-- `RefreshSession`
unfoldable pub refresh_session :
    (String → String) → Users → ℤ → Draw → String → Auth → Auth × Result IdentityError TokenPair
refresh_session hash active now d token a =
    with_session active now d a (by_token_hash (hash token) a.sessions)

abbrev pub logged_out : ℤ → Auth → Result IdentityError RefreshSession → Auth
logged_out now a (err e) = a
logged_out now a (ok s) = record a {
  sessions = revoke_session now s.id none a.sessions;
  audit_logs = ("auth.logout", s.id) ∷ a.audit_logs;
}

-- `Logout`
unfoldable pub logout : (String → String) → ℤ → String → Auth → Auth
logout hash now token a = logged_out now a (by_token_hash (hash token) a.sessions)

-- `issueTokensAndRecordSession`: the session of a login, in a family of its own.
unfoldable pub issue_tokens :
    ℤ → Draw → String → String → Auth → Auth × Result IdentityError TokenPair
issue_tokens now d user family a = elim d.access_token [
  | none ↦ (a, err token_invalid)
  | some t ↦ (
    record a { sessions = create_session (new_session now d user family) a.sessions },
    token_pair d,
  )
]
