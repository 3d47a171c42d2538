-- ===== src/Auth/Tests.antt =====
-- A login, a refresh, and the replay of the first token.
use aurora_old.Base.{String, true, false, none, some, List, [], ◌∷◌, ok, err, ◌≡◌, refl}
use aurora_old.Base.Int.{pos}
use aurora_old.Base.Assoc.{lookup, insert}
use aurora_old.Identity.Subject.{refresh_token_reused}
use aurora_old.Identity.Credentials.{RefreshSession}
use aurora_old.Auth.Sessions.{
  Auth, Draw, TokenPair, Users, by_token_hash, refresh_session, new_session, rotated,
  create_session, revoke_session, revoked_session, revoke_family, logout, issue_tokens,
}
use aurora_old.Auth.Rotation.{refresh_session-twice}
use aurora_old.Auth.Family.{AuthCall, logout_call, login_call, auth_steps, refresh_session-reused}

abbrev draw : String → String → Draw
draw t id = record {
  plaintext = t;
  token_hash = t;
  session_id = id;
  access_token = some "jwt";
  user_agent = "";
  ip_address = "";
}

abbrev plain : String → String
plain t = t

abbrev everyone : Users
everyone u = true

abbrev session : RefreshSession
session = record {
  id = "s1";
  user_id = "ann";
  token_hash = "t1";
  family_id = "f";
  user_agent = "";
  ip_address = "";
  expires_at = pos 100;
  created_at = pos 0;
  is_revoked = false;
  revoked_at = none;
  replaced_by_token_id = none;
}

abbrev logged_in : Auth
logged_in = record { sessions = ("t1", session) ∷ []; audit_logs = [] }

abbrev pair : TokenPair
pair = record {
  access_token = "jwt";
  refresh_token = "t2";
  token_type = "Bearer";
  expires_in = pos 900;
}

refresh_session-twice_example :
    let a = (refresh_session plain everyone (pos 5) (draw "t2" "s2") "t1" logged_in).0 in
    ((refresh_session plain everyone (pos 6) (draw "t3" "s3") "t1" a).1 ≡ err refresh_token_reused)
    × ((t : RefreshSession) × (by_token_hash "t1" a.sessions ≡ ok t)
        × (t.is_revoked ≡ true)
        × (t.family_id ≡ "f"))
unfolding refresh_session by_token_hash lookup rotated
refresh_session-twice_example =
    refresh_session-twice plain everyone (pos 5) (pos 6) (draw "t2" "s2") (draw "t3" "s3") "t1"
      logged_in session pair refl (λ h. refl, tt) refl refl refl

-- The first token is revoked, the second is not.
abbrev stolen : Auth
stolen = record {
  sessions =
      ("t1", record session { is_revoked = true })
      ∷ ("t2", record session { id = "s2"; token_hash = "t2" })
      ∷ [];
  audit_logs = [];
}

abbrev ended : RefreshSession
ended = record session {
  id = "s2";
  token_hash = "t2";
  is_revoked = true;
  revoked_at = some (pos 5);
}

abbrev others : List AuthCall
others = login_call (pos 6) (draw "t9" "s9") "ann" "g" ∷ logout_call (pos 7) "t9" ∷ []

refresh_session-reused_example :
    (refresh_session plain everyone (pos 8) (draw "t4" "s4") "t2" (
      auth_steps plain everyone others
        (refresh_session plain everyone (pos 5) (draw "t3" "s3") "t1" stolen).0)).1
    ≡ err refresh_token_reused
unfolding refresh_session by_token_hash lookup revoke_family revoked_session logout issue_tokens
    create_session new_session insert revoke_session
refresh_session-reused_example =
    refresh_session-reused plain everyone (pos 5) (pos 8) (draw "t3" "s3") (draw "t4" "s4") "t1"
      "t2" stolen (record session { is_revoked = true }) ended others refl refl (refl, (tt, tt))
      refl refl
