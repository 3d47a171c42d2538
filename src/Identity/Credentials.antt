-- ===== src/Identity/Credentials.antt =====
-- internal/domain/identity/apikey.go and session.go: when a stored credential is still good.
-- `now` is the value of `time.Now()`.
use aurora_old.Base.{String, Bool, true, false, Option, none, some, List, if◌then◌else◌}
use aurora_old.Base.Int.{ℤ, ltb_ℤ}

pub record ApiKey : Type 0 where
  pub id : String
  pub user_id : String
  pub name : String
  pub key_hash : String
  pub prefix : String
  pub scopes : List String
  pub last_used_at : Option ℤ
  pub expires_at : Option ℤ
  pub created_at : ℤ
  pub is_revoked : Bool

abbrev expired_by : ℤ → Option ℤ → Bool
expired_by now none = false
expired_by now (some t) = ltb_ℤ t now

-- `APIKey.IsValid`
unfoldable pub is_valid_key : ℤ → ApiKey → Bool
is_valid_key now k =
    if k.is_revoked then false else if expired_by now k.expires_at then false else true

pub record RefreshSession : Type 0 where
  pub id : String
  pub user_id : String
  pub token_hash : String
  pub family_id : String
  pub user_agent : String
  pub ip_address : String
  pub expires_at : ℤ
  pub created_at : ℤ
  pub is_revoked : Bool
  pub revoked_at : Option ℤ
  pub replaced_by_token_id : Option String

-- `RefreshSession.IsValid`
unfoldable pub is_valid_session : ℤ → RefreshSession → Bool
is_valid_session now s = if s.is_revoked then false else ltb_ℤ now s.expires_at
