-- ===== src/Auth/Family.antt =====
-- internal/app/auth/service.go: the reuse of a refresh token ends its family.
use aurora_old.Base.{
  String, ◌==◌, eq_iff, Bool, true, false, not, Option, none, some, Option-cases, Bool-cases, inl,
  inr, List, [], ◌∷◌, if◌then◌else◌, All, Result, ok, err, ◌≡◌, refl, arith,
}
use aurora_old.Base.Int.{ℤ, ltb_ℤ}
use aurora_old.Base.Assoc.{lookup, Each, Each-lookup, Each-insert}
use aurora_old.Identity.Subject.{IdentityError, refresh_token_reused}
use aurora_old.Identity.Credentials.{RefreshSession}
use aurora_old.Auth.Sessions.{
  Sessions, create_session, found_session, by_token_hash, revoked_session, revoke_session,
  revoke_family, revoke_all_for_user, Auth, Draw, TokenPair, new_session, rotated, Users,
  with_session, refresh_session, logged_out, logout, issue_tokens,
}

-- No session of the family is good.
abbrev Dead : String → String → RefreshSession → Type 0
Dead f k s = (s.family_id == f) ≡ true → s.is_revoked ≡ true

module _ (f : String) where
  revoke_session-Dead :
      (now : ℤ) (id : String) (by : Option String) (m : Sessions)
      → Each (Dead f) m
      → Each (Dead f) (revoke_session now id by m)
  unfolding revoke_session revoked_session
  revoke_session-Dead now id by [] h = tt
  revoke_session-Dead now id by ((k, s) ∷ m) h = ground (arith, revoke_session-Dead now id by m h.1)

  revoke_family-Dead :
      (now : ℤ) (g : String) (m : Sessions)
      → Each (Dead f) m
      → Each (Dead f) (revoke_family now g m)
  unfolding revoke_family revoked_session
  revoke_family-Dead now g [] h = tt
  revoke_family-Dead now g ((k, s) ∷ m) h = ground (arith, revoke_family-Dead now g m h.1)

  revoke_all_for_user-Dead :
      (now : ℤ) (user : String) (m : Sessions)
      → Each (Dead f) m
      → Each (Dead f) (revoke_all_for_user now user m)
  unfolding revoke_all_for_user revoked_session
  revoke_all_for_user-Dead now user [] h = tt
  revoke_all_for_user-Dead now user ((k, s) ∷ m) h =
      ground (arith, revoke_all_for_user-Dead now user m h.1)

  revoke_family-all : (now : ℤ) (m : Sessions) → Each (Dead f) (revoke_family now f m)
  unfolding revoke_family revoked_session
  revoke_family-all now [] = tt
  revoke_family-all now ((k, s) ∷ m) = ground (arith, revoke_family-all now m)

-- The calls that reach the sessions; a login draws a family.
pub data AuthCall : Type 0 where
  refresh_call : ℤ → Draw → String → AuthCall
  logout_call : ℤ → String → AuthCall
  login_call : ℤ → Draw → String → String → AuthCall
  revoke_user_call : ℤ → String → AuthCall

module _ (hash : String → String) (active : Users) where
  abbrev pub auth_step : AuthCall → Auth → Auth
  auth_step (refresh_call now d token) a = (refresh_session hash active now d token a).0
  auth_step (logout_call now token) a = logout hash now token a
  auth_step (login_call now d user family) a = (issue_tokens now d user family a).0
  auth_step (revoke_user_call now user) a = record a {
    sessions = revoke_all_for_user now user a.sessions;
  }

  abbrev pub auth_steps : List AuthCall → Auth → Auth
  auth_steps [] a = a
  auth_steps (c ∷ cs) a = auth_steps cs (auth_step c a)

  -- A login does not draw this family again.
  abbrev pub OtherFamily : String → AuthCall → Type 0
  OtherFamily f (login_call now d user family) = (family == f) ≡ false
  OtherFamily f _ = Unit

  create_session-Dead :
      (f : String) (now : ℤ) (d : Draw) (user family : String) (m : Sessions)
      → (family == f) ≡ false
      → Each (Dead f) m
      → Each (Dead f) (create_session (new_session now d user family) m)
  unfolding create_session new_session
  create_session-Dead f now d user family m o h =
      Each-insert (Dead f) d.token_hash (new_session now d user family) m h
        (λ e. ground (arith, o, e))

  with_session-Dead :
      (f : String) (now : ℤ) (d : Draw) (a : Auth) (r : Result IdentityError RefreshSession)
      → Each (Dead f) a.sessions
      → ((s : RefreshSession) → r ≡ ok s → Dead f "" s)
      → Each (Dead f) (with_session active now d a r).0.sessions
  unfolding rotated
  with_session-Dead f now d a (err e) h w = h
  with_session-Dead f now d a (ok s) h w = elim (Bool-cases s.is_revoked) [
    | inl r ↦ rw (r, with_session) (revoke_family-Dead f now s.family_id a.sessions h)
    | inr r ↦
        let o : (s.family_id == f) ≡ false = ground (arith, w s refl, r) in
        rw (r, with_session)
          (three (ltb_ℤ s.expires_at now) (not (active s.user_id)) _ _ _ h (
            revoke_session-Dead f now s.id (some d.session_id) _
              (create_session-Dead f now d s.user_id s.family_id a.sessions o h)))
  ]
    where
      three :
          (b c : Bool) (x : Auth × Result IdentityError TokenPair) (e1 e2 : IdentityError)
          → Each (Dead f) a.sessions
          → Each (Dead f) x.0.sessions
          → Each (Dead f) (if b then (a, err e1) else if c then (a, err e2) else x).0.sessions
      three true c x e1 e2 p q = p
      three false true x e1 e2 p q = p
      three false false x e1 e2 p q = q

  pub found_ok :
      (o : Option RefreshSession) {s : RefreshSession} → found_session o ≡ ok s → o ≡ some s
  found_ok none e = cc
  found_ok (some t) e = cc

  found-Dead :
      (f key : String) (m : Sessions) (s : RefreshSession)
      → Each (Dead f) m
      → by_token_hash key m ≡ ok s
      → Dead f "" s
  unfolding by_token_hash
  found-Dead f key m s h e = Each-lookup (Dead f) key m h (found_ok (lookup key m) e)

  auth_step-Dead :
      (f : String) (c : AuthCall) (a : Auth)
      → OtherFamily f c
      → Each (Dead f) a.sessions
      → Each (Dead f) (auth_step c a).sessions
  unfolding refresh_session logout issue_tokens new_session
  auth_step-Dead f (refresh_call now d token) a o h =
      with_session-Dead f now d a (by_token_hash (hash token) a.sessions) h
        (λ s e. found-Dead f (hash token) a.sessions s h e)
  auth_step-Dead f (logout_call now token) a o h = out (by_token_hash (hash token) a.sessions)
    where
      out : (r : Result IdentityError RefreshSession) → Each (Dead f) (logged_out now a r).sessions
      out (err e) = h
      out (ok s) = revoke_session-Dead f now s.id none a.sessions h
  auth_step-Dead f (login_call now d user family) a o h = elim (Option-cases d.access_token) [
    | inl e ↦ rw e h
    | inr (t, e) ↦ rw e (create_session-Dead f now d user family a.sessions o h)
  ]
  auth_step-Dead f (revoke_user_call now user) a o h =
      revoke_all_for_user-Dead f now user a.sessions h

  auth_steps-Dead :
      (f : String) (cs : List AuthCall) (a : Auth)
      → All (OtherFamily f) cs
      → Each (Dead f) a.sessions
      → Each (Dead f) (auth_steps cs a).sessions
  auth_steps-Dead f [] a o h = h
  auth_steps-Dead f (c ∷ cs) a o h =
      auth_steps-Dead f cs (auth_step c a) o.1 (auth_step-Dead f c a o.0 h)

  -- A token whose session the family has lost.
  pub refused :
      (f : String) (now : ℤ) (d : Draw) (token : String) (a : Auth) (s : RefreshSession)
      → Each (Dead f) a.sessions
      → by_token_hash (hash token) a.sessions ≡ ok s
      → (s.family_id == f) ≡ true
      → (refresh_session hash active now d token a).1 ≡ err refresh_token_reused
  unfolding refresh_session
  refused f now d token a s h e g = rw (e, found-Dead f (hash token) a.sessions s h e g) refl

-- Once a refresh token whose session is revoked is presented, its family is at an end: after any calls
-- that follow, by anyone, every token whose session is of this family is refused as reused, if no
-- login draws the family's identifier again.
pub refresh_session-reused :
    (hash : String → String) (active : Users) (now later : ℤ) (d d' : Draw) (token other : String)
    (a : Auth) (s s' : RefreshSession) (cs : List AuthCall)
    → by_token_hash (hash token) a.sessions ≡ ok s
    → s.is_revoked ≡ true
    → All (OtherFamily hash active s.family_id) cs
    → let a' = auth_steps hash active cs (refresh_session hash active now d token a).0 in
      by_token_hash (hash other) a'.sessions ≡ ok s'
      → s'.family_id ≡ s.family_id
      → (refresh_session hash active later d' other a').1 ≡ err refresh_token_reused
unfolding refresh_session
refresh_session-reused hash active now later d d' token other a s s' cs e r o e' g =
    let a1 = (refresh_session hash active now d token a).0 in
    let x : Each (Dead s.family_id) a1.sessions =
      rw (e, r) (revoke_family-all s.family_id now a.sessions) in
    let y = auth_steps-Dead hash active s.family_id cs a1 o x in
    refused hash active s.family_id later d' other (auth_steps hash active cs a1) s' y e'
      ((eq_iff s'.family_id s.family_id).1 g)
