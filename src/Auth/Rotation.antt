-- ===== src/Auth/Rotation.antt =====
-- internal/app/auth/service.go: a refresh token is good once.
use aurora_old.Base.{
  String, ◌==◌, eq_iff, true, false, Option, some, Bool-cases, inl, inr, [], ◌∷◌, ok, err, ◌≡◌, ◌∙◌,
  ap, refl, arith,
}
use aurora_old.Base.Int.{ℤ}
use aurora_old.Base.Assoc.{lookup, insert, lookup-insert, Each, Each-insert}
use aurora_old.Identity.Subject.{refresh_token_reused}
use aurora_old.Identity.Credentials.{RefreshSession}
use aurora_old.Auth.Sessions.{
  Sessions, create_session, found_session, by_token_hash, revoked_session, revoke_session, Auth,
  Draw, TokenPair, new_session, rotated, Users, with_session, refresh_session,
}
use aurora_old.Auth.Family.{found_ok}

-- The replaced session in the repository, where no other entry has its identifier.
revoked_found :
    (now : ℤ) (by : Option String) (key : String) (s : RefreshSession) (m : Sessions)
    → lookup key m ≡ some s
    → Each (λ k t. (t.id == s.id) ≡ true → k ≡ key) m
    → (t : RefreshSession) × (lookup key (revoke_session now s.id by m) ≡ some t)
      × (t.is_revoked ≡ true)
      × (t.family_id ≡ s.family_id)
unfolding lookup revoke_session revoked_session
revoked_found now by key s [] e u = cc
revoked_found now by key s ((k, t) ∷ m) e u = elim (Bool-cases (k == key)) [
  | inl a ↦
      let c : t ≡ s = one_session (rw a at e) in
      let b : (t.id == s.id) ≡ true = (eq_iff t.id s.id).1 (ap (λ x. x.id) c) in
      (
        record (revoked_session now t) { replaced_by_token_id = by },
        rw (b, a) refl,
        refl,
        ap (λ x. x.family_id) c,
      )
  | inr a ↦
      let b : (t.id == s.id) ≡ false = ground (arith, u.0, eq_iff k key) in
      let (x, l, r, f) = revoked_found now by key s m (rw a at e) u.1 in (x, rw (b, a) l, r, f)
]
  where
    one_session : {x y : RefreshSession} → some x ≡ some y → x ≡ y
    one_session h = cc

-- A call that succeeds has come to the rotation.
was_rotated :
    (hash : String → String) (active : Users) (now : ℤ) (d : Draw) (a : Auth) (s : RefreshSession)
    (p : TokenPair)
    → (with_session active now d a (ok s)).1 ≡ ok p
    → with_session active now d a (ok s) ≡ rotated now d s a
was_rotated hash active now d a s p g = ground arith

rotated_found :
    (now : ℤ) (d : Draw) (key : String) (a : Auth) (s : RefreshSession)
    → lookup key a.sessions ≡ some s
    → Each (λ k t. (t.id == s.id) ≡ true → k ≡ key) a.sessions
    → (d.session_id == s.id) ≡ false
    → (d.token_hash == key) ≡ false
    → (t : RefreshSession) × (by_token_hash key (rotated now d s a).0.sessions ≡ ok t)
      × (t.is_revoked ≡ true)
      × (t.family_id ≡ s.family_id)
unfolding rotated by_token_hash create_session new_session
rotated_found now d key a s e u i k =
    let n = new_session now d s.user_id s.family_id in
    let l : lookup key (insert d.token_hash n a.sessions) ≡ some s =
      (rw k at (lookup-insert d.token_hash key n a.sessions)) ∙ e in
    let w =
      Each-insert (λ x t. (t.id == s.id) ≡ true → x ≡ key) d.token_hash n a.sessions u
        (λ h. ground (arith, i, h)) in
    let (t, m, r, f) =
      revoked_found now (some d.session_id) key s (insert d.token_hash n a.sessions) l w in
    (t, ap found_session m, r, f)

-- A token is good once: where no other entry has the identifier of its session, and the first call draws
-- another identifier and another hash, a call that follows a successful refresh of the token with the
-- same token is refused as reuse, and its session then is revoked and of the same family.
pub refresh_session-twice :
    (hash : String → String) (active : Users) (now later : ℤ) (d d' : Draw) (token : String)
    (a : Auth) (s : RefreshSession) (p : TokenPair)
    → by_token_hash (hash token) a.sessions ≡ ok s
    → Each (λ k t. (t.id == s.id) ≡ true → k ≡ hash token) a.sessions
    → (d.session_id == s.id) ≡ false
    → (d.token_hash == hash token) ≡ false
    → (refresh_session hash active now d token a).1 ≡ ok p
    → let a' = (refresh_session hash active now d token a).0 in
      ((refresh_session hash active later d' token a').1 ≡ err refresh_token_reused)
      × ((t : RefreshSession) × (by_token_hash (hash token) a'.sessions ≡ ok t)
          × (t.is_revoked ≡ true)
          × (t.family_id ≡ s.family_id))
unfolding refresh_session by_token_hash
refresh_session-twice hash active now later d d' token a s p e u i k g =
    let x = was_rotated hash active now d a s p (rw e at g) in
    let o = found_ok hash active (lookup (hash token) a.sessions) e in
    let (t, l, r, f) = rotated_found now d (hash token) a s o u i k in
    (rw (e, x, l, r) refl, (t, rw (e, x) l, r, f))
