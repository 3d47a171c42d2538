-- ===== src/Audit/Chain.antt =====
-- What the hash chain of the audit trail shows, and what it does not.
use Prim.Native.String.{◌++◌, count}
use text.Mathlib.TextLemmas.{append_inj, append_assoc}
use aurora_old.Base.{
  ℕ, zero, suc, String, ◌==◌, eq_iff, eq_refl, true, false, Option, none, some, List, [], ◌∷◌, map,
  length, All, ◌≡◌, refl, sym, ap, ◌∙◌, arith,
}
use aurora_old.Base.Int.{ℤ, pos}
use aurora_old.Audit.Log.{AuditLog, Encoder, or_empty, payload, compute_hash, verify_hash}
use aurora_old.Audit.Trail.{
  Trail, linked, sealed, record_log, bad_link, first_of, bad_entry, window, verdict_of,
  verify_chain_integrity,
}

module _ (e : Encoder) where
  payload-sealed : (a : AuditLog) → compute_hash e (sealed e a) ≡ (sealed e a).tamper_proof_hash
  unfolding sealed compute_hash payload
  payload-sealed a = refl

  verify_hash-sealed : (a : AuditLog) → verify_hash e (sealed e a) ≡ true
  unfolding verify_hash
  verify_hash-sealed a = ground (arith, payload-sealed a, eq_refl (sealed e a).tamper_proof_hash)

  bad_link-sealed : (a : AuditLog) (l : List AuditLog) → bad_link e (sealed e (linked l a)) l ≡ none
  unfolding bad_link sealed
  bad_link-sealed a [] = rw (verify_hash-sealed a) refl
  bad_link-sealed a (p ∷ older) =
      rw (verify_hash-sealed (linked (p ∷ older) a), eq_refl p.tamper_proof_hash) refl

  -- No entry of the trail, of however many of its latest, is bad.
  abbrev IsChained : List AuditLog → Type 0
  IsChained l = (n : ℕ) → bad_entry e n l ≡ none

  -- The calls of Record, in order, each with its time.
  abbrev pub record_all : List (ℤ × AuditLog) → Trail → Trail
  record_all [] t = t
  record_all ((now, a) ∷ later) t = record_all later (record_log e now a t)

  record_log-IsChained :
      (now : ℤ) (a : AuditLog) (t : Trail)
      → IsChained t.logs
      → IsChained (record_log e now a t).logs
  unfolding record_log bad_entry
  record_log-IsChained now a t h zero = refl
  record_log-IsChained now a t h (suc n) = rw (h n, bad_link-sealed _ t.logs) refl

  record_all-IsChained :
      (cs : List (ℤ × AuditLog)) (t : Trail) → IsChained t.logs → IsChained (record_all cs t).logs
  record_all-IsChained [] t h = h
  record_all-IsChained ((now, a) ∷ cs) t h =
      record_all-IsChained cs (record_log e now a t) (record_log-IsChained now a t h)

-- However many of its latest entries are verified, a trail that only Record has written passes, and
-- the number of verified entries is reported.
pub verify-record_all :
    (e : Encoder) (limit : ℤ) (cs : List (ℤ × AuditLog))
    → let t = record_all e cs (record { logs = []; counter = pos 0 }) in
      verify_chain_integrity e limit t ≡ (true, pos (window limit (length t.logs)))
unfolding verify_chain_integrity bad_entry
verify-record_all e limit cs =
    let t = record_all e cs (record { logs = []; counter = pos 0 }) in
    rw
      (record_all-IsChained e cs (record { logs = []; counter = pos 0 }) (empty e)
        (window limit (length t.logs)))
      refl
  where
    empty : (e : Encoder) (n : ℕ) → bad_entry e n [] ≡ none
    empty e zero = refl
    empty e (suc n) = refl

-- Two entries whose texts have one hash have one text.
abbrev pub NoCollision : Encoder → List AuditLog → List AuditLog → Type 0
NoCollision e [] l = Unit
NoCollision e (a ∷ k) [] = Unit
NoCollision e (a ∷ k) (b ∷ l) =
    (compute_hash e a ≡ compute_hash e b → payload e a ≡ payload e b) × NoCollision e k l

abbrev pub IsHashed : AuditLog → Type 0
IsHashed a = (a.tamper_proof_hash == "") ≡ false

-- All texts have hashes of one length, as those of SHA-256 are 64 digits.
abbrev pub SameLength : Encoder → Type 0
SameLength e = (s t : String) → count (e.sha256_hex s) ≡ count (e.sha256_hex t)

module _ (e : Encoder) where
  link_parts :
      (a : AuditLog) (older : List AuditLog)
      → IsHashed a
      → bad_link e a older ≡ none
      → compute_hash e a ≡ a.tamper_proof_hash
  unfolding bad_link verify_hash
  link_parts a [] h k = ground (arith, eq_iff (compute_hash e a) a.tamper_proof_hash)
  link_parts a (p ∷ older) h k = ground (arith, eq_iff (compute_hash e a) a.tamper_proof_hash)

  link_prev :
      (a p : AuditLog) (older : List AuditLog)
      → bad_link e a (p ∷ older) ≡ none
      → a.prev_hash ≡ p.tamper_proof_hash
  unfolding bad_link
  link_prev a p older k = ground (arith, eq_iff a.prev_hash p.tamper_proof_hash)

  first_none : (x y : Option ℤ) → first_of x y ≡ none → (x ≡ none) × (y ≡ none)
  first_none x y h = ground arith

  payload_prev :
      (a b : AuditLog)
      → count a.prev_hash ≡ count b.prev_hash
      → payload e a ≡ payload e b
      → a.prev_hash ≡ b.prev_hash
  unfolding payload
  payload_prev a b c h = (append_inj h c).0

  entry_hash :
      (a : AuditLog) (k : List AuditLog) (n : ℕ)
      → IsHashed a
      → bad_entry e (suc n) (a ∷ k) ≡ none
      → compute_hash e a ≡ a.tamper_proof_hash
  unfolding bad_entry
  entry_hash a k n h x = link_parts a k h (first_none _ _ x).1

  same_text :
      (a b : AuditLog) (k l : List AuditLog) (n m : ℕ)
      → IsHashed a
      → IsHashed b
      → bad_entry e (suc n) (a ∷ k) ≡ none
      → bad_entry e (suc m) (b ∷ l) ≡ none
      → (compute_hash e a ≡ compute_hash e b → payload e a ≡ payload e b)
      → a.tamper_proof_hash ≡ b.tamper_proof_hash
      → payload e a ≡ payload e b
  same_text a b k l n m h g x y c t = c (entry_hash a k n h x ∙ t ∙ sym (entry_hash b l m g y))

  same_prev :
      (a b p q : AuditLog) (k l : List AuditLog) (n m : ℕ)
      → SameLength e
      → IsHashed p
      → IsHashed q
      → bad_entry e (suc (suc n)) (a ∷ p ∷ k) ≡ none
      → bad_entry e (suc (suc m)) (b ∷ q ∷ l) ≡ none
      → payload e a ≡ payload e b
      → p.tamper_proof_hash ≡ q.tamper_proof_hash
  unfolding bad_entry compute_hash
  same_prev a b p q k l n m w h g x y t =
      let (x0, x1) = first_none _ _ x in
      let (y0, y1) = first_none _ _ y in
      let u = link_prev a p k x1 in
      let v = link_prev b q l y1 in
      let c =
        ap count (u ∙ sym (entry_hash p k n h x0))
        ∙ w (payload e p) (payload e q)
        ∙ ap count (entry_hash q l m g y0 ∙ sym v) in
      sym u ∙ payload_prev a b c t ∙ v

  intact_payloads :
      (a b : AuditLog) (k l : List AuditLog)
      → SameLength e
      → length k ≡ length l
      → bad_entry e (suc (length k)) (a ∷ k) ≡ none
      → bad_entry e (suc (length l)) (b ∷ l) ≡ none
      → All IsHashed (a ∷ k)
      → All IsHashed (b ∷ l)
      → NoCollision e (a ∷ k) (b ∷ l)
      → a.tamper_proof_hash ≡ b.tamper_proof_hash
      → map (payload e) (a ∷ k) ≡ map (payload e) (b ∷ l)
  unfolding bad_entry
  intact_payloads a b [] [] w n x y h g c t = rw (same_text a b [] [] 0 0 h.0 g.0 x y c.0 t) refl
  intact_payloads a b (p ∷ k) (q ∷ l) w n x y h g c t =
      let s = same_text a b (p ∷ k) (q ∷ l) (suc (length k)) (suc (length l)) h.0 g.0 x y c.0 t in
      let t' = same_prev a b p q k l (length k) (length l) w h.1.0 g.1.0 x y s in
      let rest =
        intact_payloads p q k l w (omega (arith, n)) (first_none _ _ x).0 (first_none _ _ y).0 h.1
          g.1 c.1 t' in
      λ i. s i ∷ rest i
  intact_payloads a b [] (q ∷ l) w n x y h g c t = ground arith
  intact_payloads a b (p ∷ k) [] w n x y h g c t = ground arith

-- Of two trails of one length that pass the verification whole, whose entries all have hashes and
-- whose latest entries have the same one, all entries have the same text, if hashes have one length
-- and no two of the texts collide: nothing that the text shows can be changed behind the latest hash.
pub verify-payloads :
    (e : Encoder) (a b : AuditLog) (k l : List AuditLog) (n m : ℤ)
    → SameLength e
    → length k ≡ length l
    → (verify_chain_integrity e (pos 0) (record { logs = a ∷ k; counter = n })).0 ≡ true
    → (verify_chain_integrity e (pos 0) (record { logs = b ∷ l; counter = m })).0 ≡ true
    → All IsHashed (a ∷ k)
    → All IsHashed (b ∷ l)
    → NoCollision e (a ∷ k) (b ∷ l)
    → a.tamper_proof_hash ≡ b.tamper_proof_hash
    → map (payload e) (a ∷ k) ≡ map (payload e) (b ∷ l)
unfolding verify_chain_integrity
verify-payloads e a b k l n m w s x y h g c t =
    intact_payloads e a b k l w s (passed _ _ x) (passed _ _ y) h g c t
  where
    passed : (r : Option ℤ) (i : ℕ) → (verdict_of r i).0 ≡ true → r ≡ none
    passed none i h = refl
    passed (some id) i h = ground arith

moved :
    (x y z r : String)
    → (x ++ ("|" ++ y)) ++ ("|" ++ (z ++ r)) ≡ x ++ ("|" ++ ((y ++ ("|" ++ z)) ++ r))
moved x y z r =
    append_assoc x ("|" ++ y) ("|" ++ (z ++ r))
    ∙ ap (◌++◌ x) (
        append_assoc "|" y ("|" ++ (z ++ r))
        ∙ ap (◌++◌ "|") (sym (append_assoc y ("|" ++ z) r ∙ ap (◌++◌ y) (append_assoc "|" z r))))

-- Fields are joined without escapes: a part of the action that follows a bar can be moved to the
-- front of the resource type, and the hash stays the same.
compute_hash-moved :
    (e : Encoder) (a : AuditLog) (x y z : String)
    → compute_hash e (record a { action = x ++ ("|" ++ y); resource_type = z })
      ≡ compute_hash e (record a { action = x; resource_type = y ++ ("|" ++ z) })
unfolding compute_hash payload
compute_hash-moved e a x y z =
    ap
      (λ t.
        e.sha256_hex
          (a.prev_hash ++ ("|" ++ (or_empty a.actor_id ++ ("|" ++ (a.actor_ip ++ ("|" ++ t)))))))
      (moved x y z _)
