-- ===== src/Job/Endings.antt =====
-- internal/app/job/engine.go: how a worker's tick leaves the job that it claimed.
use mathlib.Core.List.{Memᴰ}
use aurora_old.Base.{
  String, ◌==◌, eq_iff, none, some, [], ◌∷◌, map, ◌≡◌, ◌≢◌, ◌∙◌, refl, sym, ap, arith, inl, inr,
  Bool-cases,
}
use aurora_old.Base.Int.{ℤ}
use aurora_old.Base.Assoc.{Assoc, lookup, Each, IsMap, Each-lookup}
use aurora_old.Job.Types.{Job}
use aurora_old.Job.Store.{claim_next_pending}
use aurora_old.Job.World.{Handler, Engine, World, with_store}
use aurora_old.Job.Worker.{
  Readings, report, execute_job, run_claimed, claim_and_run, process_next_job,
}
use aurora_old.Job.Claims.{IsListed, claim-Leased}
use aurora_old.Job.Finishes.{IsOnly, IsOnly-trans, report-IsOnly, IsEnded, IsIdle, finish-IsEnded}

handler_of :
    (t : String) (l : Assoc Handler)
    → Memᴰ t (map (λ h. h.0) l)
    → (h : Handler) × (lookup t l ≡ some h)
unfolding lookup
handler_of t [] m = elim m [ ]
handler_of t ((u, h) ∷ l) (Memᴰ.head x) = (h, rw ((eq_iff u t).1 (sym x)) refl)
handler_of t ((u, h) ∷ l) (Memᴰ.tail m) = elim (Bool-cases (u == t)) [
  | inl b ↦ (h, rw b refl)
  | inr b ↦ let (g, x) = handler_of t l m in (g, rw b x)
]

listed_handler :
    (j : Job) (l : Assoc Handler)
    → l ≢ []
    → IsListed (map (λ h. h.0) l) j
    → (h : Handler) × (lookup j.job_type l ≡ some h)
listed_handler j [] n x = absurd (n refl)
listed_handler j (e ∷ l) n (inl x) = cc
listed_handler j (e ∷ l) n (inr m) = handler_of j.job_type (e ∷ l) m

run_claimed-IsEnded :
    (e : Engine) (r : Readings) (j : Job) (w : World) (h : Handler)
    → lookup j.id w.store.jobs ≡ some j
    → lookup j.job_type e.handlers ≡ some h
    → (k : Job) × IsOnly j.id k w.store.jobs (run_claimed e r w (some j)).store.jobs
      × IsEnded r j (h j).outcome k
      × IsIdle k
unfolding execute_job
run_claimed-IsEnded e r j w h f g =
    let (p, a) = report-IsOnly j.id (h j).progress w j f in
    let (k, b, c, d) = finish-IsEnded e r j p (h j).outcome (report j.id (h j).progress w) a.0 in
    (k, rw g (IsOnly-trans j.id _ k w.store.jobs _ _ a b), c, d)

tick-claim :
    (e : Engine) (now : ℤ) (r : Readings) (w : World)
    → e.handlers ≢ []
    → let (s, claimed) =
        claim_next_pending now e.worker_id e.lease_duration (map (λ h. h.0) e.handlers) w.store in
      process_next_job e now r w ≡ run_claimed e r (with_store w s) claimed
unfolding process_next_job
tick-claim e now r w n = go e.handlers n
  where
    go :
        (l : Assoc Handler)
        → l ≢ []
        → let (s, claimed) =
            claim_next_pending now e.worker_id e.lease_duration (map (λ h. h.0) l) w.store in
          claim_and_run e now r w (map (λ h. h.0) l) ≡ run_claimed e r (with_store w s) claimed
    go [] n = absurd (n refl)
    go (x ∷ l) n = refl

-- A tick of a worker that has handlers, in a repository that stores each job once, under its
-- identifier, and with nothing else in between. Where the claim returns a job, there is a handler of
-- its type, and afterwards nobody holds the stored job, which the outcome of this handler decides: a
-- return makes it succeeded, with the result and no error; a failure or a panic is counted, its
-- text is the job's error, and within the retry budget the job waits for a retry until the
-- backoff of that many failures is over, beyond the budget it has failed. Every other job is as
-- before. Where the claim comes back empty, nothing changes.
pub process_next_job-IsEnded :
    (e : Engine) (now : ℤ) (r : Readings) (w : World)
    → IsMap w.store.jobs
    → Each (λ k j. j.id ≡ k) w.store.jobs
    → e.handlers ≢ []
    → let claimed =
        (claim_next_pending now e.worker_id e.lease_duration
          (map (λ h. h.0) e.handlers)
          w.store).1 in
      let after = process_next_job e now r w in
      ((j : Job)
        → claimed ≡ some j
        → (h : Handler) × (k : Job) × (lookup j.job_type e.handlers ≡ some h)
          × IsOnly j.id k w.store.jobs after.store.jobs
          × IsEnded r j (h j).outcome k
          × IsIdle k)
      × (claimed ≡ none → after ≡ w)
process_next_job-IsEnded e now r w u keyed n =
    let ts = map (λ h. h.0) e.handlers in
    let c = claim_next_pending now e.worker_id e.lease_duration ts w.store in
    let (given, empty) = claim-Leased now e.worker_id e.lease_duration ts w.store u in
    let t = tick-claim e now r w n in
    (
      λ j x.
          let (i, old, found, listed, up, taken, others) = given j x in
          let same_id : j.id ≡ i =
            ap (λ a. a.id) taken.0
            ∙ Each-lookup (λ k j. j.id ≡ k) i {v = old} w.store.jobs keyed found in
          let same_type : j.job_type ≡ old.job_type = ap (λ a. a.job_type) taken.0 in
          let (h, y) = listed_handler old e.handlers n listed in
          let f : lookup j.id c.0.jobs ≡ some j =
            others j.id ∙ rw ((eq_iff i j.id).1 (sym same_id)) refl in
          let o : IsOnly j.id j w.store.jobs c.0.jobs =
            (f, λ m d. let a = others m in ground (arith, a, same_id, eq_iff i m)) in
          let (k, a, b, d) =
            run_claimed-IsEnded e r j (with_store w c.0) h f
              (ap (λ a. lookup a e.handlers) same_type ∙ y) in
          (
            h,
            k,
            ap (λ a. lookup a e.handlers) same_type ∙ y,
            rw (t, x) (IsOnly-trans j.id j k w.store.jobs c.0.jobs _ o a),
            b,
            d,
          ),
      λ x. t ∙ rw (x, (empty x).0) refl,
    )
