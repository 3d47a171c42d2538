-- ===== src/Job/Isolation.antt =====
-- Who sees and changes a job, with the platform's authorizer in place.
use aurora_old.Base.{
  String, Option, none, some, ◌≡◌, refl, ◌∙◌, ap, arith, inl, inr, Bool-cases, Result, ok, err,
  >>=-eq-ok,
}
use aurora_old.Base.Int.{ℤ}
use aurora_old.Identity.Subject.{IdentityError, Subject, is_superadmin, mem_of_has_name}
use aurora_old.Identity.Authorizer.{authorize}
use aurora_old.Identity.Access.{MayAct, authorize_iff}
use aurora_old.Job.Types.{JobError, Job, resource}
use aurora_old.Job.Store.{JobStore, get_by_id, mark_canceled, cancel}
use aurora_old.Job.World.{Engine, World, with_store}
use aurora_old.Job.Engine.{
  verdict, permit, get_job, get_managed, cancel_loaded, cancel_sent, cancel_job, retry_job,
  retry_loaded,
}
use aurora_old.Job.Marks.{amend_refused}

-- The engine asks the platform's authorizer.
abbrev pub Guarded : Engine → Type 0
Guarded e = e.authorizer ≡ some authorize

verdict-none : (o : Option IdentityError) {u : Unit {0}} → verdict o ≡ ok u → o ≡ none
verdict-none none h = refl
verdict-none (some x) h = cc

permit-MayAct :
    (e : Engine) (s : Subject) (action : String) (j : Job) {u : Unit {0}}
    → Guarded e
    → permit e (some s) action j ≡ ok u
    → MayAct s action (some (resource j))
unfolding permit
permit-MayAct e s action j g h = elim (Bool-cases (is_superadmin s)) [
  | inl b ↦ inl (mem_of_has_name "superadmin" s.roles (unfold is_superadmin in b))
  | inr b ↦ (authorize_iff s action (some (resource j))).0 (verdict-none _ (rw (g, b) at h))
]

-- A caller that reads a job finds it in the store and may read it: it is a superadmin, or holds
-- `job:read` in its permissions and scopes and owns the job, unless nobody does or it is staff.
get_job-MayAct :
    (e : Engine) (s : Subject) (id : String) (w : World) {j : Job}
    → Guarded e
    → get_job e (some s) id w ≡ ok j
    → (get_by_id id w.store ≡ ok j) × MayAct s "job:read" (some (resource j))
unfolding get_job
get_job-MayAct e s id w {j} g h =
    let (i, loaded, rest) = >>=-eq-ok (get_by_id id w.store) _ h in
    let (u, allowed, same) = >>=-eq-ok (permit e (some s) "job:read" i) _ rest in
    let e1 : i ≡ j = cc same in
    (rw (← e1) loaded, rw (← e1) (permit-MayAct e s "job:read" i g allowed))

-- A caller that cancels or retries a job may read it and may manage it.
pub get_managed-MayAct :
    (e : Engine) (s : Subject) (id : String) (w : World) {j : Job}
    → Guarded e
    → get_managed e (some s) id w ≡ ok j
    → (get_by_id id w.store ≡ ok j)
      × MayAct s "job:read" (some (resource j))
      × MayAct s "job:manage" (some (resource j))
unfolding get_managed
get_managed-MayAct e s id w {j} g h =
    let (i, loaded, rest) = >>=-eq-ok (get_job e (some s) id w) _ h in
    let (u, allowed, same) = >>=-eq-ok (permit e (some s) "job:manage" i) _ rest in
    let e1 : i ≡ j = cc same in
    let (found, reads) = get_job-MayAct e s id w {j = i} g loaded in
    (rw (← e1) found, rw (← e1) reads, rw (← e1) (permit-MayAct e s "job:manage" i g allowed))

cancel_sent-err :
    (e : Engine) (j : Job) (reason : String) (w : World) (r : JobStore × Result JobError (Unit {0}))
    {x : JobError}
    → (cancel_sent e j reason w r).1 ≡ err x
    → (r.1 ≡ err x) × ((cancel_sent e j reason w r).0 ≡ with_store w r.0)
cancel_sent-err e j reason w (s, err y) h = (h, refl)
cancel_sent-err e j reason w (s, ok u) h = cc

cancel_loaded-err :
    (e : Engine) (now : ℤ) (id reason : String) (w : World) (r : Result JobError Job) {x : JobError}
    → (cancel_loaded e now id reason w r).1 ≡ err x
    → (cancel_loaded e now id reason w r).0 ≡ w
unfolding mark_canceled
cancel_loaded-err e now id reason w (err y) h = refl
cancel_loaded-err e now id reason w (ok j) {x} h =
    let (refused, same) = cancel_sent-err e j reason w (mark_canceled now id reason w.store) h in
    same ∙ ap (with_store w) (amend_refused id w.store (cancel now reason) x refused)

retry_loaded-err :
    (new_id : String) (now : ℤ) (w : World) (r : Result JobError Job) {x : JobError}
    → (retry_loaded new_id now w r).1 ≡ err x
    → (retry_loaded new_id now w r).0 ≡ w
retry_loaded-err new_id now w (err y) h = refl
retry_loaded-err new_id now w (ok j) h = ground arith

-- A cancellation or a retry that returns an error has changed nothing and sent nothing.
pub refused_unchanged :
    (e : Engine) (sub : Option Subject) (new_id : String) (now : ℤ) (id reason : String) (w : World)
    → ((x : JobError)
        → (cancel_job e sub now id reason w).1 ≡ err x
        → (cancel_job e sub now id reason w).0 ≡ w)
      × ((x : JobError)
          → (retry_job e sub new_id now id w).1 ≡ err x
          → (retry_job e sub new_id now id w).0 ≡ w)
unfolding cancel_job retry_job
refused_unchanged e sub new_id now id reason w = (
  λ x h. cancel_loaded-err e now id reason w (get_managed e sub id w) h,
  λ x h. retry_loaded-err new_id now w (get_managed e sub id w) h,
)

cancel_loaded-ok :
    (e : Engine) (now : ℤ) (id reason : String) (w : World) (r : Result JobError Job) {u : Unit {0}}
    → (cancel_loaded e now id reason w r).1 ≡ ok u
    → (j : Job) × (r ≡ ok j)
cancel_loaded-ok e now id reason w (err y) h = cc
cancel_loaded-ok e now id reason w (ok j) h = (j, refl)

-- Where the engine has the platform's authorizer (one without any permits everything), a cancellation that
-- a caller carries through was of a job that it may read and manage.
pub cancel_job-MayAct :
    (e : Engine) (s : Subject) (now : ℤ) (id reason : String) (w : World)
    → Guarded e
    → (cancel_job e (some s) now id reason w).1 ≡ ok tt
    → (j : Job) × (get_by_id id w.store ≡ ok j)
      × MayAct s "job:read" (some (resource j))
      × MayAct s "job:manage" (some (resource j))
unfolding cancel_job
cancel_job-MayAct e s now id reason w g h =
    let (j, m) = cancel_loaded-ok e now id reason w (get_managed e (some s) id w) h in
    let (found, reads, manages) = get_managed-MayAct e s id w {j = j} g m in
    (j, found, reads, manages)
