-- ===== src/Compute/Deletion.antt =====
-- internal/app/compute/service.go: instances whose creation succeeded, and the deletion of those whose creation
-- failed at the node.
use aurora_old.Base.{
  String, ◌==◌, Bool, Option, none, some, if◌then◌else◌, ok, err, Result-cases, ◌≡◌, ◌⊎◌, ◌∙◌, ap,
  sym, refl, inl, inr, arith,
}
use aurora_old.Base.Int.{ℤ}
use aurora_old.Base.Assoc.{lookup}
use aurora_old.Identity.Subject.{Subject}
use aurora_old.Billing.Quota.{MetricType, ResourceSpec}
use aurora_old.Billing.Repo.{Quotas, Catalog}
use aurora_old.Billing.Engine.{release}
use aurora_old.Billing.Reserve.{usage, less}
use aurora_old.Billing.Rollback.{Room}
use aurora_old.Billing.Release.{less_if, small, released, release-usage}
use aurora_old.Node.Types.{Command, CommandResult}
use aurora_old.Compute.Instance.{
  InstanceType, Status, Instance, running, stopped, error, instance_operation_failed, resource,
}
use aurora_old.Compute.Repo.{at_pointer, get_by_id, delete, with_status}
use aurora_old.Compute.Request.{Services, CreateRequest, with_defaults, checked_request, quota_spec}
use aurora_old.Compute.Create.{Compute, create_instance, create_command, final_status, returned}
use aurora_old.Compute.Service.{delete_instance, delete_loaded, forgotten, loaded}
use aurora_old.Compute.Consistent.{found_ok}
use aurora_old.Compute.Accounts.{spec_of, create_instance-usage}
use aurora_old.Compute.Outcome.{prepared_fields, failed_instance, done_instance, at_time}

checked_name :
    (v : Services) (sub : Subject) (q q' : CreateRequest) (t : InstanceType)
    → checked_request v sub q ≡ ok (q', t)
    → q'.name ≡ v.trim_lower q.name
unfolding checked_request with_defaults
checked_name v sub q q' t h = ground arith

final_status_cases :
    (q : CreateRequest) (res : Option CommandResult)
    → (final_status q res ≡ running) ⊎ (final_status q res ≡ stopped)
unfolding final_status
final_status_cases q res = ground arith

ends : {x y : Status} → ((x ≡ running) ⊎ (x ≡ stopped)) → y ≡ x → (y ≡ running) ⊎ (y ≡ stopped)
ends (inl a) e = inl (e ∙ a)
ends (inr a) e = inr (e ∙ a)

-- A creation that returns an instance has stored it: the identifier of the call finds what is returned,
-- but for the time of its last update, which in the repository is the reading of the clock after the
-- answer of the instance's node to a command; the instance is the caller's, has the trimmed name of the request, and runs or is stopped.
pub create_instance-stored :
    (v : Services) (sub : Subject) (now : ℤ) (q : CreateRequest) (new_id correlation : String)
    (w : Compute) (j : Instance)
    → (create_instance v sub now q new_id correlation w).1 ≡ ok j
    → ((c : Command) × (get_by_id new_id (create_instance v sub now q new_id correlation w).0.store
          ≡ ok (at_time (v.answered_at now j.node_id c) j)))
      × (j.id ≡ new_id)
      × (j.user_id ≡ sub.user_id)
      × (j.name ≡ v.trim_lower q.name)
      × ((j.status ≡ running) ⊎ (j.status ≡ stopped))
unfolding create_instance final_status
create_instance-stored v sub now q new_id correlation w j h =
    elim (Result-cases (checked_request v sub q)) [
      | inr (e, ck) ↦ let c : err e ≡ ok j = rw ck at h in cc
      | inl ((q', t), ck) ↦
          let (i, p, g, s) = done_instance v sub now q new_id correlation w q' t ck j h in
          let (a, b, n, x) = prepared_fields v sub now q new_id correlation w q' t ck i p in
          (
            (
              create_command q' i correlation,
              g
                  ∙ ap (λ n. ok (at_time (v.answered_at now n (create_command q' i correlation)) j))
                      (sym (ap (λ k. k.node_id) s)),
            ),
            ap (λ k. k.id) s ∙ a,
            ap (λ k. k.user_id) s ∙ b,
            ap (λ k. k.name) s ∙ n ∙ checked_name v sub q q' t ck,
            ends (final_status_cases q' _) (ap (λ k. k.status) s),
          )
    ]

deleted_quotas :
    (v : Services) (actor : Subject) (later : ℤ) (id : String) (force : Bool) (i : Instance)
    (w : Compute)
    → get_by_id id w.store ≡ ok i
    → v.authorizer (some actor) "instance:delete" (some (resource i)) ≡ none
    → (delete_instance v actor later id force w).0.quotas
      ≡ returned v.quotas later i.user_id
          (quota_spec i.cpu_cores i.memory_bytes i.storage_bytes)
          w.quotas
unfolding delete_instance loaded delete forgotten get_by_id
deleted_quotas v actor later id force i w g a =
    let o = found_ok (at_pointer (lookup id w.store.instances) w.store.heap) g in
    rw (g, a) (rw (delete_loaded, o) refl)

returned-usage :
    (o : Option Catalog) (later : ℤ) (user : String) (spec : ResourceSpec) (m : Quotas)
    (c : Catalog) (tenant : String) (k : MetricType)
    → o ≡ some c
    → usage tenant k (returned o later user spec m) ≡ usage tenant k (release later user spec m)
unfolding returned
returned-usage o later user spec m c tenant k e = rw e refl

-- Under a quota engine and where the caller's usages are at least 0 and leave room for the request in
-- 64 bits: once a creation has failed at the node, a permitted deletion of the instance that it leaves
-- gives the quota of the request back a second time. The usage of the creator is then less by this
-- quota, or 0 if that is more, than before the creation; that of other tenants is the same.
pub delete_instance-failed :
    (v : Services) (sub actor : Subject) (now later : ℤ) (q q' : CreateRequest) (t : InstanceType)
    (new_id correlation : String) (w : Compute) (force : Bool) (c : Catalog) (tenant : String)
    (k : MetricType)
    → v.quotas ≡ some c
    → checked_request v sub q ≡ ok (q', t)
    → Room sub.user_id (spec_of q') w.quotas
    → (create_instance v sub now q new_id correlation w).1 ≡ err instance_operation_failed
    → v.authorizer (some actor) "instance:delete" (
        some (record {
          type_name = "instance";
          id = new_id;
          owner_id = sub.user_id;
          location_id = "";
        }))
      ≡ none
    → let w' = (create_instance v sub now q new_id correlation w).0 in
      usage tenant k (delete_instance v actor later new_id force w').0.quotas ≡ (
        if sub.user_id == tenant
        then less (released (spec_of q') k) (usage tenant k w.quotas)
        else usage tenant k w.quotas)
unfolding returned with_status resource quota_spec
delete_instance-failed v sub actor now later q q' t new_id correlation w force c tenant k vc ck room
      h a =
    let (w', r) = create_instance v sub now q new_id correlation w in
    let (i, p, g) = failed_instance v sub now q new_id correlation w q' t ck h in
    let (x, y, n, z) = prepared_fields v sub now q new_id correlation w q' t ck i p in
    let d =
      deleted_quotas v actor later new_id force
        (with_status (v.answered_at now i.node_id (create_command q' i correlation)) error "" "" i)
        w' g (rw (x, y) a) in
    let kept =
      rw h at (create_instance-usage v sub now q q' t new_id correlation w c tenant k vc ck room) in
    let back =
      release-usage later sub.user_id (spec_of q') w'.quotas tenant k
        (small sub.user_id (spec_of q') w.quotas room (omega arith)) in
    ap (usage tenant k) (rw (y, z) at d)
    ∙ returned-usage v.quotas later sub.user_id (spec_of q') w'.quotas c tenant k vc
    ∙ (back ∙ ap (less_if (sub.user_id == tenant) (released (spec_of q') k)) kept)
