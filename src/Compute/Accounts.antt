-- ===== src/Compute/Accounts.antt =====
-- internal/app/compute/service.go over internal/app/billing/quota.go: what the calls on instances leave of a
-- tenant's quota.
use aurora_old.Base.{
  String, ◌==◌, ◌&&◌, Option, some, if◌then◌else◌, Result, ok, Bool-cases, ◌≡◌, refl, inl, inr,
  arith,
}
use aurora_old.Base.Int.{ℤ}
use aurora_old.Identity.Subject.{Subject}
use aurora_old.Billing.Quota.{MetricType, BillingError, ResourceSpec}
use aurora_old.Billing.Repo.{Quotas, Catalog}
use aurora_old.Billing.Engine.{reserve, release}
use aurora_old.Billing.Reserve.{usage, more, less, more_if}
use aurora_old.Billing.Rollback.{Room, requested, reserve-usage}
use aurora_old.Billing.Release.{release-reserve}
use aurora_old.Node.Types.{CommandResult}
use aurora_old.Compute.Instance.{InstanceType, Instance, ComputeError}
use aurora_old.Compute.Repo.{InstanceStore}
use aurora_old.Compute.Request.{Services, CreateRequest, checked_request, quota_spec}
use aurora_old.Compute.Create.{
  Compute, create_instance, after_reserve, after_command, command_done, command_failed,
  create_command, succeeded, reserved, returned,
}
use aurora_old.Compute.Stages.{holds_quota, stored, reservation, after_reserve-cases}

abbrev pub spec_of : CreateRequest → ResourceSpec
spec_of q = quota_spec q.cpu_cores q.memory_bytes q.storage_bytes

-- An instance's quota has no addresses, so what is given back is what was taken.
back_again :
    (now later : ℤ) (tenant : String) (q : CreateRequest) (c : Catalog) (m : Quotas) (t : String)
    (k : MetricType)
    → Room tenant (spec_of q) m
    → (reserve now tenant (spec_of q) c m).1 ≡ ok tt
    → usage t k (release later tenant (spec_of q) (reserve now tenant (spec_of q) c m).0)
      ≡ usage t k m
unfolding quota_spec less
back_again now later tenant q c m t k room g =
    let x = release-reserve now later tenant (spec_of q) c m t k room (omega arith) (rw g refl) in
    ground arith

module _ (v : Services) (sub : Subject) (now : ℤ) (q : CreateRequest) (t : InstanceType)
    (new_id correlation : String) (w : Compute) (c : Catalog) where
  abbrev Counted : String → MetricType → Compute × Result ComputeError Instance → Type 0
  Counted tenant k (w', r) = usage tenant k w'.quotas ≡ (
      if holds_quota r && sub.user_id == tenant
      then more (requested (spec_of q) k) (usage tenant k w.quotas)
      else usage tenant k w.quotas)

  after_command-Counted :
      (later : ℤ) (tenant : String) (k : MetricType) (i : Instance) (res : Option CommandResult)
      (s : InstanceStore) (m : Quotas)
      → usage tenant k m ≡ (
          if sub.user_id == tenant
          then more (requested (spec_of q) k) (usage tenant k w.quotas)
          else usage tenant k w.quotas)
      → usage tenant k (returned v.quotas later sub.user_id (spec_of q) m) ≡ usage tenant k w.quotas
      → Counted tenant k (after_command v sub later q i res (record w { quotas = m; store = s }))
  unfolding after_command command_done command_failed
  after_command-Counted later tenant k i res s m taken back = elim (Bool-cases (succeeded res)) [
    | inl e ↦ rw e taken
    | inr e ↦ rw e back
  ]

  abbrev reserves : Quotas × Result BillingError (Unit {0})
  reserves = reservation v sub now q t new_id correlation w

  reserves-taken :
      (tenant : String) (k : MetricType)
      → v.quotas ≡ some c
      → Room sub.user_id (spec_of q) w.quotas
      → usage tenant k reserves.0
        ≡ more_if reserves.1
            (sub.user_id == tenant)
            (requested (spec_of q) k)
            (usage tenant k w.quotas)
  unfolding reserved
  reserves-taken tenant k vc room =
      rw vc (reserve-usage now sub.user_id (spec_of q) c w.quotas tenant k room)

  reserves-back :
      (later : ℤ) (tenant : String) (k : MetricType)
      → v.quotas ≡ some c
      → Room sub.user_id (spec_of q) w.quotas
      → reserves.1 ≡ ok tt
      → usage tenant k (returned v.quotas later sub.user_id (spec_of q) reserves.0)
        ≡ usage tenant k w.quotas
  unfolding reserved returned
  reserves-back later tenant k vc room g =
      rw vc (back_again now later sub.user_id q c w.quotas tenant k room (rw vc at g))

  after_reserve-Counted :
      (tenant : String) (k : MetricType)
      → v.quotas ≡ some c
      → Room sub.user_id (spec_of q) w.quotas
      → Counted tenant k (after_reserve v sub now q t new_id correlation w reserves)
  after_reserve-Counted tenant k vc room =
      let taken = reserves-taken tenant k vc room in
      elim (after_reserve-cases v sub now q t new_id correlation w) [
        | inl (e, g, x) ↦ rw x (rw g at taken)
        | inr (inl (e, g, b, x)) ↦ rw (x, b) (ground arith)
        | inr (inr (i, g, p, x)) ↦ rw x (
            after_command-Counted (v.answered_at now i.node_id (create_command q i correlation))
              tenant k i (v.send i.node_id (create_command q i correlation)) (stored i w.store)
              reserves.0 (ground arith)
              (reserves-back (v.answered_at now i.node_id (create_command q i correlation)) tenant k
                vc room g))
      ]

-- A creation whose request passes the checks, under a quota engine and where the caller's usages are at
-- least 0 and leave room for it in 64 bits, takes exactly the quota of an instance of its sizes if it
-- succeeds and nothing if the quota is refused or the command fails; if a step between these fails
-- (the node, the template, the cloud-init, the name that exists), it takes the quota too and keeps
-- it, though there is no instance.
pub create_instance-usage :
    (v : Services) (sub : Subject) (now : ℤ) (q q' : CreateRequest) (t : InstanceType)
    (new_id correlation : String) (w : Compute) (c : Catalog) (tenant : String) (k : MetricType)
    → v.quotas ≡ some c
    → checked_request v sub q ≡ ok (q', t)
    → Room sub.user_id (spec_of q') w.quotas
    → let (w', r) = create_instance v sub now q new_id correlation w in
      usage tenant k w'.quotas ≡ (
        if holds_quota r && sub.user_id == tenant
        then more (requested (spec_of q') k) (usage tenant k w.quotas)
        else usage tenant k w.quotas)
unfolding create_instance
create_instance-usage v sub now q q' t new_id correlation w c tenant k vc ck room =
    rw ck (after_reserve-Counted v sub now q' t new_id correlation w c tenant k vc room)
