-- ===== src/Billing/Tests.antt =====
-- The quota engine on a small catalog: one plan, two tenants, some resources in use.
use aurora_old.Base.{String, true, [], ◌∷◌, is_ok, ◌≡◌, ◌↔◌, refl, arith}
use aurora_old.Base.Int.{ℤ, pos, ◌≤ℤ◌, ◌+ℤ◌, ◌-ℤ◌, int64}
use aurora_old.Base.Assoc.{lookup}
use aurora_old.Billing.Quota.{
  MetricType, vcpu_hours, ipv4_addresses, instance_count, Quota, ResourceSpec, Plan,
}
use aurora_old.Billing.Repo.{
  QuotaEntry, Quotas, Catalog, subscription_by_tenant, plan_by_id, reserve_quota, over_limit,
  with_limit, use_quota, find_quota, same_key, put_quota, give_back, release_quota, list_plans,
}
use aurora_old.Billing.Engine.{
  check_quota, reserve, release, get_tenant_plan, reserve_all, claim, reserve_vcpu, reserve_memory,
  reserve_storage, undo,
}
use aurora_old.Billing.Reserve.{usage, more, less}
use aurora_old.Billing.Rollback.{Room, reserve-usage}
use aurora_old.Billing.Release.{release-reserve}
use aurora_old.Billing.Kept.{IsOverKept, reserve-kept}
use aurora_old.Billing.Limits.{check_quota-reserve, reserve-within}

abbrev starter : Plan
starter = record {
  id = "plan-starter";
  slug = "starter";
  maximum_instances = pos 2;
  maximum_vcpu = pos 4;
  maximum_memory_mb = pos 8192;
  maximum_storage_mb = pos 51200;
  active = true;
}

abbrev catalog : Catalog
catalog = record {
  plans = ("plan-starter", starter) ∷ [];
  subscriptions =
      ("sub-1", record { id = "sub-1"; tenant_id = "acme"; plan_id = "plan-starter" }) ∷ [];
  tenant_subs = ("acme", "sub-1") ∷ [];
}

abbrev used : String → MetricType → ℤ → QuotaEntry
used tenant metric n = record {
  tenant = tenant;
  metric = metric;
  quota = record {
    tenant_id = tenant;
    metric = metric;
    limit = pos 0;
    current_usage = n;
    reset_period = "none";
    updated_at = pos 0;
  };
}

abbrev in_use : Quotas
in_use =
    used "acme" instance_count (pos 1)
    ∷ used "acme" vcpu_hours (pos 1)
    ∷ used "acme" ipv4_addresses (pos 3)
    ∷ used "globex" instance_count (pos 7)
    ∷ []

abbrev small : ResourceSpec
small = record {
  instances = pos 1;
  vcpu = pos 2;
  memory_mb = pos 2048;
  storage_mb = pos 20480;
  ipv4 = pos 1;
  snapshots = pos 0;
  backups = pos 0;
}

-- Its storage is too large, so that three reservations are undone.
abbrev large : ResourceSpec
large = record small { storage_mb = pos 90000 }

small-Room : Room "acme" small in_use
unfolding usage find_quota same_key ◌+ℤ◌
small-Room k = ground arith

large-Room : Room "acme" large in_use
unfolding usage find_quota same_key ◌+ℤ◌
large-Room k = ground arith

reserve-usage_example :
    usage "acme" vcpu_hours (reserve (pos 9) "acme" large catalog in_use).0 ≡ pos 1
unfolding usage reserve get_tenant_plan subscription_by_tenant lookup plan_by_id reserve_all claim
    reserve_quota over_limit with_limit use_quota find_quota same_key int64 ◌+ℤ◌ reserve_vcpu
    put_quota reserve_memory reserve_storage ◌-ℤ◌ undo give_back release_quota list_plans more less
reserve-usage_example =
    reserve-usage (pos 9) "acme" large catalog in_use "acme" vcpu_hours large-Room

reserve-usage_taken :
    usage "acme" vcpu_hours (reserve (pos 9) "acme" small catalog in_use).0 ≡ pos 3
unfolding usage reserve get_tenant_plan subscription_by_tenant lookup plan_by_id reserve_all claim
    reserve_quota over_limit with_limit use_quota find_quota same_key int64 ◌+ℤ◌ reserve_vcpu
    put_quota reserve_memory reserve_storage ◌-ℤ◌ undo give_back release_quota list_plans more less
reserve-usage_taken = refl

release-reserve_example :
    usage "acme" vcpu_hours
      (release (pos 10) "acme" small (reserve (pos 9) "acme" small catalog in_use).0)
    ≡ pos 1
unfolding usage reserve get_tenant_plan subscription_by_tenant lookup plan_by_id reserve_all claim
    reserve_quota over_limit with_limit use_quota find_quota same_key int64 ◌+ℤ◌ reserve_vcpu
    put_quota reserve_memory reserve_storage ◌-ℤ◌ undo give_back release_quota list_plans more less
release-reserve_example =
    release-reserve (pos 9) (pos 10) "acme" small catalog in_use "acme" vcpu_hours small-Room
      (omega arith) refl

check_quota-reserve_example :
    is_ok (check_quota "acme" large catalog in_use)
    ≡ is_ok (reserve (pos 9) "acme" large catalog in_use).1
unfolding get_tenant_plan subscription_by_tenant lookup plan_by_id
check_quota-reserve_example =
    check_quota-reserve (pos 9) "acme" large starter catalog in_use refl
      (omega arith, omega arith, omega arith, omega arith)

reserve-within_example :
    usage "acme" vcpu_hours (reserve (pos 9) "acme" small catalog in_use).0 ≤ℤ pos 4
unfolding usage reserve get_tenant_plan subscription_by_tenant lookup plan_by_id reserve_all claim
    reserve_quota over_limit with_limit use_quota find_quota same_key int64 ◌+ℤ◌ reserve_vcpu
    put_quota reserve_memory reserve_storage ◌-ℤ◌ undo give_back release_quota list_plans more less
reserve-within_example =
    reserve-within (pos 9) "acme" small starter catalog in_use vcpu_hours (pos 4) refl
      (omega arith, omega arith, omega arith, omega arith) small-Room refl (omega arith) refl

abbrev kept_quota : Quota
kept_quota = record {
  tenant_id = "acme";
  metric = vcpu_hours;
  limit = pos 4;
  current_usage = pos 3;
  reset_period = "none";
  updated_at = pos 0;
}

abbrev kept : Quotas
kept = record { tenant = "acme"; metric = vcpu_hours; quota = kept_quota } ∷ []

-- The plan no longer limits the virtual processors.
abbrev open_plan : Plan
open_plan = record starter { maximum_vcpu = pos 0 }

abbrev open_catalog : Catalog
open_catalog = record catalog { plans = ("plan-starter", open_plan) ∷ [] }

abbrev two_vcpu : ResourceSpec
two_vcpu = record small { vcpu = pos 2 }

reserve-kept_example : (is_ok (reserve (pos 9) "acme" two_vcpu open_catalog kept).1 ≡ true) ↔ (
    (is_ok (check_quota "acme" two_vcpu open_catalog kept) ≡ true)
    × ((k : MetricType) → ¬ (IsOverKept "acme" two_vcpu open_plan kept k)))
unfolding get_tenant_plan subscription_by_tenant plan_by_id lookup
reserve-kept_example = reserve-kept (pos 9) "acme" two_vcpu open_plan open_catalog kept refl
