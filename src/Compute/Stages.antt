-- ===== src/Compute/Stages.antt =====
-- internal/app/compute/service.go: how far CreateInstance comes, case by case.
use aurora_old.Base.{
  String, Bool, true, false, Option-cases, List, [], ◌∷◌, ◌++◌, length, Result, ok, err,
  Result-cases, ◌>>=◌, ◌≡◌, ◌⊎◌, inl, inr, refl, arith,
}
use aurora_old.Base.Int.{ℤ}
use aurora_old.Base.Assoc.{lookup, insert}
use aurora_old.Identity.Subject.{Subject}
use aurora_old.Billing.Quota.{BillingError}
use aurora_old.Billing.Repo.{Quotas}
use aurora_old.Node.Types.{Node}
use aurora_old.Compute.Instance.{
  InstanceType, Instance, ComputeError, over_quota, instance_operation_failed,
  instance_already_exists,
}
use aurora_old.Compute.Repo.{InstanceStore, create}
use aurora_old.Compute.Request.{
  Services, CreateRequest, first_schedulable, target_node, resolved_image, final_config, prepared,
  quota_spec,
}
use aurora_old.Compute.Create.{Compute, after_reserve, after_command, create_command, reserved}

-- The errors of the steps between the reservation and the command.
abbrev pub in_between : ComputeError → Bool
in_between (over_quota e) = false
in_between instance_operation_failed = false
in_between _ = true

-- The results after which a reservation still stands.
abbrev pub holds_quota {ℓ} : {A : Type ℓ} → Result ComputeError A → Bool
holds_quota (ok _) = true
holds_quota (err e) = in_between e

holds_quota->>= {ℓ κ} :
    {A : Type ℓ} {B : Type κ} (r : Result ComputeError A) (f : A → Result ComputeError B)
    → holds_quota r ≡ true
    → ((a : A) → holds_quota (f a) ≡ true)
    → holds_quota (r >>= f) ≡ true
holds_quota->>= (ok a) f h k = k a
holds_quota->>= (err e) f h k = h

first_between : (v : Services) (l : List Node) → holds_quota (first_schedulable l) ≡ true
first_between v [] = refl
first_between v (n ∷ l) = ground (arith, first_between v l)

node_between :
    (v : Services) (s : InstanceStore) (q : CreateRequest) (t : InstanceType)
    → holds_quota (target_node v s q t) ≡ true
unfolding target_node
node_between v s q t = ground (arith, first_between v v.nodes)

image_between :
    (v : Services) (sub : Subject) (q : CreateRequest) (t : InstanceType) (n : Node)
    → holds_quota (resolved_image v sub q t n) ≡ true
unfolding resolved_image
image_between v sub q t n = ground arith

config_between :
    (v : Services) (sub : Subject) (q : CreateRequest) → holds_quota (final_config v sub q) ≡ true
unfolding final_config
config_between v sub q = ground arith

prepared-between :
    (v : Services) (sub : Subject) (now : ℤ) (new_id : String) (s : InstanceStore)
    (q : CreateRequest) (t : InstanceType)
    → holds_quota (prepared v sub now new_id s q t) ≡ true
unfolding prepared
prepared-between v sub now new_id s q t = holds_quota->>= _ _ (node_between v s q t) (λ n.
    holds_quota->>= _ _ (image_between v sub q t n)
      (λ i. holds_quota->>= _ _ (config_between v sub q) (λ c. refl)))

unfoldable pub stored : Instance → InstanceStore → InstanceStore
stored i s = record {
  heap = s.heap ++ (i ∷ []);
  instances = insert i.id (length s.heap) s.instances;
  by_name = insert i.name (length s.heap) s.by_name;
}

module _ (v : Services) (sub : Subject) (now : ℤ) (q : CreateRequest) (t : InstanceType)
    (new_id correlation : String) (w : Compute) where
  abbrev pub reservation : Quotas × Result BillingError (Unit {0})
  reservation =
      reserved v.quotas now sub.user_id (quota_spec q.cpu_cores q.memory_bytes q.storage_bytes)
        w.quotas

  abbrev pub Refused : Compute × Result ComputeError Instance → Type 0
  Refused r =
      (e : BillingError) × (reservation.1 ≡ err e)
      × (r ≡ (record w { quotas = reservation.0 }, err (over_quota e)))

  abbrev pub Stuck : Compute × Result ComputeError Instance → Type 0
  Stuck r =
      (e : ComputeError) × (reservation.1 ≡ ok tt)
      × (in_between e ≡ true)
      × (r ≡ (record w { quotas = reservation.0 }, err e))

  abbrev pub Sent : Compute × Result ComputeError Instance → Type 0
  Sent r =
      (i : Instance) × (reservation.1 ≡ ok tt)
      × (prepared v sub now new_id w.store q t ≡ ok i)
      × (r
          ≡ after_command v sub (v.answered_at now i.node_id (create_command q i correlation)) q i
              (v.send i.node_id (create_command q i correlation))
              (record w { quotas = reservation.0; store = stored i w.store }))

  pub after_reserve-cases :
      let r = after_reserve v sub now q t new_id correlation w reservation in
      Refused r ⊎ (Stuck r ⊎ Sent r)
  unfolding create stored
  after_reserve-cases = elim (Result-cases reservation.1) [
    | inr (e, g) ↦ inl (e, g, rw (g, after_reserve) refl)
    | inl (u, g) ↦ elim (Result-cases (prepared v sub now new_id w.store q t)) [
      | inr (e, p) ↦
          inr (inl (e, g, rw p at (prepared-between v sub now new_id w.store q t), rw (g, p) refl))
      | inl (i, p) ↦ elim (Option-cases (lookup i.name w.store.by_name)) [
        | inr (n, l) ↦ inr (inl (instance_already_exists, g, refl, rw (g, p, l) refl))
        | inl l ↦ inr (inr (i, g, p, rw (g, p, l) refl))
      ]
    ]
  ]
