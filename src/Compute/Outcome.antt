-- ===== src/Compute/Outcome.antt =====
-- internal/app/compute/service.go: what a creation leaves in the repository, and what the deletion of a
-- failed one does to the quota.
use aurora_old.Base.{
  String, ◌==◌, eq_iff, Bool, true, false, Option, some, [], ◌∷◌, ◌++◌, length, get_elem?,
  get_elem?-set, set, if◌then◌else◌, Result, ok, err, Bool-cases, ◌≡◌, ◌⊎◌, ◌∙◌, ap, sym, refl, inl,
  inr, arith,
}
use aurora_old.Base.Int.{ℤ}
use aurora_old.Base.Assoc.{lookup, insert, lookup-insert_self}
use aurora_old.Identity.Subject.{Subject}
use aurora_old.Node.Types.{CommandResult}
use aurora_old.Compute.Instance.{
  InstanceType, Status, Instance, error, ComputeError, instance_operation_failed,
}
use aurora_old.Compute.Repo.{InstanceStore, get_by_id, write_at, with_status, update_status}
use aurora_old.Compute.Request.{
  Services, CreateRequest, checked_request, prepared, prepared-ok, new_instance, quota_spec,
}
use aurora_old.Compute.Create.{
  Compute, create_instance, after_command, command_done, command_failed, create_command, succeeded,
  final_status, text_at,
}
use aurora_old.Compute.Sides.{get_elem?-last, get_elem?-bound}
use aurora_old.Compute.Stages.{in_between, stored, after_reserve-cases, Refused, Stuck, Sent}
use aurora_old.Compute.Accounts.{spec_of}

-- The new instance after a write of its status.
update_status-stored :
    (now : ℤ) (id : String) (i : Instance) (t : Status) (ip4 ip6 : String) (s : InstanceStore)
    → i.id ≡ id
    → get_by_id id (update_status now i.id t ip4 ip6 (stored i s)).0
      ≡ ok (with_status now t ip4 ip6 i)
unfolding get_by_id update_status stored
update_status-stored now id i t ip4 ip6 s h =
    let l = lookup-insert_self i.id (length s.heap) s.instances in
    let l' : lookup id (insert i.id (length s.heap) s.instances) ≡ some (length s.heap) =
      ap (λ k. lookup k (insert i.id (length s.heap) s.instances)) (sym h) ∙ l in
    let g = get_elem?-last s.heap i in
    let b : get_elem? (set (s.heap ++ (i ∷ [])) (length s.heap) (with_status now t ip4 ip6 i))
          (length s.heap)
        ≡ some (with_status now t ip4 ip6 i) =
      get_elem?-set (s.heap ++ (i ∷ [])) (length s.heap) (length s.heap)
        (with_status now t ip4 ip6 i) (get_elem?-bound _ _ i g)
      ∙ ground arith in
    rw (l, write_at, g, l', b) refl

kept_text : (t : String) → (if t == "" then "" else t) ≡ t
kept_text t = ground (arith, eq_iff t "")

one_result : (r : Result ComputeError Instance) {a b : Instance} → r ≡ ok a → r ≡ ok b → a ≡ b
one_result r e f = cc

-- The instance as last updated at a time.
abbrev pub at_time : ℤ → Instance → Instance
at_time t j = record j { updated_at = t }

-- The results of a call that came to its command.
abbrev came_to_node : Result ComputeError Instance → Bool
came_to_node (ok _) = true
came_to_node (err instance_operation_failed) = true
came_to_node (err _) = false

stuck_before : (e : ComputeError) → in_between e ≡ true → came_to_node (err e) ≡ false
stuck_before e h = ground arith

module _ (v : Services) (sub : Subject) (now : ℤ) (q : CreateRequest) (new_id correlation : String)
    (w : Compute) (q' : CreateRequest) (t : InstanceType)
    (ck : checked_request v sub q ≡ ok (q', t)) where
  sent :
      came_to_node (create_instance v sub now q new_id correlation w).1 ≡ true
      → Sent v sub now q' t new_id correlation w (create_instance v sub now q new_id correlation w)
  unfolding create_instance
  sent h = rw ck (go (after_reserve-cases v sub now q' t new_id correlation w) (rw ck at h))
    where
      go :
          {r : Compute × Result ComputeError Instance}
          → (Refused v sub now q' t new_id correlation w r
              ⊎ (Stuck v sub now q' t new_id correlation w r
                  ⊎ Sent v sub now q' t new_id correlation w r))
          → came_to_node r.1 ≡ true
          → Sent v sub now q' t new_id correlation w r
      go (inl (e, g, x)) k = let c : false ≡ true = rw x at k in cc
      go (inr (inl (e, g, b, x))) k =
          let c : came_to_node (err e) ≡ true = rw x at k in cc (stuck_before e b)
      go (inr (inr y)) k = y

  pub prepared_fields :
      (i : Instance)
      → prepared v sub now new_id w.store q' t ≡ ok i
      → (i.id ≡ new_id)
        × (i.user_id ≡ sub.user_id)
        × (i.name ≡ q'.name)
        × (quota_spec i.cpu_cores i.memory_bytes i.storage_bytes ≡ spec_of q')
  unfolding new_instance
  prepared_fields i p =
      let (n, image, config, a, b) = prepared-ok v sub now new_id w.store q' t p in
      (
        ap (λ j. j.id) (sym b),
        ap (λ j. j.user_id) (sym b),
        ap (λ j. j.name) (sym b),
        ap (λ j. quota_spec j.cpu_cores j.memory_bytes j.storage_bytes) (sym b),
      )

  abbrev pub later : Instance → ℤ
  later i = v.answered_at now i.node_id (create_command q' i correlation)

  abbrev reply : Instance → Option CommandResult
  reply i = v.send i.node_id (create_command q' i correlation)

  -- What the command's failure leaves.
  pub failed_instance :
      (create_instance v sub now q new_id correlation w).1 ≡ err instance_operation_failed
      → (i : Instance) × (prepared v sub now new_id w.store q' t ≡ ok i)
        × (get_by_id new_id (create_instance v sub now q new_id correlation w).0.store
            ≡ ok (with_status (later i) error "" "" i))
  unfolding after_command command_done command_failed
  failed_instance h =
      let (i, g, p, x) = sent (rw h refl) in
      let u = update_status-stored (later i) new_id i error "" "" w.store (prepared_fields i p).0 in
      elim (Bool-cases (succeeded (reply i))) [
        | inl e ↦ let c : ok _ ≡ err instance_operation_failed = rw (x, e) at h in cc
        | inr e ↦ (i, p, rw (x, e) u)
      ]

  same_instance :
      (i : Instance) (st : Status) (ip4 ip6 : String)
      → prepared v sub now new_id w.store q' t ≡ ok i
      → with_status (later i) st ip4 ip6 i
        ≡ record i { status = st; ipv4_address = ip4; ipv6_address = ip6; updated_at = later i }
  unfolding with_status new_instance
  same_instance i st ip4 ip6 p =
      let (n, image, config, a, b) = prepared-ok v sub now new_id w.store q' t p in
      rw (sym b) (rw (kept_text ip4, kept_text ip6) refl)

  pub done_instance :
      (j : Instance)
      → (create_instance v sub now q new_id correlation w).1 ≡ ok j
      → (i : Instance) × (prepared v sub now new_id w.store q' t ≡ ok i)
        × (get_by_id new_id (create_instance v sub now q new_id correlation w).0.store
            ≡ ok (at_time (later i) j))
        × (j ≡ record i {
          status = final_status q' (reply i);
          ipv4_address = text_at "ipv4Address" (reply i);
          ipv6_address = text_at "ipv6Address" (reply i);
        })
  unfolding after_command command_done command_failed
  done_instance j h =
      let (i, g, p, x) = sent (rw h refl) in
      let u =
        update_status-stored (later i) new_id i (final_status q' (reply i))
          (text_at "ipv4Address" (reply i)) (text_at "ipv6Address" (reply i)) w.store
          (prepared_fields i p).0 in
      let s =
        same_instance i (final_status q' (reply i)) (text_at "ipv4Address" (reply i))
          (text_at "ipv6Address" (reply i)) p in
      elim (Bool-cases (succeeded (reply i))) [
        | inl e ↦
            let c =
              one_result (create_instance v sub now q new_id correlation w).1 h (rw (x, e) refl) in
            (i, p, rw (x, e) (u ∙ ap ok (s ∙ ap (at_time (later i)) (sym c))), c)
        | inr e ↦ let c : err instance_operation_failed ≡ ok j = rw (x, e) at h in cc
      ]
