-- ===== src/Compute/Calls.antt =====
-- internal/app/compute/service.go: sequences of the service's calls.
use aurora_old.Base.{
  String, Bool, true, false, none, List, [], ◌∷◌, if◌then◌else◌, Result, ok, err, Result-cases, inl,
  inr, ◌≡◌, ap, sym, ◌∙◌, refl,
}
use aurora_old.Base.Int.{ℤ}
use aurora_old.Base.Assoc.{lookup}
use aurora_old.Identity.Subject.{Subject}
use aurora_old.Billing.Quota.{BillingError}
use aurora_old.Billing.Repo.{Quotas}
use aurora_old.Compute.Instance.{InstanceType, Instance, ComputeError}
use aurora_old.Compute.Repo.{
  InstanceStore, new_instance_store, create, delete, get_by_id, get_by_name,
}
use aurora_old.Compute.Request.{
  Services, CreateRequest, checked_request, new_instance, prepared, prepared-ok,
}
use aurora_old.Compute.Create.{
  Compute, create_instance, with_checked, after_reserve, with_prepared, after_create, after_command,
  command_done, command_failed,
}
use aurora_old.Compute.Service.{
  PowerPlan, power_action, with_power, planned_power, power_done, delete_instance, delete_loaded,
  forgotten, resize, resize_loaded, loaded,
}
use aurora_old.Compute.Consistent.{
  IsConsistent, new-IsConsistent, create-IsConsistent, update_status-IsConsistent,
  update_spec-IsConsistent, delete-IsConsistent, get_by_id-name, get_by_name-id,
}

-- A call with its caller and its clock; the texts of a creation are its fresh identifiers.
pub data Call : Type 0 where
  create_call : Subject → ℤ → CreateRequest → String → String → Call
  power_call : Subject → ℤ → String → String → Bool → String → Call
  delete_call : Subject → ℤ → String → Bool → Call
  resize_call : Subject → ℤ → String → ℤ → ℤ → ℤ → String → Call

abbrev pub run : Services → Call → Compute → Compute
run v (create_call sub now q id c) w = (create_instance v sub now q id c w).0
run v (power_call sub now id action force c) w = (power_action v sub now id action force c w).0
run v (delete_call sub now id force) w = (delete_instance v sub now id force w).0
run v (resize_call sub now id cpu memory storage c) w =
    (resize v sub now id cpu memory storage c w).0

abbrev pub run_all : Services → List Call → Compute → Compute
run_all v [] w = w
run_all v (c ∷ cs) w = run_all v cs (run v c w)

-- The identifier of a new instance is that of no other instance.
abbrev pub IsFresh : Call → Compute → Type 0
IsFresh (create_call sub now q id c) w = lookup id w.store.instances ≡ none
IsFresh _ w = Unit

abbrev pub AllFresh : Services → List Call → Compute → Type 0
AllFresh v [] w = Unit
AllFresh v (c ∷ cs) w = IsFresh c w × AllFresh v cs (run v c w)

either {ℓ} :
    {A : Type ℓ} (b : Bool) (x y : Compute × A)
    → IsConsistent x.0.store
    → IsConsistent y.0.store
    → IsConsistent (if b then x else y).0.store
either true x y h k = h
either false x y h k = k

module _ (v : Services) (sub : Subject) (now : ℤ) where
  prepared-id :
      (new_id : String) (s : InstanceStore) (q : CreateRequest) (t : InstanceType) (i : Instance)
      → prepared v sub now new_id s q t ≡ ok i
      → i.id ≡ new_id
  unfolding new_instance
  prepared-id new_id s q t i e =
      let (n, image, config, a, b) = prepared-ok v sub now new_id s q t e in ap (λ j. j.id) (sym b)

  after_command-IsConsistent :
      (later : ℤ) (q : CreateRequest) (i : Instance) (res : _) (w : Compute)
      → IsConsistent w.store
      → IsConsistent (after_command v sub later q i res w).0.store
  unfolding after_command command_done command_failed
  after_command-IsConsistent later q i res w h =
      either _ _ _ (update_status-IsConsistent _ _ _ _ _ w.store h)
        (update_status-IsConsistent _ _ _ _ _ w.store h)

  with_prepared-IsConsistent :
      (q : CreateRequest) (c new_id : String) (w : Compute) (r : Result ComputeError Instance)
      → ((i : Instance) → r ≡ ok i → i.id ≡ new_id)
      → lookup new_id w.store.instances ≡ none
      → IsConsistent w.store
      → IsConsistent (with_prepared v sub now q c w r).0.store
  with_prepared-IsConsistent q c new_id w (err e) g f h = h
  with_prepared-IsConsistent q c new_id w (ok i) g f h =
      go (create i w.store)
        (create-IsConsistent i w.store (ap (λ k. lookup k w.store.instances) (g i refl) ∙ f) h)
    where
      go :
          (x : InstanceStore × Result ComputeError (Unit {0}))
          → IsConsistent x.0
          → IsConsistent (after_create v sub now q i c w x).0.store
      go (s, err e) k = k
      go (s, ok _) k = after_command-IsConsistent _ q i _ (record w { store = s }) k

  create_instance-IsConsistent :
      (q : CreateRequest) (new_id c : String) (w : Compute)
      → lookup new_id w.store.instances ≡ none
      → IsConsistent w.store
      → IsConsistent (create_instance v sub now q new_id c w).0.store
  unfolding create_instance
  create_instance-IsConsistent q new_id c w f h = checked (checked_request v sub q)
    where
      granted :
          (q' : CreateRequest) (t : InstanceType) (x : Quotas × Result BillingError (Unit {0}))
          → IsConsistent (after_reserve v sub now q' t new_id c w x).0.store
      granted q' t (m, err e) = h
      granted q' t (m, ok _) =
          with_prepared-IsConsistent q' c new_id (record w { quotas = m }) _
            (λ i e. prepared-id new_id w.store q' t i e) f h

      checked :
          (r : Result ComputeError (CreateRequest × InstanceType))
          → IsConsistent (with_checked v sub now new_id c w r).0.store
      checked (err e) = h
      checked (ok (q', t)) = granted q' t _

  power_action-IsConsistent :
      (id action : String) (force : Bool) (c : String) (w : Compute)
      → IsConsistent w.store
      → IsConsistent (power_action v sub now id action force c w).0.store
  unfolding power_action power_done
  power_action-IsConsistent id action force c w h = go (planned_power v sub now id action force w)
    where
      go :
          (r : Result ComputeError (Instance × PowerPlan))
          → IsConsistent (with_power v sub now id action c w r).0.store
      go (err e) = h
      go (ok (i, p)) = either _ _ _ (update_status-IsConsistent now id _ _ _ w.store h) h

  delete_instance-IsConsistent :
      (id : String) (force : Bool) (w : Compute)
      → IsConsistent w.store
      → IsConsistent (delete_instance v sub now id force w).0.store
  unfolding delete_instance forgotten
  delete_instance-IsConsistent id force w h = go (loaded v sub "instance:delete" id w)
    where
      go :
          (r : Result ComputeError Instance)
          → IsConsistent (delete_loaded v sub now id force w r).0.store
      go (err e) = h
      go (ok i) = elim (Result-cases (delete id w.store).1) [
        | inl e ↦ rw (e.1, delete_loaded) (delete-IsConsistent id w.store h)
        | inr e ↦ rw (e.1, delete_loaded) (delete-IsConsistent id w.store h)
      ]

  resize-IsConsistent :
      (id : String) (cpu memory storage : ℤ) (c : String) (w : Compute)
      → IsConsistent w.store
      → IsConsistent (resize v sub now id cpu memory storage c w).0.store
  unfolding resize
  resize-IsConsistent id cpu memory storage c w h = go (loaded v sub "instance:update" id w)
    where
      go :
          (r : Result ComputeError Instance)
          → IsConsistent (resize_loaded v sub now id cpu memory storage c w r).0.store
      go (err e) = h
      go (ok i) = either _ _ _ (update_spec-IsConsistent now id cpu memory storage w.store h) h

run-IsConsistent :
    (v : Services) (c : Call) (w : Compute)
    → IsFresh c w
    → IsConsistent w.store
    → IsConsistent (run v c w).store
run-IsConsistent v (create_call sub now q id c) w f h =
    create_instance-IsConsistent v sub now q id c w f h
run-IsConsistent v (power_call sub now id a b c) w f h =
    power_action-IsConsistent v sub now id a b c w h
run-IsConsistent v (delete_call sub now id b) w f h =
    delete_instance-IsConsistent v sub now id b w h
run-IsConsistent v (resize_call sub now id x y z c) w f h =
    resize-IsConsistent v sub now id x y z c w h

run_all-IsConsistent :
    (v : Services) (cs : List Call) (w : Compute)
    → AllFresh v cs w
    → IsConsistent w.store
    → IsConsistent (run_all v cs w).store
run_all-IsConsistent v [] w f h = h
run_all-IsConsistent v (c ∷ cs) w f h =
    run_all-IsConsistent v cs (run v c w) f.1 (run-IsConsistent v c w f.0 h)

abbrev pub empty_compute : Compute
empty_compute = record { quotas = []; store = new_instance_store; audit_logs = []; events = [] }

-- After every sequence of calls by any callers that begins with no instance, where each creation has an
-- identifier that no instance has at its time: an instance that an identifier finds has this identifier
-- and is the one that its name finds, and one that a name finds has this name and is the one that
-- its identifier finds; so no two instances have one name.
pub get_by_name-calls :
    (v : Services) (cs : List Call) (key : String) (i : Instance)
    → AllFresh v cs empty_compute
    → let s = (run_all v cs empty_compute).store in
      (get_by_id key s ≡ ok i → (i.id ≡ key) × (get_by_name i.name s ≡ ok i))
      × (get_by_name key s ≡ ok i → (i.name ≡ key) × (get_by_id i.id s ≡ ok i))
get_by_name-calls v cs key i f =
    let h = run_all-IsConsistent v cs empty_compute f new-IsConsistent in
    (get_by_id-name _ h key i, get_by_name-id _ h key i)
