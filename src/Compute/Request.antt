-- ===== src/Compute/Request.antt =====
-- internal/app/compute/service.go: what CreateInstance checks and computes before it changes the
-- repository. The authorizer, the agents, the template service and the scheduler are interfaces of
-- the service and arguments here; the texts that only Go's libraries read (trimming, the pattern of
-- a name) are so too. A cloud-init is given by the results of its Validate and RenderUserData.
use aurora_old.Base.{
  ◌*◌, ◌^◌, String, ◌==◌, Bool, not, ◌&&◌, Option, none, some, List, [], ◌∷◌, if◌then◌else◌, Result,
  ok, err, ◌>>=◌, ◌>>◌, >>=-eq-ok, fail_if, ◌≡◌,
}
use aurora_old.Base.Int.{ℤ, pos, ltb_ℤ, leb_ℤ, quot}
use aurora_old.Base.Assoc.{Assoc, insert}
use aurora_old.Identity.Subject.{IdentityError, Subject}
use aurora_old.Job.World.{Authorizer}
use aurora_old.Billing.Quota.{ResourceSpec}
use aurora_old.Billing.Repo.{Catalog}
use aurora_old.Node.Types.{Node, Command, CommandResult, is_schedulable}
use aurora_old.Compute.Instance.{
  InstanceType, container, virtual_machine, Instance, creating, ComputeError, denied, invalid_spec,
  unsupported_instance_type, node_not_found, node_not_schedulable, scheduling_failed,
  no_online_node, invalid_template, insufficient_memory, insufficient_disk, no_compatible_image,
  invalid_cloud_init,
}
use aurora_old.Compute.Repo.{InstanceStore}

pub record CloudInit : Type 0 where
  pub is_valid : Bool
  pub user_data : Option String

pub record CreateRequest : Type 0 where
  pub name : String
  pub type_name : String
  pub cpu_cores : ℤ
  pub memory_bytes : ℤ
  pub storage_bytes : ℤ
  pub image : String
  pub template_id : String
  pub template_slug : String
  pub cloud_init : Option CloudInit
  pub node_id : String
  pub config : Assoc String
  pub start_after_create : Bool

-- The fields of a template and of an image that are read.
pub record OsTemplate : Type 0 where
  pub id : String
  pub min_memory_bytes : ℤ
  pub min_disk_bytes : ℤ

pub record ImageArtifact : Type 0 where
  pub image_alias : String
  pub incus_fingerprint : String

-- `TemplateLookupService`; `none` is an error.
pub record TemplateService : Type 0 where
  pub get_template : Subject → String → Option OsTemplate
  pub find_compatible_image : String → String → InstanceType → Option ImageArtifact
  pub accepts_cloud_init : Subject → CloudInit → Bool

-- What the service is given; an optional part may be nil, and the quota engine is over its plans.
-- `answered_at` reads the clock when a node has answered a command that was made at a time.
pub record Services : Type 0 where
  pub authorizer : Authorizer
  pub quotas : Option Catalog
  pub nodes : List Node
  pub node_by_id : String → Option Node
  pub select_node : Option (InstanceStore → CreateRequest → InstanceType → Option Node)
  pub templates : Option TemplateService
  pub send : String → Command → Option CommandResult
  pub answered_at : ℤ → String → Command → ℤ
  pub publishes : Bool
  pub trim_lower : String → String
  pub to_lower : String → String
  pub is_name : String → Bool
  pub show_int : ℤ → String

abbrev pub permitted : Option IdentityError → Result ComputeError (Unit {0})
permitted none = ok tt
permitted (some e) = err (denied e)

-- Any other text than the two names, but for the empty one, is refused.
unfoldable pub instance_type_of : String → Result ComputeError InstanceType
instance_type_of t =
    if t == "virtual-machine"
    then ok virtual_machine
    else if not (t == "") && not (t == "container")
    then err unsupported_instance_type
    else ok container

abbrev or_default : ℤ → ℤ → ℤ
or_default d n = if leb_ℤ n (pos 0) then d else n

unfoldable pub with_defaults : CreateRequest → CreateRequest
with_defaults q = record q {
  cpu_cores = or_default (pos 1) q.cpu_cores;
  memory_bytes = or_default (pos (2 ^ 30)) q.memory_bytes;
  storage_bytes = or_default (pos (10 * 2 ^ 30)) q.storage_bytes;
  image =
      if q.image == "" && (q.template_id == "" && q.template_slug == "")
      then "ubuntu/24.04"
      else q.image;
}

-- The quota of an instance of these sizes.
unfoldable pub quota_spec : ℤ → ℤ → ℤ → ResourceSpec
quota_spec cpu memory storage = record {
  instances = pos 1;
  vcpu = cpu;
  memory_mb = quot memory (2 ^ 20);
  storage_mb = quot storage (2 ^ 20);
  ipv4 = pos 0;
  snapshots = pos 0;
  backups = pos 0;
}

-- The request with its name and sizes settled, and its type.
unfoldable pub checked_request :
    Services → Subject → CreateRequest → Result ComputeError (CreateRequest × InstanceType)
checked_request v sub q = do
  permitted (v.authorizer (some sub) "instance:create" none)
  fail_if (not (v.is_name (v.trim_lower q.name))) invalid_spec
  t ← instance_type_of q.type_name
  ok (with_defaults (record q { name = v.trim_lower q.name }), t)

-- The loop of the fallback.
abbrev pub first_schedulable : List Node → Result ComputeError Node
first_schedulable [] = err no_online_node
first_schedulable (n ∷ rest) = if is_schedulable n then ok n else first_schedulable rest

abbrev wanted_node : Option Node → Result ComputeError Node
wanted_node none = err node_not_found
wanted_node (some n) = if not (is_schedulable n) then err node_not_schedulable else ok n

abbrev selected_node : Option Node → Result ComputeError Node
selected_node none = err scheduling_failed
selected_node (some n) = ok n

unfoldable pub target_node :
    Services → InstanceStore → CreateRequest → InstanceType → Result ComputeError Node
target_node v s q t =
    if not (q.node_id == "") then wanted_node (v.node_by_id q.node_id) else elim v.select_node [
      | none ↦ first_schedulable v.nodes
      | some select ↦ selected_node (select s q t)
    ]

unfoldable pub node_arch : Services → Node → String
node_arch v n = elim n.architecture [
  | none ↦ "x86_64"
  | some a ↦ if a == "" then "x86_64" else v.to_lower a
]

abbrev image_of : CreateRequest → Option ImageArtifact → Result ComputeError String
image_of q none = err no_compatible_image
image_of q (some a) = ok (
    if not (a.image_alias == "")
    then a.image_alias
    else if not (a.incus_fingerprint == "")
    then a.incus_fingerprint
    else q.image)

abbrev template_image :
    TemplateService
    → CreateRequest
    → InstanceType
    → String
    → Option OsTemplate
    → Result ComputeError String
template_image ts q t arch none = err invalid_template
template_image ts q t arch (some o) = do
  fail_if (ltb_ℤ q.memory_bytes o.min_memory_bytes) insufficient_memory
  fail_if (ltb_ℤ q.storage_bytes o.min_disk_bytes) insufficient_disk
  image_of q (ts.find_compatible_image o.id arch t)

abbrev template_key : CreateRequest → String
template_key q = if q.template_id == "" then q.template_slug else q.template_id

unfoldable pub resolved_image :
    Services → Subject → CreateRequest → InstanceType → Node → Result ComputeError String
resolved_image v sub q t n = elim v.templates [
  | none ↦ ok q.image
  | some ts ↦
      if template_key q == ""
      then ok q.image
      else template_image ts q t (node_arch v n) (ts.get_template sub (template_key q))
]

abbrev accepts : Services → Subject → CloudInit → Bool
accepts v sub c = elim v.templates [ none ↦ c.is_valid | some ts ↦ ts.accepts_cloud_init sub c ]

abbrev with_user_data : Assoc String → Option String → Result ComputeError (Assoc String)
with_user_data m none = err invalid_cloud_init
with_user_data m (some d) = ok (insert "cloud-init.user-data" d (insert "user.user-data" d m))

unfoldable pub final_config :
    Services → Subject → CreateRequest → Result ComputeError (Assoc String)
final_config v sub q = elim q.cloud_init [
  | none ↦ ok q.config
  | some c ↦
      fail_if (not (accepts v sub c)) invalid_cloud_init >> with_user_data q.config c.user_data
]

unfoldable pub new_instance :
    Subject → ℤ → String → CreateRequest → InstanceType → Node → String → Assoc String → Instance
new_instance sub now new_id q t n image config = record {
  id = new_id;
  user_id = sub.user_id;
  node_id = n.id;
  name = q.name;
  instance_type = t;
  status = creating;
  cpu_cores = q.cpu_cores;
  memory_bytes = q.memory_bytes;
  storage_bytes = q.storage_bytes;
  image = image;
  ipv4_address = "";
  ipv6_address = "";
  config = config;
  created_at = now;
  updated_at = now;
}

-- The instance that is to be stored, of a checked request.
unfoldable pub prepared :
    Services
    → Subject
    → ℤ
    → String
    → InstanceStore
    → CreateRequest
    → InstanceType
    → Result ComputeError Instance
prepared v sub now new_id s q t = do
  n ← target_node v s q t
  image ← resolved_image v sub q t n
  config ← final_config v sub q
  ok (new_instance sub now new_id q t n image config)

pub prepared-ok :
    (v : Services) (sub : Subject) (now : ℤ) (new_id : String) (s : InstanceStore)
    (q : CreateRequest) (t : InstanceType) {i : Instance}
    → prepared v sub now new_id s q t ≡ ok i
    → (n : Node) × (image : String) × (config : Assoc String) × (target_node v s q t ≡ ok n)
      × (new_instance sub now new_id q t n image config ≡ i)
unfolding prepared
prepared-ok v sub now new_id s q t e =
    let (n, a, e1) = >>=-eq-ok (target_node v s q t) _ e in
    let (image, b, e2) = >>=-eq-ok (resolved_image v sub q t n) _ e1 in
    let (config, c, e3) = >>=-eq-ok (final_config v sub q) _ e2 in (n, image, config, a, cc)
