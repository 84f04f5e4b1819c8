-- ===== src/Environment/Baseline.antt =====
-- operator/internal/controller/userenvironment_controller.go: the checks of a UserEnvironment, and the
-- objects of `ensureBaseline` with the changes that it makes to them.
use Prim.Native.String.{◌++◌, slice}
use bosun.Prelude.{
  ℕ, ◌*◌, ◌^◌, String, Bool, not, ◌&&◌, Option, none, some, List, [], ◌∷◌, str_eq, if◌then◌else◌,
}
use bosun.Prelude.Dict.{insert}
use bosun.Cluster.{label}
use bosun.Lifecycle.Checks.{managed_by_label, managed_by_value, user_label}
use bosun.Environment.{
  UserEnvironment, RoleRef, ObjectSpec, namespace_spec, quota_spec, limit_range_spec,
  network_policy_spec, role_binding_spec, Object, permanent, Checked, ok, err, Library,
}

abbrev pub resource_conflict_reason : String
resource_conflict_reason = "ResourceConflict"

abbrev gibibyte : ℕ
gibibyte = 2 ^ 30

-- `validateManagedObject`, on the labels of the object.
unfoldable pub is_managed : UserEnvironment → Object → Bool
is_managed e o =
    str_eq (label managed_by_label o.labels) managed_by_value
    && str_eq (label user_label o.labels) e.user_id

abbrev pub desired_role_ref : RoleRef
desired_role_ref = record {
  api_group = "rbac.authorization.k8s.io";
  kind = "ClusterRole";
  name = "bosun-user-backend-terminal";
}

abbrev pub same_role_ref : RoleRef → RoleRef → Bool
same_role_ref a b = str_eq a.api_group b.api_group && str_eq a.kind b.kind && str_eq a.name b.name

-- The role of a RoleBinding; other objects have none.
abbrev pub role_ref_of : ObjectSpec → RoleRef
role_ref_of (role_binding_spec role subjects) = role
role_ref_of _ = record { api_group = ""; kind = ""; name = "" }

abbrev pub quota : ObjectSpec
quota = quota_spec (
    ("pods", 20)
    ∷ ("limits.cpu", 20_000)
    ∷ ("limits.memory", 40 * gibibyte)
    ∷ ("requests.storage", 200 * gibibyte)
    ∷ [])

abbrev pub limit_range : ObjectSpec
limit_range =
    limit_range_spec (("cpu", 100) ∷ ("memory", 128 * 2 ^ 20) ∷ [])
      (("cpu", 500) ∷ ("memory", gibibyte) ∷ [])

abbrev pub default_deny : ObjectSpec
default_deny = network_policy_spec ("Ingress" ∷ "Egress" ∷ []) []

-- `namespaceSelector` and `podSelector` give the peers of a rule.
abbrev pub allowed_egress : String → ObjectSpec
allowed_egress platform = network_policy_spec ("Egress" ∷ []) (
    record {
      to_namespace = "kube-system";
      to_pods = ("k8s-app", "kube-dns");
      ports = ("UDP", 53) ∷ ("TCP", 53) ∷ [];
    }
    ∷ record {
      to_namespace = platform;
      to_pods = ("app.kubernetes.io/name", "bosun-gateway");
      ports = ("TCP", 8081) ∷ [];
    }
    ∷ record {
      to_namespace = platform;
      to_pods = ("app.kubernetes.io/name", "bosun-egress-proxy");
      ports = ("TCP", 3128) ∷ [];
    }
    ∷ [])

abbrev pub backend_binding : String → ObjectSpec
backend_binding platform =
    role_binding_spec desired_role_ref
      (record { kind = "ServiceAccount"; name = "bosun-backend-api"; namespace = platform } ∷ [])

-- An object as it is built, and what its `mutate` does.
pub record Item : Type 0 where
  pub object : Object
  pub mutate : Object → Checked Object

abbrev pub object_of : String → String → ObjectSpec → Object
object_of namespace name spec = record {
  namespace = namespace;
  name = name;
  labels = [];
  resource_version = "";
  spec = spec;
}

abbrev pub with_spec : ObjectSpec → Object → Checked Object
with_spec spec o = ok (record o { spec = spec })

unfoldable pub bind_role : String → Object → Checked Object
bind_role platform o =
    if not (str_eq o.resource_version "")
      && not (same_role_ref (role_ref_of o.spec) desired_role_ref)
    then err (
        permanent resource_conflict_reason
          ("RoleBinding " ++ o.namespace ++ "/" ++ o.name ++ " has an incompatible roleRef"))
    else with_spec (backend_binding platform) o

-- The objects of `ensureBaseline` in their order.
unfoldable pub baseline : String → UserEnvironment → List Item
unfolding bind_role
baseline platform e =
    record { object = object_of "" e.namespace namespace_spec; mutate = λ o. ok o }
    ∷ record {
      object = object_of e.namespace "bosun-user-quota" (quota_spec []);
      mutate = with_spec quota;
    }
    ∷ record {
      object = object_of e.namespace "bosun-container-defaults" (limit_range_spec [] []);
      mutate = with_spec limit_range;
    }
    ∷ record {
      object = object_of e.namespace "bosun-default-deny" (network_policy_spec [] []);
      mutate = with_spec default_deny;
    }
    ∷ record {
      object = object_of e.namespace "bosun-allowed-egress" (network_policy_spec [] []);
      mutate = with_spec (allowed_egress platform);
    }
    ∷ record {
      object =
          object_of e.namespace "bosun-backend-access"
            (role_binding_spec (record { api_group = ""; kind = ""; name = "" }) []);
      mutate = bind_role platform;
    }
    ∷ []

module _ (lib : Library) where
  open lib use {sha256_hex, is_uuid_v7, owner_error}

  unfoldable pub short_user_id : String → String
  short_user_id id = slice (sha256_hex id) 0 12

  -- `validateUserEnvironment`: the text of the first check that fails.
  unfoldable pub validate_user_environment : UserEnvironment → Option String
  unfolding short_user_id
  validate_user_environment e =
      if not (is_uuid_v7 e.user_id)
      then some "spec.userID must be a UUID v7"
      else if not (str_eq (label managed_by_label e.labels) managed_by_value)
      then some "metadata.labels[app.kubernetes.io/managed-by] must be bosun"
      else if not (str_eq (label user_label e.labels) e.user_id)
      then some "metadata.labels[bosun.io/user] must match spec.userID"
      else if not (str_eq e.name ("usr-" ++ short_user_id e.user_id))
      then some ("metadata.name must be usr-" ++ short_user_id e.user_id ++ " for spec.userID")
      else if not (str_eq e.namespace ("bosun-u-" ++ short_user_id e.user_id))
      then some ("spec.namespace must be bosun-u-" ++ short_user_id e.user_id ++ " for spec.userID")
      else if not (str_eq e.quota_profile "mvp")
      then some "spec.quotaProfile must be mvp"
      else none

  abbrev pub labelled : UserEnvironment → Object → Object
  labelled e o = record o {
    labels = insert user_label e.user_id (insert managed_by_label managed_by_value o.labels);
  }

  abbrev pub owned_change :
      UserEnvironment → (Object → Checked Object) → Object → Option String → Checked Object
  owned_change e mutate o (some text) = err (
      permanent resource_conflict_reason
        ("cannot be owned by UserEnvironment " ++ e.name ++ ": " ++ text))
  owned_change e mutate o none = mutate (labelled e o)

  -- The change that `createOrUpdateOwned` hands to `CreateOrUpdate`.
  unfoldable pub change : UserEnvironment → (Object → Checked Object) → Object → Checked Object
  unfolding insert
  change e mutate o = owned_change e mutate o (owner_error e (labelled e o))
