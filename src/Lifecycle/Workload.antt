-- ===== src/Lifecycle/Workload.antt =====
-- operator/internal/controller/agentsession_controller.go: the objects that the controller creates
-- for a session. Constants of the Kubernetes API are their texts; CPU is in millicores, memory and
-- storage in bytes.
use Prim.Native.String.{◌++◌}
use bosun.Prelude.{
  ℕ, ◌*◌, ◌^◌, ◌≡◌, String, true, false, none, some, List, [], ◌∷◌, arith, eq_iff, str_eq,
  if◌then◌else◌,
}
use bosun.Prelude.Dict.{Dict, lookup}
use bosun.Policy.{resource_requirements, Requirements}
use bosun.Cluster.{label, scheduling_node_annotation}
use bosun.Lifecycle.{
  Session, Mount, ContainerSpec, claim_source, empty_dir, service_account_token, Affinity, PodSpec,
  AgentPod, Claim, ServiceAccount, Tools, Reconciler,
}
use bosun.Lifecycle.Checks.{
  session_labels, belongs, pod_name, claim_name, account_name, resume_nonce_annotation,
}

abbrev mebibyte : ℕ
mebibyte = 2 ^ 20

abbrev pub max_hibernate_grace : ℕ
max_hibernate_grace = 30

unfoldable pub agent_affinity : String → Affinity
agent_affinity node_name = record {
  role = "worker";
  node_name = if str_eq node_name "" then none else some node_name;
}

abbrev mount : String → String → Mount
mount volume path = record { volume = volume; path = path; sub_path = ""; read_only = false }

abbrev tmux_probe : List String
tmux_probe = "tmux" ∷ "has-session" ∷ "-t" ∷ "bosun" ∷ []

abbrev proxy_probe : List String
proxy_probe = "/usr/local/bin/bosun-auth-proxy" ∷ "--healthcheck=http://127.0.0.1:8080/healthz" ∷ []

abbrev amounts : ℕ → ℕ → ℕ → ℕ → Requirements
amounts cpu_request memory_request cpu_limit memory_limit = record {
  requests = record { cpu = cpu_request; memory = memory_request };
  limits = record { cpu = cpu_limit; memory = memory_limit };
}

-- A container under `restrictedContainerSecurityContext`.
abbrev restricted :
    String
    → String
    → List String
    → List String
    → Dict String
    → Requirements
    → List Mount
    → List String
    → ContainerSpec
restricted name image command args env resources mounts probe = record {
  name = name;
  image = image;
  command = command;
  args = args;
  env = env;
  resources = resources;
  allow_privilege_escalation = false;
  read_only_root_filesystem = true;
  dropped_capabilities = "ALL" ∷ [];
  mounts = mounts;
  probe = probe;
}

-- The first container of the Pod.
unfoldable pub agent_container : Reconciler → Session → ContainerSpec
agent_container r s =
    restricted "agent" r.agent_image [] []
      (("BOSUN_SESSION_ID", s.session_id)
        ∷ ("BOSUN_AGENT_IMAGE", r.agent_image)
        ∷ ("ANTHROPIC_BASE_URL", "http://127.0.0.1:8080")
        ∷ ("ANTHROPIC_API_KEY", "sk-xxxx")
        ∷ ("HTTPS_PROXY", r.egress_proxy_url)
        ∷ ("NO_PROXY", "127.0.0.1,localhost")
        ∷ [])
      (resource_requirements s.memory_request)
      (mount "workspace" "/workspace"
        ∷ record (mount "workspace" "/tmp") { sub_path = ".bosun-state/runtime/tmp" }
        ∷ record (mount "workspace" "/run/bosun-tmux") { sub_path = ".bosun-state/runtime/tmux" }
        ∷ [])
      tmux_probe

unfoldable pub auth_proxy_container : Reconciler → ContainerSpec
auth_proxy_container r =
    restricted "auth-proxy" r.agent_image ("/usr/local/bin/bosun-auth-proxy" ∷ [])
      ("--listen=127.0.0.1:8080"
        ∷ ("--upstream=" ++ r.gateway_url)
        ∷ "--token-file=/var/run/secrets/bosun/token"
        ∷ [])
      [] (amounts 10 (16 * mebibyte) 50 (64 * mebibyte))
      (record (mount "gateway-token" "/var/run/secrets/bosun") { read_only = true }
        ∷ mount "proxy-tmp" "/tmp"
        ∷ [])
      proxy_probe

unfoldable pub init_container : Reconciler → ContainerSpec
init_container r =
    restricted "runtime-init" r.agent_image ("/bin/bash" ∷ "-c" ∷ [])
      ("install -d -m 0700 /workspace/.bosun-state/runtime/tmp /workspace/.bosun-state/runtime/tmux"
        ∷ [])
      [] (amounts 5 (8 * mebibyte) 25 (32 * mebibyte)) (mount "workspace" "/workspace" ∷ []) []

module _ (tools : Tools) where
  unfoldable pub desired_claim : Reconciler → Session → Claim
  unfolding claim_name session_labels
  desired_claim r s = record {
    namespace = s.namespace;
    name = claim_name tools s.session_id;
    labels = session_labels s;
    is_deleting = false;
    storage_class = r.storage_class_name;
    storage = 10 * 2 ^ 30;
  }

  unfoldable pub desired_account : Session → ServiceAccount
  unfolding account_name session_labels
  desired_account s = record {
    namespace = s.namespace;
    name = account_name tools s.session_id;
    labels = session_labels s;
    automount_token = false;
  }

  unfoldable pub desired_spec : Reconciler → Session → String → PodSpec
  unfolding account_name agent_affinity agent_container auth_proxy_container init_container
  desired_spec r s claim = record {
    service_account_name = account_name tools s.session_id;
    automount_token = false;
    restart_policy = "Never";
    priority_class_name = s.priority_class_name;
    active_deadline_seconds = s.active_deadline_seconds;
    termination_grace_seconds = max_hibernate_grace;
    run_as_non_root = true;
    run_as_user = 10001;
    run_as_group = 10001;
    fs_group = 10001;
    affinity = agent_affinity (label scheduling_node_annotation s.annotations);
    containers = agent_container r s ∷ auth_proxy_container r ∷ [];
    init_containers = init_container r ∷ [];
    volumes =
        ("workspace", claim_source claim)
        ∷ ("proxy-tmp", empty_dir (16 * mebibyte))
        ∷ ("gateway-token", service_account_token "bosun-llm-gateway" 3600 "token")
        ∷ [];
  }

  -- `desiredPod`; what the cluster fills in is the zero value.
  unfoldable pub desired_pod : Reconciler → Session → String → AgentPod
  unfolding pod_name session_labels desired_spec
  desired_pod r s claim = record {
    namespace = s.namespace;
    name = pod_name tools s.session_id;
    labels = session_labels s;
    annotations = (resume_nonce_annotation, s.resume_nonce) ∷ [];
    spec = desired_spec r s claim;
    creation_timestamp = 0;
    node_name = "";
    phase = "";
    message = "";
    reason = "";
    conditions = [];
    terminations = [];
  }

  -- The objects that the controller creates for a session are those that it later takes for the
  -- session's own.
  pub desired-belongs :
      (r : Reconciler) (s : Session) (claim : String)
      → (belongs s (desired_pod r s claim).labels ≡ true)
        × (belongs s (desired_claim r s).labels ≡ true)
        × (belongs s (desired_account s).labels ≡ true)
  unfolding desired_pod desired_claim desired_account belongs session_labels lookup
  desired-belongs r s claim =
      let own : belongs s (session_labels s) ≡ true =
        ground (arith, eq_iff s.user_id s.user_id, eq_iff s.session_id s.session_id) in
      (own, own, own)
