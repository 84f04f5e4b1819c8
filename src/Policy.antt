-- ===== src/Policy.antt =====
-- operator/pkg/resourcepolicy/policy.go: the resource policy that every AgentSession shares.
-- Amounts are natural numbers: CPU in millicores, memory in bytes.
pub mod Window
pub mod Load
use bosun.Prelude.{ℕ, ◌*◌, ◌^◌, ◌==◌, if◌then◌else◌}

pub record ResourcePolicy : Type 0 where
  pub cpu_request_millicores : ℕ
  pub memory_request_bytes : ℕ
  pub default_cpu_limit : ℕ
  pub min_cpu_limit : ℕ
  pub max_cpu_limit : ℕ
  pub min_memory_request_bytes : ℕ
  pub max_memory_request_bytes : ℕ

abbrev gibibyte : ℕ
gibibyte = 2 ^ 30

abbrev pub policy : ResourcePolicy
policy = record {
  cpu_request_millicores = 500;
  memory_request_bytes = 2 * gibibyte;
  default_cpu_limit = 500;
  min_cpu_limit = 500;
  max_cpu_limit = 3000;
  min_memory_request_bytes = 1 * gibibyte;
  max_memory_request_bytes = 64 * gibibyte;
}

-- A `corev1.ResourceList` with its two entries.
pub record ResourceList : Type 0 where
  pub cpu : ℕ
  pub memory : ℕ

-- The requests and the limits of a new Agent container.
pub record Requirements : Type 0 where
  pub requests : ResourceList
  pub limits : ResourceList

unfoldable pub resource_requirements : ℕ → Requirements
resource_requirements memory_bytes =
    let memory = if memory_bytes == 0 then policy.memory_request_bytes else memory_bytes in
    record {
      requests = record { cpu = policy.cpu_request_millicores; memory = memory };
      limits = record { cpu = policy.default_cpu_limit; memory = memory };
    }
