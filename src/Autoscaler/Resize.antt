-- ===== src/Autoscaler/Resize.antt =====
-- operator/internal/controller/resource_autoscaler.go: one resize of an Agent Pod, with its checks
-- against the latest session and Pod, and the order in which a plan is carried out.
pub mod Guards
pub mod Effect
pub mod Order
use Prim.Native.String.{◌++◌}
use bosun.Prelude.{
  ℕ, min, max, Bool, true, false, not, ◌&&◌, ◌||◌, Option, none, some, List, [], ◌∷◌, ltb, ◌==◌,
  str_eq, if◌then◌else◌, any,
}
use bosun.Policy.{policy, Requirements, ResourceList}
use bosun.Cluster.{
  Pod, Container, Condition, agent_container_name, find_pod_container, actual_agent_resources,
}
use bosun.Autoscaler.Plan.{AutoscaleSession}
use bosun.Autoscaler.Controller.{
  Api, found, not_found, unavailable, Controller, FailedResizeIntent, retry_suppressed,
  record_failed_attempt, clear_failed_attempt, clear_window, update_scaling_status,
  record_scaling_error,
}

abbrev pub is_resize_condition : Condition → Bool
is_resize_condition c =
    (str_eq c.kind "PodResizePending" || str_eq c.kind "PodResizeInProgress")
    && not (str_eq c.status "False")

unfoldable pub pod_has_active_resize : Pod → Bool
pod_has_active_resize pod = any is_resize_condition pod.conditions

abbrev pub same_list : ResourceList → ResourceList → Bool
same_list x y = x.cpu == y.cpu && x.memory == y.memory

unfoldable pub resource_requirements_equal : Requirements → Requirements → Bool
resource_requirements_equal x y = same_list x.limits y.limits && same_list x.requests y.requests

abbrev pub same_actual : Option Requirements → Option Requirements → Bool
same_actual none none = true
same_actual (some x) (some y) = x.limits.cpu == y.limits.cpu
same_actual _ _ = false

unfoldable pub actual_cpu_unchanged : Pod → Pod → Bool
actual_cpu_unchanged previous latest =
    same_actual (actual_agent_resources previous) (actual_agent_resources latest)

-- The same CPU and the same memory as request and as limit.
abbrev pub equal_resources : ℕ → ℕ → Requirements
equal_resources cpu memory = record {
  requests = record { cpu = cpu; memory = memory };
  limits = record { cpu = cpu; memory = memory };
}

-- The write through the pointer to the Agent container.
unfoldable pub set_agent_resources : Requirements → List Container → List Container
set_agent_resources r [] = []
set_agent_resources r (c ∷ cs) =
    if str_eq c.name agent_container_name
    then record c { resources = r } ∷ cs
    else c ∷ set_agent_resources r cs

abbrev pub both_agents_equal : Option Container → Option Container → Bool
both_agents_equal (some agent) (some previous) =
    resource_requirements_equal agent.resources previous.resources
both_agents_equal _ _ = false

-- The latest Pod is the one that the plan was made for, and no resize of it is under way.
unfoldable pub pod_unchanged : Pod → Pod → Bool
unfolding resource_requirements_equal actual_cpu_unchanged pod_has_active_resize
pod_unchanged planned latest =
    str_eq latest.uid planned.uid
    && both_agents_equal (find_pod_container latest agent_container_name)
        (find_pod_container planned agent_container_name)
    && actual_cpu_unchanged planned latest
    && not (pod_has_active_resize latest)

abbrev pub target_of : AutoscaleSession → ℕ
target_of state = min (max state.target policy.min_cpu_limit) policy.max_cpu_limit

abbrev pub intent_of : AutoscaleSession → ℕ → FailedResizeIntent
intent_of state attempted_at = record {
  pod_uid = state.pod.uid;
  cpu = target_of state;
  memory = state.session.memory_request;
  attempted_at = attempted_at;
}

-- The Pod that is sent: the latest one, with the new resources of its Agent container.
abbrev pub resized_pod : AutoscaleSession → Pod → Pod
resized_pod state latest = record latest {
  containers =
      set_agent_resources (equal_resources (target_of state) state.session.memory_request)
        latest.containers;
}

-- `(true, nil)`, `(false, nil)`, and `(false, err)`.
pub data Outcome : Type 0 where
  applied skipped failed : Outcome

module _ (api : Api) where
  open api use {World, now, get_session, get_pod, update_resize}

  pub record Resized : Type 0 where
    pub world : World
    pub controller : Controller
    pub outcome : Outcome

  -- From `UpdateResize` on.
  unfoldable pub send_resize : AutoscaleSession → Pod → Controller → World → Resized
  send_resize state latest c w =
      let (w', sent) = update_resize (resized_pod state latest) w in
      let (w'', recorded) =
        update_scaling_status api state.session
          (λ status. record status { last_applied_at = some (now w'); last_error = "" }) w' in
      elim sent [
        | none ↦ record {
          world = w'';
          controller = clear_window state.session.uid (clear_failed_attempt state.session.uid c);
          outcome = if recorded then applied else failed;
        }
        | some error ↦ record {
          world = record_scaling_error api state.session ("update Pod resize: " ++ error) w';
          controller = record_failed_attempt state.session.uid (intent_of state (now w')) c;
          outcome = failed;
        }
      ]

  unfoldable pub resize_state : AutoscaleSession → Controller → World → Resized
  unfolding send_resize
  resize_state state c w =
      let stop : Outcome → Resized = λ o. record { world = w; controller = c; outcome = o } in
      if retry_suppressed state.session.uid (intent_of state 0) (now w) c
      then stop skipped
      else elim (get_session state.session.namespace state.session.name w) [
        | not_found ↦ stop failed
        | unavailable ↦ stop failed
        | found latest_session ↦
            if not (latest_session.generation == state.session.generation)
            then stop skipped
            else elim (get_pod state.pod.namespace state.pod.name w) [
              | not_found ↦ stop skipped
              | unavailable ↦ stop failed
              | found latest ↦
                  if pod_unchanged state.pod latest
                  then send_resize state latest c w
                  else stop skipped
            ]
      ]

abbrev pub is_decrease : AutoscaleSession → Bool
is_decrease s = ltb s.target s.current

abbrev pub is_increase : AutoscaleSession → Bool
is_increase s = not (is_decrease s) && (ltb s.current s.target || s.needs_sync)

abbrev pub is_applied : Outcome → Bool
is_applied applied = true
is_applied skipped = false
is_applied failed = false

-- `applyNodePlan`, over any way `resize` to carry out one resize of a state `W`.
module _ {ℓ} {W : Type ℓ} (resize : AutoscaleSession → W → W × Outcome) where
  -- The loop over the decreases; the flag says that all were applied.
  unfoldable pub run_decreases : List AutoscaleSession → W → W × Bool
  run_decreases [] w = (w, true)
  run_decreases (s ∷ ss) w =
      let (w', outcome) = (if is_decrease s then resize s w else (w, applied)) in
      let (w'', all_applied) = run_decreases ss w' in (w'', is_applied outcome && all_applied)

  unfoldable pub run_increases : List AutoscaleSession → W → W
  run_increases [] w = w
  run_increases (s ∷ ss) w = run_increases ss (if is_increase s then (resize s w).0 else w)

  unfoldable pub apply_node_plan : List AutoscaleSession → W → W
  unfolding run_decreases run_increases
  apply_node_plan states w =
      let (w', all_applied) = run_decreases states w in
      if all_applied then run_increases states w' else w'
