-- ===== src/Lifecycle/Phases.antt =====
-- operator/internal/controller/agentsession_controller.go: what the controller writes into the
-- status of a session, write by write, and how it writes it.
use Prim.Native.String.{◌++◌}
use bosun.Prelude.{
  ℕ, zero, suc, ◌+◌, ◌-◌, ◌*◌, ◌^◌, min, String, Bool, true, false, not, Option, none, some, leb,
  ◌==◌, if◌then◌else◌,
}
use bosun.Prelude.Run.{Run, Failure, Reply, done, broke, pure, ◌>>=◌, on_failure}
use bosun.Cluster.{label}
use bosun.Lifecycle.{
  Session, Status, Phase, unset, pending, running, idle, hibernating, hibernated, restoring,
  deleting, failed, Checkpoint, application, creating, ready, rebuilding, consumed, broken,
  AgentPod, QuiesceResult, WorkState, state_unknown, working, awaiting_approval, awaiting_choice,
  awaiting_input, stopped, DesiredState, want_running, want_hibernated, Lookup, present, absent,
  unreadable, Answer, accepted, conflict, already_exists, not_there, refused, Kube, Tools, Outcome,
}
use bosun.Lifecycle.Checks.{
  same_phase, retry_condition, resume_nonce_annotation, retry_attempt, safe_message,
  readable_scheduling_message,
}

abbrev pub second : ℕ
second = 1_000_000_000

abbrev pub max_transient_retries : ℕ
max_transient_retries = 10

abbrev pub stop : Outcome
stop = record { requeue = false; requeue_after = 0; error = none }

abbrev pub again : Outcome
again = record stop { requeue = true }

abbrev pub after : ℕ → Outcome
after delay = record stop { requeue_after = delay }

abbrev pub fails : String → Outcome
fails text = record stop { error = some text }

abbrev gone : String → Failure
gone text = record { text = text; is_not_found = true }

abbrev pub other : String → Failure
other text = record { text = text; is_not_found = false }

abbrev pub wants_hibernated : DesiredState → Bool
wants_hibernated want_hibernated = true
wants_hibernated want_running = false

abbrev pub new_checkpoint : String → String → Checkpoint
new_checkpoint id node_name = record {
  mode = application;
  state = creating;
  id = id;
  node_name = node_name;
  created_at = none;
  size_bytes = 0;
  sha256 = "";
  agent_image_digest = "";
  reason = "";
}

-- A change of the checkpoint, if there is one.
abbrev pub on_checkpoint : (Checkpoint → Checkpoint) → Option Checkpoint → Option Checkpoint
on_checkpoint change none = none
on_checkpoint change (some c) = some (change c)

abbrev pub start_restoring : Checkpoint → Checkpoint
start_restoring c = record c { state = rebuilding }

abbrev pub consume : Checkpoint → Checkpoint
consume c = elim c.state [
  | ready ↦ record c { state = consumed }
  | rebuilding ↦ record c { state = consumed }
  | _ ↦ c
]

abbrev pub break_checkpoint : String → Checkpoint → Checkpoint
break_checkpoint reason c = elim c.state [
  | creating ↦ record c { state = broken; reason = reason }
  | rebuilding ↦ record c { state = broken; reason = reason }
  | _ ↦ c
]

unfoldable pub agent_work_condition : WorkState → String × String
agent_work_condition working =
    ("AgentWorking", "Claude is working; no user action is currently required")
agent_work_condition awaiting_approval =
    ("AwaitingApproval", "Claude is waiting for the user to approve an action")
agent_work_condition awaiting_choice =
    ("AwaitingChoice", "Claude is waiting for the user to choose the next step")
agent_work_condition awaiting_input =
    ("AwaitingInput", "Claude has finished the current turn and is waiting for user input")
agent_work_condition stopped =
    ("AgentStopped", "Claude is not running; the terminal remains available")
agent_work_condition state_unknown =
    ("SessionRunning", "Agent Pod and persistent terminal are ready")

module _ (tools : Tools) where
  open tools use {decimal, set_condition, remove_condition, same_status}

  -- `setSessionCondition`.
  unfoldable pub set_ready : ℕ → String → String → String → Status → Status
  unfolding safe_message
  set_ready generation condition_status reason message st = record st {
    conditions =
        set_condition
          (record {
            kind = "Ready";
            status = condition_status;
            observed_generation = generation;
            reason = reason;
            message = safe_message tools message;
          })
          st.conditions;
  }

  abbrev pub clear_retry : Status → Status
  clear_retry st = record st { conditions = remove_condition retry_condition st.conditions }

  unfoldable pub to_invalid : Session → String → Status → Status
  unfolding set_ready
  to_invalid s message st =
      set_ready s.generation "False" "InvalidSpec" message (record st { phase = failed })

  unfoldable pub to_awaiting_capacity : Session → String → Status → Status
  unfolding set_ready
  to_awaiting_capacity s claim st =
      set_ready s.generation "False" "AwaitingCapacity"
        "Agent session is waiting for a 500m CPU allocation"
        (record st { phase = pending; pvc_name = claim; observed_generation = s.generation })

  abbrev pub phase_text : Phase → String
  phase_text restoring = "Restoring"
  phase_text _ = "Provisioning"

  unfoldable pub to_preparing : Session → Phase → Bool → String → Status → Status
  unfolding set_ready
  to_preparing s phase is_restoring claim st =
      set_ready s.generation "False" (phase_text phase) "Agent workload is being prepared"
        (record st {
          phase = phase;
          pvc_name = claim;
          observed_generation = s.generation;
          checkpoint =
              if is_restoring then on_checkpoint start_restoring st.checkpoint else st.checkpoint;
        })

  abbrev pub with_workload : Session → Phase → String → String → Status → Status
  with_workload s phase pod claim st = record st {
    phase = phase;
    pod_name = pod;
    pvc_name = claim;
    observed_generation = s.generation;
  }

  unfoldable pub to_starting : Session → Phase → String → String → Status → Status
  unfolding set_ready
  to_starting s phase pod claim st =
      set_ready s.generation "False" (phase_text phase) "Agent Pod is starting"
        (with_workload s phase pod claim st)

  unfoldable pub to_unschedulable : Session → Phase → String → String → String → Status → Status
  unfolding set_ready readable_scheduling_message
  to_unschedulable s phase pod claim message st =
      set_ready s.generation "False" "Unschedulable" (readable_scheduling_message tools message)
        (with_workload s phase pod claim st)

  abbrev pub with_live_pod : Session → Phase → AgentPod → String → ℕ → Status → Status
  with_live_pod s phase pod claim activity st = record (with_workload s phase pod.name claim st) {
    last_active_at = some activity;
    node_name = pod.node_name;
    observed_resume_nonce = label resume_nonce_annotation pod.annotations;
  }

  unfoldable pub to_idle : Session → AgentPod → String → ℕ → Status → Status
  unfolding set_ready
  to_idle s pod claim activity st =
      set_ready s.generation "True" "SessionIdle"
        "Agent Pod is idle and awaiting confirmation before hibernation"
        (with_live_pod s idle pod claim activity st)

  unfoldable pub to_running : Session → AgentPod → String → ℕ → WorkState → Status → Status
  unfolding set_ready agent_work_condition
  to_running s pod claim activity work st =
      let live = with_live_pod s running pod claim activity st in
      set_ready s.generation "True" (agent_work_condition work).0 (agent_work_condition work).1
        (clear_retry (record live { checkpoint = on_checkpoint consume live.checkpoint }))

  abbrev pub draining : String
  draining = "Agent runtime is draining before hibernation"

  unfoldable pub to_hibernating : Session → Status → Status
  unfolding set_ready
  to_hibernating s st = set_ready s.generation "False" "Quiescing" draining (record st {
    phase = hibernating;
    observed_generation = s.generation;
    checkpoint = some (new_checkpoint s.resume_nonce st.node_name);
  })

  unfoldable pub to_new_checkpoint : Session → AgentPod → Status → Status
  unfolding set_ready
  to_new_checkpoint s pod st =
      set_ready s.generation "False" "Quiescing" draining
        (record st { checkpoint = some (new_checkpoint s.resume_nonce pod.node_name) })

  unfoldable pub to_recovery_ready : Session → AgentPod → QuiesceResult → Status → Status
  unfolding set_ready
  to_recovery_ready s pod result st =
      set_ready s.generation "False" "RecoveryReady"
        "Application recovery manifest is durable; Agent Pod is stopping"
        (clear_retry (record st {
          checkpoint = some (record (new_checkpoint s.resume_nonce pod.node_name) {
            state = ready;
            created_at = some result.created_at;
            size_bytes = result.size_bytes;
            sha256 = result.sha256;
            agent_image_digest = result.agent_image_digest;
          });
        }))

  unfoldable pub to_hibernated : Session → Status → Status
  unfolding set_ready
  to_hibernated s st =
      set_ready s.generation "False" "SessionHibernated"
        "Agent Pod is stopped and workspace PVC is retained"
        (record st {
          phase = hibernated;
          pod_name = "";
          node_name = "";
          observed_generation = s.generation;
          observed_resume_nonce =
              if wants_hibernated s.desired_state then s.resume_nonce else st.observed_resume_nonce;
        })

  unfoldable pub to_stopped : Session → String → Status → Status
  unfolding set_ready
  to_stopped s nonce st =
      set_ready s.generation "False" "ActiveDeadlineReached"
        "Agent Pod reached its active deadline; workspace PVC is retained"
        (record st {
          phase = hibernated;
          pod_name = "";
          node_name = "";
          observed_generation = s.generation;
          observed_resume_nonce = nonce;
        })

  unfoldable pub to_deleting : Session → Status → Status
  unfolding set_ready
  to_deleting s st =
      set_ready s.generation "False" "Deleting" "Permanently deleting agent Pod and workspace PVC"
        (record st { phase = deleting; observed_generation = s.generation })

  unfoldable pub to_failed : Session → String → String → Status → Status
  unfolding set_ready
  to_failed s reason message st = set_ready s.generation "False" reason message (record st {
    phase = failed;
    observed_generation = s.generation;
    observed_resume_nonce = s.resume_nonce;
    checkpoint = on_checkpoint (break_checkpoint reason) st.checkpoint;
  })

  unfoldable pub to_retrying : Session → ℕ → String → Status → Status
  unfolding safe_message
  to_retrying s attempt cause st = record st {
    phase = if same_phase st.phase unset then pending else st.phase;
    observed_generation = s.generation;
    conditions =
        set_condition
          (record {
            kind = retry_condition;
            status = "True";
            observed_generation = s.generation;
            reason = "TransientError";
            message = "attempt=" ++ decimal attempt ++ "; " ++ safe_message tools cause;
          })
          st.conditions;
  }

  module _ (kube : Kube) where
    open kube use {World, get_session, update_status, backoff_steps}

    abbrev pub after_status : Run World (Reply Unit) → Answer → Run World (Reply Unit)
    after_status retry accepted = pure (done tt)
    after_status retry conflict = retry
    after_status retry already_exists = pure (broke (other "update AgentSession status"))
    after_status retry not_there = pure (broke (gone "update AgentSession status"))
    after_status retry (refused text) =
        pure (broke (other ("update AgentSession status: " ++ text)))

    -- The write of the new status of the object that was just read.
    abbrev pub write_status : Run World (Reply Unit) → Session → Status → Run World (Reply Unit)
    write_status retry current desired =
        if same_status current.status desired
        then pure (done tt)
        else update_status current desired >>= after_status retry

    abbrev pub refreshed :
        Run World (Reply Unit) → ℕ → (Status → Status) → Lookup Session → Run World (Reply Unit)
    refreshed retry generation mutate (present current) =
        if not (current.generation == generation)
        then pure (broke (other "AgentSession generation changed"))
        else write_status retry current (mutate current.status)
    refreshed retry generation mutate absent =
        pure (broke (gone "refresh AgentSession before status update"))
    refreshed retry generation mutate (unreadable text) =
        pure (broke (other ("refresh AgentSession before status update: " ++ text)))

    -- The body that `retry.RetryOnConflict` runs at most `n` times.
    unfoldable pub set_status_from : ℕ → Session → (Status → Status) → Run World (Reply Unit)
    set_status_from zero s mutate w = (w, broke (other "update AgentSession status: conflict"))
    set_status_from (suc n) s mutate w =
        refreshed (set_status_from n s mutate) s.generation mutate
          (get_session s.namespace s.name w) w

    unfoldable pub set_status : Session → (Status → Status) → Run World (Reply Unit)
    unfolding set_status_from
    set_status s mutate = set_status_from backoff_steps s mutate

    -- A status write whose error is returned, and the outcome otherwise.
    unfoldable pub report : Session → (Status → Status) → Outcome → Run World Outcome
    unfolding set_status
    report s mutate o = on_failure (set_status s mutate) (λ f. pure (fails f.text)) (λ _. pure o)

    unfoldable pub fail : Session → String → String → Run World Outcome
    unfolding report to_failed
    fail s reason message = report s (to_failed s reason message) stop

    abbrev pub retry_delay : ℕ → ℕ
    retry_delay attempt = second * 2 ^ min (attempt - 1) 8

    unfoldable pub handle_transient : Session → Failure → Run World Outcome
    unfolding fail to_retrying retry_attempt
    handle_transient s cause =
        let attempt = retry_attempt tools s.status.conditions s.generation + 1 in
        if leb max_transient_retries attempt
        then fail s "RetryBudgetExceeded"
            ("Reconciliation failed after " ++ decimal attempt ++ " attempts")
        else on_failure (set_status s (to_retrying s attempt cause.text))
            (λ f. pure (fails (cause.text ++ "\n" ++ f.text)))
            (λ _. pure (after (retry_delay attempt)))
