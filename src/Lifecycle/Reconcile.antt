-- ===== src/Lifecycle/Reconcile.antt =====
-- operator/internal/controller/agentsession_controller.go: one reconcile of an AgentSession, from the
-- object that was read to the calls that it leads to. The texts of errors leave
-- out the names of the objects.
use Prim.Native.String.{◌++◌}
use bosun.Prelude.{
  ℕ, ◌+◌, ◌*◌, String, Bool, true, false, not, ◌&&◌, ◌||◌, Option, none, some, leb, ◌==◌, str_eq,
  if◌then◌else◌,
}
use bosun.Prelude.Run.{Run, Reply, done, broke, wrap, pure, ◌>>=◌, on_failure}
use bosun.Cluster.{label, scheduling_node_annotation}
use bosun.Lifecycle.{
  Session, Phase, unset, pending, provisioning, running, idle, hibernating, hibernated, restoring,
  failed, Checkpoint, CheckpointState, application, process, creating, ready, AgentPod, Claim,
  ServiceAccount, PodCondition, WorkState, state_unknown, working, awaiting_approval,
  awaiting_choice, Lookup, present, absent, unreadable, Answer, accepted, conflict, already_exists,
  not_there, refused, Kube, Tools, Reconciler, Outcome,
}
use bosun.Lifecycle.Checks.{
  same_phase, belongs, pod_name, claim_name, account_name, validate_session, session_activity,
  pod_ready, pod_stopped_by_deadline, unschedulable, resume_nonce_annotation,
}
use bosun.Lifecycle.Workload.{desired_claim, desired_account, desired_pod, max_hibernate_grace}
use bosun.Lifecycle.Phases.{
  second, stop, again, after, fails, other, wants_hibernated, to_invalid, to_awaiting_capacity,
  to_preparing, to_starting, to_unschedulable, to_idle, to_running, to_hibernating,
  to_new_checkpoint, to_recovery_ready, to_hibernated, to_stopped, to_deleting, set_status, report,
  fail, handle_transient,
}

-- 30 seconds.
abbrev pub default_idle_scan : ℕ
default_idle_scan = 30 * second

abbrev pub idle_scan : Reconciler → ℕ
idle_scan r = if r.idle_scan_interval == 0 then default_idle_scan else r.idle_scan_interval

abbrev pub is_restoring : Session → Bool
is_restoring s = same_phase s.status.phase hibernated || same_phase s.status.phase restoring

abbrev pub start_phase : Session → Phase
start_phase s = if is_restoring s then restoring else provisioning

-- The phases from which the workload is prepared first.
abbrev pub needs_preparing : Phase → Bool
needs_preparing p =
    same_phase p unset || same_phase p pending || same_phase p hibernated || same_phase p failed

abbrev pub keeps_busy : WorkState → Bool
keeps_busy working = true
keeps_busy awaiting_approval = true
keeps_busy awaiting_choice = true
keeps_busy _ = false

abbrev pub work_or_unknown : Option WorkState → WorkState
work_or_unknown none = state_unknown
work_or_unknown (some w) = w

abbrev pub is_application : Checkpoint → Bool
is_application c = elim c.mode [ application ↦ true | process ↦ false ]

-- The checkpoint of this hibernation.
abbrev pub current_checkpoint : Session → Option Checkpoint → Option Checkpoint
current_checkpoint s none = none
current_checkpoint s (some c) =
    if is_application c && str_eq c.id s.resume_nonce then some c else none

-- A create whose error counts, unless the object is there already.
abbrev pub created : String → Answer → Reply Unit
created prefix accepted = done tt
created prefix already_exists = done tt
created prefix conflict = broke (other (prefix ++ "conflict"))
created prefix not_there = broke (other (prefix ++ "not found"))
created prefix (refused text) = broke (other (prefix ++ text))

-- A delete whose error counts, unless the object is gone already.
abbrev pub deleted : String → Answer → Reply Unit
deleted prefix accepted = done tt
deleted prefix not_there = done tt
deleted prefix already_exists = broke (other (prefix ++ "already exists"))
deleted prefix conflict = broke (other (prefix ++ "conflict"))
deleted prefix (refused text) = broke (other (prefix ++ text))

abbrev pub creating_it : {W : Type 0} → String → Run W Answer → Run W (Reply Unit)
creating_it prefix call = call >>= λ a. pure (created prefix a)

abbrev pub deleting_it : {W : Type 0} → String → Run W Answer → Run W (Reply Unit)
deleting_it prefix call = call >>= λ a. pure (deleted prefix a)

abbrev pub own_pod : Session → Lookup AgentPod → Reply (Option AgentPod)
own_pod s absent = done none
own_pod s (unreadable text) = broke (other ("get Pod: " ++ text))
own_pod s (present pod) =
    if belongs s pod.labels then done (some pod) else broke (other "Pod is not managed by Bosun")

abbrev pub own_claim : Session → Lookup Claim → Reply (Option Claim)
own_claim s absent = done none
own_claim s (unreadable text) = broke (other ("get PersistentVolumeClaim: " ++ text))
own_claim s (present claim) =
    if claim.is_deleting
    then done none
    else if belongs s claim.labels
    then done (some claim)
    else broke (other "PersistentVolumeClaim is not managed by Bosun")

abbrev pub finalized : Answer → Outcome
finalized accepted = stop
finalized not_there = stop
finalized already_exists = fails "remove AgentSession finalizer: already exists"
finalized conflict = fails "remove AgentSession finalizer: conflict"
finalized (refused text) = fails ("remove AgentSession finalizer: " ++ text)

abbrev pub finalizer_added : Answer → Outcome
finalizer_added accepted = again
finalizer_added not_there = fails "add AgentSession finalizer: not found"
finalizer_added already_exists = fails "add AgentSession finalizer: already exists"
finalizer_added conflict = fails "add AgentSession finalizer: conflict"
finalizer_added (refused text) = fails ("add AgentSession finalizer: " ++ text)

abbrev pub is_settled_failure : Session → Bool
is_settled_failure s =
    same_phase s.status.phase failed
    && s.status.observed_generation == s.generation
    && str_eq s.status.observed_resume_nonce s.resume_nonce

module _ (tools : Tools) (kube : Kube) (r : Reconciler) where
  open kube use {
    World, get_session, update_session, get_pod, create_pod, delete_pod, get_claim, create_claim,
    delete_claim, get_account, create_account, delete_account, now, quiesce, read_state,
  }
  open tools use {owner_error}

  -- `getPod`.
  unfoldable pub find_pod : Session → Run World (Reply (Option AgentPod))
  unfolding pod_name belongs
  find_pod s = get_pod s.namespace (pod_name tools s.session_id) >>= λ l. pure (own_pod s l)

  -- `getPVC`: a claim that is being deleted counts as missing.
  unfoldable pub find_claim : Session → Run World (Reply (Option Claim))
  unfolding claim_name belongs
  find_claim s = get_claim s.namespace (claim_name tools s.session_id) >>= λ l. pure (own_claim s l)

  -- After `SetControllerReference`.
  abbrev pub owned : Option String → Run World (Reply Unit) → Run World (Reply Unit)
  owned (some text) create = pure (broke (other ("own ServiceAccount: " ++ text)))
  owned none create = create

  abbrev pub account_found : Session → Lookup ServiceAccount → Run World (Reply Unit)
  account_found s (present account) = pure (
      if belongs s account.labels
      then done tt
      else broke (other "ServiceAccount is not managed by Bosun"))
  account_found s (unreadable text) = pure (broke (other ("get ServiceAccount: " ++ text)))
  account_found s absent =
      owned (owner_error s (account_name tools s.session_id))
        (creating_it "create ServiceAccount: " (create_account (desired_account tools s)))

  unfoldable pub ensure_account : Session → Run World (Reply Unit)
  unfolding account_name desired_account belongs
  ensure_account s = get_account s.namespace (account_name tools s.session_id) >>= account_found s

  -- By the state of the checkpoint of this hibernation.
  abbrev pub drain_in : Session → AgentPod → CheckpointState → Run World Outcome
  drain_in s pod creating =
      if not r.has_quiescer
      then handle_transient tools kube s (other "agent quiescer is not configured")
      else on_failure (quiesce pod)
          (λ f. handle_transient tools kube s (wrap "quiesce agent Pod: " f))
          (λ result. report tools kube s (to_recovery_ready tools s pod result) again)
  drain_in s pod ready =
      on_failure
        (deleting_it "delete Pod during hibernation: " (delete_pod pod (some max_hibernate_grace)))
        (handle_transient tools kube s) (λ _. pure (after second))
  drain_in s pod _ =
      fail tools kube s "RecoveryUnavailable" "Application recovery manifest is not ready"

  -- `reconcileHibernate` for a Pod that is there.
  abbrev pub drain_pod : Session → AgentPod → Option Checkpoint → Run World Outcome
  drain_pod s pod none = report tools kube s (to_new_checkpoint tools s pod) again
  drain_pod s pod (some c) = drain_in s pod c.state

  abbrev pub drain : Session → Option AgentPod → Run World Outcome
  drain s (some pod) = drain_pod s pod (current_checkpoint s s.status.checkpoint)
  drain s none =
      report tools kube s (to_hibernated tools s)
        (record stop { requeue = not (wants_hibernated s.desired_state) })

  unfoldable pub reconcile_hibernate : Session → Run World Outcome
  unfolding report to_hibernating to_new_checkpoint to_recovery_ready to_hibernated find_pod fail
      handle_transient
  reconcile_hibernate s =
      if not (same_phase s.status.phase hibernating)
      then report tools kube s (to_hibernating tools s) again
      else on_failure (find_pod s) (handle_transient tools kube s) (drain s)

  unfoldable pub hibernate_stopped_pod : Session → AgentPod → Run World Outcome
  unfolding report to_stopped handle_transient
  hibernate_stopped_pod s pod =
      let nonce = label resume_nonce_annotation pod.annotations in
      on_failure (deleting_it "delete deadline-stopped Pod: " (delete_pod pod none))
        (handle_transient tools kube s)
        (λ _.
          report tools kube s (to_stopped tools s nonce)
            (record stop { requeue = not (str_eq nonce s.resume_nonce) }))

  -- From `podReady` on: the Pod is idle, at work, or idle for good.
  unfoldable pub observe_pod : Session → String → AgentPod → Run World Outcome
  unfolding report to_idle to_running reconcile_hibernate session_activity
  observe_pod s claim pod w =
      let work = if r.has_state_reader then work_or_unknown (read_state pod w) else state_unknown in
      let activity = session_activity tools s pod.creation_timestamp in
      let is_idle =
        leb (activity + s.idle_timeout_seconds * second) (now w) && not (keeps_busy work) in
      (if is_idle && same_phase s.status.phase running
          then report tools kube s (to_idle tools s pod claim activity) (after (idle_scan r))
          else if is_idle && same_phase s.status.phase idle
          then reconcile_hibernate s
          else report tools kube s (to_running tools s pod claim activity work)
              (after (idle_scan r)))
        w

  -- A Pod that runs; the condition is that of a Pod without a Node.
  abbrev pub pod_on_node : Session → String → AgentPod → Option PodCondition → Run World Outcome
  pod_on_node s claim pod (some c) =
      report tools kube s (to_unschedulable tools s (start_phase s) pod.name claim c.message)
        (after (idle_scan r))
  pod_on_node s claim pod none =
      if not (pod_ready pod) then pure (after (idle_scan r)) else observe_pod s claim pod

  abbrev pub with_pod : Session → String → AgentPod → Run World Outcome
  with_pod s claim pod =
      if pod_stopped_by_deadline pod
      then hibernate_stopped_pod s pod
      else if str_eq pod.phase "Failed"
      then handle_transient tools kube s (other ("agent Pod failed: " ++ pod.message))
      else pod_on_node s claim pod (unschedulable pod)

  abbrev pub without_pod : Session → String → Option String → Run World Outcome
  without_pod s claim (some text) =
      fail tools kube s "OwnershipError" ("Could not own agent Pod: " ++ text)
  without_pod s claim none =
      let pod = desired_pod tools r s claim in
      on_failure (creating_it "create Pod: " (create_pod pod)) (handle_transient tools kube s) (λ _.
        report tools kube s (to_starting tools s (start_phase s) pod.name claim)
          (after (idle_scan r)))

  abbrev pub run_pod : Session → String → Option AgentPod → Run World Outcome
  run_pod s claim (some pod) = with_pod s claim pod
  run_pod s claim none = without_pod s claim (owner_error s (desired_pod tools r s claim).name)

  -- From the service account on, with the name of the claim.
  abbrev pub run_workload : Session → String → Run World Outcome
  run_workload s claim = on_failure (ensure_account s) (handle_transient tools kube s) λ _.
      if r.capacity_scheduling_enabled
        && str_eq s.status.pod_name ""
        && str_eq (label scheduling_node_annotation s.annotations) ""
      then report tools kube s (to_awaiting_capacity tools s claim) (after (idle_scan r))
      else if needs_preparing s.status.phase
      then report tools kube s (to_preparing tools s (start_phase s) (is_restoring s) claim) again
      else on_failure (find_pod s) (handle_transient tools kube s) (run_pod s claim)

  abbrev pub new_claim : Session → Claim → Option String → Run World Outcome
  new_claim s claim (some text) =
      fail tools kube s "OwnershipError" ("Could not own workspace PVC: " ++ text)
  new_claim s claim none =
      on_failure (creating_it "create PersistentVolumeClaim: " (create_claim claim))
        (handle_transient tools kube s) (λ _. run_workload s claim.name)

  abbrev pub run_claim : Session → Option Claim → Run World Outcome
  run_claim s (some claim) = run_workload s claim.name
  run_claim s none =
      if is_restoring s && not (str_eq s.status.pvc_name "")
      then fail tools kube s "WorkspaceUnavailable"
          "Original workspace PVC is unavailable; an empty workspace was not created"
      else new_claim s (desired_claim tools r s) (owner_error s (desired_claim tools r s).name)

  unfoldable pub reconcile_running : Session → Run World Outcome
  unfolding find_claim find_pod ensure_account fail handle_transient report to_awaiting_capacity
      to_preparing to_starting to_unschedulable desired_claim desired_pod hibernate_stopped_pod
      observe_pod pod_ready pod_stopped_by_deadline unschedulable
  reconcile_running s = on_failure (find_claim s) (handle_transient tools kube s) (run_claim s)

  abbrev pub remove_claim : Session → Option Claim → Run World Outcome
  remove_claim s (some claim) =
      on_failure (deleting_it "delete PersistentVolumeClaim: " (delete_claim claim))
        (handle_transient tools kube s) (λ _. pure (after second))
  remove_claim s none =
      update_session (record s { has_finalizer = false }) >>= λ a. pure (finalized a)

  abbrev pub remove_pod : Session → Option AgentPod → Run World Outcome
  remove_pod s (some pod) =
      on_failure (deleting_it "delete Pod: " (delete_pod pod none)) (handle_transient tools kube s)
        (λ _. pure (after second))
  remove_pod s none =
      on_failure
        (deleting_it "delete ServiceAccount: "
          (delete_account s.namespace (account_name tools s.session_id)))
        (handle_transient tools kube s)
        λ _. on_failure (find_claim s) (handle_transient tools kube s) (remove_claim s)

  abbrev pub remove_workload : Session → Run World Outcome
  remove_workload s = on_failure (find_pod s) (handle_transient tools kube s) (remove_pod s)

  unfoldable pub reconcile_delete : Session → Run World Outcome
  unfolding set_status to_deleting find_pod find_claim account_name handle_transient
  reconcile_delete s =
      if not s.has_finalizer
      then pure stop
      else on_failure (set_status tools kube s (to_deleting tools s))
          (λ f. if f.is_not_found then remove_workload s else pure (fails f.text))
          (λ _. remove_workload s)

  -- The `switch` on the desired state and the phase.
  unfoldable pub dispatch : Session → Run World Outcome
  unfolding reconcile_hibernate reconcile_running
  dispatch s =
      if is_settled_failure s
      then pure stop
      else if wants_hibernated s.desired_state && same_phase s.status.phase hibernated
      then pure stop
      else if wants_hibernated s.desired_state
      then reconcile_hibernate s
      else if same_phase s.status.phase hibernating
      then reconcile_hibernate s
      else if same_phase s.status.phase hibernated
          && str_eq s.status.observed_resume_nonce s.resume_nonce
      then pure stop
      else reconcile_running s

  abbrev pub with_valid : Session → Option String → Run World Outcome
  with_valid s (some text) = report tools kube s (to_invalid tools s text) stop
  with_valid s none =
      if not s.has_finalizer
      then (update_session (record s { has_finalizer = true }) >>= λ a. pure (finalizer_added a))
      else dispatch s

  abbrev pub with_session : Lookup Session → Run World Outcome
  with_session absent = pure stop
  with_session (unreadable text) = pure (fails ("get AgentSession: " ++ text))
  with_session (present s) =
      if s.is_deleting then reconcile_delete s else with_valid s (validate_session tools s)

  unfoldable pub reconcile : String → String → Run World Outcome
  unfolding reconcile_delete dispatch report to_invalid validate_session
  reconcile namespace name w = with_session (get_session namespace name w) w
