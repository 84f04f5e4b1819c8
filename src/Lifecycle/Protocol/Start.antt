-- ===== src/Lifecycle/Protocol/Start.antt =====
-- `reconcileRunning` keeps to the rules.
use bosun.Prelude.{
  ◌+◌, ◌*◌, ◌≡◌, refl, inl, inr, String, Bool, true, false, not, ◌&&◌, Option, none, some, leb,
  if◌then◌else◌, str_eq,
}
use bosun.Prelude.Run.{on_failure}
use bosun.Cluster.{label, scheduling_node_annotation}
use bosun.Lifecycle.{
  Session, AgentPod, Claim, PodCondition, state_unknown, restoring, provisioning, running, idle,
  present, absent, Kube, Tools, Reconciler,
}
use bosun.Lifecycle.Checks.{
  same_phase, belongs, pod_stopped_by_deadline, session_activity, unschedulable, pod_ready,
}
use bosun.Lifecycle.Phases.{
  second, after, set_ready, to_idle, to_running, to_unschedulable, to_starting,
  to_awaiting_capacity, to_preparing, handle_transient, report,
}
use bosun.Lifecycle.Workload.{desired-belongs, desired_pod}
use bosun.Lifecycle.Reconcile.{
  idle_scan, is_restoring, start_phase, needs_preparing, keeps_busy, work_or_unknown, created,
  find_pod, ensure_account, observe_pod, pod_on_node, with_pod, without_pod, run_pod, run_workload,
  new_claim, run_claim, reconcile_running,
}
use bosun.Prelude.Trace.{Recorded, Lasts, Lasts-With, Keeps-pure, Keeps-on_failure, Keeps-if}
use bosun.Lifecycle.Effects.{pod_read, pod_created, claim_created, Log, traced}
use bosun.Lifecycle.Protocol.{
  IsStarting, HasNoClaim, CanMove, Allowed, IsSound, &&-right, report-IsSound, fail-IsSound,
  handle_transient-IsSound,
}
use bosun.Lifecycle.Protocol.Objects.{
  answered-IsSound, find_pod-IsSound, find_claim-IsSound, ensure_account-IsSound,
}
use bosun.Lifecycle.Protocol.Hibernation.{
  reconcile_hibernate-IsSound, hibernate_stopped_pod-IsSound,
}

start_phase-CanMove :
    (tools : Tools) (s : Session) (log : Log)
    → IsStarting tools s
    → CanMove tools s log (start_phase s)
start_phase-CanMove tools s log starting = by_phase (is_restoring s) refl
  where
    by_phase :
        (b : Bool)
        → is_restoring s ≡ b
        → CanMove tools s log (if b then restoring else provisioning)
    by_phase true e = (starting, e)
    by_phase false e = (starting, e)

module _ (tools : Tools) (kube : Kube) (r : Reconciler) (s : Session)
    (starting : IsStarting tools s) where
  module _ (F : Log → Type 0) (lasts : Lasts F) (prepared : needs_preparing s.status.phase ≡ false)
      (claim : String) where
    module _ (pod : AgentPod) where
      observe_pod-IsSound : IsSound tools kube s F (observe_pod tools (traced kube) r s claim pod)
      unfolding observe_pod to_idle to_running set_ready
      observe_pod-IsSound = record {
        kept = λ w o f.
            let work =
              if r.has_state_reader
              then work_or_unknown (kube.read_state pod w.0)
              else state_unknown in
            let activity = session_activity tools s pod.creation_timestamp in
            let is_idle =
              leb (activity + s.idle_timeout_seconds * second) (kube.now w.0)
              && not (keeps_busy work) in
            (Keeps-if (Allowed tools s) F (is_idle && same_phase s.status.phase running) _ _
                (λ e.
                  report-IsSound tools kube s F lasts (to_idle tools s pod claim activity)
                    (after (idle_scan r)) (λ old log f. inr (inr (starting, &&-right is_idle _ e))))
                (λ _.
                  Keeps-if (Allowed tools s) F (is_idle && same_phase s.status.phase idle) _ _
                    (λ e.
                      reconcile_hibernate-IsSound tools kube r s F lasts starting.0
                        (λ _. inr (&&-right is_idle _ e)))
                    (λ _.
                      report-IsSound tools kube s F lasts
                        (to_running tools s pod claim activity work) (after (idle_scan r))
                        (λ old log f. inr (inr (starting, prepared)))))).kept
              w o f;
      }

      pod_on_node-IsSound :
          (o : Option PodCondition)
          → IsSound tools kube s F (pod_on_node tools (traced kube) r s claim pod o)
      unfolding to_unschedulable set_ready
      pod_on_node-IsSound (some c) =
          report-IsSound tools kube s F lasts
            (to_unschedulable tools s (start_phase s) pod.name claim c.message)
            (after (idle_scan r))
            (λ old log f. inr (inr (start_phase-CanMove tools s log starting)))
      pod_on_node-IsSound none =
          Keeps-if (Allowed tools s) F (not (pod_ready pod)) _ _
            (λ _. Keeps-pure (Allowed tools s) F _) (λ _. observe_pod-IsSound)

      with_pod-IsSound :
          belongs s pod.labels ≡ true
          → ((log : Log) → F log → Recorded (pod_read (present pod)) log)
          → IsSound tools kube s F (with_pod tools (traced kube) r s claim pod)
      with_pod-IsSound ours read =
          Keeps-if (Allowed tools s) F (pod_stopped_by_deadline pod) _ _
            (λ e. hibernate_stopped_pod-IsSound tools kube r s F lasts pod ours read starting.0 e)
            (λ _.
              Keeps-if (Allowed tools s) F (str_eq pod.phase "Failed") _ _
                (λ _. handle_transient-IsSound tools kube s F lasts _)
                (λ _. pod_on_node-IsSound (unschedulable pod)))

    without_pod-IsSound :
        ((log : Log) → F log → Recorded (pod_read absent) log)
        → (o : Option String) → tools.owner_error s (desired_pod tools r s claim).name ≡ o
        → IsSound tools kube s F (without_pod tools (traced kube) r s claim o)
    unfolding to_starting set_ready
    without_pod-IsSound missing (some text) e =
        fail-IsSound tools kube s F lasts _ _
          (λ log f. inr (inr (inr (inr (starting, (_, text, e))))))
    without_pod-IsSound missing none e =
        let pod = desired_pod tools r s claim in
        answered-IsSound tools kube r s F lasts (handle_transient tools (traced kube) s)
          (λ a. pod_created pod) (kube.create_pod pod) (created "create Pod: ")
          (report tools (traced kube) s (to_starting tools s (start_phase s) pod.name claim)
            (after (idle_scan r)))
          (λ a log f. (starting, prepared, (desired-belongs tools r s claim).0, missing log f))
          (λ e f. handle_transient-IsSound tools kube s _ (Lasts-With F _ lasts) f)
          (λ a sent.
            report-IsSound tools kube s _ (Lasts-With F _ lasts) _ _
              (λ old log f. inr (inr (start_phase-CanMove tools s log starting))))

  module _ (F : Log → Type 0) (lasts : Lasts F) where
    workload_ready-IsSound :
        (claim : String)
        → needs_preparing s.status.phase ≡ false
        → IsSound tools kube s F (
            on_failure
              (find_pod tools (traced kube) r s)
              (handle_transient tools (traced kube) s)
              (run_pod tools (traced kube) r s claim))
    workload_ready-IsSound claim prepared =
        find_pod-IsSound tools kube r s F lasts (handle_transient tools (traced kube) s)
          (λ e f. handle_transient-IsSound tools kube s _ (Lasts-With F _ lasts) f)
          (run_pod tools (traced kube) r s claim)
          (λ pod ours.
            with_pod-IsSound _ (Lasts-With F _ lasts) prepared claim pod ours (λ log f. f.1))
          (without_pod-IsSound _ (Lasts-With F _ lasts) prepared claim (λ log f. f.1)
            (tools.owner_error s (desired_pod tools r s claim).name) refl)

    run_workload-IsSound :
        (claim : String) → IsSound tools kube s F (run_workload tools (traced kube) r s claim)
    unfolding to_awaiting_capacity to_preparing set_ready
    run_workload-IsSound claim =
        Keeps-on_failure (Allowed tools s) F (ensure_account tools (traced kube) r s)
          (handle_transient tools (traced kube) s) _
          (ensure_account-IsSound tools kube r s F lasts starting)
          (handle_transient-IsSound tools kube s F lasts)
          λ _.
            Keeps-if (Allowed tools s) F
              (r.capacity_scheduling_enabled
                && str_eq s.status.pod_name ""
                && str_eq (label scheduling_node_annotation s.annotations) "")
              _ _ (λ _. report-IsSound tools kube s F lasts _ _ (λ old log f. inr (inr starting)))
              (λ _.
                Keeps-if (Allowed tools s) F (needs_preparing s.status.phase) _ _
                  (λ _.
                    report-IsSound tools kube s F lasts _ _
                      (λ old log f. inr (inr (start_phase-CanMove tools s log starting))))
                  (workload_ready-IsSound claim))

  module _ (F : Log → Type 0) (lasts : Lasts F) where
    new_claim-IsSound :
        is_restoring s && not (str_eq s.status.pvc_name "") ≡ false
        → (claim : Claim) → belongs s claim.labels ≡ true
        → (o : Option String) → tools.owner_error s claim.name ≡ o
        → IsSound tools kube s F (new_claim tools (traced kube) r s claim o)
    new_claim-IsSound fresh claim ours (some text) e =
        fail-IsSound tools kube s F lasts _ _
          (λ log f. inr (inr (inr (inr (starting, (_, text, e))))))
    new_claim-IsSound fresh claim ours none e =
        answered-IsSound tools kube r s F lasts (handle_transient tools (traced kube) s)
          (λ a. claim_created claim) (kube.create_claim claim)
          (created "create PersistentVolumeClaim: ")
          (run_workload tools (traced kube) r s claim.name) (λ a log f. (starting, ours, fresh))
          (λ e f. handle_transient-IsSound tools kube s _ (Lasts-With F _ lasts) f)
          (λ a sent. run_workload-IsSound _ (Lasts-With F _ lasts) claim.name)

    run_claim-IsSound :
        (o : Option Claim)
        → (o ≡ none → (log : Log) → F log → HasNoClaim s log)
        → IsSound tools kube s F (run_claim tools (traced kube) r s o)
    run_claim-IsSound (some claim) gone = run_workload-IsSound F lasts claim.name
    run_claim-IsSound none gone =
        Keeps-if (Allowed tools s) F (is_restoring s && not (str_eq s.status.pvc_name "")) _ _
          (λ lost.
            fail-IsSound tools kube s F lasts _ _
              (λ log f. inr (inr (inr (inl (starting, (lost, gone refl log f)))))))
          (λ fresh. new_claim-IsSound fresh _ (desired-belongs tools r s "").1 _ refl)

  pub reconcile_running-IsSound :
      (F : Log → Type 0)
      → Lasts F
      → IsSound tools kube s F (reconcile_running tools (traced kube) r s)
  unfolding reconcile_running
  reconcile_running-IsSound F lasts =
      find_claim-IsSound tools kube r s F lasts (handle_transient tools (traced kube) s)
        (λ e f. handle_transient-IsSound tools kube s _ (Lasts-With F _ lasts) f)
        (run_claim tools (traced kube) r s)
        (λ l claim ours. run_claim-IsSound _ (Lasts-With F _ lasts) (some claim) (λ e. cc))
        (λ l gone. run_claim-IsSound _ (Lasts-With F _ lasts) none (λ e log f. (l, f.1, gone)))
