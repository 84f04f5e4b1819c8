-- ===== src/Lifecycle/Protocol/Hibernation.antt =====
-- `reconcileHibernate` and `hibernateStoppedPod` keep to the rules.
use bosun.Prelude.{
  ◌≡◌, ◌≢◌, refl, ◌⊎◌, inl, inr, true, false, not, Option, none, some, arith, str_eq,
}
use bosun.Prelude.Run.{pure, on_failure}
use bosun.Cluster.{label}
use bosun.Lifecycle.{
  Session, AgentPod, hibernating, Checkpoint, CheckpointState, creating, ready, rebuilding,
  consumed, broken, present, Kube, Tools, Reconciler, idle,
}
use bosun.Lifecycle.Checks.{same_phase, belongs, pod_stopped_by_deadline, resume_nonce_annotation}
use bosun.Lifecycle.Phases.{
  second, stop, after, wants_hibernated, set_ready, to_hibernating, to_new_checkpoint,
  to_recovery_ready, to_hibernated, to_stopped, handle_transient, report,
}
use bosun.Lifecycle.Workload.{max_hibernate_grace}
use bosun.Lifecycle.Reconcile.{
  current_checkpoint, deleted, drain_in, drain_pod, drain, find_pod, reconcile_hibernate,
  hibernate_stopped_pod,
}
use bosun.Prelude.Trace.{
  Recorded, Lasts, Lasts-With, Keeps-pure, Keeps-on_failure, Keeps-logged, Keeps-if,
}
use bosun.Lifecycle.Effects.{quiesced, pod_read, pod_deleted, Log, traced}
use bosun.Lifecycle.Protocol.{
  IsAdmitted, IsRecoverable, CanFail, Allowed, IsSound, not-true, not-false, report-IsSound,
  fail-IsSound, handle_transient-IsSound,
}
use bosun.Lifecycle.Protocol.Objects.{answered-IsSound, find_pod-IsSound, deleted-IsGone}

current_checkpoint-IsRecoverable :
    (s : Session) (o : Option Checkpoint) (c : Checkpoint)
    → current_checkpoint s o ≡ some c
    → c.state ≡ ready
    → IsRecoverable s o
current_checkpoint-IsRecoverable s none c h e = cc
current_checkpoint-IsRecoverable s (some d) c h e = ground arith

module _ (tools : Tools) (kube : Kube) (r : Reconciler) (s : Session) where
  module _ (F : Log → Type 0) (lasts : Lasts F) (pod : AgentPod)
      (ours : belongs s pod.labels ≡ true)
      (read : (log : Log) → F log → Recorded (pod_read (present pod)) log) where
    module _ (alive : IsAdmitted tools s)
        (draining : same_phase s.status.phase hibernating ≡ true) where
      drain_in-IsSound :
          (state : CheckpointState)
          → (state ≡ ready → IsRecoverable s s.status.checkpoint)
          → (state ≢ creating → state ≢ ready → (log : Log) → CanFail tools s log)
          → IsSound tools kube s F (drain_in tools (traced kube) r s pod state)
      unfolding to_recovery_ready set_ready
      drain_in-IsSound creating h unusable =
          Keeps-if (Allowed tools s) F (not r.has_quiescer) _ _
            (λ _. handle_transient-IsSound tools kube s F lasts _)
            (λ _.
              Keeps-on_failure (Allowed tools s) F _ _ _
                (Keeps-logged (Allowed tools s) F (λ a. quiesced pod) (kube.quiesce pod) lasts
                  (λ a log f. (alive, draining, ours, read log f)))
                (λ f. handle_transient-IsSound tools kube s F lasts _)
                (λ result. report-IsSound tools kube s F lasts _ _ (λ old log f. inl refl)))
      drain_in-IsSound ready h unusable =
          answered-IsSound tools kube r s F lasts (handle_transient tools (traced kube) s)
            (pod_deleted pod) (kube.delete_pod pod (some max_hibernate_grace))
            (deleted "delete Pod during hibernation: ") (pure (after second))
            (λ a log f. (ours, read log f, inr (inl (alive, draining, h refl))))
            (λ e f. handle_transient-IsSound tools kube s _ (Lasts-With F _ lasts) f)
            (λ a sent. Keeps-pure (Allowed tools s) _ _)
      drain_in-IsSound rebuilding h unusable =
          fail-IsSound tools kube s F lasts _ _ (λ log f. unusable (λ e. cc) (λ e. cc) log)
      drain_in-IsSound consumed h unusable =
          fail-IsSound tools kube s F lasts _ _ (λ log f. unusable (λ e. cc) (λ e. cc) log)
      drain_in-IsSound broken h unusable =
          fail-IsSound tools kube s F lasts _ _ (λ log f. unusable (λ e. cc) (λ e. cc) log)

      drain_pod-IsSound :
          (o : Option Checkpoint)
          → current_checkpoint s s.status.checkpoint ≡ o
          → ((c : Checkpoint) → o ≡ some c → c.state ≡ ready → IsRecoverable s s.status.checkpoint)
          → IsSound tools kube s F (drain_pod tools (traced kube) r s pod o)
      unfolding to_new_checkpoint set_ready
      drain_pod-IsSound none found h =
          report-IsSound tools kube s F lasts (to_new_checkpoint tools s pod) _
            (λ old log f. inl refl)
      drain_pod-IsSound (some c) found h =
          drain_in-IsSound c.state (h c refl) (λ not_creating not_ready log.
            inr (inr (inl (alive, draining, (c, found, not_creating, not_ready)))))

    module _ (alive : IsAdmitted tools s) (stopped : pod_stopped_by_deadline pod ≡ true) where
      pub hibernate_stopped_pod-IsSound :
          IsSound tools kube s F (hibernate_stopped_pod tools (traced kube) r s pod)
      unfolding hibernate_stopped_pod to_stopped set_ready
      hibernate_stopped_pod-IsSound =
          let nonce = label resume_nonce_annotation pod.annotations in
          answered-IsSound tools kube r s F lasts (handle_transient tools (traced kube) s)
            (pod_deleted pod) (kube.delete_pod pod none) (deleted "delete deadline-stopped Pod: ")
            (report tools (traced kube) s (to_stopped tools s nonce)
              (record stop { requeue = not (str_eq nonce s.resume_nonce) }))
            (λ a log f. (ours, read log f, inr (inr (alive, stopped))))
            (λ e f. handle_transient-IsSound tools kube s _ (Lasts-With F _ lasts) f)
            (λ a sent. report-IsSound tools kube s _ (Lasts-With F _ lasts) _ _ (λ old log f. inr (
              inr (
                alive,
                inr (pod, a, stopped, deleted-IsGone "delete deadline-stopped Pod: " a sent, f.1),
              ))))

  module _ (F : Log → Type 0) (lasts : Lasts F) (alive : IsAdmitted tools s) where
    drain-IsSound :
        same_phase s.status.phase hibernating ≡ true
        → IsSound tools kube s F (
            on_failure
              (find_pod tools (traced kube) r s)
              (handle_transient tools (traced kube) s)
              (drain tools (traced kube) r s))
    unfolding to_hibernated set_ready
    drain-IsSound draining =
        find_pod-IsSound tools kube r s F lasts (handle_transient tools (traced kube) s)
          (λ e f. handle_transient-IsSound tools kube s _ (Lasts-With F _ lasts) f)
          (drain tools (traced kube) r s)
          (λ pod ours.
            drain_pod-IsSound _ (Lasts-With F _ lasts) pod ours (λ log f. f.1) alive draining
              (current_checkpoint s s.status.checkpoint) refl
              (current_checkpoint-IsRecoverable s s.status.checkpoint))
          (report-IsSound tools kube s _ (Lasts-With F _ lasts) _ _
            (λ old log f. inr (inr (alive, inl (draining, f.1)))))

    pub reconcile_hibernate-IsSound :
        (same_phase s.status.phase hibernating ≡ false
          → (wants_hibernated s.desired_state ≡ true) ⊎ (same_phase s.status.phase idle ≡ true))
        → IsSound tools kube s F (reconcile_hibernate tools (traced kube) r s)
    unfolding reconcile_hibernate to_hibernating set_ready
    reconcile_hibernate-IsSound why =
        Keeps-if (Allowed tools s) F (not (same_phase s.status.phase hibernating)) _ _
          (λ e.
            report-IsSound tools kube s F lasts _ _
              (λ old log f. inr (inr (alive, why (not-true _ e)))))
          (λ e. drain-IsSound (not-false _ e))
