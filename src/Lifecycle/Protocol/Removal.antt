-- ===== src/Lifecycle/Protocol/Removal.antt =====
-- `reconcileDelete` keeps to the rules.
use bosun.Prelude.{◌≡◌, inl, inr, true, false, not, none, some}
use bosun.Prelude.Run.{done, pure, on_failure}
use bosun.Lifecycle.{Session, AgentPod, Claim, Lookup, present, absent, Kube, Tools, Reconciler}
use bosun.Lifecycle.Checks.{belongs, account_name}
use bosun.Lifecycle.Phases.{second, after, set_ready, to_deleting, set_status, handle_transient}
use bosun.Lifecycle.Reconcile.{
  own_claim, finalized, deleted, find_claim, remove_claim, remove_pod, remove_workload,
  reconcile_delete,
}
use bosun.Prelude.Trace.{
  Recorded, Lasts, Lasts-With, Keeps-pure, Keeps-bind, Keeps-on_failure, Keeps-logged, Keeps-if,
}
use bosun.Lifecycle.Effects.{
  session_written, pod_read, pod_deleted, claim_read, claim_deleted, account_deleted, Log, traced,
}
use bosun.Lifecycle.Protocol.{
  IsDropped, Allowed, IsSound, set_status-IsSound, handle_transient-IsSound,
}
use bosun.Lifecycle.Protocol.Objects.{
  answered-IsSound, find_pod-IsSound, find_claim-IsSound, deleted-IsGone,
}

module _ (tools : Tools) (kube : Kube) (r : Reconciler) (s : Session)
    (leaving : s.is_deleting ≡ true) where
  module _ (F : Log → Type 0) (lasts : Lasts F) where
    module _ (dropped : (log : Log) → F log → IsDropped log) where
      claim_left-IsSound :
          (claim : Claim)
          → belongs s claim.labels ≡ true
          → IsSound tools kube s F (remove_claim tools (traced kube) r s (some claim))
      claim_left-IsSound claim ours =
          answered-IsSound tools kube r s F lasts (handle_transient tools (traced kube) s)
            (claim_deleted claim) (kube.delete_claim claim)
            (deleted "delete PersistentVolumeClaim: ") (pure (after second))
            (λ a log f. (leaving, ours, dropped log f))
            (λ e f. handle_transient-IsSound tools kube s _ (Lasts-With F _ lasts) f)
            (λ a sent. Keeps-pure (Allowed tools s) _ _)

      claim_gone-IsSound :
          (l : Lookup Claim)
          → own_claim s l ≡ done none
          → ((log : Log) → F log → Recorded (claim_read l) log)
          → IsSound tools kube s F (remove_claim tools (traced kube) r s none)
      claim_gone-IsSound l unowned read =
          Keeps-bind (Allowed tools s) F _ _
            (Keeps-logged (Allowed tools s) F (λ a. session_written false)
              (kube.update_session (record s { has_finalizer = false })) lasts
              (λ a log f. (leaving, dropped log f, (l, read log f, unowned))))
            (λ a. Keeps-pure (Allowed tools s) F (finalized a))

  module _ (F : Log → Type 0) (lasts : Lasts F) where
    claim_found-IsSound :
        ((log : Log) → F log → IsDropped log)
        → IsSound tools kube s F (
            on_failure
              (find_claim tools (traced kube) r s)
              (handle_transient tools (traced kube) s)
              (remove_claim tools (traced kube) r s))
    claim_found-IsSound dropped =
        find_claim-IsSound tools kube r s F lasts (handle_transient tools (traced kube) s)
          (λ e f. handle_transient-IsSound tools kube s _ (Lasts-With F _ lasts) f)
          (remove_claim tools (traced kube) r s)
          (λ l claim ours.
            claim_left-IsSound _ (Lasts-With F _ lasts) (λ log f. dropped log f.0) claim ours)
          (λ l unowned.
            claim_gone-IsSound _ (Lasts-With F _ lasts) (λ log f. dropped log f.0) l unowned
              (λ log f. f.1))

  module _ (F : Log → Type 0) (lasts : Lasts F) where
    pod_left-IsSound :
        (pod : AgentPod)
        → belongs s pod.labels ≡ true
        → ((log : Log) → F log → Recorded (pod_read (present pod)) log)
        → IsSound tools kube s F (remove_pod tools (traced kube) r s (some pod))
    pod_left-IsSound pod ours read =
        answered-IsSound tools kube r s F lasts (handle_transient tools (traced kube) s)
          (pod_deleted pod) (kube.delete_pod pod none) (deleted "delete Pod: ")
          (pure (after second)) (λ a log f. (ours, read log f, inl leaving))
          (λ e f. handle_transient-IsSound tools kube s _ (Lasts-With F _ lasts) f)
          (λ a sent. Keeps-pure (Allowed tools s) _ _)

    pod_gone-IsSound :
        ((log : Log) → F log → Recorded (pod_read absent) log)
        → IsSound tools kube s F (remove_pod tools (traced kube) r s none)
    pod_gone-IsSound gone =
        answered-IsSound tools kube r s F lasts (handle_transient tools (traced kube) s)
          account_deleted (kube.delete_account s.namespace (account_name tools s.session_id))
          (deleted "delete ServiceAccount: ")
          (on_failure (find_claim tools (traced kube) r s) (handle_transient tools (traced kube) s)
            (remove_claim tools (traced kube) r s))
          (λ a log f. (leaving, gone log f))
          (λ e f. handle_transient-IsSound tools kube s _ (Lasts-With F _ lasts) f)
          (λ a sent.
            claim_found-IsSound _ (Lasts-With F _ lasts)
              (λ log f. (a, deleted-IsGone "delete ServiceAccount: " a sent, f.1)))

  module _ (F : Log → Type 0) (lasts : Lasts F) where
    remove_workload-IsSound : IsSound tools kube s F (remove_workload tools (traced kube) r s)
    remove_workload-IsSound =
        find_pod-IsSound tools kube r s F lasts (handle_transient tools (traced kube) s)
          (λ e f. handle_transient-IsSound tools kube s _ (Lasts-With F _ lasts) f)
          (remove_pod tools (traced kube) r s)
          (λ pod ours. pod_left-IsSound _ (Lasts-With F _ lasts) pod ours (λ log f. f.1))
          (pod_gone-IsSound _ (Lasts-With F _ lasts) (λ log f. f.1))

    pub reconcile_delete-IsSound : IsSound tools kube s F (reconcile_delete tools (traced kube) r s)
    unfolding reconcile_delete to_deleting set_ready
    reconcile_delete-IsSound =
        Keeps-if (Allowed tools s) F (not s.has_finalizer) _ _
          (λ _. Keeps-pure (Allowed tools s) F _)
          (λ _.
            Keeps-on_failure (Allowed tools s) F
              (set_status tools (traced kube) s (to_deleting tools s)) _ _
              (set_status-IsSound tools kube s F lasts _ (λ old log f. inr (inr leaving)))
              (λ f.
                Keeps-if (Allowed tools s) F f.is_not_found _ _ (λ _. remove_workload-IsSound)
                  (λ _. Keeps-pure (Allowed tools s) F _))
              (λ _. remove_workload-IsSound))
