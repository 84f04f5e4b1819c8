-- ===== src/Lifecycle/Effects.antt =====
-- The calls of a reconcile as a log.
use bosun.Prelude.{Bool, List}
use bosun.Prelude.Trace.{logged}
use bosun.Lifecycle.{Status, AgentPod, Claim, ServiceAccount, Lookup, Answer, Kube}

pub data Event : Type 0 where
  -- The status that was read and the one that was written.
  status_written : Status → Status → Event
  -- Whether the finalizer is there after the write.
  session_written : Bool → Event
  pod_read : Lookup AgentPod → Event
  pod_created : AgentPod → Event
  -- A deletion with its answer.
  pod_deleted : AgentPod → Answer → Event
  claim_read : Lookup Claim → Event
  claim_created : Claim → Event
  claim_deleted : Claim → Answer → Event
  account_created : ServiceAccount → Event
  account_deleted : Answer → Event
  quiesced : AgentPod → Event

-- The latest event first.
abbrev pub Log : Type 0
Log = List Event

-- The cluster that logs each call and then answers as `kube` does. The status that a write replaces
-- is the one that is stored at that time.
abbrev pub traced : Kube → Kube
traced kube = record {
  World = kube.World × Log;
  get_session = λ namespace name w. kube.get_session namespace name w.0;
  update_session = λ s. logged (λ a. session_written s.has_finalizer) (kube.update_session s);
  update_status = λ s new. logged (λ a. status_written s.status new) (kube.update_status s new);
  get_pod = λ namespace name. logged pod_read (kube.get_pod namespace name);
  create_pod = λ pod. logged (λ a. pod_created pod) (kube.create_pod pod);
  delete_pod = λ pod grace. logged (pod_deleted pod) (kube.delete_pod pod grace);
  get_claim = λ namespace name. logged claim_read (kube.get_claim namespace name);
  create_claim = λ claim. logged (λ a. claim_created claim) (kube.create_claim claim);
  delete_claim = λ claim. logged (claim_deleted claim) (kube.delete_claim claim);
  get_account =
      λ namespace name w. let (w', a) = kube.get_account namespace name w.0 in ((w', w.1), a);
  create_account = λ account. logged (λ a. account_created account) (kube.create_account account);
  delete_account = λ namespace name. logged account_deleted (kube.delete_account namespace name);
  now = λ w. kube.now w.0;
  quiesce = λ pod. logged (λ a. quiesced pod) (kube.quiesce pod);
  read_state = λ pod w. kube.read_state pod w.0;
  backoff_steps = kube.backoff_steps;
}
