-- ===== src/Lifecycle/Protocol/Objects.antt =====
-- The reads, creates and deletes of the controller, with what is known after each.
use bosun.Prelude.{◌≡◌, refl, String, true, Option, none, some, arith}
use bosun.Prelude.Run.{Run, Failure, Reply, done, broke, pure, ◌>>=◌, go_on, on_failure}
use bosun.Lifecycle.{
  Session, AgentPod, Claim, ServiceAccount, Lookup, present, absent, unreadable, Answer, accepted,
  conflict, already_exists, not_there, refused, Kube, Tools, Reconciler,
}
use bosun.Lifecycle.Checks.{belongs, pod_name, claim_name, account_name}
use bosun.Lifecycle.Workload.{desired-belongs, desired_account}
use bosun.Lifecycle.Reconcile.{
  own_pod, own_claim, created, deleted, find_pod, find_claim, ensure_account, account_found, owned,
}
use bosun.Prelude.Trace.{
  logged, Lasts, With, Keeps-pure, Keeps-bind, Keeps-go_on_if, Keeps-logged, Keeps-logged_bind,
}
use bosun.Lifecycle.Effects.{Event, pod_read, claim_read, account_created, Log, traced}
use bosun.Lifecycle.Protocol.{IsStarting, IsGone, Allowed, IsSound}

pub deleted-IsGone : (prefix : String) (a : Answer) → deleted prefix a ≡ done tt → IsGone a
deleted-IsGone prefix accepted h = tt
deleted-IsGone prefix not_there h = tt
deleted-IsGone prefix already_exists h = cc
deleted-IsGone prefix conflict h = cc
deleted-IsGone prefix (refused text) h = cc

module _ (tools : Tools) (kube : Kube) (r : Reconciler) (s : Session) (F : Log → Type 0)
    (lasts : Lasts F) where
  open kube use {World}

  own_claim-deleting :
      (claim : Claim) → claim.is_deleting ≡ true → own_claim s (present claim) ≡ done none
  own_claim-deleting claim gone = ground arith

  module _ {A : Type 0} (handle : Failure → Run (World × Log) A) where
    -- A write, the reply to its answer, and what follows.
    pub answered-IsSound :
        (event : Answer → Event) (call : Run World Answer) (reply : Answer → Reply Unit)
        (next : Run (World × Log) A)
        → ((a : Answer) (log : Log) → F log → Allowed tools s (event a) log)
        → ((e : Event) (f : Failure) → IsSound tools kube s (With F e) (handle f))
        → ((a : Answer) → reply a ≡ done tt → IsSound tools kube s (With F (event a)) next)
        → IsSound tools kube s F
            (on_failure (logged event call >>= λ a. pure (reply a)) handle (λ _. next))
    answered-IsSound event call reply next ok hh hn =
        Keeps-logged_bind (Allowed tools s) F event call (λ a. go_on handle (λ _. next) (reply a))
          lasts ok (λ a. by_reply a (reply a) refl)
      where
        by_reply :
            (a : Answer) (x : Reply Unit)
            → reply a ≡ x
            → IsSound tools kube s (With F (event a)) (go_on handle (λ _. next) x)
        by_reply a (done u) e = hn a e
        by_reply a (broke f) e = hh (event a) f

    module _ (hh : (e : Event) (f : Failure) → IsSound tools kube s (With F e) (handle f)) where
      own_pod-IsSound :
          (next : Option AgentPod → Run (World × Log) A)
          → ((pod : AgentPod)
              → belongs s pod.labels ≡ true
              → IsSound tools kube s (With F (pod_read (present pod))) (next (some pod)))
          → IsSound tools kube s (With F (pod_read absent)) (next none)
          → (l : Lookup AgentPod)
          → IsSound tools kube s (With F (pod_read l)) (go_on handle next (own_pod s l))
      own_pod-IsSound next found missing absent = missing
      own_pod-IsSound next found missing (unreadable text) = hh _ _
      own_pod-IsSound next found missing (present pod) =
          Keeps-go_on_if (Allowed tools s) (With F (pod_read (present pod))) handle next
            (belongs s pod.labels) _ _ (found pod) (λ _. hh _ _)

      pub find_pod-IsSound :
          (next : Option AgentPod → Run (World × Log) A)
          → ((pod : AgentPod)
              → belongs s pod.labels ≡ true
              → IsSound tools kube s (With F (pod_read (present pod))) (next (some pod)))
          → IsSound tools kube s (With F (pod_read absent)) (next none)
          → IsSound tools kube s F (on_failure (find_pod tools (traced kube) r s) handle next)
      unfolding find_pod
      find_pod-IsSound next found missing =
          Keeps-logged_bind (Allowed tools s) F pod_read
            (kube.get_pod s.namespace (pod_name tools s.session_id))
            (λ l. go_on handle next (own_pod s l)) lasts (λ l log f. tt)
            (own_pod-IsSound next found missing)

      own_claim-IsSound :
          (next : Option Claim → Run (World × Log) A)
          → ((l : Lookup Claim) (claim : Claim)
              → belongs s claim.labels ≡ true
              → IsSound tools kube s (With F (claim_read l)) (next (some claim)))
          → ((l : Lookup Claim)
              → own_claim s l ≡ done none
              → IsSound tools kube s (With F (claim_read l)) (next none))
          → (l : Lookup Claim)
          → IsSound tools kube s (With F (claim_read l)) (go_on handle next (own_claim s l))
      own_claim-IsSound next found missing absent = missing absent refl
      own_claim-IsSound next found missing (unreadable text) = hh _ _
      own_claim-IsSound next found missing (present claim) =
          let G = With F (claim_read (present claim)) in
          Keeps-go_on_if (Allowed tools s) G handle next claim.is_deleting _ _
            (λ gone. missing (present claim) (own_claim-deleting claim gone))
            (λ _.
              Keeps-go_on_if (Allowed tools s) G handle next (belongs s claim.labels) _ _
                (found (present claim) claim) (λ _. hh _ _))

      -- A claim that is there and not being deleted, or none that is ours.
      pub find_claim-IsSound :
          (next : Option Claim → Run (World × Log) A)
          → ((l : Lookup Claim) (claim : Claim)
              → belongs s claim.labels ≡ true
              → IsSound tools kube s (With F (claim_read l)) (next (some claim)))
          → ((l : Lookup Claim)
              → own_claim s l ≡ done none
              → IsSound tools kube s (With F (claim_read l)) (next none))
          → IsSound tools kube s F (on_failure (find_claim tools (traced kube) r s) handle next)
      unfolding find_claim
      find_claim-IsSound next found missing =
          Keeps-logged_bind (Allowed tools s) F claim_read
            (kube.get_claim s.namespace (claim_name tools s.session_id))
            (λ l. go_on handle next (own_claim s l)) lasts (λ l log f. tt)
            (own_claim-IsSound next found missing)

  owned-IsSound :
      (o : Option String) (create : Run (World × Log) (Reply Unit))
      → IsSound tools kube s F create
      → IsSound tools kube s F (owned tools (traced kube) r o create)
  owned-IsSound (some text) create h = Keeps-pure (Allowed tools s) F _
  owned-IsSound none create h = h

  account_found-IsSound :
      IsStarting tools s
      → (l : Lookup ServiceAccount)
      → IsSound tools kube s F (account_found tools (traced kube) r s l)
  account_found-IsSound starting (present account) = Keeps-pure (Allowed tools s) F _
  account_found-IsSound starting (unreadable text) = Keeps-pure (Allowed tools s) F _
  account_found-IsSound starting absent =
      owned-IsSound (tools.owner_error s (account_name tools s.session_id)) _ (
        Keeps-bind (Allowed tools s) F _ _
          (Keeps-logged (Allowed tools s) F (λ a. account_created (desired_account tools s))
            (kube.create_account (desired_account tools s)) lasts
            (λ a log f. (starting, (desired-belongs tools r s "").2)))
          (λ a. Keeps-pure (Allowed tools s) F (created "create ServiceAccount: " a)))

  pub ensure_account-IsSound :
      IsStarting tools s → IsSound tools kube s F (ensure_account tools (traced kube) r s)
  unfolding ensure_account
  ensure_account-IsSound starting =
      Keeps-bind (Allowed tools s) F
        ((traced kube).get_account s.namespace (account_name tools s.session_id)) _
        (record { kept = λ w o f. (o, f) }) (account_found-IsSound starting)
