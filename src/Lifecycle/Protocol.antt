-- ===== src/Lifecycle/Protocol.antt =====
-- What a reconcile may do, by the object that it read and by what it did before: the diagram of the
-- phases, and the conditions of each call. Below it, the programs that the controller is made of.
pub mod Objects
pub mod Hibernation
pub mod Start
pub mod Removal
pub mod Whole
use bosun.Prelude.{
  ℕ, zero, suc, ◌+◌, ◌≡◌, refl, ◌⊎◌, inl, inr, String, Bool, true, false, not, ◌&&◌, Option, none,
  some, leb, ◌≢◌, ◌≤◌, leb→le, ◌==◌, str_eq, Bool-cases,
}
use bosun.Prelude.Run.{Run, Failure, Reply, done}
use bosun.Lifecycle.{
  Session, Status, Phase, unset, pending, provisioning, running, idle, hibernating, hibernated,
  archiving, archived, restoring, deleting, failed, Checkpoint, application, creating, ready,
  AgentPod, Claim, Lookup, present, absent, unreadable, Answer, accepted, conflict, already_exists,
  not_there, refused, Kube, Tools, Outcome,
}
use bosun.Lifecycle.Checks.{
  same_phase, belongs, validate_session, pod_stopped_by_deadline, retry_attempt,
}
use bosun.Lifecycle.Phases.{
  stop, wants_hibernated, set_ready, to_failed, to_retrying, after_status, write_status, refreshed,
  set_status_from, set_status, report, fail, handle_transient,
}
use bosun.Lifecycle.Reconcile.{is_restoring, needs_preparing, own_claim, current_checkpoint}
use bosun.Prelude.Trace.{
  Recorded, Keeps, Lasts, Keeps-pure, Keeps-bind, Keeps-on_failure, Keeps-logged, Keeps-if,
}
use bosun.Lifecycle.Effects.{
  Event, status_written, session_written, pod_read, pod_created, pod_deleted, claim_read,
  claim_created, claim_deleted, account_created, account_deleted, quiesced, Log, traced,
}

-- A session that is valid, that has its finalizer, and that is not being deleted.
abbrev pub IsAdmitted : Tools → Session → Type 0
IsAdmitted tools s =
    (s.is_deleting ≡ false) × (s.has_finalizer ≡ true) × (validate_session tools s ≡ none)

-- A session that is to run, and that does not finish a hibernation first.
abbrev pub IsStarting : Tools → Session → Type 0
IsStarting tools s =
    IsAdmitted tools s
    × (wants_hibernated s.desired_state ≡ false)
    × (same_phase s.status.phase hibernating ≡ false)

-- The object of a deletion with this answer is gone, or going.
abbrev pub IsGone : Answer → Type 0
IsGone accepted = Unit
IsGone not_there = Unit
IsGone _ = ⊥

-- The service account was deleted.
abbrev pub IsDropped : Log → Type 0
IsDropped log = (a : Answer) × IsGone a × Recorded (account_deleted a) log

-- A claim of the session was looked for, and none was found but one that is being deleted.
abbrev pub HasNoClaim : Session → Log → Type 0
HasNoClaim s log = (l : Lookup Claim) × Recorded (claim_read l) log × (own_claim s l ≡ done none)

-- Why a session may be reported as failed: its spec is invalid, the tenth attempt failed, the manifest
-- of its hibernation is of no use, the workspace that is to be restored is gone, or an object cannot be
-- owned.
abbrev pub CanFail : Tools → Session → Log → Type 0
CanFail tools s log =
    ((s.is_deleting ≡ false) × ((text : String) × (validate_session tools s ≡ some text)))
    ⊎ (10 ≤ retry_attempt tools s.status.conditions s.generation + 1)
    ⊎ (IsAdmitted tools s
        × (same_phase s.status.phase hibernating ≡ true)
        × ((c : Checkpoint) × (current_checkpoint s s.status.checkpoint ≡ some c)
            × (c.state ≢ creating)
            × (c.state ≢ ready)))
    ⊎ (IsStarting tools s
        × ((is_restoring s && not (str_eq s.status.pvc_name "") ≡ true) × HasNoClaim s log))
    ⊎ (IsStarting tools s
        × ((name : String) × (text : String) × (tools.owner_error s name ≡ some text)))

-- The phases that the session may be moved to.
abbrev pub CanMove : Tools → Session → Log → Phase → Type 0
CanMove tools s log unset = ⊥
CanMove tools s log archiving = ⊥
CanMove tools s log archived = ⊥
CanMove tools s log pending = IsStarting tools s
CanMove tools s log provisioning = IsStarting tools s × (is_restoring s ≡ false)
CanMove tools s log restoring = IsStarting tools s × (is_restoring s ≡ true)
CanMove tools s log running = IsStarting tools s × (needs_preparing s.status.phase ≡ false)
CanMove tools s log idle = IsStarting tools s × (same_phase s.status.phase running ≡ true)
CanMove tools s log hibernating =
    IsAdmitted tools s
    × ((wants_hibernated s.desired_state ≡ true) ⊎ (same_phase s.status.phase idle ≡ true))
CanMove tools s log hibernated =
    IsAdmitted tools s
    × (((same_phase s.status.phase hibernating ≡ true) × Recorded (pod_read absent) log)
        ⊎ ((pod : AgentPod) × (a : Answer) × (pod_stopped_by_deadline pod ≡ true)
            × IsGone a
            × Recorded (pod_deleted pod a) log))
CanMove tools s log deleting = s.is_deleting ≡ true
CanMove tools s log failed = CanFail tools s log

same_phase-unset : (p : Phase) → same_phase p unset ≡ true → p ≡ unset
same_phase-unset unset h = refl
same_phase-unset p h = cc

-- The recovery manifest of this hibernation is written.
abbrev pub IsRecoverable : Session → Option Checkpoint → Type 0
IsRecoverable s none = ⊥
IsRecoverable s (some c) =
    (c.mode ≡ application) × (c.state ≡ ready) × (str_eq c.id s.resume_nonce ≡ true)

-- Why a Pod may be deleted.
abbrev pub CanDelete : Tools → Session → AgentPod → Type 0
CanDelete tools s pod =
    (s.is_deleting ≡ true)
    ⊎ (IsAdmitted tools s
        × (same_phase s.status.phase hibernating ≡ true)
        × IsRecoverable s s.status.checkpoint)
    ⊎ (IsAdmitted tools s × (pod_stopped_by_deadline pod ≡ true))

-- What each call needs: of the session that was read, of its arguments, and of the calls before.
abbrev pub Allowed : Tools → Session → Event → Log → Type 0
Allowed tools s (status_written old new) log =
    (new.phase ≡ old.phase)
    ⊎ ((old.phase ≡ unset) × (new.phase ≡ pending))
    ⊎ CanMove tools s log new.phase
Allowed tools s (session_written true) log =
    (s.is_deleting ≡ false) × (s.has_finalizer ≡ false) × (validate_session tools s ≡ none)
Allowed tools s (session_written false) log =
    (s.is_deleting ≡ true) × IsDropped log × HasNoClaim s log
Allowed tools s (pod_read l) log = Unit
Allowed tools s (pod_created pod) log =
    IsStarting tools s
    × (needs_preparing s.status.phase ≡ false)
    × (belongs s pod.labels ≡ true)
    × Recorded (pod_read absent) log
Allowed tools s (pod_deleted pod a) log =
    (belongs s pod.labels ≡ true) × Recorded (pod_read (present pod)) log × CanDelete tools s pod
Allowed tools s (claim_read l) log = Unit
Allowed tools s (claim_created claim) log =
    IsStarting tools s
    × (belongs s claim.labels ≡ true)
    × (is_restoring s && not (str_eq s.status.pvc_name "") ≡ false)
Allowed tools s (claim_deleted claim a) log =
    (s.is_deleting ≡ true) × (belongs s claim.labels ≡ true) × IsDropped log
Allowed tools s (account_created account) log =
    IsStarting tools s × (belongs s account.labels ≡ true)
Allowed tools s (account_deleted a) log = (s.is_deleting ≡ true) × Recorded (pod_read absent) log
Allowed tools s (quiesced pod) log =
    IsAdmitted tools s
    × (same_phase s.status.phase hibernating ≡ true)
    × (belongs s pod.labels ≡ true)
    × Recorded (pod_read (present pod)) log

pub not-true : (b : Bool) → not b ≡ true → b ≡ false
not-true true h = cc
not-true false h = refl

pub true-ne-false : {b : Bool} → b ≡ true → b ≡ false → ⊥
true-ne-false h k = cc

pub &&-right : (a b : Bool) → a && b ≡ true → b ≡ true
&&-right true b h = h
&&-right false b h = cc

pub not-false : (b : Bool) → not b ≡ false → b ≡ true
not-false true h = refl
not-false false h = cc

module _ (tools : Tools) (kube : Kube) (s : Session) where
  open kube use {World}

  -- The programs that keep every lasting fact and the order of the log.
  abbrev pub IsSound : {A : Type 0} → (Log → Type 0) → Run (World × Log) A → Type 0
  IsSound F m = Keeps (Allowed tools s) F m

  -- A change of the status that is allowed wherever `F` holds.
  abbrev pub IsMove : (Log → Type 0) → (Status → Status) → Type 0
  IsMove F mutate =
      (old : Status) (log : Log) → F log → Allowed tools s (status_written old (mutate old)) log

  module _ (F : Log → Type 0) (lasts : Lasts F) where
    after_status-IsSound :
        (retry : Run (World × Log) (Reply Unit))
        → IsSound F retry
        → (a : Answer) → IsSound F (after_status tools (traced kube) retry a)
    after_status-IsSound retry h accepted = Keeps-pure (Allowed tools s) F (done tt)
    after_status-IsSound retry h conflict = h
    after_status-IsSound retry h already_exists = Keeps-pure (Allowed tools s) F _
    after_status-IsSound retry h not_there = Keeps-pure (Allowed tools s) F _
    after_status-IsSound retry h (refused text) = Keeps-pure (Allowed tools s) F _

    write_status-IsSound :
        (retry : Run (World × Log) (Reply Unit)) (mutate : Status → Status) (current : Session)
        → IsMove F mutate
        → IsSound F retry
        → IsSound F (write_status tools (traced kube) retry current (mutate current.status))
    write_status-IsSound retry mutate current move h =
        Keeps-if (Allowed tools s) F (tools.same_status current.status (mutate current.status)) _ _
          (λ _. Keeps-pure (Allowed tools s) F (done tt))
          (λ _.
            Keeps-bind (Allowed tools s) F _ _
              (Keeps-logged (Allowed tools s) F
                (λ a. status_written current.status (mutate current.status))
                (kube.update_status current (mutate current.status)) lasts
                (λ a log f. move current.status log f))
              (after_status-IsSound retry h))

    refreshed-IsSound :
        (retry : Run (World × Log) (Reply Unit)) (generation : ℕ) (mutate : Status → Status)
        → IsMove F mutate
        → IsSound F retry
        → (l : Lookup Session) → IsSound F (refreshed tools (traced kube) retry generation mutate l)
    refreshed-IsSound retry generation mutate move h (present current) =
        Keeps-if (Allowed tools s) F (not (current.generation == generation)) _ _
          (λ _. Keeps-pure (Allowed tools s) F _)
          (λ _. write_status-IsSound retry mutate current move h)
    refreshed-IsSound retry generation mutate move h absent = Keeps-pure (Allowed tools s) F _
    refreshed-IsSound retry generation mutate move h (unreadable text) =
        Keeps-pure (Allowed tools s) F _

    set_status_from-IsSound :
        (n : ℕ) (mutate : Status → Status)
        → IsMove F mutate
        → IsSound F (set_status_from tools (traced kube) n s mutate)
    unfolding set_status_from
    set_status_from-IsSound zero mutate move = record { kept = λ w o f. (o, f) }
    set_status_from-IsSound (suc n) mutate move = record {
      kept = λ w o f.
          (refreshed-IsSound (set_status_from tools (traced kube) n s mutate) s.generation mutate
              move (set_status_from-IsSound n mutate move)
              (kube.get_session s.namespace s.name w.0)).kept
            w o f;
    }

    pub set_status-IsSound :
        (mutate : Status → Status)
        → IsMove F mutate
        → IsSound F (set_status tools (traced kube) s mutate)
    unfolding set_status
    set_status-IsSound mutate move = set_status_from-IsSound kube.backoff_steps mutate move

    pub report-IsSound :
        (mutate : Status → Status) (o : Outcome)
        → IsMove F mutate
        → IsSound F (report tools (traced kube) s mutate o)
    unfolding report
    report-IsSound mutate o move =
        Keeps-on_failure (Allowed tools s) F (set_status tools (traced kube) s mutate) _ _
          (set_status-IsSound mutate move) (λ f. Keeps-pure (Allowed tools s) F _)
          (λ _. Keeps-pure (Allowed tools s) F o)

    pub fail-IsSound :
        (reason message : String)
        → ((log : Log) → F log → CanFail tools s log)
        → IsSound F (fail tools (traced kube) s reason message)
    unfolding fail to_failed set_ready
    fail-IsSound reason message can =
        report-IsSound (to_failed tools s reason message) stop (λ old log f. inr (inr (can log f)))

    to_retrying-IsMove :
        (attempt : ℕ) (cause : String) → IsMove F (to_retrying tools s attempt cause)
    unfolding to_retrying
    to_retrying-IsMove attempt cause old log f = elim (Bool-cases (same_phase old.phase unset)) [
      | inl new ↦ rw new (inr (inl (same_phase-unset old.phase new, refl)))
      | inr known ↦ rw known (inl refl)
    ]

    pub handle_transient-IsSound :
        (cause : Failure) → IsSound F (handle_transient tools (traced kube) s cause)
    unfolding handle_transient
    handle_transient-IsSound cause =
        let attempt = retry_attempt tools s.status.conditions s.generation + 1 in
        Keeps-if (Allowed tools s) F (leb 10 attempt) _ _
          (λ over. fail-IsSound _ _ (λ log f. inr (inl (leb→le _ _ over))))
          (λ _.
            Keeps-on_failure (Allowed tools s) F
              (set_status tools (traced kube) s (to_retrying tools s attempt cause.text)) _ _
              (set_status-IsSound _ (to_retrying-IsMove attempt cause.text))
              (λ f. Keeps-pure (Allowed tools s) F _) (λ _. Keeps-pure (Allowed tools s) F _))
