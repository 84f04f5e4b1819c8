-- ===== src/Lifecycle/Protocol/Whole.antt =====
-- `Reconcile` keeps to the rules.
use bosun.Prelude.{
  ◌≡◌, refl, inl, inr, String, true, false, not, ◌&&◌, Option, none, some, [], str_eq,
}
use bosun.Lifecycle.{
  Session, Lookup, hibernated, hibernating, present, absent, unreadable, Kube, Tools, Reconciler,
}
use bosun.Lifecycle.Checks.{same_phase, validate_session}
use bosun.Lifecycle.Phases.{stop, set_ready, to_invalid, wants_hibernated}
use bosun.Lifecycle.Reconcile.{
  finalizer_added, is_settled_failure, dispatch, with_valid, with_session, reconcile,
}
use bosun.Prelude.Trace.{IsOrdered, Lasts, Keeps-pure, Keeps-bind, Keeps-logged, Keeps-if}
use bosun.Lifecycle.Effects.{session_written, Log, traced}
use bosun.Lifecycle.Protocol.{
  IsAdmitted, Allowed, IsSound, not-true, not-false, true-ne-false, report-IsSound,
}
use bosun.Lifecycle.Protocol.Hibernation.{reconcile_hibernate-IsSound}
use bosun.Lifecycle.Protocol.Start.{reconcile_running-IsSound}
use bosun.Lifecycle.Protocol.Removal.{reconcile_delete-IsSound}

module _ (tools : Tools) (kube : Kube) (r : Reconciler) where
  module _ (s : Session) (F : Log → Type 0) (lasts : Lasts F) where
    dispatch-IsSound :
        IsAdmitted tools s → IsSound tools kube s F (dispatch tools (traced kube) r s)
    unfolding dispatch
    dispatch-IsSound admitted =
        Keeps-if (Allowed tools s) F (is_settled_failure s) _ _
          (λ _. Keeps-pure (Allowed tools s) F stop)
          λ _.
            Keeps-if (Allowed tools s) F
              (wants_hibernated s.desired_state && same_phase s.status.phase hibernated) _ _
              (λ _. Keeps-pure (Allowed tools s) F stop)
              λ _.
                Keeps-if (Allowed tools s) F (wants_hibernated s.desired_state) _ _
                  (λ wanted.
                    reconcile_hibernate-IsSound tools kube r s F lasts admitted (λ _. inl wanted))
                  λ unwanted.
                    Keeps-if (Allowed tools s) F (same_phase s.status.phase hibernating) _ _
                      (λ draining.
                        reconcile_hibernate-IsSound tools kube r s F lasts admitted
                          (λ other. absurd (true-ne-false draining other)))
                      λ not_draining.
                        Keeps-if (Allowed tools s) F
                          (same_phase s.status.phase hibernated
                            && str_eq s.status.observed_resume_nonce s.resume_nonce)
                          _ _ (λ _. Keeps-pure (Allowed tools s) F stop)
                          (λ _.
                            reconcile_running-IsSound tools kube r s
                              (admitted, unwanted, not_draining) F lasts)

    with_valid-IsSound :
        s.is_deleting ≡ false
        → (o : Option String) → validate_session tools s ≡ o
        → IsSound tools kube s F (with_valid tools (traced kube) r s o)
    unfolding to_invalid set_ready
    with_valid-IsSound alive (some text) e =
        report-IsSound tools kube s F lasts _ _ (λ old log f. inr (inr (inl (alive, (text, e)))))
    with_valid-IsSound alive none e =
        Keeps-if (Allowed tools s) F (not s.has_finalizer) _ _
          (λ missing.
            Keeps-bind (Allowed tools s) F _ _
              (Keeps-logged (Allowed tools s) F (λ a. session_written true)
                (kube.update_session (record s { has_finalizer = true })) lasts
                (λ a log f. (alive, not-true _ missing, e)))
              (λ a. Keeps-pure (Allowed tools s) F (finalizer_added a)))
          (λ there. dispatch-IsSound (alive, not-false _ there, e))

    with_present-IsSound : IsSound tools kube s F (with_session tools (traced kube) r (present s))
    with_present-IsSound =
        Keeps-if (Allowed tools s) F s.is_deleting _ _
          (λ leaving. reconcile_delete-IsSound tools kube r s leaving F lasts)
          (λ alive. with_valid-IsSound alive (validate_session tools s) refl)

  -- The log of a reconcile is in order for the object that was read, and empty where none was read.
  abbrev pub Follows : Lookup Session → Log → Type 0
  Follows (present s) log = IsOrdered (Allowed tools s) log
  Follows absent log = log ≡ []
  Follows (unreadable text) log = log ≡ []

  with_session-Follows :
      (l : Lookup Session) (w : kube.World)
      → Follows l (with_session tools (traced kube) r l (w, [])).0.1
  with_session-Follows (present s) w =
      ((with_present-IsSound s (λ log. Unit) (λ e log f. tt)).kept (w, []) tt tt).0
  with_session-Follows absent w = refl
  with_session-Follows (unreadable text) w = refl

  -- Every call of a reconcile is allowed by the object that was read and by the calls before it: no
  -- workload before the finalizer is there and the spec is valid, a Pod only where none was found, a
  -- deletion only of an own Pod that was read and is to be recovered, stopped or removed, the finalizer
  -- taken off only after no Pod was found, the API answered that the service account is deleted or not
  -- there, and no claim was found but one that is being deleted, and each phase of the status only in its
  -- place: failed only for an invalid spec, a tenth attempt, a manifest of no use, a lost workspace or an
  -- object that cannot be owned. Where no object was read nothing is called.
  pub reconcile-Follows :
      (namespace name : String) (w : kube.World)
      → Follows
          (kube.get_session namespace name w)
          (reconcile tools (traced kube) r namespace name (w, [])).0.1
  unfolding reconcile
  reconcile-Follows namespace name w = with_session-Follows (kube.get_session namespace name w) w
