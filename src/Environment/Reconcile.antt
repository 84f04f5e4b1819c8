-- ===== src/Environment/Reconcile.antt =====
-- operator/internal/controller/userenvironment_controller.go: `Reconcile`, with the status it writes and
-- the objects that it creates or updates. The texts of errors leave out the type and the key of an object.
use Prim.Native.String.{◌++◌}
use bosun.Prelude.{
  ℕ, zero, suc, ◌*◌, String, Bool, true, false, not, ◌||◌, Option, none, some, List, [], ◌∷◌,
  if◌then◌else◌, ◌==◌,
}
use bosun.Prelude.Run.{Run, pure, ◌>>=◌}
use bosun.Lifecycle.{
  Lookup, present, absent, unreadable, Answer, accepted, conflict, already_exists, not_there,
  refused, Outcome,
}
use bosun.Lifecycle.Phases.{stop, again, after, fails, second}
use bosun.Environment.{
  EnvironmentPhase, unset, pending, ready, failed, EnvironmentStatus, UserEnvironment, Object,
  Problem, permanent, generation_changed, transient, Checked, ok, err, Client, Library,
}
use bosun.Environment.Baseline.{
  resource_conflict_reason, is_managed, Item, baseline, validate_user_environment, change,
}

abbrev pub is_ready : EnvironmentPhase → Bool
is_ready ready = true
is_ready _ = false

abbrev pub is_unset : EnvironmentPhase → Bool
is_unset unset = true
is_unset _ = false

-- `Error()`.
abbrev pub problem_text : Problem → String
problem_text (permanent reason message) = message
problem_text generation_changed = "UserEnvironment generation changed during reconciliation"
problem_text (transient text) = text

abbrev pub result_for_status_error : Problem → Outcome
result_for_status_error generation_changed = again
result_for_status_error (permanent reason message) = fails message
result_for_status_error (transient text) = fails text

-- What a reconcile reports of itself.
pub record Report : Type 0 where
  pub phase : EnvironmentPhase
  pub reason : String
  pub message : String

abbrev pub provisioning_report : Report
provisioning_report = record {
  phase = pending;
  reason = "Provisioning";
  message = "User environment security baseline is being prepared";
}

abbrev pub error_report : Report
error_report = record {
  phase = pending;
  reason = "ReconcileError";
  message = "Could not prepare the user environment security baseline";
}

abbrev pub ready_report : Report
ready_report = record {
  phase = ready;
  reason = "EnvironmentReady";
  message = "User environment security baseline is ready";
}

module _ (lib : Library) where
  open lib use {same_status, set_condition}

  unfoldable pub new_status : Report → UserEnvironment → EnvironmentStatus
  new_status r current = record {
    phase = r.phase;
    observed_generation = current.generation;
    conditions =
        set_condition
          (record {
            kind = "Ready";
            status = if is_ready r.phase then "True" else "False";
            observed_generation = current.generation;
            reason = r.reason;
            message = r.message;
          })
          current.status.conditions;
  }

  module _ (client : Client) where
    open client use {World, get_environment, get_object, create_or_update, backoff_steps}

    abbrev pub after_update :
        Run World (Checked Unit) → UserEnvironment → Answer → Run World (Checked Unit)
    after_update retry e accepted = pure (ok tt)
    after_update retry e conflict = retry
    after_update retry e already_exists =
        pure (err (transient ("update UserEnvironment " ++ e.name ++ " status")))
    after_update retry e not_there =
        pure (err (transient ("update UserEnvironment " ++ e.name ++ " status")))
    after_update retry e (refused text) =
        pure (err (transient ("update UserEnvironment " ++ e.name ++ " status: " ++ text)))

    abbrev pub refreshed :
        Run World (Checked Unit)
        → UserEnvironment
        → Report
        → Lookup UserEnvironment
        → Run World (Checked Unit)
    refreshed retry e r (present current) =
        if not (current.generation == e.generation)
        then pure (err generation_changed)
        else if same_status current.status (new_status r current)
        then pure (ok tt)
        else client.update_status current (new_status r current) >>= after_update retry e
    refreshed retry e r absent =
        pure (err (transient ("refresh UserEnvironment " ++ e.name ++ " before status update")))
    refreshed retry e r (unreadable text) = pure (
        err (transient ("refresh UserEnvironment " ++ e.name ++ " before status update: " ++ text)))

    -- The body that `retry.RetryOnConflict` runs at most `n` times.
    unfoldable pub update_status_from : ℕ → UserEnvironment → Report → Run World (Checked Unit)
    unfolding new_status
    update_status_from zero e r w =
        (w, err (transient ("update UserEnvironment " ++ e.name ++ " status: conflict")))
    update_status_from (suc n) e r w =
        refreshed (update_status_from n e r) e r (get_environment e.name w) w

    unfoldable pub update_status : UserEnvironment → Report → Run World (Checked Unit)
    unfolding update_status_from
    update_status e r = update_status_from backoff_steps e r

    abbrev pub put_result : Checked Unit → Checked Unit
    put_result (ok u) = ok u
    put_result (err (permanent reason message)) = err (permanent reason message)
    put_result (err p) = err (transient ("reconcile: " ++ problem_text p))

    abbrev pub put : UserEnvironment → Item → Run World (Checked Unit)
    put e item =
        create_or_update item.object (change lib e item.mutate) >>= (λ a. pure (put_result a))

    abbrev pub foreign : UserEnvironment → Problem
    foreign e =
        permanent resource_conflict_reason ("is not managed by Bosun for user " ++ e.user_id)

    abbrev pub ensure_found : UserEnvironment → Item → Lookup Object → Run World (Checked Unit)
    ensure_found e item (present existing) =
        if is_managed e existing then put e item else pure (err (foreign e))
    ensure_found e item absent = put e item
    ensure_found e item (unreadable text) = pure (err (transient ("get: " ++ text)))

    -- `createOrUpdateOwned`.
    unfoldable pub create_or_update_owned : UserEnvironment → Item → Run World (Checked Unit)
    unfolding change is_managed
    create_or_update_owned e item = get_object item.object >>= ensure_found e item

    abbrev pub next : Run World (Checked Unit) → Checked Unit → Run World (Checked Unit)
    next rest (ok u) = rest
    next rest (err p) = pure (err p)

    unfoldable pub ensure_all : UserEnvironment → List Item → Run World (Checked Unit)
    unfolding create_or_update_owned
    ensure_all e [] = pure (ok tt)
    ensure_all e (item ∷ items) = create_or_update_owned e item >>= next (ensure_all e items)

    abbrev pub settled : Outcome → Checked Unit → Run World Outcome
    settled o (ok u) = pure o
    settled o (err p) = pure (result_for_status_error p)

    abbrev pub joined : String → Checked Unit → Run World Outcome
    joined cause (ok u) = pure (fails cause)
    joined cause (err generation_changed) = pure again
    joined cause (err p) = pure (fails (cause ++ "\n" ++ problem_text p))

    abbrev pub report : UserEnvironment → Report → Outcome → Run World Outcome
    report e r o = update_status e r >>= settled o

    abbrev pub not_ensured : UserEnvironment → Problem → Run World Outcome
    not_ensured e (permanent reason message) =
        report e (record { phase = failed; reason = reason; message = message })
          (after (60 * second))
    not_ensured e p = update_status e error_report >>= joined (problem_text p)

    abbrev pub concluded : UserEnvironment → Checked Unit → Run World Outcome
    concluded e (ok u) = report e ready_report stop
    concluded e (err p) = not_ensured e p

    module _ (platform : String) where
      -- `ensureBaseline` and what follows.
      abbrev pub secure : UserEnvironment → Run World Outcome
      secure e = ensure_all e (baseline platform e) >>= concluded e

      abbrev pub started : UserEnvironment → Checked Unit → Run World Outcome
      started e (ok u) = secure e
      started e (err p) = pure (result_for_status_error p)

      abbrev pub with_valid : UserEnvironment → Option String → Run World Outcome
      with_valid e (some text) =
          report e (record { phase = failed; reason = "InvalidSpec"; message = text }) stop
      with_valid e none =
          if is_unset e.status.phase || not (e.status.observed_generation == e.generation)
          then update_status e provisioning_report >>= started e
          else secure e

      abbrev pub with_environment : String → Lookup UserEnvironment → Run World Outcome
      with_environment name (present e) = with_valid e (validate_user_environment lib e)
      with_environment name absent = pure stop
      with_environment name (unreadable text) =
          pure (fails ("get UserEnvironment " ++ name ++ ": " ++ text))

      unfoldable pub reconcile_environment : String → Run World Outcome
      unfolding update_status ensure_all baseline validate_user_environment
      reconcile_environment name w = with_environment name (get_environment name w) w
