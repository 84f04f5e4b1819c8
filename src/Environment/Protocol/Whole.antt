-- ===== src/Environment/Protocol/Whole.antt =====
-- `Reconcile` of a user environment keeps to the rules.
use bosun.Prelude.{
  ℕ, zero, suc, ◌≡◌, refl, ◌⊎◌, inl, inr, String, true, not, ◌||◌, Option, none, some, List, [],
  ◌∷◌, ◌==◌,
}
use bosun.Prelude.Run.{Run}
use bosun.Prelude.Trace.{
  Recorded, IsOrdered, Gives, Lasts, With, Gives-pure, Gives-bind, Gives-logged, Gives-if,
}
use bosun.Lifecycle.{
  Lookup, present, absent, unreadable, Answer, accepted, conflict, already_exists, not_there,
  refused, Outcome,
}
use bosun.Lifecycle.Phases.{stop}
use bosun.Lifecycle.Protocol.{not-false}
use bosun.Environment.{
  pending, UserEnvironment, Object, Problem, permanent, generation_changed, transient, Checked, ok,
  err, Client, Library,
}
use bosun.Environment.Baseline.{is_managed, Item, baseline, validate_user_environment, change}
use bosun.Environment.Reconcile.{
  is_unset, Report, provisioning_report, error_report, ready_report, new_status, after_update,
  refreshed, update_status_from, update_status, put_result, put, ensure_found,
  create_or_update_owned, next, ensure_all, settled, joined, report, not_ensured, concluded, secure,
  started, with_valid, with_environment, reconcile_environment,
}
use bosun.Environment.Protocol.{
  Event, status_written, object_read, ensured, Log, traced, AllEnsured, Remains, here, later,
  IsValid, HasConflict, CanReport, Allowed,
}

module _ (lib : Library) (platform : String) where
  module _ (e : UserEnvironment) where
    pub Remains-AllEnsured :
        {log : Log} {all items : List Item}
        → Remains lib platform e log all items
        → AllEnsured lib platform e items log
        → AllEnsured lib platform e all log
    Remains-AllEnsured here h = h
    Remains-AllEnsured (later d r) h = Remains-AllEnsured r (d, h)

    pub Remains-grow :
        (x : Event) {log : Log} {all items : List Item}
        → Remains lib platform e log all items
        → Remains lib platform e (x ∷ log) all items
    Remains-grow x here = here
    Remains-grow x (later d r) = later (inr d) (Remains-grow x r)

  module _ (client : Client) (e : UserEnvironment) where
    open client use {World}

    -- The programs that keep the order of the log and get from one fact of it to another.
    abbrev Proves :
        {A : Type 0} → (Log → Type 0) → (A → Log → Type 0) → Run (World × Log) A → Type 0
    Proves F Q m = Gives (Allowed lib platform e) F Q m

    module _ (F : Log → Type 0) (lasts : Lasts F) (r : Report)
        (can : (log : Log) → F log → CanReport lib platform e log r.phase) where
      after_update-Proves :
          (x : Event) (retry : Run (World × Log) (Checked Unit))
          → Proves F (λ _. F) retry
          → (a : Answer) → Proves (With F x) (λ _. F) (after_update lib (traced client) retry e a)
      after_update-Proves x retry h accepted = Gives-pure _ _ _ _ (λ log f. f.0)
      after_update-Proves x retry h conflict = record { kept = λ w o f. h.kept w o f.0 }
      after_update-Proves x retry h already_exists = Gives-pure _ _ _ _ (λ log f. f.0)
      after_update-Proves x retry h not_there = Gives-pure _ _ _ _ (λ log f. f.0)
      after_update-Proves x retry h (refused text) = Gives-pure _ _ _ _ (λ log f. f.0)

      refreshed-Proves :
          (retry : Run (World × Log) (Checked Unit))
          → Proves F (λ _. F) retry
          → (l : Lookup UserEnvironment)
          → Proves F (λ _. F) (refreshed lib (traced client) retry e r l)
      unfolding new_status
      refreshed-Proves retry h (present current) =
          Gives-if _ _ _ (not (current.generation == e.generation)) _ _
            (λ _. Gives-pure _ _ _ _ (λ log f. f))
            (λ same.
              Gives-if _ _ _ (lib.same_status current.status (new_status lib r current)) _ _
                (λ _. Gives-pure _ _ _ _ (λ log f. f))
                (λ _.
                  Gives-bind _ _ (λ a. With F (status_written current (new_status lib r current))) _
                    _ _
                    (Gives-logged _ _ (λ a. status_written current (new_status lib r current))
                      (client.update_status current (new_status lib r current)) lasts
                      (λ a log f. (not-false _ same, refl, can log f)))
                    (after_update-Proves _ retry h)))
      refreshed-Proves retry h absent = Gives-pure _ _ _ _ (λ log f. f)
      refreshed-Proves retry h (unreadable text) = Gives-pure _ _ _ _ (λ log f. f)

      update_status_from-Proves :
          (n : ℕ) → Proves F (λ _. F) (update_status_from lib (traced client) n e r)
      unfolding update_status_from
      update_status_from-Proves zero = record { kept = λ w o f. (o, f) }
      update_status_from-Proves (suc n) = record {
        kept = λ w o f.
            (refreshed-Proves (update_status_from lib (traced client) n e r)
                (update_status_from-Proves n) (client.get_environment e.name w.0)).kept
              w o f;
      }

      update_status-Proves : Proves F (λ _. F) (update_status lib (traced client) e r)
      unfolding update_status
      update_status-Proves = update_status_from-Proves client.backoff_steps

      report-Proves : (o : Outcome) → Proves F (λ _. F) (report lib (traced client) e r o)
      report-Proves o = Gives-bind _ _ (λ _. F) _ _ _ update_status-Proves settled-Proves
        where
          settled-Proves : (a : Checked Unit) → Proves F (λ _. F) (settled lib (traced client) o a)
          settled-Proves (ok u) = Gives-pure _ _ _ _ (λ log f. f)
          settled-Proves (err p) = Gives-pure _ _ _ _ (λ log f. f)

    -- What is known of a permanent problem.
    abbrev Explained : Problem → Log → Type 0
    Explained (permanent reason message) log = HasConflict lib platform e log
    Explained _ log = Unit

    module _ (valid : IsValid lib platform e) where
      abbrev Left : List Item → Log → Type 0
      Left items log = Remains lib platform e log (baseline platform e) items

      -- The object is ensured, or the problem is explained.
      abbrev Tried : List Item → Checked Unit → Log → Type 0
      Tried items (ok u) log = Left items log
      Tried items (err p) log = Explained p log

      module _ (item : Item) (items : List Item) where
        abbrev Found : Lookup Object → Log → Type 0
        Found l = With (Left (item ∷ items)) (object_read item.object l)

        put_result-Tried :
            (a : Checked Unit) (log : Log)
            → With (Left (item ∷ items)) (ensured item.object (change lib e item.mutate) a) log
            → Tried items (put_result lib (traced client) a) log
        put_result-Tried (ok u) log f = later f.1 f.0
        put_result-Tried (err (permanent reason message)) log f =
            inr (item.object, change lib e item.mutate, reason, message, f.1)
        put_result-Tried (err generation_changed) log f = tt
        put_result-Tried (err (transient text)) log f = tt

        put-Proves :
            (l : Lookup Object)
            → ((log : Log)
                → Found l log
                → Recorded (object_read item.object absent) log
                  ⊎ ((existing : Object) × (is_managed e existing ≡ true)
                      × Recorded (object_read item.object (present existing)) log))
            → Proves (Found l) (Tried items) (put lib (traced client) e item)
        put-Proves l ours =
            Gives-bind _ _ (λ a. With (Found l) (ensured item.object (change lib e item.mutate) a))
              _ _ _
              (Gives-logged _ _ (ensured item.object (change lib e item.mutate))
                (client.create_or_update item.object (change lib e item.mutate))
                (λ x log f. (Remains-grow e x f.0, inr f.1))
                (λ a log f. (valid, (item, items, refl, refl, f.0), ours log f)))
              (λ a. Gives-pure _ _ _ _ (λ log f. put_result-Tried a log (f.0.0, f.1)))

        ensure_found-Proves :
            (l : Lookup Object)
            → Proves (Found l) (Tried items) (ensure_found lib (traced client) e item l)
        ensure_found-Proves (present existing) =
            Gives-if _ _ _ (is_managed e existing) _ _
              (λ ours. put-Proves (present existing) (λ log f. inr (existing, ours, f.1)))
              (λ other. Gives-pure _ _ _ _ (λ log f. inl (item.object, existing, other, f.1)))
        ensure_found-Proves absent = put-Proves absent (λ log f. inl f.1)
        ensure_found-Proves (unreadable text) = Gives-pure _ _ _ _ (λ log f. tt)

        create_or_update_owned-Proves :
            Proves
              (Left (item ∷ items))
              (Tried items)
              (create_or_update_owned lib (traced client) e item)
        unfolding create_or_update_owned
        create_or_update_owned-Proves =
            Gives-bind _ _ Found _ _ _
              (Gives-logged _ _ (object_read item.object) (client.get_object item.object)
                (λ x log f. Remains-grow e x f) (λ l log f. valid))
              ensure_found-Proves

      next-Proves :
          (rest : Run (World × Log) (Checked Unit)) (items : List Item)
          → Proves (Left items) (Tried []) rest
          → (a : Checked Unit) → Proves (Tried items a) (Tried []) (next lib (traced client) rest a)
      next-Proves rest items h (ok u) = h
      next-Proves rest items h (err p) = Gives-pure _ _ _ _ (λ log f. f)

      ensure_all-Proves :
          (items : List Item)
          → Proves (Left items) (Tried []) (ensure_all lib (traced client) e items)
      unfolding ensure_all
      ensure_all-Proves [] = Gives-pure _ _ _ _ (λ log f. f)
      ensure_all-Proves (item ∷ items) =
          Gives-bind _ _ (Tried items) _ _ _ (create_or_update_owned-Proves item items)
            (next-Proves _ items (ensure_all-Proves items))

    -- The programs that keep the order of the log from the fact `F` on.
    abbrev Ends : {A : Type 0} → (Log → Type 0) → Run (World × Log) A → Type 0
    Ends F m = Proves F (λ _ log. Unit) m

    report-Ends :
        (F : Log → Type 0)
        → Lasts F
        → (r : Report) (o : Outcome) → ((log : Log) → F log → CanReport lib platform e log r.phase)
        → Ends F (report lib (traced client) e r o)
    report-Ends F lasts r o can = record {
      kept = λ w order f. (((report-Proves F lasts r can o).kept w order f).0, tt);
    }

    module _ (valid : IsValid lib platform e) where
      joined-Ends :
          (cause : String) (a : Checked Unit)
          → Ends (λ log. Unit) (joined lib (traced client) cause a)
      joined-Ends cause (ok u) = Gives-pure _ _ _ _ (λ log f. f)
      joined-Ends cause (err generation_changed) = Gives-pure _ _ _ _ (λ log f. f)
      joined-Ends cause (err (permanent reason message)) = Gives-pure _ _ _ _ (λ log f. f)
      joined-Ends cause (err (transient text)) = Gives-pure _ _ _ _ (λ log f. f)

      pending-Proves :
          (r : Report)
          → r.phase ≡ pending
          → Proves (λ log. Unit) (λ _ log. Unit) (update_status lib (traced client) e r)
      pending-Proves r is_pending =
          update_status-Proves (λ log. Unit) (λ x log f. f) r (λ log f. rw is_pending valid)

      not_ensured-Ends : (p : Problem) → Ends (Explained p) (not_ensured lib (traced client) e p)
      not_ensured-Ends (permanent reason message) =
          report-Ends _ HasConflict-Lasts _ _ (λ log f. inr (valid, f))
        where
          HasConflict-Lasts : Lasts {E = Event} (HasConflict lib platform e)
          HasConflict-Lasts x log (inl (o, existing, other, read)) =
              inl (o, existing, other, inr read)
          HasConflict-Lasts x log (inr (o, mutate, reason, message, read)) =
              inr (o, mutate, reason, message, inr read)
      not_ensured-Ends generation_changed =
          Gives-bind _ _ (λ _ log. Unit) _ _ _ (pending-Proves error_report refl) (joined-Ends _)
      not_ensured-Ends (transient text) =
          Gives-bind _ _ (λ _ log. Unit) _ _ _ (pending-Proves error_report refl) (joined-Ends _)

      concluded-Ends :
          (a : Checked Unit) → Ends (Tried valid [] a) (concluded lib (traced client) e a)
      concluded-Ends (ok u) =
          report-Ends _ (λ x log f. Remains-grow e x f) ready_report stop
            (λ log f. (valid, Remains-AllEnsured e f tt))
      concluded-Ends (err p) = not_ensured-Ends p

      secure-Ends : Ends (λ log. Unit) (secure lib (traced client) platform e)
      secure-Ends = record {
        kept = λ w order f.
            (Gives-bind _ _ (Tried valid []) _ _ _ (ensure_all-Proves valid (baseline platform e))
                concluded-Ends).kept
              w order here;
      }

      started-Ends :
          (a : Checked Unit) → Ends (λ log. Unit) (started lib (traced client) platform e a)
      started-Ends (ok u) = secure-Ends
      started-Ends (err p) = Gives-pure _ _ _ _ (λ log f. f)

    with_valid-Ends :
        (o : Option String)
        → validate_user_environment lib e ≡ o
        → Ends (λ log. Unit) (with_valid lib (traced client) platform e o)
    with_valid-Ends (some text) invalid =
        report-Ends _ (λ x log f. f) _ stop (λ log f. inl (text, invalid))
    with_valid-Ends none valid =
        Gives-if _ _ _
          (is_unset e.status.phase || not (e.status.observed_generation == e.generation)) _ _
          (λ _.
            Gives-bind _ _ (λ _ log. Unit) _ _ _ (pending-Proves valid provisioning_report refl)
              (started-Ends valid))
          (λ _. secure-Ends valid)

  -- The log of a reconcile is in order for the environment that was read, and empty where none was.
  abbrev pub Follows : Lookup UserEnvironment → Log → Type 0
  Follows (present e) log = IsOrdered (Allowed lib platform e) log
  Follows absent log = log ≡ []
  Follows (unreadable text) log = log ≡ []

  with_environment-Follows :
      (client : Client) (name : String) (l : Lookup UserEnvironment) (w : client.World)
      → Follows l (with_environment lib (traced client) platform name l (w, [])).0.1
  with_environment-Follows client name (present e) w =
      ((with_valid-Ends client e (validate_user_environment lib e) refl).kept (w, []) tt tt).0
  with_environment-Follows client name absent w = refl
  with_environment-Follows client name (unreadable text) w = refl

  -- Every call of a reconcile of a user environment, its reads of the UserEnvironment aside, is allowed by the object that was read and by the
  -- calls before it: nothing of the namespace is read or written before the object passed its checks; an
  -- object of the baseline is created or updated only after those before it in the list were, and only
  -- where none was found or the one that was found is managed for this user; the status says ready only
  -- after every object of the baseline was created or updated without an error, and failed only for an
  -- invalid object or a conflict; a status is written only to an object of the generation that was
  -- read. Where no UserEnvironment was read no call is made.
  pub reconcile_environment-Follows :
      (client : Client) (name : String) (w : client.World)
      → Follows
          (client.get_environment name w)
          (reconcile_environment lib (traced client) platform name (w, [])).0.1
  unfolding reconcile_environment
  reconcile_environment-Follows client name w =
      with_environment-Follows client name (client.get_environment name w) w
