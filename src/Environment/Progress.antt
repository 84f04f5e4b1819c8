-- ===== src/Environment/Progress.antt =====
-- A reconcile of a user environment gets to its end where nothing is in its way.
use bosun.Prelude.{ℕ, suc, ◌≡◌, refl, String, true, not, ◌||◌, none, List, [], ◌∷◌, ◌==◌}
use bosun.Prelude.Run.{Run}
use bosun.Prelude.Trace.{Gives, Lasts, With, Gives-pure, Gives-bind, Gives-answered, Gives-if}
use bosun.Lifecycle.{Lookup, present, absent, unreadable, Answer, accepted, Outcome}
use bosun.Lifecycle.Phases.{stop}
use bosun.Environment.{
  UserEnvironment, EnvironmentStatus, Object, Checked, ok, err, Client, Library,
}
use bosun.Environment.Baseline.{is_managed, Item, baseline, change}
use bosun.Environment.Reconcile.{
  is_unset, Report, provisioning_report, ready_report, new_status, after_update, refreshed,
  update_status_from, update_status, put_result, put, ensure_found, create_or_update_owned, next,
  ensure_all, settled, concluded, secure, started, with_valid, reconcile_environment,
}
use bosun.Environment.Protocol.{
  Event, status_written, object_read, ensured, Log, traced, AllEnsured, Remains, here, later,
  IsValid,
}
use bosun.Environment.Protocol.Whole.{Remains-AllEnsured, Remains-grow}

-- Nothing is there of the object, or it is managed for the user.
abbrev pub IsFree : UserEnvironment → Lookup Object → Type 0
IsFree e (present existing) = is_managed e existing ≡ true
IsFree e absent = Unit
IsFree e (unreadable text) = ⊥

-- The object is there with the generation.
abbrev pub IsCurrent : UserEnvironment → Lookup UserEnvironment → Type 0
IsCurrent e (present current) = (current.generation == e.generation) ≡ true
IsCurrent e absent = ⊥
IsCurrent e (unreadable text) = ⊥

-- The calls of the client succeed, and the UserEnvironment keeps its generation.
pub record IsWilling (lib : Library) (client : Client) (e : UserEnvironment) : Type 0 where
  pub tries : ℕ
  pub steps : client.backoff_steps ≡ suc tries
  pub keeps : (w : client.World) → IsCurrent e (client.get_environment e.name w)
  pub accepts :
      (current : UserEnvironment) (new : EnvironmentStatus) (w : client.World)
      → (client.update_status current new w).1 ≡ accepted
  pub finds : (o : Object) (w : client.World) → IsFree e (client.get_object o w).1
  pub ensures :
      (item : Item) (w : client.World)
      → (client.create_or_update item.object (change lib e item.mutate) w).1 ≡ ok tt

module _ (lib : Library) (platform : String) (client : Client) (e : UserEnvironment)
    (willing : IsWilling lib client e) where
  open client use {World}
  open willing use {tries, steps, keeps, accepts, finds, ensures}

  -- From one fact of the log to another, whatever calls are made.
  abbrev Proves : {A : Type 0} → (Log → Type 0) → (A → Log → Type 0) → Run (World × Log) A → Type 0
  Proves F Q m = Gives (λ x log. Unit) F Q m

  -- The program succeeds and keeps the fact.
  abbrev Succeeds : (Log → Type 0) → Checked Unit → Log → Type 0
  Succeeds F a log = F log × (a ≡ ok tt)

  module _ (F : Log → Type 0) (lasts : Lasts F) (r : Report) where
    after_update-Proves :
        (x : Event) (retry : Run (World × Log) (Checked Unit)) (a : Answer)
        → Proves
            (λ log. With F x log × (a ≡ accepted))
            (Succeeds F)
            (after_update lib (traced client) retry e a)
    after_update-Proves x retry a = record { kept = λ w o f. rw f.1 (o, (f.0.0, refl)) }

    refreshed-Proves :
        (retry : Run (World × Log) (Checked Unit)) (l : Lookup UserEnvironment)
        → IsCurrent e l
        → Proves F (Succeeds F) (refreshed lib (traced client) retry e r l)
    refreshed-Proves retry (present current) same = rw same (
        Gives-if _ _ _ (lib.same_status current.status (new_status lib r current)) _ _
          (λ _. Gives-pure _ _ _ _ (λ log f. (f, refl)))
          (λ _.
            Gives-bind _ _ _ _ _ _
              (Gives-answered _ _ (λ a. a ≡ accepted)
                (λ a. status_written current (new_status lib r current))
                (client.update_status current (new_status lib r current)) lasts (λ a log f. tt)
                (accepts current (new_status lib r current)))
              (after_update-Proves _ retry)))
    refreshed-Proves retry absent same = elim same [ ]
    refreshed-Proves retry (unreadable text) same = elim same [ ]

    update_status-Proves : Proves F (Succeeds F) (update_status lib (traced client) e r)
    unfolding update_status update_status_from
    update_status-Proves = rw steps (record {
      kept = λ w o f.
          (refreshed-Proves (update_status_from lib (traced client) tries e r)
              (client.get_environment e.name w.0) (keeps w.0)).kept
            w o f;
    })

  module _ (item : Item) (items : List Item) where
    abbrev Left : List Item → Log → Type 0
    Left rest log = Remains lib platform e log (baseline platform e) rest

    put_result-Succeeds :
        (a : Checked Unit) (log : Log)
        → With (Left (item ∷ items)) (ensured item.object (change lib e item.mutate) a) log
        → a ≡ ok tt
        → Succeeds (Left items) (put_result lib (traced client) a) log
    put_result-Succeeds (ok u) log f h = (later f.1 f.0, refl)
    put_result-Succeeds (err p) log f h = cc

    put-Proves :
        Proves (Left (item ∷ items)) (Succeeds (Left items)) (put lib (traced client) e item)
    put-Proves =
        Gives-bind _ _ _ _ _ _
          (Gives-answered _ _ (λ a. a ≡ ok tt) (ensured item.object (change lib e item.mutate))
            (client.create_or_update item.object (change lib e item.mutate))
            (λ x log f. Remains-grow lib platform e x f) (λ a log f. tt) (ensures item))
          (λ a. Gives-pure _ _ _ _ (λ log f. put_result-Succeeds a log f.0 f.1))

    ensure_found-Proves :
        (l : Lookup Object)
        → Proves
            (λ log. With (Left (item ∷ items)) (object_read item.object l) log × IsFree e l)
            (Succeeds (Left items))
            (ensure_found lib (traced client) e item l)
    ensure_found-Proves (present existing) = record {
      kept = λ w o f. rw f.1 (put-Proves.kept w o f.0.0);
    }
    ensure_found-Proves absent = record { kept = λ w o f. put-Proves.kept w o f.0.0 }
    ensure_found-Proves (unreadable text) = record { kept = λ w o f. elim f.1 [ ] }

    create_or_update_owned-Proves :
        Proves
          (Left (item ∷ items))
          (Succeeds (Left items))
          (create_or_update_owned lib (traced client) e item)
    unfolding create_or_update_owned
    create_or_update_owned-Proves =
        Gives-bind _ _ _ _ _ _
          (Gives-answered _ _ (IsFree e) (object_read item.object) (client.get_object item.object)
            (λ x log f. Remains-grow lib platform e x f) (λ l log f. tt) (finds item.object))
          ensure_found-Proves

    next-Proves :
        (rest : Run (World × Log) (Checked Unit))
        → Proves (Left items) (Succeeds (Left [])) rest
        → (a : Checked Unit)
        → Proves (Succeeds (Left items) a) (Succeeds (Left [])) (next lib (traced client) rest a)
    next-Proves rest h (ok u) = record { kept = λ w o f. h.kept w o f.0 }
    next-Proves rest h (err p) = record { kept = λ w o f. cc }

  ensure_all-Proves :
      (items : List Item)
      → Proves
          (λ log. Remains lib platform e log (baseline platform e) items)
          (Succeeds (λ log. Remains lib platform e log (baseline platform e) []))
          (ensure_all lib (traced client) e items)
  unfolding ensure_all
  ensure_all-Proves [] = Gives-pure _ _ _ _ (λ log f. (f, refl))
  ensure_all-Proves (item ∷ items) =
      Gives-bind _ _ _ _ _ _ (create_or_update_owned-Proves item items)
        (next-Proves item items _ (ensure_all-Proves items))

  -- The whole baseline was ensured, and nothing is to be done again.
  abbrev pub IsFinished : Outcome → Log → Type 0
  IsFinished o log = AllEnsured lib platform e (baseline platform e) log × (o ≡ stop)

  concluded-Proves :
      (a : Checked Unit)
      → Proves
          (Succeeds (λ log. Remains lib platform e log (baseline platform e) []) a)
          IsFinished
          (concluded lib (traced client) e a)
  concluded-Proves (ok u) =
      Gives-bind _ _ (Succeeds (λ log. Remains lib platform e log (baseline platform e) [])) _ _ _
        (record {
          kept = λ w o f.
              (update_status-Proves (λ log. Remains lib platform e log (baseline platform e) [])
                  (λ x log f. Remains-grow lib platform e x f) ready_report).kept
                w o f.0;
        })
        settled-Proves
    where
      settled-Proves :
          (a : Checked Unit)
          → Proves
              (Succeeds (λ log. Remains lib platform e log (baseline platform e) []) a)
              IsFinished
              (settled lib (traced client) stop a)
      settled-Proves (ok u) =
          Gives-pure _ _ _ _ (λ log f. (Remains-AllEnsured lib platform e f.0 tt, refl))
      settled-Proves (err p) = record { kept = λ w o f. cc }
  concluded-Proves (err p) = record { kept = λ w o f. cc }

  secure-Proves : Proves (λ log. Unit) IsFinished (secure lib (traced client) platform e)
  secure-Proves = record {
    kept = λ w o f.
        (Gives-bind _ _ _ _ _ _ (ensure_all-Proves (baseline platform e)) concluded-Proves).kept w o
          here;
  }

  started-Proves :
      (a : Checked Unit)
      → Proves (Succeeds (λ log. Unit) a) IsFinished (started lib (traced client) platform e a)
  started-Proves (ok u) = record { kept = λ w o f. secure-Proves.kept w o tt }
  started-Proves (err p) = record { kept = λ w o f. cc }

  with_valid-Proves :
      Proves (λ log. Unit) IsFinished (with_valid lib (traced client) platform e none)
  with_valid-Proves =
      Gives-if _ _ _ (is_unset e.status.phase || not (e.status.observed_generation == e.generation))
        _ _
        (λ _.
          Gives-bind _ _ _ _ _ _
            (update_status-Proves (λ log. Unit) (λ x log f. f) provisioning_report) started-Proves)
        (λ _. secure-Proves)

  -- Where the calls of the client succeed, the UserEnvironment keeps its generation, and no object of
  -- another is in the way, the reconcile of a valid UserEnvironment ends without an error and without a
  -- further one, and every object of the baseline was created or updated with its change.
  pub reconcile_environment-IsFinished :
      (w : World)
      → client.get_environment e.name w ≡ present e
      → IsValid lib platform e
      → IsFinished
          (reconcile_environment lib (traced client) platform e.name (w, [])).1
          (reconcile_environment lib (traced client) platform e.name (w, [])).0.1
  unfolding reconcile_environment
  reconcile_environment-IsFinished w read valid =
      rw read (rw valid ((with_valid-Proves.kept (w, []) tt tt).1))
