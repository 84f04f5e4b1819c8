-- ===== src/Environment/Protocol.antt =====
-- What a reconcile of a user environment may do, by the object that it read and by what it did before,
-- and that it keeps to it.
pub mod Whole
use bosun.Prelude.{◌≡◌, ◌⊎◌, String, true, false, none, some, List, [], ◌∷◌, ◌==◌}
use bosun.Prelude.Trace.{Recorded, logged}
use bosun.Lifecycle.{Lookup, present, absent}
use bosun.Environment.{
  EnvironmentPhase, unset, pending, ready, failed, EnvironmentStatus, UserEnvironment, Object,
  permanent, Checked, ok, err, Client, Library,
}
use bosun.Environment.Baseline.{is_managed, Item, baseline, validate_user_environment, change}

pub data Event : Type 0 where
  -- The object that was read, and the status that was written to it.
  status_written : UserEnvironment → EnvironmentStatus → Event
  -- The object that was looked for, and what was found.
  object_read : Object → Lookup Object → Event
  -- The object and the change that were handed to the client, and its answer.
  ensured : Object → (Object → Checked Object) → Checked Unit → Event

-- The latest event first.
abbrev pub Log : Type 0
Log = List Event

-- The client that logs each call and then answers as `client` does.
abbrev pub traced : Client → Client
traced client = record {
  World = client.World × Log;
  get_environment = λ name w. client.get_environment name w.0;
  update_status = λ e new. logged (λ a. status_written e new) (client.update_status e new);
  get_object = λ o. logged (object_read o) (client.get_object o);
  create_or_update = λ o mutate. logged (ensured o mutate) (client.create_or_update o mutate);
  backoff_steps = client.backoff_steps;
}

module _ (lib : Library) (platform : String) where
  abbrev pub IsEnsured : UserEnvironment → Item → Log → Type 0
  IsEnsured e item log = Recorded (ensured item.object (change lib e item.mutate) (ok tt)) log

  abbrev pub AllEnsured : UserEnvironment → List Item → Log → Type 0
  AllEnsured e [] log = Unit
  AllEnsured e (item ∷ items) log = IsEnsured e item log × AllEnsured e items log

  -- The objects of the baseline, those before `items` ensured already.
  pub data Remains (e : UserEnvironment) (log : Log) : List Item → List Item → Type 0 where
    here : {items : List Item} → Remains e log items items
    later :
        {all items : List Item} {item : Item}
        → IsEnsured e item log
        → Remains e log all (item ∷ items)
        → Remains e log all items

  abbrev pub IsValid : UserEnvironment → Type 0
  IsValid e = validate_user_environment lib e ≡ none

  -- Something of the baseline belongs to another, or cannot be changed.
  abbrev pub HasConflict : UserEnvironment → Log → Type 0
  HasConflict e log =
      ((o : Object) × (existing : Object) × (is_managed e existing ≡ false)
        × Recorded (object_read o (present existing)) log)
      ⊎ ((o : Object) × (mutate : Object → Checked Object) × (reason : String) × (message : String)
          × Recorded (ensured o mutate (err (permanent reason message))) log)

  abbrev pub CanReport : UserEnvironment → Log → EnvironmentPhase → Type 0
  CanReport e log unset = ⊥
  CanReport e log pending = IsValid e
  CanReport e log ready = IsValid e × AllEnsured e (baseline platform e) log
  CanReport e log failed =
      ((text : String) × (validate_user_environment lib e ≡ some text))
      ⊎ (IsValid e × HasConflict e log)

  -- What each call needs: of the environment that was read first, of its arguments, and of the calls
  -- before.
  abbrev pub Allowed : UserEnvironment → Event → Log → Type 0
  Allowed e (status_written current new) log =
      ((current.generation == e.generation) ≡ true)
      × (new.observed_generation ≡ current.generation)
      × CanReport e log new.phase
  Allowed e (object_read o l) log = IsValid e
  Allowed e (ensured o mutate a) log =
      IsValid e
      × ((item : Item) × (items : List Item) × (o ≡ item.object)
          × (mutate ≡ change lib e item.mutate)
          × Remains e log (baseline platform e) (item ∷ items))
      × (Recorded (object_read o absent) log
          ⊎ ((existing : Object) × (is_managed e existing ≡ true)
              × Recorded (object_read o (present existing)) log))
