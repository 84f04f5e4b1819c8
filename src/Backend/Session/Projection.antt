-- ===== src/Backend/Session/Projection.antt =====
-- backend/internal/session/projector.go, with Project and MarkCleanupComplete of store.go and their
-- queries of database/sqlc/sessions.sql.go: the table of sessions as a projection of the AgentSessions.
-- A resource version is a number here, so that its parsing never fails; what the stream shows besides
-- AgentSessions is left out.
pub mod Newest
use bosun.Prelude.{
  ℕ, suc, String, Bool, true, false, not, ◌&&◌, Option, none, some, List, [], ◌∷◌, ltb, str_eq,
  if◌then◌else◌, map, any, find,
}
use bosun.Cluster.{Condition}
use bosun.Backend.Auth.{Fault, works, refused, lost}
use bosun.Backend.Session.{Session, Cr}
use bosun.Backend.Session.Service.{Event}

pub record Projection : Type 0 where
  pub session_id : String
  pub phase : String
  pub phase_reason : String
  pub conditions : List Condition
  pub last_active_at : Option ℕ
  pub resource_version : ℕ
  pub occurred_at : ℕ

-- A row of the sessions, and whether its `deleted_at` is set.
pub record Row : Type 0 where
  pub session : Session
  pub is_deleted : Bool

pub record Tables : Type 0 where
  pub rows : List Row
  pub events : List Event

abbrev pub is_older : Projection → Row → Bool
is_older p r =
    str_eq r.session.id p.session_id && ltb r.session.cr_resource_version p.resource_version

abbrev pub set_status : Projection → Row → Row
set_status p r = record r {
  session = record r.session {
    phase = p.phase;
    phase_reason = p.phase_reason;
    conditions = p.conditions;
    last_active_at = p.last_active_at;
    cr_resource_version = p.resource_version;
    updated_at = p.occurred_at;
    version = suc r.session.version;
  };
}

abbrev pub is_uncleaned : String → Row → Bool
is_uncleaned id r =
    str_eq r.session.id id && r.is_deleted && not (str_eq r.session.phase_reason "CleanupComplete")

abbrev pub set_cleaned : ℕ → Row → Row
set_cleaned time r = record r {
  session = record r.session {
    phase_reason = "CleanupComplete";
    updated_at = time;
    version = suc r.session.version;
  };
}

-- `UPDATE ... WHERE`.
abbrev pub update_row : (Row → Bool) → (Row → Row) → Row → Row
update_row test set r = if test r then set r else r

abbrev pub commit : Fault → Tables → Tables → Tables × Option Bool
commit works old new = (new, some true)
commit refused old new = (old, none)
commit lost old new = (new, none)

abbrev pub no_rows : Fault → Tables → Tables × Option Bool
no_rows works old = (old, some false)
no_rows refused old = (old, none)
no_rows lost old = (old, none)

-- A transaction that updates rows and inserts an event where there was a row. Its answer is an error
-- or whether a row was updated.
unfoldable pub update_with_event :
    Fault → (Row → Bool) → (Row → Row) → Event → Tables → Tables × Option Bool
update_with_event fault test set event t =
    if any test t.rows
    then commit fault t
        (record { rows = map (update_row test set) t.rows; events = event ∷ t.events })
    else no_rows fault t

unfoldable pub project_status : Fault → Projection → Event → Tables → Tables × Option Bool
unfolding update_with_event
project_status fault p event t = update_with_event fault (is_older p) (set_status p) event t

unfoldable pub mark_cleanup_complete : Fault → String → Event → Tables → Tables × Option Bool
unfolding update_with_event
mark_cleanup_complete fault id event t =
    update_with_event fault (is_uncleaned id) (set_cleaned event.occurred_at) event t

-- The functions of Go's libraries, and `newEvent` by its identifier and the time.
pub record Sources : Type 0 where
  pub parse_uuid : String → Option String
  -- The session and the kind of the event, and the object that it is about.
  pub new_event : String → String → Cr → Option Event

-- An event of the watch; `Added` and `Modified` are told apart by nothing.
pub data WatchEvent : Type 0 where
  changed deleted : Cr → WatchEvent

abbrev pub succeeded : Tables × Option Bool → Tables × Bool
succeeded (t, some b) = (t, true)
succeeded (t, none) = (t, false)

module _ (sources : Sources) where
  open sources use {parse_uuid, new_event}

  abbrev pub ready_reason : Option Condition → String
  ready_reason none = ""
  ready_reason (some c) = c.reason

  abbrev pub projection_of : String → Cr → ℕ → Projection
  projection_of id cr time = record {
    session_id = id;
    phase = cr.phase;
    phase_reason = ready_reason (find (λ c. str_eq c.kind "Ready") cr.conditions);
    conditions = cr.conditions;
    last_active_at = cr.last_active_at;
    resource_version = cr.resource_version;
    occurred_at = time;
  }

  abbrev pub project_event : Fault → Cr → String → Option Event → Tables → Tables × Bool
  project_event fault cr id none t = (t, false)
  project_event fault cr id (some event) t =
      succeeded (project_status fault (projection_of id cr event.occurred_at) event t)

  abbrev pub project_parsed : Fault → Cr → Option String → Tables → Tables × Bool
  project_parsed fault cr none t = (t, true)
  project_parsed fault cr (some id) t =
      project_event fault cr id (new_event id "session.phase_changed" cr) t

  -- `Projector.project`: the tables, and whether no error was returned.
  unfoldable pub project : Fault → Cr → Tables → Tables × Bool
  unfolding project_status
  project fault cr t =
      if str_eq cr.phase "" then (t, true) else project_parsed fault cr (parse_uuid cr.session_id) t

  abbrev pub clean_event : Fault → String → Option Event → Tables → Tables × Bool
  clean_event fault id none t = (t, false)
  clean_event fault id (some event) t = succeeded (mark_cleanup_complete fault id event t)

  abbrev pub clean_parsed : Fault → Cr → Option String → Tables → Tables × Bool
  clean_parsed fault cr none t = (t, true)
  clean_parsed fault cr (some id) t =
      clean_event fault id (new_event id "session.cleanup_completed" cr) t

  unfoldable pub cleanup_complete : Fault → Cr → Tables → Tables × Bool
  unfolding mark_cleanup_complete
  cleanup_complete fault cr t = clean_parsed fault cr (parse_uuid cr.session_id) t

  abbrev pub handle : Fault → WatchEvent → Tables → Tables × Bool
  handle fault (changed cr) t = project fault cr t
  handle fault (deleted cr) t = cleanup_complete fault cr t

  abbrev pub continue : (Tables → Tables × Bool) → Tables × Bool → Tables × Bool
  continue rest (t, true) = rest t
  continue rest (t, false) = (t, false)

  -- `runWatch` on the objects of its list and the events of its stream, each with what becomes of its
  -- transaction; it ends at the first error.
  unfoldable pub run_watch : List (Fault × WatchEvent) → Tables → Tables × Bool
  unfolding project cleanup_complete
  run_watch [] t = (t, true)
  run_watch ((fault, event) ∷ rest) t = continue (run_watch rest) (handle fault event t)
