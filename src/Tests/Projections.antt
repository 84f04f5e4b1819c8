-- ===== src/Tests/Projections.antt =====
-- A watch that shows one session twice, the older object last, and a transaction whose answer is lost.
use bosun.Prelude.{ℕ, ◌≡◌, refl, false, none, some, List, [], ◌∷◌}
use bosun.Backend.Auth.{Fault, works, lost}
use bosun.Backend.Session.{Session, Cr}
use bosun.Backend.Session.Projection.{Row, Tables, Sources, WatchEvent, changed, run_watch}
use bosun.Backend.Session.Projection.Newest.{Pairs, Moves, run_watch-Moves}

abbrev sources : Sources
sources = record {
  parse_uuid = λ s. some s;
  new_event = λ id kind cr.
      some (record { id = "e1"; session_id = id; kind = kind; payload = "{}"; occurred_at = 7 });
}

abbrev stored : Session
stored = record {
  id = "s1";
  user_id = "u1";
  name = "work";
  priority = "high";
  memory_request_bytes = 2147483648;
  cr_namespace = "bosun-u-1";
  cr_name = "sess-1";
  runtime = "claude-code";
  provider_mode = "platform";
  storage_policy = "local";
  desired_state = "Hibernated";
  resume_nonce = "n1";
  phase = "Hibernated";
  phase_reason = "";
  conditions = [];
  last_active_at = none;
  cr_resource_version = 3;
  created_at = 1;
  updated_at = 1;
  version = 1;
}

abbrev object : Cr
object = record {
  namespace = "bosun-u-1";
  name = "sess-1";
  uid = "uid";
  resource_version = 5;
  labels = [];
  annotations = [];
  session_id = "s1";
  user_id = "u1";
  desired_state = "Hibernated";
  resume_nonce = "n1";
  runtime = "claude-code";
  provider_mode = "platform";
  storage_policy = "local";
  memory_request = 2147483648;
  idle_timeout_seconds = 1800;
  active_deadline_seconds = 28800;
  priority_class_name = "bosun-high";
  phase = "Running";
  observed_resume_nonce = "n1";
  last_active_at = none;
  conditions = [];
}

abbrev tables : Tables
tables = record { rows = record { session = stored; is_deleted = false } ∷ []; events = [] }

abbrev shown : List (Fault × WatchEvent)
shown =
    (works, changed object)
    ∷ (works, changed (record object { resource_version = 4; phase = "Provisioning" }))
    ∷ (lost, changed (record object { resource_version = 6 }))
    ∷ []

abbrev versions : List Row → List (ℕ × ℕ)
versions [] = []
versions (r ∷ rs) = (r.session.cr_resource_version, r.session.version) ∷ versions rs

-- The older object is not projected, and the lost answer ends the watch after its write.
run_watch-shown : versions (run_watch sources shown tables).0.rows ≡ (6, 3) ∷ []
unfolding run_watch
run_watch-shown = refl

run_watch-Moves_example :
    Pairs
      (Moves sources shown (run_watch sources shown tables).1)
      tables.rows
      (run_watch sources shown tables).0.rows
run_watch-Moves_example = run_watch-Moves sources shown tables
