-- ===== src/Tests/Sessions.antt =====
-- The sessions of the API server over a store and a client of a single state.
use bosun.Prelude.{◌≡◌, ◌≢◌, refl, arith, true, Option, none, some, [], ◌∷◌, eq_iff}
use bosun.Prelude.Dict.{insert}
use bosun.Backend.Session.{
  Session, resume, Cr, ok, err, invalid_transition, not_found, internal, apply_action, Client,
  cr_found, stored, created, deleted, mutate,
}
use bosun.Backend.Session.Transitions.{SentIfOk, mutate-SentIfOk, mutate_again}
use bosun.Backend.Session.Service.{
  CreateRequest, CreateOutput, Record, Library, Services, create, create_session, decide, new_event,
  valid_create_request, parse_memory_request,
}
use bosun.Backend.Session.Service.Lifecycle.{transition}
use bosun.Backend.Session.Service.Requests.{RequestedIfOk, transition-RequestedIfOk}
use bosun.Backend.Session.Service.Creation.{IsCreated, create-IsCreated}

abbrev idle : Session
idle = record {
  id = "s1";
  user_id = "u1";
  name = "work";
  priority = "high";
  memory_request_bytes = 2147483648;
  cr_namespace = "bosun-u-1";
  cr_name = "sess-1";
  runtime = "claude-code";
  provider_mode = "platform";
  storage_policy = "local";
  desired_state = "Hibernated";
  resume_nonce = "n1";
  phase = "Hibernated";
  phase_reason = "";
  conditions = [];
  last_active_at = none;
  cr_resource_version = 3;
  created_at = 1;
  updated_at = 1;
  version = 1;
}

abbrev object : Cr
object = record {
  namespace = "bosun-u-1";
  name = "sess-1";
  uid = "uid";
  resource_version = 3;
  labels = [];
  annotations = [];
  session_id = "s1";
  user_id = "u1";
  desired_state = "Hibernated";
  resume_nonce = "n1";
  runtime = "claude-code";
  provider_mode = "platform";
  storage_policy = "local";
  memory_request = 2147483648;
  idle_timeout_seconds = 1800;
  active_deadline_seconds = 28800;
  priority_class_name = "bosun-high";
  phase = "Hibernated";
  observed_resume_nonce = "n1";
  last_active_at = none;
  conditions = [];
}

-- A client whose world is the one object that there is.
abbrev one_object : Client
one_object = record {
  World = Cr;
  get = λ namespace name w. cr_found w;
  create = λ cr w. (w, created);
  update = λ cr w. (cr, stored cr);
  delete = λ cr w. (w, deleted);
  format = λ t. "2026-01-01T00:00:00Z";
  backoff_steps = 4;
}

abbrev resumed : Cr
resumed = record object {
  desired_state = "Running";
  resume_nonce = "n2";
  annotations = ("bosun.io/last-active-at", "2026-01-01T00:00:00Z") ∷ [];
}

mutate-SentIfOk_example :
    SentIfOk one_object idle resume "n2" 5 (mutate one_object idle resume "n2" 5 object)
mutate-SentIfOk_example = mutate-SentIfOk one_object idle resume "n2" 5 object

n1_ne_n2 : object.observed_resume_nonce ≢ "n2"
n1_ne_n2 = λ h. ground (arith, (eq_iff "n1" "n2").1 h)

mutate_again_example :
    mutate one_object idle resume "n3" 6 resumed ≡ (resumed, err invalid_transition)
unfolding apply_action insert
mutate_again_example =
    mutate_again one_object idle resume "n2" "2026-01-01T00:00:00Z" "n3" 6 object resumed resumed
      refl refl n1_ne_n2 refl (omega arith)

-- Stand-ins for the functions of the libraries.
abbrev plain : Library
plain = record {
  trim_space = λ s. s;
  valid_utf8 = λ s. true;
  rune_count = λ s. 4;
  parse_quantity = λ s. none;
  quantity_text = λ n. "2Gi";
  marshal_payload = λ m. some "{}";
  marshal_session = λ s. some "{\"code\":0}";
  sha256_hex = λ s. "0123456789abcdef";
}

-- A store that holds the last response, for its one user and key.
abbrev one_key : Services
one_key = record {
  World = Option Record;
  now = λ w. 7;
  new_id = λ w. (w, some "id");
  get_idempotency_key = λ user key w. some w;
  environment_phase = λ user w. some "Ready";
  count_total = λ user w. ok 19;
  create_with_event_and_idempotency = λ rec event input w. (
    some (record { request_hash = input.request_hash; status = input.status; body = input.body }),
    none,
  );
  get = λ user id w. err not_found;
  list = λ user limit offset w. ok (record { items = []; total = 0 });
  update_desired = λ rec event w. (w, ok rec);
  soft_delete = λ user id event w. (w, err not_found);
  runtime_ensure = λ rec w. (w, err internal);
  runtime_get = λ rec w. err not_found;
  runtime_mutate = λ rec action nonce now w. (w, err not_found);
  runtime_delete = λ rec w. (w, ok tt);
}

abbrev request : CreateRequest
request = record {
  name = "work";
  priority = "high";
  memory_request = "";
  runtime = "claude-code";
  provider_mode = "platform";
  credential_id = "";
  storage_policy = "local";
}

abbrev response : CreateOutput
response = record { status = 202; body = "{\"code\":0}" }

abbrev saved : Record
saved = record { request_hash = "hash"; status = 202; body = "{\"code\":0}" }

create_first :
    create plain one_key "u1" "key" "POST" "/sessions" "hash" request none
    ≡ (some saved, ok response)
unfolding create create_session decide valid_create_request parse_memory_request new_event
create_first = refl

create-IsCreated_example :
    IsCreated plain one_key "u1" "key" "POST" "/sessions" "hash" request none
      (create plain one_key "u1" "key" "POST" "/sessions" "hash" request none)
create-IsCreated_example =
    create-IsCreated plain one_key "u1" "key" "POST" "/sessions" "hash" request none

-- A store that holds one session, and a cluster that accepts every request.
abbrev one_session : Services
one_session = record one_key {
  get = λ user id w. ok idle;
  runtime_mutate = λ rec action nonce now w. (w, ok object);
}

transition-RequestedIfOk_example :
    RequestedIfOk plain one_session "u1" "s1" resume none
      (transition plain one_session "u1" "s1" resume none)
transition-RequestedIfOk_example = transition-RequestedIfOk plain one_session "u1" "s1" resume none
