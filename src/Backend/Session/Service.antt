-- ===== src/Backend/Session/Service.antt =====
-- backend/internal/session/service.go, with idempotency/idempotency.go and the names of
-- operator/pkg/sessionidentity/names.go and backend/internal/userenv/identity.go: the operations of
-- the session service over its four interfaces. The idempotency lock makes `create` one step.
pub mod Lifecycle
pub mod Creation
pub mod Requests
use Prim.Native.String.{◌++◌, slice}
use bosun.Prelude.{
  ℕ, ◌+◌, ◌*◌, ◌^◌, String, Bool, false, not, ◌&&◌, ◌||◌, Option, none, some, List, [], ◌∷◌, ltb,
  leb, str_eq, if◌then◌else◌, find,
}
use bosun.Prelude.Dict.{Dict}
use bosun.Cluster.{Condition}
use bosun.Backend.Session.{
  Session, SessionError, capacity, environment_failed, environment_ready, validation, idempotency,
  internal, Result, ok, err, Action, Cr,
}

abbrev pub max_sessions_per_user : ℕ
max_sessions_per_user = 20

abbrev pub gibibyte : ℕ
gibibyte = 2 ^ 30

abbrev pub min_memory_request : ℕ
min_memory_request = 1 * gibibyte

abbrev pub max_memory_request : ℕ
max_memory_request = 64 * gibibyte

abbrev pub default_memory_request : ℕ
default_memory_request = 2 * gibibyte

pub record CreateRequest : Type 0 where
  pub name : String
  pub priority : String
  pub memory_request : String
  pub runtime : String
  pub provider_mode : String
  pub credential_id : String
  pub storage_policy : String

pub record Page : Type 0 where
  pub items : List Session
  pub total : ℕ

pub record Event : Type 0 where
  pub id : String
  pub session_id : String
  pub kind : String
  pub payload : String
  pub occurred_at : ℕ

pub record IdempotencyInput : Type 0 where
  pub key : String
  pub method : String
  pub path : String
  pub request_hash : String
  pub status : ℕ
  pub body : String
  pub expires_at : ℕ

-- `idempotency.Record`.
pub record Record : Type 0 where
  pub request_hash : String
  pub status : ℕ
  pub body : String

pub data Decision : Type 0 where
  proceed replay conflict : Decision

unfoldable pub decide : Option Record → String → Decision
decide none request_hash = proceed
decide (some existing) request_hash =
    if str_eq existing.request_hash request_hash then replay else conflict

pub record CreateOutput : Type 0 where
  pub status : ℕ
  pub body : String

-- The functions of Go's libraries that the service calls: texts, quantities (in bytes, rounded up,
-- 0 for a negative one), JSON, and SHA-256 in hexadecimal digits.
pub record Library : Type 0 where
  pub trim_space : String → String
  pub valid_utf8 : String → Bool
  pub rune_count : String → ℕ
  pub parse_quantity : String → Option ℕ
  pub quantity_text : ℕ → String
  pub marshal_payload : Dict String → Option String
  pub marshal_session : Session → Option String
  pub sha256_hex : String → String

-- The interfaces `Store`, `IdempotencyStore`, `Environment` and `RuntimeControl`, the clock and
-- `uuid.NewV7`. An error that the service does not tell apart is `none`.
pub record Services : Type 1 where
  pub World : Type 0
  pub now : World → ℕ
  pub new_id : World → World × Option String
  pub get_idempotency_key : String → String → World → Option (Option Record)
  pub environment_phase : String → World → Option String
  pub count_total : String → World → Result ℕ
  pub create_with_event_and_idempotency :
      Session → Event → IdempotencyInput → World → World × Option SessionError
  pub get : String → String → World → Result Session
  pub list : String → ℕ → ℕ → World → Result Page
  pub update_desired : Session → Event → World → World × Result Session
  pub soft_delete : String → String → Event → World → World × Result Session
  pub runtime_ensure : Session → World → World × Result {0} Unit
  pub runtime_get : Session → World → Result Cr
  pub runtime_mutate : Session → Action → String → ℕ → World → World × Result Cr
  pub runtime_delete : Session → World → World × Result {0} Unit

module _ (library : Library) where
  open library use {trim_space, valid_utf8, rune_count, parse_quantity, sha256_hex}

  unfoldable pub short_id : String → String
  short_id id = slice (sha256_hex id) 0 12

  unfoldable pub cr_name : String → String
  unfolding short_id
  cr_name session_id = "sess-" ++ short_id session_id

  unfoldable pub namespace_of : String → String
  unfolding short_id
  namespace_of user_id = "bosun-u-" ++ short_id user_id

  unfoldable pub parse_memory_request : String → Option ℕ
  parse_memory_request raw =
      if str_eq raw "" then some default_memory_request else parse_quantity raw

  abbrev pub memory_in_range : Option ℕ → Bool
  memory_in_range none = false
  memory_in_range (some bytes) = leb min_memory_request bytes && leb bytes max_memory_request

  unfoldable pub valid_create_request : CreateRequest → Bool
  unfolding parse_memory_request
  valid_create_request req =
      let name = trim_space req.name in
      valid_utf8 name
      && leb 1 (rune_count name)
      && leb (rune_count name) 80
      && (str_eq req.priority "low" || str_eq req.priority "normal" || str_eq req.priority "high")
      && memory_in_range (parse_memory_request req.memory_request)
      && str_eq req.runtime "claude-code"
      && str_eq req.provider_mode "platform"
      && str_eq req.credential_id ""
      && str_eq req.storage_policy "local"

  abbrev pub bytes_or_zero : Option ℕ → ℕ
  bytes_or_zero none = 0
  bytes_or_zero (some bytes) = bytes

  -- The record of a new session.
  unfoldable pub new_session : String → CreateRequest → String → String → ℕ → Session
  unfolding parse_memory_request cr_name namespace_of
  new_session user_id req id nonce now = record {
    id = id;
    user_id = user_id;
    name = trim_space req.name;
    priority = req.priority;
    memory_request_bytes = bytes_or_zero (parse_memory_request req.memory_request);
    cr_namespace = namespace_of user_id;
    cr_name = cr_name id;
    runtime = req.runtime;
    provider_mode = req.provider_mode;
    storage_policy = req.storage_policy;
    desired_state = "Running";
    resume_nonce = nonce;
    phase = "Pending";
    phase_reason = "CreateRequested";
    conditions = [];
    last_active_at = some now;
    cr_resource_version = 0;
    created_at = now;
    updated_at = now;
    version = 1;
  }

-- The fields of a newer AgentSession over those of the stored record.
abbrev pub reason_of : String → Option Condition → String
reason_of old none = old
reason_of old (some c) = c.reason

abbrev pub newer : Option ℕ → Option ℕ → Option ℕ
newer old none = old
newer old (some t) = some t

unfoldable pub project : Session → Cr → Session
project rec cr =
    if ltb rec.cr_resource_version cr.resource_version
    then record rec {
      phase = cr.phase;
      conditions = cr.conditions;
      last_active_at = newer rec.last_active_at cr.last_active_at;
      phase_reason = reason_of rec.phase_reason (find (λ c. str_eq c.kind "Ready") cr.conditions);
    }
    else rec

module _ (library : Library) (services : Services) where
  open services use {
    World, now, new_id, get_idempotency_key, environment_phase, count_total,
    create_with_event_and_idempotency, get, list, update_desired, soft_delete, runtime_ensure,
    runtime_get, runtime_mutate, runtime_delete,
  }
  open library use {marshal_payload, marshal_session, quantity_text}

  -- `newEvent`.
  unfoldable pub new_event : String → String → Dict String → ℕ → World → World × Option Event
  new_event session_id kind payload at w =
      let (w', id) = new_id w in
      (
        w',
        elim id [
          | none ↦ none
          | some event_id ↦ elim (marshal_payload payload) [
            | none ↦ none
            | some body ↦ some (record {
              id = event_id;
              session_id = session_id;
              kind = kind;
              payload = body;
              occurred_at = at;
            })
          ]
        ],
      )

  -- The response of an accepted request.
  abbrev pub accepted : String → CreateOutput
  accepted body = record { status = 202; body = body }

  abbrev pub input_of : String → String → String → String → String → ℕ → IdempotencyInput
  input_of key method path request_hash body created_at = record {
    key = key;
    method = method;
    path = path;
    request_hash = request_hash;
    status = 202;
    body = body;
    expires_at = created_at + 24 * 3_600_000_000_000;
  }

  abbrev pub created_payload : Session → Dict String
  created_payload rec =
      ("name", rec.name)
      ∷ ("priority", rec.priority)
      ∷ ("memoryRequest", quantity_text rec.memory_request_bytes)
      ∷ ("runtime", rec.runtime)
      ∷ ("storagePolicy", rec.storage_policy)
      ∷ []

  -- The write of the new session; a failure of `Ensure` after it is only logged.
  abbrev pub committed :
      Session → String → World × Option SessionError → World × Result CreateOutput
  committed rec body (w, some e) = (w, err e)
  committed rec body (w, none) = ((runtime_ensure rec w).0, ok (accepted body))

  abbrev pub store_session :
      Session → IdempotencyInput → String → World × Option Event → World × Result CreateOutput
  store_session rec input body (w, none) = (w, err internal)
  store_session rec input body (w, some event) =
      committed rec body (create_with_event_and_idempotency rec event input w)

  abbrev pub rendered :
      Session → (String → IdempotencyInput) → Option String → World → World × Result CreateOutput
  rendered rec input none w = (w, err internal)
  rendered rec input (some body) w =
      store_session rec (input body) body
        (new_event rec.id "session.created" (created_payload rec) rec.created_at w)

  -- From the generation of the identifiers on.
  unfoldable pub create_session :
      String
      → String
      → String
      → String
      → String
      → CreateRequest
      → World
      → World × Result CreateOutput
  unfolding new_event new_session
  create_session user_id key method path request_hash req w =
      let (w1, id) = new_id w in
      elim id [
        | none ↦ (w1, err internal)
        | some session_id ↦
            let (w2, nonce) = new_id w1 in
            elim nonce [
              | none ↦ (w2, err internal)
              | some n ↦
                  let rec = new_session library user_id req session_id n (now w2) in
                  rendered rec (λ body. input_of key method path request_hash body (now w2))
                    (marshal_session rec) w2
            ]
      ]

  abbrev pub with_count :
      Result ℕ → World → (World → World × Result CreateOutput) → World × Result CreateOutput
  with_count (err e) w next = (w, err e)
  with_count (ok total) w next =
      if leb max_sessions_per_user total then (w, err capacity) else next w

  abbrev pub with_phase :
      Option String → World → (World → World × Result CreateOutput) → World × Result CreateOutput
  with_phase none w next = (w, err internal)
  with_phase (some phase) w next =
      if str_eq phase "Ready"
      then next w
      else if str_eq phase "Failed"
      then (w, err environment_failed)
      else (w, err environment_ready)

  abbrev pub replayed : Option Record → CreateOutput
  replayed none = record { status = 0; body = "" }
  replayed (some existing) = record { status = existing.status; body = existing.body }

  abbrev pub with_decision :
      Decision
      → Option Record
      → World
      → (World → World × Result CreateOutput)
      → World × Result CreateOutput
  with_decision replay existing w next = (w, ok (replayed existing))
  with_decision conflict existing w next = (w, err idempotency)
  with_decision proceed existing w next = next w

  abbrev pub with_record :
      Option (Option Record)
      → String
      → World
      → (World → World × Result CreateOutput)
      → World × Result CreateOutput
  with_record none request_hash w next = (w, err internal)
  with_record (some existing) request_hash w next =
      with_decision (decide existing request_hash) existing w next

  unfoldable pub create :
      String
      → String
      → String
      → String
      → String
      → CreateRequest
      → World
      → World × Result CreateOutput
  unfolding create_session valid_create_request decide
  create user_id key method path request_hash req w =
      if str_eq key "" || not (valid_create_request library req)
      then (w, err validation)
      else with_record (get_idempotency_key user_id key w) request_hash w (λ w.
        with_phase (environment_phase user_id w) w (λ w.
          with_count (count_total user_id w) w
            (create_session user_id key method path request_hash req)))
