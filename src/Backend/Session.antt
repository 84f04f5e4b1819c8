-- ===== src/Backend/Session.antt =====
-- backend/internal/session/types.go and kubernetes.go: the sessions of the API server, and the
-- control of their AgentSession objects. A UUID is its text, an instant a number of nanoseconds.
-- The Kubernetes client is a parameter: what a call returns and how it changes the world is its own.
pub mod Transitions
pub mod Service
pub mod Projection
use bosun.Prelude.{
  ℕ, zero, suc, String, Bool, true, false, not, ◌&&◌, ◌||◌, Option, none, some, List, [], ◌∷◌,
  str_eq, if◌then◌else◌,
}
use bosun.Prelude.Dict.{Dict, insert}
use bosun.Cluster.{Condition}

pub data SessionError : Type 0 where
  not_found invalid_transition capacity environment_failed environment_ready validation :
      SessionError
  idempotency concurrent_update internal : SessionError

pub data Result {ℓ} (A : Type ℓ) : Type ℓ where
  ok : A → Result A
  err : SessionError → Result A

pub record Session : Type 0 where
  pub id : String
  pub user_id : String
  pub name : String
  pub priority : String
  pub memory_request_bytes : ℕ
  pub cr_namespace : String
  pub cr_name : String
  pub runtime : String
  pub provider_mode : String
  pub storage_policy : String
  pub desired_state : String
  pub resume_nonce : String
  pub phase : String
  pub phase_reason : String
  pub conditions : List Condition
  pub last_active_at : Option ℕ
  pub cr_resource_version : ℕ
  pub created_at : ℕ
  pub updated_at : ℕ
  pub version : ℕ

-- `Action`; the other values of the text type are one constructor.
pub data Action : Type 0 where
  hibernate resume retry other_action : Action

-- The AgentSession object, with the fields that the API server reads and writes.
pub record Cr : Type 0 where
  pub namespace : String
  pub name : String
  pub uid : String
  pub resource_version : ℕ
  pub labels : Dict String
  pub annotations : Dict String
  pub session_id : String
  pub user_id : String
  pub desired_state : String
  pub resume_nonce : String
  pub runtime : String
  pub provider_mode : String
  pub storage_policy : String
  pub memory_request : ℕ
  pub idle_timeout_seconds : ℕ
  pub active_deadline_seconds : ℕ
  pub priority_class_name : String
  pub phase : String
  pub observed_resume_nonce : String
  pub last_active_at : Option ℕ
  pub conditions : List Condition

unfoldable pub priority_class_name : String → String
priority_class_name priority =
    if str_eq priority "low"
    then "bosun-free"
    else if str_eq priority "high"
    then "bosun-high"
    else "bosun-normal"

unfoldable pub allowed_transition : String → Action → Bool
allowed_transition phase hibernate = str_eq phase "Running" || str_eq phase "Idle"
allowed_transition phase resume = str_eq phase "Hibernating" || str_eq phase "Hibernated"
allowed_transition phase retry = str_eq phase "Failed"
allowed_transition phase other_action = false

unfoldable pub transition_already_requested : Cr → Action → Bool
transition_already_requested cr hibernate = str_eq cr.desired_state "Hibernated"
transition_already_requested cr resume = not (str_eq cr.observed_resume_nonce cr.resume_nonce)
transition_already_requested cr retry = not (str_eq cr.observed_resume_nonce cr.resume_nonce)
transition_already_requested cr other_action = true

abbrev pub last_active_annotation : String
last_active_annotation = "bosun.io/last-active-at"

-- The AgentSession is the one of this session and of its user.
abbrev pub belongs : Cr → Session → Bool
belongs cr session = str_eq cr.session_id session.id && str_eq cr.user_id session.user_id

-- The `switch` on the action; `stamp` is the formatted time.
unfoldable pub apply_action : Action → String → String → Cr → Option Cr
apply_action hibernate nonce stamp cr = some (record cr { desired_state = "Hibernated" })
apply_action other_action nonce stamp cr = none
apply_action _ nonce stamp cr = some (record cr {
  desired_state = "Running";
  resume_nonce = nonce;
  annotations = insert last_active_annotation stamp cr.annotations;
})

unfoldable pub agent_session_from_domain : (ℕ → String) → Session → Cr
unfolding priority_class_name
agent_session_from_domain format session = record {
  namespace = session.cr_namespace;
  name = session.cr_name;
  uid = "";
  resource_version = 0;
  labels =
      ("app.kubernetes.io/managed-by", "bosun")
      ∷ ("bosun.io/user", session.user_id)
      ∷ ("bosun.io/session", session.id)
      ∷ [];
  annotations = (last_active_annotation, format session.created_at) ∷ [];
  session_id = session.id;
  user_id = session.user_id;
  desired_state = session.desired_state;
  resume_nonce = session.resume_nonce;
  runtime = session.runtime;
  provider_mode = session.provider_mode;
  storage_policy = session.storage_policy;
  memory_request = session.memory_request_bytes;
  idle_timeout_seconds = 1800;
  active_deadline_seconds = 28800;
  priority_class_name = priority_class_name session.priority;
  phase = "";
  observed_resume_nonce = "";
  last_active_at = none;
  conditions = [];
}

pub data CrRead : Type 0 where
  cr_found : Cr → CrRead
  cr_missing cr_unavailable : CrRead

-- The answer to an update: the object as the server stored it, or a refusal.
pub data CrWrite : Type 0 where
  stored : Cr → CrWrite
  conflicting refused : CrWrite

pub data Created : Type 0 where
  created already_exists create_failed : Created

pub data Deleted : Type 0 where
  deleted missing delete_failed : Deleted

pub record Client : Type 1 where
  pub World : Type 0
  pub get : String → String → World → CrRead
  pub create : Cr → World → World × Created
  pub update : Cr → World → World × CrWrite
  -- With the preconditions on the UID and on the version of the object.
  pub delete : Cr → World → World × Deleted
  -- `Format(time.RFC3339)`, and the steps of `retry.DefaultBackoff`.
  pub format : ℕ → String
  pub backoff_steps : ℕ

module _ (client : Client) where
  open client use {World, get, create, update, delete, format, backoff_steps}

  abbrev checked_owner : Session → Cr → Result Cr
  checked_owner session cr = if belongs cr session then ok cr else err not_found

  -- `CRControl.Ensure`: an existing AgentSession must be the one of this session.
  unfoldable pub ensure : Session → World → World × Result {0} Unit
  unfolding agent_session_from_domain
  ensure session w =
      let cr = agent_session_from_domain format session in
      let (w', answer) = create cr w in
      elim answer [
        | created ↦ (w', ok tt)
        | create_failed ↦ (w', err internal)
        | already_exists ↦ (
          w',
          elim (get cr.namespace cr.name w') [
            | cr_found existing ↦ if belongs existing session then ok tt else err internal
            | cr_missing ↦ err internal
            | cr_unavailable ↦ err internal
          ],
        )
      ]

  -- `CRControl.Get`.
  unfoldable pub get_cr : Session → World → Result Cr
  get_cr session w = elim (get session.cr_namespace session.cr_name w) [
    | cr_found cr ↦ checked_owner session cr
    | cr_missing ↦ err not_found
    | cr_unavailable ↦ err internal
  ]

  -- What the body of the retry in `Mutate` sends for the object that it read.
  unfoldable pub requested : Session → Action → String → ℕ → Cr → Result Cr
  unfolding allowed_transition transition_already_requested apply_action
  requested session action nonce now current =
      if not (belongs current session)
      then err not_found
      else if not (allowed_transition current.phase action)
          || transition_already_requested current action
      then err invalid_transition
      else elim (apply_action action nonce (format now) current) [
        | some next ↦ ok next
        | none ↦ err invalid_transition
      ]

  -- The answer to one update; after a conflict the rest of the retries is run.
  abbrev pub after_update : (World → World × Result Cr) → World × CrWrite → World × Result Cr
  after_update rest (w, stored cr) = (w, ok cr)
  after_update rest (w, conflicting) = rest w
  after_update rest (w, refused) = (w, err internal)

  abbrev pub send_request : (World → World × Result Cr) → Result Cr → World → World × Result Cr
  send_request rest (ok next) w = after_update rest (update next w)
  send_request rest (err e) w = (w, err e)

  abbrev pub mutate_read :
      (World → World × Result Cr) → (Cr → Result Cr) → CrRead → World → World × Result Cr
  mutate_read rest request (cr_found current) w = send_request rest (request current) w
  mutate_read rest request cr_missing w = (w, err not_found)
  mutate_read rest request cr_unavailable w = (w, err internal)

  -- `retry.RetryOnConflict` around the body, at most `n` times.
  unfoldable pub mutate_from : ℕ → Session → Action → String → ℕ → World → World × Result Cr
  unfolding requested
  mutate_from zero session action nonce now w = (w, err internal)
  mutate_from (suc n) session action nonce now w =
      mutate_read (mutate_from n session action nonce now) (requested session action nonce now)
        (get session.cr_namespace session.cr_name w) w

  unfoldable pub mutate : Session → Action → String → ℕ → World → World × Result Cr
  unfolding mutate_from
  mutate session action nonce now w = mutate_from backoff_steps session action nonce now w

  -- `CRControl.Delete`: a missing object counts as deleted.
  unfoldable pub delete_cr : Session → World → World × Result {0} Unit
  unfolding get_cr
  delete_cr session w = elim (get_cr session w) [
    | err not_found ↦ (w, ok tt)
    | err e ↦ (w, err e)
    | ok cr ↦
        let (w', answer) = delete cr w in
        elim answer [
          | deleted ↦ (w', ok tt)
          | missing ↦ (w', ok tt)
          | delete_failed ↦ (w', err internal)
        ]
  ]
