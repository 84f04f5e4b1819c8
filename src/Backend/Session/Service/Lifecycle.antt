-- ===== src/Backend/Session/Service/Lifecycle.antt =====
-- backend/internal/session/service.go: reading, listing, changing and deleting a session.
use bosun.Prelude.{
  ℕ, ◌-◌, ◌*◌, String, ◌&&◌, ◌||◌, Option, none, some, [], ◌∷◌, ltb, str_eq, if◌then◌else◌,
}
use bosun.Backend.Session.{
  Session, not_found, invalid_transition, validation, concurrent_update, internal, Result, ok, err,
  Action, hibernate, resume, retry, other_action, Cr,
}
use bosun.Backend.Session.Service.{Library, Services, Page, Event, project, new_event}

module _ (library : Library) (services : Services) where
  open services use {
    World, now, new_id, get, list, update_desired, soft_delete, runtime_get, runtime_mutate,
    runtime_delete,
  }

  abbrev pub projected : Session → Result Cr → Result Session
  projected rec (ok cr) = ok (project rec cr)
  projected rec (err not_found) = ok rec
  projected rec (err e) = err e

  unfoldable pub get_session : String → String → World → Result Session
  unfolding project
  get_session user_id session_id w = elim (get user_id session_id w) [
    | err e ↦ err e
    | ok rec ↦ projected rec (runtime_get rec w)
  ]

  unfoldable pub list_sessions : String → ℕ → ℕ → World → Result Page
  list_sessions user_id page page_size w =
      if ltb page 1 || ltb page_size 1 || ltb 100 page_size
      then err validation
      else list user_id page_size ((page - 1) * page_size) w

  -- The record with the requested change.
  unfoldable pub desired_record : Action → String → ℕ → Session → Session
  desired_record hibernate nonce at rec = record rec {
    desired_state = "Hibernated";
    updated_at = at;
  }
  desired_record _ nonce at rec = record rec {
    desired_state = "Running";
    resume_nonce = nonce;
    last_active_at = some at;
    updated_at = at;
  }

  abbrev pub event_kind : Action → String
  event_kind hibernate = "session.hibernate_requested"
  event_kind resume = "session.resume_requested"
  event_kind retry = "session.retry_requested"
  event_kind other_action = "session.other_requested"

  abbrev pub latest_if_same : Session → Result Session → Result Session
  latest_if_same rec (err e) = err invalid_transition
  latest_if_same rec (ok latest) =
      if str_eq latest.desired_state rec.desired_state
        && str_eq latest.resume_nonce rec.resume_nonce
      then ok latest
      else err invalid_transition

  -- What follows `UpdateDesired`: a concurrent update that asked for the same is a success.
  abbrev pub after_desired :
      String → String → Session → World × Result Session → World × Result Session
  after_desired user_id session_id rec (w, err concurrent_update) =
      (w, latest_if_same rec (get user_id session_id w))
  after_desired user_id session_id rec (w, r) = (w, r)

  abbrev pub save_desired :
      String → String → Session → World × Option Event → World × Result Session
  save_desired user_id session_id rec (w, none) = (w, err internal)
  save_desired user_id session_id rec (w, some event) =
      after_desired user_id session_id rec (update_desired rec event w)

  abbrev pub after_mutate :
      String → String → Action → Session → World × Result Cr → World × Result Session
  after_mutate user_id session_id action rec (w, err e) = (w, err e)
  after_mutate user_id session_id action rec (w, ok cr) = save_desired user_id session_id rec (
      new_event library services rec.id (event_kind action)
        (("desiredState", rec.desired_state) ∷ ("resumeNonce", rec.resume_nonce) ∷ [])
        rec.updated_at w)

  abbrev pub with_nonce :
      String → String → Action → Session → World × Option String → World × Result Session
  with_nonce user_id session_id action rec (w, none) = (w, err internal)
  with_nonce user_id session_id action rec (w, some nonce) =
      after_mutate user_id session_id action (desired_record action nonce (now w) rec)
        (runtime_mutate rec action nonce (now w) w)

  -- A new nonce for an action that starts the session again.
  abbrev pub nonce_for : Action → Session → World → World × Option String
  nonce_for resume rec w = new_id w
  nonce_for retry rec w = new_id w
  nonce_for _ rec w = (w, some rec.resume_nonce)

  abbrev pub transition_record :
      String → String → Action → Result Session → World → World × Result Session
  transition_record user_id session_id action (err e) w = (w, err e)
  transition_record user_id session_id action (ok rec) w =
      with_nonce user_id session_id action rec (nonce_for action rec w)

  unfoldable pub transition : String → String → Action → World → World × Result Session
  unfolding new_event desired_record
  transition user_id session_id action w =
      transition_record user_id session_id action (get user_id session_id w) w

  abbrev pub after_soft_delete : World × Result Session → World × Result Session
  after_soft_delete (w, err e) = (w, err e)
  after_soft_delete (w, ok rec) = ((runtime_delete rec w).0, ok rec)

  abbrev pub delete_record : String → String → World × Option Event → World × Result Session
  delete_record user_id session_id (w, none) = (w, err internal)
  delete_record user_id session_id (w, some event) =
      after_soft_delete (soft_delete user_id session_id event w)

  -- The error of `runtime.Delete` after the soft delete is only logged.
  unfoldable pub delete_session : String → String → World → World × Result Session
  unfolding new_event
  delete_session user_id session_id w = delete_record user_id session_id (
      new_event library services session_id "session.delete_requested"
        (("destructive", "true") ∷ []) (now w) w)
